-- ===== src/Examples/Factory.antt =====
-- A factory of hubs.
use gpf.Prelude.{
  ℕ, ◌+◌, ◌-◌, ◌≡◌, refl, ap, Option, none, some, map, List, [], ◌∷◌, ◌++◌, ℤ, pos, true, arith,
  nat_eq, Bool-cases, inl, inr, if◌then◌else◌,
}
use gpf.Prelude.Lists.{All, Member}
use gpf.Url.{Bytes, validate_url}
use gpf.Factory.{
  HubFactory, ClientInfo, EngineInfo, hub_factory, percent, percent_i, set_ip, set_transport,
  client_info, engine_info,
}
use gpf.Factory.Launch.{Socket, binds, bytes_eq}
use gpf.Factory.Launch.Bound.{advertised-bound}
use gpf.Factory.Valid.{Formats, checked_urls, checked_urls-valid}
use gpf.Url.Split.{Without}

-- One byte for each number, from the digit `0` on.
abbrev one_byte : ℕ → Bytes
one_byte n = (n + 48) ∷ []

abbrev read_byte : Bytes → Option ℤ
read_byte [] = none
read_byte (b ∷ s) = some (pos (b - 48))

abbrev prepend : ℕ → Option Bytes → Option Bytes
prepend b none = none
prepend b (some s) = some (b ∷ s)

-- The first `%` has to be that of a `%i` at the end.
abbrev one_number : Bytes → ℕ → Option Bytes
one_number [] n = none
one_number (b ∷ s) n =
    let rest = prepend b (one_number s n) in
    if nat_eq b percent then (if bytes_eq s (105 ∷ []) then some (one_byte n) else none) else rest

one_number-eq :
    (text : Bytes) (n : ℕ)
    → Without percent text
    → one_number (text ++ percent_i) n ≡ some (text ++ one_byte n)
one_number-eq [] n v = refl
one_number-eq (b ∷ s) n v = elim (Bool-cases (nat_eq b percent)) [
  | inl e ↦ absurd (v.0 (ground (arith, e)))
  | inr e ↦ rw e (rw (one_number-eq s n v.1) refl)
]

one_number-Formats : Formats one_byte one_number
one_number-Formats text n v small = one_number-eq text n v

abbrev tcp : Bytes
tcp = 116 ∷ 99 ∷ 112 ∷ []

abbrev h : Bytes
h = 104 ∷ []

abbrev ready : HubFactory
ready = set_ip one_byte h (set_transport one_byte tcp (hub_factory 0))

checked_urls-valid_example :
    (ci : ClientInfo) × (ei : EngineInfo) × (client_info one_number ready ≡ some ci)
    × (engine_info one_number ready ≡ some ei)
    × All (λ u. validate_url (λ b. b) read_byte u ≡ true) (checked_urls ci ei)
checked_urls-valid_example =
    checked_urls-valid (λ b. b) read_byte one_byte (λ n. (omega arith, tt))
      (λ n small. ap (λ k. some (pos k)) (omega arith)) tcp h
      (omega arith, (omega arith, (omega arith, tt))) (λ e. cc) (omega arith, tt) (omega arith, tt)
      (omega arith, tt) one_number one_number-Formats
      (omega arith, (omega arith, (omega arith, tt))) (omega arith, tt) 0 (omega arith)

advertised-bound_example :
    (ci : ClientInfo) × (ei : EngineInfo) × (bs : List (Socket × Bytes)) × (client_info one_number
        ready
      ≡ some ci)
    × (engine_info one_number ready ≡ some ei)
    × (binds one_number ready ≡ some bs)
    × All
        (λ a. Member a (map (λ (b : Socket × Bytes). b.1) bs))
        (ci.hub_registration ∷ ei.hub_registration ∷ ci.notification ∷ ei.heartbeat0 ∷ ei.heartbeat1
          ∷ [])
    × All
        (λ a. ¬ Member a (map (λ (b : Socket × Bytes). b.1) bs))
        (ci.mux ∷ ei.mux ∷ ci.task ∷ ei.task ∷ ci.control ∷ ei.control ∷ ci.iopub ∷ ei.iopub ∷ [])
advertised-bound_example =
    advertised-bound (λ b. b) read_byte one_byte one_number one_number-Formats
      (λ n. (omega arith, tt)) (λ n small. ap (λ k. some (pos k)) (omega arith)) tcp h
      (omega arith, (omega arith, (omega arith, tt))) (λ e. cc) (omega arith, tt) (omega arith, tt)
      (omega arith, (omega arith, (omega arith, tt))) (omega arith, tt) (omega arith, tt)
      (
        omega arith,
        (
          omega arith,
          (omega arith, (omega arith, (omega arith, (omega arith, (omega arith, tt))))),
        ),
      )
      0 (omega arith)
