-- ===== src/Factory/Ports.antt =====
-- No two sockets share a port.
use Prim.Native.Nat.{◌<◌}
use gpf.Prelude.{ℕ, zero, suc, ◌+◌, ◌≡◌, refl, ap, List, [], ◌∷◌, ◌++◌, arith}
use gpf.Prelude.Lists.{All}
use gpf.Factory.{Portpool, get, port_at, HubFactory, hub_factory}

-- `n` ports from `p` on.
abbrev pub consecutive : ℕ → ℕ → List ℕ
consecutive zero p = []
consecutive (suc n) p = p ∷ consecutive n (suc p)

get-eq : (n : ℕ) (p : Portpool) → get n p ≡ (consecutive n p.end, record p { end = p.end + n })
unfolding get
get-eq zero p = ap (λ k. ([], record p { end = k })) (omega arith)
get-eq (suc n) p =
    let rest = get-eq n (record p { end = suc p.end }) in
    let same : suc p.end + n ≡ p.end + suc n = omega arith in
    rw rest (ap (λ k. (p.end ∷ consecutive n (suc p.end), record p { end = k })) same)

consecutive-append : (a b q : ℕ) → consecutive a q ++ consecutive b (q + a) ≡ consecutive (a + b) q
consecutive-append zero b q =
    let from : q + 0 ≡ q = omega arith in let many : 0 + b ≡ b = omega arith in rw (from, many) refl
consecutive-append (suc a) b q =
    let from : q + suc a ≡ suc q + a = omega arith in
    let many : suc a + b ≡ suc (a + b) = omega arith in
    rw (from, many) (ap (λ v. q ∷ v) (consecutive-append a b (suc q)))

-- Two requests to a pool are one: the second goes on where the first has ended.
pub get-append :
    (m n : ℕ) (p : Portpool)
    → let r = get m p in
      let s = get n r.1 in (r.0 ++ s.0 ≡ (get (m + n) p).0) × (s.1 ≡ (get (m + n) p).1)
get-append m n p =
    let same : p.end + m + n ≡ p.end + (m + n) = omega arith in
    rw (get-eq m p, get-eq (m + n) p, get-eq n (record p { end = p.end + m }))
      (consecutive-append m n p.end, ap (λ k. record p { end = k }) same)

-- All ports of a factory.
abbrev pub all_ports : HubFactory → List ℕ
all_ports f =
    f.hb_ports
    ++ (f.mux_ports
        ++ (f.task_ports
            ++ (f.control_ports
                ++ (f.iopub_ports ++ (f.mon_port ∷ f.notifier_port ∷ f.reg_port ∷ [])))))

abbrev pub Increasing : List ℕ → Type 0
Increasing [] = Unit
Increasing (p ∷ v) = All (λ q. p < q) v × Increasing v

consecutive-above : (n p q : ℕ) → p < q → All (λ k. p < k) (consecutive n q)
consecutive-above zero p q less = tt
consecutive-above (suc n) p q less = (less, consecutive-above n p (suc q) (omega (arith, less)))

consecutive-Increasing : (n p : ℕ) → Increasing (consecutive n p)
consecutive-Increasing zero p = tt
consecutive-Increasing (suc n) p =
    (consecutive-above n p (suc p) (omega arith), consecutive-Increasing n (suc p))

-- The ports of a new factory are the thirteen from the start port on, in increasing order, so that no
-- two of its sockets have the same.
pub hub_factory-ports :
    (start : ℕ)
    → (all_ports (hub_factory start) ≡ consecutive 13 start)
      × Increasing (all_ports (hub_factory start))
unfolding hub_factory get port_at
hub_factory-ports start = (refl, consecutive-Increasing 13 start)
