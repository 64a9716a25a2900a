-- ===== src/Reactor.antt =====
-- zmq-poll-wrapper/reactor.hpp: the lists of sockets that the reactor polls. A socket is the number of
-- the object that its pointer points to, `C` stands for the callbacks.
pub mod Aligned
pub mod Loop
use gpf.Prelude.{
  ℕ, zero, suc, Bool, true, false, Option, none, some, List, [], ◌∷◌, ◌++◌, is_some, nat_eq, ◌&&◌,
  if◌then◌else◌,
}

pub record PollItem : Type 0 where
  pub socket : ℕ
  pub events : ℕ

pub record Reactor (C : Type 0) : Type 0 where
  pub items : List PollItem
  pub callbacks : List C
  pub socks : List ℕ

-- `getIndex`; `none` is -1.
unfoldable pub get_index : List ℕ → ℕ → Option ℕ
get_index [] v = none
get_index (s ∷ ss) v =
    let rest : Option ℕ = get_index ss v in
    if nat_eq s v then some 0 else elim rest [ none ↦ none | some i ↦ some (suc i) ]

-- `k.erase(k.begin() + pos)`
unfoldable pub erase_at {ℓ} : {A : Type ℓ} → ℕ → List A → List A
erase_at n [] = []
erase_at zero (x ∷ l) = l
erase_at (suc n) (x ∷ l) = x ∷ erase_at n l

module _ {C : Type 0} where
  -- `add` with `addImpl`: whether the socket was added, and the reactor afterwards.
  unfoldable pub add : ℕ → ℕ → C → Bool → Reactor C → Bool × Reactor C
  unfolding get_index
  add v event cb check r = if check && is_some (get_index r.socks v) then (false, r) else (
    true,
    record {
      items = r.items ++ record { socket = v; events = event } ∷ [];
      callbacks = r.callbacks ++ cb ∷ [];
      socks = r.socks ++ v ∷ [];
    },
  )

  -- `remove` with `removeImpl`.
  unfoldable pub remove : ℕ → Reactor C → Bool × Reactor C
  unfolding get_index erase_at
  remove v r = elim (get_index r.socks v) [
    | none ↦ (false, r)
    | some pos ↦ (
      true,
      record {
        items = erase_at pos r.items;
        callbacks = erase_at pos r.callbacks;
        socks = erase_at pos r.socks;
      },
    )
  ]
