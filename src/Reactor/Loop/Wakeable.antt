-- ===== src/Reactor/Loop/Wakeable.antt =====
-- Sockets that come and go while the reactor keeps the one that can stop it.
use gpf.Prelude.{
  ℕ, suc, Bool, true, false, ◌≡◌, ◌≢◌, refl, ap, ◌∙◌, some, none, List, [], ◌∷◌, ◌++◌, arith,
  nat_eq, Bool-cases, Option-cases, inl, inr, is_some,
}
use gpf.Prelude.Lists.{All}
use gpf.Reactor.{Reactor, get_index, erase_at, add, remove}
use gpf.Reactor.Aligned.{Aligned, add-Aligned, remove-Aligned}
use gpf.Reactor.Loop.{Callback, stop, user, internal_event, reactor}

-- What a program does with its sockets; an addition is told whether to check that it is the first.
pub data Edit (C : Type 0) : Type 0 where
  adding : Bool → ℕ → ℕ → C → Edit C
  removing : ℕ → Edit C

get_index-tail :
    (v : ℕ) (l : List ℕ)
    → internal_event ≢ v
    → get_index (internal_event ∷ l) v
      ≡ elim (get_index l v) [ none ↦ none | some i ↦ some (suc i) ]
unfolding get_index
get_index-tail v l other = elim (Bool-cases (nat_eq internal_event v)) [
  | inl e ↦ absurd (other (ground (arith, e)))
  | inr e ↦ rw (get_index, e) refl
]

module _ {C : Type 0} where
  abbrev edit : Edit C → Reactor (Callback C) → Reactor (Callback C)
  edit (adding check v event cb) r = (add v event (user cb) check r).1
  edit (removing v) r = (remove v r).1

  abbrev pub edits : List (Edit C) → Reactor (Callback C) → Reactor (Callback C)
  edits [] r = r
  edits (e ∷ es) r = edits es (edit e r)

  -- It does not remove the internal socket, and if it adds one, it checks.
  abbrev pub Sparing : Edit C → Type 0
  Sparing (adding check v event cb) = check ≡ true
  Sparing (removing v) = internal_event ≢ v

  -- The lists are in step, and the first socket is the internal one with its callback.
  pub record Wakeable (r : Reactor (Callback C)) : Type 0 where
    pub aligned : Aligned r
    pub vs : List ℕ
    pub cbs : List (Callback C)
    pub socks_of : r.socks ≡ internal_event ∷ vs
    pub callbacks_of : r.callbacks ≡ stop ∷ cbs

  reactor-Wakeable : Wakeable reactor
  unfolding reactor add get_index
  reactor-Wakeable = record {
    aligned = record { items_of = refl; callbacks_of = refl; once = (refl, tt) };
    vs = [];
    cbs = [];
    socks_of = refl;
    callbacks_of = refl;
  }

  add-Wakeable :
      (v event : ℕ) (cb : Callback C) (r : Reactor (Callback C))
      → Wakeable r
      → Wakeable (add v event cb true r).1
  unfolding add
  add-Wakeable v event cb r w = elim (Bool-cases (is_some (get_index r.socks v))) [
    | inl e ↦ rw (e, add) w
    | inr e ↦ record {
      aligned = add-Aligned v r w.aligned event cb;
      vs = w.vs ++ v ∷ [];
      cbs = w.cbs ++ cb ∷ [];
      socks_of = rw (e, add, w.socks_of) refl;
      callbacks_of = rw (e, add, w.callbacks_of) refl;
    }
  ]

  remove-unfound :
      (v : ℕ) (r : Reactor (Callback C)) → get_index r.socks v ≡ none → remove v r ≡ (false, r)
  unfolding remove
  remove-unfound v r e = rw (remove, e) refl

  remove-found :
      (v i : ℕ) (r : Reactor (Callback C))
      → get_index r.socks v ≡ some i
      → ((remove v r).1.socks ≡ erase_at i r.socks)
        × ((remove v r).1.callbacks ≡ erase_at i r.callbacks)
  unfolding remove
  remove-found v i r e = rw (remove, e) (refl, refl)

  remove-Wakeable :
      (v : ℕ) (r : Reactor (Callback C)) → internal_event ≢ v → Wakeable r → Wakeable (remove v r).1
  unfolding erase_at
  remove-Wakeable v r other w =
      let at : get_index r.socks v
          ≡ elim (get_index w.vs v) [ none ↦ none | some i ↦ some (suc i) ] =
        rw w.socks_of (get_index-tail v w.vs other) in
      elim (Option-cases (get_index w.vs v)) [
        | inl e ↦ rw (remove-unfound v r (rw e at at)) w
        | inr (i, e) ↦ kept i (rw e at at)
      ]
    where
      kept : (i : ℕ) → get_index r.socks v ≡ some (suc i) → Wakeable (remove v r).1
      kept i e = record {
        aligned = remove-Aligned v r w.aligned;
        vs = erase_at i w.vs;
        cbs = erase_at i w.cbs;
        socks_of = (remove-found v (suc i) r e).0 ∙ ap (erase_at (suc i)) w.socks_of;
        callbacks_of = (remove-found v (suc i) r e).1 ∙ ap (erase_at (suc i)) w.callbacks_of;
      }

  -- After any removals of sockets that leave the internal socket alone, and any additions with the check
  -- whether the socket was added before, from a new reactor on, the lists of the reactor are in step and no socket is polled twice, and the first
  -- socket is the internal one, with the callback that stops the loop.
  pub edits-Wakeable : (es : List (Edit C)) → All Sparing es → Wakeable (edits es reactor)
  edits-Wakeable es v = go es v reactor reactor-Wakeable
    where
      go :
          (es : List (Edit C))
          → All Sparing es
          → (r : Reactor (Callback C)) → Wakeable r
          → Wakeable (edits es r)
      go [] v r w = w
      go (adding check s event cb ∷ es) v r w =
          rw v.0 (go es v.1 _ (add-Wakeable s event (user cb) r w))
      go (removing s ∷ es) v r w = go es v.1 _ (remove-Wakeable s r v.0 w)
