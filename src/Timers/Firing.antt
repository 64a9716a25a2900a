-- ===== src/Timers/Firing.antt =====
-- What `fire_due` and `next_timeout` amount to.
use Prim.Native.Nat.{◌<◌}
use gpf.Prelude.{
  ℕ, zero, suc, ◌+◌, ◌-◌, false, ◌≡◌, ◌≢◌, refl, ap, ◌∙◌, some, List, [], ◌∷◌, ◌++◌, pos, negsuc,
  arith, leb, ltb, Bool-cases, inl, inr, ◌⊎◌, if◌then◌else◌,
}
use gpf.Prelude.Lists.{All, length}
use gpf.Timers.{DeadlineTimer, push, pushes, is_due, fire, fire_due, next_timeout, get_timeout}
use gpf.Timers.Order.{Sorted, From, Sorted-pushes, pop-pushes}

module _ {A : Type 0} (now : ℕ) where
  -- The timers that are due, in the order of the queue, and the others.
  abbrev pub due : List (DeadlineTimer A) → List (DeadlineTimer A)
  due [] = []
  due (t ∷ q) = let rest = due q in if is_due now t then t ∷ rest else rest

  abbrev pub not_due : List (DeadlineTimer A) → List (DeadlineTimer A)
  not_due [] = []
  not_due (t ∷ q) = let rest = not_due q in if is_due now t then rest else t ∷ rest

  -- Timers whose time has not come.
  abbrev pub Later : List (DeadlineTimer A) → Type 0
  Later us = All (λ u. now < u.deadline) us

  due-push :
      (u : DeadlineTimer A) (q : List (DeadlineTimer A))
      → now < u.deadline
      → (due (push u q) ≡ due q) × (not_due (push u q) ≡ push u (not_due q))
  unfolding push
  due-push u [] late = ground (arith, late)
  due-push u (t ∷ q) late =
      let rest = due-push u q late in
      elim (Bool-cases (leb t.deadline u.deadline)) [
        | inl e ↦ elim (Bool-cases (is_due now t)) [
          | inl d ↦ rw (e, d) (ap (λ r. t ∷ r) rest.0, rest.1)
          | inr d ↦ rw (e, d) (rest.0, rw e (ap (λ r. t ∷ r) rest.1))
        ]
        | inr e ↦
            let far : is_due now t ≡ false = ground (arith, e, late) in
            let new : is_due now u ≡ false = ground (arith, late) in
            rw (e, far, new) (refl, rw e refl)
      ]

  due-pushes :
      (us q : List (DeadlineTimer A))
      → Later us
      → (due (pushes us q) ≡ due q) × (not_due (pushes us q) ≡ pushes us (not_due q))
  unfolding pushes
  due-pushes [] q v = (refl, refl)
  due-pushes (u ∷ us) q v =
      let one = due-push u q v.0 in
      let rest = due-pushes us (push u q) v.1 in (rest.0 ∙ one.0, rest.1 ∙ ap (pushes us) one.1)

  due-not_due : (q : List (DeadlineTimer A)) → due (not_due q) ≡ []
  due-not_due [] = refl
  due-not_due (t ∷ q) = elim (Bool-cases (is_due now t)) [
    | inl e ↦ rw e (due-not_due q)
    | inr e ↦ rw e (rw e (due-not_due q))
  ]

  -- In a queue that starts behind `now` nothing is due.
  none_due :
      (d : ℕ) (q : List (DeadlineTimer A)) → now < d → From d q → (due q ≡ []) × (not_due q ≡ q)
  none_due d [] late v = (refl, refl)
  none_due d (t ∷ q) late v =
      let rest = none_due d q late v.1 in
      let far : is_due now t ≡ false = ground (arith, late, v.0) in
      rw far (rest.0, ap (λ r. t ∷ r) rest.1)

module _ {A S : Type 0} (act : A → S → List (DeadlineTimer A) × S) where
  -- What firing some timers one after the other adds to the loop, and the state after it.
  abbrev pub runs : List (DeadlineTimer A) → S → List (DeadlineTimer A) × S
  runs [] s = ([], s)
  runs (t ∷ ts) s =
      let (added, s') = fire act t s in let (more, s'') = runs ts s' in (added ++ more, s'')

  pushes-append : (us vs q : List (DeadlineTimer A)) → pushes (us ++ vs) q ≡ pushes vs (pushes us q)
  unfolding pushes
  pushes-append [] vs q = refl
  pushes-append (u ∷ us) vs q = pushes-append us vs (push u q)

  module _ (now : ℕ) (later : (a : A) (s : S) → Later now (act a s).0) where
    fire-Later : (t : DeadlineTimer A) (s : S) → Later now (fire act t s).0
    fire-Later t s = elim (Bool-cases t.active) [
      | inl e ↦ rw e (later t.callback s)
      | inr e ↦ rw e tt
    ]

    Later-append :
        (us vs : List (DeadlineTimer A)) → Later now us → Later now vs → Later now (us ++ vs)
    Later-append [] vs v w = w
    Later-append (u ∷ us) vs v w = (v.0, Later-append us vs v.1 w)

    runs-Later : (ts : List (DeadlineTimer A)) (s : S) → Later now (runs ts s).0
    runs-Later [] s = tt
    runs-Later (t ∷ ts) s =
        Later-append (fire act t s).0 (runs ts (fire act t s).1).0 (fire-Later t s)
          (runs-Later ts (fire act t s).1)

    fire_due-eq :
        (fuel : ℕ) (q : List (DeadlineTimer A)) (s : S)
        → Sorted q
        → length (due now q) < fuel
        → fire_due act fuel now q s
          ≡ some (pushes (runs (due now q) s).0 (not_due now q), (runs (due now q) s).1)
    unfolding fire_due pushes
    fire_due-eq zero q s v enough = absurd (omega (arith, enough))
    fire_due-eq (suc fuel) [] s v enough = refl
    fire_due-eq (suc fuel) (t ∷ q) s v enough = elim (Bool-cases (is_due now t)) [
      | inl e ↦
          let added : List (DeadlineTimer A) = (fire act t s).0 in
          let s' : S = (fire act t s).1 in
          let same = due-pushes now added q (fire-Later t s) in
          let here : length (due now q) < fuel = ground (arith, e, enough) in
          rw (e, pop-pushes now t added q (ground (arith, e)) (fire-Later t s))
            (fire_due-eq fuel (pushes added q) s' (Sorted-pushes added q v.1) (rw same.0 here)
              ∙ rw (same.0, same.1, pushes-append added (runs (due now q) s').0 (not_due now q))
                  refl)
      | inr e ↦
          let nothing = none_due now t.deadline q (ground (arith, e)) v.0 in
          rw (e, nothing.0, nothing.1) refl
    ]

    -- A queue in order, at clock `now`, with callbacks that add no timer that is due by then: given
    -- fuel for one round more than timers are due, `fire_due` ends. It has fired the timers that were
    -- due, in the order of their deadlines and each once; these have left the queue, the others and
    -- those that were added are in it, in order; and none of them is due.
    pub fire_due-fires :
        (fuel : ℕ) (q : List (DeadlineTimer A)) (s : S)
        → Sorted q
        → length (due now q) < fuel
        → let r = runs (due now q) s in
          (fire_due act fuel now q s ≡ some (pushes r.0 (not_due now q), r.1))
          × (due now (pushes r.0 (not_due now q)) ≡ [])
    fire_due-fires fuel q s v enough = (
      fire_due-eq fuel q s v enough,
      (due-pushes now (runs (due now q) s).0 (not_due now q) (runs-Later (due now q) s)).0
          ∙ due-not_due now q,
    )

-- The timeout of a queue in order is negative if the queue is empty; otherwise it is the shortest time
-- after which a timer of it is due.
pub next_timeout-first_due :
    {A : Type 0} (now : ℕ) (q : List (DeadlineTimer A))
    → Sorted q
    → ((q ≡ []) × (next_timeout now q ≡ negsuc 0))
      ⊎ ((n : ℕ) × (next_timeout now q ≡ pos n)
          × (due (now + n) q ≢ [])
          × ((m : ℕ) → m < n → due (now + m) q ≡ []))
unfolding next_timeout get_timeout
next_timeout-first_due now [] v = inl (refl, refl)
next_timeout-first_due now (t ∷ q) v = elim (Bool-cases (ltb t.deadline now)) [
  | inl e ↦ inr (0, rw e refl, ground (arith, e), λ m less. absurd (omega (arith, less)))
  | inr e ↦ inr (
    t.deadline - now,
    rw e refl,
    ground (arith, e),
    λ m less. (none_due (now + m) t.deadline (t ∷ q) (ground (arith, less)) (ground arith, v.0)).0,
  )
]
