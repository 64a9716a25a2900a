-- ===== src/Timers/Order.antt =====
-- The order of the queue.
use Prim.Native.Nat.{◌<◌, ◌≤◌}
use gpf.Prelude.{
  ℕ, ◌+◌, true, ◌≡◌, refl, List, [], ◌∷◌, arith, leb, Bool-cases, inl, inr, if◌then◌else◌,
}
use gpf.Prelude.Lists.{All, Member, first, later}
use gpf.Timers.{DeadlineTimer, push, pop, pushes, is_due}

module _ {A : Type 0} where
  -- No timer of the queue has its deadline before `d`.
  abbrev pub From : ℕ → List (DeadlineTimer A) → Type 0
  From d q = All (λ t. d ≤ t.deadline) q

  abbrev pub Sorted : List (DeadlineTimer A) → Type 0
  Sorted [] = Unit
  Sorted (t ∷ q) = From t.deadline q × Sorted q

  From-push :
      (d : ℕ) (u : DeadlineTimer A) (q : List (DeadlineTimer A))
      → d ≤ u.deadline
      → From d q
      → From d (push u q)
  unfolding push
  From-push d u [] le v = (le, tt)
  From-push d u (t ∷ q) le v = elim (Bool-cases (leb t.deadline u.deadline)) [
    | inl e ↦ rw e (v.0, From-push d u q le v.1)
    | inr e ↦ rw e (le, v)
  ]

  From-less : (c d : ℕ) (q : List (DeadlineTimer A)) → c ≤ d → From d q → From c q
  From-less c d [] le v = tt
  From-less c d (t ∷ q) le v = (omega (arith, le, v.0), From-less c d q le v.1)

  pub Sorted-push :
      (u : DeadlineTimer A) (q : List (DeadlineTimer A)) → Sorted q → Sorted (push u q)
  unfolding push
  Sorted-push u [] v = (tt, tt)
  Sorted-push u (t ∷ q) v = elim (Bool-cases (leb t.deadline u.deadline)) [
    | inl e ↦ rw e (From-push t.deadline u q (ground (arith, e)) v.0, Sorted-push u q v.1)
    | inr e ↦
        let before : u.deadline ≤ t.deadline = ground (arith, e) in
        rw e ((before, From-less u.deadline t.deadline q before v.0), v)
  ]

  pub Sorted-pushes : (us q : List (DeadlineTimer A)) → Sorted q → Sorted (pushes us q)
  unfolding pushes
  Sorted-pushes [] q v = v
  Sorted-pushes (u ∷ us) q v = Sorted-pushes us (push u q) (Sorted-push u q v)

  Member-push :
      (t u : DeadlineTimer A) (q : List (DeadlineTimer A)) → Member t q → Member t (push u q)
  unfolding push
  Member-push t u [] m = elim m [ ]
  Member-push t u (x ∷ q) (first e) = elim (Bool-cases (leb x.deadline u.deadline)) [
    | inl d ↦ rw d (first e)
    | inr d ↦ rw d (later (first e))
  ]
  Member-push t u (x ∷ q) (later m) =
      let rest = Member-push t u q m in
      elim (Bool-cases (leb x.deadline u.deadline)) [
        | inl d ↦ rw d (later rest)
        | inr d ↦ rw d (later (later m))
      ]

  pub Member-pushes :
      (t : DeadlineTimer A) (us q : List (DeadlineTimer A)) → Member t q → Member t (pushes us q)
  unfolding pushes
  Member-pushes t [] q m = m
  Member-pushes t (u ∷ us) q m = Member-pushes t us (push u q) (Member-push t u q m)

  -- The number of timers that are due.
  abbrev pub due_count : ℕ → List (DeadlineTimer A) → ℕ
  due_count now [] = 0
  due_count now (t ∷ q) = (if is_due now t then 1 else 0) + due_count now q

  due_count-push :
      (now : ℕ) (u : DeadlineTimer A) (q : List (DeadlineTimer A))
      → now < u.deadline
      → due_count now (push u q) ≡ due_count now q
  unfolding push
  due_count-push now u [] late = ground arith
  due_count-push now u (t ∷ q) late = ground (arith, due_count-push now u q late)

  pub due_count-pushes :
      (now : ℕ) (us q : List (DeadlineTimer A))
      → All (λ u. now < u.deadline) us
      → due_count now (pushes us q) ≡ due_count now q
  unfolding pushes
  due_count-pushes now [] q v = refl
  due_count-pushes now (u ∷ us) q v =
      ground (arith, due_count-pushes now us (push u q) v.1, due_count-push now u q v.0)

  -- Timers that are added behind a due one stay behind it.
  pub pop-pushes :
      (now : ℕ) (t : DeadlineTimer A) (us q : List (DeadlineTimer A))
      → t.deadline ≤ now
      → All (λ u. now < u.deadline) us
      → pop (pushes us (t ∷ q)) ≡ pushes us q
  unfolding pop pushes push
  pop-pushes now t [] q due v = refl
  pop-pushes now t (u ∷ us) q due v =
      let behind : leb t.deadline u.deadline ≡ true = ground (arith, due, v.0) in
      rw behind (pop-pushes now t us (push u q) due v.1)
