-- ===== src/Reactor/Loop/Keeps.antt =====
-- What every callback keeps, the loop keeps.
use gpf.Prelude.{
  ℕ, zero, suc, Bool, false, Option, none, some, List, [], ◌∷◌, Bool-cases, inl, inr, Option-cases,
}
use gpf.Timers.{DeadlineTimer, pushes, pop, is_due, fire, fire_due}
use gpf.Reactor.{Reactor}
use gpf.Reactor.Loop.{
  Callback, stop, user, Polled, timeout, failure, events, World, Ended, stopped, going, threw,
  stuck, receive, receive_all, serve, round, loop, run, ◌>>=◌, unless_stopped,
}

module _ {A S : Type 0} where
  -- The state has the property, if the loop goes on or has stopped.
  abbrev pub Holds : (S → Type 0) → Ended A S → Type 0
  Holds P (stopped w) = P w.state
  Holds P (going w) = P w.state
  Holds P threw = Unit
  Holds P stuck = Unit

  pub Holds-map :
      {P Q : S → Type 0} → ((s : S) → P s → Q s) → (e : Ended A S) → Holds P e → Holds Q e
  Holds-map f (stopped w) h = f w.state h
  Holds-map f (going w) h = f w.state h
  Holds-map f threw h = tt
  Holds-map f stuck h = tt

  module _ (P : S → Type 0) where
    keeps-bind :
        (m : Ended A S) (k : World A S → Ended A S)
        → Holds P m
        → ((w : World A S) → P w.state → Holds P (k w))
        → Holds P (m >>= k)
    keeps-bind (stopped w) k p keep = p
    keeps-bind (going w) k p keep = keep w p
    keeps-bind threw k p keep = tt
    keeps-bind stuck k p keep = tt

    keeps-unless_stopped : (w : World A S) → P w.state → Holds P (unless_stopped w)
    unfolding unless_stopped
    keeps-unless_stopped w p = elim (Bool-cases w.stop_requested) [
      | inl e ↦ rw e p
      | inr e ↦ rw e p
    ]

module _ {A C S : Type 0} (act : A → S → List (DeadlineTimer A) × S)
    (call : C → ℕ → S → List (DeadlineTimer A) × S) (P : S → Type 0)
    (kept_by_act : (a : A) (s : S) → P s → P (act a s).1)
    (kept_by_call : (c : C) (v : ℕ) (s : S) → P s → P (call c v s).1) where
  keeps-fire : (t : DeadlineTimer A) (s : S) → P s → P (fire act t s).1
  keeps-fire t s p = elim (Bool-cases t.active) [
    | inl e ↦ rw e (kept_by_act t.callback s p)
    | inr e ↦ rw e p
  ]

  abbrev HoldsDue : Option (List (DeadlineTimer A) × S) → Type 0
  HoldsDue none = Unit
  HoldsDue (some (q, s)) = P s

  keeps-fire_due :
      (fuel now : ℕ) (q : List (DeadlineTimer A)) (s : S)
      → P s
      → HoldsDue (fire_due act fuel now q s)
  unfolding fire_due
  keeps-fire_due zero now q s p = tt
  keeps-fire_due (suc fuel) now [] s p = p
  keeps-fire_due (suc fuel) now (t ∷ q) s p =
      let rest =
        keeps-fire_due fuel now (pop (pushes (fire act t s).0 (t ∷ q))) (fire act t s).1
          (keeps-fire t s p) in
      elim (Bool-cases (is_due now t)) [ inl e ↦ rw e rest | inr e ↦ rw e p ]

  keeps-receive :
      (cb : Callback C) (v : ℕ) (w : World A S) → P w.state → P (receive act call cb v w).state
  unfolding receive
  keeps-receive stop v w p = p
  keeps-receive (user c) v w p = kept_by_call c v w.state p

  keeps-receive_all :
      (pre : List (Callback C)) (v : ℕ) (w : World A S)
      → P w.state
      → P (receive_all act call pre v w).state
  unfolding receive_all
  keeps-receive_all [] v w p = p
  keeps-receive_all (cb ∷ cbs) v w p =
      keeps-receive_all cbs v (receive act call cb v w) (keeps-receive cb v w p)

  keeps-serve :
      (pre : List (Callback C)) (ready : ℕ → Bool) (vs : List ℕ) (cbs : List (Callback C))
      (w : World A S)
      → P w.state
      → P (serve act call pre ready vs cbs w).state
  unfolding serve
  keeps-serve pre ready [] cbs w p = p
  keeps-serve pre ready (v ∷ vs) [] w p = p
  keeps-serve pre ready (v ∷ vs) (cb ∷ cbs) w p =
      keeps-serve pre ready vs cbs _ (elim (Bool-cases (ready v)) [
        | inl d ↦
            rw d (keeps-receive cb v (receive_all act call pre v w) (keeps-receive_all pre v w p))
        | inr d ↦ rw d p
      ])

  module _ (fuel : ℕ) (pre : List (Callback C)) (r : Reactor (Callback C)) where
    keeps-round :
        (now : ℕ) (polled : Polled) (w : World A S)
        → P w.state
        → Holds P (round act call fuel pre r now polled w)
    unfolding round
    keeps-round now timeout w p =
        let due = keeps-fire_due fuel now w.timers w.state p in
        elim (Option-cases (fire_due act fuel now w.timers w.state)) [
          | inl e ↦ rw (Holds, e) tt
          | inr ((q, s), e) ↦ rw (Holds, e) (rw e at due)
        ]
    keeps-round now failure w p = tt
    keeps-round now (events ready) w p = keeps-serve pre ready r.socks r.callbacks w p

    keeps-loop :
        (ps : List (ℕ × Polled)) (w : World A S)
        → P w.state
        → Holds P (loop act call fuel pre r ps w)
    unfolding loop
    keeps-loop [] w p = keeps-unless_stopped P w p
    keeps-loop ((now, polled) ∷ ps) w p =
        keeps-bind P (unless_stopped w >>= round act call fuel pre r now polled)
          (loop act call fuel pre r ps)
          (keeps-bind P (unless_stopped w) (round act call fuel pre r now polled)
            (keeps-unless_stopped P w p) (keeps-round now polled))
          (keeps-loop ps)

    -- Whatever the polls report, the state of a loop that goes on or has stopped has the property, if
    -- the state that it began with had it and each callback keeps it.
    pub run-keeps :
        (ps : List (ℕ × Polled)) (w : World A S)
        → P w.state
        → Holds P (run act call fuel pre r ps w)
    unfolding run
    run-keeps ps w p = keeps-loop ps (record w { stop_requested = false }) p
