-- ===== src/Reactor/Loop/Events.antt =====
-- Which rounds stop the loop, and what rounds with events leave of the timers.
use gpf.Prelude.{
  ◌⊎◌, ℕ, Bool, true, false, ◌≡◌, refl, sym, ap, ◌∙◌, List, [], ◌∷◌, ◌++◌, Bool-cases, inl, inr,
  if◌then◌else◌,
}
use mathlib.Core.Path.{fun_ext}
use mathlib.Core.List.{append-nil}
use gpf.Prelude.Lists.{Member}
use gpf.Timers.{DeadlineTimer}
use gpf.Timers.Order.{Member-pushes}
use gpf.Reactor.{Reactor}
use gpf.Reactor.Loop.{
  Callback, stop, user, Polled, events, World, Ended, stopped, going, threw, stuck, receive,
  receive_all, serve, round, loop, run, ◌>>=◌, unless_stopped, internal_event,
}

pub unless_stopped-stops :
    {A S : Type 0} (w : World A S) → w.stop_requested ≡ true → unless_stopped w ≡ stopped w
unfolding unless_stopped
unless_stopped-stops w e = rw e refl

pub unless_stopped-goes :
    {A S : Type 0} (w : World A S) → w.stop_requested ≡ false → unless_stopped w ≡ going w
unfolding unless_stopped
unless_stopped-goes w e = rw e refl

-- The reports of rounds in each of which some sockets have an event.
abbrev pub reports : List (ℕ × (ℕ → Bool)) → List (ℕ × Polled)
reports [] = []
reports ((now, ready) ∷ ps) = (now, events ready) ∷ reports ps

module _ {A C S : Type 0} (act : A → S → List (DeadlineTimer A) × S)
    (call : C → ℕ → S → List (DeadlineTimer A) × S) where
  -- A request to stop is not taken back.
  stop-receive :
      (cb : Callback C) (v : ℕ) (w : World A S)
      → w.stop_requested ≡ true
      → (receive act call cb v w).stop_requested ≡ true
  unfolding receive
  stop-receive stop v w e = refl
  stop-receive (user c) v w e = e

  stop-receive_all :
      (pre : List (Callback C)) (v : ℕ) (w : World A S)
      → w.stop_requested ≡ true
      → (receive_all act call pre v w).stop_requested ≡ true
  unfolding receive_all
  stop-receive_all [] v w e = e
  stop-receive_all (cb ∷ cbs) v w e =
      stop-receive_all cbs v (receive act call cb v w) (stop-receive cb v w e)

  -- One socket of the list.
  abbrev served : List (Callback C) → (ℕ → Bool) → ℕ → Callback C → World A S → World A S
  served pre ready v cb w =
      if ready v then receive act call cb v (receive_all act call pre v w) else w

  stop-serve :
      (pre : List (Callback C)) (ready : ℕ → Bool) (vs : List ℕ) (cbs : List (Callback C))
      (w : World A S)
      → w.stop_requested ≡ true
      → (serve act call pre ready vs cbs w).stop_requested ≡ true
  unfolding serve
  stop-serve pre ready [] cbs w e = e
  stop-serve pre ready (v ∷ vs) [] w e = e
  stop-serve pre ready (v ∷ vs) (cb ∷ cbs) w e =
      stop-serve pre ready vs cbs (served pre ready v cb w) (elim (Bool-cases (ready v)) [
        | inl d ↦
            rw d (stop-receive cb v (receive_all act call pre v w) (stop-receive_all pre v w e))
        | inr d ↦ rw d e
      ])

  Member-receive :
      (t : DeadlineTimer A) (cb : Callback C) (v : ℕ) (w : World A S)
      → Member t w.timers
      → Member t (receive act call cb v w).timers
  unfolding receive
  Member-receive t stop v w m = m
  Member-receive t (user c) v w m = Member-pushes t (call c v w.state).0 w.timers m

  Member-receive_all :
      (t : DeadlineTimer A) (pre : List (Callback C)) (v : ℕ) (w : World A S)
      → Member t w.timers
      → Member t (receive_all act call pre v w).timers
  unfolding receive_all
  Member-receive_all t [] v w m = m
  Member-receive_all t (cb ∷ cbs) v w m =
      Member-receive_all t cbs v (receive act call cb v w) (Member-receive t cb v w m)

  Member-serve :
      (t : DeadlineTimer A) (pre : List (Callback C)) (ready : ℕ → Bool) (vs : List ℕ)
      (cbs : List (Callback C)) (w : World A S)
      → Member t w.timers
      → Member t (serve act call pre ready vs cbs w).timers
  unfolding serve
  Member-serve t pre ready [] cbs w m = m
  Member-serve t pre ready (v ∷ vs) [] w m = m
  Member-serve t pre ready (v ∷ vs) (cb ∷ cbs) w m =
      Member-serve t pre ready vs cbs (served pre ready v cb w) (elim (Bool-cases (ready v)) [
        | inl d ↦
            rw d (
              Member-receive t cb v (receive_all act call pre v w) (Member-receive_all t pre v w m))
        | inr d ↦ rw d m
      ])

  module _ (fuel : ℕ) (pre : List (Callback C)) (r : Reactor (Callback C)) where
    pub loop-stopped :
        (ps : List (ℕ × Polled)) (w : World A S)
        → w.stop_requested ≡ true
        → loop act call fuel pre r ps w ≡ stopped w
    unfolding loop
    loop-stopped [] w e = unless_stopped-stops w e
    loop-stopped ((now, p) ∷ ps) w e = rw (unless_stopped-stops w e) refl

    unless_stopped-loop :
        (qs : List (ℕ × Polled)) (w : World A S)
        → (unless_stopped w >>= loop act call fuel pre r qs) ≡ loop act call fuel pre r qs w
    unless_stopped-loop qs w = elim (Bool-cases w.stop_requested) [
      | inl e ↦ rw (unless_stopped-stops w e, loop-stopped qs w e) refl
      | inr e ↦ rw (unless_stopped-goes w e) refl
    ]

    >>=-assoc :
        (m : Ended A S) (f g : World A S → Ended A S) → (m >>= f >>= g) ≡ (m >>= λ w. f w >>= g)
    >>=-assoc (stopped w) f g = refl
    >>=-assoc (going w) f g = refl
    >>=-assoc threw f g = refl
    >>=-assoc stuck f g = refl

    -- A loop over more reports goes on where the loop over the first ones was.
    pub loop-append :
        (ps qs : List (ℕ × Polled)) (w : World A S)
        → loop act call fuel pre r (ps ++ qs) w
          ≡ (loop act call fuel pre r ps w >>= loop act call fuel pre r qs)
    unfolding loop
    loop-append [] qs w = sym (unless_stopped-loop qs w)
    loop-append ((now, p) ∷ ps) qs w =
        ap (λ k. unless_stopped w >>= round act call fuel pre r now p >>= k)
          (fun_ext λ w'. loop-append ps qs w')
        ∙ sym (
            >>=-assoc (unless_stopped w >>= round act call fuel pre r now p)
              (loop act call fuel pre r ps) (loop act call fuel pre r qs))

    module _ (vs : List ℕ) (cbs : List (Callback C)) (socks : r.socks ≡ internal_event ∷ vs)
        (callbacks : r.callbacks ≡ stop ∷ cbs) where
      -- A loop that is going on, in a reactor that has its internal socket, ends with the round in
      -- which this socket has an event: the other readable sockets of that round are still served, and
      -- whatever would have come later is not looked at.
      pub run-stops :
          (ps qs : List (ℕ × Polled)) (now : ℕ) (ready : ℕ → Bool) (w w' : World A S)
          → run act call fuel pre r ps w ≡ going w'
          → ready internal_event ≡ true
          → let last = serve act call pre ready r.socks r.callbacks w' in
            (run act call fuel pre r (ps ++ (now, events ready) ∷ qs) w ≡ stopped last)
            × (last.stop_requested ≡ true)
      unfolding run round serve receive loop
      run-stops ps qs now ready w w' e wakes =
          let w₀ : World A S = record w { stop_requested = false } in
          let last : World A S = serve act call pre ready r.socks r.callbacks w' in
          let goes : unless_stopped w' ≡ going w' =
            ap (λ m. m >>= loop act call fuel pre r []) (sym e)
            ∙ sym (loop-append ps [] w₀)
            ∙ ap (λ l. loop act call fuel pre r l w₀) (append-nil ps)
            ∙ e in
          let asked : last.stop_requested ≡ true =
            rw (socks, callbacks)
              (stop-serve pre ready vs cbs (served pre ready internal_event stop w')
                (rw wakes refl)) in
          (
            loop-append ps ((now, events ready) ∷ qs) w₀
                ∙ ap (λ m. m >>= loop act call fuel pre r ((now, events ready) ∷ qs)) e
                ∙ ap
                    (λ m.
                      m
                      >>= round act call fuel pre r now (events ready)
                      >>= loop act call fuel pre r qs)
                    goes
                ∙ loop-stopped qs last asked,
            asked,
          )

    -- As long as each poll reports events of sockets, no timer leaves the queue, however long it may
    -- have been due: the loop ends or goes on in a world that has all the timers that it began with.
    pub loop-starves :
        (ps : List (ℕ × (ℕ → Bool))) (w : World A S)
        → (w' : World A S) × ((loop act call fuel pre r (reports ps) w ≡ going w')
            ⊎ (loop act call fuel pre r (reports ps) w ≡ stopped w'))
          × ((t : DeadlineTimer A) → Member t w.timers → Member t w'.timers)
    unfolding loop round
    loop-starves [] w = elim (Bool-cases w.stop_requested) [
      | inl e ↦ (w, inr (unless_stopped-stops w e), λ t m. m)
      | inr e ↦ (w, inl (unless_stopped-goes w e), λ t m. m)
    ]
    loop-starves ((now, ready) ∷ l) w =
        let (w', ends, keeps) = loop-starves l (serve act call pre ready r.socks r.callbacks w) in
        elim (Bool-cases w.stop_requested) [
          | inl e ↦ (w, inr (loop-stopped (reports ((now, ready) ∷ l)) w e), λ t m. m)
          | inr e ↦ (
            w',
            rw (unless_stopped-goes w e) ends,
            λ t m. keeps t (Member-serve t pre ready r.socks r.callbacks w m),
          )
        ]
