-- ===== src/Reactor/Loop/Single.antt =====
-- A reactor with one socket of the program, whose callback reads the next message.
use gpf.Prelude.{
  ℕ, zero, suc, Bool, true, false, ◌≡◌, ◌≢◌, refl, subst, List, [], ◌∷◌, foldl, inl, inr,
  Bool-cases, if◌then◌else◌, arith,
}
use gpf.Prelude.Lists.{take, drop}
use gpf.Timers.{DeadlineTimer, fire_due, pushes}
use gpf.Reactor.{Reactor, add, get_index}
use gpf.Reactor.Loop.{
  Callback, stop, user, Polled, timeout, failure, events, World, Ended, stuck, internal_event,
  pollin, reactor, receive, receive_all, serve, round, loop, run, unless_stopped,
}
use gpf.Reactor.Loop.Events.{loop-stopped}
use gpf.Reactor.Loop.Keeps.{Holds}

-- The callback of the socket.
pub data OnMessage : Type 0 where
  on_message : OnMessage

-- A reactor with its own socket and one more.
unfoldable pub single : ℕ → Reactor (Callback OnMessage)
unfolding add reactor
single v = (add v pollin (user on_message) true reactor).1

-- Its own socket comes first.
sockets-single :
    (v : ℕ)
    → v ≢ internal_event
    → ((single v).socks ≡ internal_event ∷ v ∷ [])
      × ((single v).callbacks ≡ stop ∷ user on_message ∷ [])
unfolding single add reactor get_index
sockets-single v apart = ground arith

-- How many messages are read: one for each report of an event of the socket, up to the first report of
-- the internal event or of an error.
abbrev pub reads : ℕ → List (ℕ × Polled) → ℕ
reads v [] = 0
reads v ((now, timeout) ∷ ps) = reads v ps
reads v ((now, failure) ∷ ps) = 0
reads v ((now, events ready) ∷ ps) =
    let rest : ℕ = reads v ps in
    let later_on : ℕ = if ready internal_event then 0 else rest in
    if ready v then suc later_on else later_on

module _ {M S : Type 0} (step : M → S → S) where
  -- The next message is read. A socket that will receive nothing more has none.
  unfoldable pub next_message : {A : Type 0} → List M × S → List (DeadlineTimer A) × (List M × S)
  next_message ([], s) = ([], ([], s))
  next_message (m ∷ ms, s) = ([], (ms, step m s))

  -- The first `n` messages are read.
  abbrev pub after : ℕ → List M × S → List M × S
  after n (ms, s) = (drop n ms, foldl (λ x m. step m x) s (take n ms))

  one_more : (n : ℕ) (q : List M × S) → after n (next_message {A = ℕ} q).1 ≡ after (suc n) q
  unfolding next_message
  one_more zero ([], s) = refl
  one_more (suc n) ([], s) = refl
  one_more n (m ∷ ms, s) = refl

  abbrev served : Bool → List M × S → List M × S
  served b q = if b then (next_message {A = ℕ} q).1 else q

  -- Reading one message, if one is there, and then so many more.
  after-served :
      (b : Bool) (n : ℕ) (q : List M × S) → after n (served b q) ≡ after (if b then suc n else n) q
  after-served true n q = one_more n q
  after-served false n q = refl

  module _ {A : Type 0} where
    abbrev pub call : OnMessage → ℕ → List M × S → List (DeadlineTimer A) × (List M × S)
    call on_message v q = next_message q

    abbrev pub world : List M × S → Bool → World A (List M × S)
    world q b = record { timers = []; state = q; stop_requested = b }

    abbrev pub EndsAt : List M × S → Ended A (List M × S) → Type 0
    EndsAt q e = (e ≢ stuck) × Holds (λ q'. q' ≡ q) e

module _ {A M S : Type 0} (step : M → S → S)
    (act : A → List M × S → List (DeadlineTimer A) × (List M × S)) (fuel v : ℕ)
    (r : Reactor (Callback OnMessage)) (socks : r.socks ≡ internal_event ∷ v ∷ [])
    (callbacks : r.callbacks ≡ stop ∷ user on_message ∷ []) where
  -- One report of events: the socket is served, and the loop stops if it is asked to.
  serve-single :
      (ready : ℕ → Bool) (q : List M × S)
      → serve act
          (call step)
          []
          ready
          (internal_event ∷ v ∷ [])
          (stop ∷ user on_message ∷ [])
          (world step q false)
        ≡ world step (served step (ready v) q) (ready internal_event)
  unfolding serve receive receive_all next_message pushes
  serve-single ready ([], s) = elim (Bool-cases (ready internal_event)) [
    | inl d ↦ rw d (elim (Bool-cases (ready v)) [ inl e ↦ rw e refl | inr e ↦ rw e refl ])
    | inr d ↦ rw d (elim (Bool-cases (ready v)) [ inl e ↦ rw e refl | inr e ↦ rw e refl ])
  ]
  serve-single ready (m ∷ ms, s) = elim (Bool-cases (ready internal_event)) [
    | inl d ↦ rw d (elim (Bool-cases (ready v)) [ inl e ↦ rw e refl | inr e ↦ rw e refl ])
    | inr d ↦ rw d (elim (Bool-cases (ready v)) [ inl e ↦ rw e refl | inr e ↦ rw e refl ])
  ]

  abbrev after_events : (ℕ → Bool) → List M × S → World A (List M × S)
  after_events ready q = world step (served step (ready v) q) (ready internal_event)

  loop-EndsAt :
      (ps : List (ℕ × Polled)) (q : List M × S)
      → EndsAt step
          (after step (reads v ps) q)
          (loop act (call step) (suc fuel) [] r ps (world step q false))
  unfolding loop round unless_stopped fire_due
  loop-EndsAt [] (ms, s) = ((λ d. cc), refl)
  loop-EndsAt ((now, timeout) ∷ ps) q = loop-EndsAt ps q
  loop-EndsAt ((now, failure) ∷ ps) q = ((λ d. cc), tt)
  loop-EndsAt ((now, events ready) ∷ ps) q =
      rw (socks, callbacks, serve-single ready q)
        (subst (λ t. EndsAt step t (loop act (call step) (suc fuel) [] r ps (after_events ready q)))
          (after-served step (ready v) (if ready internal_event then 0 else reads v ps) q)
          (rest (ready internal_event) (served step (ready v) q)
            (loop-EndsAt ps (served step (ready v) q))))
    where
      rest :
          (b : Bool) (p : List M × S)
          → EndsAt step
              (after step (reads v ps) p)
              (loop act (call step) (suc fuel) [] r ps (world step p false))
          → EndsAt step
              (after step (if b then 0 else reads v ps) p)
              (loop act (call step) (suc fuel) [] r ps (world step p b))
      rest true p ih =
          rw (loop-stopped act (call step) (suc fuel) [] r ps (world step p true) refl)
            ((λ d. cc), refl)
      rest false p ih = ih

-- The loop of a reactor without timers, with one socket beside its own, whatever the polls report: it is
-- never stuck, and a loop that goes on or has stopped has read one message for each event of the socket.
pub run-single :
    {A M S : Type 0} (step : M → S → S)
    (act : A → List M × S → List (DeadlineTimer A) × (List M × S)) (fuel v : ℕ)
    (ps : List (ℕ × Polled)) (q : List M × S)
    → v ≢ internal_event
    → EndsAt step
        (after step (reads v ps) q)
        (run act (call step) (suc fuel) [] (single v) ps (world step q false))
unfolding run
run-single step act fuel v ps q apart =
    let sockets = sockets-single v apart in
    loop-EndsAt step act fuel v (single v) sockets.0 sockets.1 ps q
