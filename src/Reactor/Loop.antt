-- ===== src/Reactor/Loop.antt =====
-- zmq-poll-wrapper/reactor.hpp: the constructor, `operator()`, `run` and the internal event that stops the
-- loop. What `zmq::poll` reports is the input of each round. `A` stands for the callbacks of timers and
-- `C` for those of sockets; `act` and `call` are what they do to the program's state `S`, and which timers
-- they add. A callback neither adds nor removes a socket while the loop goes over the list.
pub mod Events
pub mod Wakeable
pub mod Keeps
pub mod Timeout
pub mod Single
use gpf.Prelude.{
  [], ℕ, Bool, true, false, none, some, List, ◌∷◌, ℤ, pos, negsuc, leb, if◌then◌else◌,
}
use gpf.Timers.{DeadlineTimer, pushes, fire_due, next_timeout}
use gpf.Reactor.{Reactor, add}

-- `_shutdown`, and the callbacks of the program.
pub data Callback (C : Type 0) : Type 0 where
  stop : Callback C
  user : C → Callback C

-- The socket `m_sub_internal_event`.
abbrev pub internal_event : ℕ
internal_event = 0

abbrev pub pollin : ℕ
pollin = 1

-- The lists of a new reactor.
unfoldable pub reactor : {C : Type 0} → Reactor (Callback C)
unfolding add
reactor =
    (add internal_event pollin stop true (record { items = []; callbacks = []; socks = [] })).1

-- What a poll reports: nothing until the timeout, an error, or which of the sockets have an event that
-- they wait for.
pub data Polled : Type 0 where
  timeout failure : Polled
  events : (ℕ → Bool) → Polled

-- The first lines of `operator()`: the timeout that the poll gets.
unfoldable pub poll_timeout : {A : Type 0} → ℤ → ℕ → List (DeadlineTimer A) → ℤ
unfolding next_timeout
poll_timeout (negsuc k) now q = next_timeout now q
poll_timeout (pos n) now q = elim (next_timeout now q) [
  | negsuc k ↦ negsuc k
  | pos k ↦ pos (if leb n k then n else k)
]

-- What the loop works on: the timers, the program's state, and `m_stop_requested`.
pub record World (A S : Type 0) : Type 0 where
  pub timers : List (DeadlineTimer A)
  pub state : S
  pub stop_requested : Bool

-- How a round or a loop ends; `stuck` is a `fire_due` without an end.
pub data Ended (A S : Type 0) : Type 0 where
  stopped going : World A S → Ended A S
  threw stuck : Ended A S

-- What follows a round, if the loop goes on.
infixl 5 ◌>>=◌
abbrev pub ◌>>=◌ : {A S : Type 0} → Ended A S → (World A S → Ended A S) → Ended A S
stopped w >>= k = stopped w
going w >>= k = k w
threw >>= k = threw
stuck >>= k = stuck

-- The test `!m_stop_requested`.
unfoldable pub unless_stopped : {A S : Type 0} → World A S → Ended A S
unless_stopped w = if w.stop_requested then stopped w else going w

module _ {A C S : Type 0} (act : A → S → List (DeadlineTimer A) × S)
    (call : C → ℕ → S → List (DeadlineTimer A) × S) where
  -- A callback runs on a readable socket.
  unfoldable pub receive : Callback C → ℕ → World A S → World A S
  unfolding pushes
  receive stop v w = record w { stop_requested = true }
  receive (user c) v w =
      let (added, s) = call c v w.state in record w { timers = pushes added w.timers; state = s }

  -- The loop over `m_pre_receive_callbacks`.
  unfoldable pub receive_all : List (Callback C) → ℕ → World A S → World A S
  unfolding receive
  receive_all [] v w = w
  receive_all (cb ∷ cbs) v w = receive_all cbs v (receive cb v w)

  -- The loop over the sockets and their callbacks.
  unfoldable pub serve :
      List (Callback C) → (ℕ → Bool) → List ℕ → List (Callback C) → World A S → World A S
  unfolding receive_all receive
  serve pre ready [] cbs w = w
  serve pre ready (v ∷ vs) [] w = w
  serve pre ready (v ∷ vs) (cb ∷ cbs) w =
      serve pre ready vs cbs (if ready v then receive cb v (receive_all pre v w) else w)

  -- `operator()` after a poll, at clock `now`; the fuel is that of `fire_due`.
  unfoldable pub round :
      ℕ → List (Callback C) → Reactor (Callback C) → ℕ → Polled → World A S → Ended A S
  unfolding serve fire_due
  round fuel pre r now timeout w = elim (fire_due act fuel now w.timers w.state) [
    | none ↦ stuck
    | some (q, s) ↦ going (record w { timers = q; state = s })
  ]
  round fuel pre r now failure w = threw
  round fuel pre r now (events ready) w = going (serve pre ready r.socks r.callbacks w)

  -- The loop of `run`, over what the polls will report. It is still going when the reports end.
  unfoldable pub loop :
      ℕ → List (Callback C) → Reactor (Callback C) → List (ℕ × Polled) → World A S → Ended A S
  unfolding round unless_stopped
  loop fuel pre r [] w = unless_stopped w
  loop fuel pre r ((now, p) ∷ ps) w =
      unless_stopped w >>= round fuel pre r now p >>= loop fuel pre r ps

  unfoldable pub run :
      ℕ → List (Callback C) → Reactor (Callback C) → List (ℕ × Polled) → World A S → Ended A S
  unfolding loop
  run fuel pre r ps w = loop fuel pre r ps (record w { stop_requested = false })
