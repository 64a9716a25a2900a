-- ===== src/Client.antt =====
-- gpf/client/client.{hpp,cpp}: the class `client`, a reactor that the program adds its sockets to.
use gpf.Prelude.{ℕ, List, [], ◌∷◌, ◌++◌, Bool, true, ◌≡◌, refl, ap, ◌∙◌}
use gpf.Timers.{DeadlineTimer}
use gpf.Factory.{ClientInfo}
use gpf.Reactor.{Reactor}
use gpf.Reactor.Loop.{
  Callback, Polled, events, World, Ended, stopped, going, reactor, internal_event, serve, receive,
  receive_all,
}
use gpf.Reactor.Loop.{run as run_reactor}
use gpf.Reactor.Loop.Events.{run-stops}

pub record Client (C : Type 0) : Type 0 where
  -- `get_loop`
  pub loop : Reactor (Callback C)

-- The constructor.
unfoldable pub client : {C : Type 0} → Client C
unfolding reactor
client = record { loop = reactor }

module _ {A C S : Type 0} (act : A → S → List (DeadlineTimer A) × S)
    (call : C → ℕ → S → List (DeadlineTimer A) × S) where
  -- `run`. The addresses are not used.
  unfoldable pub run :
      ℕ → List (Callback C) → ClientInfo → List (ℕ × Polled) → World A S → Client C → Ended A S
  unfolding run_reactor
  run fuel pre ci polls w c = run_reactor act call fuel pre c.loop polls w

  -- The loop of a new client that is going on stops at the internal event, and nothing else has changed.
  pub run-stops_untouched :
      (fuel : ℕ) (ci : ClientInfo) (ps qs : List (ℕ × Polled)) (now : ℕ) (ready : ℕ → Bool)
      (w w' : World A S)
      → run fuel [] ci ps w client ≡ going w'
      → ready internal_event ≡ true
      → run fuel [] ci (ps ++ (now, events ready) ∷ qs) w client
        ≡ stopped (record w' { stop_requested = true })
  unfolding run client reactor serve receive receive_all
  run-stops_untouched fuel ci ps qs now ready w w' e wakes =
      (run-stops act call fuel [] reactor [] [] refl refl ps qs now ready w w' e wakes).0
      ∙ ap stopped (rw wakes refl)
