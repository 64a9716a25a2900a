-- ===== src/Examples/Loops.antt =====
-- The reactor's loop with one socket of the program, which counts its messages.
use gpf.Prelude.{
  ◌+◌, ◌<◌, ◌≢◌, pos, negsuc, ℕ, suc, Bool, true, false, ◌≡◌, ◌⊎◌, refl, List, [], ◌∷◌, nat_eq,
}
use gpf.Prelude.Lists.{Member}
use gpf.Timers.{DeadlineTimer}
use gpf.Reactor.{Reactor, add, get_index}
use gpf.Reactor.Loop.{
  poll_timeout, Callback, user, World, going, stopped, events, run, loop, reactor, serve, round,
  receive, receive_all, unless_stopped,
}
use gpf.Timers.Firing.{due}
use gpf.Reactor.Loop.Timeout.{sooner, poll_timeout-first_due}
use gpf.Reactor.Loop.Events.{run-stops, loop-starves, reports}
use gpf.Reactor.Loop.Wakeable.{Wakeable, Edit, edits, adding, removing, edits-Wakeable}

abbrev act : ℕ → ℕ → List (DeadlineTimer ℕ) × ℕ
act a s = ([], s)

abbrev count : ℕ → ℕ → ℕ → List (DeadlineTimer ℕ) × ℕ
count c v s = ([], suc s)

abbrev counting : Reactor (Callback ℕ)
unfolding reactor add get_index
counting = (add 5 1 (user 0) true reactor).1

abbrev overdue : DeadlineTimer ℕ
overdue = record { deadline = 3; callback = 0; active = true }

abbrev idle : World ℕ ℕ
idle = record { timers = overdue ∷ []; state = 0; stop_requested = false }

abbrev both : ℕ → Bool
both v = true

abbrev other : ℕ → Bool
other v = nat_eq v 5

-- A message comes, then a message together with the request to stop, and then one more.
run-stops_example :
    run act count 1 [] counting
      ((10, events other) ∷ (11, events both) ∷ (12, events other) ∷ [])
      idle
    ≡ stopped (record idle { state = 2; stop_requested = true })
unfolding counting run loop round serve receive receive_all unless_stopped reactor add get_index
run-stops_example =
    (run-stops act count 1 [] counting (5 ∷ []) (user 0 ∷ []) refl refl ((10, events other) ∷ [])
      ((12, events other) ∷ []) 11 both idle (record idle { state = 1 }) refl refl).0

-- The timer was due before the first message.
loop-starves_example :
    (w : World ℕ ℕ) × ((loop act count 1 [] counting (reports ((10, other) ∷ (11, other) ∷ [])) idle
        ≡ going w)
      ⊎ (loop act count 1 [] counting (reports ((10, other) ∷ (11, other) ∷ [])) idle ≡ stopped w))
    × ((t : DeadlineTimer ℕ) → Member t (overdue ∷ []) → Member t w.timers)
loop-starves_example = loop-starves act count 1 [] counting ((10, other) ∷ (11, other) ∷ []) idle

abbrev some_edits : List (Edit ℕ)
some_edits = adding true 5 1 0 ∷ adding true 6 1 1 ∷ removing 5 ∷ []

edits-Wakeable_example : Wakeable (edits some_edits reactor)
edits-Wakeable_example = edits-Wakeable some_edits (refl, (refl, ((λ e. cc), tt)))

-- The timer is due two microseconds after the poll begins; `run` was given a thousand.
poll_timeout-first_due_example :
    ((overdue ∷ [] ≡ []) × (poll_timeout (pos 1000) 1 (overdue ∷ []) ≡ negsuc 0))
    ⊎ ((n : ℕ) × (poll_timeout (pos 1000) 1 (overdue ∷ []) ≡ pos (sooner (pos 1000) n))
        × (due (1 + n) (overdue ∷ []) ≢ [])
        × ((m : ℕ) → m < sooner (pos 1000) n → due (1 + m) (overdue ∷ []) ≡ []))
poll_timeout-first_due_example = poll_timeout-first_due (pos 1000) 1 (overdue ∷ []) (tt, tt)
