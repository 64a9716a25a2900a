-- ===== src/Examples/Standing.antt =====
-- A registration that is dropped at its deadline, and one that comes after it.
use gpf.Prelude.{◌≡◌, ◌⊎◌, refl, none, pos, arith}
use gpf.Prelude.Lists.{first}
use gpf.Table.Listed.{listed}
use gpf.StringSet.{contains}
use gpf.Monitor.{new, alive, register_failed_heart_handler, register_new_heart_handler}
use gpf.Hub.State.{Timer}
use gpf.Hub.Standing.{Moves}
use gpf.Hub.Standing.Handlers.{standing_of}
use gpf.Hub.Standing.Reachable.{Reach-Moves, Reach-Spent}
use gpf.Hub.Registration.{
  register_engine, find_heart, find_queue, register, accept_registration, name_in_use,
  purge_stalled,
}
use gpf.Hub.Registration.Lifecycle.{purge_timer}
use gpf.Hub.Dispatch.{dispatch_query, fire}
use gpf.Hub.System.{System, create, at_time, here, next, query, timed, pong, beats}
use gpf.Examples.{surrounding, worker}
use gpf.Examples.Network.{origin, asked, answered, told, hello, now_text}

Reach-Moves_example :
    Moves surrounding (pos 0) (standing_of (pos 0) origin.1) (standing_of (pos 0) told.1)
unfolding told answered asked origin create
Reach-Moves_example =
    Reach-Moves {to_iso_string = now_text} 1000 0 0 0 0 0 here
      (next
        (next (next here (query origin.0 origin.1 10 hello))
          (pong origin.0 asked.1 "worker-heart" "now"))
        (beats answered.0 answered.1 1000 2000))
      (pos 0)

abbrev deadline : Timer
unfolding origin
deadline = purge_timer 10 worker origin.1

abbrev dropped : System surrounding
unfolding asked deadline
dropped = (asked.0, fire deadline (at_time surrounding 6000000 asked.1))

abbrev again : System surrounding
unfolding dropped
again =
    (dropped.0, (dispatch_query (alive dropped.0) hello (at_time surrounding 7000000 dropped.1)).1)

Reach-Spent_example :
    (surrounding.engine_set.find again.1.incoming_registrations (pos 0) ≡ none)
    × ((surrounding.engine_set.find again.1.engines (pos 0)
          ≡ surrounding.engine_set.find dropped.1.engines (pos 0))
        ⊎ (surrounding.engine_set.find again.1.engines (pos 0) ≡ none))
unfolding again dropped deadline asked origin create dispatch_query register_engine register
    find_heart find_queue accept_registration name_in_use alive contains
    register_failed_heart_handler register_new_heart_handler new fire purge_stalled listed
Reach-Spent_example =
    Reach-Spent {to_iso_string = now_text} 1000 0 0 0 0 0
      (next (next here (query origin.0 origin.1 10 hello))
        (timed asked.0 asked.1 6000000 6000000 deadline (first refl) (omega arith)))
      (next here (query dropped.0 dropped.1 7000000 hello)) (pos 0) (omega arith) refl
