-- ===== src/Examples/Network.antt =====
-- An engine that hears of its registration.
use gpf.Prelude.{some, ◌≡◌, ℕ, String, true, refl, [], ◌∷◌}
use gpf.Prelude.Lists.{Member, first, later}
use gpf.Table.Listed.{listed}
use gpf.StringSet.{contains, insert, set_intersection, set_difference}
use gpf.Monitor.{
  Monitor, new, alive, handle_pong, beat, register_failed_heart_handler, register_new_heart_handler,
  heart_failures, heartfailures, new_hearts, newhearts, handle_new_heart, notify, goodhearts,
  missed_beats,
}
use gpf.Heart.{heart}
use gpf.Heart.Echo.{echo}
use gpf.Engine.Joining.{joins}
use gpf.Engine.Handshake.{text_frames}
use gpf.Hub.Registration.{get_engine}
use gpf.Hub.State.{Hub, EngineConnector, Sent, Payload, text, replied}
use gpf.Hub.Registration.{
  register_engine, find_heart, find_queue, register, accept_registration, name_in_use,
  finish_registration, cancel, set_inactive,
}
use gpf.Hub.Registration.{handle_new_heart as finish_new_heart}
use gpf.Hub.Dispatch.{dispatch_query}
use gpf.Hub.System.{System, create, at_time, here, next, query, pong, beats}
use gpf.Hub.Account.{Account}
use gpf.Hub.Account.Reachable.{Reach-Account}
use gpf.Engine.{Engine, dispatch_registration}
use gpf.Engine.Network.{begins, hub_steps, delivers, Announced, Network-Announced}
use gpf.Examples.{surrounding, message}
use gpf.Examples.Handshake.{worker}

abbrev pub hello : surrounding.Incoming
hello = message "registration_request" "worker"

abbrev pub now_text : ℕ → String
now_text t = "now"

unfoldable pub origin : System surrounding
unfolding create
origin = create surrounding (new 1000 0 0 0 0) 0

unfoldable pub asked : System surrounding
unfolding origin dispatch_query
asked = (origin.0, (dispatch_query (alive origin.0) hello (at_time surrounding 10 origin.1)).1)

unfoldable pub answered : System surrounding
unfolding asked
answered = (handle_pong now_text "worker-heart" "now" asked.0, asked.1)

unfoldable pub told : System surrounding
unfolding answered
told = beat now_text 1000 2000 (answered.0, at_time surrounding 1000 answered.1)

abbrev registered_worker : Engine
registered_worker = record worker { registered = true }

Reach-Account_example : Account surrounding [] (hello ∷ []) told.1
unfolding told answered asked origin create
Reach-Account_example = Reach-Account {to_iso_string = now_text} 1000 0 0 0 0 0 (
    next
      (next (next here (query origin.0 origin.1 10 hello))
        (pong origin.0 asked.1 "worker-heart" "now"))
      (beats answered.0 answered.1 1000 2000))

Network-Announced_example : Announced surrounding registered_worker (hello ∷ []) told.1.sent
unfolding told answered asked origin create dispatch_query alive contains
    register_failed_heart_handler register_new_heart_handler handle_pong insert beat new
    heart_failures heartfailures set_intersection new_hearts newhearts set_difference
    handle_new_heart notify goodhearts missed_beats register_engine register find_heart find_queue
    accept_registration name_in_use finish_registration finish_new_heart cancel set_inactive listed
    dispatch_registration
Network-Announced_example =
    Network-Announced surrounding now_text 1000 0 0 0 0 0 worker refl
      (delivers hello "registration_request" (text "ACK") registered_worker
        (hub_steps
          (hub_steps (hub_steps begins (query origin.0 origin.1 10 hello))
            (pong origin.0 asked.1 "worker-heart" "now"))
          (beats answered.0 answered.1 1000 2000))
        (later (first refl)) (refl, ("worker", refl, refl)) refl)
      refl

-- The engine's request comes, its heart answers the ping, and the monitor beats.
joins_example :
    (m' : Monitor (Hub surrounding)) × (echo now_text (heart [] [] "worker-heart") "now" origin.0
      ≡ some m')
    × (let h' = (beat now_text 1000 2000 (m', at_time surrounding 1000 asked.1)).1 in
        ((ec : EngineConnector surrounding.Incoming) × (get_engine "worker-queue" h' ≡ some ec)
          × (ec.services ≡ "echo" ∷ []))
        × ((answer : Sent surrounding.Incoming) × Member answer h'.sent
            × ((topic : String) × (p : Payload) × (answer ≡ replied hello topic p))
            × (dispatch_registration (text_frames answer) worker ≡ some registered_worker)))
unfolding asked origin create new alive contains register_failed_heart_handler
    register_new_heart_handler name_in_use find_queue find_heart listed heart
joins_example =
    joins {to_iso_string = now_text} 1000 0 0 0 0 0 here hello worker (refl, ("worker", refl, refl))
      refl refl 10 (heart [] [] "worker-heart") 1000 2000 refl
