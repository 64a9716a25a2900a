-- ===== src/Examples/Engines.antt =====
-- An engine that comes, is confirmed or is not, fails and leaves.
use Prim.Native.Nat.{◌<◌, ◌≤◌}
use gpf.Prelude.{◌^◌, arith, String, Bool, true, false, ◌≡◌, refl, none, some, [], ◌∷◌, pos}
use gpf.Table.Listed.{listed}
use gpf.Monitor.{new, alive, handle_pong}
use gpf.Hub.State.{Hub, EngineConnector}
use gpf.Hub.Registration.{
  register, handle_new_heart, get_engine, get_num_engines, connector, name_in_use, find_heart,
  find_queue, unregister_engine,
}
use gpf.Hub.Registration.Lifecycle.{
  Confirms, register-alive, register-then-heart, register-then-deadline, purge_timer,
  waiting_connector,
}
use gpf.Hub.Registration.Failure.{failed_heart_stays, over}
use gpf.Hub.Registration.Rejoining.{names_stay_taken, heart_brings_back}
use gpf.Hub.Dispatch.{fire, dispatch_query}
use gpf.Hub.System.{System, create, at_time, here, next, query}
use gpf.Hub.Names.{Names, NamesOf-empty}
use gpf.Hub.Names.Registration.{Names-register}
use gpf.Hub.Ids.Run.{Reach-next_id}
use gpf.Hub.Names.Reachable.{Reach-Names}
use gpf.Examples.{surrounding, started, alpha, message}

abbrev hello : surrounding.Incoming
hello = message "registration_request" "alpha"

abbrev goodbye : surrounding.Incoming
goodbye = message "unregistration_request" "alpha"

abbrev pub everyone : String → Bool
everyone heart = true

abbrev nobody : String → Bool
nobody heart = false

pub started-Names : Names surrounding started
unfolding started create
started-Names = NamesOf-empty surrounding 0

abbrev pub joined : Hub surrounding
joined = register everyone 10 hello alpha started

pub joined-Names : Names surrounding joined
joined-Names = Names-register everyone 10 hello alpha started started-Names

free : name_in_use alpha started ≡ false
unfolding name_in_use find_queue find_heart listed create started
free = refl

abbrev system : System surrounding
unfolding create
system = create surrounding (new 1000 0 0 0 0) 0

Reach-Names_example :
    Names surrounding (dispatch_query (alive system.0) hello (at_time surrounding 10 system.1)).1
unfolding system
Reach-Names_example =
    Reach-Names {to_iso_string = λ t. "now"} 1000 0 0 0 0 0
      (next here (query system.0 system.1 10 hello))

-- One request leaves the counter at one.
Reach-next_id_example :
    ((dispatch_query (alive system.0) hello (at_time surrounding 10 system.1)).1.next_id ≤ 1)
    × ((dispatch_query (alive system.0) hello (at_time surrounding 10 system.1)).1.next_id < 2 ^ 31)
unfolding system
Reach-next_id_example =
    Reach-next_id {to_iso_string = λ t. "now"} 1000 0 0 0 0 0
      (next here (query system.0 system.1 10 hello)) (omega arith)

register-then-heart_example :
    Confirms started
      (waiting_connector hello alpha started)
      (record (purge_timer 10 alpha started) { active = false } ∷ [])
      (handle_new_heart "alpha's heart" (register nobody 10 hello alpha started))
unfolding started create
register-then-heart_example =
    register-then-heart nobody 10 hello alpha started started-Names free refl

register-then-deadline_example :
    let h' = fire (purge_timer 10 alpha started) (register nobody 10 hello alpha started) in
    ((register nobody 10 hello alpha started).timers ≡ purge_timer 10 alpha started ∷ [])
    × (name_in_use alpha h' ≡ false)
    × (get_num_engines h' ≡ get_num_engines started)
    × (h'.sent ≡ started.sent)
unfolding started create
register-then-deadline_example =
    register-then-deadline nobody 10 hello alpha started started-Names free refl

abbrev alpha_connector : EngineConnector surrounding.Incoming
alpha_connector = connector hello alpha (pos 0)

joined-alpha : get_engine "alpha" joined ≡ some alpha_connector
unfolding started create
joined-alpha = (register-alive everyone 10 hello alpha started started-Names free refl).0

names_stay_taken_example :
    (get_engine "alpha" (unregister_engine goodbye joined).1 ≡ none)
    × (name_in_use alpha (unregister_engine goodbye joined).1 ≡ true)
names_stay_taken_example =
    names_stay_taken everyone 10 hello goodbye alpha started started-Names free refl refl alpha refl

heart_brings_back_example :
    get_engine "alpha" (handle_new_heart "alpha's heart" (unregister_engine goodbye joined).1)
    ≡ some alpha_connector
unfolding started create
heart_brings_back_example =
    heart_brings_back everyone 10 hello goodbye alpha started started-Names free refl refl

failed_heart_stays_example :
    get_engine "alpha"
      (over {env = surrounding} everyone 10 hello alpha started started-Names free refl 20 30)
    ≡ some alpha_connector
unfolding started create
failed_heart_stays_example =
    (failed_heart_stays everyone 10 hello alpha started started-Names free refl 20 30 alpha refl).3

-- The engine's request waits, and its heart answers the monitor's first ping.
abbrev met : System surrounding
unfolding system
met =
    let h = (dispatch_query (alive system.0) hello (at_time surrounding 10 system.1)).1 in
    (handle_pong (λ t. "now") "alpha's heart" "now" system.0, h)
