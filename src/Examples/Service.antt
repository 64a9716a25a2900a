-- ===== src/Examples/Service.antt =====
-- A hub in its reactor: an engine asks to be registered, and its heart confirms it.
use gpf.Prelude.{ℕ, suc, ◌*◌, String, false, ◌≡◌, refl, Option, none, some, List, [], ◌∷◌, nat_eq}
use gpf.Monitor.{
  new, register_failed_heart_handler, register_new_heart_handler, heart_failures, heartfailures,
  new_hearts, newhearts, handle_new_heart, notify, handle_pong,
}
use gpf.Reactor.{Reactor}
use gpf.Reactor.Loop.{Callback, Polled, timeout, events, Ended, stopped, going, threw, stuck}
use gpf.Hub.Names.{Names}
use gpf.StringSet.{contains, insert, set_intersection, set_difference}
use gpf.Table.Listed.{listed}
use gpf.Hub.Registration.{
  get_num_engines, register_engine, finish_registration, find_heart, find_queue,
  accept_registration, name_in_use, cancel, set_inactive, handle_new_heart as finish_new_heart,
}
use gpf.Hub.System.{create, System}
use gpf.Hub.Served.{Wake, Service, Program, wired, run_hub}
use gpf.Examples.{surrounding, message}

abbrev now_text : ℕ → String
now_text t = "now"

abbrev start : System surrounding
unfolding create new
start = create surrounding (new 1000 0 0 0 0) 0

-- The request comes first; the heart answers the first ping.
abbrev arrivals : Program surrounding
arrivals = record {
  system = start;
  pong_messages = ("alpha's heart" ∷ "now" ∷ []) ∷ [];
  query_messages = (10, message "registration_request" "alpha") ∷ [];
  traffic_messages = [];
  readings = λ n. (1000000 * suc n, 1000000 * suc n);
  fired = 0;
  ended = false;
}

abbrev only : ℕ → Polled
only socket = events (λ v. nat_eq v socket)

abbrev polls : List (ℕ × Polled)
polls = (10, only 2) ∷ (1000000, timeout) ∷ (1000100, only 1) ∷ (2000000, timeout) ∷ []

abbrev sockets : Reactor (Callback Service)
sockets = wired 1 2 3 4

abbrev engines_of : Ended Wake (Program surrounding) → Option ℕ
engines_of (stopped w) = some (get_num_engines w.state.system.1)
engines_of (going w) = some (get_num_engines w.state.system.1)
engines_of threw = none
engines_of stuck = none

-- The second beat meets the heart as new, which finishes the registration.
one_engine : engines_of (run_hub now_text 2 sockets polls arrivals) ≡ some 1
unfolding run_hub wired register_engine listed start contains register_failed_heart_handler
    register_new_heart_handler heart_failures heartfailures set_intersection new_hearts newhearts
    set_difference insert handle_new_heart notify finish_registration find_heart find_queue
    accept_registration name_in_use cancel set_inactive get_num_engines finish_new_heart handle_pong
one_engine = refl
