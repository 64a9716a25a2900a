-- ===== src/Examples/Handshake.antt =====
-- An engine that comes to the hub and leaves it.
use gpf.Prelude.{false, ◌≡◌, refl, none, [], ◌∷◌}
use gpf.Table.Listed.{listed}
use gpf.Hub.Registration.{get_engine, get_num_engines, find_queue, find_heart, name_in_use}
use gpf.Hub.System.{create}
use gpf.Hub.Dispatch.{dispatch_query}
use gpf.Engine.{Engine, unregistration_request, introduction, shutdown}
use gpf.Engine.Handshake.{farewell}
use gpf.Examples.{surrounding, started, message}
use gpf.Examples.Engines.{started-Names, everyone}

abbrev pub worker : Engine
worker = record {
  registered = false;
  queue_name = "worker-queue";
  heart_name = "worker-heart";
  heart = none;
  services = "echo" ∷ [];
  sent = [];
}

abbrev hello : surrounding.Incoming
hello = message "registration_request" "worker"

abbrev goodbye : surrounding.Incoming
goodbye = message "unregistration_request" "worker-queue"

free : name_in_use (introduction worker) started ≡ false
unfolding name_in_use find_queue find_heart listed create started
free = refl

farewell_example :
    let h' = (dispatch_query everyone goodbye (dispatch_query everyone hello started).1).1 in
    (get_engine "worker-queue" h' ≡ none) × (get_num_engines h' ≡ get_num_engines started)
unfolding shutdown
farewell_example =
    farewell everyone hello started started-Names worker (refl, ("worker", refl, refl)) free refl
      goodbye (unregistration_request "worker-queue") refl (refl, refl)
