-- ===== src/Engine.antt =====
-- gpf/engine/engine.{hpp,cpp}: the class `engine`, an engine's side of the hub's protocol. The sockets
-- are those of ZeroMQ; what is sent to the hub is logged.
pub mod Handshake
pub mod Replies
pub mod Network
pub mod Joining
pub mod Wire
pub mod Loop
use Prim.Native.String.{◌++◌ as append}
use gpf.Prelude.{
  [], ℕ, ℤ, String, Bool, true, false, Option, none, some, List, ◌∷◌, ◌++◌, ◌==◌, if◌then◌else◌,
}
use gpf.Url.{Bytes, validate_url}
use gpf.Factory.{EngineInfo}
use gpf.Heart.{Heart, heart}
use gpf.Hub.Messages.{Registration}

-- What an engine sends on `m_hub_registration`. A protobuf message stands for its bytes.
pub data Request : Type 0 where
  registration_request : Registration → Request
  unregistration_request : String → Request

pub record Engine : Type 0 where
  pub registered : Bool
  pub queue_name : String
  pub heart_name : String
  pub heart : Option Heart
  pub services : List String
  pub sent : List Request

-- The constructor.
unfoldable pub new : Engine
new = record {
  registered = false;
  queue_name = "";
  heart_name = "";
  heart = none;
  services = [];
  sent = [];
}

unfoldable pub provide_service : String → Engine → Engine
provide_service s e = record e { services = e.services ++ s ∷ [] }

-- The message of `run`; the fields that are not set read as their defaults.
abbrev pub introduction : Engine → Registration
introduction e = record {
  heartbeat = e.heart_name;
  queue = e.queue_name;
  reg = "";
  services = e.services;
  eid = none;
}

-- `run` up to its loop; `none` where a logging macro ends the program, as the address of the hub is no
-- URL.
unfoldable pub run : (ℕ → ℕ) → (Bytes → Option ℤ) → String → EngineInfo → Engine → Option Engine
unfolding validate_url heart
run tolower lexical_cast name ei e =
    let named : Engine = record e {
      heart_name = append name "-heart";
      queue_name = append name "-queue";
      heart = some (heart ei.heartbeat0 ei.heartbeat1 (append name "-heart"));
    } in
    if validate_url tolower lexical_cast ei.hub_registration
    then some (record named { sent = named.sent ++ registration_request (introduction named) ∷ [] })
    else none

-- A message has come from the hub, with its frames; `none` where the program ends: the message has no
-- frame, or a registration request is answered by something else than `ACK`.
unfoldable pub dispatch_registration : List String → Engine → Option Engine
dispatch_registration [] e = none
dispatch_registration (topic ∷ frames) e =
    if topic == "registration_request"
    then (elim frames [
      | [] ↦ none
      | ack ∷ rest ↦ if ack == "ACK" then some (record e { registered = true }) else none
    ])
    else some e

-- The message of `shutdown`, which also shuts down the heart's loop and its own. An exception in sending
-- it, where `goes_out` is false, is caught.
unfoldable pub shutdown : Bool → Engine → Engine
shutdown goes_out e =
    if goes_out then record e { sent = e.sent ++ unregistration_request e.queue_name ∷ [] } else e
