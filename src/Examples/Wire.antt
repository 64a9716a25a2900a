-- ===== src/Examples/Wire.antt =====
-- An engine that registers with the bytes of its introduction.
use gpf.Prelude.{true, ◌≡◌, refl, ◌==◌, if◌then◌else◌}
use gpf.Table.Listed.{listed}
use gpf.Monitor.{new}
use gpf.Serialization.{ProtobufMessage, protobuf_archive, accepted, call}
use gpf.Serialization.RoundTrip.{Parsing}
use gpf.Hub.Messages.{Registration}
use gpf.Hub.State.{Env, Hub}
use gpf.Hub.System.{create}
use gpf.Hub.Names.{Names, NamesOf-empty}
use gpf.Hub.Registration.{get_num_engines, find_queue, find_heart, name_in_use}
use gpf.Hub.Dispatch.{dispatch_query}
use gpf.Engine.Wire.{handshake_by_wire}
use gpf.Examples.{surrounding, message, alpha, worker}
use gpf.Examples.Engines.{everyone}
use gpf.Examples.Handshake.{worker as engine}

-- The bytes of a message are the name of its queue.
abbrev by_queue : ProtobufMessage Registration
by_queue = record {
  serialize_to_string = λ m s. (true, m.queue);
  parse_from_string =
      λ before s. if s == "worker-queue" then (true, worker) else (s == "alpha", alpha);
}

abbrev IsKnown : Registration → Type 0
IsKnown m = m ≡ worker

by_queue-Parsing : Parsing IsKnown by_queue
by_queue-Parsing msg known before s = rw known (refl, refl)

abbrev wired : Env
wired = record surrounding {
  parse_registration = λ bytes. accepted ((protobuf_archive by_queue).deserialize alpha bytes);
}

abbrev empty : Hub wired
unfolding create
empty = (create wired (new 1000 0 0 0 0) 0).1

empty-Names : Names wired empty
unfolding empty
empty-Names = NamesOf-empty wired 0

abbrev hello : wired.Incoming
hello = message "registration_request" "worker-queue"

handshake_by_wire_example : get_num_engines (dispatch_query everyone hello empty).1 ≡ 1
unfolding empty listed call protobuf_archive name_in_use find_queue find_heart get_num_engines
handshake_by_wire_example =
    (handshake_by_wire wired by_queue IsKnown by_queue-Parsing alpha (λ bytes. refl) everyone hello
      empty empty-Names engine refl refl refl refl refl).2
