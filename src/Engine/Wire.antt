-- ===== src/Engine/Wire.antt =====
-- An engine's request as bytes, from its serializer to that of the hub.
use gpf.Prelude.{suc, String, Bool, true, false, ◌≡◌, ap, ◌∙◌, some, List, [], ◌∷◌, ◌++◌}
use gpf.Serialization.{ProtobufMessage, protobuf_archive, call, accepted}
use gpf.Serialization.RoundTrip.{Parsing, ReadsBack-protobuf_archive}
use gpf.Hub.Messages.{Registration}
use gpf.Hub.State.{Env, Hub, returned, Sent}
use gpf.Hub.Registration.{name_in_use, get_engine, get_num_engines}
use gpf.Hub.Dispatch.{dispatch_query}
use gpf.Hub.Names.{Names}
use gpf.Engine.{Engine, registration_request, introduction, dispatch_registration}
use gpf.Engine.Handshake.{Carries, engine_connector, text_frames, handshake}

module _ (env : Env) (protobuf : ProtobufMessage Registration)
    (IsInitialized : Registration → Type 0) (parsing : Parsing IsInitialized protobuf)
    (default : Registration)
    (deserializes : (bytes : String)
      → env.parse_registration bytes
        ≡ accepted ((protobuf_archive protobuf).deserialize default bytes)) where
  Carries-introduction :
      (incoming : env.Incoming) (e : Engine)
      → env.topic incoming ≡ some "registration_request"
      → env.header incoming ≡ call (protobuf_archive protobuf) (introduction e)
      → IsInitialized (introduction e)
      → Carries env incoming (registration_request (introduction e))
  Carries-introduction incoming e topic frame initialized =
      let (bytes, written, read) =
        ReadsBack-protobuf_archive IsInitialized protobuf parsing (introduction e) initialized in
      (topic, (bytes, frame ∙ written, deserializes bytes ∙ ap accepted (read default)))

  -- The hub reads registrations with the serializer of protobuf, which reads back what it writes of an
  -- initialized message. In a state where the names are apart: a message with the topic of a
  -- registration whose frame is what an engine's serializer makes of its introduction has its effect on
  -- both sides, if the introduction is initialized, the engine's names are free, and its heart beats.
  -- The hub finds the engine by its queue, with its services, and has one engine more; and the last
  -- message that the hub sends makes the engine registered.
  pub handshake_by_wire :
      (alive : String → Bool) (incoming : env.Incoming) (h : Hub env) (v : Names env h) (e : Engine)
      (topic : env.topic incoming ≡ some "registration_request")
      (frame : env.header incoming ≡ call (protobuf_archive protobuf) (introduction e))
      (initialized : IsInitialized (introduction e))
      → name_in_use (introduction e) h ≡ false
      → alive e.heart_name ≡ true
      → let (outcome, h') = dispatch_query alive incoming h in
        (outcome ≡ returned)
        × ((ec : _) × (get_engine e.queue_name h' ≡ some ec) × (ec.services ≡ e.services))
        × (get_num_engines h' ≡ suc (get_num_engines h))
        × ((before : List (Sent env.Incoming)) × (last : Sent env.Incoming) × (h'.sent
              ≡ before ++ last ∷ [])
            × (dispatch_registration (text_frames last) e ≡ some (record e { registered = true })))
  handshake_by_wire alive incoming h v e topic frame initialized free beating =
      let done =
        handshake alive incoming h v e (Carries-introduction incoming e topic frame initialized)
          free beating in
      (
        done.0,
        (
          engine_connector alive incoming h v e
              (Carries-introduction incoming e topic frame initialized) free beating,
          done.1,
          done.2,
        ),
        done.3,
        done.4,
      )
