-- ===== src/Engine/Handshake.antt =====
-- An engine and the hub: how the one's requests fare with the other.
use gpf.Prelude.{
  suc, String, Bool, true, false, ◌≡◌, refl, sym, ap, ◌∙◌, subst, some, none, List, [], ◌∷◌, ◌++◌,
  pos, arith,
}
use gpf.Prelude.Lists.{last, last-snoc}
use gpf.Hub.Messages.{Registration}
use gpf.Hub.State.{
  Env, Hub, EngineConnector, Outcome, returned, Sent, notified, replied, unrouted, text,
  registration, with_message-eq,
}
use gpf.Hub.Registration.{
  name_in_use, connector, announcement, register, register_engine, unregister_engine, get_engine,
  get_num_engines,
}
use gpf.Hub.Registration.Lifecycle.{register-alive}
use gpf.Hub.Registration.Departure.{unregister_engine-found}
use gpf.Hub.Dispatch.{dispatch_query, dispatch, query_handlers, handler_of}
use gpf.Hub.Names.{Names}
use gpf.Hub.Names.Registration.{Names-register}
use gpf.Engine.{
  Engine, Request, registration_request, unregistration_request, introduction,
  dispatch_registration, shutdown,
}

-- The message is what an engine has sent.
abbrev pub Carries : (env : Env) → env.Incoming → Request → Type 0
Carries env incoming (registration_request msg) =
    (env.topic incoming ≡ some "registration_request")
    × ((bytes : String) × (env.header incoming ≡ some bytes)
        × (env.parse_registration bytes ≡ some msg))
Carries env incoming (unregistration_request queue) =
    (env.topic incoming ≡ some "unregistration_request") × (env.header incoming ≡ some queue)

-- The frames of a message from the hub that carries a text.
abbrev pub text_frames : {I : Type 0} → Sent I → List String
text_frames (replied i topic (text t)) = topic ∷ t ∷ []
text_frames (replied i topic p) = topic ∷ []
text_frames (notified topic p) = topic ∷ []
text_frames (unrouted topic p) = topic ∷ []

module _ {env : Env} where
  pub dispatch_query-registration :
      (alive : String → Bool) (incoming : env.Incoming) (h : Hub env) (msg : Registration)
      → Carries env incoming (registration_request msg)
      → dispatch_query alive incoming h ≡ (returned, register alive h.clock incoming msg h)
  unfolding dispatch_query query_handlers handler_of register_engine
  dispatch_query-registration alive incoming h msg (topic, (bytes, frame, parsed)) =
      rw (topic, dispatch)
        (with_message-eq env.parse_registration incoming h _ bytes msg frame parsed)

  dispatch_query-unregistration :
      (alive : String → Bool) (incoming : env.Incoming) (h : Hub env) (queue : String)
      → Carries env incoming (unregistration_request queue)
      → dispatch_query alive incoming h ≡ unregister_engine incoming h
  unfolding dispatch_query query_handlers handler_of
  dispatch_query-unregistration alive incoming h queue (topic, frame) = rw (topic, dispatch) refl

module _ {env : Env} (alive : String → Bool) (incoming : env.Incoming) (h : Hub env)
    (v : Names env h) (e : Engine)
    (hello : Carries env incoming (registration_request (introduction e)))
    (free : name_in_use (introduction e) h ≡ false) (beating : alive e.heart_name ≡ true) where
  -- The hub after the engine's request.
  abbrev pub welcomed : Hub env
  welcomed = (dispatch_query alive incoming h).1

  abbrev pub engine_connector : EngineConnector env.Incoming
  engine_connector = connector incoming (introduction e) (pos h.next_id)

  pub welcomed-eq : welcomed ≡ register alive h.clock incoming (introduction e) h
  welcomed-eq =
      ap (λ (r : Outcome × Hub env). r.1)
        (dispatch_query-registration alive incoming h (introduction e) hello)

  -- In a state where the names are apart: the request of an engine whose names are free and whose heart
  -- beats has its effect on both sides. The hub finds the engine by its queue, with its services, and
  -- has one engine more; and the last message that the hub sends makes the engine registered.
  pub handshake :
      ((dispatch_query alive incoming h).0 ≡ returned)
      × (get_engine e.queue_name welcomed ≡ some engine_connector)
      × (engine_connector.services ≡ e.services)
      × (get_num_engines welcomed ≡ suc (get_num_engines h))
      × ((before : List (Sent env.Incoming)) × (last : Sent env.Incoming) × (welcomed.sent
            ≡ before ++ last ∷ [])
          × (dispatch_registration (text_frames last) e ≡ some (record e { registered = true })))
  unfolding dispatch_registration
  handshake =
      let confirmed = register-alive alive h.clock incoming (introduction e) h v free beating in
      (
        ap (λ (r : Outcome × Hub env). r.0)
            (dispatch_query-registration alive incoming h (introduction e) hello),
        ap (get_engine e.queue_name) welcomed-eq ∙ confirmed.0,
        refl,
        ap get_num_engines welcomed-eq ∙ confirmed.1,
        (
          h.sent
              ++ notified "registration_notification" (registration (announcement engine_connector))
                ∷ [],
          replied incoming "registration_request" (text "ACK"),
          ap (λ (g : Hub env). g.sent) welcomed-eq ∙ confirmed.2,
          refl,
        ),
      )

  -- In a state where the names are apart, after the request of an engine whose names are free and whose
  -- heart beats: when the engine shuts down and can still send, the last of the requests that it has
  -- then sent takes it out of the hub again. It is not found by its queue, and there are as many engines
  -- as before it came.
  pub farewell :
      (leaving : env.Incoming) (request : Request)
      → last (shutdown true e).sent ≡ some request
      → Carries env leaving request
      → let h' = (dispatch_query alive leaving welcomed).1 in
        (get_engine e.queue_name h' ≡ none) × (get_num_engines h' ≡ get_num_engines h)
  unfolding shutdown
  farewell leaving request is_last carried =
      let same : some (unregistration_request e.queue_name) ≡ some request =
        sym (last-snoc e.sent (unregistration_request e.queue_name)) ∙ is_last in
      let which : unregistration_request e.queue_name ≡ request = cc in
      let goodbye : Carries env leaving (unregistration_request e.queue_name) =
        subst (Carries env leaving) (sym which) carried in
      let w : Names env welcomed =
        subst (Names env) (sym welcomed-eq)
          (Names-register alive h.clock incoming (introduction e) h v) in
      let left =
        unregister_engine-found welcomed w leaving e.queue_name engine_connector goodbye.1
          handshake.1 in
      let goes : (dispatch_query alive leaving welcomed).1
          ≡ (unregister_engine leaving welcomed).1 =
        ap (λ (r : Outcome × Hub env). r.1)
          (dispatch_query-unregistration alive leaving welcomed e.queue_name goodbye) in
      let fewer : suc (get_num_engines (dispatch_query alive leaving welcomed).1)
          ≡ suc (get_num_engines h) =
        ap (λ g. suc (get_num_engines g)) goes ∙ left.1 ∙ handshake.3 in
      (ap (get_engine e.queue_name) goes ∙ left.0, omega (arith, fewer))
