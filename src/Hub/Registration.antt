-- ===== src/Hub/Registration.antt =====
-- The engines' side of gpf/controller/hub.cpp: registration, its two halves, and unregistration.
pub mod Lifecycle
pub mod Departure
pub mod Rejoining
pub mod Failure
pub mod Untouched
use gpf.Prelude.{
  ℕ, suc, ◌+◌, ◌*◌, String, Bool, true, false, Option, none, some, List, [], ◌∷◌, ◌++◌, ℤ, pos,
  nat_eq, is_some, if◌then◌else◌,
}
use gpf.StringSet.{insert}
use gpf.Hub.Messages.{Registration}
use gpf.Hub.State.{
  Env, Hub, EngineConnector, Timer, Action, purge_stalled_registration, handle_stranded_msgs,
  Outcome, returned, thrown, notified, replied, text, number, registration, with_message, send,
  add_timer,
}

-- `ec.deletion_callback->set_inactive()` reaches the timer in the loop, which is the same object.
unfoldable pub set_inactive : ℕ → List Timer → List Timer
set_inactive handle [] = []
set_inactive handle (t ∷ ts) =
    (if nat_eq t.handle handle then record t { active = false } else t) ∷ set_inactive handle ts

unfoldable pub cancel : Option ℕ → List Timer → List Timer
unfolding set_inactive
cancel none ts = ts
cancel (some handle) ts = set_inactive handle ts

-- The message that announces a new engine.
abbrev pub announcement : {I : Type 0} → EngineConnector I → Registration
announcement ec = record {
  heartbeat = ec.heartbeat;
  queue = ec.queue;
  reg = ec.registration;
  services = ec.services;
  eid = some ec.id;
}

-- The connector of a new registration.
abbrev pub connector : {I : Type 0} → I → Registration → ℤ → EngineConnector I
connector incoming msg eid = record {
  id = eid;
  queue = msg.queue;
  registration = msg.reg;
  control = "";
  heartbeat = msg.heartbeat;
  services = msg.services;
  queues = [];
  tasks = [];
  completed = [];
  incoming_msg = incoming;
  deletion_callback = none;
}

-- `find` in the indices of `engine_connector_set` on the name of the queue and on that of the heart.
unfoldable pub find_queue :
    (env : Env) → env.engine_set.Rows → String → Option (EngineConnector env.Incoming)
find_queue env = env.engine_set.find_by (λ e. e.queue)

unfoldable pub find_heart :
    (env : Env) → env.engine_set.Rows → String → Option (EngineConnector env.Incoming)
find_heart env = env.engine_set.find_by (λ e. e.heartbeat)

module _ {env : Env} where
  unfoldable pub finish_registration : String → Hub env → Hub env
  unfolding find_heart
  finish_registration heart h = elim (find_heart env h.incoming_registrations heart) [
    | none ↦ h
    | some ec ↦ send (replied ec.incoming_msg "registration_request" (text "ACK")) (
        send (notified "registration_notification" (registration (announcement ec))) (record h {
          timers = cancel ec.deletion_callback h.timers;
          engines = env.engine_set.insert ec h.engines;
        }))
  ]

  unfoldable pub handle_new_heart : String → Hub env → Hub env
  unfolding find_heart
  handle_new_heart heart h = elim (find_heart env h.incoming_registrations heart) [
    | none ↦ h
    | some ec ↦ finish_registration heart h
  ]

  -- The four tests on the names, in the source's order.
  unfoldable pub name_in_use : Registration → Hub env → Bool
  unfolding find_queue find_heart
  name_in_use msg h =
      if is_some (find_queue env h.engines msg.queue)
      then true
      else if is_some (find_heart env h.engines msg.heartbeat)
      then true
      else if is_some (find_queue env h.incoming_registrations msg.queue)
      then true
      else is_some (find_heart env h.incoming_registrations msg.heartbeat)

  -- What follows the tests. A heart that beats finishes at once; any other gets a deadline.
  unfoldable pub accept_registration :
      (String → Bool) → ℕ → EngineConnector env.Incoming → Hub env → Hub env
  unfolding finish_registration
  accept_registration alive now ec h =
      if alive ec.heartbeat
      then finish_registration ec.heartbeat
          (record h { incoming_registrations = env.engine_set.insert ec h.incoming_registrations })
      else add_timer now h.registration_timeout (purge_stalled_registration ec.heartbeat)
          (record h {
            incoming_registrations =
                env.engine_set.insert (record ec { deletion_callback = some h.next_timer })
                  h.incoming_registrations;
          })

  -- `m_heartmonitor->alive` is `alive`, the clock reads `now` when the timer is made.
  unfoldable pub register : (String → Bool) → ℕ → env.Incoming → Registration → Hub env → Hub env
  unfolding name_in_use accept_registration
  register alive now incoming msg h =
      let counted : Hub env = record h { next_id = suc h.next_id } in
      if name_in_use msg counted
      then counted
      else accept_registration alive now (connector incoming msg (pos h.next_id)) counted

  unfoldable pub register_engine : (String → Bool) → ℕ → env.Incoming → Hub env → Outcome × Hub env
  unfolding register
  register_engine alive now incoming h =
      with_message env.parse_registration incoming h
        λ msg. (returned, register alive now incoming msg h)

  -- The callback `_purge_stalled_registration`.
  unfoldable pub purge_stalled : String → Hub env → Hub env
  unfolding find_heart
  purge_stalled heart h = elim (find_heart env h.incoming_registrations heart) [
    | none ↦ h
    | some ec ↦ record h {
      incoming_registrations = env.engine_set.erase ec.id h.incoming_registrations;
    }
  ]

  -- `_unregister_engine`
  unfoldable pub unregister_dead : ℕ → ℤ → Hub env → Hub env
  unregister_dead now eid h = elim (env.engine_set.find h.engines eid) [
    | none ↦ h
    | some ec ↦ send (notified "unregistration_notification" (number eid)) (
        add_timer now h.registration_timeout (handle_stranded_msgs eid ec.queue)
          (record h { dead_engines = insert ec.queue h.dead_engines }))
  ]

  unfoldable pub handle_heart_failure : ℕ → String → Hub env → Hub env
  unfolding find_heart unregister_dead
  handle_heart_failure now heart h = elim (find_heart env h.engines heart) [
    | none ↦ h
    | some ec ↦ unregister_dead now ec.id h
  ]

  -- The request of an engine: its second frame is the name of its queue.
  unfoldable pub unregister_engine : env.Incoming → Hub env → Outcome × Hub env
  unfolding find_queue
  unregister_engine incoming h = elim (env.header incoming) [
    | none ↦ (thrown, h)
    | some queue ↦ elim (find_queue env h.engines queue) [
      | none ↦ (returned, h)
      | some ec ↦ (returned, record h { engines = env.engine_set.erase ec.id h.engines })
    ]
  ]

  -- `none` is the exception `unknown_engine_error`.
  unfoldable pub get_engine_by_id : ℤ → Hub env → Option (EngineConnector env.Incoming)
  get_engine_by_id eid h = env.engine_set.find h.engines eid

  unfoldable pub get_engine : String → Hub env → Option (EngineConnector env.Incoming)
  unfolding find_queue
  get_engine queue h = find_queue env h.engines queue

  unfoldable pub get_num_engines : Hub env → ℕ
  get_num_engines h = env.engine_set.size h.engines
