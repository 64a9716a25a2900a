-- ===== src/Hub/Registration/Failure.antt =====
-- An engine whose heart fails: nothing takes it out.
use gpf.Prelude.{
  ℕ, suc, ◌+◌, ◌*◌, String, Bool, true, false, ◌≡◌, ap, ◌∙◌, some, [], ◌∷◌, ◌++◌, pos, arith,
}
use gpf.StringSet.{contains}
use gpf.Table.Lookup.{find_by-insert}
use gpf.Hub.Messages.{Registration}
use gpf.Hub.State.{Env, Hub, EngineConnector, Timer, handle_stranded_msgs, notified, number}
use gpf.Hub.Registration.{
  find_queue, find_heart, name_in_use, connector, register, handle_heart_failure, get_engine,
  get_num_engines,
}
use gpf.Hub.Registration.Lifecycle.{register-alive, register-tables, free_names, fresh_engines}
use gpf.Hub.Registration.Departure.{handle_heart_failure-found, handle_stranded-nothing}
use gpf.Hub.Dispatch.{act, fire}
use gpf.Hub.Names.{Names}
use gpf.Hub.Names.Registration.{Names-register, Names-handle_heart_failure}

module _ {env : Env} (alive : String → Bool) (now : ℕ) (incoming : env.Incoming)
    (msg : Registration) (h : Hub env) (v : Names env h) (free : name_in_use msg h ≡ false)
    (beating : alive msg.heartbeat ≡ true) (failing : ℕ) where
  abbrev joined : Hub env
  joined = register alive now incoming msg h

  abbrev ec : EngineConnector env.Incoming
  ec = connector incoming msg (pos h.next_id)

  -- The hub after the failure of the engine's heart.
  abbrev pub failed : Hub env
  failed = handle_heart_failure failing msg.heartbeat joined

  -- The timer of the dead engine.
  abbrev pub stranded_timer : Timer
  stranded_timer = record {
    handle = joined.next_timer;
    deadline = failing + 1000 * joined.registration_timeout;
    action = handle_stranded_msgs (pos h.next_id) msg.queue;
    active = true;
  }

  joined-heart : find_heart env joined.engines msg.heartbeat ≡ some ec
  unfolding find_heart
  joined-heart = rw (register-tables alive now incoming msg h v free beating).0 (
      find_by-insert env.engine_set (λ x. x.heartbeat) h.engines ec
        (free_names alive now incoming msg h v free).1 (fresh_engines h v))

  joined-Names : Names env joined
  joined-Names = Names-register alive now incoming msg h v

  -- The hub after the timer has fired, too.
  abbrev pub over : ℕ → Hub env
  over at = fire stranded_timer (record failed { clock = at })

  over-same :
      (at : ℕ)
      → ((over at).engines ≡ failed.engines) × ((over at).dead_engines ≡ failed.dead_engines)
  unfolding fire act
  over-same at =
      let same =
        handle_stranded-nothing (record failed { clock = at })
          (Names-handle_heart_failure failing msg.heartbeat joined joined-Names) at
          (pos h.next_id) in
      (ap (λ (g : Hub env). g.engines) same, ap (λ (g : Hub env). g.dead_engines) same)

  stays :
      (failed.engines ≡ joined.engines)
      × (contains failed.dead_engines msg.queue ≡ true)
      × (failed.sent
          ≡ joined.sent ++ notified "unregistration_notification" (number (pos h.next_id)) ∷ [])
      × (failed.timers ≡ joined.timers ++ stranded_timer ∷ [])
  stays = handle_heart_failure-found joined joined-Names failing msg.heartbeat ec joined-heart

  found_again :
      (at : ℕ)
      → (get_engine msg.queue (over at) ≡ some ec)
        × (get_num_engines (over at) ≡ suc (get_num_engines h))
  unfolding get_engine get_num_engines
  found_again at =
      let confirmed = register-alive alive now incoming msg h v free beating in
      let same : (over at).engines ≡ joined.engines = (over-same at).0 ∙ stays.0 in
      (
        ap (λ t. find_queue env t msg.queue) same ∙ confirmed.0,
        ap (λ t. env.engine_set.size t) same ∙ confirmed.1,
      )

  -- In a state where the names are apart, after a request whose two names are free and whose heart beats,
  -- and the failure of this heart, at any time: the end of the engine is announced by its id, and the
  -- last timer of the loop is one for its stranded messages, with the registration's timeout. When this
  -- has fired, too, at any time, the queue is among the dead ones, and still the engine is found by it,
  -- there is one engine more than before the request, and no registration under the name of its queue is
  -- accepted.
  pub failed_heart_stays :
      (at : ℕ) (again : Registration)
      → again.queue ≡ msg.queue
      → (failed.sent
          ≡ joined.sent ++ notified "unregistration_notification" (number (pos h.next_id)) ∷ [])
        × (failed.timers ≡ joined.timers ++ stranded_timer ∷ [])
        × (contains (over at).dead_engines msg.queue ≡ true)
        × (get_engine msg.queue (over at) ≡ some ec)
        × (get_num_engines (over at) ≡ suc (get_num_engines h))
        × (name_in_use again (over at) ≡ true)
  unfolding name_in_use get_engine
  failed_heart_stays at again same =
      let there = found_again at in
      (
        stays.2,
        stays.3,
        ap (λ d. contains d msg.queue) (over-same at).1 ∙ stays.1,
        there.0,
        there.1,
        ground (arith, same, there.0),
      )
