-- ===== src/Hub/Registration/Departure.antt =====
-- How engines leave: at their own request, or because their heart failed.
use gpf.Prelude.{
  ℕ, suc, ◌+◌, ◌*◌, String, true, ◌≡◌, refl, eq_refl, none, some, [], ◌∷◌, ◌++◌, ℤ, int_eq, arith,
  inl, inr, Option-cases,
}
use gpf.StringSet.{contains, contains-insert}
use gpf.Table.Lookup.{find_by-none}
use gpf.Hub.State.{Env, Hub, EngineConnector, handle_stranded_msgs, notified, number}
use gpf.Hub.Registration.{
  find_queue, find_heart, unregister_dead, handle_heart_failure, unregister_engine, get_engine,
  get_num_engines,
}
use gpf.Hub.Tasks.{handle_stranded, strand}
use gpf.Hub.Names.{Names}

module _ {env : Env} (h : Hub env) (v : Names env h) where
  -- Of a queue that is registered, the row is the only one.
  only_queue :
      (queue : String) (ec : EngineConnector env.Incoming)
      → get_engine queue h ≡ some ec
      → find_queue env (env.engine_set.erase ec.id h.engines) queue ≡ none
  unfolding get_engine find_queue
  only_queue queue ec e =
      let found = env.engine_set.find_by-sound (λ x. x.queue) h.engines queue ec e in
      find_by-none env.engine_set (λ x. x.queue) (env.engine_set.erase ec.id h.engines) queue
        λ g p q. ground (
          arith,
          p,
          found,
          env.engine_set.find-erase ec.id h.engines g.id,
          int_eq.beq_iff ec.id g.id,
          v.queues.within ec.id g.id ec g found.1,
        )

  -- In a state where the names are apart: an engine that asks to be unregistered, and is found by the
  -- name of its queue, is gone: there is one engine less, its queue is not found, and nothing else of
  -- the hub has changed.
  pub unregister_engine-found :
      (incoming : env.Incoming) (queue : String) (ec : EngineConnector env.Incoming)
      → env.header incoming ≡ some queue
      → get_engine queue h ≡ some ec
      → let h' = (unregister_engine incoming h).1 in
        (get_engine queue h' ≡ none)
        × (suc (get_num_engines h') ≡ get_num_engines h)
        × (h' ≡ record h { engines = env.engine_set.erase ec.id h.engines })
  unfolding unregister_engine get_engine get_num_engines find_queue
  unregister_engine-found incoming queue ec frame e =
      rw (frame, unregister_engine, e)
        (
          only_queue queue ec e,
          ground (
            arith,
            env.engine_set.size-erase ec.id h.engines,
            env.engine_set.find_by-sound (λ x. x.queue) h.engines queue ec e,
          ),
          refl,
        )

  -- The failure of a heart that belongs to an engine takes no engine away: its queue is put among the dead, the others are
  -- notified, and a timer is set for the messages that are stranded on it.
  pub handle_heart_failure-found :
      (now : ℕ) (heart : String) (ec : EngineConnector env.Incoming)
      → find_heart env h.engines heart ≡ some ec
      → let h' = handle_heart_failure now heart h in
        (h'.engines ≡ h.engines)
        × (contains h'.dead_engines ec.queue ≡ true)
        × (h'.sent ≡ h.sent ++ notified "unregistration_notification" (number ec.id) ∷ [])
        × (h'.timers
            ≡ h.timers
              ++ record {
                handle = h.next_timer;
                deadline = now + 1000 * h.registration_timeout;
                action = handle_stranded_msgs ec.id ec.queue;
                active = true;
              }
                ∷ [])
  unfolding handle_heart_failure unregister_dead find_heart
  handle_heart_failure-found now heart ec e =
      rw
        (
          handle_heart_failure,
          e,
          unregister_dead,
          (env.engine_set.find_by-sound (λ x. x.heartbeat) h.engines heart ec e).1,
        )
        (refl, rw contains-insert (ground (arith, eq_refl ec.queue)), refl, refl)

  -- In a state where the engines are idle: the timer of a dead engine changes nothing, as no engine has a
  -- message on record that could be given up.
  pub handle_stranded-nothing : (now : ℕ) (eid : ℤ) → handle_stranded now eid h ≡ h
  unfolding handle_stranded strand
  handle_stranded-nothing now eid = elim (Option-cases (env.engine_set.find h.engines eid)) [
    | inl e ↦ rw (e, handle_stranded) refl
    | inr (ec, e) ↦ rw (e, handle_stranded, (v.idle_engines eid ec e).0) refl
  ]
