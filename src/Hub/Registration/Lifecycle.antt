-- ===== src/Hub/Registration/Lifecycle.antt =====
-- The life of a registration: accepted, confirmed by its heart or purged, given back, asked again.
use gpf.Prelude.{
  ℕ, suc, ◌+◌, ◌*◌, String, Bool, true, false, ◌≡◌, refl, sym, subst, ap, ◌∙◌, none, some, List, [],
  ◌∷◌, ◌++◌, pos, arith, map, nat_eq, if◌then◌else◌, inl, inr, Option-cases,
}
use gpf.Table.Lookup.{find_by-insert, find_by-erase-insert}
use gpf.Hub.Messages.{Registration}
use gpf.Hub.State.{
  Env, Hub, EngineConnector, Timer, purge_stalled_registration, notified, replied, text,
  registration,
}
use gpf.Hub.Registration.{
  set_inactive, cancel, connector, find_queue, find_heart, finish_registration, handle_new_heart,
  name_in_use, accept_registration, register, purge_stalled, get_engine, get_num_engines,
}
use gpf.Hub.Dispatch.{act, fire}
use gpf.Hub.Names.{Names}

module _ {env : Env} where
  -- An id that the counter has not reached is in no table.
  pub fresh_engines :
      (h : Hub env) → Names env h → env.engine_set.find h.engines (pos h.next_id) ≡ none
  fresh_engines h v = elim (Option-cases (env.engine_set.find h.engines (pos h.next_id))) [
    | inl e ↦ e
    | inr (ec, e) ↦ absurd (omega (arith, v.issued_engines (pos h.next_id) ec e))
  ]

  pub fresh_incoming :
      (h : Hub env)
      → Names env h
      → env.engine_set.find h.incoming_registrations (pos h.next_id) ≡ none
  fresh_incoming h v =
      elim (Option-cases (env.engine_set.find h.incoming_registrations (pos h.next_id))) [
        | inl e ↦ e
        | inr (ec, e) ↦ absurd (omega (arith, v.issued_incoming (pos h.next_id) ec e))
      ]

  -- `h'` is `h` with the engine `ec` registered: it is found by its queue, there is one engine more,
  -- the others are notified and the engine is answered, and the loop's timers are `ts`.
  abbrev pub Confirms : Hub env → EngineConnector env.Incoming → List Timer → Hub env → Type 0
  Confirms h ec ts h' =
      (get_engine ec.queue h' ≡ some ec)
      × (get_num_engines h' ≡ suc (get_num_engines h))
      × (h'.sent
          ≡ (h.sent
              ++ notified "registration_notification" (
                  registration (record {
                    heartbeat = ec.heartbeat;
                    queue = ec.queue;
                    reg = ec.registration;
                    services = ec.services;
                    eid = some ec.id;
                  }))
                ∷ [])
            ++ replied ec.incoming_msg "registration_request" (text "ACK") ∷ [])
      × (h'.timers ≡ ts)

  -- The second half of a registration, where the waiting connector is known.
  pub finish_registration-found :
      (heart : String) (h : Hub env) (ec : EngineConnector env.Incoming)
      → find_heart env h.incoming_registrations heart ≡ some ec
      → find_queue env h.engines ec.queue ≡ none
      → env.engine_set.find h.engines ec.id ≡ none
      → Confirms h ec (cancel ec.deletion_callback h.timers) (finish_registration heart h)
  unfolding finish_registration get_engine get_num_engines find_queue
  finish_registration-found heart h ec e free new =
      rw (e, finish_registration)
        (
          find_by-insert env.engine_set (λ x. x.queue) h.engines ec free new,
          ground (arith, new, env.engine_set.size-insert ec h.engines),
          refl,
          refl,
        )

-- A timer, not active if it has the handle.
abbrev pub disarmed : ℕ → Timer → Timer
disarmed handle t = if nat_eq t.handle handle then record t { active = false } else t

set_inactive-snoc :
    (ts : List Timer) (t : Timer)
    → set_inactive t.handle (ts ++ t ∷ [])
      ≡ map (disarmed t.handle) ts ++ record t { active = false } ∷ []
unfolding set_inactive
set_inactive-snoc [] t = let same : nat_eq t.handle t.handle ≡ true = ground arith in rw same refl
set_inactive-snoc (s ∷ ts) t = rw (set_inactive-snoc ts t) refl

module _ {env : Env} where
  abbrev pub waiting_connector :
      env.Incoming → Registration → Hub env → EngineConnector env.Incoming
  waiting_connector incoming msg h = record (connector incoming msg (pos h.next_id)) {
    deletion_callback = some h.next_timer;
  }

  -- The timer of a registration that waits for its heart.
  abbrev pub purge_timer : ℕ → Registration → Hub env → Timer
  purge_timer now msg h = record {
    handle = h.next_timer;
    deadline = now + 1000 * h.registration_timeout;
    action = purge_stalled_registration msg.heartbeat;
    active = true;
  }

  -- The hub after it.
  abbrev pub waiting : ℕ → env.Incoming → Registration → Hub env → Hub env
  waiting now incoming msg h = record h {
    next_id = suc h.next_id;
    incoming_registrations =
        env.engine_set.insert (waiting_connector incoming msg h) h.incoming_registrations;
    timers = h.timers ++ purge_timer now msg h ∷ [];
    next_timer = suc h.next_timer;
  }

module _ {env : Env} (alive : String → Bool) (now : ℕ) (incoming : env.Incoming)
    (msg : Registration) (h : Hub env) (v : Names env h) (free : name_in_use msg h ≡ false) where
  -- The connector that the registration makes.
  abbrev pub new_connector : EngineConnector env.Incoming
  new_connector = connector incoming msg (pos h.next_id)

  pub free_names :
      (find_queue env h.engines msg.queue ≡ none)
      × (find_heart env h.engines msg.heartbeat ≡ none)
      × (find_queue env h.incoming_registrations msg.queue ≡ none)
      × (find_heart env h.incoming_registrations msg.heartbeat ≡ none)
  unfolding name_in_use
  free_names = ground (arith, free)

  pub register-accepts :
      register alive now incoming msg h
      ≡ accept_registration alive now new_connector (record h { next_id = suc h.next_id })
  unfolding register name_in_use
  register-accepts = ground (arith, free)

  -- In a state where the names are apart: a request whose two names are free and whose heart beats is
  -- registered at once: the engine is found by its queue, under the
  -- id that the counter gave, there is one engine more, the others hear of it, and the engine gets
  -- its acknowledgement.
  pub register-alive :
      alive msg.heartbeat ≡ true
      → Confirms h new_connector h.timers (register alive now incoming msg h)
  unfolding cancel accept_registration find_heart get_engine get_num_engines
  register-alive beating =
      rw (register-accepts, beating, accept_registration)
        (finish_registration-found msg.heartbeat
          (record h {
            next_id = suc h.next_id;
            incoming_registrations = env.engine_set.insert new_connector h.incoming_registrations;
          })
          new_connector
          (find_by-insert env.engine_set (λ x. x.heartbeat) h.incoming_registrations new_connector
            free_names.3 (fresh_incoming h v))
          free_names.0 (fresh_engines h v))

  -- The tables after a registration at once: the connector stands in both.
  pub register-tables :
      alive msg.heartbeat ≡ true
      → let h' = register alive now incoming msg h in
        (h'.engines ≡ env.engine_set.insert new_connector h.engines)
        × (h'.incoming_registrations ≡ env.engine_set.insert new_connector h.incoming_registrations)
  unfolding accept_registration finish_registration find_heart
  register-tables beating =
      rw
        (
          register-accepts,
          beating,
          accept_registration,
          finish_registration,
          find_by-insert env.engine_set (λ x. x.heartbeat) h.incoming_registrations new_connector
              free_names.3 (fresh_incoming h v),
        )
        (refl, refl)

  -- In a state where the names are apart: a request whose two names are free and whose heart does not
  -- beat waits: nothing is registered or sent, and the loop gets one
  -- timer, which purges the registration after the timeout.
  pub register-silent :
      alive msg.heartbeat ≡ false → register alive now incoming msg h ≡ waiting now incoming msg h
  unfolding accept_registration
  register-silent silent = rw (register-accepts, silent, accept_registration) refl

  pub waiting_heart :
      find_heart env
        (env.engine_set.insert (waiting_connector incoming msg h) h.incoming_registrations)
        msg.heartbeat
      ≡ some (waiting_connector incoming msg h)
  unfolding find_heart
  waiting_heart =
      find_by-insert env.engine_set (λ x. x.heartbeat) h.incoming_registrations
        (waiting_connector incoming msg h) free_names.3 (fresh_incoming h v)

  waiting_confirmed :
      handle_new_heart msg.heartbeat (waiting now incoming msg h)
      ≡ finish_registration msg.heartbeat (waiting now incoming msg h)
  unfolding handle_new_heart
  waiting_confirmed = rw (handle_new_heart, waiting_heart)

  -- In a state where the names are apart, after a request whose two names are free and whose heart does
  -- not beat: the first beat of the heart finishes the waiting registration, which takes effect as one
  -- at once does. The timer that the registration has set, the last of the loop, is then not active, and
  -- of the timers before it each with another handle is as it was.
  pub register-then-heart :
      alive msg.heartbeat ≡ false
      → Confirms h
          (waiting_connector incoming msg h)
          (map (disarmed h.next_timer) h.timers
            ++ record (purge_timer now msg h) { active = false } ∷ [])
          (handle_new_heart msg.heartbeat (register alive now incoming msg h))
  unfolding cancel get_engine get_num_engines
  register-then-heart silent =
      subst
        (Confirms h (waiting_connector incoming msg h) (
          map (disarmed h.next_timer) h.timers
          ++ record (purge_timer now msg h) { active = false } ∷ []))
        (sym (ap (handle_new_heart msg.heartbeat) (register-silent silent) ∙ waiting_confirmed))
        (subst
          (λ ts.
            Confirms h (waiting_connector incoming msg h) ts
              (finish_registration msg.heartbeat (waiting now incoming msg h)))
          (set_inactive-snoc h.timers (purge_timer now msg h))
          (finish_registration-found msg.heartbeat (waiting now incoming msg h)
            (waiting_connector incoming msg h) waiting_heart free_names.0 (fresh_engines h v)))

  waiting_purged :
      purge_stalled msg.heartbeat (waiting now incoming msg h)
      ≡ record (waiting now incoming msg h) {
        incoming_registrations =
            env.engine_set.erase
              (pos h.next_id)
              (waiting now incoming msg h).incoming_registrations;
      }
  unfolding purge_stalled
  waiting_purged = rw (purge_stalled, waiting_heart)

  -- In a state where the names are apart, after a request whose two names are free and whose heart does
  -- not beat: the registration has set a timer, the last of the loop, for the end of its timeout. When
  -- this fires, it takes the registration out: its names are free again, and no engine was added and
  -- nothing sent.
  pub register-then-deadline :
      alive msg.heartbeat ≡ false
      → let h' = fire (purge_timer now msg h) (register alive now incoming msg h) in
        ((register alive now incoming msg h).timers ≡ h.timers ++ purge_timer now msg h ∷ [])
        × (name_in_use msg h' ≡ false)
        × (get_num_engines h' ≡ get_num_engines h)
        × (h'.sent ≡ h.sent)
  unfolding fire act get_num_engines name_in_use find_queue find_heart
  register-then-deadline silent =
      rw (register-silent silent, waiting_purged)
        (rw
          (
            free_names.0,
            free_names.1,
            find_by-erase-insert env.engine_set (λ x. x.queue) h.incoming_registrations
                (waiting_connector incoming msg h) msg.queue free_names.2 (fresh_incoming h v),
            find_by-erase-insert env.engine_set (λ x. x.heartbeat) h.incoming_registrations
                (waiting_connector incoming msg h) msg.heartbeat free_names.3 (fresh_incoming h v),
          )
          (refl, refl, refl, refl))
