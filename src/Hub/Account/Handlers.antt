-- ===== src/Hub/Account/Handlers.antt =====
-- Every handler of the hub leaves the log accounted for.
use gpf.Prelude.{ℕ, String, Bool, refl, some, List, inl, inr, ℤ, Option-cases, Bool-cases}
use gpf.Hub.State.{Env, Hub, EngineConnector, Sent}
use gpf.Hub.Registration.{
  finish_registration, handle_new_heart, accept_registration, purge_stalled, unregister_dead,
  handle_heart_failure, find_heart,
}
use gpf.Hub.Names.Tasks.{SameEngines}
use gpf.Hub.Account.{
  Account, AccountOf-send, AccountOf-admit, AccountOf-wait, AccountOf-drop, Introduced, departs,
}

module _ {env : Env} (old : List (Sent env.Incoming)) (ms : List env.Incoming) where
  pub Account-same :
      (h h' : Hub env) → SameEngines h h' → Account env old ms h → Account env old ms h'
  Account-same h h' same v = rw (same.0, same.1, same.3) v

  Account-finish_registration :
      (heart : String) (h : Hub env)
      → Account env old ms h
      → Account env old ms (finish_registration heart h)
  unfolding finish_registration
  Account-finish_registration heart h v =
      elim (Option-cases (find_heart env h.incoming_registrations heart)) [
        | inl e ↦ rw (e, finish_registration) v
        | inr (ec, e) ↦
            rw (e, finish_registration)
              (AccountOf-admit env old ms h.engines h.incoming_registrations h.sent ec
                (env.engine_set.find_by-sound (λ e. e.heartbeat) h.incoming_registrations heart ec
                  e).1
                v)
      ]

  pub Account-handle_new_heart :
      (heart : String) (h : Hub env)
      → Account env old ms h
      → Account env old ms (handle_new_heart heart h)
  unfolding handle_new_heart
  Account-handle_new_heart heart h v =
      elim (Option-cases (find_heart env h.incoming_registrations heart)) [
        | inl e ↦ rw (e, handle_new_heart) v
        | inr (ec, e) ↦ rw (e, handle_new_heart) (Account-finish_registration heart h v)
      ]

  pub Account-accept :
      (alive : String → Bool) (now : ℕ) (ec : EngineConnector env.Incoming) (h : Hub env)
      → ((callback : _) → Introduced env ms (record ec { deletion_callback = callback }))
      → Account env old ms h
      → Account env old ms (accept_registration alive now ec h)
  unfolding accept_registration
  Account-accept alive now ec h o v = elim (Bool-cases (alive ec.heartbeat)) [
    | inl a ↦
        rw (a, accept_registration)
          (Account-finish_registration ec.heartbeat _ (
            AccountOf-wait env old ms h.engines h.incoming_registrations h.sent ec
              (o ec.deletion_callback) v))
    | inr a ↦
        rw (a, accept_registration)
          (AccountOf-wait env old ms h.engines h.incoming_registrations h.sent _
            (o (some h.next_timer)) v)
  ]

  pub Account-purge_stalled :
      (heart : String) (h : Hub env)
      → Account env old ms h
      → Account env old ms (purge_stalled heart h)
  unfolding purge_stalled
  Account-purge_stalled heart h v =
      elim (Option-cases (find_heart env h.incoming_registrations heart)) [
        | inl e ↦ rw (e, purge_stalled) v
        | inr (ec, e) ↦
            rw (e, purge_stalled)
              (AccountOf-drop env old ms h.engines h.incoming_registrations h.sent ec.id v)
      ]

  Account-unregister_dead :
      (now : ℕ) (eid : ℤ) (h : Hub env)
      → Account env old ms h
      → Account env old ms (unregister_dead now eid h)
  unfolding unregister_dead
  Account-unregister_dead now eid h v = elim (Option-cases (env.engine_set.find h.engines eid)) [
    | inl e ↦ rw (e, unregister_dead) v
    | inr (ec, e) ↦
        rw (e, unregister_dead)
          (AccountOf-send env old ms h.engines h.incoming_registrations h.sent _
            (departs ec (rw (env.engine_set.find-key h.engines eid ec e) refl)
              (v.admissions eid ec e).1)
            v)
  ]

  pub Account-handle_heart_failure :
      (now : ℕ) (heart : String) (h : Hub env)
      → Account env old ms h
      → Account env old ms (handle_heart_failure now heart h)
  unfolding handle_heart_failure
  Account-handle_heart_failure now heart h v =
      elim (Option-cases (find_heart env h.engines heart)) [
        | inl e ↦ rw (e, handle_heart_failure) v
        | inr (ec, e) ↦ rw (e, handle_heart_failure) (Account-unregister_dead now ec.id h v)
      ]
