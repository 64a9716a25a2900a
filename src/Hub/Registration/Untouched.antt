-- ===== src/Hub/Registration/Untouched.antt =====
-- What the handlers of engines leave of the tasks, and which of them leave the counter of ids.
use gpf.Prelude.{ℕ, String, Bool, ◌≡◌, refl, Option-cases, Bool-cases, inl, inr, ℤ}
use gpf.Hub.State.{Env, Hub, EngineConnector}
use gpf.Hub.Registration.{
  accept_registration, finish_registration, handle_new_heart, handle_heart_failure, unregister_dead,
  purge_stalled, find_heart,
}

module _ {env : Env} where
  -- The pending and the completed messages, the records and the counter of ids are what they were.
  abbrev pub SameWork : Hub env → Hub env → Type 0
  SameWork h h' =
      (h'.pending ≡ h.pending)
      × (h'.tasks ≡ h.tasks)
      × (h'.next_id ≡ h.next_id)
      × (h'.all_completed ≡ h.all_completed)

  pub same-finish_registration :
      (heart : String) (h : Hub env) → SameWork h (finish_registration heart h)
  unfolding finish_registration
  same-finish_registration heart h =
      elim (Option-cases (find_heart env h.incoming_registrations heart)) [
        | inl e ↦ rw (e, finish_registration) (refl, refl, refl, refl)
        | inr (ec, e) ↦ rw (e, finish_registration) (refl, refl, refl, refl)
      ]

  pub same-handle_new_heart : (heart : String) (h : Hub env) → SameWork h (handle_new_heart heart h)
  unfolding handle_new_heart
  same-handle_new_heart heart h =
      elim (Option-cases (find_heart env h.incoming_registrations heart)) [
        | inl e ↦ rw (e, handle_new_heart) (refl, refl, refl, refl)
        | inr (ec, e) ↦ rw (e, handle_new_heart) (same-finish_registration heart h)
      ]

  pub same-unregister_dead :
      (now : ℕ) (eid : ℤ) (h : Hub env) → SameWork h (unregister_dead now eid h)
  unfolding unregister_dead
  same-unregister_dead now eid h = elim (Option-cases (env.engine_set.find h.engines eid)) [
    | inl e ↦ rw (e, unregister_dead) (refl, refl, refl, refl)
    | inr (ec, e) ↦ rw (e, unregister_dead) (refl, refl, refl, refl)
  ]

  pub same-handle_heart_failure :
      (now : ℕ) (heart : String) (h : Hub env) → SameWork h (handle_heart_failure now heart h)
  unfolding handle_heart_failure
  same-handle_heart_failure now heart h = elim (Option-cases (find_heart env h.engines heart)) [
    | inl e ↦ rw (e, handle_heart_failure) (refl, refl, refl, refl)
    | inr (ec, e) ↦ rw (e, handle_heart_failure) (same-unregister_dead now ec.id h)
  ]

  pub same-purge_stalled : (heart : String) (h : Hub env) → SameWork h (purge_stalled heart h)
  unfolding purge_stalled
  same-purge_stalled heart h = elim (Option-cases (find_heart env h.incoming_registrations heart)) [
    | inl e ↦ rw (e, purge_stalled) (refl, refl, refl, refl)
    | inr (ec, e) ↦ rw (e, purge_stalled) (refl, refl, refl, refl)
  ]

  pub same-accept_registration :
      (is_alive : String → Bool) (now : ℕ) (ec : EngineConnector env.Incoming) (h : Hub env)
      → SameWork h (accept_registration is_alive now ec h)
  unfolding accept_registration
  same-accept_registration is_alive now ec h = elim (Bool-cases (is_alive ec.heartbeat)) [
    | inl e ↦ rw (e, accept_registration) (same-finish_registration ec.heartbeat _)
    | inr e ↦ rw (e, accept_registration) (refl, refl, refl, refl)
  ]
