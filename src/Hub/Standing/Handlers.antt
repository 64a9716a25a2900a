-- ===== src/Hub/Standing/Handlers.antt =====
-- Every handler of the hub moves each id as the specification allows.
use gpf.Prelude.{ℕ, suc, String, Bool, ◌≡◌, refl, inl, inr, ℤ, pos, Option-cases, Bool-cases}
use gpf.Hub.State.{Env, Hub, EngineConnector, with_message-keeps}
use gpf.Hub.Registration.{
  finish_registration, handle_new_heart, name_in_use, accept_registration, connector, register,
  register_engine, purge_stalled, unregister_dead, handle_heart_failure, unregister_engine,
  find_heart, find_queue,
}
use gpf.Hub.Names.Tasks.{SameEngines}
use gpf.Hub.Standing.{
  Standing, Moves, stays, Moves-trans, standing, Moves-counts, Moves-applies, Moves-joins,
  Moves-expires, Moves-leaves,
}

module _ {env : Env} where
  abbrev pub standing_of : ℤ → Hub env → Standing env
  standing_of k h = standing env k h.next_id h.incoming_registrations h.engines

  -- Every id makes moves of the specification.
  abbrev pub Steps : Hub env → Hub env → Type 0
  Steps h h' = (k : ℤ) → Moves env k (standing_of k h) (standing_of k h')

  pub Steps-refl : (h : Hub env) → Steps h h
  Steps-refl h k = stays refl

  pub Steps-trans : (h₁ h₂ h₃ : Hub env) → Steps h₁ h₂ → Steps h₂ h₃ → Steps h₁ h₃
  Steps-trans h₁ h₂ h₃ p q k = Moves-trans env (p k) (q k)

  pub Steps-same : (h h' : Hub env) → SameEngines h h' → Steps h h'
  Steps-same h h' same k = stays (λ i. standing env k (same.2 i) (same.1 i) (same.0 i))

  Steps-finish_registration : (heart : String) (h : Hub env) → Steps h (finish_registration heart h)
  unfolding finish_registration
  Steps-finish_registration heart h k =
      elim (Option-cases (find_heart env h.incoming_registrations heart)) [
        | inl e ↦ rw (e, finish_registration) (stays refl)
        | inr (ec, e) ↦
            rw (e, finish_registration)
              (Moves-joins env k h.next_id h.incoming_registrations h.engines ec
                (env.engine_set.find_by-sound (λ e. e.heartbeat) h.incoming_registrations heart ec
                  e).1)
      ]

  pub Steps-handle_new_heart : (heart : String) (h : Hub env) → Steps h (handle_new_heart heart h)
  unfolding handle_new_heart
  Steps-handle_new_heart heart h k =
      elim (Option-cases (find_heart env h.incoming_registrations heart)) [
        | inl e ↦ rw (e, handle_new_heart) (stays refl)
        | inr (ec, e) ↦ rw (e, handle_new_heart) (Steps-finish_registration heart h k)
      ]

  -- The request takes the id that the counter stood at.
  Steps-accept :
      (alive : String → Bool) (now n : ℕ) (ec : EngineConnector env.Incoming) (h : Hub env)
      → ec.id ≡ pos n
      → Steps
          (record h { next_id = n })
          (accept_registration alive now ec (record h { next_id = suc n }))
  unfolding accept_registration
  Steps-accept alive now n ec h i k = elim (Bool-cases (alive ec.heartbeat)) [
    | inl a ↦
        rw (a, accept_registration)
          (Moves-trans env (Moves-applies env k n h.incoming_registrations h.engines ec i) (
            Steps-finish_registration ec.heartbeat
              (record h {
                next_id = suc n;
                incoming_registrations = env.engine_set.insert ec h.incoming_registrations;
              })
              k))
    | inr a ↦
        rw (a, accept_registration) (Moves-applies env k n h.incoming_registrations h.engines _ i)
  ]

  pub Steps-register_engine :
      (alive : String → Bool) (now : ℕ) (incoming : env.Incoming) (h : Hub env)
      → Steps h (register_engine alive now incoming h).1
  unfolding register_engine register
  Steps-register_engine alive now incoming h =
      with_message-keeps (Steps h) env.parse_registration incoming h _ (Steps-refl h) λ msg k.
        let counted : Hub env = record h { next_id = suc h.next_id } in
        elim (Bool-cases (name_in_use msg counted)) [
          | inl used ↦
              rw (used, register) (Moves-counts env k h.next_id h.incoming_registrations h.engines)
          | inr free ↦
              rw (free, register)
                (Steps-accept alive now h.next_id (connector incoming msg (pos h.next_id)) h refl k)
        ]

  pub Steps-purge_stalled : (heart : String) (h : Hub env) → Steps h (purge_stalled heart h)
  unfolding purge_stalled
  Steps-purge_stalled heart h k =
      elim (Option-cases (find_heart env h.incoming_registrations heart)) [
        | inl e ↦ rw (e, purge_stalled) (stays refl)
        | inr (ec, e) ↦
            rw (e, purge_stalled)
              (Moves-expires env k h.next_id h.incoming_registrations h.engines ec.id)
      ]

  Steps-unregister_dead : (now : ℕ) (eid : ℤ) (h : Hub env) → Steps h (unregister_dead now eid h)
  unfolding unregister_dead
  Steps-unregister_dead now eid h k = elim (Option-cases (env.engine_set.find h.engines eid)) [
    | inl e ↦ rw (e, unregister_dead) (stays refl)
    | inr (ec, e) ↦ rw (e, unregister_dead) (stays refl)
  ]

  pub Steps-handle_heart_failure :
      (now : ℕ) (heart : String) (h : Hub env) → Steps h (handle_heart_failure now heart h)
  unfolding handle_heart_failure
  Steps-handle_heart_failure now heart h k = elim (Option-cases (find_heart env h.engines heart)) [
    | inl e ↦ rw (e, handle_heart_failure) (stays refl)
    | inr (ec, e) ↦ rw (e, handle_heart_failure) (Steps-unregister_dead now ec.id h k)
  ]

  pub Steps-unregister_engine :
      (incoming : env.Incoming) (h : Hub env) → Steps h (unregister_engine incoming h).1
  unfolding unregister_engine
  Steps-unregister_engine incoming h k = elim (Option-cases (env.header incoming)) [
    | inl e ↦ rw (e, unregister_engine) (stays refl)
    | inr (queue, e) ↦
        rw (e, unregister_engine)
          (elim (Option-cases (find_queue env h.engines queue)) [
            | inl d ↦ rw d (stays refl)
            | inr (ec, d) ↦
                rw d (Moves-leaves env k h.next_id h.incoming_registrations h.engines ec.id)
          ])
  ]
