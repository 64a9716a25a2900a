-- ===== src/Hub/Confirmation.antt =====
-- A waiting registration and the beat of its heart, in the hub with its monitor.
pub mod Beat
use gpf.Prelude.{
  ℕ, String, ◌≡◌, refl, sym, ap, subst, ◌∙◌, none, some, ◌⊎◌, inl, inr, arith, Option-cases,
  Bool-cases, int_eq, is_some,
}
use gpf.Hub.State.{Env, Hub, EngineConnector}
use gpf.Hub.Registration.{
  find_heart, find_queue, finish_registration, handle_new_heart, handle_heart_failure,
  unregister_dead, get_engine,
}
use gpf.Hub.Names.{Names}
use gpf.Hub.Names.Registration.{Names-handle_new_heart, Names-handle_heart_failure}

module _ {env : Env} where
  tables-finish_registration :
      (heart : String) (h : Hub env) (ec : EngineConnector env.Incoming)
      → find_heart env h.incoming_registrations heart ≡ some ec
      → let h' = finish_registration heart h in
        (h'.incoming_registrations ≡ h.incoming_registrations)
        × (h'.engines ≡ env.engine_set.insert ec h.engines)
  unfolding finish_registration
  tables-finish_registration heart h ec e = rw (finish_registration, e) (refl, refl)

  -- What the callback for a new heart does to the tables.
  tables-handle_new_heart :
      (heart : String) (h : Hub env)
      → let h' = handle_new_heart heart h in
        (h'.incoming_registrations ≡ h.incoming_registrations)
        × (((find_heart env h.incoming_registrations heart ≡ none) × (h'.engines ≡ h.engines))
            ⊎ ((ec : EngineConnector env.Incoming) × (find_heart env h.incoming_registrations heart
                  ≡ some ec)
                × (h'.engines ≡ env.engine_set.insert ec h.engines)))
  unfolding handle_new_heart
  tables-handle_new_heart heart h =
      elim (Option-cases (find_heart env h.incoming_registrations heart)) [
        | inl e ↦ rw (e, handle_new_heart) (refl, inl (refl, refl))
        | inr (ec, e) ↦
            let tables = tables-finish_registration heart h ec e in
            rw (e, handle_new_heart) (tables.0, inr (ec, refl, tables.1))
      ]

  tables-handle_heart_failure :
      (now : ℕ) (heart : String) (h : Hub env)
      → let h' = handle_heart_failure now heart h in
        (h'.incoming_registrations ≡ h.incoming_registrations) × (h'.engines ≡ h.engines)
  unfolding handle_heart_failure unregister_dead
  tables-handle_heart_failure now heart h = elim (Option-cases (find_heart env h.engines heart)) [
    | inl e ↦ rw (e, handle_heart_failure) (refl, refl)
    | inr (ec, e) ↦ elim (Option-cases (env.engine_set.find h.engines ec.id)) [
      | inl d ↦ rw (e, handle_heart_failure, d, unregister_dead) (refl, refl)
      | inr (ec', d) ↦ rw (e, handle_heart_failure, d, unregister_dead) (refl, refl)
    ]
  ]

module _ {env : Env} (ec : EngineConnector env.Incoming) where
  -- The registration is among the incoming ones, and has an engine.
  abbrev pub Confirmed : Hub env → Type 0
  Confirmed h =
      Names env h
      × (find_heart env h.incoming_registrations ec.heartbeat ≡ some ec)
      × (env.engine_set.find h.engines ec.id ≡ some ec)

  -- It has one, or its id is still free.
  abbrev pub Awaited : Hub env → Type 0
  Awaited h =
      Names env h
      × (find_heart env h.incoming_registrations ec.heartbeat ≡ some ec)
      × ((env.engine_set.find h.engines ec.id ≡ none)
          ⊎ (env.engine_set.find h.engines ec.id ≡ some ec))

  pub Confirmed-handle_new_heart :
      (heart : String) (h : Hub env) → Confirmed h → Confirmed (handle_new_heart heart h)
  Confirmed-handle_new_heart heart h c =
      let tables = tables-handle_new_heart heart h in
      (
        Names-handle_new_heart heart h c.0,
        ap (λ t. find_heart env t ec.heartbeat) tables.0 ∙ c.1,
        elim tables.1 [
          | inl (e, same) ↦ ap (λ t. env.engine_set.find t ec.id) same ∙ c.2
          | inr (ec', e, added) ↦
              ap (λ t. env.engine_set.find t ec.id) added
              ∙ ground (
                arith,
                env.engine_set.find-insert ec' h.engines ec.id,
                c.2,
                int_eq.beq_iff ec'.id ec.id,
              )
        ],
      )

  -- The callback for the registration's own heart.
  pub Confirmed-own_heart : (h : Hub env) → Awaited h → Confirmed (handle_new_heart ec.heartbeat h)
  Confirmed-own_heart h w =
      let tables = tables-handle_new_heart ec.heartbeat h in
      (
        Names-handle_new_heart ec.heartbeat h w.0,
        ap (λ t. find_heart env t ec.heartbeat) tables.0 ∙ w.1,
        elim tables.1 [
          | inl (e, same) ↦ absurd (cc (e, w.1))
          | inr (ec', e, added) ↦
              let own : ec' ≡ ec = cc (e, w.1) in
              ap (λ t. env.engine_set.find t ec.id) added
              ∙ ap (λ x. env.engine_set.find (env.engine_set.insert x h.engines) ec.id) own
              ∙ env.engine_set.find-insert ec h.engines ec.id
              ∙ ground (arith, w.2, int_eq.beq_iff ec.id ec.id)
        ],
      )

  -- What an insertion of an incoming registration can do.
  find-admitted :
      (h : Hub env) (heart : String) (ec' : EngineConnector env.Incoming)
      → find_heart env h.incoming_registrations ec.heartbeat ≡ some ec
      → find_heart env h.incoming_registrations heart ≡ some ec'
      → let found = env.engine_set.find (env.engine_set.insert ec' h.engines) ec.id in
        (found ≡ env.engine_set.find h.engines ec.id) ⊎ (found ≡ some ec)
  unfolding find_heart
  find-admitted h heart ec' e e' =
      let there =
        (env.engine_set.find_by-sound (λ x. x.heartbeat) h.incoming_registrations ec.heartbeat ec
          e).1 in
      let there' =
        (env.engine_set.find_by-sound (λ x. x.heartbeat) h.incoming_registrations heart ec' e').1 in
      let law = env.engine_set.find-insert ec' h.engines ec.id in
      elim (Bool-cases (is_some (env.engine_set.find h.engines ec'.id))) [
        | inl a ↦ inl (law ∙ rw a refl)
        | inr a ↦ elim (Bool-cases (int_eq.beq ec'.id ec.id)) [
          | inl b ↦ inr (
              law
              ∙ rw (a, b)
                  (sym there'
                    ∙ ap (env.engine_set.find h.incoming_registrations)
                        ((int_eq.beq_iff ec'.id ec.id).0 b)
                    ∙ there))
          | inr b ↦ inl (law ∙ rw (a, b) refl)
        ]
      ]

  pub Awaited-handle_new_heart :
      (heart : String) (h : Hub env) → Awaited h → Awaited (handle_new_heart heart h)
  Awaited-handle_new_heart heart h w =
      let tables = tables-handle_new_heart heart h in
      (
        Names-handle_new_heart heart h w.0,
        ap (λ t. find_heart env t ec.heartbeat) tables.0 ∙ w.1,
        elim tables.1 [
          | inl (e, same) ↦
              subst
                (λ t.
                  (env.engine_set.find t ec.id ≡ none) ⊎ (env.engine_set.find t ec.id ≡ some ec))
                (sym same) w.2
          | inr (ec', e, added) ↦
              let at = ap (λ t. env.engine_set.find t ec.id) added in
              elim (find-admitted h heart ec' w.1 e) [
                | inl kept ↦ elim w.2 [
                  | inl free ↦ inl (at ∙ kept ∙ free)
                  | inr found ↦ inr (at ∙ kept ∙ found)
                ]
                | inr found ↦ inr (at ∙ found)
              ]
        ],
      )

  pub Confirmed-handle_heart_failure :
      (heart : String) (h : Hub env)
      → Confirmed h
      → Confirmed (handle_heart_failure h.clock heart h)
  Confirmed-handle_heart_failure heart h c =
      let tables = tables-handle_heart_failure h.clock heart h in
      (
        Names-handle_heart_failure h.clock heart h c.0,
        ap (λ t. find_heart env t ec.heartbeat) tables.0 ∙ c.1,
        ap (λ t. env.engine_set.find t ec.id) tables.1 ∙ c.2,
      )

  pub get_engine-Confirmed : (h : Hub env) → Confirmed h → get_engine ec.queue h ≡ some ec
  unfolding get_engine find_queue
  get_engine-Confirmed h c = elim (Option-cases (find_queue env h.engines ec.queue)) [
    | inl e ↦
        absurd
          (env.engine_set.find_by-complete (λ x. x.queue) h.engines ec.queue ec.id ec e c.2 refl)
    | inr (g, e) ↦
        let found = env.engine_set.find_by-sound (λ x. x.queue) h.engines ec.queue g e in
        let same : g.id ≡ ec.id = c.0.queues.within g.id ec.id g ec found.1 c.2 found.0 in
        e ∙ sym found.1 ∙ ap (env.engine_set.find h.engines) same ∙ c.2
  ]
