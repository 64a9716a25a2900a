-- ===== src/Hub/Names/Registration.antt =====
-- Every handler of the engines' side keeps the names apart.
use gpf.Prelude.{
  ℕ, suc, String, Bool, false, ◌≡◌, refl, none, pos, inl, inr, arith, Option-cases, Bool-cases, ℤ,
}
use gpf.Hub.Messages.{Registration}
use gpf.Hub.State.{Env, Hub, EngineConnector, with_message-keeps}
use gpf.Hub.Registration.{
  finish_registration, handle_new_heart, name_in_use, accept_registration, connector, register,
  register_engine, purge_stalled, unregister_dead, handle_heart_failure, unregister_engine,
  find_heart, find_queue,
}
use gpf.Hub.Names.{
  Names, NamesOf-admit, NamesOf-wait, NamesOf-erase, NamesOf-drop, NamesOf-count, Below, IsIdle,
}

module _ {env : Env} where
  pub Names-finish_registration :
      (heart : String) (h : Hub env) → Names env h → Names env (finish_registration heart h)
  unfolding finish_registration
  Names-finish_registration heart h v =
      elim (Option-cases (find_heart env h.incoming_registrations heart)) [
        | inl e ↦ rw (e, finish_registration) v
        | inr (ec, e) ↦
            rw (e, finish_registration)
              (NamesOf-admit env h.engines h.incoming_registrations h.next_id ec
                (env.engine_set.find_by-sound (λ e. e.heartbeat) h.incoming_registrations heart ec
                  e).1
                v)
      ]

  pub Names-handle_new_heart :
      (heart : String) (h : Hub env) → Names env h → Names env (handle_new_heart heart h)
  unfolding handle_new_heart
  Names-handle_new_heart heart h v =
      elim (Option-cases (find_heart env h.incoming_registrations heart)) [
        | inl e ↦ rw (e, handle_new_heart) v
        | inr (ec, e) ↦ rw (e, handle_new_heart) (Names-finish_registration heart h v)
      ]

  -- What the four tests show.
  name_in_use-false :
      (msg : Registration) (h : Hub env)
      → name_in_use msg h ≡ false
      → (find_queue env h.engines msg.queue ≡ none)
        × (find_heart env h.engines msg.heartbeat ≡ none)
        × (find_queue env h.incoming_registrations msg.queue ≡ none)
        × (find_heart env h.incoming_registrations msg.heartbeat ≡ none)
  unfolding name_in_use
  name_in_use-false msg h q = ground arith

  Names-accept :
      (alive : String → Bool) (now : ℕ) (ec : EngineConnector env.Incoming) (h : Hub env)
      → find_queue env h.engines ec.queue ≡ none
      → find_heart env h.engines ec.heartbeat ≡ none
      → find_queue env h.incoming_registrations ec.queue ≡ none
      → find_heart env h.incoming_registrations ec.heartbeat ≡ none
      → Below h.next_id ec.id
      → IsIdle env ec
      → Names env h
      → Names env (accept_registration alive now ec h)
  unfolding accept_registration find_queue find_heart
  Names-accept alive now ec h qs hs qt ht b idle v = elim (Bool-cases (alive ec.heartbeat)) [
    | inl a ↦
        rw (a, accept_registration)
          (Names-finish_registration ec.heartbeat _
            (NamesOf-wait env h.engines h.incoming_registrations h.next_id ec qs hs qt ht b idle v))
    | inr a ↦
        rw (a, accept_registration)
          (NamesOf-wait env h.engines h.incoming_registrations h.next_id _ qs hs qt ht b idle v)
  ]

  pub Names-register :
      (alive : String → Bool) (now : ℕ) (incoming : env.Incoming) (msg : Registration) (h : Hub env)
      → Names env h
      → Names env (register alive now incoming msg h)
  unfolding register
  Names-register alive now incoming msg h v =
      let counted : Hub env = record h { next_id = suc h.next_id } in
      let v' : Names env counted =
        NamesOf-count env h.engines h.incoming_registrations h.next_id v in
      elim (Bool-cases (name_in_use msg counted)) [
        | inl used ↦ rw (used, register) v'
        | inr free ↦
            let tests = name_in_use-false msg counted free in
            rw (free, register)
              (Names-accept alive now (connector incoming msg (pos h.next_id)) counted tests.0
                tests.1 tests.2 tests.3 (omega arith) (refl, refl, refl) v')
      ]

  pub Names-register_engine :
      (alive : String → Bool) (now : ℕ) (incoming : env.Incoming) (h : Hub env)
      → Names env h
      → Names env (register_engine alive now incoming h).1
  unfolding register_engine
  Names-register_engine alive now incoming h v =
      with_message-keeps (Names env) env.parse_registration incoming h _ v
        (λ msg. Names-register alive now incoming msg h v)

  pub Names-purge_stalled :
      (heart : String) (h : Hub env) → Names env h → Names env (purge_stalled heart h)
  unfolding purge_stalled
  Names-purge_stalled heart h v =
      elim (Option-cases (find_heart env h.incoming_registrations heart)) [
        | inl e ↦ rw (e, purge_stalled) v
        | inr (ec, e) ↦
            rw (e, purge_stalled)
              (NamesOf-drop env h.engines h.incoming_registrations h.next_id ec.id v)
      ]

  Names-unregister_dead :
      (now : ℕ) (eid : ℤ) (h : Hub env) → Names env h → Names env (unregister_dead now eid h)
  unfolding unregister_dead
  Names-unregister_dead now eid h v = elim (Option-cases (env.engine_set.find h.engines eid)) [
    | inl e ↦ rw (e, unregister_dead) v
    | inr (ec, e) ↦ rw (e, unregister_dead) v
  ]

  pub Names-handle_heart_failure :
      (now : ℕ) (heart : String) (h : Hub env)
      → Names env h
      → Names env (handle_heart_failure now heart h)
  unfolding handle_heart_failure
  Names-handle_heart_failure now heart h v = elim (Option-cases (find_heart env h.engines heart)) [
    | inl e ↦ rw (e, handle_heart_failure) v
    | inr (ec, e) ↦ rw (e, handle_heart_failure) (Names-unregister_dead now ec.id h v)
  ]

  pub Names-unregister_engine :
      (incoming : env.Incoming) (h : Hub env)
      → Names env h
      → Names env (unregister_engine incoming h).1
  unfolding unregister_engine
  Names-unregister_engine incoming h v = elim (Option-cases (env.header incoming)) [
    | inl e ↦ rw (e, unregister_engine) v
    | inr (queue, e) ↦
        rw (e, unregister_engine)
          (elim (Option-cases (find_queue env h.engines queue)) [
            | inl d ↦ rw d v
            | inr (ec, d) ↦
                rw d (NamesOf-erase env h.engines h.incoming_registrations h.next_id ec.id v)
          ])
  ]
