-- ===== src/Hub/Registration/Rejoining.antt =====
-- An engine that came and left: its names stay taken, and its heart can bring it back.
use gpf.Prelude.{ℕ, suc, String, Bool, true, false, ◌≡◌, ap, ◌∙◌, some, none, pos, int_eq, arith}
use gpf.Table.Lookup.{find_by-insert, find_by-is_some}
use gpf.Hub.Messages.{Registration}
use gpf.Hub.State.{Env, Hub, EngineConnector}
use gpf.Hub.Registration.{
  find_queue, find_heart, handle_new_heart, finish_registration, name_in_use, connector, register,
  unregister_engine, get_engine, get_num_engines,
}
use gpf.Hub.Registration.Lifecycle.{
  register-alive, register-tables, finish_registration-found, free_names, fresh_incoming,
}
use gpf.Hub.Registration.Departure.{unregister_engine-found}
use gpf.Hub.Names.{Names}
use gpf.Hub.Names.Registration.{Names-register}

module _ {env : Env} (alive : String → Bool) (now : ℕ) (incoming leaving : env.Incoming)
    (msg : Registration) (h : Hub env) (v : Names env h) (free : name_in_use msg h ≡ false)
    (beating : alive msg.heartbeat ≡ true) (frame : env.header leaving ≡ some msg.queue) where
  abbrev joined : Hub env
  joined = register alive now incoming msg h

  abbrev ec : EngineConnector env.Incoming
  ec = connector incoming msg (pos h.next_id)

  left :
      (get_engine msg.queue (unregister_engine leaving joined).1 ≡ none)
      × (suc (get_num_engines (unregister_engine leaving joined).1) ≡ get_num_engines joined)
      × ((unregister_engine leaving joined).1
          ≡ record joined { engines = env.engine_set.erase ec.id joined.engines })
  left =
      unregister_engine-found joined (Names-register alive now incoming msg h v) leaving msg.queue
        ec frame (register-alive alive now incoming msg h v free beating).0

  tables :
      (joined.engines ≡ env.engine_set.insert ec h.engines)
      × (joined.incoming_registrations ≡ env.engine_set.insert ec h.incoming_registrations)
  tables = register-tables alive now incoming msg h v free beating

  incoming_stays :
      (unregister_engine leaving joined).1.incoming_registrations
      ≡ env.engine_set.insert ec h.incoming_registrations
  incoming_stays = ap (λ (g : Hub env). g.incoming_registrations) left.2 ∙ tables.1

  still_there :
      env.engine_set.find (env.engine_set.insert ec h.incoming_registrations) ec.id ≡ some ec
  still_there = ground (
    arith,
    env.engine_set.find-insert ec h.incoming_registrations ec.id,
    fresh_incoming h v,
    int_eq.beq_iff ec.id ec.id,
  )

  -- In a state where the names are apart, after a request whose two names are free and whose heart beats,
  -- and the request to unregister that engine: it is not found any more, and still the name of its queue
  -- counts as in use, so that no registration under it is accepted, with whatever heart.
  pub names_stay_taken :
      (again : Registration)
      → again.queue ≡ msg.queue
      → let h' = (unregister_engine leaving joined).1 in
        (get_engine msg.queue h' ≡ none) × (name_in_use again h' ≡ true)
  unfolding name_in_use find_queue
  names_stay_taken again same = (
    left.0,
    rw incoming_stays (
        ground (
          arith,
          same,
          find_by-is_some env.engine_set (λ x. x.queue)
              (env.engine_set.insert ec h.incoming_registrations) ec still_there,
        )),
  )

  abbrev gone : Hub env
  gone = (unregister_engine leaving joined).1

  heart_found : find_heart env gone.incoming_registrations msg.heartbeat ≡ some ec
  unfolding find_heart
  heart_found = rw incoming_stays (
      find_by-insert env.engine_set (λ x. x.heartbeat) h.incoming_registrations ec
        (free_names alive now incoming msg h v free).3 (fresh_incoming h v))

  engines_gone : env.engine_set.find gone.engines ec.id ≡ none
  engines_gone = ground (
    arith,
    ap (λ (g : Hub env). env.engine_set.find g.engines ec.id) left.2,
    env.engine_set.find-erase ec.id joined.engines ec.id,
    int_eq.beq_iff ec.id ec.id,
  )

  finishes_again : handle_new_heart msg.heartbeat gone ≡ finish_registration msg.heartbeat gone
  unfolding handle_new_heart
  finishes_again = rw (handle_new_heart, heart_found)

  -- In a state where the names are apart, after a request whose two names are free and whose heart beats,
  -- and the request to unregister that engine: if its heart is reported as new once more, the engine is
  -- registered again, as it was, and its queue is found.
  pub heart_brings_back : get_engine msg.queue (handle_new_heart msg.heartbeat gone) ≡ some ec
  unfolding get_engine
  heart_brings_back =
      rw finishes_again
        (finish_registration-found msg.heartbeat gone ec heart_found left.0 engines_gone).0
