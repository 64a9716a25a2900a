-- ===== src/Hub/Ledger/Clients.antt =====
-- The requests to the hub change nothing in the ledger but that records go.
use gpf.Prelude.{ℕ, suc, String, Bool, pos, List, [], ◌∷◌, inl, inr, ℤ, Bool-cases, Option-cases}
use gpf.StringSet.{contains}
use gpf.Hub.State.{Env, Hub, with_message-keeps}
use gpf.Hub.Registration.{
  register, register_engine, unregister_engine, accept_registration, connector, name_in_use,
  find_queue,
}
use gpf.Hub.Registration.Untouched.{SameWork, same-accept_registration}
use gpf.Hub.Queries.{
  nop, purge_results, check_load, queue_status_request, get_results, shutdown_request,
  purge_msg_ids, purge_eids, purge_selected, purge_reply,
}
use gpf.Hub.Dispatch.{dispatch_query, query_handlers}
use gpf.Hub.Dispatch.Keeps.{dispatch-keeps}
use gpf.Hub.Ledger.{Ledger, LedgerOf-erase, LedgerOf-clear}

module _ {env : Env} (ms : List env.Incoming) where
  pub Ledger-same : (h h' : Hub env) → SameWork h h' → Ledger env ms h → Ledger env ms h'
  Ledger-same h h' same v = rw (same.0, same.1, same.3) v

  Ledger-register_engine :
      (is_alive : String → Bool) (now : ℕ) (incoming : env.Incoming) (h : Hub env)
      → Ledger env ms h
      → Ledger env ms (register_engine is_alive now incoming h).1
  unfolding register_engine register
  Ledger-register_engine is_alive now incoming h v =
      with_message-keeps (Ledger env ms) env.parse_registration incoming h _ v λ msg.
        let counted : Hub env = record h { next_id = suc h.next_id } in
        let ec = connector incoming msg (pos h.next_id) in
        elim (Bool-cases (name_in_use msg counted)) [
          | inl e ↦ rw (e, register) v
          | inr e ↦
              rw (e, register)
                (Ledger-same counted (accept_registration is_alive now ec counted)
                  (same-accept_registration is_alive now ec counted) v)
        ]

  Ledger-unregister_engine :
      (incoming : env.Incoming) (h : Hub env)
      → Ledger env ms h
      → Ledger env ms (unregister_engine incoming h).1
  unfolding unregister_engine
  Ledger-unregister_engine incoming h v = elim (Option-cases (env.header incoming)) [
    | inl e ↦ rw (e, unregister_engine) v
    | inr (queue, e) ↦
        rw (e, unregister_engine)
          (elim (Option-cases (find_queue env h.engines queue)) [
            | inl d ↦ rw d v
            | inr (ec, d) ↦ rw d v
          ])
  ]

  Ledger-purge_msg_ids :
      (incoming : env.Incoming) (ids : List String) (h : Hub env)
      → Ledger env ms h
      → Ledger env ms (purge_msg_ids incoming ids h).1
  unfolding purge_msg_ids
  Ledger-purge_msg_ids incoming [] h v = v
  Ledger-purge_msg_ids incoming (id ∷ ids) h v =
      let ih =
        Ledger-purge_msg_ids incoming ids (record h { tasks = env.task_set.erase id h.tasks })
          (LedgerOf-erase env ms h.tasks h.pending h.all_completed v id) in
      elim (Bool-cases (contains h.pending id)) [ inl e ↦ rw e v | inr e ↦ rw e ih ]

  Ledger-purge_eids :
      (eids : List ℤ) (h : Hub env) → Ledger env ms h → Ledger env ms (purge_eids eids h)
  unfolding purge_eids
  Ledger-purge_eids [] h v = v
  Ledger-purge_eids (eid ∷ eids) h v =
      Ledger-purge_eids eids (record h { engines = env.engine_set.erase eid h.engines }) v

  Ledger-purge_results :
      (incoming : env.Incoming) (h : Hub env)
      → Ledger env ms h
      → Ledger env ms (purge_results incoming h).1
  unfolding purge_results purge_reply purge_selected
  Ledger-purge_results incoming h v =
      with_message-keeps (Ledger env ms) env.parse_purge_results_request incoming h _ v λ m.
        elim (Bool-cases m.all) [
          | inl e ↦ rw e (LedgerOf-clear env ms h.tasks h.pending h.all_completed v)
          | inr e ↦
              let v' = Ledger-purge_msg_ids incoming m.msg_ids h v in
              rw e (elim (Bool-cases (purge_msg_ids incoming m.msg_ids h).0) [
                | inl d ↦ rw d (Ledger-purge_eids m.eids (purge_msg_ids incoming m.msg_ids h).1 v')
                | inr d ↦ rw d v'
              ])
        ]

  pub Ledger-dispatch_query :
      (is_alive : String → Bool) (incoming : env.Incoming) (h : Hub env)
      → Ledger env ms h
      → Ledger env ms (dispatch_query is_alive incoming h).1
  unfolding dispatch_query query_handlers nop check_load queue_status_request get_results
      shutdown_request
  Ledger-dispatch_query is_alive incoming h v =
      dispatch-keeps (Ledger env ms) (query_handlers env is_alive) incoming h
        (
          (λ i g w.
              with_message-keeps (Ledger env ms) env.parse_queue_status_request i g _ w (λ m. w)),
          (
            (λ i g w.
                with_message-keeps (Ledger env ms) env.parse_get_results_request i g _ w (λ m. w)),
            (
              Ledger-purge_results,
              (
                (λ i g w.
                    with_message-keeps (Ledger env ms) env.parse_load_request i g _ w (λ m. w)),
                (
                  (λ i g w. w),
                  (
                    (λ i g w. w),
                    (
                      (λ i g w. Ledger-register_engine is_alive g.clock i g w),
                      (Ledger-unregister_engine, ((λ i g w. w), tt)),
                    ),
                  ),
                ),
              ),
            ),
          ),
        )
        v
