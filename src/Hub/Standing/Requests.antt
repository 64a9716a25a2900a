-- ===== src/Hub/Standing/Requests.antt =====
-- The requests to the hub, and the reports of its monitor, move each id as the specification allows.
use gpf.Prelude.{ℕ, String, Bool, refl, List, [], ◌∷◌, inl, inr, ℤ, Bool-cases}
use gpf.StringSet.{contains}
use gpf.Hub.State.{Env, Hub, with_message-keeps}
use gpf.Hub.Queries.{
  check_load, queue_status_request, purge_results, get_results, shutdown_request, purge_msg_ids,
  purge_eids, purge_selected, purge_reply, nop,
}
use gpf.Hub.Names.Tasks.{
  same-save_queue_request, same-save_task_request, same-save_queue_result, same-save_task_result,
  same-save_task_destination,
}
use gpf.Hub.Tasks.{
  save_queue_request, save_queue_result, save_task_request, save_task_result, save_task_destination,
}
use gpf.Hub.Dispatch.{dispatch_query, query_handlers, dispatch_monitor_traffic, monitor_handlers}
use gpf.Hub.Dispatch.Keeps.{dispatch-steps}
use gpf.Hub.Standing.{stays, Moves-trans, Moves-leaves}
use gpf.Hub.Standing.Handlers.{
  Steps, Steps-refl, Steps-same, Steps-register_engine, Steps-unregister_engine,
}

module _ {env : Env} where
  Steps-check_load : (incoming : env.Incoming) (h : Hub env) → Steps h (check_load incoming h).1
  unfolding check_load
  Steps-check_load incoming h =
      with_message-keeps (Steps h) env.parse_load_request incoming h _ (Steps-refl h)
        (λ msg k. stays refl)

  Steps-queue_status_request :
      (incoming : env.Incoming) (h : Hub env) → Steps h (queue_status_request incoming h).1
  unfolding queue_status_request
  Steps-queue_status_request incoming h =
      with_message-keeps (Steps h) env.parse_queue_status_request incoming h _ (Steps-refl h)
        (λ msg k. stays refl)

  Steps-get_results : (incoming : env.Incoming) (h : Hub env) → Steps h (get_results incoming h).1
  unfolding get_results
  Steps-get_results incoming h =
      with_message-keeps (Steps h) env.parse_get_results_request incoming h _ (Steps-refl h)
        (λ msg k. stays refl)

  Steps-shutdown_request :
      (now : ℕ) (incoming : env.Incoming) (h : Hub env)
      → Steps h (shutdown_request now incoming h).1
  unfolding shutdown_request
  Steps-shutdown_request now incoming h k = stays refl

  Steps-purge_msg_ids :
      (incoming : env.Incoming) (ids : List String) (h : Hub env)
      → Steps h (purge_msg_ids incoming ids h).1
  unfolding purge_msg_ids
  Steps-purge_msg_ids incoming [] h k = stays refl
  Steps-purge_msg_ids incoming (id ∷ ids) h k =
      let ih =
        Steps-purge_msg_ids incoming ids (record h { tasks = env.task_set.erase id h.tasks }) k in
      elim (Bool-cases (contains h.pending id)) [ inl e ↦ rw e (stays refl) | inr e ↦ rw e ih ]

  Steps-purge_eids : (eids : List ℤ) (h : Hub env) → Steps h (purge_eids eids h)
  unfolding purge_eids
  Steps-purge_eids [] h k = stays refl
  Steps-purge_eids (eid ∷ eids) h k =
      Moves-trans env (Moves-leaves env k h.next_id h.incoming_registrations h.engines eid)
        (Steps-purge_eids eids (record h { engines = env.engine_set.erase eid h.engines }) k)

  Steps-purge_selected :
      (incoming : env.Incoming) (ids : List String) (eids : List ℤ) (h : Hub env)
      → Steps h (purge_selected incoming ids eids h)
  unfolding purge_selected purge_reply
  Steps-purge_selected incoming ids eids h k =
      let first = Steps-purge_msg_ids incoming ids h k in
      elim (Bool-cases (purge_msg_ids incoming ids h).0) [
        | inl e ↦
            rw e (Moves-trans env first (Steps-purge_eids eids (purge_msg_ids incoming ids h).1 k))
        | inr e ↦ rw e first
      ]

  Steps-purge_results :
      (incoming : env.Incoming) (h : Hub env) → Steps h (purge_results incoming h).1
  unfolding purge_results purge_reply
  Steps-purge_results incoming h =
      with_message-keeps (Steps h) env.parse_purge_results_request incoming h _ (Steps-refl h)
        λ m k. elim (Bool-cases m.all) [
          | inl e ↦ rw e (stays refl)
          | inr e ↦ rw e (Steps-purge_selected incoming m.msg_ids m.eids h k)
        ]

  pub Steps-dispatch_query :
      (alive : String → Bool) (incoming : env.Incoming) (h : Hub env)
      → Steps h (dispatch_query alive incoming h).1
  unfolding dispatch_query query_handlers nop
  Steps-dispatch_query alive incoming h =
      dispatch-steps Steps Steps-refl (query_handlers env alive) incoming h (
        Steps-queue_status_request,
        (
          Steps-get_results,
          (
            Steps-purge_results,
            (
              Steps-check_load,
              (
                (λ i g. Steps-refl g),
                (
                  (λ i g. Steps-shutdown_request g.clock i g),
                  (
                    (λ i g. Steps-register_engine alive g.clock i g),
                    (Steps-unregister_engine, ((λ i g. Steps-refl g), tt)),
                  ),
                ),
              ),
            ),
          ),
        ),
      )

  pub Steps-dispatch_monitor_traffic :
      (incoming : env.Incoming) (h : Hub env) → Steps h (dispatch_monitor_traffic incoming h).1
  unfolding dispatch_monitor_traffic monitor_handlers nop
  Steps-dispatch_monitor_traffic incoming h =
      dispatch-steps Steps Steps-refl (monitor_handlers env) incoming h (
        (λ i g. Steps-same g (save_queue_request i g).1 (same-save_queue_request i g)),
        (
          (λ i g. Steps-same g (save_queue_result i g).1 (same-save_queue_result i g)),
          (
            (λ i g. Steps-same g (save_task_request i g).1 (same-save_task_request i g)),
            (
              (λ i g. Steps-same g (save_task_result i g).1 (same-save_task_result i g)),
              (
                (λ i g.
                    Steps-same g (save_task_destination i g).1 (same-save_task_destination i g)),
                ((λ i g. Steps-refl g), ((λ i g. Steps-refl g), tt)),
              ),
            ),
          ),
        ),
      )
