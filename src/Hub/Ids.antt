-- ===== src/Hub/Ids.antt =====
-- How far a request takes the counter of engine ids.
pub mod Run
use Prim.Native.Nat.{◌≤◌}
use gpf.Prelude.{
  [], ℕ, suc, String, Bool, ◌≡◌, refl, Option-cases, Bool-cases, inl, inr, List, ◌∷◌, ℤ, pos, arith,
}
use gpf.StringSet.{contains}
use gpf.Hub.State.{Env, Hub, with_message-keeps}
use gpf.Hub.Messages.{Registration}
use gpf.Hub.Registration.{
  connector, register, register_engine, unregister_engine, name_in_use, find_queue,
}
use gpf.Hub.Registration.Untouched.{same-accept_registration}
use gpf.Hub.Queries.{
  check_load, queue_status_request, get_results, purge_results, purge_selected, purge_msg_ids,
  purge_eids, purge_reply, shutdown_request, nop,
}
use gpf.Hub.Dispatch.{dispatch_query, query_handlers}
use gpf.Hub.Dispatch.Keeps.{dispatch-steps}

module _ {env : Env} where
  -- The counter stands where it stood, or one further.
  abbrev pub Counts : Hub env → Hub env → Type 0
  Counts h h' = h'.next_id ≤ suc h.next_id

  Counts-register :
      (is_alive : String → Bool) (now : ℕ) (incoming : env.Incoming) (msg : Registration)
      (h : Hub env)
      → Counts h (register is_alive now incoming msg h)
  unfolding register
  Counts-register is_alive now incoming msg h =
      let counted : Hub env = record h { next_id = suc h.next_id } in
      elim (Bool-cases (name_in_use msg counted)) [
        | inl e ↦ rw (e, register) (omega arith)
        | inr e ↦
            rw (e, register)
              (ground (
                arith,
                same-accept_registration is_alive now (connector incoming msg (pos h.next_id))
                    counted,
              ))
      ]

  Counts-register_engine :
      (is_alive : String → Bool) (now : ℕ) (incoming : env.Incoming) (h : Hub env)
      → Counts h (register_engine is_alive now incoming h).1
  unfolding register_engine
  Counts-register_engine is_alive now incoming h =
      with_message-keeps (Counts h) env.parse_registration incoming h _ (omega arith)
        (λ msg. Counts-register is_alive now incoming msg h)

  Counts-unregister_engine :
      (incoming : env.Incoming) (h : Hub env) → Counts h (unregister_engine incoming h).1
  unfolding unregister_engine
  Counts-unregister_engine incoming h = elim (Option-cases (env.header incoming)) [
    | inl e ↦ rw (e, unregister_engine) (omega arith)
    | inr (queue, e) ↦
        rw (e, unregister_engine)
          (elim (Option-cases (find_queue env h.engines queue)) [
            | inl d ↦ rw d (omega arith)
            | inr (ec, d) ↦ rw d (omega arith)
          ])
  ]

  same-purge_msg_ids :
      (incoming : env.Incoming) (ids : List String) (h : Hub env)
      → (purge_msg_ids incoming ids h).1.next_id ≡ h.next_id
  unfolding purge_msg_ids
  same-purge_msg_ids incoming [] h = refl
  same-purge_msg_ids incoming (id ∷ ids) h =
      let ih =
        same-purge_msg_ids incoming ids (record h { tasks = env.task_set.erase id h.tasks }) in
      elim (Bool-cases (contains h.pending id)) [ inl e ↦ rw e refl | inr e ↦ rw e ih ]

  same-purge_eids : (eids : List ℤ) (h : Hub env) → (purge_eids eids h).next_id ≡ h.next_id
  unfolding purge_eids
  same-purge_eids [] h = refl
  same-purge_eids (eid ∷ eids) h = same-purge_eids eids _

  Counts-purge_results :
      (incoming : env.Incoming) (h : Hub env) → Counts h (purge_results incoming h).1
  unfolding purge_results purge_selected purge_reply
  Counts-purge_results incoming h =
      with_message-keeps (Counts h) env.parse_purge_results_request incoming h _ (omega arith) λ m.
        elim (Bool-cases m.all) [
          | inl e ↦ rw e (omega arith)
          | inr e ↦ rw e (elim (Bool-cases (purge_msg_ids incoming m.msg_ids h).0) [
            | inl d ↦ rw d (
                omega (
                  arith,
                  same-purge_eids m.eids (purge_msg_ids incoming m.msg_ids h).1,
                  same-purge_msg_ids incoming m.msg_ids h,
                ))
            | inr d ↦ rw d (omega (arith, same-purge_msg_ids incoming m.msg_ids h))
          ])
        ]

  pub Counts-dispatch_query :
      (is_alive : String → Bool) (incoming : env.Incoming) (h : Hub env)
      → Counts h (dispatch_query is_alive incoming h).1
  unfolding dispatch_query query_handlers nop check_load queue_status_request get_results
      shutdown_request
  Counts-dispatch_query is_alive incoming h =
      dispatch-steps Counts (λ g. omega arith) (query_handlers env is_alive) incoming h
        (
          (λ i g.
              with_message-keeps (Counts g) env.parse_queue_status_request i g _ (omega arith)
                (λ m. omega arith)),
          (
            (λ i g.
                with_message-keeps (Counts g) env.parse_get_results_request i g _ (omega arith)
                  (λ m. omega arith)),
            (
              Counts-purge_results,
              (
                (λ i g.
                    with_message-keeps (Counts g) env.parse_load_request i g _ (omega arith)
                      (λ m. omega arith)),
                (
                  (λ i g. omega arith),
                  (
                    (λ i g. omega arith),
                    (
                      (λ i g. Counts-register_engine is_alive g.clock i g),
                      (Counts-unregister_engine, ((λ i g. omega arith), tt)),
                    ),
                  ),
                ),
              ),
            ),
          ),
        )
