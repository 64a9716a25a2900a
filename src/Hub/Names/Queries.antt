-- ===== src/Hub/Names/Queries.antt =====
-- What the requests of clients leave of the names.
use gpf.Prelude.{ℕ, String, List, [], ◌∷◌, inl, inr, Bool-cases, ℤ}
use gpf.StringSet.{contains}
use gpf.Hub.State.{Env, Hub, with_message-keeps}
use gpf.Hub.Queries.{
  check_load, queue_status_request, purge_results, get_results, shutdown_request, purge_msg_ids,
  purge_eids, purge_selected, purge_reply,
}
use gpf.Hub.Names.{Names, NamesOf-erase}

module _ {env : Env} where
  pub Names-check_load :
      (incoming : env.Incoming) (h : Hub env) → Names env h → Names env (check_load incoming h).1
  unfolding check_load
  Names-check_load incoming h v =
      with_message-keeps (Names env) env.parse_load_request incoming h _ v (λ m. v)

  pub Names-queue_status_request :
      (incoming : env.Incoming) (h : Hub env)
      → Names env h
      → Names env (queue_status_request incoming h).1
  unfolding queue_status_request
  Names-queue_status_request incoming h v =
      with_message-keeps (Names env) env.parse_queue_status_request incoming h _ v (λ m. v)

  pub Names-get_results :
      (incoming : env.Incoming) (h : Hub env) → Names env h → Names env (get_results incoming h).1
  unfolding get_results
  Names-get_results incoming h v =
      with_message-keeps (Names env) env.parse_get_results_request incoming h _ v (λ m. v)

  pub Names-shutdown_request :
      (now : ℕ) (incoming : env.Incoming) (h : Hub env)
      → Names env h
      → Names env (shutdown_request now incoming h).1
  unfolding shutdown_request
  Names-shutdown_request now incoming h v = v

  Names-purge_msg_ids :
      (incoming : env.Incoming) (ids : List String) (h : Hub env)
      → Names env h
      → Names env (purge_msg_ids incoming ids h).1
  unfolding purge_msg_ids
  Names-purge_msg_ids incoming [] h v = v
  Names-purge_msg_ids incoming (id ∷ ids) h v =
      let ih =
        Names-purge_msg_ids incoming ids (record h { tasks = env.task_set.erase id h.tasks }) v in
      elim (Bool-cases (contains h.pending id)) [ inl e ↦ rw e v | inr e ↦ rw e ih ]

  Names-purge_eids : (eids : List ℤ) (h : Hub env) → Names env h → Names env (purge_eids eids h)
  unfolding purge_eids
  Names-purge_eids [] h v = v
  Names-purge_eids (eid ∷ eids) h v =
      Names-purge_eids eids _ (NamesOf-erase env h.engines h.incoming_registrations h.next_id eid v)

  Names-purge_selected :
      (incoming : env.Incoming) (ids : List String) (eids : List ℤ) (h : Hub env)
      → Names env h
      → Names env (purge_selected incoming ids eids h)
  unfolding purge_selected purge_reply
  Names-purge_selected incoming ids eids h v =
      let v' = Names-purge_msg_ids incoming ids h v in
      elim (Bool-cases (purge_msg_ids incoming ids h).0) [
        | inl e ↦ rw e (Names-purge_eids eids (purge_msg_ids incoming ids h).1 v')
        | inr e ↦ rw e v'
      ]

  pub Names-purge_results :
      (incoming : env.Incoming) (h : Hub env) → Names env h → Names env (purge_results incoming h).1
  unfolding purge_results purge_reply
  Names-purge_results incoming h v =
      with_message-keeps (Names env) env.parse_purge_results_request incoming h _ v λ m.
        elim (Bool-cases m.all) [
          | inl e ↦ rw e v
          | inr e ↦ rw e (Names-purge_selected incoming m.msg_ids m.eids h v)
        ]
