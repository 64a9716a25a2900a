-- ===== src/Hub/Account/Requests.antt =====
-- Every request to the hub is answered to whom it came from.
use gpf.Prelude.{
  ℕ, suc, String, Bool, ◌≡◌, refl, some, List, [], ◌∷◌, ◌⊎◌, inl, inr, ℤ, pos, Option-cases,
  Bool-cases,
}
use gpf.Prelude.Lists.{Member, first, later}
use gpf.StringSet.{contains}
use gpf.Hub.State.{
  Env, Hub, Sent, Payload, replied, send, with_message-keeps, with_message-keeps_read,
}
use gpf.Hub.Registration.{
  name_in_use, connector, register, register_engine, unregister_engine, find_queue,
}
use gpf.Hub.Queries.{
  check_load, queue_status_request, purge_results, get_results, shutdown_request, purge_msg_ids,
  purge_eids, purge_selected, purge_reply, gather, Gathered, unknown, gathered,
}
use gpf.Hub.Dispatch.{dispatch_query, query_handlers}
use gpf.Hub.Dispatch.Keeps.{dispatch-entry_keeps}
use gpf.Hub.Queries.{nop}
use gpf.Hub.Account.{
  Account, AccountOf-send, AccountOf-erase, introduced, answers, shuts_down, protocol,
}
use gpf.Hub.Account.Handlers.{Account-accept}

Gathered-cases :
    (g : Gathered)
    → ((id : String) × (g ≡ unknown id)) ⊎ ((rs : _) × (bufs : _) × (g ≡ gathered rs bufs))
Gathered-cases (unknown id) = inl (id, refl)
Gathered-cases (gathered rs bufs) = inr (rs, bufs, refl)

module _ {env : Env} (old : List (Sent env.Incoming)) (ms : List env.Incoming)
    (incoming : env.Incoming) (m : Member incoming ms) where
  Account-register_engine :
      (alive : String → Bool) (now : ℕ) (h : Hub env)
      → env.topic incoming ≡ some "registration_request"
      → Account env old ms h
      → Account env old ms (register_engine alive now incoming h).1
  unfolding register_engine register
  Account-register_engine alive now h topic v =
      with_message-keeps_read (Account env old ms) env.parse_registration incoming h _ v
        λ bytes msg e d.
          let counted : Hub env = record h { next_id = suc h.next_id } in
          elim (Bool-cases (name_in_use msg counted)) [
            | inl used ↦ rw (used, register) v
            | inr free ↦
                rw (free, register)
                  (Account-accept old ms alive now (connector incoming msg (pos h.next_id)) counted
                    (λ callback. introduced msg m (topic, (bytes, e, d)) refl refl refl refl) v)
          ]

  Account-unregister_engine :
      (h : Hub env) → Account env old ms h → Account env old ms (unregister_engine incoming h).1
  unfolding unregister_engine
  Account-unregister_engine h v = elim (Option-cases (env.header incoming)) [
    | inl e ↦ rw (e, unregister_engine) v
    | inr (queue, e) ↦
        rw (e, unregister_engine)
          (elim (Option-cases (find_queue env h.engines queue)) [
            | inl d ↦ rw d v
            | inr (ec, d) ↦
                rw d (AccountOf-erase env old ms h.engines h.incoming_registrations h.sent ec.id v)
          ])
  ]

  -- An answer under a topic of the protocol.
  Account-answer :
      (request reply : String) (p : Payload) (h : Hub env)
      → env.topic incoming ≡ some request
      → Member (request, reply) protocol
      → Account env old ms h
      → Account env old ms (send (replied incoming reply p) h)
  Account-answer request reply p h topic r v =
      AccountOf-send env old ms h.engines h.incoming_registrations h.sent _
        (answers incoming request reply p refl m topic r) v

  Account-check_load :
      (h : Hub env)
      → env.topic incoming ≡ some "load_request"
      → Account env old ms h
      → Account env old ms (check_load incoming h).1
  unfolding check_load
  Account-check_load h topic v =
      with_message-keeps (Account env old ms) env.parse_load_request incoming h _ v λ msg.
        Account-answer "load_request" "load_reply" _ h topic
          (later (later (later (later (later (first refl)))))) v

  Account-queue_status_request :
      (h : Hub env)
      → env.topic incoming ≡ some "queue_request"
      → Account env old ms h
      → Account env old ms (queue_status_request incoming h).1
  unfolding queue_status_request
  Account-queue_status_request h topic v =
      with_message-keeps (Account env old ms) env.parse_queue_status_request incoming h _ v
        λ msg. Account-answer "queue_request" "queue_status_reply" _ h topic (first refl) v

  Account-get_results :
      (h : Hub env)
      → env.topic incoming ≡ some "result_request"
      → Account env old ms h
      → Account env old ms (get_results incoming h).1
  unfolding get_results
  Account-get_results h topic v =
      with_message-keeps (Account env old ms) env.parse_get_results_request incoming h _ v λ msg.
        elim (Gathered-cases (gather env msg.status_only h.tasks msg.msg_ids)) [
          | inl (id, e) ↦
              rw e (
                Account-answer "result_request" "get_results_reply" _ h topic (later (first refl))
                  v)
          | inr (rs, bufs, e) ↦ rw e (
              Account-answer "result_request" "load_reply" _ h topic (later (later (first refl))) v)
        ]

  module _ (topic : env.topic incoming ≡ some "purge_request") where
    Account-purge_reply :
        (h : Hub env) → Account env old ms h → Account env old ms (purge_reply incoming h)
    unfolding purge_reply
    Account-purge_reply h v =
        Account-answer "purge_request" "load_reply" _ h topic
          (later (later (later (later (first refl))))) v

    Account-purge_msg_ids :
        (ids : List String) (h : Hub env)
        → Account env old ms h
        → Account env old ms (purge_msg_ids incoming ids h).1
    unfolding purge_msg_ids
    Account-purge_msg_ids [] h v = v
    Account-purge_msg_ids (id ∷ ids) h v =
        let ih = Account-purge_msg_ids ids (record h { tasks = env.task_set.erase id h.tasks }) v in
        elim (Bool-cases (contains h.pending id)) [
          | inl e ↦ rw e (
              Account-answer "purge_request" "purge_results_reply" _ h topic
                (later (later (later (first refl)))) v)
          | inr e ↦ rw e ih
        ]

    Account-purge_eids :
        (eids : List ℤ) (h : Hub env)
        → Account env old ms h
        → Account env old ms (purge_eids eids h)
    unfolding purge_eids
    Account-purge_eids [] h v = v
    Account-purge_eids (eid ∷ eids) h v =
        Account-purge_eids eids _
          (AccountOf-erase env old ms h.engines h.incoming_registrations h.sent eid v)

    Account-purge_selected :
        (ids : List String) (eids : List ℤ) (h : Hub env)
        → Account env old ms h
        → Account env old ms (purge_selected incoming ids eids h)
    unfolding purge_selected
    Account-purge_selected ids eids h v =
        let v' = Account-purge_msg_ids ids h v in
        elim (Bool-cases (purge_msg_ids incoming ids h).0) [
          | inl e ↦ rw e (
              Account-purge_reply (purge_eids eids (purge_msg_ids incoming ids h).1)
                (Account-purge_eids eids (purge_msg_ids incoming ids h).1 v'))
          | inr e ↦ rw e v'
        ]

    Account-purge_results :
        (h : Hub env) → Account env old ms h → Account env old ms (purge_results incoming h).1
    unfolding purge_results
    Account-purge_results h v =
        with_message-keeps (Account env old ms) env.parse_purge_results_request incoming h _ v
          λ msg. elim (Bool-cases msg.all) [
            | inl e ↦ rw e (Account-purge_reply (record h { tasks = env.task_set.empty }) v)
            | inr e ↦ rw e (Account-purge_selected msg.msg_ids msg.eids h v)
          ]

  Account-shutdown_request :
      (now : ℕ) (h : Hub env)
      → env.topic incoming ≡ some "shutdown_request"
      → Account env old ms h
      → Account env old ms (shutdown_request now incoming h).1
  unfolding shutdown_request
  Account-shutdown_request now h topic v =
      let told =
        AccountOf-send env old ms h.engines h.incoming_registrations h.sent _
          (shuts_down incoming (inl refl) m topic) v in
      AccountOf-send env old ms h.engines h.incoming_registrations _ _
        (shuts_down incoming (inr refl) m topic) told

  pub Account-dispatch_query :
      (alive : String → Bool) (h : Hub env)
      → Account env old ms h
      → Account env old ms (dispatch_query alive incoming h).1
  unfolding dispatch_query query_handlers nop
  Account-dispatch_query alive h v =
      dispatch-entry_keeps (Account env old ms) incoming h (query_handlers env alive)
        (
          Account-queue_status_request h,
          (
            Account-get_results h,
            (
              (λ t w. Account-purge_results t h w),
              (
                Account-check_load h,
                (
                  (λ t w. w),
                  (
                    Account-shutdown_request h.clock h,
                    (
                      Account-register_engine alive h.clock h,
                      ((λ t w. Account-unregister_engine h w), ((λ t w. w), tt)),
                    ),
                  ),
                ),
              ),
            ),
          ),
        )
        v
