-- ===== src/Hub/Tasks/Reachable.antt =====
-- Pending messages have records in every state that the hub reaches, as long as nobody purges them all.
use gpf.Prelude.{
  ℕ, String, Bool, false, ◌≡◌, inl, inr, Bool-cases, Option-cases, [], some, none, refl, suc, pos,
  ap, arith,
}
use gpf.Monitor.{new, alive, register_new_heart_handler, register_failed_heart_handler}
use gpf.StringSet.{contains}
use gpf.Monitor.Callbacks.{Kept, Kept-beat, Kept-handle_pong}
use gpf.Hub.State.{
  Env, Hub, Timer, Action, purge_stalled_registration, handle_stranded_msgs, shutdown,
}
use gpf.Hub.Queries.{nop}
use gpf.Prelude.Lists.{All}
use gpf.Hub.Account.Reachable.{heard, received, All-heard}
use gpf.Hub.Dispatch.Keeps.{dispatch-entry_keeps}
use gpf.Hub.Dispatch.{dispatch_query, query_handlers, act, fire}
use gpf.Hub.System.{System, Step, query, monitored, timed, pong, beats, Reach, here, next, create}
use gpf.Hub.Messages.{PurgeResultsRequest}
use gpf.Hub.State.{with_message-keeps, returned, thrown}
use gpf.Hub.Registration.{
  register, register_engine, unregister_engine, accept_registration, connector, name_in_use,
  purge_stalled, find_queue, handle_new_heart, handle_heart_failure,
}
use gpf.Hub.Registration.Untouched.{
  SameWork, same-handle_new_heart, same-handle_heart_failure, same-purge_stalled,
  same-accept_registration,
}
use gpf.Hub.Queries.{purge_results, check_load, queue_status_request, get_results, shutdown_request}
use gpf.Hub.Queries.Purge.{purge_results-Tracked}
use gpf.Hub.Tasks.Tracking.{Tracked, Tracked-handle_stranded}
use gpf.Hub.Dispatch.Traffic.{dispatch_monitor_traffic-Tracked}

module _ {env : Env} where
  Tracked-same : (h h' : Hub env) → SameWork h h' → Tracked env h → Tracked env h'
  Tracked-same h h' same v id e =
      ground
        (arith, v id, ap (λ p. contains p id) same.0, e, ap (λ t. env.task_set.find t id) same.1)

  Tracked-register_engine :
      (is_alive : String → Bool) (now : ℕ) (incoming : env.Incoming) (h : Hub env)
      → Tracked env h
      → Tracked env (register_engine is_alive now incoming h).1
  unfolding register_engine register
  Tracked-register_engine is_alive now incoming h v =
      with_message-keeps (Tracked env) env.parse_registration incoming h _ v λ msg.
        let counted : Hub env = record h { next_id = suc h.next_id } in
        elim (Bool-cases (name_in_use msg counted)) [
          | inl e ↦ rw (e, register) v
          | inr e ↦
              rw (e, register)
                (Tracked-same counted
                  (accept_registration is_alive now (connector incoming msg (pos h.next_id))
                    counted)
                  (same-accept_registration is_alive now (connector incoming msg (pos h.next_id))
                    counted)
                  v)
        ]

  Tracked-unregister_engine :
      (incoming : env.Incoming) (h : Hub env)
      → Tracked env h
      → Tracked env (unregister_engine incoming h).1
  unfolding unregister_engine
  Tracked-unregister_engine incoming h v = elim (Option-cases (env.header incoming)) [
    | inl e ↦ rw (e, unregister_engine) v
    | inr (queue, e) ↦
        rw (e, unregister_engine)
          (elim (Option-cases (find_queue env h.engines queue)) [
            | inl d ↦ rw d v
            | inr (ec, d) ↦ rw d v
          ])
  ]

  Tracked-act : (a : Action) (h : Hub env) → Tracked env h → Tracked env (act a h)
  unfolding act
  Tracked-act (purge_stalled_registration heart) h v =
      Tracked-same h (purge_stalled heart h) (same-purge_stalled heart h) v
  Tracked-act (handle_stranded_msgs eid uuid) h v = Tracked-handle_stranded h.clock eid h v
  Tracked-act shutdown h v = v

  Tracked-fire : (t : Timer) (h : Hub env) → Tracked env h → Tracked env (fire t h)
  unfolding fire
  Tracked-fire t h v = elim (Bool-cases t.active) [
    | inl e ↦ rw (e, fire) (Tracked-act t.action h v)
    | inr e ↦ rw (e, fire) v
  ]

-- The message is no request that asks to purge all results.
abbrev pub Sparing : (env : Env) → env.Incoming → Type 0
Sparing env incoming =
    (bytes : String) (m : PurgeResultsRequest)
    → env.topic incoming ≡ some "purge_request"
    → env.header incoming ≡ some bytes
    → env.parse_purge_results_request bytes ≡ some m
    → m.all ≡ false

module _ {env : Env} (incoming : env.Incoming) (h : Hub env) where
  purge_results-unframed : env.header incoming ≡ none → purge_results incoming h ≡ (thrown, h)
  unfolding purge_results
  purge_results-unframed e = rw (e, purge_results) refl

  purge_results-unread :
      (bytes : String)
      → env.header incoming ≡ some bytes
      → env.parse_purge_results_request bytes ≡ none
      → purge_results incoming h ≡ (returned, h)
  unfolding purge_results
  purge_results-unread bytes e d = rw (purge_results, e, d) refl

module _ {env : Env} where
  Tracked-purge_results :
      (incoming : env.Incoming) (h : Hub env)
      → Sparing env incoming
      → env.topic incoming ≡ some "purge_request"
      → Tracked env h
      → Tracked env (purge_results incoming h).1
  Tracked-purge_results incoming h sparing topic v = elim (Option-cases (env.header incoming)) [
    | inl e ↦ rw (purge_results-unframed incoming h e) v
    | inr (bytes, e) ↦ elim (Option-cases (env.parse_purge_results_request bytes)) [
      | inl d ↦ rw (purge_results-unread incoming h bytes e d) v
      | inr (m, d) ↦ purge_results-Tracked incoming h bytes m e d (sparing bytes m topic e d) v
    ]
  ]

  Tracked-dispatch_query :
      (is_alive : String → Bool) (incoming : env.Incoming) (h : Hub env)
      → Sparing env incoming
      → Tracked env h
      → Tracked env (dispatch_query is_alive incoming h).1
  unfolding dispatch_query query_handlers nop check_load queue_status_request get_results
      shutdown_request
  Tracked-dispatch_query is_alive incoming h sparing v =
      dispatch-entry_keeps (Tracked env) incoming h (query_handlers env is_alive)
        (
          (λ t w.
              with_message-keeps (Tracked env) env.parse_queue_status_request incoming h _ w
                (λ m. w)),
          (
            (λ t w.
                with_message-keeps (Tracked env) env.parse_get_results_request incoming h _ w
                  (λ m. w)),
            (
              Tracked-purge_results incoming h sparing,
              (
                (λ t w.
                    with_message-keeps (Tracked env) env.parse_load_request incoming h _ w
                      (λ m. w)),
                (
                  (λ t w. w),
                  (
                    (λ t w. w),
                    (
                      (λ t w. Tracked-register_engine is_alive h.clock incoming h w),
                      ((λ t w. Tracked-unregister_engine incoming h w), ((λ t w. w), tt)),
                    ),
                  ),
                ),
              ),
            ),
          ),
        )
        v

  Wired-Step :
      {to_iso_string : ℕ → String} {s t : System env} (st : Step env to_iso_string s t)
      → All (Sparing env) (heard [] st)
      → Kept (Tracked env) s
      → Kept (Tracked env) t
  Wired-Step (query m h now incoming) spared k = record {
    new = k.new;
    failed = k.failed;
    now = Tracked-dispatch_query (alive m) incoming (record h { clock = now }) spared.0 k.now;
  }
  Wired-Step (monitored m h now incoming) spared k = record {
    new = k.new;
    failed = k.failed;
    now = dispatch_monitor_traffic-Tracked incoming (record h { clock = now }) k.now;
  }
  Wired-Step (timed m h looked now t live due) spared k = record {
    new = k.new;
    failed = k.failed;
    now = Tracked-fire t (record h { clock = now }) k.now;
  }
  Wired-Step {to_iso_string} (pong m h heart received) spared k =
      Kept-handle_pong (Tracked env) to_iso_string heart received m h k
  Wired-Step {to_iso_string} (beats m h now toc) spared k =
      Kept-beat (Tracked env) to_iso_string now toc m (record h { clock = now })
        (record { new = k.new; failed = k.failed; now = k.now })

  Reach-Wired :
      {to_iso_string : ℕ → String} {s t : System env}
      → Kept (Tracked env) s
      → (r : Reach env to_iso_string s t) → All (Sparing env) (received r)
      → Kept (Tracked env) t
  Reach-Wired k here spared = k
  Reach-Wired k (next r st) spared =
      let parts = All-heard (Sparing env) (received r) st spared in
      Wired-Step st parts.0 (Reach-Wired k r parts.1)

  -- In every state that a hub with a new heart monitor reaches, every pending message has a record, if
  -- none of the messages that have come on the query socket in the run is a request to purge all
  -- results.
  pub Reach-Tracked :
      {to_iso_string : ℕ → String} {t : System env} (interval t0 t1 t2 t3 next_id : ℕ)
      (r : Reach env to_iso_string (create env (new interval t0 t1 t2 t3) next_id) t)
      → All (Sparing env) (received r)
      → Tracked env t.1
  unfolding new create register_new_heart_handler register_failed_heart_handler contains
  Reach-Tracked interval t0 t1 t2 t3 next_id r spared =
      (Reach-Wired
        (record {
          new = (
            (λ heart h v.
                Tracked-same h (handle_new_heart heart h) (same-handle_new_heart heart h) v),
            tt,
          );
          failed = (
            (λ heart h v.
                Tracked-same h (handle_heart_failure h.clock heart h)
                  (same-handle_heart_failure h.clock heart h) v),
            tt,
          );
          now = λ id e. cc;
        })
        r spared).now
