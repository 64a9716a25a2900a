-- ===== src/Hub/Names/Reachable.antt =====
-- The names stay apart in every state that the hub reaches.
use gpf.Prelude.{ℕ, String, Bool, ◌≡◌, refl, [], inl, inr, Bool-cases}
use gpf.Monitor.{Monitor, new, alive, register_new_heart_handler, register_failed_heart_handler}
use gpf.Monitor.Callbacks.{Kept, Kept-beat, Kept-handle_pong}
use gpf.Hub.State.{
  Env, Hub, Timer, Action, purge_stalled_registration, handle_stranded_msgs, shutdown,
}
use gpf.Hub.Queries.{nop}
use gpf.Hub.Dispatch.Keeps.{dispatch-keeps}
use gpf.Hub.Dispatch.{
  dispatch_query, dispatch_monitor_traffic, monitor_handlers, query_handlers, act, fire,
}
use gpf.Hub.System.{System, Step, query, monitored, timed, pong, beats, Reach, here, next, create}
use gpf.Hub.Names.{Names, NamesOf-empty}
use gpf.Hub.Names.Registration.{
  Names-handle_new_heart, Names-register_engine, Names-purge_stalled, Names-handle_heart_failure,
  Names-unregister_engine,
}
use gpf.Hub.Names.Tasks.{
  Names-save_queue_request, Names-save_task_request, Names-save_queue_result,
  Names-save_task_result, Names-save_task_destination, Names-handle_stranded,
}
use gpf.Hub.Names.Queries.{
  Names-check_load, Names-queue_status_request, Names-get_results, Names-shutdown_request,
  Names-purge_results,
}

module _ {env : Env} where
  pub Names-dispatch_query :
      (is_alive : String → Bool) (incoming : env.Incoming) (h : Hub env)
      → Names env h
      → Names env (dispatch_query is_alive incoming h).1
  unfolding dispatch_query query_handlers nop
  Names-dispatch_query is_alive incoming h v =
      dispatch-keeps (Names env) (query_handlers env is_alive) incoming h
        (
          Names-queue_status_request,
          (
            Names-get_results,
            (
              Names-purge_results,
              (
                Names-check_load,
                (
                  (λ i g w. w),
                  (
                    (λ i g w. Names-shutdown_request g.clock i g w),
                    (
                      (λ i g w. Names-register_engine is_alive g.clock i g w),
                      (Names-unregister_engine, ((λ i g w. w), tt)),
                    ),
                  ),
                ),
              ),
            ),
          ),
        )
        v

  pub Names-dispatch_monitor_traffic :
      (incoming : env.Incoming) (h : Hub env)
      → Names env h
      → Names env (dispatch_monitor_traffic incoming h).1
  unfolding dispatch_monitor_traffic monitor_handlers nop
  Names-dispatch_monitor_traffic incoming h v =
      dispatch-keeps (Names env) (monitor_handlers env) incoming h
        (
          Names-save_queue_request,
          (
            Names-save_queue_result,
            (
              Names-save_task_request,
              (
                Names-save_task_result,
                (Names-save_task_destination, ((λ i g w. w), ((λ i g w. w), tt))),
              ),
            ),
          ),
        )
        v

  Names-act : (a : Action) (h : Hub env) → Names env h → Names env (act a h)
  unfolding act
  Names-act (purge_stalled_registration heart) h v = Names-purge_stalled heart h v
  Names-act (handle_stranded_msgs eid uuid) h v = Names-handle_stranded h.clock eid h v
  Names-act shutdown h v = v

  pub Names-fire : (t : Timer) (h : Hub env) → Names env h → Names env (fire t h)
  unfolding fire
  Names-fire t h v = elim (Bool-cases t.active) [
    | inl e ↦ rw (e, fire) (Names-act t.action h v)
    | inr e ↦ rw (e, fire) v
  ]

  abbrev Wired : System env → Type 0
  Wired = Kept (Names env)

  Wired-Step :
      {to_iso_string : ℕ → String} {s t : System env}
      → Step env to_iso_string s t
      → Wired s
      → Wired t
  Wired-Step (query m h now incoming) k = record {
    new = k.new;
    failed = k.failed;
    now = Names-dispatch_query (alive m) incoming (record h { clock = now }) k.now;
  }
  Wired-Step (monitored m h now incoming) k = record {
    new = k.new;
    failed = k.failed;
    now = Names-dispatch_monitor_traffic incoming (record h { clock = now }) k.now;
  }
  Wired-Step (timed m h looked now t live due) k = record {
    new = k.new;
    failed = k.failed;
    now = Names-fire t (record h { clock = now }) k.now;
  }
  Wired-Step {to_iso_string} (pong m h heart received) k =
      Kept-handle_pong (Names env) to_iso_string heart received m h k
  Wired-Step {to_iso_string} (beats m h now toc) k =
      Kept-beat (Names env) to_iso_string now toc m (record h { clock = now })
        (record { new = k.new; failed = k.failed; now = k.now })

  Wired-create :
      (m : Monitor (Hub env)) (next_id : ℕ)
      → m.new_heart_callbacks ≡ []
      → m.failed_heart_callbacks ≡ []
      → Wired (create env m next_id)
  unfolding create register_new_heart_handler register_failed_heart_handler
  Wired-create m next_id e d = record {
    new = rw e (Names-handle_new_heart, tt);
    failed = rw d ((λ heart h v. Names-handle_heart_failure h.clock heart h v), tt);
    now = NamesOf-empty env next_id;
  }

  Reach-Wired :
      {to_iso_string : ℕ → String} {s t : System env}
      → Wired s
      → Reach env to_iso_string s t
      → Wired t
  Reach-Wired k here = k
  Reach-Wired k (next r st) = Wired-Step st (Reach-Wired k r)

  -- In every state that a hub with a new heart monitor reaches, whatever arrives on its sockets, however
  -- its timers and the beats fall: no two engines share a queue's or a heart's name, neither among the
  -- registered nor among the waiting ones; every id in use is one that the counter has given out, so
  -- that a new id is free; and every engine's lists of queued messages and tasks are empty.
  pub Reach-Names :
      {to_iso_string : ℕ → String} {t : System env} (interval t0 t1 t2 t3 next_id : ℕ)
      → Reach env to_iso_string (create env (new interval t0 t1 t2 t3) next_id) t
      → Names env t.1
  unfolding new
  Reach-Names interval t0 t1 t2 t3 next_id r =
      (Reach-Wired (Wired-create (new interval t0 t1 t2 t3) next_id refl refl) r).now
