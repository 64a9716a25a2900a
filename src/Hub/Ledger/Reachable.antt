-- ===== src/Hub/Ledger/Reachable.antt =====
-- In a run of the hub, its tasks are those that were reported.
use gpf.Prelude.{ℕ, String, refl, subst, sym, List, [], ◌∷◌, inl, inr, Bool-cases}
use gpf.Prelude.Lists.{first}
use gpf.StringSet.{contains}
use gpf.Monitor.{new, alive}
use gpf.Monitor.Callbacks.{Kept-beat}
use gpf.Hub.State.{
  Env, Hub, Timer, Action, purge_stalled_registration, handle_stranded_msgs, shutdown,
}
use gpf.Hub.Registration.{handle_new_heart, handle_heart_failure, purge_stalled}
use gpf.Hub.Registration.Untouched.{
  same-handle_new_heart, same-handle_heart_failure, same-purge_stalled,
}
use gpf.Hub.Registration.Departure.{handle_stranded-nothing}
use gpf.Hub.Names.{Names}
use gpf.Hub.Names.Reachable.{Reach-Names}
use gpf.Hub.Dispatch.{act, fire}
use gpf.Hub.System.{System, create, query, monitored, timed, pong, beats, Reach, here, next}
use gpf.Hub.Ids.Run.{callbacks}
use gpf.Hub.Ledger.{Ledger, LedgerOf-later}
use gpf.Hub.Ledger.Clients.{Ledger-same, Ledger-dispatch_query}
use gpf.Hub.Ledger.Reports.{Ledger-dispatch_monitor_traffic}

module _ {env : Env} (ms : List env.Incoming) where
  Ledger-act : (a : Action) (h : Hub env) → Names env h → Ledger env ms h → Ledger env ms (act a h)
  unfolding act
  Ledger-act (purge_stalled_registration heart) h n v =
      Ledger-same ms h (purge_stalled heart h) (same-purge_stalled heart h) v
  Ledger-act (handle_stranded_msgs eid uuid) h n v =
      subst (Ledger env ms) (sym (handle_stranded-nothing h n h.clock eid)) v
  Ledger-act shutdown h n v = v

  Ledger-fire : (t : Timer) (h : Hub env) → Names env h → Ledger env ms h → Ledger env ms (fire t h)
  unfolding fire
  Ledger-fire t h n v = elim (Bool-cases t.active) [
    | inl e ↦ rw (e, fire) (Ledger-act t.action h n v)
    | inr e ↦ rw (e, fire) v
  ]

-- The messages that have come on the monitor socket in a run, the latest first.
abbrev pub monitored_in :
    {env : Env} {to_iso_string : ℕ → String} {s t : System env}
    → Reach env to_iso_string s t
    → List env.Incoming
monitored_in here = []
monitored_in (next r (query m h now incoming)) = monitored_in r
monitored_in (next r (monitored m h now incoming)) = incoming ∷ monitored_in r
monitored_in (next r (timed m h looked now t live due)) = monitored_in r
monitored_in (next r (pong m h heart received)) = monitored_in r
monitored_in (next r (beats m h now toc)) = monitored_in r

module _ {env : Env} {to_iso_string : ℕ → String} (interval t0 t1 t2 t3 next_id : ℕ) where
  -- In every state that a hub with a new heart monitor reaches, whatever comes and whenever timers and
  -- beats fall: every record of a task keeps a message that the monitor socket got and that requests it
  -- under its id, and a time of completion only as a message of a result under that id gives it; every
  -- pending message was requested; and every completed message was requested, and a result of it
  -- reported.
  pub Reach-Ledger :
      {t : System env}
      (r : Reach env to_iso_string (create env (new interval t0 t1 t2 t3) next_id) t)
      → Ledger env (monitored_in r) t.1
  unfolding create contains
  Reach-Ledger here = record {
    records = λ id t e. absurd (cc (env.task_set.find-empty id, e));
    waiting = λ id e. absurd (cc e);
    requests = λ id e. absurd (cc e);
    results = λ id e. absurd (cc e);
  }
  Reach-Ledger (next r (query m h now incoming)) =
      Ledger-dispatch_query (monitored_in r) (alive m) incoming (record h { clock = now })
        (Reach-Ledger r)
  Reach-Ledger (next r (monitored m h now incoming)) =
      Ledger-dispatch_monitor_traffic (incoming ∷ monitored_in r) incoming (first refl)
        (record h { clock = now })
        (LedgerOf-later env incoming (monitored_in r) h.tasks h.pending h.all_completed
          (Reach-Ledger r))
  Reach-Ledger (next r (timed m h looked now t live due)) =
      Ledger-fire (monitored_in r) t (record h { clock = now })
        (Reach-Names interval t0 t1 t2 t3 next_id r) (Reach-Ledger r)
  Reach-Ledger (next r (pong m h heart received)) = Reach-Ledger r
  Reach-Ledger (next r (beats m h now toc)) =
      let calls = callbacks interval t0 t1 t2 t3 next_id r in
      let ms = monitored_in r in
      (Kept-beat (Ledger env ms) to_iso_string now toc m (record h { clock = now })
        (record {
          new = rw calls.0 (
            (λ heart g w.
                Ledger-same ms g (handle_new_heart heart g) (same-handle_new_heart heart g) w),
            tt,
          );
          failed = rw calls.1 (
            (λ heart g w.
                Ledger-same ms g (handle_heart_failure g.clock heart g)
                  (same-handle_heart_failure g.clock heart g) w),
            tt,
          );
          now = Reach-Ledger r;
        })).now
