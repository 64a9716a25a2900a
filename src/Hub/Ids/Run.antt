-- ===== src/Hub/Ids/Run.antt =====
-- The counter of engine ids in a run of the hub.
use Prim.Native.Nat.{◌<◌, ◌≤◌}
use gpf.Prelude.{
  ◌==◌, ◌^◌, ℕ, suc, ◌+◌, String, ◌≡◌, refl, ◌∙◌, Bool-cases, inl, inr, [], ◌∷◌, arith,
}
use gpf.Monitor.{
  Monitor, new, alive, register_new_heart_handler, register_failed_heart_handler, handle_pong, beat,
}
use gpf.Monitor.Notices.{beat-notices}
use gpf.Monitor.Callbacks.{Kept-beat}
use gpf.Hub.State.{
  Env, Hub, Timer, Action, purge_stalled_registration, handle_stranded_msgs, shutdown,
}
use gpf.Hub.Registration.{handle_new_heart, handle_heart_failure}
use gpf.Hub.Queries.{nop}
use gpf.Hub.Names.Tasks.{
  same-save_queue_request, same-save_task_request, same-handle_stranded, same-save_queue_result,
  same-save_task_result, same-save_task_destination,
}
use gpf.Hub.Dispatch.{dispatch_monitor_traffic, monitor_handlers, act, fire}
use gpf.Hub.Dispatch.Keeps.{dispatch-keeps}
use gpf.Hub.System.{System, create, query, monitored, timed, pong, beats, Reach, here, next}
use gpf.Hub.Ids.{Counts-dispatch_query}
use gpf.Hub.Registration.Untouched.{
  same-handle_new_heart, same-handle_heart_failure, same-purge_stalled,
}

module _ {env : Env} where
  -- The counter is at most `n`.
  abbrev Within : ℕ → Hub env → Type 0
  Within n h = h.next_id ≤ n

  Within-dispatch_monitor_traffic :
      (n : ℕ) (incoming : env.Incoming) (h : Hub env)
      → Within n h
      → Within n (dispatch_monitor_traffic incoming h).1
  unfolding dispatch_monitor_traffic monitor_handlers nop
  Within-dispatch_monitor_traffic n incoming h v =
      dispatch-keeps (Within n) (monitor_handlers env) incoming h
        (
          (λ i g w. rw (same-save_queue_request i g).2 w),
          (
            (λ i g w. rw (same-save_queue_result i g).2 w),
            (
              (λ i g w. rw (same-save_task_request i g).2 w),
              (
                (λ i g w. rw (same-save_task_result i g).2 w),
                (
                  (λ i g w. rw (same-save_task_destination i g).2 w),
                  ((λ i g w. w), ((λ i g w. w), tt)),
                ),
              ),
            ),
          ),
        )
        v

  Within-act : (n : ℕ) (a : Action) (h : Hub env) → Within n h → Within n (act a h)
  unfolding act
  Within-act n (purge_stalled_registration heart) h v = rw (same-purge_stalled heart h).2 v
  Within-act n (handle_stranded_msgs eid uuid) h v = rw (same-handle_stranded h.clock eid h).2 v
  Within-act n shutdown h v = v

  Within-fire : (n : ℕ) (t : Timer) (h : Hub env) → Within n h → Within n (fire t h)
  unfolding fire
  Within-fire n t h v = elim (Bool-cases t.active) [
    | inl e ↦ rw (e, fire) (Within-act n t.action h v)
    | inr e ↦ rw (e, fire) v
  ]

  -- The monitor's callbacks are those of the hub, and the counter is at most `n`.
  pub record Counted (n : ℕ) (s : System env) : Type 0 where
    pub new_calls : s.0.new_heart_callbacks ≡ handle_new_heart ∷ []
    pub failed_calls :
        s.0.failed_heart_callbacks ≡ (λ heart h. handle_heart_failure h.clock heart h) ∷ []
    pub count : Within n s.1

  -- How many requests the query socket got in a run.
  abbrev pub requests :
      {to_iso_string : ℕ → String} {s t : System env} → Reach env to_iso_string s t → ℕ
  requests here = 0
  requests (next r (query m h now incoming)) = suc (requests r)
  requests (next r (monitored m h now incoming)) = requests r
  requests (next r (timed m h looked now t live due)) = requests r
  requests (next r (pong m h heart received)) = requests r
  requests (next r (beats m h now toc)) = requests r

  calls-handle_pong :
      (to_iso_string : ℕ → String) (heart received : String) (m : Monitor (Hub env))
      → ((handle_pong to_iso_string heart received m).new_heart_callbacks ≡ m.new_heart_callbacks)
        × ((handle_pong to_iso_string heart received m).failed_heart_callbacks
            ≡ m.failed_heart_callbacks)
  unfolding handle_pong
  calls-handle_pong to_iso_string heart received m =
      elim (Bool-cases (received == to_iso_string m.lifetime)) [
        | inl e ↦ rw e (refl, refl)
        | inr e ↦ rw e (elim (Bool-cases (received == to_iso_string m.last_ping)) [
          | inl d ↦ rw d (refl, refl)
          | inr d ↦ rw d (refl, refl)
        ])
      ]

  Within-beat :
      (n : ℕ) (to_iso_string : ℕ → String) (now toc : ℕ) (m : Monitor (Hub env)) (h : Hub env)
      → Counted n (m, h)
      → Within n (beat to_iso_string now toc (m, h)).1
  Within-beat n to_iso_string now toc m h c =
      (Kept-beat (Within n) to_iso_string now toc m h (record {
        new = rw c.new_calls ((λ heart g w. rw (same-handle_new_heart heart g).2 w), tt);
        failed =
            rw c.failed_calls
              ((λ heart g w. rw (same-handle_heart_failure g.clock heart g).2 w), tt);
        now = c.count;
      })).now

  pub Reach-Counted :
      {to_iso_string : ℕ → String} (s : System env) (n : ℕ) (c : Counted n s) {t : System env}
      (r : Reach env to_iso_string s t)
      → Counted (n + requests r) t
  Reach-Counted s n c here = record {
    new_calls = c.new_calls;
    failed_calls = c.failed_calls;
    count = omega (arith, c.count);
  }
  Reach-Counted s n c (next r (query m h now incoming)) =
      let b = Reach-Counted s n c r in
      record {
        new_calls = b.new_calls;
        failed_calls = b.failed_calls;
        count =
            omega
              (arith, Counts-dispatch_query (alive m) incoming (record h { clock = now }), b.count);
      }
  Reach-Counted s n c (next r (monitored m h now incoming)) =
      let b = Reach-Counted s n c r in
      record {
        new_calls = b.new_calls;
        failed_calls = b.failed_calls;
        count =
            Within-dispatch_monitor_traffic (n + requests r) incoming (record h { clock = now })
              b.count;
      }
  Reach-Counted s n c (next r (timed m h looked now t live due)) =
      let b = Reach-Counted s n c r in
      record {
        new_calls = b.new_calls;
        failed_calls = b.failed_calls;
        count = Within-fire (n + requests r) t (record h { clock = now }) b.count;
      }
  Reach-Counted {to_iso_string} s n c (next r (pong m h heart received)) =
      let b = Reach-Counted s n c r in
      let calls = calls-handle_pong to_iso_string heart received m in
      record {
        new_calls = calls.0 ∙ b.new_calls;
        failed_calls = calls.1 ∙ b.failed_calls;
        count = b.count;
      }
  Reach-Counted {to_iso_string} s n c (next r (beats m h now toc)) =
      let b = Reach-Counted s n c r in
      let notices = beat-notices to_iso_string now toc m (record h { clock = now }) in
      record {
        new_calls = notices.2 ∙ b.new_calls;
        failed_calls = notices.3 ∙ b.failed_calls;
        count =
            Within-beat (n + requests r) to_iso_string now toc m (record h { clock = now })
              (record { new_calls = b.new_calls; failed_calls = b.failed_calls; count = b.count });
      }

  -- The callbacks of the monitor in a run.
  pub callbacks :
      {to_iso_string : ℕ → String} {t : System env} (interval t0 t1 t2 t3 next_id : ℕ)
      → Reach env to_iso_string (create env (new interval t0 t1 t2 t3) next_id) t
      → (t.0.new_heart_callbacks ≡ handle_new_heart ∷ [])
        × (t.0.failed_heart_callbacks ≡ (λ heart h. handle_heart_failure h.clock heart h) ∷ [])
  unfolding new create register_new_heart_handler register_failed_heart_handler
  callbacks interval t0 t1 t2 t3 next_id r =
      let c =
        Reach-Counted (create env (new interval t0 t1 t2 t3) next_id) next_id
          (record { new_calls = refl; failed_calls = refl; count = omega arith }) r in
      (c.new_calls, c.failed_calls)

  -- In a run of a hub with a new heart monitor, if the counter's start and the number of requests that
  -- the query socket got are together less than 2^31: the counter of engine ids has gone up by no more
  -- than this number, and it is in the range of an `int`.
  pub Reach-next_id :
      {to_iso_string : ℕ → String} {t : System env} (interval t0 t1 t2 t3 next_id : ℕ)
      (r : Reach env to_iso_string (create env (new interval t0 t1 t2 t3) next_id) t)
      → next_id + requests r < 2 ^ 31
      → (t.1.next_id ≤ next_id + requests r) × (t.1.next_id < 2 ^ 31)
  unfolding new create register_new_heart_handler register_failed_heart_handler
  Reach-next_id interval t0 t1 t2 t3 next_id r small =
      let c =
        Reach-Counted (create env (new interval t0 t1 t2 t3) next_id) next_id
          (record { new_calls = refl; failed_calls = refl; count = omega arith }) r in
      (c.count, omega (arith, c.count, small))
