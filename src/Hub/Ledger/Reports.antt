-- ===== src/Hub/Ledger/Reports.antt =====
-- The handlers of the monitor socket write nothing into the ledger but what was reported.
use gpf.Prelude.{
  String, ◌≡◌, refl, sym, subst, some, List, inl, inr, ℤ, int_eq, Option-cases, Bool-cases,
}
use gpf.Prelude.Lists.{Member}
use gpf.StringSet.{contains, insert}
use gpf.Hub.Messages.{OutTask}
use gpf.Hub.State.{Env, Hub, Task, Ptime, Outcome, returned, thrown, with_message-keeps_read}
use gpf.Hub.Tasks.{
  new_task, eid_or_minus_one, save_queue_request, save_queue_result, save_task_request,
  save_task_result, save_task_destination, settle, update_record, reassign, assigned, then_reassign,
}
use gpf.Hub.Queries.{nop}
use gpf.Hub.Dispatch.{dispatch_monitor_traffic, monitor_handlers}
use gpf.Hub.Dispatch.Keeps.{dispatch-entry_keeps}
use gpf.Hub.Ledger.{
  Requests, by_in, by_intask, Results, by_out, by_outtask, Reported, reported, CompletedAt, never,
  completed_at, Recorded, Ledger, LedgerOf, LedgerOf-replace, LedgerOf-request, LedgerOf-settle,
}

module _ {env : Env} (ms : List env.Incoming) (incoming : env.Incoming)
    (m : Member incoming ms) where
  Ledger-request :
      (id : String) (eid : ℤ) (queue : String) (t : Ptime) (h : Hub env)
      → Requests env incoming id
      → Ledger env ms h
      → LedgerOf env ms
          (env.task_set.insert (new_task id eid queue t incoming) h.tasks)
          (insert id h.pending)
          h.all_completed
  Ledger-request id eid queue t h r v =
      LedgerOf-request env ms h.tasks h.pending h.all_completed v (new_task id eid queue t incoming)
        (record { came = m; request = r; completion = never refl })

  Ledger-save_queue_request :
      (h : Hub env)
      → env.topic incoming ≡ some "in"
      → Ledger env ms h
      → Ledger env ms (save_queue_request incoming h).1
  unfolding save_queue_request
  Ledger-save_queue_request h topic v =
      with_message-keeps_read (Ledger env ms) env.parse_in incoming h _ v λ bytes msg e d.
        elim (Option-cases (env.from_iso_string msg.submitted)) [
          | inl n ↦ rw n v
          | inr (t, n) ↦
              rw n (Ledger-request msg.msg_id msg.eid "mux" t h (by_in bytes msg topic e d refl) v)
        ]

  Ledger-save_task_request :
      (h : Hub env)
      → env.topic incoming ≡ some "intask"
      → Ledger env ms h
      → Ledger env ms (save_task_request incoming h).1
  unfolding save_task_request
  Ledger-save_task_request h topic v =
      with_message-keeps_read (Ledger env ms) env.parse_intask incoming h _ v λ bytes msg e d.
        elim (Option-cases (env.from_iso_string msg.submitted)) [
          | inl n ↦ rw n v
          | inr (t, n) ↦ rw n (
              Ledger-request msg.msg_id (eid_or_minus_one msg.eid) "task" t h
                (by_intask bytes msg topic e d refl) v)
        ]

  Ledger-settle :
      (id : String) (h : Hub env)
      → Reported env ms id
      → Ledger env ms h
      → Ledger env ms (settle id h)
  unfolding settle
  Ledger-settle id h r v = elim (Bool-cases (contains h.pending id)) [
    | inl e ↦ rw e (LedgerOf-settle env ms h.tasks h.pending h.all_completed v id e r)
    | inr e ↦ rw e v
  ]

  Ledger-assigned : (id : String) (h : Hub env) → Ledger env ms h → Ledger env ms (assigned id h)
  unfolding assigned
  Ledger-assigned id h v = elim (Bool-cases (contains h.unassigned id)) [
    | inl e ↦ rw e v
    | inr e ↦ rw e v
  ]

  -- The record of a task that the ledger has, with the reported time of completion.
  Ledger-update_record :
      (task : Task env.Incoming) (completed started : String) (h : Hub env)
      → Recorded env ms task.id task
      → Results env incoming task.id completed
      → Ledger env ms h
      → Ledger env ms (update_record task completed started incoming h).1
  unfolding update_record
  Ledger-update_record task completed started h old r v =
      elim (Option-cases (env.from_iso_string completed)) [
        | inl e ↦ rw (update_record, e) v
        | inr (c, e) ↦
            let done : CompletedAt env ms task.id c = completed_at incoming completed m r e in
            let v' =
              LedgerOf-replace env ms h.tasks h.pending h.all_completed v
                (record task { completed = c })
                (record { came = old.came; request = old.request; completion = done }) in
            elim (Option-cases (env.from_iso_string started)) [
              | inl d ↦ rw (update_record, e, d) v'
              | inr (s, d) ↦
                  rw (update_record, e, d)
                    (LedgerOf-replace env ms _ h.pending h.all_completed v'
                      (record task { completed = c; started = s; outgoing_msg = some incoming })
                      (record { came = old.came; request = old.request; completion = done }))
            ]
      ]

  Ledger-reassign :
      (id : String) (eid : ℤ) (h : Hub env) → Ledger env ms h → Ledger env ms (reassign id eid h)
  unfolding reassign
  Ledger-reassign id eid h v = elim (Option-cases (env.task_set.find h.tasks id)) [
    | inl e ↦ rw (reassign, e) v
    | inr (task, e) ↦
        let r = v.records id task e in
        let k : task.id ≡ id = env.task_set.find-key h.tasks id task e in
        elim (Bool-cases (int_eq.beq eid task.engine_uuid)) [
          | inl d ↦ rw (reassign, e, d) v
          | inr d ↦
              rw (reassign, e, d)
                (LedgerOf-replace env ms h.tasks h.pending h.all_completed v
                  (record task { engine_uuid = eid })
                  (subst (λ j. Recorded env ms j (record task { engine_uuid = eid })) (sym k)
                    (record { came = r.came; request = r.request; completion = r.completion })))
        ]
  ]

  Ledger-then_reassign :
      (o : OutTask) (r : Outcome × Hub env)
      → Ledger env ms r.1
      → Ledger env ms (then_reassign o r).1
  unfolding then_reassign
  Ledger-then_reassign o (thrown, h) v = v
  Ledger-then_reassign o (returned, h) v = Ledger-reassign o.msg_id o.eid h v

  -- A result of a message that has a record.
  Ledger-result :
      (id completed started : String) (task : Task env.Incoming) (h h' : Hub env)
      → env.task_set.find h.tasks id ≡ some task
      → Results env incoming id completed
      → Ledger env ms h
      → Ledger env ms h'
      → Ledger env ms (update_record task completed started incoming h').1
  Ledger-result id completed started task h h' e r v v' =
      let k : task.id ≡ id = env.task_set.find-key h.tasks id task e in
      Ledger-update_record task completed started h'
        (subst (λ j. Recorded env ms j task) (sym k) (v.records id task e))
        (subst (λ j. Results env incoming j completed) (sym k) r) v'

  Ledger-save_queue_result :
      (h : Hub env)
      → env.topic incoming ≡ some "out"
      → Ledger env ms h
      → Ledger env ms (save_queue_result incoming h).1
  unfolding save_queue_result
  Ledger-save_queue_result h topic v =
      with_message-keeps_read (Ledger env ms) env.parse_out incoming h _ v λ bytes msg e d.
        let r : Results env incoming msg.msg_id msg.completed =
          by_out bytes msg topic e d refl refl in
        elim (Option-cases (env.task_set.find h.tasks msg.msg_id)) [
          | inl n ↦ rw n v
          | inr (task, n) ↦ rw n (
              Ledger-result msg.msg_id msg.completed msg.started task h (settle msg.msg_id h) n r v
                (Ledger-settle msg.msg_id h (reported incoming msg.completed m r) v))
        ]

  Ledger-save_task_result :
      (h : Hub env)
      → env.topic incoming ≡ some "outtask"
      → Ledger env ms h
      → Ledger env ms (save_task_result incoming h).1
  unfolding save_task_result
  Ledger-save_task_result h topic v =
      with_message-keeps_read (Ledger env ms) env.parse_outtask incoming h _ v λ bytes msg e d.
        let r : Results env incoming msg.msg_id msg.completed =
          by_outtask bytes msg topic e d refl refl in
        let h₁ : Hub env = assigned msg.msg_id h in
        elim (Option-cases (env.task_set.find h.tasks msg.msg_id)) [
          | inl n ↦ rw n v
          | inr (task, n) ↦ rw n (
              Ledger-then_reassign msg
                (update_record task msg.completed msg.started incoming (settle msg.msg_id h₁))
                (Ledger-result msg.msg_id msg.completed msg.started task h (settle msg.msg_id h₁) n
                  r v
                  (Ledger-settle msg.msg_id h₁ (reported incoming msg.completed m r)
                    (Ledger-assigned msg.msg_id h v))))
        ]

  Ledger-save_task_destination :
      (h : Hub env) → Ledger env ms h → Ledger env ms (save_task_destination incoming h).1
  unfolding save_task_destination
  Ledger-save_task_destination h v =
      with_message-keeps_read (Ledger env ms) env.parse_tracktask incoming h _ v λ bytes msg e d.
        elim (Option-cases (env.task_set.find h.tasks msg.msg_id)) [
          | inl n ↦ rw n v
          | inr (task, n) ↦ rw n (
              Ledger-reassign msg.msg_id msg.eid (assigned msg.msg_id h)
                (Ledger-assigned msg.msg_id h v))
        ]

  pub Ledger-dispatch_monitor_traffic :
      (h : Hub env) → Ledger env ms h → Ledger env ms (dispatch_monitor_traffic incoming h).1
  unfolding dispatch_monitor_traffic monitor_handlers nop
  Ledger-dispatch_monitor_traffic h v =
      dispatch-entry_keeps (Ledger env ms) incoming h (monitor_handlers env)
        (
          Ledger-save_queue_request h,
          (
            Ledger-save_queue_result h,
            (
              Ledger-save_task_request h,
              (
                Ledger-save_task_result h,
                ((λ t w. Ledger-save_task_destination h w), ((λ t w. w), ((λ t w. w), tt))),
              ),
            ),
          ),
        )
        v
