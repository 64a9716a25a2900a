-- ===== src/Hub/Tasks/Requests.antt =====
-- What the report of a task's submission does.
use gpf.Prelude.{String, ◌&&◌, ◌||◌, ◌≡◌, refl, some, arith, ◌==◌, is_some, if◌then◌else◌}
use gpf.StringSet.{contains, contains-insert}
use gpf.Hub.Messages.{InTask}
use gpf.Hub.State.{Env, Hub, Ptime, returned, with_message-eq}
use gpf.Hub.Tasks.{new_task, eid_or_minus_one, save_task_request}

module _ {env : Env} (incoming : env.Incoming) (h : Hub env) (bytes : String) (m : InTask)
    (submitted : Ptime) (frame : env.header incoming ≡ some bytes)
    (parsed : env.parse_intask bytes ≡ some m)
    (time : env.from_iso_string m.submitted ≡ some submitted) where
  -- The report of a task's submission whose time is read: the task is pending; its record is made unless its id has one;
  -- and it is put among the unassigned ones exactly if the report names an engine.
  pub save_task_request-read :
      (j : String)
      → let r = save_task_request incoming h in
        (r.0 ≡ returned)
        × (env.task_set.find r.1.tasks j ≡ (
            if is_some (env.task_set.find h.tasks m.msg_id)
            then env.task_set.find h.tasks j
            else if m.msg_id == j
            then some (new_task m.msg_id (eid_or_minus_one m.eid) "task" submitted incoming)
            else env.task_set.find h.tasks j))
        × (contains r.1.pending j ≡ (m.msg_id == j || contains h.pending j))
        × (contains r.1.unassigned j
            ≡ ((is_some m.eid && m.msg_id == j) || contains h.unassigned j))
        × (r.1.all_completed ≡ h.all_completed)
  unfolding save_task_request
  save_task_request-read j =
      rw (with_message-eq env.parse_intask incoming h _ bytes m frame parsed, time)
        (
          refl,
          env.task_set.find-insert
              (new_task m.msg_id (eid_or_minus_one m.eid) "task" submitted incoming) h.tasks j,
          contains-insert m.msg_id j h.pending,
          ground (arith, contains-insert m.msg_id j h.unassigned),
          refl,
        )
