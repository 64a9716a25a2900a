-- ===== src/Hub/Tasks.antt =====
-- The task side of gpf/controller/hub.cpp: what the monitor socket reports about messages, and the
-- timers' callbacks on tasks.
pub mod Requests
pub mod Results
pub mod Assignment
pub mod Tracking
pub mod Stranded
pub mod Reachable
use Prim.Native.String.{◌++◌ as append}
use gpf.Prelude.{
  ℕ, String, Bool, true, false, Option, none, some, List, [], ◌∷◌, ℤ, negsuc, int_eq, is_some,
  if◌then◌else◌,
}
use gpf.StringSet.{contains, insert, erase}
use gpf.Hub.Messages.{In, Out, InTask, OutTask, TrackTask, has_eid}
use gpf.Hub.State.{
  Env, Hub, Task, Ptime, not_a_date_time, at, Outcome, returned, thrown, with_message,
}

-- A task with the fields that a request sets; the others have their defaults.
abbrev pub new_task : {I : Type 0} → String → ℤ → String → Ptime → I → Task I
new_task id eid queue submitted incoming = record {
  id = id;
  engine_uuid = eid;
  queue = queue;
  submitted = submitted;
  started = not_a_date_time;
  completed = not_a_date_time;
  resubmitted = not_a_date_time;
  content = "";
  result_content = "";
  incoming_msg = incoming;
  outgoing_msg = none;
}

-- `has_eid ? inmsg.eid() : -1`
abbrev pub eid_or_minus_one : Option ℤ → ℤ
eid_or_minus_one none = negsuc 0
eid_or_minus_one (some eid) = eid

module _ {env : Env} where
  unfoldable pub save_queue_request : env.Incoming → Hub env → Outcome × Hub env
  save_queue_request incoming h = with_message env.parse_in incoming h λ m.
      elim (env.from_iso_string m.submitted) [
        | none ↦ (thrown, h)
        | some submitted ↦ (
          returned,
          record h {
            pending = insert m.msg_id h.pending;
            tasks = env.task_set.insert (new_task m.msg_id m.eid "mux" submitted incoming) h.tasks;
          },
        )
      ]

  unfoldable pub save_task_request : env.Incoming → Hub env → Outcome × Hub env
  save_task_request incoming h = with_message env.parse_intask incoming h λ m.
      elim (env.from_iso_string m.submitted) [
        | none ↦ (thrown, h)
        | some submitted ↦ (
          returned,
          record h {
            unassigned = if is_some m.eid then insert m.msg_id h.unassigned else h.unassigned;
            pending = insert m.msg_id h.pending;
            tasks =
                env.task_set.insert
                  (new_task m.msg_id (eid_or_minus_one m.eid) "task" submitted incoming) h.tasks;
          },
        )
      ]

  -- A pending message is completed by its result.
  unfoldable pub settle : String → Hub env → Hub env
  settle msg_id h =
      if contains h.pending msg_id
      then record h {
        pending = erase msg_id h.pending;
        all_completed = insert msg_id h.all_completed;
      }
      else h

  -- The update of the task's record, in the order of the source: either time may throw, and what
  -- was written before stays.
  unfoldable pub update_record :
      Task env.Incoming → String → String → env.Incoming → Hub env → Outcome × Hub env
  update_record task completed started incoming h = elim (env.from_iso_string completed) [
    | none ↦ (thrown, h)
    | some c ↦
        let h₁ : Hub env = record h {
          tasks = env.task_set.replace (record task { completed = c }) h.tasks;
        } in
        elim (env.from_iso_string started) [
          | none ↦ (thrown, h₁)
          | some s ↦ (
            returned,
            record h₁ {
              tasks =
                  env.task_set.replace
                    (record task { completed = c; started = s; outgoing_msg = some incoming })
                    h₁.tasks;
            },
          )
        ]
  ]

  unfoldable pub save_queue_result : env.Incoming → Hub env → Outcome × Hub env
  unfolding settle update_record
  save_queue_result incoming h = with_message env.parse_out incoming h λ m.
      elim (env.task_set.find h.tasks m.msg_id) [
        | none ↦ (returned, h)
        | some task ↦ update_record task m.completed m.started incoming (settle m.msg_id h)
      ]

  -- `index.replace` with another engine, if the message names another one.
  unfoldable pub reassign : String → ℤ → Hub env → Hub env
  reassign msg_id eid h = elim (env.task_set.find h.tasks msg_id) [
    | none ↦ h
    | some task ↦
        if int_eq.beq eid task.engine_uuid
        then h
        else record h { tasks = env.task_set.replace (record task { engine_uuid = eid }) h.tasks }
  ]

  unfoldable pub assigned : String → Hub env → Hub env
  assigned msg_id h =
      if contains h.unassigned msg_id
      then record h { unassigned = erase msg_id h.unassigned }
      else h

  -- The end of `save_task_result`, after the update of the record.
  unfoldable pub then_reassign : OutTask → Outcome × Hub env → Outcome × Hub env
  unfolding reassign
  then_reassign m (thrown, h) = (thrown, h)
  then_reassign m (returned, h) = (returned, if has_eid m then reassign m.msg_id m.eid h else h)

  unfoldable pub save_task_result : env.Incoming → Hub env → Outcome × Hub env
  unfolding settle assigned update_record then_reassign
  save_task_result incoming h = with_message env.parse_outtask incoming h λ m.
      elim (env.task_set.find h.tasks m.msg_id) [
        | none ↦ (returned, h)
        | some task ↦ then_reassign m (
            update_record task m.completed m.started incoming
              (settle m.msg_id (assigned m.msg_id h)))
      ]

  unfoldable pub save_task_destination : env.Incoming → Hub env → Outcome × Hub env
  unfolding assigned reassign
  save_task_destination incoming h = with_message env.parse_tracktask incoming h λ m.
      elim (env.task_set.find h.tasks m.msg_id) [
        | none ↦ (returned, h)
        | some task ↦ (returned, reassign m.msg_id m.eid (assigned m.msg_id h))
      ]

  -- One round of the loop of `_handle_stranded_msgs`.
  unfoldable pub strand_one : ℕ → String → Hub env → Hub env
  strand_one now msg_id h =
      let given_up : Hub env = record h {
        pending = erase msg_id h.pending;
        all_completed = insert msg_id h.all_completed;
      } in
      elim (env.task_set.find h.tasks msg_id) [
        | none ↦ given_up
        | some task ↦ record given_up {
          tasks =
              env.task_set.replace
                (record task {
                  content = append "Engine died while running task `" (append msg_id "'");
                  completed = at now;
                })
                h.tasks;
        }
      ]

  -- The loop; each round of it reads `now` from the clock.
  unfoldable pub strand : ℕ → List String → Hub env → Hub env
  unfolding strand_one
  strand now [] h = h
  strand now (msg_id ∷ ids) h = strand now ids (strand_one now msg_id h)

  unfoldable pub handle_stranded : ℕ → ℤ → Hub env → Hub env
  unfolding strand
  handle_stranded now eid h = elim (env.engine_set.find h.engines eid) [
    | none ↦ h
    | some ec ↦ strand now ec.queues h
  ]
