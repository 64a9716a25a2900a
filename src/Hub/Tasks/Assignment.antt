-- ===== src/Hub/Tasks/Assignment.antt =====
-- What the report of a task's result does, which also says on which engine the task ran.
use gpf.Prelude.{
  String, not, ◌&&◌, ◌||◌, ◌≡◌, refl, ap, ◌∙◌, some, ℤ, arith, inl, inr, Bool-cases, ◌==◌, eq_iff,
  eq_refl, if◌then◌else◌, int_eq,
}
use gpf.StringSet.{contains, contains-erase}
use gpf.Hub.Messages.{OutTask}
use gpf.Hub.State.{Env, Hub, Task, Ptime, Outcome, returned, thrown, with_message-eq}
use gpf.Hub.Tasks.{settle, update_record, save_task_result, then_reassign, reassign, assigned}
use gpf.Hub.Tasks.Results.{finished, settle-sets, update_record-read}

module _ {env : Env} where
  -- A task that is known names its engine after a reassignment, and nothing else has changed.
  pub reassign-find :
      (id : String) (eid : ℤ) (h : Hub env) (task : Task env.Incoming)
      → env.task_set.find h.tasks id ≡ some task
      → (j : String)
      → (env.task_set.find (reassign id eid h).tasks j ≡ (
          if id == j
          then some (record task { engine_uuid = eid })
          else env.task_set.find h.tasks j))
        × ((reassign id eid h).pending ≡ h.pending)
        × ((reassign id eid h).all_completed ≡ h.all_completed)
        × ((reassign id eid h).unassigned ≡ h.unassigned)
  unfolding reassign
  reassign-find id eid h task known j =
      rw (reassign, known)
        (ground (
          arith,
          known,
          env.task_set.find-key h.tasks id task known,
          env.task_set.find-replace (record task { engine_uuid = eid }) h.tasks j,
          int_eq.beq_iff eid task.engine_uuid,
          eq_iff id j,
        ))

  pub assigned-sets :
      (id j : String) (h : Hub env)
      → contains (assigned id h).unassigned j ≡ (contains h.unassigned j && not (j == id))
  unfolding assigned
  assigned-sets id j h = elim (Bool-cases (contains h.unassigned id)) [
    | inl e ↦ rw (e, contains-erase id j h.unassigned) refl
    | inr e ↦ rw e (ground (arith, e, eq_iff j id))
  ]

  assigned-rest :
      (id : String) (h : Hub env)
      → ((assigned id h).tasks ≡ h.tasks)
        × ((assigned id h).pending ≡ h.pending)
        × ((assigned id h).all_completed ≡ h.all_completed)
  unfolding assigned
  assigned-rest id h = ground arith

  then_reassign-returned :
      (m : OutTask) (r : Outcome × Hub env)
      → r.0 ≡ returned
      → then_reassign m r ≡ (returned, reassign m.msg_id m.eid r.1)
  unfolding then_reassign
  then_reassign-returned m (returned, h) e = refl
  then_reassign-returned m (thrown, h) e = cc

  settle-rest :
      (id : String) (h : Hub env)
      → ((settle id h).tasks ≡ h.tasks) × ((settle id h).unassigned ≡ h.unassigned)
  unfolding settle
  settle-rest id h = ground arith

module _ {env : Env} (incoming : env.Incoming) (h : Hub env) (bytes : String) (m : OutTask)
    (task : Task env.Incoming) (frame : env.header incoming ≡ some bytes)
    (parsed : env.parse_outtask bytes ≡ some m)
    (known : env.task_set.find h.tasks m.msg_id ≡ some task) where
  abbrev settled : Hub env
  settled = settle m.msg_id (assigned m.msg_id h)

  save_task_result-eq :
      save_task_result incoming h
      ≡ then_reassign m (update_record task m.completed m.started incoming settled)
  unfolding save_task_result
  save_task_result-eq =
      rw (with_message-eq env.parse_outtask incoming h _ bytes m frame parsed, known) refl

  settled-tasks : settled.tasks ≡ h.tasks
  settled-tasks = (settle-rest m.msg_id (assigned m.msg_id h)).0 ∙ (assigned-rest m.msg_id h).0

  settled-sets :
      (j : String)
      → (contains settled.pending j ≡ (contains h.pending j && not (j == m.msg_id)))
        × (contains settled.all_completed j
            ≡ (contains h.all_completed j || (contains h.pending m.msg_id && m.msg_id == j)))
        × (contains settled.unassigned j ≡ (contains h.unassigned j && not (j == m.msg_id)))
  settled-sets j =
      let rest = assigned-rest m.msg_id h in
      let moved = settle-sets m.msg_id j (assigned m.msg_id h) in
      (
        moved.0 ∙ ap (λ p. contains p j && not (j == m.msg_id)) rest.1,
        ground
            (arith, moved.1, ap (λ p. contains p j) rest.2, ap (λ p. contains p m.msg_id) rest.1),
        ap (λ p. contains p j) (settle-rest m.msg_id (assigned m.msg_id h)).1
            ∙ assigned-sets m.msg_id j h,
      )

  -- The report of a task's result whose task is known and whose times are read: the record of that
  -- task, and no other, gets the times, the reply and the engine of the report; the task is assigned;
  -- and it goes from the pending ones to the completed ones, if it was pending.
  pub save_task_result-read :
      (c s : Ptime)
      → env.from_iso_string m.completed ≡ some c
      → env.from_iso_string m.started ≡ some s
      → (j : String)
      → let r = save_task_result incoming h in
        (r.0 ≡ returned)
        × (env.task_set.find r.1.tasks j ≡ (
            if m.msg_id == j
            then some (record (finished task c s incoming) { engine_uuid = m.eid })
            else env.task_set.find h.tasks j))
        × (contains r.1.pending j ≡ (contains h.pending j && not (j == m.msg_id)))
        × (contains r.1.all_completed j
            ≡ (contains h.all_completed j || (contains h.pending m.msg_id && m.msg_id == j)))
        × (contains r.1.unassigned j ≡ (contains h.unassigned j && not (j == m.msg_id)))
  save_task_result-read c s ec es j =
      let id : task.id ≡ m.msg_id = env.task_set.find-key h.tasks m.msg_id task known in
      let updated : Outcome × Hub env = update_record task m.completed m.started incoming settled in
      let there : env.task_set.find settled.tasks task.id ≡ some task =
        ap (λ t. env.task_set.find t task.id) settled-tasks
        ∙ ap (env.task_set.find h.tasks) id
        ∙ known in
      let u = update_record-read task m.completed m.started c s incoming settled ec es there in
      let v =
        reassign-find m.msg_id m.eid updated.1 (finished task c s incoming)
          (ground (arith, (u m.msg_id).1, id, eq_refl m.msg_id)) j in
      let sets = settled-sets j in
      rw (save_task_result-eq, then_reassign-returned m updated (u j).0)
        (
          refl,
          ground (arith, v.0, (u j).1, id, settled-tasks),
          ap (λ p. contains p j) (v.1 ∙ (u j).2) ∙ sets.0,
          ap (λ p. contains p j) (v.2 ∙ (u j).3) ∙ sets.1,
          ap (λ p. contains p j) (v.3 ∙ (u j).4) ∙ sets.2,
        )
