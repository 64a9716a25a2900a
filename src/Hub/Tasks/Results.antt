-- ===== src/Hub/Tasks/Results.antt =====
-- What the report of a queue's result does.
use gpf.Prelude.{
  String, true, false, not, ◌&&◌, ◌||◌, ◌≡◌, refl, ap, ◌∙◌, none, some, arith, inl, inr, Bool-cases,
  ◌==◌, eq_iff, eq_refl, if◌then◌else◌,
}
use gpf.StringSet.{contains, contains-insert, contains-erase}
use gpf.Hub.Messages.{Out}
use gpf.Hub.State.{Env, Hub, Task, Ptime, returned, thrown, with_message-eq}
use gpf.Hub.Tasks.{settle, update_record, save_queue_result}

-- The record of a task after a result whose two times are read.
abbrev pub finished : {I : Type 0} → Task I → Ptime → Ptime → I → Task I
finished task c s incoming = record task {
  completed = c;
  started = s;
  outgoing_msg = some incoming;
}

module _ {env : Env} where
  -- `h'` is `h` with one message moved from the pending ones to the completed ones, if it was pending.
  pub settle-sets :
      (id j : String) (h : Hub env)
      → (contains (settle id h).pending j ≡ (contains h.pending j && not (j == id)))
        × (contains (settle id h).all_completed j
            ≡ (contains h.all_completed j || (contains h.pending id && id == j)))
  unfolding settle
  settle-sets id j h = elim (Bool-cases (contains h.pending id)) [
    | inl e ↦
        rw (e, contains-erase id j h.pending, contains-insert id j h.all_completed)
          (ground (arith, e))
    | inr e ↦ rw e (ground (arith, e, eq_iff j id))
  ]

  -- Both times are read: the record of this task, and no other, is finished.
  pub update_record-read :
      (task : Task env.Incoming) (completed started : String) (c s : Ptime)
      (incoming : env.Incoming) (h : Hub env)
      → env.from_iso_string completed ≡ some c
      → env.from_iso_string started ≡ some s
      → env.task_set.find h.tasks task.id ≡ some task
      → (j : String)
      → let r = update_record task completed started incoming h in
        (r.0 ≡ returned)
        × (env.task_set.find r.1.tasks j ≡ (
            if task.id == j
            then some (finished task c s incoming)
            else env.task_set.find h.tasks j))
        × (r.1.pending ≡ h.pending)
        × (r.1.all_completed ≡ h.all_completed)
        × (r.1.unassigned ≡ h.unassigned)
  unfolding update_record
  update_record-read task completed started c s incoming h ec es found j =
      rw (update_record, ec, es)
        (
          refl,
          ground (
            arith,
            found,
            env.task_set.find-replace (record task { completed = c }) h.tasks j,
            env.task_set.find-replace (record task { completed = c }) h.tasks task.id,
            env.task_set.find-replace (finished task c s incoming)
                (env.task_set.replace (record task { completed = c }) h.tasks) j,
            eq_refl task.id,
          ),
          refl,
          refl,
          refl,
        )

  -- A time of completion that cannot be read: an exception, and no record is touched.
  pub update_record-unread :
      (task : Task env.Incoming) (completed started : String) (incoming : env.Incoming)
      (h : Hub env)
      → env.from_iso_string completed ≡ none
      → update_record task completed started incoming h ≡ (thrown, h)
  unfolding update_record
  update_record-unread task completed started incoming h e = rw (update_record, e) refl

module _ {env : Env} (incoming : env.Incoming) (h : Hub env) (bytes : String) (m : Out)
    (task : Task env.Incoming) (frame : env.header incoming ≡ some bytes)
    (parsed : env.parse_out bytes ≡ some m)
    (known : env.task_set.find h.tasks m.msg_id ≡ some task) where
  save_queue_result-eq :
      save_queue_result incoming h
      ≡ update_record task m.completed m.started incoming (settle m.msg_id h)
  unfolding save_queue_result
  save_queue_result-eq =
      rw (with_message-eq env.parse_out incoming h _ bytes m frame parsed, known) refl

  same_tasks : (settle m.msg_id h).tasks ≡ h.tasks
  unfolding settle
  same_tasks = ground arith

  same_unassigned : (settle m.msg_id h).unassigned ≡ h.unassigned
  unfolding settle
  same_unassigned = ground arith

  -- The report of a result whose task is known and whose times are read: the record of that task, and
  -- no other, gets the times and the reply; the message goes from the pending ones to the completed
  -- ones, if it was pending, and no other message moves.
  pub save_queue_result-read :
      (c s : Ptime)
      → env.from_iso_string m.completed ≡ some c
      → env.from_iso_string m.started ≡ some s
      → (j : String)
      → let r = save_queue_result incoming h in
        (r.0 ≡ returned)
        × (env.task_set.find r.1.tasks j ≡ (
            if m.msg_id == j
            then some (finished task c s incoming)
            else env.task_set.find h.tasks j))
        × (contains r.1.pending j ≡ (contains h.pending j && not (j == m.msg_id)))
        × (contains r.1.all_completed j
            ≡ (contains h.all_completed j || (contains h.pending m.msg_id && m.msg_id == j)))
        × (r.1.unassigned ≡ h.unassigned)
  save_queue_result-read c s ec es j =
      let id : task.id ≡ m.msg_id = env.task_set.find-key h.tasks m.msg_id task known in
      let moved = settle-sets m.msg_id j h in
      let r =
        update_record-read task m.completed m.started c s incoming (settle m.msg_id h) ec es
          (ap (λ t. env.task_set.find t task.id) same_tasks
            ∙ ap (env.task_set.find h.tasks) id
            ∙ known)
          j in
      rw save_queue_result-eq (
        r.0,
        ground (arith, r.1, id, same_tasks),
        ground (arith, ap (λ p. contains p j) r.2, moved.0),
        ground (arith, ap (λ p. contains p j) r.3, moved.1),
        r.4 ∙ same_unassigned,
      )

  -- The report of a result whose task is known and pending, with a time of completion that cannot be
  -- read: an exception leaves the hub, no
  -- record is touched, and yet the message has left the pending ones for the completed ones.
  pub save_queue_result-unread :
      env.from_iso_string m.completed ≡ none
      → contains h.pending m.msg_id ≡ true
      → let r = save_queue_result incoming h in
        (r.0 ≡ thrown)
        × (r.1.tasks ≡ h.tasks)
        × (contains r.1.pending m.msg_id ≡ false)
        × (contains r.1.all_completed m.msg_id ≡ true)
  save_queue_result-unread e waits =
      let moved = settle-sets m.msg_id m.msg_id h in
      rw
        (
          save_queue_result-eq,
          update_record-unread task m.completed m.started incoming (settle m.msg_id h) e,
        )
        (
          refl,
          same_tasks,
          ground (arith, moved.0, eq_refl m.msg_id),
          ground (arith, moved.1, waits, eq_refl m.msg_id),
        )
