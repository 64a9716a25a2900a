-- ===== src/Hub/Tasks/Tracking.antt =====
-- The invariant that every pending message has its record.
use gpf.Prelude.{
  ℕ, String, true, false, ◌≡◌, List, [], ◌∷◌, ℤ, arith, inl, inr, Option-cases, Bool-cases, eq_iff,
  is_some,
}
use gpf.StringSet.{StringSet, contains, insert, erase, contains-insert, contains-erase}
use gpf.Hub.Messages.{OutTask}
use gpf.Hub.State.{Env, Hub, Task, Outcome, returned, thrown, with_message-keeps}
use gpf.Hub.Tasks.{
  new_task, eid_or_minus_one, save_queue_request, save_task_request, settle, update_record,
  save_queue_result, save_task_result, save_task_destination, then_reassign, reassign, assigned,
  strand, strand_one, handle_stranded,
}

module _ (env : Env) where
  -- Every pending message has a record.
  abbrev pub TrackedBy : StringSet → env.task_set.Rows → Type 0
  TrackedBy pending tasks =
      (id : String) → contains pending id ≡ true → is_some (env.task_set.find tasks id) ≡ true

  TrackedBy-add :
      (p : StringSet) (t : env.task_set.Rows) (r : Task env.Incoming)
      → TrackedBy p t
      → TrackedBy (insert r.id p) (env.task_set.insert r t)
  TrackedBy-add p t r v id e =
      ground
        (arith, contains-insert r.id id p, env.task_set.find-insert r t id, v id, eq_iff r.id id)

  TrackedBy-less :
      (p : StringSet) (t : env.task_set.Rows) (x : String) → TrackedBy p t → TrackedBy (erase x p) t
  TrackedBy-less p t x v id e = ground (arith, contains-erase x id p, v id)

  TrackedBy-replace :
      (p : StringSet) (t : env.task_set.Rows) (r : Task env.Incoming)
      → TrackedBy p t
      → TrackedBy p (env.task_set.replace r t)
  TrackedBy-replace p t r v id e = ground (arith, env.task_set.find-replace r t id, v id)

  pub TrackedBy-purge :
      (p : StringSet) (t : env.task_set.Rows) (x : String)
      → contains p x ≡ false
      → TrackedBy p t
      → TrackedBy p (env.task_set.erase x t)
  TrackedBy-purge p t x free v id e =
      ground (arith, env.task_set.find-erase x t id, v id, eq_iff x id, free)

  abbrev pub Tracked : Hub env → Type 0
  Tracked h = TrackedBy h.pending h.tasks

module _ {env : Env} where
  Tracked-settle : (id : String) (h : Hub env) → Tracked env h → Tracked env (settle id h)
  unfolding settle
  Tracked-settle id h v = elim (Bool-cases (contains h.pending id)) [
    | inl e ↦ rw e (TrackedBy-less env h.pending h.tasks id v)
    | inr e ↦ rw e v
  ]

  Tracked-assigned : (id : String) (h : Hub env) → Tracked env h → Tracked env (assigned id h)
  unfolding assigned
  Tracked-assigned id h v = elim (Bool-cases (contains h.unassigned id)) [
    | inl e ↦ rw e v
    | inr e ↦ rw e v
  ]

  Tracked-update_record :
      (task : Task env.Incoming) (c s : String) (incoming : env.Incoming) (h : Hub env)
      → Tracked env h
      → Tracked env (update_record task c s incoming h).1
  unfolding update_record
  Tracked-update_record task c s incoming h v = elim (Option-cases (env.from_iso_string c)) [
    | inl e ↦ rw (update_record, e) v
    | inr (ct, e) ↦
        let v' = TrackedBy-replace env h.pending h.tasks (record task { completed = ct }) v in
        elim (Option-cases (env.from_iso_string s)) [
          | inl d ↦ rw (update_record, e, d) v'
          | inr (st, d) ↦ rw (update_record, e, d) (TrackedBy-replace env h.pending _ _ v')
        ]
  ]

  Tracked-reassign :
      (id : String) (eid : ℤ) (h : Hub env) → Tracked env h → Tracked env (reassign id eid h)
  unfolding reassign
  Tracked-reassign id eid h v x e = elim (Option-cases (env.task_set.find h.tasks id)) [
    | inl d ↦ ground (arith, d, e, v x)
    | inr (task, d) ↦
        ground (
          arith,
          d,
          e,
          v x,
          env.task_set.find-replace (record task { engine_uuid = eid }) h.tasks x,
        )
  ]

  Tracked-then_reassign :
      (m : OutTask) (r : Outcome × Hub env) → Tracked env r.1 → Tracked env (then_reassign m r).1
  unfolding then_reassign
  Tracked-then_reassign m (thrown, h) v = v
  Tracked-then_reassign m (returned, h) v = Tracked-reassign m.msg_id m.eid h v

  pub Tracked-save_queue_request :
      (incoming : env.Incoming) (h : Hub env)
      → Tracked env h
      → Tracked env (save_queue_request incoming h).1
  unfolding save_queue_request
  Tracked-save_queue_request incoming h v =
      with_message-keeps (Tracked env) env.parse_in incoming h _ v λ m.
        elim (Option-cases (env.from_iso_string m.submitted)) [
          | inl e ↦ rw e v
          | inr (t, e) ↦
              rw e
                (TrackedBy-add env h.pending h.tasks (new_task m.msg_id m.eid "mux" t incoming) v)
        ]

  pub Tracked-save_task_request :
      (incoming : env.Incoming) (h : Hub env)
      → Tracked env h
      → Tracked env (save_task_request incoming h).1
  unfolding save_task_request
  Tracked-save_task_request incoming h v =
      with_message-keeps (Tracked env) env.parse_intask incoming h _ v λ m.
        elim (Option-cases (env.from_iso_string m.submitted)) [
          | inl e ↦ rw e v
          | inr (t, e) ↦ rw e (
              TrackedBy-add env h.pending h.tasks
                (new_task m.msg_id (eid_or_minus_one m.eid) "task" t incoming) v)
        ]

  pub Tracked-save_queue_result :
      (incoming : env.Incoming) (h : Hub env)
      → Tracked env h
      → Tracked env (save_queue_result incoming h).1
  unfolding save_queue_result
  Tracked-save_queue_result incoming h v =
      with_message-keeps (Tracked env) env.parse_out incoming h _ v λ m.
        elim (Option-cases (env.task_set.find h.tasks m.msg_id)) [
          | inl e ↦ rw e v
          | inr (task, e) ↦ rw e (
              Tracked-update_record task m.completed m.started incoming (settle m.msg_id h)
                (Tracked-settle m.msg_id h v))
        ]

  pub Tracked-save_task_result :
      (incoming : env.Incoming) (h : Hub env)
      → Tracked env h
      → Tracked env (save_task_result incoming h).1
  unfolding save_task_result
  Tracked-save_task_result incoming h v =
      with_message-keeps (Tracked env) env.parse_outtask incoming h _ v λ m.
        elim (Option-cases (env.task_set.find h.tasks m.msg_id)) [
          | inl e ↦ rw e v
          | inr (task, e) ↦
              let h₁ : Hub env = assigned m.msg_id h in
              let h₂ : Hub env = settle m.msg_id h₁ in
              rw e (
                Tracked-then_reassign m (update_record task m.completed m.started incoming h₂) (
                  Tracked-update_record task m.completed m.started incoming h₂
                    (Tracked-settle m.msg_id h₁ (Tracked-assigned m.msg_id h v))))
        ]

  pub Tracked-save_task_destination :
      (incoming : env.Incoming) (h : Hub env)
      → Tracked env h
      → Tracked env (save_task_destination incoming h).1
  unfolding save_task_destination
  Tracked-save_task_destination incoming h v =
      with_message-keeps (Tracked env) env.parse_tracktask incoming h _ v λ m.
        elim (Option-cases (env.task_set.find h.tasks m.msg_id)) [
          | inl e ↦ rw e v
          | inr (task, e) ↦ rw e (
              Tracked-reassign m.msg_id m.eid (assigned m.msg_id h) (Tracked-assigned m.msg_id h v))
        ]

  Tracked-strand_one :
      (now : ℕ) (id : String) (h : Hub env) → Tracked env h → Tracked env (strand_one now id h)
  unfolding strand_one
  Tracked-strand_one now id h v = elim (Option-cases (env.task_set.find h.tasks id)) [
    | inl e ↦ rw (strand_one, e) (TrackedBy-less env h.pending h.tasks id v)
    | inr (task, e) ↦
        rw (strand_one, e)
          (TrackedBy-replace env (erase id h.pending) h.tasks _
            (TrackedBy-less env h.pending h.tasks id v))
  ]

  Tracked-strand :
      (now : ℕ) (ids : List String) (h : Hub env) → Tracked env h → Tracked env (strand now ids h)
  unfolding strand
  Tracked-strand now [] h v = v
  Tracked-strand now (id ∷ ids) h v =
      Tracked-strand now ids (strand_one now id h) (Tracked-strand_one now id h v)

  pub Tracked-handle_stranded :
      (now : ℕ) (eid : ℤ) (h : Hub env) → Tracked env h → Tracked env (handle_stranded now eid h)
  unfolding handle_stranded
  Tracked-handle_stranded now eid h v = elim (Option-cases (env.engine_set.find h.engines eid)) [
    | inl e ↦ rw (handle_stranded, e) v
    | inr (ec, e) ↦ rw (handle_stranded, e) (Tracked-strand now ec.queues h v)
  ]
