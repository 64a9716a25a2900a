-- ===== src/Hub/Names/Tasks.antt =====
-- What the handlers of tasks leave of the names.
use gpf.Prelude.{ℕ, String, ◌≡◌, refl, List, [], ◌∷◌, inl, inr, arith, Option-cases, ℤ}
use gpf.Hub.State.{Env, Hub, Task, Outcome, returned, thrown, with_message-keeps}
use gpf.Hub.Messages.{OutTask}
use gpf.Hub.Tasks.{
  save_queue_request, save_queue_result, save_task_request, save_task_result, save_task_destination,
  handle_stranded, strand, strand_one, settle, update_record, reassign, assigned, then_reassign,
}
use gpf.Hub.Names.{Names}

module _ {env : Env} where
  -- The state of the engines and the log of what was sent are what they were.
  abbrev pub SameEngines : Hub env → Hub env → Type 0
  SameEngines h h' =
      (h'.engines ≡ h.engines)
      × (h'.incoming_registrations ≡ h.incoming_registrations)
      × (h'.next_id ≡ h.next_id)
      × (h'.sent ≡ h.sent)

  pub Names-same : (h h' : Hub env) → SameEngines h h' → Names env h → Names env h'
  Names-same h h' same v = rw (same.0, same.1, same.2) v

  pub same-save_queue_request :
      (incoming : env.Incoming) (h : Hub env) → SameEngines h (save_queue_request incoming h).1
  unfolding save_queue_request
  same-save_queue_request incoming h = ground arith

  pub same-save_task_request :
      (incoming : env.Incoming) (h : Hub env) → SameEngines h (save_task_request incoming h).1
  unfolding save_task_request
  same-save_task_request incoming h = ground arith

  same-update_record :
      (task : Task env.Incoming) (c s : String) (incoming : env.Incoming) (h : Hub env)
      → SameEngines h (update_record task c s incoming h).1
  unfolding update_record
  same-update_record task c s incoming h = ground arith

  same-settle : (id : String) (h : Hub env) → SameEngines h (settle id h)
  unfolding settle
  same-settle id h = ground arith

  same-assigned : (id : String) (h : Hub env) → SameEngines h (assigned id h)
  unfolding assigned
  same-assigned id h = ground arith

  same-reassign : (id : String) (eid : ℤ) (h : Hub env) → SameEngines h (reassign id eid h)
  unfolding reassign
  same-reassign id eid h = ground arith

  same-then_reassign : (m : OutTask) (r : Outcome × Hub env) → SameEngines r.1 (then_reassign m r).1
  unfolding then_reassign
  same-then_reassign m (thrown, h) = (refl, refl, refl, refl)
  same-then_reassign m (returned, h) = same-reassign m.msg_id m.eid h

  same_trans : (h₁ h₂ h₃ : Hub env) → SameEngines h₁ h₂ → SameEngines h₂ h₃ → SameEngines h₁ h₃
  same_trans h₁ h₂ h₃ p q = (cc (p.0, q.0), cc (p.1, q.1), cc (p.2, q.2), cc (p.3, q.3))

  same-strand_one : (now : ℕ) (id : String) (h : Hub env) → SameEngines h (strand_one now id h)
  unfolding strand_one
  same-strand_one now id h = ground arith

  same-strand : (now : ℕ) (ids : List String) (h : Hub env) → SameEngines h (strand now ids h)
  unfolding strand
  same-strand now [] h = (refl, refl, refl, refl)
  same-strand now (id ∷ ids) h =
      same_trans h (strand_one now id h) (strand now ids (strand_one now id h))
        (same-strand_one now id h) (same-strand now ids (strand_one now id h))

  pub same-handle_stranded :
      (now : ℕ) (eid : ℤ) (h : Hub env) → SameEngines h (handle_stranded now eid h)
  unfolding handle_stranded
  same-handle_stranded now eid h = elim (Option-cases (env.engine_set.find h.engines eid)) [
    | inl e ↦ rw (e, handle_stranded) (refl, refl, refl, refl)
    | inr (ec, e) ↦ rw (e, handle_stranded) (same-strand now ec.queues h)
  ]

  pub Names-save_queue_request :
      (incoming : env.Incoming) (h : Hub env)
      → Names env h
      → Names env (save_queue_request incoming h).1
  Names-save_queue_request incoming h v =
      Names-same h (save_queue_request incoming h).1 (same-save_queue_request incoming h) v

  pub Names-save_task_request :
      (incoming : env.Incoming) (h : Hub env)
      → Names env h
      → Names env (save_task_request incoming h).1
  Names-save_task_request incoming h v =
      Names-same h (save_task_request incoming h).1 (same-save_task_request incoming h) v

  pub same-save_queue_result :
      (incoming : env.Incoming) (h : Hub env) → SameEngines h (save_queue_result incoming h).1
  unfolding save_queue_result
  same-save_queue_result incoming h =
      with_message-keeps (SameEngines h) env.parse_out incoming h _ (refl, refl, refl, refl)
        λ m. elim (Option-cases (env.task_set.find h.tasks m.msg_id)) [
          | inl e ↦ rw e (refl, refl, refl, refl)
          | inr (task, e) ↦ rw e (
              same_trans h (settle m.msg_id h)
                (update_record task m.completed m.started incoming (settle m.msg_id h)).1
                (same-settle m.msg_id h)
                (same-update_record task m.completed m.started incoming (settle m.msg_id h)))
        ]

  pub same-save_task_result :
      (incoming : env.Incoming) (h : Hub env) → SameEngines h (save_task_result incoming h).1
  unfolding save_task_result
  same-save_task_result incoming h =
      with_message-keeps (SameEngines h) env.parse_outtask incoming h _ (refl, refl, refl, refl)
        λ m. elim (Option-cases (env.task_set.find h.tasks m.msg_id)) [
          | inl e ↦ rw e (refl, refl, refl, refl)
          | inr (task, e) ↦
              let h₁ : Hub env = assigned m.msg_id h in
              let h₂ : Hub env = settle m.msg_id h₁ in
              let r : Outcome × Hub env = update_record task m.completed m.started incoming h₂ in
              rw e (
                same_trans h h₁ (then_reassign m r).1 (same-assigned m.msg_id h) (
                  same_trans h₁ h₂ (then_reassign m r).1 (same-settle m.msg_id h₁) (
                    same_trans h₂ r.1 (then_reassign m r).1
                      (same-update_record task m.completed m.started incoming h₂)
                      (same-then_reassign m r))))
        ]

  pub same-save_task_destination :
      (incoming : env.Incoming) (h : Hub env) → SameEngines h (save_task_destination incoming h).1
  unfolding save_task_destination
  same-save_task_destination incoming h =
      with_message-keeps (SameEngines h) env.parse_tracktask incoming h _ (refl, refl, refl, refl)
        λ m. elim (Option-cases (env.task_set.find h.tasks m.msg_id)) [
          | inl e ↦ rw e (refl, refl, refl, refl)
          | inr (task, e) ↦ rw e (
              same_trans h (assigned m.msg_id h) (reassign m.msg_id m.eid (assigned m.msg_id h))
                (same-assigned m.msg_id h) (same-reassign m.msg_id m.eid (assigned m.msg_id h)))
        ]

  pub Names-save_queue_result :
      (incoming : env.Incoming) (h : Hub env)
      → Names env h
      → Names env (save_queue_result incoming h).1
  Names-save_queue_result incoming h v =
      Names-same h (save_queue_result incoming h).1 (same-save_queue_result incoming h) v

  pub Names-save_task_result :
      (incoming : env.Incoming) (h : Hub env)
      → Names env h
      → Names env (save_task_result incoming h).1
  Names-save_task_result incoming h v =
      Names-same h (save_task_result incoming h).1 (same-save_task_result incoming h) v

  pub Names-save_task_destination :
      (incoming : env.Incoming) (h : Hub env)
      → Names env h
      → Names env (save_task_destination incoming h).1
  Names-save_task_destination incoming h v =
      Names-same h (save_task_destination incoming h).1 (same-save_task_destination incoming h) v

  pub Names-handle_stranded :
      (now : ℕ) (eid : ℤ) (h : Hub env) → Names env h → Names env (handle_stranded now eid h)
  Names-handle_stranded now eid h v =
      Names-same h (handle_stranded now eid h) (same-handle_stranded now eid h) v
