-- ===== src/Hub/Tasks/Stranded.antt =====
-- What `_handle_stranded_msgs` does for an engine with messages on its list.
use Prim.Native.String.{◌++◌ as append}
use gpf.Prelude.{
  ℕ, String, false, ◌==◌, ◌&&◌, ◌||◌, not, ◌≡◌, ◌⊎◌, refl, subst, ◌∙◌, ap, Option, none, some, List,
  [], ◌∷◌, ℤ, arith, inl, inr, eq_iff, Option-cases, Bool-cases, if◌then◌else◌,
}
use gpf.StringSet.{contains, insert, erase, contains-insert, contains-erase}
use gpf.Hub.State.{Env, Hub, Task, EngineConnector, at}
use gpf.Hub.Names.Tasks.{same-handle_stranded}
use gpf.Hub.Tasks.{strand_one, strand, handle_stranded}

-- The record of a message that is given up.
abbrev pub abandoned : {I : Type 0} → ℕ → Option (Task I) → Option (Task I)
abandoned now none = none
abandoned now (some task) = some (record task {
  content = append "Engine died while running task `" (append task.id "'");
  completed = at now;
})

abandoned-twice :
    {I : Type 0} (now : ℕ) (o : Option (Task I)) → abandoned now (abandoned now o) ≡ abandoned now o
abandoned-twice now none = refl
abandoned-twice now (some task) = refl

module _ {env : Env} where
  -- `h'` is `h` with the messages of the list given up.
  abbrev pub GivenUp : ℕ → List String → Hub env → Hub env → Type 0
  GivenUp now ids h h' =
      (id : String)
      → (contains h'.pending id ≡ (contains h.pending id && not (contains ids id)))
        × (contains h'.all_completed id ≡ (contains h.all_completed id || contains ids id))
        × (env.task_set.find h'.tasks id ≡ (
            if contains ids id
            then abandoned now (env.task_set.find h.tasks id)
            else env.task_set.find h.tasks id))

  -- The message of a round, and the others.
  strand_one-sets :
      (now : ℕ) (x : String) (h : Hub env) (id : String)
      → (contains (strand_one now x h).pending id ≡ (contains h.pending id && not (x == id)))
        × (contains (strand_one now x h).all_completed id
            ≡ (contains h.all_completed id || x == id))
  unfolding strand_one
  strand_one-sets now x h id =
      let pending : contains (erase x h.pending) id ≡ (contains h.pending id && not (x == id)) =
        ground (arith, contains-erase x id h.pending, eq_iff x id, eq_iff id x) in
      let completed : contains (insert x h.all_completed) id
          ≡ (contains h.all_completed id || x == id) =
        ground (arith, contains-insert x id h.all_completed) in
      elim (Option-cases (env.task_set.find h.tasks x)) [
        | inl e ↦ rw (e, strand_one) (pending, completed)
        | inr (task, e) ↦ rw (e, strand_one) (pending, completed)
      ]

  strand_one-tasks :
      (now : ℕ) (x : String) (h : Hub env) (id : String)
      → env.task_set.find (strand_one now x h).tasks id ≡ (
          if x == id
          then abandoned now (env.task_set.find h.tasks id)
          else env.task_set.find h.tasks id)
  unfolding strand_one
  strand_one-tasks now x h id = elim (Bool-cases (x == id)) [
    | inl same ↦
        subst
          (λ y. env.task_set.find (strand_one now x h).tasks y ≡ (
            if x == id
            then abandoned now (env.task_set.find h.tasks y)
            else env.task_set.find h.tasks y))
          ((eq_iff x id).0 same) (rw same (own (Option-cases (env.task_set.find h.tasks x))))
    | inr other ↦ rw other (others (Option-cases (env.task_set.find h.tasks x)) other)
  ]
    where
      own :
          (env.task_set.find h.tasks x ≡ none)
            ⊎ ((t : Task env.Incoming) × (env.task_set.find h.tasks x ≡ some t))
          → env.task_set.find (strand_one now x h).tasks x
            ≡ abandoned now (env.task_set.find h.tasks x)
      own (inl e) = rw (e, strand_one) e
      own (inr (task, e)) =
          let key = env.task_set.find-key h.tasks x task e in
          rw (e, strand_one)
            (env.task_set.find-replace
                (record task {
                  content = append "Engine died while running task `" (append x "'");
                  completed = at now;
                })
                h.tasks x
              ∙ ground (arith, key, e, eq_iff task.id x))

      others :
          (env.task_set.find h.tasks x ≡ none)
            ⊎ ((t : Task env.Incoming) × (env.task_set.find h.tasks x ≡ some t))
          → (x == id) ≡ false
          → env.task_set.find (strand_one now x h).tasks id ≡ env.task_set.find h.tasks id
      others (inl e) other = rw (e, strand_one) refl
      others (inr (task, e)) other =
          let key = env.task_set.find-key h.tasks x task e in
          rw (e, strand_one)
            (env.task_set.find-replace
                (record task {
                  content = append "Engine died while running task `" (append x "'");
                  completed = at now;
                })
                h.tasks id
              ∙ ground (arith, key, e, other, eq_iff task.id id, eq_iff x id))

  strand-GivenUp :
      (now : ℕ) (ids : List String) (h : Hub env) → GivenUp now ids h (strand now ids h)
  unfolding strand contains
  strand-GivenUp now [] h id = (ground arith, ground arith, refl)
  strand-GivenUp now (x ∷ ids) h id =
      let h₁ : Hub env = strand_one now x h in
      let rest = strand-GivenUp now ids h₁ id in
      let sets = strand_one-sets now x h id in
      (
        ground (arith, rest.0, sets.0),
        ground (arith, rest.1, sets.1),
        rest.2 ∙ elim (Bool-cases (x == id)) [
          | inl same ↦ elim (Bool-cases (contains ids id)) [
            | inl again ↦
                rw (same, again)
                  (ap (abandoned now) (rw same at (strand_one-tasks now x h id))
                    ∙ abandoned-twice now (env.task_set.find h.tasks id))
            | inr once ↦ rw (same, once) (rw same at (strand_one-tasks now x h id))
          ]
          | inr other ↦ elim (Bool-cases (contains ids id)) [
            | inl again ↦
                rw (other, again) (ap (abandoned now) (rw other at (strand_one-tasks now x h id)))
            | inr never ↦ rw (other, never) (rw other at (strand_one-tasks now x h id))
          ]
        ],
      )

  -- The handler of stranded messages for an engine that is registered: each message on the engine's list,
  -- and no other, is not pending afterwards and is among the completed ones; and its record, if it has
  -- one, names the engine's end as its content, with the message's id, and the reading of the clock as
  -- the time of completion. All other records stay, and so do the engines and what was sent.
  pub handle_stranded-GivenUp :
      (now : ℕ) (eid : ℤ) (ec : EngineConnector env.Incoming) (h : Hub env)
      → env.engine_set.find h.engines eid ≡ some ec
      → let h' = handle_stranded now eid h in
        GivenUp now ec.queues h h' × (h'.engines ≡ h.engines) × (h'.sent ≡ h.sent)
  unfolding handle_stranded
  handle_stranded-GivenUp now eid ec h e =
      let same = same-handle_stranded now eid h in
      (rw (e, handle_stranded) (strand-GivenUp now ec.queues h), same.0, same.3)
