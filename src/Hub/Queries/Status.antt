-- ===== src/Hub/Queries/Status.antt =====
-- What a status of an engine lists.
use gpf.Prelude.{
  [], ℕ, zero, suc, ◌+◌, String, Bool, true, false, ◌≡◌, refl, sym, subst, ap, ◌∙◌, none, some,
  List, ◌∷◌, ◌++◌, ℤ, arith, inl, inr, Bool-cases, if◌then◌else◌,
}
use mathlib.Core.List.{append_assoc, append-nil}
use gpf.Prelude.Lists.{All-Member, Member, first, later, length}
use gpf.Hub.Messages.{EngineStatus}
use gpf.Hub.State.{Env, Task, is_not_a_date_time}
use gpf.Hub.Queries.{count_tasks, engine_status, no_status}

module _ {I : Type 0} where
  -- The ids of the tasks without, or with, a time of completion.
  abbrev pub unfinished : List (Task I) → List String
  unfinished [] = []
  unfinished (t ∷ ts) =
      let rest = unfinished ts in if is_not_a_date_time t.completed then t.id ∷ rest else rest

  abbrev pub done : List (Task I) → List String
  done [] = []
  done (t ∷ ts) = let rest = done ts in if is_not_a_date_time t.completed then rest else t.id ∷ rest

  count_tasks-verbose :
      (ts : List (Task I)) (s : EngineStatus) (n : ℕ)
      → count_tasks true ts (s, n) ≡ (
        record s { tasks = s.tasks ++ unfinished ts; completed = s.completed ++ done ts },
        n + length (unfinished ts),
      )
  unfolding count_tasks
  count_tasks-verbose [] s n = ground (arith, append-nil s.tasks, append-nil s.completed)
  count_tasks-verbose (t ∷ ts) s n = elim (Bool-cases (is_not_a_date_time t.completed)) [
    | inl e ↦ rw e (
        ground (
          arith,
          count_tasks-verbose ts (record s { tasks = s.tasks ++ t.id ∷ [] }) (suc n),
          append_assoc s.tasks (t.id ∷ []) (unfinished ts),
        ))
    | inr e ↦ rw e (
        ground (
          arith,
          count_tasks-verbose ts (record s { completed = s.completed ++ t.id ∷ [] }) n,
          append_assoc s.completed (t.id ∷ []) (done ts),
        ))
  ]

  count_tasks-brief :
      (ts : List (Task I)) (s : EngineStatus) (n : ℕ) → count_tasks false ts (s, n) ≡ (s, n)
  unfolding count_tasks
  count_tasks-brief [] s n = refl
  count_tasks-brief (t ∷ ts) s n = count_tasks-brief ts s n

  unfinished-Member :
      (ts : List (Task I)) (t : Task I)
      → Member t ts
      → is_not_a_date_time t.completed ≡ true
      → Member t.id (unfinished ts)
  unfinished-Member [] t m waits = elim m [ ]
  unfinished-Member (x ∷ ts) t (first e) waits =
      rw (ap (λ (y : Task I). is_not_a_date_time y.completed) (sym e) ∙ waits)
        (first (ap (λ (y : Task I). y.id) e))
  unfinished-Member (x ∷ ts) t (later m) waits =
      let rest = unfinished-Member ts t m waits in
      elim (Bool-cases (is_not_a_date_time x.completed)) [
        | inl e ↦ rw e (later rest)
        | inr e ↦ rw e rest
      ]

  Member-unfinished :
      (ts : List (Task I)) (id : String)
      → Member id (unfinished ts)
      → (t : Task I) × Member t ts × (is_not_a_date_time t.completed ≡ true) × (t.id ≡ id)
  Member-unfinished [] id m = elim m [ ]
  Member-unfinished (x ∷ ts) id m = elim (Bool-cases (is_not_a_date_time x.completed)) [
    | inl e ↦ here e (rw e at m) (Member-unfinished ts id)
    | inr e ↦ there (Member-unfinished ts id (rw e at m))
  ]
    where
      there :
          (t : Task I) × Member t ts × (is_not_a_date_time t.completed ≡ true) × (t.id ≡ id)
          → (t : Task I) × Member t (x ∷ ts) × (is_not_a_date_time t.completed ≡ true) × (t.id ≡ id)
      there f = (f.0, later f.1, f.2, f.3)

      here :
          is_not_a_date_time x.completed ≡ true
          → Member id (x.id ∷ unfinished ts)
          → (Member id (unfinished ts)
              → (t : Task I) × Member t ts × (is_not_a_date_time t.completed ≡ true) × (t.id ≡ id))
          → (t : Task I) × Member t (x ∷ ts) × (is_not_a_date_time t.completed ≡ true) × (t.id ≡ id)
      here e (first q) f = (x, first refl, e, sym q)
      here e (later q) f = there (f q)

module _ (env : Env) (tasks : env.task_set.Rows) (eid : ℤ) where
  abbrev on_engine : List (Task env.Incoming)
  on_engine = env.task_set.equal_range (λ t. t.engine_uuid) tasks eid

  -- The status of the engine: its id, and if the request is verbose, the ids of the records that name the
  -- engine, those without a time of completion as tasks and those with one as completed. The tasks are
  -- counted only if they are listed, and the length of the queue is never set.
  abbrev pub told_status : Bool → EngineStatus
  told_status verbose = record {
    eid = some eid;
    queuelen = none;
    taskslen = some (if verbose then length (unfinished on_engine) else 0);
    queues = [];
    completed = if verbose then done on_engine else [];
    tasks = if verbose then unfinished on_engine else [];
  }

  engine_status-verbose : engine_status env true tasks eid ≡ (record no_status {
    eid = some eid;
    taskslen = some (length (unfinished on_engine));
    tasks = unfinished on_engine;
    completed = done on_engine;
  })
  unfolding engine_status
  engine_status-verbose =
      ap (λ (sc : EngineStatus × ℕ). record sc.0 { eid = some eid; taskslen = some sc.1 })
        (count_tasks-verbose on_engine no_status zero
          ∙ ap
              (λ n.
                (record no_status { tasks = unfinished on_engine; completed = done on_engine }, n))
              (omega arith))

  engine_status-not_verbose :
      engine_status env false tasks eid ≡ (record no_status { eid = some eid; taskslen = some 0 })
  unfolding engine_status
  engine_status-not_verbose =
      ap (λ (sc : EngineStatus × ℕ). record sc.0 { eid = some eid; taskslen = some sc.1 })
        (count_tasks-brief on_engine no_status zero)

  -- The tasks that a verbose status of an engine lists as tasks are exactly the ids of the records
  -- that name this engine and have no time of completion, and `taskslen` is their number.
  pub engine_status-tasks :
      (id : String)
      → let s = engine_status env true tasks eid in
        (Member id s.tasks
          → (t : Task env.Incoming) × (env.task_set.find tasks id ≡ some t)
            × (t.engine_uuid ≡ eid)
            × (is_not_a_date_time t.completed ≡ true))
        × ((t : Task env.Incoming)
            → env.task_set.find tasks id ≡ some t
            → t.engine_uuid ≡ eid
            → is_not_a_date_time t.completed ≡ true
            → Member id s.tasks)
        × (s.taskslen ≡ some (length s.tasks))
        × (s.eid ≡ some eid)
  engine_status-tasks id = rw engine_status-verbose (
    (λ m.
        let f = Member-unfinished on_engine id m in
        let q =
          All-Member _ on_engine f.0 (env.task_set.range-sound (λ t. t.engine_uuid) tasks eid)
            f.1 in
        (f.0, rw f.3 at q.1, q.0, f.2)),
    (λ t e named waits.
        subst (λ x. Member x (unfinished on_engine)) (env.task_set.find-key tasks id t e)
          (unfinished-Member on_engine t
            (env.task_set.range-complete (λ t. t.engine_uuid) tasks eid id t e named) waits)),
    refl,
    refl,
  )

  pub engine_status-told :
      (verbose : Bool) → engine_status env verbose tasks eid ≡ told_status verbose
  engine_status-told true = rw engine_status-verbose refl
  engine_status-told false = rw engine_status-not_verbose refl
