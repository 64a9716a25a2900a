-- ===== src/Hub/Queries/Replies.antt =====
-- What the hub answers to the requests for results and load.
use Prim.Native.String.{◌++◌ as append}
use gpf.Prelude.{
  String, Bool, true, false, ◌&&◌, ◌≡◌, refl, ap, ◌∙◌, none, some, List, [], ◌∷◌, map, ℤ, arith,
  inl, inr, ◌⊎◌, Option-cases, is_some, if◌then◌else◌,
}
use gpf.Prelude.Lists.{length}
use gpf.Hub.Messages.{TaskResult, LoadRequest, GetResultsRequest, ResultStatus, pending, completed}
use gpf.Hub.State.{
  Env, Hub, Task, is_not_a_date_time, returned, replied, text, results, load, with_message-eq, send,
}
use gpf.Hub.Queries.{loads, Gathered, unknown, gathered, result_of, gather, get_results, check_load}
use gpf.Hub.Names.{Names, Idle}

module _ (env : Env) where
  -- The results that a request for ids asks for, one after the other.
  pub data Answers (tasks : env.task_set.Rows)
      : List String → List TaskResult → List String → Type 0 where
    done : Answers tasks [] [] []
    answer :
        {ids : List String} {rs : List TaskResult} {contents : List String} (id : String)
        (task : Task env.Incoming) (status : ResultStatus)
        → env.task_set.find tasks id ≡ some task
        → (is_not_a_date_time task.completed ≡ true → status ≡ pending)
        → (is_not_a_date_time task.completed ≡ false → status ≡ completed)
        → Answers tasks ids rs contents
        → Answers tasks
            (id ∷ ids)
            (record { msg_id = id; status = status; content = none } ∷ rs)
            (task.result_content ∷ contents)

  -- The first id of a list that has no record, all before it having one.
  pub data FirstUnknown (tasks : env.task_set.Rows) : List String → String → Type 0 where
    at_once :
        {ids : List String} (id : String)
        → env.task_set.find tasks id ≡ none
        → FirstUnknown tasks (id ∷ ids) id
    after :
        {ids : List String} {j : String} (id : String) (task : Task env.Incoming)
        → env.task_set.find tasks id ≡ some task
        → FirstUnknown tasks ids j
        → FirstUnknown tasks (id ∷ ids) j

  abbrev pub GatherSpec : env.task_set.Rows → Bool → List String → Gathered → Type 0
  GatherSpec tasks status_only ids g =
      ((j : String) × FirstUnknown tasks ids j × (g ≡ unknown j))
      ⊎ ((rs : List TaskResult) × (contents : List String) × Answers tasks ids rs contents
          × (g ≡ gathered rs (if status_only then [] else contents)))

  gather-GatherSpec :
      (status_only : Bool) (tasks : env.task_set.Rows) (ids : List String)
      → GatherSpec tasks status_only ids (gather env status_only tasks ids)
  unfolding gather
  gather-GatherSpec status_only tasks [] = inr ([], [], done, ground arith)
  gather-GatherSpec status_only tasks (id ∷ ids) =
      elim (Option-cases (env.task_set.find tasks id)) [
        | inl e ↦ inl (id, at_once id e, rw (gather, e) refl)
        | inr (task, e) ↦ elim (gather-GatherSpec status_only tasks ids) [
          | inl (j, first, g) ↦ inl (j, after id task e first, rw (gather, e, g) refl)
          | inr (rs, contents, answers, g) ↦ inr (
            result_of id task ∷ rs,
            task.result_content ∷ contents,
            answer id task (result_of id task).status e (λ d. rw d refl) (λ d. rw d refl) answers,
            rw (gather, e, g) (ground arith),
          )
        ]
      ]

module _ {env : Env} (incoming : env.Incoming) (h : Hub env) (bytes : String)
    (m : GetResultsRequest) (frame : env.header incoming ≡ some bytes)
    (parsed : env.parse_get_results_request bytes ≡ some m) where
  -- A request for results has one answer, and changes nothing else. If an id has no record, the
  -- answer names the first such id. Otherwise it lists, in the order of the request, each id with its
  -- status, completed exactly if its record has a time of completion; and the contents of the results
  -- follow, unless only the status was asked for.
  pub get_results-answers :
      let r = get_results incoming h in
      ((j : String) × FirstUnknown env h.tasks m.msg_ids j
        × (r ≡ (
          returned,
          send (replied incoming "get_results_reply" (text (append "Unknown message id " j))) h,
        )))
      ⊎ ((rs : List TaskResult) × (contents : List String) × Answers env h.tasks m.msg_ids rs
            contents
          × (r ≡ (
            returned,
            send
                (replied incoming "load_reply"
                  (results (record { results = rs }) (if m.status_only then [] else contents)))
                h,
          )))
  unfolding get_results
  get_results-answers = elim (gather-GatherSpec env m.status_only h.tasks m.msg_ids) [
    | inl (j, first, g) ↦ inl (
      j,
      first,
      with_message-eq env.parse_get_results_request incoming h _ bytes m frame parsed ∙ rw g refl,
    )
    | inr (rs, contents, answers, g) ↦ inr (
      rs,
      contents,
      answers,
      with_message-eq env.parse_get_results_request incoming h _ bytes m frame parsed ∙ rw g refl,
    )
  ]

module _ (env : Env) where
  -- Whether every id is that of a registered engine.
  abbrev pub all_registered : env.engine_set.Rows → List ℤ → Bool
  all_registered engines [] = true
  all_registered engines (eid ∷ eids) =
      is_some (env.engine_set.find engines eid) && all_registered engines eids

  loads-Idle :
      (engines : env.engine_set.Rows) (eids : List ℤ)
      → Idle env engines
      → loads env engines eids ≡ (
          if all_registered engines eids
          then some
              (record { eid = eids; queuelen = map (λ _. 0) eids; taskslen = map (λ _. 0) eids })
          else none)
  unfolding loads
  loads-Idle engines [] idle = refl
  loads-Idle engines (eid ∷ eids) idle = elim (Option-cases (env.engine_set.find engines eid)) [
    | inl e ↦ rw (loads, e) refl
    | inr (ec, e) ↦
        let none_here = idle eid ec e in
        ground
          (arith, e, ap length none_here.0, ap length none_here.1, loads-Idle engines eids idle)
  ]

-- In a state where the names are apart and the engines idle, a request for the load
-- of engines is answered by zeros if all of them are registered, and by an error if one is not.
pub check_load-zeros :
    {env : Env} (incoming : env.Incoming) (h : Hub env) (bytes : String) (m : LoadRequest)
    → env.header incoming ≡ some bytes
    → env.parse_load_request bytes ≡ some m
    → Names env h
    → check_load incoming h ≡ (
      returned,
      send
          (replied incoming "load_reply" (
            if all_registered env h.engines m.eid
            then load (record {
              eid = m.eid;
              queuelen = map (λ _. 0) m.eid;
              taskslen = map (λ _. 0) m.eid;
            })
            else text "Error: Got unknown ID"))
          h,
    )
unfolding check_load
check_load-zeros {env} incoming h bytes m frame parsed v =
    with_message-eq env.parse_load_request incoming h _ bytes m frame parsed
    ∙ rw (loads-Idle env h.engines m.eid v.idle_engines) (ground arith)
