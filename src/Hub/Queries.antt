-- ===== src/Hub/Queries.antt =====
-- The clients' side of gpf/controller/hub.cpp: the requests that the query socket answers.
pub mod Replies
pub mod Purge
pub mod Status
pub mod Statuses
use Prim.Native.String.{◌++◌ as append}
use gpf.Prelude.{
  ℕ, zero, suc, String, Bool, true, false, Option, none, some, List, [], ◌∷◌, ◌++◌, ℤ,
  if◌then◌else◌,
}
use gpf.Prelude.Lists.{length}
use gpf.StringSet.{contains}
use gpf.Hub.Messages.{
  LoadReply, EngineStatus, QueueStatusReply, PurgeResultsReply, TaskResult, GetResultsReply,
  ResultStatus, pending, completed,
}
use gpf.Hub.State.{
  Env, Hub, Task, EngineConnector, Ptime, is_not_a_date_time, Outcome, returned, thrown, replied,
  notified, unrouted, nothing, text, load, queue_status, purged, results, shutdown, with_message,
  send, add_timer,
}

module _ (env : Env) where
  -- The loop of `check_load`; `none` is `ok == false`.
  unfoldable pub loads : env.engine_set.Rows → List ℤ → Option LoadReply
  loads engines [] = some (record { eid = []; queuelen = []; taskslen = [] })
  loads engines (eid ∷ eids) =
      let rest : Option LoadReply = loads engines eids in
      elim (env.engine_set.find engines eid) [
        | none ↦ none
        | some ec ↦ elim rest [
          | none ↦ none
          | some reply ↦ some (record {
            eid = eid ∷ reply.eid;
            queuelen = length ec.queues ∷ reply.queuelen;
            taskslen = length ec.tasks ∷ reply.taskslen;
          })
        ]
      ]

-- The inner loop of `queue_status`, from the status so far.
unfoldable pub count_tasks :
    {I : Type 0} → Bool → List (Task I) → EngineStatus × ℕ → EngineStatus × ℕ
count_tasks verbose [] sc = sc
count_tasks verbose (t ∷ ts) (s, task_cnt) = count_tasks verbose ts (
    if verbose
    then (if is_not_a_date_time t.completed
        then (record s { tasks = s.tasks ++ t.id ∷ [] }, suc task_cnt)
        else (record s { completed = s.completed ++ t.id ∷ [] }, task_cnt))
    else (s, task_cnt))

abbrev pub no_status : EngineStatus
no_status = record {
  eid = none;
  queuelen = none;
  taskslen = none;
  queues = [];
  completed = [];
  tasks = [];
}

module _ (env : Env) where
  -- The status of one engine.
  unfoldable pub engine_status : Bool → env.task_set.Rows → ℤ → EngineStatus
  unfolding count_tasks
  engine_status verbose tasks eid =
      let (s, task_cnt) =
        count_tasks verbose (env.task_set.equal_range (λ t. t.engine_uuid) tasks eid)
          (no_status, zero) in
      record s { eid = some eid; taskslen = some task_cnt }

  -- The loop of `queue_status`; `none` is `ok == false`.
  unfoldable pub statuses :
      Bool → env.engine_set.Rows → env.task_set.Rows → List ℤ → Option (List EngineStatus)
  unfolding engine_status
  statuses verbose engines tasks [] = some []
  statuses verbose engines tasks (eid ∷ eids) =
      let rest : Option (List EngineStatus) = statuses verbose engines tasks eids in
      elim (env.engine_set.find engines eid) [
        | none ↦ none
        | some ec ↦ elim rest [
          | none ↦ none
          | some ss ↦ some (engine_status verbose tasks eid ∷ ss)
        ]
      ]

-- What the loop of `get_results` gathers: the first unknown id, or the results with the contents.
pub data Gathered : Type 0 where
  unknown : String → Gathered
  gathered : List TaskResult → List String → Gathered

abbrev pub result_of : {I : Type 0} → String → Task I → TaskResult
result_of id task = record {
  msg_id = id;
  status = if is_not_a_date_time task.completed then pending else completed;
  content = none;
}

module _ (env : Env) where
  unfoldable pub gather : Bool → env.task_set.Rows → List String → Gathered
  gather status_only tasks [] = gathered [] []
  gather status_only tasks (id ∷ ids) =
      let rest : Gathered = gather status_only tasks ids in
      elim (env.task_set.find tasks id) [
        | none ↦ unknown id
        | some task ↦ elim rest [
          | unknown j ↦ unknown j
          | gathered rs bufs ↦
              gathered (result_of id task ∷ rs)
                (if status_only then bufs else task.result_content ∷ bufs)
        ]
      ]

module _ {env : Env} where
  unfoldable pub check_load : env.Incoming → Hub env → Outcome × Hub env
  unfolding loads
  check_load incoming h = with_message env.parse_load_request incoming h λ m. (
    returned,
    send
        (replied incoming "load_reply" (elim (loads env h.engines m.eid) [
          | none ↦ text "Error: Got unknown ID"
          | some reply ↦ load reply
        ]))
        h,
  )

  unfoldable pub queue_status_request : env.Incoming → Hub env → Outcome × Hub env
  unfolding statuses
  queue_status_request incoming h = with_message env.parse_queue_status_request incoming h λ m. (
    returned,
    send
        (replied incoming "queue_status_reply"
          (elim (statuses env m.verbose h.engines h.tasks m.eids) [
            | none ↦ text "Error: Got unknown ID"
            | some ss ↦ queue_status (record { engine = ss })
          ]))
        h,
  )

  -- The loop over the message ids: `false` if it met a pending one, which is answered at once.
  unfoldable pub purge_msg_ids : env.Incoming → List String → Hub env → Bool × Hub env
  purge_msg_ids incoming [] h = (true, h)
  purge_msg_ids incoming (id ∷ ids) h =
      let rest : Bool × Hub env =
        purge_msg_ids incoming ids (record h { tasks = env.task_set.erase id h.tasks }) in
      if contains h.pending id
      then (
        false,
        send
            (replied incoming "purge_results_reply" (text (append "Error: Got pending msg_id " id)))
            h,
      )
      else rest

  -- The loop over the engines.
  unfoldable pub purge_eids : List ℤ → Hub env → Hub env
  purge_eids [] h = h
  purge_eids (eid ∷ eids) h =
      purge_eids eids (record h { engines = env.engine_set.erase eid h.engines })

  unfoldable pub purge_reply : env.Incoming → Hub env → Hub env
  purge_reply incoming h = send (replied incoming "load_reply" (purged (record { ok = true }))) h

  unfoldable pub purge_selected : env.Incoming → List String → List ℤ → Hub env → Hub env
  unfolding purge_msg_ids purge_eids purge_reply
  purge_selected incoming msg_ids eids h =
      let (goes_on, h') = purge_msg_ids incoming msg_ids h in
      if goes_on then purge_reply incoming (purge_eids eids h') else h'

  unfoldable pub purge_results : env.Incoming → Hub env → Outcome × Hub env
  unfolding purge_selected purge_reply
  purge_results incoming h = with_message env.parse_purge_results_request incoming h λ m. (
    returned,
    if m.all
        then purge_reply incoming (record h { tasks = env.task_set.empty })
        else purge_selected incoming m.msg_ids m.eids h,
  )

  unfoldable pub get_results : env.Incoming → Hub env → Outcome × Hub env
  unfolding gather
  get_results incoming h = with_message env.parse_get_results_request incoming h λ m. (
    returned,
    send
        (elim (gather env m.status_only h.tasks m.msg_ids) [
          | unknown id ↦
              replied incoming "get_results_reply" (text (append "Unknown message id " id))
          | gathered rs bufs ↦
              replied incoming "load_reply" (results (record { results = rs }) bufs)
        ])
        h,
  )

  -- The clock reads `now` when the timer is made.
  unfoldable pub shutdown_request : ℕ → env.Incoming → Hub env → Outcome × Hub env
  shutdown_request now incoming h = (
    returned,
    add_timer now 1000 shutdown (
        send (notified "shutdown_notification" nothing)
          (send (unrouted "shutdown_reply" (text "ok")) h)),
  )

  -- `nop`, `resubmit_task` and `connection_request` do nothing.
  unfoldable pub nop : env.Incoming → Hub env → Outcome × Hub env
  nop incoming h = (returned, h)
