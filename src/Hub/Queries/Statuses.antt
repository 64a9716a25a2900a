-- ===== src/Hub/Queries/Statuses.antt =====
-- What the hub answers to a request for the status of queues.
use gpf.Prelude.{
  String, Bool, ◌≡◌, refl, ◌∙◌, none, some, List, [], ◌∷◌, map, ℤ, inl, inr, Option-cases,
  Bool-cases, if◌then◌else◌,
}
use gpf.Hub.Messages.{EngineStatus, QueueStatusRequest}
use gpf.Hub.State.{Env, Hub, returned, replied, text, queue_status, with_message-eq, send}
use gpf.Hub.Queries.{engine_status, statuses, queue_status_request}
use gpf.Hub.Queries.Replies.{all_registered}
use gpf.Hub.Queries.Status.{told_status, engine_status-told}

module _ (env : Env) where
  statuses-eq :
      (verbose : Bool) (engines : env.engine_set.Rows) (tasks : env.task_set.Rows) (eids : List ℤ)
      → statuses env verbose engines tasks eids ≡ (
          if all_registered env engines eids
          then some (map (engine_status env verbose tasks) eids)
          else none)
  unfolding statuses
  statuses-eq verbose engines tasks [] = refl
  statuses-eq verbose engines tasks (eid ∷ eids) =
      elim (Option-cases (env.engine_set.find engines eid)) [
        | inl e ↦ rw (statuses, e) refl
        | inr (ec, e) ↦
            rw (statuses, e, statuses-eq verbose engines tasks eids)
              (elim (Bool-cases (all_registered env engines eids)) [
                | inl d ↦ rw d refl
                | inr d ↦ rw d refl
              ])
      ]

  pub map-told :
      (verbose : Bool) (tasks : env.task_set.Rows) (eids : List ℤ)
      → map (engine_status env verbose tasks) eids
        ≡ map (λ eid. told_status env tasks eid verbose) eids
  map-told verbose tasks [] = refl
  map-told verbose tasks (eid ∷ eids) =
      rw (engine_status-told env tasks eid verbose, map-told verbose tasks eids) refl

module _ {env : Env} (incoming : env.Incoming) (h : Hub env) (bytes : String)
    (m : QueueStatusRequest) (frame : env.header incoming ≡ some bytes)
    (parsed : env.parse_queue_status_request bytes ≡ some m) where
  abbrev pub asked_statuses : List EngineStatus
  asked_statuses = map (λ eid. told_status env h.tasks eid m.verbose) m.eids

  -- A request for statuses that parses has one answer, and changes nothing else. If all engines that it
  -- names are registered, the answer has a status for each, in the order of the request; otherwise it is
  -- an error without any status. A status has the engine's id. If the request is verbose, it lists the ids
  -- of the records that name this engine, those without a time of completion as tasks and those with one
  -- as completed, in the order of the index, and the length of the tasks is the number of those that are
  -- listed; if the request is not verbose, it lists nothing and this length is 0. In no status is the
  -- length of the queue set.
  pub queue_status_request-answers : queue_status_request incoming h ≡ (
    returned,
    send
        (replied incoming "queue_status_reply" (
          if all_registered env h.engines m.eids
          then queue_status (record { engine = asked_statuses })
          else text "Error: Got unknown ID"))
        h,
  )
  unfolding queue_status_request
  queue_status_request-answers =
      with_message-eq env.parse_queue_status_request incoming h _ bytes m frame parsed
      ∙ rw (statuses-eq env m.verbose h.engines h.tasks m.eids)
          (elim (Bool-cases (all_registered env h.engines m.eids)) [
            | inl d ↦ rw (d, map-told env m.verbose h.tasks m.eids) refl
            | inr d ↦ rw d refl
          ])
