-- ===== src/Examples/Requests.antt =====
-- What a client asks.
use Prim.Native.String.{◌++◌ as append}
use gpf.Prelude.{String, ◌≡◌, refl, none, some, List, [], ◌∷◌, pos, ◌⊎◌}
use gpf.StringSet.{contains}
use gpf.Table.Listed.{listed}
use gpf.Hub.Messages.{TaskResult}
use gpf.Hub.State.{Hub, queue_status, replied, returned, text, results, send}
use gpf.Hub.System.{create}
use gpf.Hub.Queries.{purge_results, get_results, queue_status_request}
use gpf.Hub.Queries.Purge.{purge_results-all_free}
use gpf.Hub.Queries.Replies.{get_results-answers, Answers, FirstUnknown}
use gpf.Hub.Queries.Statuses.{queue_status_request-answers}
use gpf.Examples.{surrounding, started, message, ask_status, ask_purge, ask_results}
use gpf.Examples.Work.{one_task, t1}
use gpf.Examples.Engines.{joined}
use gpf.Hub.Registration.{
  register, name_in_use, accept_registration, finish_registration, find_queue, find_heart,
}

abbrev purge : surrounding.Incoming
purge = message "purge_request" "purge"

purge_results-all_free_example :
    surrounding.engine_set.find (purge_results purge started).1.engines (pos 0) ≡ none
unfolding contains started
purge_results-all_free_example =
    (purge_results-all_free purge started "purge" ask_purge refl refl refl refl).1 (pos 0)

abbrev results_please : surrounding.Incoming
results_please = message "result_request" "results"

get_results-answers_example :
    ((j : String) × FirstUnknown surrounding one_task.tasks ("t1" ∷ []) j
      × (get_results results_please one_task ≡ (
        returned,
        send
            (replied results_please "get_results_reply" (text (append "Unknown message id " j)))
            one_task,
      )))
    ⊎ ((rs : List TaskResult) × (contents : List String) × Answers surrounding one_task.tasks
          ("t1" ∷ [])
          rs
          contents
        × (get_results results_please one_task ≡ (
          returned,
          send
              (replied results_please "load_reply" (results (record { results = rs }) contents))
              one_task,
        )))
get_results-answers_example =
    get_results-answers results_please one_task "results" ask_results refl refl

-- An engine is registered, and has a task.
abbrev at_work : Hub surrounding
at_work = record joined {
  tasks = surrounding.task_set.insert t1 surrounding.task_set.empty;
  pending = "t1" ∷ [];
}

queue_status_request-answers_example :
    queue_status_request (message "queue_request" "status") at_work ≡ (
      returned,
      send
          (replied (message "queue_request" "status") "queue_status_reply" (
            queue_status (record {
              engine =
                  record {
                    eid = some (pos 0);
                    queuelen = none;
                    taskslen = some 1;
                    queues = [];
                    completed = [];
                    tasks = "t1" ∷ [];
                  }
                  ∷ [];
            })))
          at_work,
    )
unfolding started create listed register name_in_use accept_registration finish_registration
    find_queue find_heart
queue_status_request-answers_example =
    queue_status_request-answers (message "queue_request" "status") at_work "status" ask_status refl
      refl
