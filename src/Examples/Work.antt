-- ===== src/Examples/Work.antt =====
-- A task that is reported, answered, and tracked.
use gpf.Prelude.{false, ◌≡◌, refl, some, [], ◌∷◌, pos, ◌==◌, Bool-cases, inl, inr, arith}
use gpf.StringSet.{contains}
use gpf.Table.Listed.{listed}
use gpf.Hub.State.{Hub, Task, EngineConnector, thrown, at}
use gpf.Hub.Tasks.{
  handle_stranded, new_task, save_queue_result, save_task_request, save_task_result,
}
use gpf.Hub.Tasks.Results.{finished, save_queue_result-unread}
use gpf.Hub.Tasks.Tracking.{Tracked}
use gpf.Hub.Tasks.Requests.{save_task_request-read}
use gpf.Hub.Tasks.Assignment.{save_task_result-read}
use gpf.Hub.Dispatch.{dispatch_monitor_traffic, dispatch_query}
use gpf.Hub.Tasks.Stranded.{GivenUp, handle_stranded-GivenUp}
use gpf.Hub.Registration.{connector}
use gpf.Hub.Tasks.Reachable.{Sparing, Reach-Tracked}
use gpf.Monitor.{new, alive}
use gpf.Hub.System.{System, create, at_time, here, next, monitored, query}
use gpf.Examples.{surrounding, started, message, alpha, t1_garbled, t1_outtask, t2_intask}

abbrev asked : surrounding.Incoming
asked = message "in" "t1"

abbrev answered : surrounding.Incoming
answered = message "out" "t1"

abbrev pub t1 : Task surrounding.Incoming
t1 = new_task "t1" (pos 0) "mux" (at 6) asked

-- The hub with one pending message.
unfoldable pub one_task : Hub surrounding
unfolding started create
one_task = record started {
  tasks = surrounding.task_set.insert t1 surrounding.task_set.empty;
  pending = "t1" ∷ [];
}

pub known : surrounding.task_set.find one_task.tasks "t1" ≡ some t1
unfolding one_task listed
known = refl

-- An engine with the message on its list.
abbrev laden : EngineConnector surrounding.Incoming
laden = record (connector (message "registration_request" "alpha") alpha (pos 0)) {
  queues = "t1" ∷ [];
}

abbrev busy : Hub surrounding
busy = record one_task {
  engines = surrounding.engine_set.insert laden surrounding.engine_set.empty;
}

handle_stranded-GivenUp_example :
    let h' = handle_stranded 20 (pos 0) busy in
    GivenUp 20 ("t1" ∷ []) busy h' × (h'.engines ≡ busy.engines) × (h'.sent ≡ busy.sent)
unfolding listed
handle_stranded-GivenUp_example = handle_stranded-GivenUp 20 (pos 0) laden busy refl

save_queue_result-unread_example : (save_queue_result (message "out" "garbled") one_task).0 ≡ thrown
unfolding one_task contains
save_queue_result-unread_example =
    (save_queue_result-unread (message "out" "garbled") one_task "garbled" t1_garbled t1 refl refl
      known refl refl).0

save_task_result-read_example :
    surrounding.task_set.find (save_task_result (message "outtask" "t1") one_task).1.tasks "t1"
    ≡ some (record (finished t1 (at 7) (at 6) (message "outtask" "t1")) { engine_uuid = pos 1 })
save_task_result-read_example =
    (save_task_result-read (message "outtask" "t1") one_task "t1" t1_outtask t1 refl refl known
      (at 7) (at 6) refl refl "t1").1

-- The task names no engine, and yet it is not among the unassigned ones.
save_task_request-read_example :
    contains (save_task_request (message "intask" "t2") one_task).1.unassigned "t2" ≡ false
unfolding one_task contains started create
save_task_request-read_example =
    (save_task_request-read (message "intask" "t2") one_task "t2" t2_intask (at 6) refl refl refl
      "t2").3

pub one_task-Tracked : Tracked surrounding one_task
unfolding one_task contains listed
one_task-Tracked id e = elim (Bool-cases ("t1" == id)) [
  | inl p ↦ rw p refl
  | inr p ↦ absurd (ground (arith, p, e))
]

abbrev system : System surrounding
unfolding create
system = create surrounding (new 1000 0 0 0 0) 0

sparing : Sparing surrounding (message "purge_request" "purge")
sparing bytes m t b e = ground (arith, e)

-- A task is reported, and then results are purged.
Reach-Tracked_example :
    Tracked surrounding
      (dispatch_query (alive system.0) (message "purge_request" "purge") (
        at_time surrounding 20
          (dispatch_monitor_traffic (message "in" "t1") (at_time surrounding 10 system.1)).1)).1
unfolding system
Reach-Tracked_example =
    Reach-Tracked {to_iso_string = λ t. "now"} 1000 0 0 0 0 0
      (next (next here (monitored system.0 system.1 10 (message "in" "t1")))
        (query system.0 _ 20 (message "purge_request" "purge")))
      (sparing, tt)
