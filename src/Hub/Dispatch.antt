-- ===== src/Hub/Dispatch.antt =====
-- The two sockets of gpf/controller/hub.cpp: `dispatch_query`, `dispatch_monitor_traffic` and the
-- tables of handlers that the constructor fills.
pub mod Keeps
pub mod Traffic
use gpf.Prelude.{
  ℕ, String, Bool, true, Option, none, some, List, [], ◌∷◌, ◌==◌, nat_eq, leb, ◌&&◌, if◌then◌else◌,
}
use gpf.Hub.State.{
  Env, Hub, Timer, Action, purge_stalled_registration, handle_stranded_msgs, shutdown, Outcome,
  returned, thrown,
}
use gpf.Hub.Registration.{register_engine, unregister_engine, purge_stalled}
use gpf.Hub.Tasks.{
  save_queue_request, save_queue_result, save_task_request, save_task_result, save_task_destination,
  handle_stranded,
}
use gpf.Hub.Queries.{
  check_load, queue_status_request, purge_results, get_results, shutdown_request, nop,
}

abbrev pub Handler : Env → Type 0
Handler env = env.Incoming → Hub env → Outcome × Hub env

unfoldable pub handler_of : {A : Type 0} → String → List (String × A) → Option A
handler_of type [] = none
handler_of type ((topic, handler) ∷ rest) =
    if topic == type then some handler else handler_of type rest

abbrev pub without_timer : ℕ → List Timer → List Timer
without_timer handle [] = []
without_timer handle (t ∷ ts) =
    let rest : List Timer = without_timer handle ts in
    if nat_eq t.handle handle then rest else t ∷ rest

module _ (env : Env) where
  unfoldable pub monitor_handlers : List (String × Handler env)
  monitor_handlers =
      ("in", save_queue_request)
      ∷ ("out", save_queue_result)
      ∷ ("intask", save_task_request)
      ∷ ("outtask", save_task_result)
      ∷ ("tracktask", save_task_destination)
      ∷ ("incontrol", nop)
      ∷ ("outcontrol", nop)
      ∷ []

  unfoldable pub query_handlers : (String → Bool) → List (String × Handler env)
  query_handlers alive =
      ("queue_request", queue_status_request)
      ∷ ("result_request", get_results)
      ∷ ("purge_request", purge_results)
      ∷ ("load_request", check_load)
      ∷ ("resubmit_request", nop)
      ∷ ("shutdown_request", λ incoming h. shutdown_request h.clock incoming h)
      ∷ ("registration_request", λ incoming h. register_engine alive h.clock incoming h)
      ∷ ("unregistration_request", unregister_engine)
      ∷ ("connection_request", nop)
      ∷ []

module _ {env : Env} where
  -- The common text of the two dispatchers.
  abbrev pub dispatch : List (String × Handler env) → env.Incoming → Hub env → Outcome × Hub env
  dispatch handlers incoming h = elim (env.topic incoming) [
    | none ↦ (thrown, h)
    | some type ↦ elim (handler_of type handlers) [
      | none ↦ (returned, h)
      | some handler ↦ handler incoming h
    ]
  ]

  unfoldable pub dispatch_monitor_traffic : env.Incoming → Hub env → Outcome × Hub env
  unfolding monitor_handlers handler_of
  dispatch_monitor_traffic incoming h = dispatch (monitor_handlers env) incoming h

  -- `alive` is `m_heartmonitor->alive`.
  unfoldable pub dispatch_query : (String → Bool) → env.Incoming → Hub env → Outcome × Hub env
  unfolding query_handlers handler_of
  dispatch_query alive incoming h = dispatch (query_handlers env alive) incoming h

  -- The callback of a timer.
  unfoldable pub act : Action → Hub env → Hub env
  act (purge_stalled_registration heart) h = purge_stalled heart h
  act (handle_stranded_msgs eid uuid) h = handle_stranded h.clock eid h
  act shutdown h = record h { exited = true }

  -- `fire` and `pop` of a timer that is due.
  unfoldable pub fire : Timer → Hub env → Hub env
  unfolding act
  fire t h =
      let h' : Hub env = if t.active then act t.action h else h in
      record h' { timers = without_timer t.handle h'.timers }
