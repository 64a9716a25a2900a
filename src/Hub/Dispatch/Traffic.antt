-- ===== src/Hub/Dispatch/Traffic.antt =====
-- The monitor's socket: what it sends keeps every pending message's record.
use gpf.Hub.State.{Env, Hub}
use gpf.Hub.Queries.{nop}
use gpf.Hub.Tasks.Tracking.{
  Tracked, Tracked-save_queue_request, Tracked-save_task_request, Tracked-save_queue_result,
  Tracked-save_task_result, Tracked-save_task_destination,
}
use gpf.Hub.Dispatch.{dispatch_monitor_traffic, monitor_handlers}
use gpf.Hub.Dispatch.Keeps.{dispatch-keeps}

-- Whatever arrives on the monitor's socket, be it well-formed or not, every pending message still has
-- a record afterwards if each had one before.
pub dispatch_monitor_traffic-Tracked :
    {env : Env} (incoming : env.Incoming) (h : Hub env)
    → Tracked env h
    → Tracked env (dispatch_monitor_traffic incoming h).1
unfolding dispatch_monitor_traffic monitor_handlers nop
dispatch_monitor_traffic-Tracked {env} incoming h v =
    dispatch-keeps (Tracked env) (monitor_handlers env) incoming h
      (
        Tracked-save_queue_request,
        (
          Tracked-save_queue_result,
          (
            Tracked-save_task_request,
            (
              Tracked-save_task_result,
              (Tracked-save_task_destination, ((λ i g w. w), ((λ i g w. w), tt))),
            ),
          ),
        ),
      )
      v
