-- ===== src/Hub/System.antt =====
-- The hub and its heart monitor in one event loop: the constructor's wiring, and the events.

use Prim.Native.Nat.{max}
use gpf.Prelude.{ℕ, ◌*◌, ◌≤◌, String, false, []}
use gpf.Prelude.Lists.{Member}
use gpf.Monitor.{
  Monitor, register_new_heart_handler, register_failed_heart_handler, alive, handle_pong, beat,
}
use gpf.Hub.State.{Env, Hub, Timer}
use gpf.Hub.Registration.{handle_new_heart, handle_heart_failure}
use gpf.Hub.Dispatch.{dispatch_query, dispatch_monitor_traffic, fire}

module _ (env : Env) where
  abbrev pub System : Type 0
  System = Monitor (Hub env) × Hub env

  -- The constructor `hub::hub`; the static counter of ids stands at `next_id`.
  unfoldable pub create : Monitor (Hub env) → ℕ → System
  create m next_id = (
    register_failed_heart_handler (λ heart h. handle_heart_failure h.clock heart h)
        (register_new_heart_handler handle_new_heart m),
    record {
      engines = env.engine_set.empty;
      incoming_registrations = env.engine_set.empty;
      dead_engines = [];
      next_id = next_id;
      tasks = env.task_set.empty;
      pending = [];
      all_completed = [];
      unassigned = [];
      registration_timeout = max 5000 (2 * m.interval);
      timers = [];
      next_timer = 0;
      sent = [];
      exited = false;
      clock = 0;
    },
  )

  abbrev pub at_time : ℕ → Hub env → Hub env
  at_time now h = record h { clock = now }

  -- What the loop does next, and what the clock reads then. Any event may come at any time: the
  -- sockets and the clock choose. A timer fires if it was due when the loop looked at the clock, and its
  -- callback reads the clock again. A pong has two frames or more; one of fewer ends the program, and
  -- changes nothing before.
  pub data Step (to_iso_string : ℕ → String) : System → System → Type 0 where
    query :
        (m : Monitor (Hub env)) (h : Hub env) (now : ℕ) (incoming : env.Incoming)
        → Step to_iso_string (m, h) (m, (dispatch_query (alive m) incoming (at_time now h)).1)
    monitored :
        (m : Monitor (Hub env)) (h : Hub env) (now : ℕ) (incoming : env.Incoming)
        → Step to_iso_string (m, h) (m, (dispatch_monitor_traffic incoming (at_time now h)).1)
    timed :
        (m : Monitor (Hub env)) (h : Hub env) (looked now : ℕ) (t : Timer)
        → Member t h.timers
        → t.deadline ≤ looked
        → Step to_iso_string (m, h) (m, fire t (at_time now h))
    pong :
        (m : Monitor (Hub env)) (h : Hub env) (heart received : String)
        → Step to_iso_string (m, h) (handle_pong to_iso_string heart received m, h)
    beats :
        (m : Monitor (Hub env)) (h : Hub env) (now toc : ℕ)
        → Step to_iso_string (m, h) (beat to_iso_string now toc (m, at_time now h))

  pub data Reach (to_iso_string : ℕ → String) (s : System) : System → Type 0 where
    here : Reach to_iso_string s s
    next :
        {t u : System} → Reach to_iso_string s t → Step to_iso_string t u → Reach to_iso_string s u
