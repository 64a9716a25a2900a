-- ===== src/Hub/Served.antt =====
-- The hub and its heart monitor in a reactor: which callbacks the constructors of
-- gpf/controller/{hub,heartmonitor}.cpp add, what they do, and `hub::run`. What the sockets will
-- receive and what the clock will read is part of the program's state.
pub mod Steps
use gpf.Prelude.{
  [], ℕ, suc, String, Bool, true, false, Option, none, some, List, ◌∷◌, map, nat_eq, leb,
  if◌then◌else◌,
}
use gpf.Timers.{DeadlineTimer, waiting}
use gpf.Reactor.{Reactor, add}
use gpf.Reactor.Loop.{Callback, user, Polled, World, Ended, pollin, reactor, run}
use gpf.Monitor.{alive, beat}
use gpf.Heart.{receive_pong}
use gpf.Hub.State.{Env, Hub, Timer, Outcome, returned, thrown}
use gpf.Hub.Dispatch.{dispatch_query, dispatch_monitor_traffic, fire}
use gpf.Hub.System.{System, at_time}

-- The callbacks of timers: `heartmonitor::beat`, and those of the hub, which has them with their handles.
pub data Wake : Type 0 where
  beating : Wake
  hub_timer : ℕ → Wake

-- The callbacks of sockets: `handle_pong`, the two dispatchers, and the function that does nothing.
pub data Service : Type 0 where
  pongs queries traffic resubmissions : Service

-- The program, with what is to come: the messages that each socket will receive, in order, those of the
-- hub with the clock at their arrival; and what the clock will read, a pair for each timer that fires,
-- without end, of which a beat takes the one when it sets its timer and the other later on, and another
-- timer the first. So many timers have `fired`. After an exception or `exit(0)` the program has `ended`,
-- and its state stays as it is.
pub record Program (env : Env) : Type 0 where
  pub system : System env
  pub pong_messages : List (List String)
  pub query_messages : List (ℕ × env.Incoming)
  pub traffic_messages : List (ℕ × env.Incoming)
  pub readings : ℕ → ℕ × ℕ
  pub fired : ℕ
  pub ended : Bool

abbrev pub is_thrown : Outcome → Bool
is_thrown returned = false
is_thrown thrown = true

abbrev pub find_timer : ℕ → List Timer → Option Timer
find_timer handle [] = none
find_timer handle (t ∷ ts) =
    let rest : Option Timer = find_timer handle ts in
    if nat_eq t.handle handle then some t else rest

-- The timers that the hub has made since its next handle was `next_timer`, as the reactor gets them.
abbrev pub fresh : ℕ → List Timer → List (DeadlineTimer Wake)
fresh next_timer [] = []
fresh next_timer (t ∷ ts) =
    let rest : List (DeadlineTimer Wake) = fresh next_timer ts in
    if leb next_timer t.handle
    then record { deadline = t.deadline; callback = hub_timer t.handle; active = true } ∷ rest
    else rest

-- The sockets of the monitor's pongs, of queries, of the monitored traffic and of resubmissions, in the
-- order in which the two constructors add them.
unfoldable pub wired : ℕ → ℕ → ℕ → ℕ → Reactor (Callback Service)
unfolding add reactor
wired router query monitor resubmit =
    let with_router = (add router pollin (user pongs) true reactor).1 in
    let with_query = (add query pollin (user queries) true with_router).1 in
    let with_monitor = (add monitor pollin (user traffic) true with_query).1 in
    (add resubmit pollin (user resubmissions) true with_monitor).1

module _ {env : Env} where
  -- The loop's world when the constructors have made the monitor, with its timer, and the hub.
  abbrev pub booted : Program env → World Wake (Program env)
  booted p = record {
    timers =
        map (λ d. record { deadline = d; callback = beating; active = true })
          p.system.0.beat_timers;
    state = p;
    stop_requested = false;
  }

module _ (to_iso_string : ℕ → String) {env : Env} where
  -- A timer's callback that reads the clock as `now`, and `toc` later on.
  unfoldable pub wake : Wake → ℕ → ℕ → Program env → List (DeadlineTimer Wake) × Program env
  unfolding waiting fire beat
  wake beating now toc p =
      let (m, h) = p.system in
      let (m', h') = beat to_iso_string now toc (m, at_time env now h) in
      (
        waiting now m.interval beating ∷ fresh h.next_timer h'.timers,
        record p { system = (m', h') },
      )
  wake (hub_timer handle) now toc p =
      let (m, h) = p.system in
      elim (find_timer handle h.timers) [
        | none ↦ ([], p)
        | some t ↦
            let h' : Hub env = fire t (at_time env now h) in
            (fresh h.next_timer h'.timers, record p { system = (m, h'); ended = h'.exited })
      ]

  unfoldable pub on_timer : Wake → Program env → List (DeadlineTimer Wake) × Program env
  unfolding wake
  on_timer w p =
      let (now, toc) = p.readings p.fired in
      if p.ended then ([], p) else wake w now toc (record p { fired = suc p.fired })

  -- What a dispatcher leaves, from the hub that it was given.
  abbrev pub dispatched : Program env → Outcome × Hub env → List (DeadlineTimer Wake) × Program env
  dispatched p (o, h') = (
    fresh p.system.1.next_timer h'.timers,
    record p { system = (p.system.0, h'); ended = is_thrown o },
  )

  -- A socket's callback reads the next message of its socket.
  unfoldable pub service : Service → Program env → List (DeadlineTimer Wake) × Program env
  unfolding alive receive_pong dispatch_query dispatch_monitor_traffic
  service pongs p = elim p.pong_messages [
    | [] ↦ ([], p)
    | frames ∷ ms ↦ elim (receive_pong to_iso_string frames p.system.0) [
      | none ↦ ([], record p { pong_messages = ms; ended = true })
      | some m ↦ ([], record p { system = (m, p.system.1); pong_messages = ms })
    ]
  ]
  service queries p = elim p.query_messages [
    | [] ↦ ([], p)
    | (now, incoming) ∷ ms ↦
        dispatched (record p { query_messages = ms })
          (dispatch_query (alive p.system.0) incoming (at_time env now p.system.1))
  ]
  service traffic p = elim p.traffic_messages [
    | [] ↦ ([], p)
    | (now, incoming) ∷ ms ↦
        dispatched (record p { traffic_messages = ms })
          (dispatch_monitor_traffic incoming (at_time env now p.system.1))
  ]
  service resubmissions p = ([], p)

  unfoldable pub on_message : Service → ℕ → Program env → List (DeadlineTimer Wake) × Program env
  unfolding service
  on_message c v p = if p.ended then ([], p) else service c p

  -- `hub::run`.
  unfoldable pub run_hub :
      ℕ → Reactor (Callback Service) → List (ℕ × Polled) → Program env → Ended Wake (Program env)
  unfolding run on_timer on_message
  run_hub fuel r polls p = run on_timer on_message fuel [] r polls (booted p)
