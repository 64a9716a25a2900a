-- ===== src/Hub/State.antt =====
-- What the hub keeps: gpf/controller/{hub,engine_set,task_set}.hpp, and what it relies on.
use gpf.Prelude.{
  ◌≡◌, refl, Option-cases, inl, inr, ℕ, suc, ◌+◌, ◌*◌, String, Bool, true, false, Option, none,
  some, List, [], ◌∷◌, ◌++◌, ℤ, string_eq, int_eq,
}
use gpf.StringSet.{StringSet}
use gpf.Table.{Table}
use gpf.Hub.Messages.{
  Registration, LoadRequest, LoadReply, QueueStatusRequest, QueueStatusReply, PurgeResultsRequest,
  PurgeResultsReply, GetResultsRequest, GetResultsReply, In, Out, InTask, OutTask, TrackTask,
}

-- `boost::posix_time::ptime`, in microseconds since the epoch.
pub data Ptime : Type 0 where
  not_a_date_time : Ptime
  at : ℕ → Ptime

abbrev pub is_not_a_date_time : Ptime → Bool
is_not_a_date_time not_a_date_time = true
is_not_a_date_time (at t) = false

-- `I` stands for `ZmqMessage::Incoming<XRouting>`. `deletion_callback` is the handle of a timer in
-- the loop, which shares it.
pub record EngineConnector (I : Type 0) : Type 0 where
  pub id : ℤ
  pub queue : String
  pub registration : String
  pub control : String
  pub heartbeat : String
  pub services : List String
  pub queues : List String
  pub tasks : List String
  pub completed : List String
  pub incoming_msg : I
  pub deletion_callback : Option ℕ

-- `client_uuid` is left out: the program never sets it, nor reads it.
pub record Task (I : Type 0) : Type 0 where
  pub id : String
  pub engine_uuid : ℤ
  pub queue : String
  pub submitted : Ptime
  pub started : Ptime
  pub completed : Ptime
  pub resubmitted : Ptime
  pub content : String
  pub result_content : String
  pub incoming_msg : I
  pub outgoing_msg : Option I

-- What the hub relies on and does not implement: the messages of ZmqMessage and their frames
-- (`none` where the access throws), the parsers that protobuf generates (`none` where
-- `ParseFromString` fails), the parser of times (`none` where it throws), the two containers.
pub record Env : Type 1 where
  pub Incoming : Type 0
  pub topic : Incoming → Option String
  pub header : Incoming → Option String
  pub parse_registration : String → Option Registration
  pub parse_in : String → Option In
  pub parse_out : String → Option Out
  pub parse_intask : String → Option InTask
  pub parse_outtask : String → Option OutTask
  pub parse_tracktask : String → Option TrackTask
  pub parse_load_request : String → Option LoadRequest
  pub parse_queue_status_request : String → Option QueueStatusRequest
  pub parse_purge_results_request : String → Option PurgeResultsRequest
  pub parse_get_results_request : String → Option GetResultsRequest
  pub from_iso_string : String → Option Ptime
  pub engine_set : Table int_eq (λ (e : EngineConnector Incoming). e.id)
  pub task_set : Table string_eq (λ (t : Task Incoming). t.id)

-- The callbacks of the hub's timers.
pub data Action : Type 0 where
  purge_stalled_registration : String → Action
  handle_stranded_msgs : ℤ → String → Action
  shutdown : Action

pub record Timer : Type 0 where
  pub handle : ℕ
  pub deadline : ℕ
  pub action : Action
  pub active : Bool

-- The frames behind the topic. A protobuf message stands for its bytes.
pub data Payload : Type 0 where
  nothing : Payload
  text : String → Payload
  number : ℤ → Payload
  registration : Registration → Payload
  load : LoadReply → Payload
  queue_status : QueueStatusReply → Payload
  purged : PurgeResultsReply → Payload
  results : GetResultsReply → List String → Payload

-- What goes out: on `m_notifier`, or on `m_query` as a reply to a message or to nobody.
pub data Sent (I : Type 0) : Type 0 where
  notified : String → Payload → Sent I
  replied : I → String → Payload → Sent I
  unrouted : String → Payload → Sent I

-- `engine_tracker`, `task_tracker`, the reactor's timers and the log of what was sent, oldest first.
-- `clock` is what `microsec_clock` reads during the current event, `next_id` is the static counter
-- of `engine_tracker::next_id`, `exited` is `exit(0)`.
pub record Hub (env : Env) : Type 0 where
  pub engines : env.engine_set.Rows
  pub incoming_registrations : env.engine_set.Rows
  pub dead_engines : StringSet
  pub next_id : ℕ
  pub tasks : env.task_set.Rows
  pub pending : StringSet
  pub all_completed : StringSet
  pub unassigned : StringSet
  pub registration_timeout : ℕ
  pub timers : List Timer
  pub next_timer : ℕ
  pub sent : List (Sent env.Incoming)
  pub exited : Bool
  pub clock : ℕ

-- How a handler ends; an exception leaves the reactor's loop.
pub data Outcome : Type 0 where
  returned thrown : Outcome

-- `incoming->iter_at<std::string>(1)` and `m_header_marshal.deserialize`, which begin most handlers:
-- a message that does not parse is dropped.
abbrev pub with_message :
    {env : Env} {M : Type 0}
    → (String → Option M)
    → env.Incoming
    → Hub env
    → (M → Outcome × Hub env)
    → Outcome × Hub env
with_message {env} parse incoming h body = elim (env.header incoming) [
  | none ↦ (thrown, h)
  | some bytes ↦ elim (parse bytes) [ none ↦ (returned, h) | some msg ↦ body msg ]
]

abbrev pub send : {env : Env} → Sent env.Incoming → Hub env → Hub env
send message h = record h { sent = h.sent ++ message ∷ [] }

-- `m_loop.add`: the deadline is that of `deadline_timer(milliseconds(wait), ...)` at clock `now`.
abbrev pub add_timer : {env : Env} → ℕ → ℕ → Action → Hub env → Hub env
add_timer now wait action h = record h {
  timers =
      h.timers
      ++ record {
        handle = h.next_timer;
        deadline = now + 1000 * wait;
        action = action;
        active = true;
      }
        ∷ [];
  next_timer = suc h.next_timer;
}

-- A property that each way through the body keeps is kept by the handler.
pub with_message-keeps_read :
    {env : Env} {M : Type 0} (P : Hub env → Type 0) (parse : String → Option M)
    (incoming : env.Incoming) (h : Hub env) (body : M → Outcome × Hub env)
    → P h
    → ((bytes : String) (msg : M)
        → env.header incoming ≡ some bytes
        → parse bytes ≡ some msg
        → P (body msg).1)
    → P (with_message parse incoming h body).1
with_message-keeps_read {env} P parse incoming h body v keep =
    elim (Option-cases (env.header incoming)) [
      | inl e ↦ rw (e, with_message) v
      | inr (bytes, e) ↦
          rw (e, with_message)
            (elim (Option-cases (parse bytes)) [
              | inl d ↦ rw d v
              | inr (msg, d) ↦ rw d (keep bytes msg e d)
            ])
    ]

pub with_message-keeps :
    {env : Env} {M : Type 0} (P : Hub env → Type 0) (parse : String → Option M)
    (incoming : env.Incoming) (h : Hub env) (body : M → Outcome × Hub env)
    → P h
    → ((msg : M) → P (body msg).1)
    → P (with_message parse incoming h body).1
with_message-keeps P parse incoming h body v keep =
    with_message-keeps_read P parse incoming h body v (λ bytes msg e d. keep msg)

-- What a handler does with a message that parses.
pub with_message-eq :
    {env : Env} {M : Type 0} (parse : String → Option M) (incoming : env.Incoming) (h : Hub env)
    (body : M → Outcome × Hub env) (bytes : String) (m : M)
    → env.header incoming ≡ some bytes
    → parse bytes ≡ some m
    → with_message parse incoming h body ≡ body m
with_message-eq parse incoming h body bytes m e d = rw (with_message, e, d) refl
