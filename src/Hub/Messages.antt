-- ===== src/Hub/Messages.antt =====
-- The messages of gpf/messages/hub.proto that the hub reads and writes. An optional string that is
-- absent reads as its default, the empty text.
use gpf.Prelude.{ℕ, String, Bool, true, Option, List, ℤ}

pub record Registration : Type 0 where
  pub heartbeat : String
  pub queue : String
  pub reg : String
  pub services : List String
  pub eid : Option ℤ

pub record LoadRequest : Type 0 where
  pub eid : List ℤ

pub record LoadReply : Type 0 where
  pub eid : List ℤ
  pub queuelen : List ℕ
  pub taskslen : List ℕ

pub record QueueStatusRequest : Type 0 where
  pub verbose : Bool
  pub eids : List ℤ

-- `queue_status_reply::status`; `none` is a required field that was not set.
pub record EngineStatus : Type 0 where
  pub eid : Option ℤ
  pub queuelen : Option ℕ
  pub taskslen : Option ℕ
  pub queues : List String
  pub completed : List String
  pub tasks : List String

pub record QueueStatusReply : Type 0 where
  pub engine : List EngineStatus

pub record PurgeResultsRequest : Type 0 where
  pub all : Bool
  pub msg_ids : List String
  pub eids : List ℤ

pub record PurgeResultsReply : Type 0 where
  pub ok : Bool

pub record GetResultsRequest : Type 0 where
  pub msg_ids : List String
  pub status_only : Bool

pub data ResultStatus : Type 0 where
  pending completed unassigned : ResultStatus

-- `get_results_reply::result`
pub record TaskResult : Type 0 where
  pub msg_id : String
  pub status : ResultStatus
  pub content : Option String

pub record GetResultsReply : Type 0 where
  pub results : List TaskResult

pub record In : Type 0 where
  pub msg_id : String
  pub eid : ℤ
  pub submitted : String

pub record Out : Type 0 where
  pub msg_id : String
  pub eid : ℤ
  pub completed : String
  pub started : String

pub record InTask : Type 0 where
  pub msg_id : String
  pub eid : Option ℤ
  pub submitted : String

pub record OutTask : Type 0 where
  pub msg_id : String
  pub eid : ℤ
  pub completed : String
  pub started : String

-- The field is required, so every message that was parsed has it.
abbrev pub has_eid : OutTask → Bool
has_eid m = true

pub record TrackTask : Type 0 where
  pub msg_id : String
  pub eid : ℤ
