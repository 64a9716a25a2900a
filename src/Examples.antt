-- ===== src/Examples.antt =====
-- A concrete surrounding of the hub, and a hub in it, for the examples.
pub mod Hearts
pub mod Engines
pub mod Work
pub mod Requests
pub mod Clockwork
pub mod Loops
pub mod Handshake
pub mod Network
pub mod Service
pub mod Running
pub mod Standing
pub mod Ledger
pub mod Wire
pub mod Addresses
pub mod Dictionary
pub mod Factory
use gpf.Prelude.{
  ℕ, String, Bool, true, false, ◌≡◌, refl, Option, none, some, List, [], ◌∷◌, ◌==◌, pos, string_eq,
  int_eq, if◌then◌else◌,
}
use gpf.Table.Listed.{listed}
use gpf.Hub.Messages.{
  Registration, LoadRequest, QueueStatusRequest, PurgeResultsRequest, GetResultsRequest, In, Out,
  InTask, OutTask, TrackTask,
}
use gpf.Monitor.{Monitor, new}
use gpf.Hub.State.{Env, Hub, Ptime, not_a_date_time, at, EngineConnector, Task}
use gpf.Hub.System.{create}

pub record Frames : Type 0 where
  pub topic : Option String
  pub header : Option String

-- The value whose name is the text.
abbrev pub named : {A : Type 0} → String → A → String → Option A
named name a s = if s == name then some a else none

abbrev pub alpha : Registration
alpha = record {
  heartbeat = "alpha's heart";
  queue = "alpha";
  reg = "alpha's reg";
  services = [];
  eid = none;
}

-- What an engine called `worker` sends.
abbrev pub worker : Registration
worker = record {
  heartbeat = "worker-heart";
  queue = "worker-queue";
  reg = "";
  services = "echo" ∷ [];
  eid = none;
}

abbrev pub t1_in : In
t1_in = record { msg_id = "t1"; eid = pos 0; submitted = "six" }

abbrev pub t1_out : Out
t1_out = record { msg_id = "t1"; eid = pos 0; completed = "seven"; started = "six" }

abbrev pub t1_garbled : Out
t1_garbled = record { msg_id = "t1"; eid = pos 0; completed = "garbled"; started = "six" }

abbrev pub t2_intask : InTask
t2_intask = record { msg_id = "t2"; eid = none; submitted = "six" }

abbrev pub t1_outtask : OutTask
t1_outtask = record { msg_id = "t1"; eid = pos 1; completed = "seven"; started = "six" }

abbrev pub t1_tracktask : TrackTask
t1_tracktask = record { msg_id = "t1"; eid = pos 1 }

abbrev pub ask_load : LoadRequest
ask_load = record { eid = pos 0 ∷ [] }

abbrev pub ask_status : QueueStatusRequest
ask_status = record { verbose = true; eids = pos 0 ∷ [] }

abbrev pub ask_purge : PurgeResultsRequest
ask_purge = record { all = false; msg_ids = "t0" ∷ "t1" ∷ []; eids = pos 0 ∷ [] }

abbrev pub ask_results : GetResultsRequest
ask_results = record { msg_ids = "t1" ∷ []; status_only = false }

abbrev pub time_named : String → Option Ptime
time_named s = if s == "six" then some (at 6) else if s == "seven" then some (at 7) else none

abbrev pub surrounding : Env
surrounding = record {
  Incoming = Frames;
  topic = λ f. f.topic;
  header = λ f. f.header;
  parse_registration = λ s. if s == "alpha" then some alpha else named "worker" worker s;
  parse_in = named "t1" t1_in;
  parse_out = λ s. if s == "t1" then some t1_out else named "garbled" t1_garbled s;
  parse_intask = named "t2" t2_intask;
  parse_outtask = named "t1" t1_outtask;
  parse_tracktask = named "t1" t1_tracktask;
  parse_load_request = named "load" ask_load;
  parse_queue_status_request = named "status" ask_status;
  parse_purge_results_request = named "purge" ask_purge;
  parse_get_results_request = named "results" ask_results;
  from_iso_string = time_named;
  engine_set = listed int_eq (λ (e : EngineConnector Frames). e.id);
  task_set = listed string_eq (λ (t : Task Frames). t.id);
}

abbrev pub message : String → String → Frames
message topic bytes = record { topic = some topic; header = some bytes }

-- The hub as it starts.
unfoldable pub started : Hub surrounding
unfolding create
started = (create surrounding (new 1000 0 0 0 0) 0).1
