-- ===== src/Lib.antt =====
-- gpf is a framework for distributing work to engines over ZeroMQ, after the controller of IPython. A
-- hub (gpf/controller/hub.cpp) keeps track of the engines and of the tasks on them. Engines register
-- and unregister on its query socket, where clients also ask for load, status and results; queues
-- report each request and each result on its monitor socket. A heart monitor
-- (gpf/controller/heartmonitor.cpp) pings the engines' hearts; it tells the hub, by callbacks, which
-- hearts are new and which have failed, and the hub asks it whether a heart is alive. Both live in one
-- reactor (zmq-poll-wrapper/), which calls them when a socket is readable or a timer is due. An engine
-- (gpf/engine/engine.cpp) has a heart and a reactor of its own. A factory
-- (gpf/controller/hub_factory.cpp) chooses the ports, binds the sockets and makes the monitor and the
-- hub. All paths are those of the repository, below its folder src/.
--
-- Files:
-- - Prelude: shared names, tests on numbers and texts, keys with a decidable equality, lists.
-- - StringSet: `std::set<std::string>` as far as the code uses it.
-- - Monitor: the class heartmonitor. A record for its fields; the constructor, `handle_pong`, `beat`
--   and the handlers are functions with the source's names. Monitor/Sets to Monitor/Rounds: one beat,
--   the callbacks, one heart as a state machine, and rounds of pongs and beats; Monitor/Notices: whom a
--   beat tells what.
-- - Heart: the class heart of the same file, which answers the pings; Heart/Echo: it and the monitor;
--   Heart/Loop: it in its reactor.
-- - Table: the interface of `boost::multi_index_container` that engine_set.hpp and task_set.hpp use,
--   with lemmas in Table/Separate and Table/Lookup and one implementation in Table/Listed.
-- - Hub/Messages: the messages of gpf/messages/hub.proto. Hub/State: the rows of engine_set.hpp and
--   task_set.hpp, the fields of the hub, its timers, and what it relies on.
-- - Hub/Registration: `register_engine`, `finish_registration`, `handle_new_heart`,
--   `handle_heart_failure`, `unregister_engine` and their helpers. Its children: Lifecycle (from request
--   to confirmation or deadline), Departure, Rejoining, Failure (of a heart), Untouched (what
--   registration leaves alone).
-- - Hub/Tasks: the handlers of the monitor socket (`save_queue_request` to `save_task_destination`) and
--   `_handle_stranded_msgs`, with Requests, Results, Assignment, Tracking,
--   Stranded and Reachable.
-- - Hub/Queries: `check_load`, `queue_status`, `purge_results`, `get_results`, `shutdown_request`, with
--   Replies, Purge, Status and Statuses.
-- - Hub/Dispatch: the two dispatchers, the tables of handlers, the timers' callbacks.
-- - Hub/System: the constructor, and the hub with its heart monitor as a relation of steps.
-- - Hub/Served: both in a reactor, and `hub::run`, with Steps. Hub/Confirmation: a waiting
--   registration, with Beat: the beat of its heart.
-- - Hub/Names: the invariant of the system, operation by operation. Hub/Ids: the counter of engine ids.
-- - Hub/Account: what each message that the hub has sent answers to, with Handlers, Requests and
--   Reachable. Hub/Standing: the life of one id as a machine of five moves, with Handlers, Requests and
--   Reachable. Hub/Ledger: the reports behind what the hub knows of tasks, with Reports, Clients,
--   Reachable and Answers.
-- - Engine: the class engine of gpf/engine/engine.cpp; Engine/Handshake: an engine and the hub;
--   Engine/Wire: the same with the bytes of the request; Engine/Loop: the engine in its reactor;
--   Engine/Replies and Engine/Network: the engine and the hub's run, and what of its replies arrives;
--   Engine/Joining: an engine, its heart, the monitor and the hub.
-- - Client: the class client of gpf/client/client.cpp. Dictionary: `dict_db` of gpf/controller/db.hpp.
-- - Timers: `deadline_timer` and `timer_queue` of zmq-poll-wrapper/timer.hpp, with Order and Firing. The
--   queue is a list in the order of the deadlines.
-- - Url: `url::parse` and `validate_url` of gpf/util/url_handling.cpp over bytes, with Split, Parse and
--   RoundTrip. Factory: gpf/util/portpool.hpp and the constructor, setters and info structs of
--   gpf/controller/hub_factory.cpp, with Ports and Valid; Factory/Launch: its method `get`, with Bound.
-- - Reactor: the lists of sockets of zmq-poll-wrapper/reactor.hpp, with Aligned. Reactor/Loop: its
--   constructor, `operator()` and `run`, with Events, Wakeable, Keeps, Timeout
--   and Single: a reactor with one socket of the program.
-- - Serialization: the class template of gpf/serialization.hpp over its three archives, with RoundTrip.
-- - Examples: a surrounding of the hub that can be run, and the theorems at concrete inputs.
--
-- A handler is a function from the message and the hub to an outcome (returned or thrown) and the
-- hub afterwards. What is sent is appended to a log. An exception leaves what was written before it.
-- A message is a value of a type `Incoming` that the record `Env` provides; `Env` also has what the
-- code calls and does not implement: the frames of a message, the parsers that protobuf generates,
-- the parser of times, and the two containers. Nothing is assumed of the parsers, but in
-- Engine/Wire; of the containers, the documented laws of `Table`. Times are microseconds, and a
-- handler is given the reading of the clock.
--
-- Loops over lists are recursions on the list. `fire_due`, whose callbacks may add timers, has fuel:
-- one more than the number of due timers is enough if what is added is not due. The reactor's `run`
-- is a recursion on the list of what the polls will report, and still going when the list ends; that
-- polls end in time is not a claim. The natural numbers have no bound; the counter of engine ids, an
-- `int` in the source, has a theorem. In the relation of steps any timer that was due when the loop
-- looked at the clock may fire, so what holds for it holds for the order that the priority queue
-- chooses; the readings of the clock are any numbers. In
-- Hub/Served the reactor's own loop and queue choose; what the sockets receive and the clock reads
-- is part of its state. That `fire_due` ends there is not a claim: it does if what
-- the callbacks add is not due, which depends on the clock. Rows are
-- shared by pointers in the source only between a timer and the connector that it belongs to, which
-- here is a handle.
--
-- Of the C library and Boost, the parser of URLs has `tolower` and `lexical_cast` as parameters, and the
-- factory the printing of a port and the pass of `boost::format` over a text that is made at run time;
-- the serializer has Boost's archives and protobuf's methods. What is
-- assumed of them stands with the theorems.
--
-- Not modelled: the sockets and what ZeroMQ does between them, threads, logging, and the type
-- definitions of the exceptions, which are outcomes here.
pub mod Prelude
pub mod Client
pub mod Dictionary
pub mod Engine
pub mod Examples
pub mod Factory
pub mod Heart
pub mod Hub
pub mod Monitor
pub mod Reactor
pub mod Serialization
pub mod StringSet
pub mod Table
pub mod Timers
pub mod Url
