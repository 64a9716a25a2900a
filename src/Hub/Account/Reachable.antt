-- ===== src/Hub/Account/Reachable.antt =====
-- In a run of the hub, its log is accounted for by the requests that have come.
use gpf.Prelude.{ℕ, String, ◌≡◌, refl, List, [], ◌∷◌, inl, inr, Bool-cases}
use gpf.Prelude.Lists.{All, Member, first, later}
use gpf.Monitor.{new, alive}
use gpf.Monitor.Callbacks.{Kept-beat}
use gpf.Hub.State.{
  Env, Hub, Timer, Sent, Action, purge_stalled_registration, handle_stranded_msgs, shutdown,
}
use gpf.Hub.Registration.{handle_new_heart, handle_heart_failure}
use gpf.Hub.Queries.{nop}
use gpf.Hub.Names.Tasks.{
  same-save_queue_request, same-save_task_request, same-handle_stranded, same-save_queue_result,
  same-save_task_result, same-save_task_destination,
}
use gpf.Hub.Tasks.{
  save_queue_request, save_queue_result, save_task_request, save_task_result, save_task_destination,
  handle_stranded,
}
use gpf.Hub.Dispatch.{dispatch_monitor_traffic, monitor_handlers, act, fire}
use gpf.Hub.Dispatch.Keeps.{dispatch-keeps}
use gpf.Hub.System.{System, create, Step, query, monitored, timed, pong, beats, Reach, here, next}
use gpf.Hub.Ids.Run.{callbacks}
use gpf.Hub.Account.{Account, AccountOf-empty, AccountOf-later}
use gpf.Hub.Account.Handlers.{
  Account-same, Account-handle_new_heart, Account-handle_heart_failure, Account-purge_stalled,
}
use gpf.Hub.Account.Requests.{Account-dispatch_query}

-- The messages that have come on the query socket, after one step more than `ms`.
abbrev pub heard :
    {env : Env} {to_iso_string : ℕ → String} {s t : System env}
    → List env.Incoming
    → Step env to_iso_string s t
    → List env.Incoming
heard ms (query m h now incoming) = incoming ∷ ms
heard ms (monitored m h now incoming) = ms
heard ms (timed m h looked now t live due) = ms
heard ms (pong m h heart received) = ms
heard ms (beats m h now toc) = ms

pub Member-heard :
    {env : Env} {to_iso_string : ℕ → String} {s t : System env} (ms : List env.Incoming)
    (st : Step env to_iso_string s t) (i : env.Incoming)
    → Member i ms
    → Member i (heard ms st)
Member-heard ms (query m h now incoming) i p = later p
Member-heard ms (monitored m h now incoming) i p = p
Member-heard ms (timed m h looked now t live due) i p = p
Member-heard ms (pong m h heart received) i p = p
Member-heard ms (beats m h now toc) i p = p

pub All-heard :
    {env : Env} {to_iso_string : ℕ → String} {s t : System env} (P : env.Incoming → Type 0)
    (ms : List env.Incoming) (st : Step env to_iso_string s t)
    → All P (heard ms st)
    → All P (heard [] st) × All P ms
All-heard P ms (query m h now incoming) a = ((a.0, tt), a.1)
All-heard P ms (monitored m h now incoming) a = (tt, a)
All-heard P ms (timed m h looked now t live due) a = (tt, a)
All-heard P ms (pong m h heart received) a = (tt, a)
All-heard P ms (beats m h now toc) a = (tt, a)

-- The messages that have come on the query socket in a run, the latest first.
abbrev pub received :
    {env : Env} {to_iso_string : ℕ → String} {s t : System env}
    → Reach env to_iso_string s t
    → List env.Incoming
received here = []
received (next r st) = heard (received r) st

module _ {env : Env} (old : List (Sent env.Incoming)) (ms : List env.Incoming) where
  Account-dispatch_monitor_traffic :
      (incoming : env.Incoming) (h : Hub env)
      → Account env old ms h
      → Account env old ms (dispatch_monitor_traffic incoming h).1
  unfolding dispatch_monitor_traffic monitor_handlers nop
  Account-dispatch_monitor_traffic incoming h v =
      dispatch-keeps (Account env old ms) (monitor_handlers env) incoming h
        (
          (λ i g. Account-same old ms g (save_queue_request i g).1 (same-save_queue_request i g)),
          (
            (λ i g. Account-same old ms g (save_queue_result i g).1 (same-save_queue_result i g)),
            (
              (λ i g. Account-same old ms g (save_task_request i g).1 (same-save_task_request i g)),
              (
                (λ i g. Account-same old ms g (save_task_result i g).1 (same-save_task_result i g)),
                (
                  (λ i g.
                      Account-same old ms g (save_task_destination i g).1
                        (same-save_task_destination i g)),
                  ((λ i g w. w), ((λ i g w. w), tt)),
                ),
              ),
            ),
          ),
        )
        v

  Account-act : (a : Action) (h : Hub env) → Account env old ms h → Account env old ms (act a h)
  unfolding act
  Account-act (purge_stalled_registration heart) h v = Account-purge_stalled old ms heart h v
  Account-act (handle_stranded_msgs eid uuid) h v =
      Account-same old ms h (handle_stranded h.clock eid h) (same-handle_stranded h.clock eid h) v
  Account-act shutdown h v = v

  Account-fire : (t : Timer) (h : Hub env) → Account env old ms h → Account env old ms (fire t h)
  unfolding fire
  Account-fire t h v = elim (Bool-cases t.active) [
    | inl e ↦ rw (e, fire) (Account-act t.action h v)
    | inr e ↦ rw (e, fire) v
  ]

  pub Account-Step :
      {to_iso_string : ℕ → String} {s t : System env} (st : Step env to_iso_string s t)
      → s.0.new_heart_callbacks ≡ handle_new_heart ∷ []
      → s.0.failed_heart_callbacks ≡ (λ heart h. handle_heart_failure h.clock heart h) ∷ []
      → Account env old ms s.1
      → Account env old (heard ms st) t.1
  Account-Step (query m h now incoming) n f v =
      Account-dispatch_query old (incoming ∷ ms) incoming (first refl) (alive m)
        (record h { clock = now })
        (AccountOf-later env incoming old ms h.engines h.incoming_registrations h.sent v)
  Account-Step (monitored m h now incoming) n f v =
      Account-dispatch_monitor_traffic incoming (record h { clock = now }) v
  Account-Step (timed m h looked now t live due) n f v = Account-fire t (record h { clock = now }) v
  Account-Step (pong m h heart received) n f v = v
  Account-Step {to_iso_string} (beats m h now toc) n f v =
      (Kept-beat (Account env old ms) to_iso_string now toc m (record h { clock = now })
        (record {
          new = rw n (Account-handle_new_heart old ms, tt);
          failed = rw f ((λ heart g w. Account-handle_heart_failure old ms g.clock heart g w), tt);
          now = v;
        })).now

module _ {env : Env} {to_iso_string : ℕ → String} (interval t0 t1 t2 t3 next_id : ℕ) where
  -- In every state that a hub with a new heart monitor reaches, whatever comes and whenever timers and
  -- beats fall: every message that it has sent is justified by the messages that have come and by what was
  -- sent before it. An acknowledgement of a registration goes to a registration request that has come and
  -- can be read, and an engine with the names and services of that request was announced before; an
  -- announcement of an engine gives the names, the text and the services of such a request; an engine of
  -- which the end is announced was announced before; every other reply goes to a message that has come, under one of the topics that the protocol has for it;
  -- and a shutdown is announced only when one was requested. Every waiting connector was introduced by
  -- such a request, and every engine was, was announced, and was told.
  pub Reach-Account :
      {t : System env}
      (r : Reach env to_iso_string (create env (new interval t0 t1 t2 t3) next_id) t)
      → Account env [] (received r) t.1
  unfolding create
  Reach-Account here = AccountOf-empty env []
  Reach-Account (next r st) =
      let calls = callbacks interval t0 t1 t2 t3 next_id r in
      Account-Step [] (received r) st calls.0 calls.1 (Reach-Account r)
