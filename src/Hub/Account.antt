-- ===== src/Hub/Account.antt =====
-- What each message in the hub's log answers to: the requests behind the replies, the registrations
-- behind the announcements.
pub mod Handlers
pub mod Requests
pub mod Reachable
use gpf.Prelude.{
  String, ◌≡◌, refl, none, some, List, [], ◌∷◌, ◌++◌, ◌⊎◌, inl, inr, ℤ, arith, subst, sym,
}
use gpf.Prelude.Lists.{Member, first, later, Member-left, Member-last, Member-snoc}
use gpf.Hub.Messages.{Registration}
use gpf.Hub.State.{
  Env, Hub, EngineConnector, Sent, Payload, notified, replied, unrouted, nothing, text, number,
  registration,
}

-- The topics of the clients' requests, each with the topics under which it is answered.
abbrev pub protocol : List (String × String)
protocol =
    ("queue_request", "queue_status_reply")
    ∷ ("result_request", "get_results_reply")
    ∷ ("result_request", "load_reply")
    ∷ ("purge_request", "purge_results_reply")
    ∷ ("purge_request", "load_reply")
    ∷ ("load_request", "load_reply")
    ∷ []

module _ (env : Env) where
  open env.engine_set use {Rows, find, insert, erase, find-insert, find-erase}

  -- The message is a registration request that reads as `msg`.
  abbrev pub Introduces : env.Incoming → Registration → Type 0
  Introduces i msg =
      (env.topic i ≡ some "registration_request")
      × ((bytes : String) × (env.header i ≡ some bytes) × (env.parse_registration bytes ≡ some msg))

  -- The connector holds what one of the messages introduces.
  pub data Introduced (ms : List env.Incoming) (ec : EngineConnector env.Incoming) : Type 0 where
    introduced :
        (msg : Registration)
        → Member ec.incoming_msg ms
        → Introduces ec.incoming_msg msg
        → ec.queue ≡ msg.queue
        → ec.heartbeat ≡ msg.heartbeat
        → ec.registration ≡ msg.reg
        → ec.services ≡ msg.services
        → Introduced ms ec

  abbrev pub announced : EngineConnector env.Incoming → Sent env.Incoming
  announced ec = notified "registration_notification" (
      registration (record {
        heartbeat = ec.heartbeat;
        queue = ec.queue;
        reg = ec.registration;
        services = ec.services;
        eid = some ec.id;
      }))

  abbrev pub acknowledged : EngineConnector env.Incoming → Sent env.Incoming
  acknowledged ec = replied ec.incoming_msg "registration_request" (text "ACK")

  -- Why the message was sent, after `ms` have come and `log` was sent.
  pub data Justified (ms : List env.Incoming) (log : List (Sent env.Incoming))
      (s : Sent env.Incoming) : Type 0 where
    acknowledges :
        (ec : EngineConnector env.Incoming)
        → s ≡ acknowledged ec
        → Introduced ms ec
        → Member (announced ec) log
        → Justified ms log s
    announces :
        (ec : EngineConnector env.Incoming)
        → s ≡ announced ec
        → Introduced ms ec
        → Justified ms log s
    departs :
        (ec : EngineConnector env.Incoming)
        → s ≡ notified "unregistration_notification" (number ec.id)
        → Member (announced ec) log
        → Justified ms log s
    answers :
        (i : env.Incoming) (request reply : String) (p : Payload)
        → s ≡ replied i reply p
        → Member i ms
        → env.topic i ≡ some request
        → Member (request, reply) protocol
        → Justified ms log s
    shuts_down :
        (i : env.Incoming)
        → (s ≡ unrouted "shutdown_reply" (text "ok"))
          ⊎ (s ≡ notified "shutdown_notification" nothing)
        → Member i ms
        → env.topic i ≡ some "shutdown_request"
        → Justified ms log s

  -- Each message of the log is justified by what was sent before it.
  pub data Ordered (ms : List env.Incoming) : List (Sent env.Incoming) → Type 0 where
    silent : Ordered ms []
    sends :
        {log log' : List (Sent env.Incoming)} (s : Sent env.Incoming)
        → Ordered ms log
        → Justified ms log s
        → log' ≡ log ++ s ∷ []
        → Ordered ms log'

  -- The log has what was sent of old, every message of it is justified by what was sent before it, every
  -- waiting connector was introduced, and every engine was announced and told.
  pub record AccountOf (old : List (Sent env.Incoming)) (ms : List env.Incoming)
      (engines incoming : Rows) (log : List (Sent env.Incoming)) : Type 0 where
    pub since : (s : Sent env.Incoming) → Member s old → Member s log
    pub justified : Ordered ms log
    pub introductions :
        (k : ℤ) (ec : EngineConnector env.Incoming) → find incoming k ≡ some ec → Introduced ms ec
    pub admissions :
        (k : ℤ) (ec : EngineConnector env.Incoming)
        → find engines k ≡ some ec
        → Introduced ms ec × Member (announced ec) log × Member (acknowledged ec) log

  abbrev pub Account : List (Sent env.Incoming) → List env.Incoming → Hub env → Type 0
  Account old ms h = AccountOf old ms h.engines h.incoming_registrations h.sent

  Justified-left :
      (ms : List env.Incoming) (log more : List (Sent env.Incoming)) (s : Sent env.Incoming)
      → Justified ms log s
      → Justified ms (log ++ more) s
  Justified-left ms log more s (acknowledges ec e i a) =
      acknowledges ec e i (Member-left _ log more a)
  Justified-left ms log more s (announces ec e i) = announces ec e i
  Justified-left ms log more s (departs ec e a) = departs ec e (Member-left _ log more a)
  Justified-left ms log more s (answers i request reply p e m t r) =
      answers i request reply p e m t r
  Justified-left ms log more s (shuts_down i e m t) = shuts_down i e m t

  pub Ordered-Justified :
      (ms : List env.Incoming) (log : List (Sent env.Incoming)) (s : Sent env.Incoming)
      → Ordered ms log
      → Member s log
      → Justified ms log s
  Ordered-Justified ms [] s silent m = elim m [ ]
  Ordered-Justified ms log s (sends {log = before} x o j e) m =
      elim (Member-snoc s x before (subst (Member s) e m)) [
        | inl p ↦
            subst (λ l. Justified ms l s) (sym e)
              (Justified-left ms before (x ∷ []) s (Ordered-Justified ms before s o p))
        | inr q ↦
            subst (λ l. Justified ms l s) (sym e)
              (Justified-left ms before (x ∷ []) s (subst (Justified ms before) (sym q) j))
      ]

  -- One more message, justified by what was sent.
  pub AccountOf-send :
      (old : List (Sent env.Incoming)) (ms : List env.Incoming) (s t : Rows)
      (log : List (Sent env.Incoming)) (x : Sent env.Incoming)
      → Justified ms log x
      → AccountOf old ms s t log
      → AccountOf old ms s t (log ++ x ∷ [])
  AccountOf-send old ms s t log x j v = record {
    since = λ y m. Member-left y log (x ∷ []) (v.since y m);
    justified = sends x v.justified j refl;
    introductions = v.introductions;
    admissions = λ k ec e.
        let a = v.admissions k ec e in
        (a.0, Member-left _ log (x ∷ []) a.1, Member-left _ log (x ∷ []) a.2);
  }

  -- One more message has come.
  Introduced-later :
      (i : env.Incoming) (ms : List env.Incoming) (ec : EngineConnector env.Incoming)
      → Introduced ms ec
      → Introduced (i ∷ ms) ec
  Introduced-later i ms ec (introduced msg m t q b r s) = introduced msg (later m) t q b r s

  Justified-later :
      (i : env.Incoming) (ms : List env.Incoming) (log : List (Sent env.Incoming))
      (s : Sent env.Incoming)
      → Justified ms log s
      → Justified (i ∷ ms) log s
  Justified-later i ms log s (acknowledges ec e o a) =
      acknowledges ec e (Introduced-later i ms ec o) a
  Justified-later i ms log s (announces ec e o) = announces ec e (Introduced-later i ms ec o)
  Justified-later i ms log s (departs ec e a) = departs ec e a
  Justified-later i ms log s (answers j request reply p e m t r) =
      answers j request reply p e (later m) t r
  Justified-later i ms log s (shuts_down j e m t) = shuts_down j e (later m) t

  Ordered-later :
      (i : env.Incoming) (ms : List env.Incoming) (log : List (Sent env.Incoming))
      → Ordered ms log
      → Ordered (i ∷ ms) log
  Ordered-later i ms [] silent = silent
  Ordered-later i ms log (sends {log = before} x o j e) =
      sends x (Ordered-later i ms before o) (Justified-later i ms before x j) e

  pub AccountOf-later :
      (i : env.Incoming) (old : List (Sent env.Incoming)) (ms : List env.Incoming) (s t : Rows)
      (log : List (Sent env.Incoming))
      → AccountOf old ms s t log
      → AccountOf old (i ∷ ms) s t log
  AccountOf-later i old ms s t log v = record {
    since = v.since;
    justified = Ordered-later i ms log v.justified;
    introductions = λ k ec e. Introduced-later i ms ec (v.introductions k ec e);
    admissions = λ k ec e. let a = v.admissions k ec e in (Introduced-later i ms ec a.0, a.1, a.2);
  }

  -- The tables change.
  pub AccountOf-empty :
      (ms : List env.Incoming) → AccountOf [] ms env.engine_set.empty env.engine_set.empty []
  AccountOf-empty ms = record {
    since = λ s m. elim m [ ];
    justified = silent;
    introductions = λ k e p. cc (env.engine_set.find-empty k);
    admissions = λ k e p. cc (env.engine_set.find-empty k);
  }

  -- A row of a table with one more.
  found-insert :
      (r : EngineConnector env.Incoming) (t : Rows) (k : ℤ) (e : EngineConnector env.Incoming)
      → find (insert r t) k ≡ some e
      → (find t k ≡ some e) ⊎ (r ≡ e)
  found-insert r t k e p = ground (arith, find-insert r t k)

  module _ (old : List (Sent env.Incoming)) (ms : List env.Incoming) (s t : Rows)
      (log : List (Sent env.Incoming)) where
    pub AccountOf-erase : (i : ℤ) → AccountOf old ms s t log → AccountOf old ms (erase i s) t log
    AccountOf-erase i v = record {
      since = v.since;
      justified = v.justified;
      introductions = v.introductions;
      admissions = λ k e p. v.admissions k e (ground (arith, find-erase i s k));
    }

    pub AccountOf-drop : (i : ℤ) → AccountOf old ms s t log → AccountOf old ms s (erase i t) log
    AccountOf-drop i v = record {
      since = v.since;
      justified = v.justified;
      introductions = λ k e p. v.introductions k e (ground (arith, find-erase i t k));
      admissions = v.admissions;
    }

    pub AccountOf-wait :
        (ec : EngineConnector env.Incoming)
        → Introduced ms ec
        → AccountOf old ms s t log
        → AccountOf old ms s (insert ec t) log
    AccountOf-wait ec o v = record {
      since = v.since;
      justified = v.justified;
      introductions = λ k e p. elim (found-insert ec t k e p) [
        | inl q ↦ v.introductions k e q
        | inr q ↦ subst (Introduced ms) q o
      ];
      admissions = v.admissions;
    }

    -- A waiting connector is announced, then told.
    pub AccountOf-admit :
        (ec : EngineConnector env.Incoming)
        → find t ec.id ≡ some ec
        → AccountOf old ms s t log
        → AccountOf old ms (insert ec s) t ((log ++ announced ec ∷ []) ++ acknowledged ec ∷ [])
    AccountOf-admit ec there v =
        let o = v.introductions ec.id ec there in
        let log₁ = log ++ announced ec ∷ [] in
        let log₂ = log₁ ++ acknowledged ec ∷ [] in
        let told : Member (announced ec) log₂ =
          Member-left _ log₁ _ (Member-last (announced ec) log) in
        let sent =
          AccountOf-send old ms s t log₁ (acknowledged ec)
            (acknowledges ec refl o (Member-last (announced ec) log))
            (AccountOf-send old ms s t log (announced ec) (announces ec refl o) v) in
        record {
          since = sent.since;
          justified = sent.justified;
          introductions = sent.introductions;
          admissions = λ k e p. elim (found-insert ec s k e p) [
            | inl q ↦ sent.admissions k e q
            | inr q ↦
                subst
                  (λ x. Introduced ms x × Member (announced x) log₂ × Member (acknowledged x) log₂)
                  q (o, told, Member-last (acknowledged ec) log₁)
          ];
        }
