-- ===== src/Engine/Network.antt =====
-- An engine and the hub in one network: the hub's run, and what of its replies reaches the engine.
use gpf.Prelude.{ℕ, String, true, false, ◌≡◌, sym, ◌∙◌, ap, subst, some, List, inl, inr}
use gpf.Prelude.Lists.{Member}
use gpf.Monitor.{new}
use gpf.Hub.Messages.{Registration}
use gpf.Hub.State.{Env, Sent, Payload, notified, replied, registration}
use gpf.Hub.System.{System, create, Step, Reach, here, next}
use gpf.Hub.Ids.Run.{callbacks}
use gpf.Hub.Account.{
  Account, Ordered-Justified, Introduces, introduced, Justified, acknowledges, announces, departs,
  answers, shuts_down, protocol,
}
use gpf.Hub.Account.Reachable.{heard, received, Member-heard, Account-Step, Reach-Account}
use gpf.Engine.{Engine, introduction, dispatch_registration}
use gpf.Engine.Handshake.{text_frames}
use gpf.Engine.Replies.{reply-cases, not_registration}

module _ (env : Env) (to_iso_string : ℕ → String) (start : System env) (new_engine : Engine) where
  -- The engine and the hub: the hub takes its steps, whatever requests come; a reply that it has sent to a
  -- request with the engine's introduction reaches the engine at any time, any number of times.
  pub data Network : Engine → System env → Type 0 where
    begins : Network new_engine start
    hub_steps :
        {e : Engine} {s t : System env} → Network e s → Step env to_iso_string s t → Network e t
    delivers :
        {e : Engine} {s : System env} (i : env.Incoming) (topic : String) (p : Payload)
        (e' : Engine)
        → Network e s
        → Member (replied i topic p) s.1.sent
        → Introduces env i (introduction e)
        → dispatch_registration (text_frames (replied i topic p)) e ≡ some e'
        → Network e' s

  -- The run of the hub in it.
  abbrev pub run_of : {e : Engine} {s : System env} → Network e s → Reach env to_iso_string start s
  run_of begins = here
  run_of (hub_steps n st) = next (run_of n) st
  run_of (delivers i topic p e' n m o d) = run_of n

module _ (env : Env) where
  -- The hub has told the world of the engine.
  pub record Announced (e : Engine) (ms : List env.Incoming) (log : List (Sent env.Incoming))
      : Type 0 where
    pub what : Registration
    pub queue : what.queue ≡ e.queue_name
    pub heartbeat : what.heartbeat ≡ e.heart_name
    pub services : what.services ≡ e.services
    pub announcement : Member (notified "registration_notification" (registration what)) log
    pub request : env.Incoming
    pub came : Member request ms
    pub introduces : Introduces env request (introduction e)

  introduced_once :
      (i j : env.Incoming) (m n : Registration)
      → i ≡ j
      → Introduces env i m
      → Introduces env j n
      → m ≡ n
  introduced_once i j m n q (t, (b, hb, pb)) (u, (c, hc, pc)) =
      let h : some b ≡ some c = sym hb ∙ ap env.header q ∙ hc in
      let bc : b ≡ c = cc in
      let r : some m ≡ some n = sym pb ∙ ap env.parse_registration bc ∙ pc in cc

  -- An acknowledgement in the log shows it.
  acknowledged-Announced :
      (e : Engine) (i : env.Incoming) (p : Payload) (ms : List env.Incoming)
      (log : List (Sent env.Incoming))
      → Introduces env i (introduction e)
      → Justified env ms log (replied i "registration_request" p)
      → Announced e ms log
  acknowledged-Announced e i p ms log o (acknowledges ec q (introduced msg m is qu he re se) a) =
      let from : ec.incoming_msg ≡ i = cc in
      let same : msg ≡ introduction e =
        introduced_once ec.incoming_msg i msg (introduction e) from is o in
      record {
        what = _;
        queue = cc;
        heartbeat = cc;
        services = cc;
        announcement = a;
        request = i;
        came = subst (λ k. Member k ms) from m;
        introduces = o;
      }
  acknowledged-Announced e i p ms log o (announces ec q j) = cc
  acknowledged-Announced e i p ms log o (departs ec q a) = cc
  acknowledged-Announced e i p ms log o (answers j request reply r q m t member) =
      elim (not_registration request (subst (λ k. Member (request, k) protocol) (cc) member)) [ ]
  acknowledged-Announced e i p ms log o (shuts_down j (inl q) m t) = cc
  acknowledged-Announced e i p ms log o (shuts_down j (inr q) m t) = cc

  -- A connector's announcement stays in the log, and its request among those that have come.
  Announced-Step :
      {to_iso_string : ℕ → String} {s t : System env} (e : Engine) (ms : List env.Incoming)
      (st : Step env to_iso_string s t)
      → ((x : Sent env.Incoming) → Member x s.1.sent → Member x t.1.sent)
      → Announced e ms s.1.sent
      → Announced e (heard ms st) t.1.sent
  Announced-Step e ms st grows a = record {
    what = a.what;
    queue = a.queue;
    heartbeat = a.heartbeat;
    services = a.services;
    announcement = grows _ a.announcement;
    request = a.request;
    came = Member-heard ms st a.request a.came;
    introduces = a.introduces;
  }

  -- It is the same engine when it is registered.
  Announced-registered :
      (e e' : Engine) (ms : List env.Incoming) (log : List (Sent env.Incoming))
      → e' ≡ record e { registered = true }
      → Announced e ms log
      → Announced e' ms log
  Announced-registered e e' ms log q a =
      subst (λ x. Announced x ms log) (sym q)
        (record {
          what = a.what;
          queue = a.queue;
          heartbeat = a.heartbeat;
          services = a.services;
          announcement = a.announcement;
          request = a.request;
          came = a.came;
          introduces = a.introduces;
        })

  module _ (to_iso_string : ℕ → String) (interval t0 t1 t2 t3 next_id : ℕ) (new_engine : Engine)
      (unregistered : new_engine.registered ≡ false) where
    abbrev Joint : Engine → System env → Type 0
    Joint = Network env to_iso_string (create env (new interval t0 t1 t2 t3) next_id) new_engine

    -- In a network of an engine that starts unregistered and a hub with a new heart monitor, whatever other
    -- requests come, whenever timers and beats fall, and whenever and how often the hub's replies to
    -- the engine's introduction reach it: once the engine takes itself for registered, the hub has
    -- announced an engine with its queue, its heart and its services, and a request with its
    -- introduction has come to the hub.
    pub Network-Announced :
        {e : Engine} {s : System env} (n : Joint e s)
        → e.registered ≡ true
        → Announced e (received (run_of env to_iso_string _ new_engine n)) s.1.sent
    Network-Announced begins on = cc
    Network-Announced {e} {s} (hub_steps {s = before} n st) on =
        let r = run_of env to_iso_string _ new_engine n in
        let calls = callbacks interval t0 t1 t2 t3 next_id r in
        let v = Reach-Account interval t0 t1 t2 t3 next_id r in
        let now : Account env before.1.sent (received r) before.1 = record {
          since = λ x m. m;
          justified = v.justified;
          introductions = v.introductions;
          admissions = v.admissions;
        } in
        Announced-Step e (received r) st
          (Account-Step before.1.sent (received r) st calls.0 calls.1 now).since
          (Network-Announced n on)
    Network-Announced {e} {s} (delivers {e = b} i topic p d n m o ack) on =
        let r = run_of env to_iso_string _ new_engine n in
        let v = Reach-Account interval t0 t1 t2 t3 next_id r in
        elim (reply-cases i topic p b e ack) [
          | inl same ↦
              subst (λ x. Announced x (received r) s.1.sent) (sym same)
                (Network-Announced n (ap (λ (x : Engine). x.registered) (sym same) ∙ on))
          | inr (is, told) ↦ Announced-registered b e (received r) s.1.sent told (
              acknowledged-Announced b i p (received r) s.1.sent o (
                Ordered-Justified env (received r) s.1.sent _ v.justified
                  (subst (λ k. Member (replied i k p) s.1.sent) is m)))
        ]
