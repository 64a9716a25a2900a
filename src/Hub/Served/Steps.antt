-- ===== src/Hub/Served/Steps.antt =====
-- What a reactor makes of the hub is made of the steps of the hub.
use gpf.Prelude.{
  ℕ, suc, String, Bool, true, false, ◌≡◌, refl, some, List, [], ◌∷◌, nat_eq, arith, Bool-cases,
  Option-cases, inl, inr, if◌then◌else◌,
}
use gpf.Prelude.Lists.{Member, first, later}
use gpf.Timers.{DeadlineTimer}
use gpf.Reactor.{Reactor}
use gpf.Reactor.Loop.{Callback, Polled}
use gpf.Reactor.Loop.Keeps.{Holds, run-keeps}
use gpf.Heart.{receive_pong}
use gpf.Hub.State.{Env, Timer}
use gpf.Hub.System.{System, query, monitored, timed, pong, beats, Reach, here, next}
use gpf.Hub.Names.{Names}
use gpf.Hub.Served.{
  Wake, beating, hub_timer, Service, pongs, queries, traffic, resubmissions, Program, find_timer,
  wake, on_timer, service, on_message, booted, run_hub,
}

find_timer-Member :
    (handle : ℕ) (ts : List Timer) (t : Timer) → find_timer handle ts ≡ some t → Member t ts
find_timer-Member handle [] t e = absurd (ground (arith, e))
find_timer-Member handle (x ∷ ts) t e = elim (Bool-cases (nat_eq x.handle handle)) [
  | inl d ↦ first (ground (arith, rw d at e))
  | inr d ↦ later (find_timer-Member handle ts t (rw d at e))
]

module _ (to_iso_string : ℕ → String) {env : Env} (start : System env) where
  -- The program's system is one that the hub reaches by its steps.
  abbrev pub Reached : Program env → Type 0
  Reached p = Reach env to_iso_string start p.system

  Reached-wake :
      (w : Wake) (now toc : ℕ) (p : Program env)
      → Reached p
      → Reached (wake to_iso_string w now toc p).1
  unfolding wake
  Reached-wake beating now toc p r = next r (beats p.system.0 p.system.1 now toc)
  Reached-wake (hub_timer handle) now toc p r =
      elim (Option-cases (find_timer handle p.system.1.timers)) [
        | inl e ↦ rw (wake, e) r
        | inr (t, e) ↦
            rw (wake, e)
              (next r (
                timed p.system.0 p.system.1 t.deadline now t
                  (find_timer-Member handle p.system.1.timers t e) (omega arith)))
      ]

  -- Either way, if both ways.
  Reached-if :
      (b : Bool) (x y : List (DeadlineTimer Wake) × Program env)
      → Reached x.1
      → Reached y.1
      → Reached (if b then x else y).1
  Reached-if true x y rx ry = rx
  Reached-if false x y rx ry = ry

  Reached-on_timer :
      (w : Wake) (p : Program env) → Reached p → Reached (on_timer to_iso_string w p).1
  unfolding on_timer
  Reached-on_timer w p r =
      let (now, toc) = p.readings p.fired in
      Reached-if p.ended ([], p) _ r (Reached-wake w now toc (record p { fired = suc p.fired }) r)

  Reached-service :
      (c : Service) (p : Program env) → Reached p → Reached (service to_iso_string c p).1
  unfolding service receive_pong
  Reached-service pongs p r = go p.pong_messages refl
    where
      go :
          (l : List (List String)) → p.pong_messages ≡ l → Reached (service to_iso_string pongs p).1
      go [] e = rw (service, e) r
      go ([] ∷ ms) e = rw (service, e) r
      go ((heart ∷ []) ∷ ms) e = rw (service, e) r
      go ((heart ∷ received ∷ frames) ∷ ms) e =
          rw (service, e) (next r (pong p.system.0 p.system.1 heart received))
  Reached-service queries p r = go p.query_messages refl
    where
      go :
          (l : List (ℕ × env.Incoming))
          → p.query_messages ≡ l
          → Reached (service to_iso_string queries p).1
      go [] e = rw (service, e) r
      go ((now, incoming) ∷ ms) e =
          rw (service, e) (next r (query p.system.0 p.system.1 now incoming))
  Reached-service traffic p r = go p.traffic_messages refl
    where
      go :
          (l : List (ℕ × env.Incoming))
          → p.traffic_messages ≡ l
          → Reached (service to_iso_string traffic p).1
      go [] e = rw (service, e) r
      go ((now, incoming) ∷ ms) e =
          rw (service, e) (next r (monitored p.system.0 p.system.1 now incoming))
  Reached-service resubmissions p r = r

  Reached-on_message :
      (c : Service) (v : ℕ) (p : Program env)
      → Reached p
      → Reached (on_message to_iso_string c v p).1
  unfolding on_message
  Reached-on_message c v p r = Reached-if p.ended ([], p) _ r (Reached-service c p r)

  -- Whatever the polls report, whatever is received, and however the clock is read: a hub's loop that
  -- goes on or has stopped leaves a system that the steps of the hub lead to.
  pub run_hub-Reach :
      (fuel : ℕ) (r : Reactor (Callback Service)) (polls : List (ℕ × Polled)) (p : Program env)
      → Holds Reached (run_hub to_iso_string fuel r polls (record p { system = start }))
  unfolding run_hub
  run_hub-Reach fuel r polls p =
      run-keeps (on_timer to_iso_string) (on_message to_iso_string) Reached Reached-on_timer
        Reached-on_message fuel [] r polls (booted (record p { system = start })) here
