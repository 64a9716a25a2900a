-- ===== src/Hub/Standing/Reachable.antt =====
-- In a run of the hub, each id lives as the specification says.
use gpf.Prelude.{
  ℕ, String, ◌≡◌, refl, sym, subst, ◌∙◌, none, [], ◌∷◌, ◌⊎◌, inl, inr, ℤ, pos, Bool-cases, arith,
}
use gpf.Monitor.{new, alive}
use gpf.Monitor.Callbacks.{Kept-beat}
use gpf.Hub.State.{
  Env, Hub, Timer, Action, purge_stalled_registration, handle_stranded_msgs, shutdown,
}
use gpf.Hub.Registration.{handle_new_heart, handle_heart_failure}
use gpf.Hub.Tasks.{handle_stranded}
use gpf.Hub.Names.{Below, Below-suc}
use gpf.Hub.Names.Tasks.{same-handle_stranded}
use gpf.Hub.Dispatch.{act, fire}
use gpf.Hub.System.{System, create, Step, query, monitored, timed, pong, beats, Reach, here, next}
use gpf.Hub.Ids.Run.{callbacks}
use gpf.Hub.Standing.{
  Standing, Move, counts, applies, joins, expires, leaves, Moves, stays, moves, Moves-trans,
}
use gpf.Hub.Standing.Handlers.{
  standing_of, Steps, Steps-refl, Steps-trans, Steps-same, Steps-handle_new_heart,
  Steps-handle_heart_failure, Steps-purge_stalled,
}
use gpf.Hub.Standing.Requests.{Steps-dispatch_query, Steps-dispatch_monitor_traffic}

Below-next : (n : ℕ) (k : ℤ) → k ≡ pos n → Below n k → ⊥
Below-next n k e b = ground (arith, b, e)

module _ {env : Env} where
  Steps-act : (a : Action) (h : Hub env) → Steps h (act a h)
  unfolding act
  Steps-act (purge_stalled_registration heart) h = Steps-purge_stalled heart h
  Steps-act (handle_stranded_msgs eid uuid) h =
      Steps-same h (handle_stranded h.clock eid h) (same-handle_stranded h.clock eid h)
  Steps-act shutdown h = Steps-refl h

  Steps-fire : (t : Timer) (h : Hub env) → Steps h (fire t h)
  unfolding fire
  Steps-fire t h k = elim (Bool-cases t.active) [
    | inl e ↦ rw (e, fire) (Steps-act t.action h k)
    | inr e ↦ rw (e, fire) (stays refl)
  ]

  Step-Steps :
      {to_iso_string : ℕ → String} {s t : System env}
      → Step env to_iso_string s t
      → s.0.new_heart_callbacks ≡ handle_new_heart ∷ []
      → s.0.failed_heart_callbacks ≡ (λ heart h. handle_heart_failure h.clock heart h) ∷ []
      → Steps s.1 t.1
  Step-Steps (query m h now incoming) n f =
      Steps-dispatch_query (alive m) incoming (record h { clock = now })
  Step-Steps (monitored m h now incoming) n f =
      Steps-dispatch_monitor_traffic incoming (record h { clock = now })
  Step-Steps (timed m h looked now t live due) n f = Steps-fire t (record h { clock = now })
  Step-Steps (pong m h heart received) n f = Steps-refl h
  Step-Steps {to_iso_string} (beats m h now toc) n f =
      (Kept-beat (Steps h) to_iso_string now toc m (record h { clock = now })
        (record {
          new = rw n (
            (λ heart g p.
                Steps-trans h g (handle_new_heart heart g) p (Steps-handle_new_heart heart g)),
            tt,
          );
          failed = rw f (
            (λ heart g p.
                Steps-trans h g (handle_heart_failure g.clock heart g) p
                  (Steps-handle_heart_failure g.clock heart g)),
            tt,
          );
          now = Steps-refl h;
        })).now

  -- The id has been given, and no registration waits under it.
  abbrev Spent : ℤ → Standing env → Type 0
  Spent k s = Below s.next_id k × (s.waiting ≡ none)

  -- Its engine is there as it was, or is gone.
  abbrev Fades : Standing env → Standing env → Type 0
  Fades s t = (t.engine ≡ s.engine) ⊎ (t.engine ≡ none)

  Move-Spent : (k : ℤ) (s t : Standing env) → Move env k s t → Spent k s → Spent k t × Fades s t
  Move-Spent k s t (counts n w e) (b, q) = ((rw n (Below-suc s.next_id k b), w ∙ q), inl e)
  Move-Spent k s t (applies ec i id w n v e) (b, q) = absurd (Below-next s.next_id k i b)
  Move-Spent k s t (joins ec w e n v f) (b, q) = absurd (cc (w, q))
  Move-Spent k s t (expires ec w n v e) (b, q) = absurd (cc (w, q))
  Move-Spent k s t (leaves ec e n w f) (b, q) = ((rw n b, w ∙ q), inr f)

  Fades-trans : (s t u : Standing env) → Fades s t → Fades t u → Fades s u
  Fades-trans s t u f (inr e) = inr e
  Fades-trans s t u (inl d) (inl e) = inl (e ∙ d)
  Fades-trans s t u (inr d) (inl e) = inr (e ∙ d)

  Moves-Spent : (k : ℤ) (s t : Standing env) → Spent k s → Moves env k s t → Spent k t × Fades s t
  Moves-Spent k s t spent (stays e) = subst (λ x. Spent k x × Fades s x) (sym e) (spent, inl refl)
  Moves-Spent k s t spent (moves {u = u} p m) =
      let (before, fades) = Moves-Spent k s u spent p in
      let (after, on) = Move-Spent k u t m before in (after, Fades-trans s u t fades on)

  Reach-trans :
      {to_iso_string : ℕ → String} {s t u : System env}
      → Reach env to_iso_string s t
      → Reach env to_iso_string t u
      → Reach env to_iso_string s u
  Reach-trans p here = p
  Reach-trans p (next r st) = next (Reach-trans p r) st

module _ {env : Env} {to_iso_string : ℕ → String} (interval t0 t1 t2 t3 next_id : ℕ) where
  -- In a run of a hub with a new heart monitor, whatever comes and whenever timers and beats fall, each id
  -- makes moves of the specification only, from any point of the run on: it is taken by a request only
  -- when the counter stands at it and nothing waits under it; an engine gets into the table of engines only
  -- from the waiting registrations, as it is there, when the id has no engine; and otherwise what waits is
  -- dropped or the engine is erased.
  pub Reach-Moves :
      {t u : System env}
      → Reach env to_iso_string (create env (new interval t0 t1 t2 t3) next_id) t
      → Reach env to_iso_string t u
      → (k : ℤ) → Moves env k (standing_of k t.1) (standing_of k u.1)
  Reach-Moves p here k = stays refl
  Reach-Moves p (next r st) k =
      let calls = callbacks interval t0 t1 t2 t3 next_id (Reach-trans p r) in
      Moves-trans env (Reach-Moves p r k) (Step-Steps st calls.0 calls.1 k)

  -- In a run of a hub with a new heart monitor: an id that has been given, and under which no registration
  -- waits, is never waited under again, and its engine, if there is one, stays as it is until it is
  -- gone, and does not come back.
  pub Reach-Spent :
      {t u : System env}
      → Reach env to_iso_string (create env (new interval t0 t1 t2 t3) next_id) t
      → (r : Reach env to_iso_string t u) → (k : ℤ) → Below t.1.next_id k
      → env.engine_set.find t.1.incoming_registrations k ≡ none
      → (env.engine_set.find u.1.incoming_registrations k ≡ none)
        × ((env.engine_set.find u.1.engines k ≡ env.engine_set.find t.1.engines k)
            ⊎ (env.engine_set.find u.1.engines k ≡ none))
  Reach-Spent {t} {u} p r k given spent =
      let (after, fades) =
        Moves-Spent k (standing_of k t.1) (standing_of k u.1) (given, spent) (Reach-Moves p r k) in
      (after.1, fades)
