-- ===== src/Hub/Confirmation/Beat.antt =====
-- The beat of a waiting registration's heart.
use gpf.Prelude.{
  ℕ, String, true, false, ◌==◌, ◌≡◌, refl, sym, ap, subst, ◌∙◌, none, some, List, [], ◌∷◌, inl, inr,
  arith, Bool-cases, eq_iff,
}
use gpf.StringSet.{contains}
use gpf.Monitor.{new, notify, newhearts, heartfailures, beat}
use gpf.Monitor.Notices.{notices, beat-notices}
use gpf.Hub.State.{Env, Hub, EngineConnector}
use gpf.Hub.Registration.{find_heart, handle_new_heart, handle_heart_failure, get_engine}
use gpf.Hub.Names.Reachable.{Reach-Names}
use gpf.Hub.Ids.Run.{callbacks}
use gpf.Hub.System.{System, Reach, create, at_time}
use gpf.Hub.Confirmation.{
  Confirmed, Awaited, Confirmed-handle_new_heart, Confirmed-own_heart, Awaited-handle_new_heart,
  Confirmed-handle_heart_failure, get_engine-Confirmed,
}

module _ {env : Env} (ec : EngineConnector env.Incoming) where
  abbrev new_call : List (String → Hub env → Hub env)
  new_call = handle_new_heart ∷ []

  abbrev failed_call : List (String → Hub env → Hub env)
  failed_call = (λ heart h. handle_heart_failure h.clock heart h) ∷ []

  Confirmed-news :
      (hs : List String) (h : Hub env) → Confirmed ec h → Confirmed ec (notices new_call hs h)
  unfolding notify
  Confirmed-news [] h c = c
  Confirmed-news (heart ∷ hs) h c =
      Confirmed-news hs (handle_new_heart heart h) (Confirmed-handle_new_heart ec heart h c)

  Confirmed-failures :
      (hs : List String) (h : Hub env) → Confirmed ec h → Confirmed ec (notices failed_call hs h)
  unfolding notify
  Confirmed-failures [] h c = c
  Confirmed-failures (heart ∷ hs) h c =
      Confirmed-failures hs (handle_heart_failure h.clock heart h)
        (Confirmed-handle_heart_failure ec heart h c)

  -- Among new hearts is the registration's own.
  Confirmed-told :
      (hs : List String) (h : Hub env)
      → contains hs ec.heartbeat ≡ true
      → Awaited ec h
      → Confirmed ec (notices new_call hs h)
  unfolding notify contains
  Confirmed-told [] h there w = absurd (ground (arith, there))
  Confirmed-told (heart ∷ hs) h there w = elim (Bool-cases (heart == ec.heartbeat)) [
    | inl e ↦ Confirmed-news hs (handle_new_heart heart h) (
        subst (λ x. Confirmed ec (handle_new_heart x h)) (sym ((eq_iff heart ec.heartbeat).0 e))
          (Confirmed-own_heart ec h w))
    | inr e ↦
        Confirmed-told hs (handle_new_heart heart h) (ground (arith, e, there))
          (Awaited-handle_new_heart ec heart h w)
  ]

module _ {env : Env} where
  -- In every state that a hub with a new heart monitor reaches: if a registration waits under an id that
  -- no engine has, and its heart, which is not yet alive, has answered, then the next beat registers
  -- it, and its queue is found, whatever other hearts come or fail with this beat.
  pub Reach-beat :
      {to_iso_string : ℕ → String} {t : System env} (interval t0 t1 t2 t3 next_id : ℕ)
      (r : Reach env to_iso_string (create env (new interval t0 t1 t2 t3) next_id) t)
      (ec : EngineConnector env.Incoming) (now toc : ℕ)
      → find_heart env t.1.incoming_registrations ec.heartbeat ≡ some ec
      → env.engine_set.find t.1.engines ec.id ≡ none
      → contains t.0.responses ec.heartbeat ≡ true
      → contains t.0.hearts ec.heartbeat ≡ false
      → get_engine ec.queue (beat to_iso_string now toc (t.0, at_time env now t.1)).1 ≡ some ec
  Reach-beat {to_iso_string} {t} interval t0 t1 t2 t3 next_id r ec now toc waits free answered
        silent =
      let calls = callbacks interval t0 t1 t2 t3 next_id r in
      let h : Hub env = at_time env now t.1 in
      let told = beat-notices to_iso_string now toc t.0 h in
      let news : contains (newhearts t.0) ec.heartbeat ≡ true =
        ground (arith, (told.1 ec.heartbeat).0, answered, silent) in
      let after : Hub env =
        notices (failed_call ec) (heartfailures t.0) (notices (new_call ec) (newhearts t.0) h) in
      let same : (beat to_iso_string now toc (t.0, h)).1 ≡ after =
        told.0 ∙ rw (calls.0, calls.1) refl in
      let confirmed : Confirmed ec after =
        Confirmed-failures ec (heartfailures t.0) (notices (new_call ec) (newhearts t.0) h) (
          Confirmed-told ec (newhearts t.0) h news
            (Reach-Names interval t0 t1 t2 t3 next_id r, waits, inl free)) in
      ap (get_engine ec.queue) same ∙ get_engine-Confirmed ec after confirmed
