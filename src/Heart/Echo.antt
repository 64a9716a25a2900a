-- ===== src/Heart/Echo.antt =====
-- A heart and the monitor that pings it.
use gpf.Prelude.{
  ℕ, String, true, false, ◌||◌, ◌≡◌, ◌≢◌, refl, sym, ap, ◌∙◌, Option, some, none, List, [], ◌∷◌,
  ◌++◌, ◌+◌, ◌-◌, ◌*◌, ◌⊎◌, arith, eq_iff, eq_refl, inl, inr,
}
use gpf.Prelude.Lists.{Member, first, later}
use gpf.StringSet.{contains}
use gpf.Monitor.{
  Monitor, handle_pong, beat, new_hearts, heart_failures, newhearts, heartfailures,
  handle_new_heart, handle_heart_failure,
}
use gpf.Monitor.Status.{
  Status, gone, suspect, next, status, beating, status-beat, responses-handle_pong,
}
use gpf.Monitor.Rounds.{Round, round, run, answered, status-round}
use gpf.Heart.{Heart, bumm, receive_pong}

next-true : (x : Status) → next x true ≡ beating
next-true gone = refl
next-true beating = refl
next-true suspect = refl

module _ {S : Type 0} where
  -- The loops of a beat leave the clocks alone.
  abbrev SameClocks : Monitor S → Monitor S → Type 0
  SameClocks m m' = (m'.lifetime ≡ m.lifetime) × (m'.last_ping ≡ m.last_ping) × (m'.pings ≡ m.pings)

  same-new_hearts : (hs : List String) (ms : Monitor S × S) → SameClocks ms.0 (new_hearts hs ms).0
  unfolding new_hearts handle_new_heart
  same-new_hearts [] ms = (refl, refl, refl)
  same-new_hearts (h ∷ hs) ms = same-new_hearts hs (handle_new_heart h ms)

  same-heart_failures :
      (hs : List String) (ms : Monitor S × S) → SameClocks ms.0 (heart_failures hs ms).0
  unfolding heart_failures handle_heart_failure
  same-heart_failures [] ms = (refl, refl, refl)
  same-heart_failures (h ∷ hs) ms = same-heart_failures hs (handle_heart_failure h ms)

module _ (to_iso_string : ℕ → String) {S : Type 0} where
  -- The text that a beat publishes is that of the lifetime after it, and the one before is kept.
  pub clocks-beat :
      (now toc : ℕ) (m : Monitor S) (s : S)
      → let m' = (beat to_iso_string now toc (m, s)).0 in
        (m'.last_ping ≡ m.lifetime)
        × (m'.lifetime ≡ m.lifetime + toc - m.tic)
        × (m'.pings ≡ m.pings ++ to_iso_string m'.lifetime ∷ [])
        × ((h : String) → contains m'.responses h ≡ false)
  unfolding beat contains
  clocks-beat now toc m s =
      let timed : Monitor S = record m {
        beat_timers = m.beat_timers ++ (now + 1000 * m.interval) ∷ [];
        last_ping = m.lifetime;
        lifetime = m.lifetime + toc - m.tic;
        tic = toc;
      } in
      let started = same-new_hearts (newhearts m) (timed, s) in
      let ended = same-heart_failures (heartfailures m) (new_hearts (newhearts m) (timed, s)) in
      (
        ended.1 ∙ started.1,
        ended.0 ∙ started.0,
        ap (λ l. l ++ to_iso_string (beat to_iso_string now toc (m, s)).0.lifetime ∷ [])
            (ended.2 ∙ started.2),
        λ h. refl,
      )

  -- What the monitor makes of the pong of a heart whose socket is open and that got the ping.
  abbrev pub echo : Heart → String → Monitor S → Option (Monitor S)
  echo heart text m = elim (bumm true (text ∷ []) heart).1 [
    | none ↦ none
    | some pong ↦ receive_pong to_iso_string pong m
  ]

  pub echo-eq :
      (heart : Heart) (text : String) (m : Monitor S)
      → echo heart text m ≡ some (handle_pong to_iso_string heart.id text m)
  unfolding bumm receive_pong
  echo-eq heart text m = refl

  echo-fresh :
      (heart : Heart) (text : String) (m : Monitor S)
      → (text ≡ to_iso_string m.lifetime) ⊎ (text ≡ to_iso_string m.last_ping)
      → (m' : Monitor S) × (echo heart text m ≡ some m')
        × ((now toc : ℕ) (s : S) → status (beat to_iso_string now toc (m', s)).0 heart.id ≡ beating)
  echo-fresh heart text m which =
      let recorded : contains (handle_pong to_iso_string heart.id text m).responses heart.id
          ≡ true =
        ground (
          arith,
          responses-handle_pong to_iso_string heart.id text heart.id m,
          eq_refl heart.id,
          eq_iff text (to_iso_string m.lifetime),
          eq_iff text (to_iso_string m.last_ping),
          which,
        ) in
      (
        handle_pong to_iso_string heart.id text m,
        echo-eq heart text m,
        λ now toc s.
            status-beat to_iso_string now toc (handle_pong to_iso_string heart.id text m) s heart.id
            ∙ ap (next (status (handle_pong to_iso_string heart.id text m) heart.id)) recorded
            ∙ next-true (status (handle_pong to_iso_string heart.id text m) heart.id),
      )

  module _ (heart : Heart) (now toc : ℕ) (m : Monitor S) (s : S) where
    -- The monitor after a beat, and the ping that the beat published.
    abbrev pub pinged : Monitor S × S
    pinged = beat to_iso_string now toc (m, s)

    abbrev pub ping : String
    ping = to_iso_string pinged.0.lifetime

    -- A heart that echoes a ping before the next beat but one is beating after the next beat: its pong
    -- counts if it comes at once, and if it comes after the beat that follows the ping.
    pub echo_in_time :
        ((m' : Monitor S) × (echo heart ping pinged.0 ≡ some m')
          × ((now' toc' : ℕ) (s' : S)
              → status (beat to_iso_string now' toc' (m', s')).0 heart.id ≡ beating))
        × ((now₁ toc₁ : ℕ) (s₁ : S)
            → (m' : Monitor S) × (echo heart ping (beat to_iso_string now₁ toc₁ (pinged.0, s₁)).0
                ≡ some m')
              × ((now' toc' : ℕ) (s' : S)
                  → status (beat to_iso_string now' toc' (m', s')).0 heart.id ≡ beating))
    echo_in_time = (
      echo-fresh heart ping pinged.0 (inl refl),
      λ now₁ toc₁ s₁.
          echo-fresh heart ping (beat to_iso_string now₁ toc₁ (pinged.0, s₁)).0
            (inr (ap to_iso_string (sym (clocks-beat now₁ toc₁ pinged.0 s₁).0))),
    )

    -- A heart that echoes a ping after the second beat from then, when the two pings after it had other
    -- texts, is not recorded.
    pub echo_too_late :
        (now₁ toc₁ now₂ toc₂ : ℕ) (s₁ s₂ : S)
        → let m₁ = (beat to_iso_string now₁ toc₁ (pinged.0, s₁)).0 in
          let m₂ = (beat to_iso_string now₂ toc₂ (m₁, s₂)).0 in
          to_iso_string m₁.lifetime ≢ ping
          → to_iso_string m₂.lifetime ≢ ping
          → (m' : Monitor S) × (echo heart ping m₂ ≡ some m')
            × (contains m'.responses heart.id ≡ false)
    echo_too_late now₁ toc₁ now₂ toc₂ s₁ s₂ other₁ other₂ =
        let m₁ : Monitor S = (beat to_iso_string now₁ toc₁ (pinged.0, s₁)).0 in
        let m₂ : Monitor S = (beat to_iso_string now₂ toc₂ (m₁, s₂)).0 in
        let clocks = clocks-beat now₂ toc₂ m₁ s₂ in
        (
          handle_pong to_iso_string heart.id ping m₂,
          echo-eq heart ping m₂,
          ground (
            arith,
            responses-handle_pong to_iso_string heart.id ping heart.id m₂,
            clocks.3 heart.id,
            ap to_iso_string clocks.0,
            eq_iff ping (to_iso_string m₂.lifetime),
            eq_iff ping (to_iso_string m₂.last_ping),
            other₁,
            other₂,
          ),
        )

  -- Every round has the pong of a heart that echoes the ping of the beat before it.
  abbrev pub Echoing : Heart → List Round → Monitor S × S → Type 0
  Echoing heart [] ms = Unit
  Echoing heart (r ∷ rs) ms =
      Member (heart.id, to_iso_string ms.0.lifetime) r.pongs
      × Echoing heart rs (round to_iso_string r ms)

  answered-Member :
      (ps : List (String × String)) (m : Monitor S) (id : String)
      → Member (id, to_iso_string m.lifetime) ps
      → answered to_iso_string ps m id ≡ true
  unfolding answered
  answered-Member [] m id mem = elim mem [ ]
  answered-Member ((heart, received) ∷ ps) m id (first e) = ground (
    arith,
    ap (λ (p : String × String). p.0) e,
    ap (λ (p : String × String). p.1) e,
    eq_refl id,
    eq_refl (to_iso_string m.lifetime),
  )
  answered-Member ((heart, received) ∷ ps) m id (later mem) =
      ground (arith, answered-Member ps m id mem)

  -- A heart that echoes every ping, whatever other pongs arrive, is beating after each round, from the
  -- first on.
  pub run-Echoing :
      (heart : Heart) (r : Round) (rs : List Round) (m : Monitor S) (s : S)
      → Echoing heart (r ∷ rs) (m, s)
      → status (run to_iso_string (r ∷ rs) (m, s)).0 heart.id ≡ beating
  unfolding run
  run-Echoing heart r [] m s (mem, rest) =
      let answers : (contains m.responses heart.id || answered to_iso_string r.pongs m heart.id)
          ≡ true =
        ground (arith, answered-Member r.pongs m heart.id mem) in
      status-round to_iso_string r m s heart.id
      ∙ ap (next (status m heart.id)) answers
      ∙ next-true (status m heart.id)
  run-Echoing heart r (r' ∷ rs) m s (mem, rest) =
      run-Echoing heart r' rs (round to_iso_string r (m, s)).0 (round to_iso_string r (m, s)).1 rest
