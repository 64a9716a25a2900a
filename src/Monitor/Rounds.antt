-- ===== src/Monitor/Rounds.antt =====
-- Rounds: the pongs that arrive between two beats, and the beat that ends them.
use gpf.Prelude.{
  ℕ, String, Bool, true, false, ◌&&◌, ◌||◌, List, [], ◌∷◌, ◌≡◌, ◌≢◌, refl, arith, ◌==◌,
}
use gpf.StringSet.{contains}
use gpf.Monitor.{Monitor, beat, handle_pong}
use gpf.Monitor.Status.{beating, gone, next, status, status-beat, fresh, responses-handle_pong}

pub record Round : Type 0 where
  -- the heart's name and the text that it echoes
  pub pongs : List (String × String)
  pub now : ℕ
  pub toc : ℕ

-- Whether a name sends a pong at all, fresh or stale.
unfoldable pub sends : List (String × String) → String → Bool
sends [] h = false
sends ((heart, received) ∷ ps) h = heart == h || sends ps h

module _ (to_iso_string : ℕ → String) {S : Type 0} where
  unfoldable pub pongs : List (String × String) → Monitor S → Monitor S
  pongs [] m = m
  pongs ((heart, received) ∷ ps) m = pongs ps (handle_pong to_iso_string heart received m)

  unfoldable pub round : Round → Monitor S × S → Monitor S × S
  round r (m, s) = beat to_iso_string r.now r.toc (pongs r.pongs m, s)

  unfoldable pub run : List Round → Monitor S × S → Monitor S × S
  run [] ms = ms
  run (r ∷ rs) ms = run rs (round r ms)

  -- Whether `h` is among the hearts that answered one of the last two pings.
  unfoldable pub answered : List (String × String) → Monitor S → String → Bool
  answered [] m h = false
  answered ((heart, received) ∷ ps) m h =
      (fresh to_iso_string m received && heart == h) || answered ps m h

  pongs-clock :
      (ps : List (String × String)) (m : Monitor S)
      → ((pongs ps m).lifetime ≡ m.lifetime) × ((pongs ps m).last_ping ≡ m.last_ping)
  unfolding pongs handle_pong
  pongs-clock [] m = (refl, refl)
  pongs-clock ((heart, received) ∷ ps) m =
      ground (arith, pongs-clock ps (handle_pong to_iso_string heart received m))

  answered-handle_pong :
      (ps : List (String × String)) (heart received : String) (m : Monitor S) (h : String)
      → answered ps (handle_pong to_iso_string heart received m) h ≡ answered ps m h
  unfolding answered handle_pong
  answered-handle_pong [] heart received m h = refl
  answered-handle_pong ((x, y) ∷ ps) heart received m h =
      ground (arith, answered-handle_pong ps heart received m h)

  pongs-status :
      (ps : List (String × String)) (m : Monitor S) (h : String)
      → (contains (pongs ps m).responses h ≡ (contains m.responses h || answered ps m h))
        × (status (pongs ps m) h ≡ status m h)
  unfolding pongs answered
  pongs-status [] m h = ground arith
  pongs-status ((heart, received) ∷ ps) m h = ground (
    arith,
    pongs-status ps (handle_pong to_iso_string heart received m) h,
    responses-handle_pong to_iso_string heart received h m,
    answered-handle_pong ps heart received m h,
  )

  -- A round moves a heart by whether it answered in this round, or had already.
  pub status-round :
      (r : Round) (m : Monitor S) (s : S) (h : String)
      → status (round r (m, s)).0 h
        ≡ next (status m h) (contains m.responses h || answered r.pongs m h)
  unfolding round
  status-round r m s h =
      ground (
        arith,
        status-beat to_iso_string r.now r.toc (pongs r.pongs m) s h,
        pongs-status r.pongs m h,
      )

  -- A beat forgets the answers.
  pub responses-round :
      (r : Round) (m : Monitor S) (s : S) (h : String)
      → contains (round r (m, s)).0.responses h ≡ false
  unfolding round beat contains
  responses-round r m s h = refl

  answered_of_sends :
      (ps : List (String × String)) (m : Monitor S) (h : String)
      → sends ps h ≡ false
      → answered ps m h ≡ false
  unfolding answered sends
  answered_of_sends [] m h q = refl
  answered_of_sends ((heart, received) ∷ ps) m h q = ground (arith, answered_of_sends ps m h)

  -- A heart that has no answer on record and sends no pong in two rounds running is given up,
  -- whatever it was before.
  pub silent_twice-gone :
      (r₁ r₂ : Round) (m : Monitor S) (s : S) (h : String)
      → contains m.responses h ≡ false
      → sends r₁.pongs h ≡ false
      → sends r₂.pongs h ≡ false
      → status (run (r₁ ∷ r₂ ∷ []) (m, s)).0 h ≡ gone
  unfolding run
  silent_twice-gone r₁ r₂ m s h none_yet q₁ q₂ = ground (
    arith,
    status-round r₁ m s h,
    status-round r₂ (round r₁ (m, s)).0 (round r₁ (m, s)).1 h,
    responses-round r₁ m s h,
    answered_of_sends r₁.pongs m h q₁,
    answered_of_sends r₂.pongs (round r₁ (m, s)).0 h q₂,
  )

  -- A heart that is beating and answers in time in the second of two rounds is not given up by the
  -- first and is beating after the second, though it may have been silent in the first.
  pub one_miss-beating :
      (r₁ r₂ : Round) (m : Monitor S) (s : S) (h : String)
      → status m h ≡ beating
      → answered r₂.pongs (round r₁ (m, s)).0 h ≡ true
      → (status (round r₁ (m, s)).0 h ≢ gone) × (status (run (r₁ ∷ r₂ ∷ []) (m, s)).0 h ≡ beating)
  unfolding run
  one_miss-beating r₁ r₂ m s h b a =
      ground
        (arith, status-round r₁ m s h, status-round r₂ (round r₁ (m, s)).0 (round r₁ (m, s)).1 h)
