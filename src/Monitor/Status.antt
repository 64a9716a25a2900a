-- ===== src/Monitor/Status.antt =====
-- The life of one heart as a three-state machine, and the monitor as an implementation of it.
use gpf.Prelude.{ℕ, String, Bool, true, false, ◌&&◌, ◌||◌, ◌≡◌, arith, ◌==◌, if◌then◌else◌}
use gpf.StringSet.{contains, contains-insert}
use gpf.Monitor.{Monitor, beat, handle_pong}
use gpf.Monitor.Beat.{beat-alive, beat-on_probation}

pub data Status : Type 0 where
  gone beating suspect : Status

-- What a beat makes of a heart that has answered since the beat before it, or has not.
abbrev pub next : Status → Bool → Status
next s true = beating
next beating false = suspect
next suspect false = gone
next gone false = gone

unfoldable pub status : {S : Type 0} → Monitor S → String → Status
status m h =
    if contains m.hearts h then (if contains m.on_probation h then suspect else beating) else gone

module _ (to_iso_string : ℕ → String) {S : Type 0} where
  -- A beat moves every heart by the machine's step, whatever the callbacks do.
  pub status-beat :
      (now toc : ℕ) (m : Monitor S) (s : S) (h : String)
      → status (beat to_iso_string now toc (m, s)).0 h ≡ next (status m h) (contains m.responses h)
  unfolding status
  status-beat now toc m s h =
      ground (
        arith,
        beat-alive to_iso_string now toc m s h,
        beat-on_probation to_iso_string now toc m s h,
      )

  -- Whether a pong counts: it echoes the current ping or the one before.
  abbrev pub fresh : Monitor S → String → Bool
  fresh m received = received == to_iso_string m.lifetime || received == to_iso_string m.last_ping

  -- A pong is recorded for its own heart exactly if it echoes one of the last two pings, and moves no
  -- heart before the next beat.
  pub responses-handle_pong :
      (heart received h : String) (m : Monitor S)
      → (contains (handle_pong to_iso_string heart received m).responses h
          ≡ (contains m.responses h || (fresh m received && heart == h)))
        × (status (handle_pong to_iso_string heart received m) h ≡ status m h)
  unfolding handle_pong status
  responses-handle_pong heart received h m = ground (arith, contains-insert heart h m.responses)
