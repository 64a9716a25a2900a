-- ===== src/Examples/Hearts.antt =====
-- The heart monitor at work.
use Prim.Native.String.{◌++◌ as append}
use gpf.Prelude.{ℕ, String, ◌≡◌, ◌≢◌, refl, List, [], ◌∷◌, ◌++◌, nat_eq, if◌then◌else◌}
use gpf.Prelude.Lists.{first, later}
use gpf.Monitor.Notices.{beat-notices}
use gpf.Heart.{Heart, heart}
use gpf.Heart.Echo.{run-Echoing}
use gpf.StringSet.{contains, insert, set_intersection, set_difference}
use gpf.Monitor.{
  Monitor, new, handle_pong, beat, heart_failures, heartfailures, new_hearts, newhearts, notify,
}
use gpf.Monitor.Status.{gone, beating, suspect, status, status-beat}
use gpf.Monitor.Rounds.{Round, round, pongs, run, sends, silent_twice-gone}

abbrev time_text : ℕ → String
time_text t = if nat_eq t 0 then "0" else "later"

-- A monitor that knows one heart, which has not answered the last ping.
abbrev one_heart : Monitor ℕ
unfolding new
one_heart = record (new 1000 0 0 0 0) { hearts = "a" ∷ [] }

abbrev quiet : Round
quiet = record { pongs = []; now = 0; toc = 5 }

-- A pong that comes too late to count, as the pings have moved on twice.
abbrev stale : Round
stale = record { pongs = ("b", "nonsense") ∷ []; now = 5; toc = 5 }

abbrev answering : Round
answering = record { pongs = ("a", "0") ∷ []; now = 5; toc = 10 }

status-beat_example : status (beat time_text 0 5 (one_heart, 0)).0 "a" ≡ suspect
unfolding status contains one_heart
status-beat_example = status-beat time_text 0 5 one_heart 0 "a"

silent_twice-gone_example : status (run time_text (quiet ∷ stale ∷ []) (one_heart, 0)).0 "a" ≡ gone
unfolding contains sends one_heart
silent_twice-gone_example = silent_twice-gone time_text quiet stale one_heart 0 "a" refl refl refl

abbrev moment : ℕ → String
moment t = if nat_eq t 5 then "5" else if nat_eq t 10 then "10" else "later"

abbrev a_heart : Heart
unfolding heart
a_heart = heart [] [] "a"

moved : moment 10 ≢ "5"
moved e = cc

late : moment 20 ≢ "5"
late e = cc

abbrev echoing : List Round
echoing =
    record { pongs = ("b", "nonsense") ∷ ("a", "later") ∷ []; now = 0; toc = 5 }
    ∷ record { pongs = ("a", "5") ∷ []; now = 5; toc = 10 }
    ∷ []

run-Echoing_example : status (run moment echoing (one_heart, 0)).0 "a" ≡ beating
unfolding a_heart beat one_heart new heart_failures heartfailures new_hearts newhearts contains
    set_intersection set_difference heart round pongs handle_pong insert
run-Echoing_example =
    run-Echoing moment a_heart
      (record { pongs = ("b", "nonsense") ∷ ("a", "later") ∷ []; now = 0; toc = 5 })
      (record { pongs = ("a", "5") ∷ []; now = 5; toc = 10 } ∷ []) one_heart 0
      (later (first refl), (first refl, tt))

-- Both callbacks log the heart: one has answered for the first time, the other has not answered again.
abbrev logging : Monitor (List String)
unfolding new
logging = record (new 1000 0 0 0 0) {
  hearts = "a" ∷ [];
  responses = "b" ∷ [];
  on_probation = "a" ∷ [];
  new_heart_callbacks = (λ heart log. log ++ append "new " heart ∷ []) ∷ [];
  failed_heart_callbacks = (λ heart log. log ++ append "failed " heart ∷ []) ∷ [];
}

beat-notices_example : (beat moment 0 5 (logging, [])).1 ≡ "new b" ∷ "failed a" ∷ []
unfolding logging newhearts heartfailures set_difference set_intersection contains new notify
beat-notices_example = (beat-notices moment 0 5 logging []).0
