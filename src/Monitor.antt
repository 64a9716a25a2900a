-- ===== src/Monitor.antt =====
-- gpf/controller/heartmonitor.{hpp,cpp}: the class `heartmonitor`. Times are microseconds since the
-- epoch, read from the clock by the caller. `S` is the state that the callbacks change.
pub mod Sets
pub mod Beat
pub mod Callbacks
pub mod Status
pub mod Rounds
pub mod Notices
use gpf.Prelude.{ℕ, ◌+◌, ◌-◌, ◌*◌, String, Bool, List, [], ◌∷◌, ◌++◌, ◌==◌, if◌then◌else◌}
use gpf.StringSet.{StringSet, contains, insert, erase, set_intersection, set_difference}

pub record Monitor (S : Type 0) : Type 0 where
  -- milliseconds
  pub interval : ℕ
  pub lifetime : ℕ
  pub tic : ℕ
  pub last_ping : ℕ
  pub hearts : StringSet
  pub responses : StringSet
  pub on_probation : StringSet
  pub failed_heart_callbacks : List (String → S → S)
  pub new_heart_callbacks : List (String → S → S)
  -- what went out: the texts published on `m_pub`, and the deadlines of the timers that the reactor
  -- got for `beat`, each oldest first
  pub pings : List String
  pub beat_timers : List ℕ

module _ {S : Type 0} where
  -- The three clock readings of the constructor are `t0`, `t1` and `t2`, that of the timer is `t3`.
  unfoldable pub new : ℕ → ℕ → ℕ → ℕ → ℕ → Monitor S
  new interval t0 t1 t2 t3 = record {
    interval = interval;
    lifetime = t0;
    tic = t1;
    last_ping = t2;
    hearts = [];
    responses = [];
    on_probation = [];
    failed_heart_callbacks = [];
    new_heart_callbacks = [];
    pings = [];
    beat_timers = (t3 + 1000 * interval) ∷ [];
  }

  unfoldable pub register_new_heart_handler : (String → S → S) → Monitor S → Monitor S
  register_new_heart_handler cb m = record m {
    new_heart_callbacks = m.new_heart_callbacks ++ cb ∷ [];
  }

  unfoldable pub register_failed_heart_handler : (String → S → S) → Monitor S → Monitor S
  register_failed_heart_handler cb m = record m {
    failed_heart_callbacks = m.failed_heart_callbacks ++ cb ∷ [];
  }

  unfoldable pub alive : Monitor S → String → Bool
  alive m h = contains m.hearts h

  -- A loop over the callbacks. They run before the heart enters or leaves `hearts`, which they cannot see.
  unfoldable pub notify : List (String → S → S) → String → S → S
  notify [] heart s = s
  notify (cb ∷ cbs) heart s = notify cbs heart (cb heart s)

  unfoldable pub handle_new_heart : String → Monitor S × S → Monitor S × S
  handle_new_heart heart (m, s) =
      (record m { hearts = insert heart m.hearts }, notify m.new_heart_callbacks heart s)

  unfoldable pub handle_heart_failure : String → Monitor S × S → Monitor S × S
  handle_heart_failure heart (m, s) =
      (record m { hearts = erase heart m.hearts }, notify m.failed_heart_callbacks heart s)

  -- The two loops of `beat`.
  unfoldable pub new_hearts : StringSet → Monitor S × S → Monitor S × S
  new_hearts [] ms = ms
  new_hearts (h ∷ hs) ms = new_hearts hs (handle_new_heart h ms)

  unfoldable pub heart_failures : StringSet → Monitor S × S → Monitor S × S
  heart_failures [] ms = ms
  heart_failures (h ∷ hs) ms = heart_failures hs (handle_heart_failure h ms)

  -- The four sets that `beat` computes first.
  unfoldable pub goodhearts : Monitor S → StringSet
  goodhearts m = set_intersection m.hearts m.responses

  unfoldable pub missed_beats : Monitor S → StringSet
  unfolding goodhearts
  missed_beats m = set_difference m.hearts (goodhearts m)

  unfoldable pub heartfailures : Monitor S → StringSet
  unfolding missed_beats
  heartfailures m = set_intersection m.on_probation (missed_beats m)

  unfoldable pub newhearts : Monitor S → StringSet
  unfolding goodhearts
  newhearts m = set_difference m.responses (goodhearts m)

-- `boost::posix_time::to_iso_string`
module _ (to_iso_string : ℕ → String) {S : Type 0} where
  -- A pong of the heart named by the first frame; the second frame echoes a ping.
  unfoldable pub handle_pong : String → String → Monitor S → Monitor S
  handle_pong heart received m =
      if received == to_iso_string m.lifetime
      then record m { responses = insert heart m.responses }
      else if received == to_iso_string m.last_ping
      then record m { responses = insert heart m.responses }
      else m

  -- The clock reads `now` when the timer is set, and `toc` later on. The time that has passed is added to
  -- `lifetime`; the sum is formed first, as a clock that was set back makes the difference negative.
  unfoldable pub beat : ℕ → ℕ → Monitor S × S → Monitor S × S
  beat now toc (m, s) =
      let timed : Monitor S = record m {
        beat_timers = m.beat_timers ++ (now + 1000 * m.interval) ∷ [];
        last_ping = m.lifetime;
        lifetime = m.lifetime + toc - m.tic;
        tic = toc;
      } in
      let missed : StringSet = missed_beats m in
      let (m', s') = heart_failures (heartfailures m) (new_hearts (newhearts m) (timed, s)) in
      (
        record m' {
          on_probation = set_intersection missed m'.hearts;
          responses = [];
          pings = m'.pings ++ to_iso_string m'.lifetime ∷ [];
        },
        s',
      )
