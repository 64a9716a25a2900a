-- ===== src/Monitor/Beat.antt =====
-- What one beat decides about each heart.
use gpf.Prelude.{ℕ, String, not, ◌&&◌, ◌||◌, ◌≡◌, arith}
use gpf.StringSet.{contains, contains-set_intersection}
use gpf.Monitor.{Monitor, beat}
use gpf.Monitor.Sets.{
  contains-missed_beats, contains-heartfailures, contains-newhearts, hearts-new_hearts,
  hearts-heart_failures,
}

module _ (to_iso_string : ℕ → String) {S : Type 0} (now toc : ℕ) (m : Monitor S) (s : S) where
  -- After a beat a heart is alive exactly if it answered, or was alive and not on probation.
  pub beat-alive :
      (h : String)
      → contains (beat to_iso_string now toc (m, s)).0.hearts h
        ≡ (contains m.responses h || (contains m.hearts h && not (contains m.on_probation h)))
  unfolding beat
  beat-alive h =
      simp (hearts-heart_failures, hearts-new_hearts, contains-heartfailures, contains-newhearts)
        (ground arith)

  pub beat-on_probation :
      (h : String)
      → contains (beat to_iso_string now toc (m, s)).0.on_probation h
        ≡ (contains m.hearts h && not (contains m.responses h) && not (contains m.on_probation h))
  unfolding beat
  beat-on_probation h =
      simp
        (
          contains-set_intersection, contains-missed_beats, hearts-heart_failures,
          hearts-new_hearts, contains-heartfailures, contains-newhearts,
        )
        (ground arith)
