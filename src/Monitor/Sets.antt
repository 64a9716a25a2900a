-- ===== src/Monitor/Sets.antt =====
-- The four sets of a beat, and the set of hearts after its two loops, by membership.
use gpf.Prelude.{String, not, ◌&&◌, ◌||◌, [], ◌∷◌, ◌≡◌, arith, eq_iff}
use gpf.StringSet.{StringSet, contains, set_laws, contains-insert, contains-erase}
use gpf.Monitor.{
  Monitor, handle_new_heart, handle_heart_failure, new_hearts, heart_failures, missed_beats,
  heartfailures, newhearts,
}

module _ {S : Type 0} where
  pub contains-missed_beats :
      (m : Monitor S) (h : String)
      → contains (missed_beats m) h ≡ (contains m.hearts h && not (contains m.responses h))
  unfolding missed_beats
  contains-missed_beats m h = simp set_laws (ground arith)

  pub contains-heartfailures :
      (m : Monitor S) (h : String)
      → contains (heartfailures m) h
        ≡ (contains m.on_probation h && (contains m.hearts h && not (contains m.responses h)))
  unfolding heartfailures
  contains-heartfailures m h = simp set_laws (ground arith)

  pub contains-newhearts :
      (m : Monitor S) (h : String)
      → contains (newhearts m) h ≡ (contains m.responses h && not (contains m.hearts h))
  unfolding newhearts
  contains-newhearts m h = simp set_laws (ground arith)

  pub hearts-new_hearts :
      (hs : StringSet) (ms : Monitor S × S) (h : String)
      → contains (new_hearts hs ms).0.hearts h ≡ (contains ms.0.hearts h || contains hs h)
  unfolding new_hearts handle_new_heart contains
  hearts-new_hearts [] ms h = ground arith
  hearts-new_hearts (x ∷ hs) ms h =
      ground
        (arith, hearts-new_hearts hs (handle_new_heart x ms) h, contains-insert x h ms.0.hearts)

  pub hearts-heart_failures :
      (hs : StringSet) (ms : Monitor S × S) (h : String)
      → contains (heart_failures hs ms).0.hearts h ≡ (contains ms.0.hearts h && not (contains hs h))
  unfolding heart_failures handle_heart_failure contains
  hearts-heart_failures [] ms h = ground arith
  hearts-heart_failures (x ∷ hs) ms h = ground (
    arith,
    hearts-heart_failures hs (handle_heart_failure x ms) h,
    contains-erase x h ms.0.hearts,
    eq_iff x h,
    eq_iff h x,
  )
