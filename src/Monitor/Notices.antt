-- ===== src/Monitor/Notices.antt =====
-- Whom a beat tells what.
use mathlib.Core.List.{foldl}
use gpf.Prelude.{String, not, ◌&&◌, ◌≡◌, refl, ap, ◌∙◌, List, [], ◌∷◌, ℕ, ◌++◌, ◌+◌, ◌-◌, ◌*◌}
use gpf.StringSet.{contains}
use gpf.Monitor.{
  Monitor, notify, handle_new_heart, handle_heart_failure, new_hearts, heart_failures, newhearts,
  heartfailures, beat,
}
use gpf.Monitor.Sets.{contains-newhearts, contains-heartfailures}

module _ {S : Type 0} where
  -- All callbacks, one after the other, hear of each heart, one heart after the other.
  abbrev pub notices : List (String → S → S) → List String → S → S
  notices cbs hs s = foldl (λ s' h. foldl (λ s'' cb. cb h s'') s' cbs) s hs

  notify-foldl :
      (cbs : List (String → S → S)) (heart : String) (s : S)
      → notify cbs heart s ≡ foldl (λ s' cb. cb heart s') s cbs
  unfolding notify
  notify-foldl [] heart s = refl
  notify-foldl (cb ∷ cbs) heart s = notify-foldl cbs heart (cb heart s)

  abbrev SameCallbacks : Monitor S → Monitor S → Type 0
  SameCallbacks m m' =
      (m'.new_heart_callbacks ≡ m.new_heart_callbacks)
      × (m'.failed_heart_callbacks ≡ m.failed_heart_callbacks)

  new_hearts-notices :
      (hs : List String) (m : Monitor S) (s : S)
      → SameCallbacks m (new_hearts hs (m, s)).0
        × ((new_hearts hs (m, s)).1 ≡ notices m.new_heart_callbacks hs s)
  unfolding new_hearts handle_new_heart
  new_hearts-notices [] m s = ((refl, refl), refl)
  new_hearts-notices (h ∷ hs) m s =
      let (m', s') = handle_new_heart h (m, s) in
      let rest = new_hearts-notices hs m' s' in
      (
        rest.0,
        rest.1 ∙ ap (notices m.new_heart_callbacks hs) (notify-foldl m.new_heart_callbacks h s),
      )

  heart_failures-notices :
      (hs : List String) (m : Monitor S) (s : S)
      → SameCallbacks m (heart_failures hs (m, s)).0
        × ((heart_failures hs (m, s)).1 ≡ notices m.failed_heart_callbacks hs s)
  unfolding heart_failures handle_heart_failure
  heart_failures-notices [] m s = ((refl, refl), refl)
  heart_failures-notices (h ∷ hs) m s =
      let (m', s') = handle_heart_failure h (m, s) in
      let rest = heart_failures-notices hs m' s' in
      (
        rest.0,
        rest.1
            ∙ ap (notices m.failed_heart_callbacks hs) (notify-foldl m.failed_heart_callbacks h s),
      )

module _ (to_iso_string : ℕ → String) {S : Type 0} (now toc : ℕ) (m : Monitor S) (s : S) where
  -- A beat changes the program's state by its callbacks alone: first every callback for new hearts hears
  -- of each heart that has answered and was not alive, then every callback for failures of each heart
  -- that was alive and on probation and has not answered. It keeps the callbacks.
  pub beat-notices :
      let r = beat to_iso_string now toc (m, s) in
      (r.1
        ≡ notices m.failed_heart_callbacks
            (heartfailures m)
            (notices m.new_heart_callbacks (newhearts m) s))
      × ((h : String)
          → (contains (newhearts m) h ≡ (contains m.responses h && not (contains m.hearts h)))
            × (contains (heartfailures m) h ≡ (
                contains m.on_probation h
                && (contains m.hearts h && not (contains m.responses h)))))
      × (r.0.new_heart_callbacks ≡ m.new_heart_callbacks)
      × (r.0.failed_heart_callbacks ≡ m.failed_heart_callbacks)
  unfolding beat
  beat-notices =
      let timed : Monitor S = record m {
        beat_timers = m.beat_timers ++ (now + 1000 * m.interval) ∷ [];
        last_ping = m.lifetime;
        lifetime = m.lifetime + toc - m.tic;
        tic = toc;
      } in
      let started : Monitor S × S = new_hearts (newhearts m) (timed, s) in
      let news = new_hearts-notices (newhearts m) timed s in
      let failures = heart_failures-notices (heartfailures m) started.0 started.1 in
      (
        failures.1
            ∙ ap (λ cbs. notices cbs (heartfailures m) started.1) news.0.1
            ∙ ap (notices m.failed_heart_callbacks (heartfailures m)) news.1,
        (λ h. (contains-newhearts m h, contains-heartfailures m h)),
        failures.0.0 ∙ news.0.0,
        failures.0.1 ∙ news.0.1,
      )
