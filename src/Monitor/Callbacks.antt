-- ===== src/Monitor/Callbacks.antt =====
-- What all callbacks keep, every beat keeps.
use gpf.Prelude.{ℕ, String, List, [], ◌∷◌, inl, inr, Bool-cases, ◌==◌}
use gpf.StringSet.{StringSet}
use gpf.Prelude.Lists.{All}
use gpf.Monitor.{
  Monitor, notify, handle_new_heart, handle_heart_failure, new_hearts, heart_failures, newhearts,
  heartfailures, handle_pong, beat,
}

module _ {S : Type 0} (P : S → Type 0) where
  abbrev pub KeptBy : (String → S → S) → Type 0
  KeptBy cb = (heart : String) (s : S) → P s → P (cb heart s)

  -- The state satisfies `P`, and every callback keeps it.
  pub record Kept (ms : Monitor S × S) : Type 0 where
    pub new : All KeptBy ms.0.new_heart_callbacks
    pub failed : All KeptBy ms.0.failed_heart_callbacks
    pub now : P ms.1

  notify-keeps :
      (cbs : List (String → S → S)) (heart : String) (s : S)
      → All KeptBy cbs
      → P s
      → P (notify cbs heart s)
  unfolding notify
  notify-keeps [] heart s a v = v
  notify-keeps (cb ∷ cbs) heart s a v = notify-keeps cbs heart (cb heart s) a.1 (a.0 heart s v)

  Kept-handle_new_heart :
      (heart : String) (ms : Monitor S × S) → Kept ms → Kept (handle_new_heart heart ms)
  unfolding handle_new_heart
  Kept-handle_new_heart heart ms k = record {
    new = k.new;
    failed = k.failed;
    now = notify-keeps ms.0.new_heart_callbacks heart ms.1 k.new k.now;
  }

  Kept-handle_heart_failure :
      (heart : String) (ms : Monitor S × S) → Kept ms → Kept (handle_heart_failure heart ms)
  unfolding handle_heart_failure
  Kept-handle_heart_failure heart ms k = record {
    new = k.new;
    failed = k.failed;
    now = notify-keeps ms.0.failed_heart_callbacks heart ms.1 k.failed k.now;
  }

  Kept-new_hearts : (hs : StringSet) (ms : Monitor S × S) → Kept ms → Kept (new_hearts hs ms)
  unfolding new_hearts
  Kept-new_hearts [] ms k = k
  Kept-new_hearts (h ∷ hs) ms k =
      Kept-new_hearts hs (handle_new_heart h ms) (Kept-handle_new_heart h ms k)

  Kept-heart_failures :
      (hs : StringSet) (ms : Monitor S × S) → Kept ms → Kept (heart_failures hs ms)
  unfolding heart_failures
  Kept-heart_failures [] ms k = k
  Kept-heart_failures (h ∷ hs) ms k =
      Kept-heart_failures hs (handle_heart_failure h ms) (Kept-handle_heart_failure h ms k)

  pub Kept-beat :
      (to_iso_string : ℕ → String) (now toc : ℕ) (m : Monitor S) (s : S)
      → Kept (m, s)
      → Kept (beat to_iso_string now toc (m, s))
  unfolding beat
  Kept-beat to_iso_string now toc m s k =
      let loops = Kept-heart_failures (heartfailures m) _ (
        Kept-new_hearts (newhearts m) (_, s)
          (record { new = k.new; failed = k.failed; now = k.now })) in
      record { new = loops.new; failed = loops.failed; now = loops.now }

  pub Kept-handle_pong :
      (to_iso_string : ℕ → String) (heart received : String) (m : Monitor S) (s : S)
      → Kept (m, s)
      → Kept (handle_pong to_iso_string heart received m, s)
  unfolding handle_pong
  Kept-handle_pong to_iso_string heart received m s k =
      elim (Bool-cases (received == to_iso_string m.lifetime)) [
        | inl e ↦ rw e (record { new = k.new; failed = k.failed; now = k.now })
        | inr e ↦ rw e (elim (Bool-cases (received == to_iso_string m.last_ping)) [
          | inl d ↦ rw d (record { new = k.new; failed = k.failed; now = k.now })
          | inr d ↦ rw d k
        ])
      ]
