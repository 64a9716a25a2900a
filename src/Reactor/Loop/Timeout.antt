-- ===== src/Reactor/Loop/Timeout.antt =====
-- How long a poll waits.
use gpf.Prelude.{
  ℕ, ◌+◌, ◌<◌, ◌≡◌, ◌≢◌, ◌⊎◌, refl, List, [], ℤ, pos, negsuc, leb, arith, inl, inr, if◌then◌else◌,
}
use gpf.Timers.{DeadlineTimer}
use gpf.Timers.Order.{Sorted}
use gpf.Timers.Firing.{due, next_timeout-first_due}
use gpf.Reactor.Loop.{poll_timeout}

-- The time until the first timer is due, or the timeout that `run` was given if that is shorter.
abbrev pub sooner : ℤ → ℕ → ℕ
sooner (negsuc k) n = n
sooner (pos d) n = if leb d n then d else n

sooner-bounds : (timeout : ℤ) (n m : ℕ) → m < sooner timeout n → m < n
sooner-bounds (negsuc k) n m less = less
sooner-bounds (pos d) n m less = ground (arith, less)

-- With a queue in order: if it is empty, the poll gets a negative timeout, even if `run` was given one
-- that is not. Otherwise the poll gets the shortest time after which a timer is due, or the timeout
-- that `run` was given if that is shorter; and before this time is over no timer is due.
pub poll_timeout-first_due :
    {A : Type 0} (timeout : ℤ) (now : ℕ) (q : List (DeadlineTimer A))
    → Sorted q
    → ((q ≡ []) × (poll_timeout timeout now q ≡ negsuc 0))
      ⊎ ((n : ℕ) × (poll_timeout timeout now q ≡ pos (sooner timeout n))
          × (due (now + n) q ≢ [])
          × ((m : ℕ) → m < sooner timeout n → due (now + m) q ≡ []))
unfolding poll_timeout
poll_timeout-first_due (negsuc k) now q v = next_timeout-first_due now q v
poll_timeout-first_due (pos d) now q v = elim (next_timeout-first_due now q v) [
  | inl (empty, e) ↦ inl (empty, rw (poll_timeout, e) refl)
  | inr (n, e, found, none_before) ↦ inr (
    n,
    rw (poll_timeout, e) refl,
    found,
    λ m less. none_before m (sooner-bounds (pos d) n m less),
  )
]
