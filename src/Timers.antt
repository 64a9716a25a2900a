-- ===== src/Timers.antt =====
-- zmq-poll-wrapper/timer.hpp: `deadline_timer` and `timer_queue`. `A` stands for the callbacks; `act`
-- is what a callback does to the program's state `S`, and which timers it adds to the loop.
pub mod Order
pub mod Firing
use gpf.Prelude.{
  ℕ, zero, suc, ◌+◌, ◌-◌, ◌*◌, Bool, true, false, Option, none, some, List, [], ◌∷◌, ℤ, pos, negsuc,
  leb, ltb, if◌then◌else◌,
}

pub record DeadlineTimer (A : Type 0) : Type 0 where
  pub deadline : ℕ
  pub callback : A
  pub active : Bool

-- A timer made at clock `now` with a waiting time in milliseconds.
unfoldable pub waiting : {A : Type 0} → ℕ → ℕ → A → DeadlineTimer A
waiting now milliseconds cb = record {
  deadline = now + 1000 * milliseconds;
  callback = cb;
  active = true;
}

abbrev pub is_due : {A : Type 0} → ℕ → DeadlineTimer A → Bool
is_due now t = leb t.deadline now

-- `get_timeout`, in microseconds: what is left at clock `now`, or nothing.
unfoldable pub get_timeout : {A : Type 0} → ℕ → DeadlineTimer A → ℕ
get_timeout now t = if ltb t.deadline now then 0 else t.deadline - now

-- `queue.push`. The priority queue is the list of its timers in the order in which `pop` takes them
-- out; of timers with the same deadline, for which the standard leaves it open, the older goes first.
unfoldable pub push :
    {A : Type 0} → DeadlineTimer A → List (DeadlineTimer A) → List (DeadlineTimer A)
push u [] = u ∷ []
push u (t ∷ q) = if leb t.deadline u.deadline then t ∷ push u q else u ∷ t ∷ q

unfoldable pub pop : {A : Type 0} → List (DeadlineTimer A) → List (DeadlineTimer A)
pop [] = []
pop (t ∷ q) = q

unfoldable pub pushes :
    {A : Type 0} → List (DeadlineTimer A) → List (DeadlineTimer A) → List (DeadlineTimer A)
unfolding push
pushes [] q = q
pushes (u ∷ us) q = pushes us (push u q)

-- `next_timeout`, which the loop passes to the poll.
unfoldable pub next_timeout : {A : Type 0} → ℕ → List (DeadlineTimer A) → ℤ
unfolding get_timeout
next_timeout now [] = negsuc 0
next_timeout now (t ∷ q) = pos (get_timeout now t)

module _ {A S : Type 0} (act : A → S → List (DeadlineTimer A) × S) where
  -- `fire`: the timers that the callback added, and the state after it.
  abbrev pub fire : DeadlineTimer A → S → List (DeadlineTimer A) × S
  fire t s = if t.active then act t.callback s else ([], s)

  -- `fire_due` at clock `now`: the top fires, then the queue is popped. `none` where the fuel ends.
  unfoldable pub fire_due : ℕ → ℕ → List (DeadlineTimer A) → S → Option (List (DeadlineTimer A) × S)
  unfolding pop pushes
  fire_due zero now q s = none
  fire_due (suc fuel) now [] s = some ([], s)
  fire_due (suc fuel) now (t ∷ q) s =
      let (added, s') = fire t s in
      let rest = fire_due fuel now (pop (pushes added (t ∷ q))) s' in
      if is_due now t then rest else some (t ∷ q, s)
