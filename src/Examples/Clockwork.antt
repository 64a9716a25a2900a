-- ===== src/Examples/Clockwork.antt =====
-- A queue of timers.
use gpf.Prelude.{ℕ, suc, true, false, Bool, ◌≡◌, some, List, [], ◌∷◌, arith}
use gpf.Timers.{DeadlineTimer, fire_due, push, pushes}
use gpf.Timers.Firing.{Later, fire_due-fires}

abbrev soon : DeadlineTimer Bool
soon = record { deadline = 3; callback = true; active = true }

abbrev disarmed : DeadlineTimer Bool
disarmed = record { deadline = 4; callback = true; active = false }

abbrev far : DeadlineTimer Bool
far = record { deadline = 9; callback = false; active = true }

-- The callback `true` counts and sets another timer, `false` does nothing.
abbrev counting : Bool → ℕ → List (DeadlineTimer Bool) × ℕ
counting true n = (record { deadline = 7; callback = false; active = true } ∷ [], suc n)
counting false n = ([], n)

counting-Later : (a : Bool) (n : ℕ) → Later 5 (counting a n).0
counting-Later true n = (omega arith, tt)
counting-Later false n = tt

fire_due-fires_example :
    fire_due counting 3 5 (soon ∷ disarmed ∷ far ∷ []) 0
    ≡ some (record { deadline = 7; callback = false; active = true } ∷ far ∷ [], 1)
unfolding pushes push
fire_due-fires_example =
    (fire_due-fires counting 5 counting-Later 3 (soon ∷ disarmed ∷ far ∷ []) 0
      ((omega arith, (omega arith, tt)), ((omega arith, tt), (tt, tt))) (omega arith)).0
