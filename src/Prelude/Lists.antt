-- ===== src/Prelude/Lists.antt =====
-- Lists measured by the native numbers, under the library's names.
use Prim.Native.Nat.{ℕ, zero, suc, ◌+◌}
use mathlib.Core.Path.{◌≡◌, refl, sym, subst}
use mathlib.Core.Logic.{◌⊎◌, inl, inr}
use mathlib.Core.List.{List, [], ◌∷◌, ◌++◌}
use mathlib.Core.Option.{Option, none, some}
use native.Mathlib.Omega.{arith}

module _ {ℓ} {A : Type ℓ} where
  abbrev pub length : List A → ℕ
  length [] = 0
  length (x ∷ xs) = suc (length xs)

  abbrev pub take : ℕ → List A → List A
  take zero l = []
  take (suc n) [] = []
  take (suc n) (x ∷ l) = x ∷ take n l

  abbrev pub drop : ℕ → List A → List A
  drop zero l = l
  drop (suc n) [] = []
  drop (suc n) (x ∷ l) = drop n l

  pub length-append : (xs ys : List A) → length (xs ++ ys) ≡ length xs + length ys
  length-append [] ys = omega arith
  length-append (x ∷ xs) ys = omega (arith, length-append xs ys)

-- A predicate by recursion computes to tuples, which the tactics read and build.
abbrev pub All {ℓ κ} : {A : Type ℓ} → (A → Type κ) → List A → Type κ
All P [] = Unit
All P (x ∷ xs) = P x × All P xs

-- A place in a list where an item stands.
pub data Member {ℓ} {A : Type ℓ} (a : A) : List A → Type ℓ where
  first : {b : A} {l : List A} → a ≡ b → Member a (b ∷ l)
  later : {b : A} {l : List A} → Member a l → Member a (b ∷ l)

module _ {ℓ} {A : Type ℓ} where
  pub Member-left : (a : A) (l m : List A) → Member a l → Member a (l ++ m)
  Member-left a [] m p = elim p [ ]
  Member-left a (b ∷ l) m (first e) = first e
  Member-left a (b ∷ l) m (later p) = later (Member-left a l m p)

  pub Member-last : (a : A) (l : List A) → Member a (l ++ a ∷ [])
  Member-last a [] = first refl
  Member-last a (b ∷ l) = later (Member-last a l)

  -- An item of a list with one more at its end.
  pub Member-snoc : (a b : A) (l : List A) → Member a (l ++ b ∷ []) → Member a l ⊎ (a ≡ b)
  Member-snoc a b [] (first e) = inr e
  Member-snoc a b [] (later p) = elim p [ ]
  Member-snoc a b (c ∷ l) (first e) = inl (first e)
  Member-snoc a b (c ∷ l) (later p) = elim (Member-snoc a b l p) [
    | inl q ↦ inl (later q)
    | inr e ↦ inr e
  ]

-- What all items have, each one has.
pub All-Member {ℓ κ} :
    {A : Type ℓ} (P : A → Type κ) (l : List A) (a : A) → All P l → Member a l → P a
All-Member P [] a v m = elim m [ ]
All-Member P (x ∷ l) a v (first e) = subst P (sym e) v.0
All-Member P (x ∷ l) a v (later m) = All-Member P l a v.1 m

-- The last element.
abbrev pub last : {A : Type 0} → List A → Option A
last [] = none
last (x ∷ []) = some x
last (x ∷ y ∷ l) = last (y ∷ l)

pub last-snoc : {A : Type 0} (l : List A) (x : A) → last (l ++ x ∷ []) ≡ some x
last-snoc [] x = refl
last-snoc (y ∷ []) x = refl
last-snoc (y ∷ z ∷ l) x = last-snoc (z ∷ l) x
