-- ===== src/Table/Listed.antt =====
-- A container that meets the interface: a list of rows with distinct keys, the oldest first.

use gpf.Prelude.{
  suc, String, ◌≡◌, ◌≢◌, refl, Option, none, some, List, [], ◌∷◌, Eq, ℤ, int_eq, arith, is_some,
  if◌then◌else◌, Bool-cases, inl, inr, ◌==◌, eq_iff,
}
use gpf.Prelude.Lists.{All, Member, first, later, length}
use gpf.Table.{Table}

module _ {Key Row : Type 0} (eq : Eq Key) (key : Row → Key) where
  abbrev pub look : List Row → Key → Option Row
  look [] k = none
  look (r ∷ l) k = if eq.beq (key r) k then some r else look l k

  abbrev pub Distinct : List Row → Type 0
  Distinct [] = Unit
  Distinct (r ∷ l) = (look l (key r) ≡ none) × Distinct l

  abbrev pub look_by : (Row → String) → List Row → String → Option Row
  look_by f [] s = none
  look_by f (r ∷ l) s = if f r == s then some r else look_by f l s

  abbrev pub range : (Row → ℤ) → List Row → ℤ → List Row
  range f [] z = []
  range f (r ∷ l) z = let rest = range f l z in if int_eq.beq (f r) z then r ∷ rest else rest

  abbrev pub push : Row → List Row → List Row
  push r [] = r ∷ []
  push r (x ∷ l) = if eq.beq (key x) (key r) then x ∷ l else x ∷ push r l

  abbrev pub drop : Key → List Row → List Row
  drop k [] = []
  drop k (x ∷ l) = if eq.beq (key x) k then l else x ∷ drop k l

  abbrev pub assign : Row → List Row → List Row
  assign r [] = []
  assign r (x ∷ l) = if eq.beq (key x) (key r) then r ∷ l else x ∷ assign r l

  pub look-key : (l : List Row) (k : Key) (r : Row) → look l k ≡ some r → key r ≡ k
  look-key [] k r e = cc
  look-key (x ∷ l) k r e = ground (arith, eq.beq_iff (key x) k, look-key l k r)

  pub look-push :
      (r : Row) (l : List Row) (k : Key)
      → look (push r l) k ≡ (
          if is_some (look l (key r))
          then look l k
          else if eq.beq (key r) k
          then some r
          else look l k)
  look-push r [] k = refl
  look-push r (x ∷ l) k = ground (
    arith,
    eq.beq_iff (key x) (key r),
    eq.beq_iff (key x) k,
    eq.beq_iff (key r) k,
    look-push r l k,
  )

  pub look-drop :
      (j : Key) (l : List Row) (k : Key)
      → Distinct l
      → look (drop j l) k ≡ (if eq.beq j k then none else look l k)
  look-drop j [] k d = ground arith
  look-drop j (x ∷ l) k d =
      ground
        (arith, eq.beq_iff (key x) j, eq.beq_iff (key x) k, eq.beq_iff j k, look-drop j l k d.1)

  pub look-assign :
      (r : Row) (l : List Row) (k : Key)
      → look (assign r l) k ≡ (
          if is_some (look l (key r))
          then (if eq.beq (key r) k then some r else look l k)
          else look l k)
  look-assign r [] k = refl
  look-assign r (x ∷ l) k = ground (
    arith,
    eq.beq_iff (key x) (key r),
    eq.beq_iff (key x) k,
    eq.beq_iff (key r) k,
    look-assign r l k,
  )

  pub Distinct-push : (r : Row) (l : List Row) → Distinct l → Distinct (push r l)
  Distinct-push r [] d = (refl, tt)
  Distinct-push r (x ∷ l) d = ground (
    arith,
    eq.beq_iff (key x) (key r),
    eq.beq_iff (key r) (key x),
    look-push r l (key x),
    Distinct-push r l d.1,
  )

  pub Distinct-drop : (k : Key) (l : List Row) → Distinct l → Distinct (drop k l)
  Distinct-drop k [] d = tt
  Distinct-drop k (x ∷ l) d = ground (arith, look-drop k l (key x) d.1, Distinct-drop k l d.1)

  pub Distinct-assign : (r : Row) (l : List Row) → Distinct l → Distinct (assign r l)
  Distinct-assign r [] d = tt
  Distinct-assign r (x ∷ l) d = ground (
    arith,
    eq.beq_iff (key x) (key r),
    eq.beq_iff (key r) (key x),
    look-assign r l (key x),
    Distinct-assign r l d.1,
  )

  pub look_by_sound :
      (f : Row → String) (l : List Row) (s : String) (r : Row)
      → Distinct l
      → look_by f l s ≡ some r
      → (f r ≡ s) × (look l (key r) ≡ some r)
  look_by_sound f [] s r d e = cc
  look_by_sound f (x ∷ l) s r d e = ground (
    arith,
    eq_iff (f x) s,
    eq.beq_iff (key x) (key r),
    eq.beq_iff (key x) (key x),
    look_by_sound f l s r d.1,
  )

  pub look_by_complete :
      (f : Row → String) (l : List Row) (s : String) (k : Key) (r : Row)
      → look_by f l s ≡ none
      → look l k ≡ some r
      → f r ≢ s
  look_by_complete f [] s k r free e = cc
  look_by_complete f (x ∷ l) s k r free e =
      ground (arith, eq_iff (f x) s, look_by_complete f l s k r)

  -- What the rest of the list knows of a row, the whole list knows.
  All-cons :
      (f : Row → ℤ) (x : Row) (l rs : List Row) (z : ℤ)
      → look l (key x) ≡ none
      → All (λ r. (f r ≡ z) × (look l (key r) ≡ some r)) rs
      → All (λ r. (f r ≡ z) × (look (x ∷ l) (key r) ≡ some r)) rs
  All-cons f x l [] z new a = tt
  All-cons f x l (r ∷ rs) z new a =
      ((a.0.0, ground (arith, eq.beq_iff (key x) (key r), a.0.1)), All-cons f x l rs z new a.1)

  pub range_sound :
      (f : Row → ℤ) (l : List Row) (z : ℤ)
      → Distinct l
      → All (λ r. (f r ≡ z) × (look l (key r) ≡ some r)) (range f l z)
  range_sound f [] z d = tt
  range_sound f (x ∷ l) z d =
      let rest = All-cons f x l (range f l z) z d.0 (range_sound f l z d.1) in
      elim (Bool-cases (int_eq.beq (f x) z)) [
        | inl e ↦
            rw e (((int_eq.beq_iff (f x) z).0 e, rw ((eq.beq_iff (key x) (key x)).1 refl)), rest)
        | inr e ↦ rw e rest
      ]

  pub range_complete :
      (f : Row → ℤ) (l : List Row) (z : ℤ) (k : Key) (r : Row)
      → look l k ≡ some r
      → f r ≡ z
      → Member r (range f l z)
  range_complete f [] z k r e m = cc
  range_complete f (x ∷ l) z k r e m = elim (Bool-cases (eq.beq (key x) k)) [
    | inl hit ↦
        let same : x ≡ r = ground (arith, e, hit) in
        rw ((int_eq.beq_iff (f x) z).1 (ground (arith, same, m))) (first (ground (arith, same)))
    | inr miss ↦
        let rest = range_complete f l z k r (ground (arith, e, miss)) m in
        elim (Bool-cases (int_eq.beq (f x) z)) [ inl q ↦ rw q (later rest) | inr q ↦ rw q rest ]
  ]

  pub size-push :
      (r : Row) (l : List Row)
      → length (push r l) ≡ (if is_some (look l (key r)) then length l else suc (length l))
  size-push r [] = refl
  size-push r (x ∷ l) = ground (arith, size-push r l)

  pub size-drop :
      (k : Key) (l : List Row)
      → (if is_some (look l k) then suc (length (drop k l)) else length (drop k l)) ≡ length l
  size-drop k [] = refl
  size-drop k (x ∷ l) = ground (arith, size-drop k l)

  unfoldable pub listed : Table eq key
  listed = record {
    Rows = (l : List Row) × Distinct l;
    empty = ([], tt);
    find = λ t. look t.0;
    find_by = λ f t. look_by f t.0;
    equal_range = λ f t. range f t.0;
    size = λ t. length t.0;
    insert = λ r t. (push r t.0, Distinct-push r t.0 t.1);
    erase = λ k t. (drop k t.0, Distinct-drop k t.0 t.1);
    replace = λ r t. (assign r t.0, Distinct-assign r t.0 t.1);
    find-empty = λ k. refl;
    find-key = λ t k r e. look-key t.0 k r e;
    find-insert = λ r t k. look-push r t.0 k;
    find-erase = λ j t k. look-drop j t.0 k t.1;
    find-replace = λ r t k. look-assign r t.0 k;
    find_by-sound = λ f t s r e. look_by_sound f t.0 s r t.1 e;
    find_by-complete = λ f t s k r free e. look_by_complete f t.0 s k r free e;
    range-sound = λ f t z. range_sound f t.0 z t.1;
    range-complete = λ f t z k r e m. range_complete f t.0 z k r e m;
    size-empty = refl;
    size-insert = λ r t. size-push r t.0;
    size-erase = λ k t. size-drop k t.0;
  }
