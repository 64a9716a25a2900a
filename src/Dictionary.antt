-- ===== src/Dictionary.antt =====
-- gpf/controller/db.hpp: the class template `dict_db`, a wrapper of `std::map`. The map is the list of its
-- entries in the order in which it is iterated, that of the keys.
use gpf.Prelude.{
  Bool, true, false, ◌≡◌, refl, Option, none, some, List, [], ◌∷◌, Bool-cases, inl, inr,
  if◌then◌else◌, ◌⊎◌,
}

-- `std::less` on the keys: a strict weak order.
pub record Less (K : Type 0) : Type 0 where
  pub lt : K → K → Bool
  pub lt_irrefl : (a : K) → lt a a ≡ false
  pub lt_trans : (a b c : K) → lt a b ≡ true → lt b c ≡ true → lt a c ≡ true

pub data UpdateError : Type 0 where
  no_such_key not_implemented : UpdateError

module _ {K : Type 0} (less : Less K) where
  open less use {lt, lt_irrefl, lt_trans}

  asymmetric : (a b : K) → lt a b ≡ true → lt b a ≡ false
  asymmetric a b p = elim (Bool-cases (lt b a)) [
    | inl q ↦ absurd (cc (lt_trans a b a p q, lt_irrefl a))
    | inr q ↦ q
  ]

module _ {K V : Type 0} (less : Less K) where
  open less use {lt, lt_irrefl, lt_trans}

  -- `find`; `none` is `end()`.
  unfoldable pub find : K → List (K × V) → Option V
  find k [] = none
  find k ((j, v) ∷ db) =
      let rest : Option V = find k db in if lt j k then rest else if lt k j then none else some v

  -- `operator[]`: the value, and the map, in which a key that it had not got has a new value.
  unfoldable pub at : V → K → List (K × V) → V × List (K × V)
  at new k [] = (new, (k, new) ∷ [])
  at new k ((j, v) ∷ db) =
      let rest : V × List (K × V) = at new k db in
      if lt j k
      then (rest.0, (j, v) ∷ rest.1)
      else if lt k j
      then (new, (k, new) ∷ (j, v) ∷ db)
      else (v, (j, v) ∷ db)

  -- `update`, which throws in every case.
  unfoldable pub update : K → V → List (K × V) → UpdateError
  unfolding find
  update k v db = elim (find k db) [ none ↦ no_such_key | some old ↦ not_implemented ]

  -- The key comes before all entries.
  abbrev Before : K → List (K × V) → Type 0
  Before k [] = Unit
  Before k ((j, v) ∷ db) = lt k j ≡ true

  -- The entries stand in the order of their keys.
  abbrev pub Ordered : List (K × V) → Type 0
  Ordered [] = Unit
  Ordered ((j, v) ∷ db) = Before j db × Ordered db

  Before-at :
      (new : V) (j k : K) (db : List (K × V))
      → lt j k ≡ true
      → Before j db
      → Before j (at new k db).1
  unfolding at
  Before-at new j k [] p b = p
  Before-at new j k ((i, v) ∷ db) p b = elim (Bool-cases (lt i k)) [
    | inl e ↦ rw e b
    | inr e ↦ elim (Bool-cases (lt k i)) [ inl d ↦ rw (e, d) p | inr d ↦ rw (e, d) b ]
  ]

  at-Ordered : (new : V) (k : K) (db : List (K × V)) → Ordered db → Ordered (at new k db).1
  unfolding at
  at-Ordered new k [] o = (tt, tt)
  at-Ordered new k ((j, v) ∷ db) (b, o) = elim (Bool-cases (lt j k)) [
    | inl e ↦ rw e (Before-at new j k db e b, at-Ordered new k db o)
    | inr e ↦ elim (Bool-cases (lt k j)) [
      | inl d ↦ rw (e, d) (d, (b, o))
      | inr d ↦ rw (e, d) (b, o)
    ]
  ]

  -- The value under a key, or the new one.
  abbrev pub or_new : V → Option V → V
  or_new new none = new
  or_new new (some v) = v

  at-value : (new : V) (k : K) (db : List (K × V)) → (at new k db).0 ≡ or_new new (find k db)
  unfolding at find
  at-value new k [] = refl
  at-value new k ((j, v) ∷ db) = elim (Bool-cases (lt j k)) [
    | inl e ↦ rw e (at-value new k db)
    | inr e ↦ elim (Bool-cases (lt k j)) [ inl d ↦ rw (e, d) refl | inr d ↦ rw (e, d) refl ]
  ]

  find-at : (new : V) (k : K) (db : List (K × V)) → find k (at new k db).1 ≡ some (at new k db).0
  unfolding at find
  find-at new k [] = rw (lt_irrefl k) refl
  find-at new k ((j, v) ∷ db) = elim (Bool-cases (lt j k)) [
    | inl e ↦ rw e (rw e (find-at new k db))
    | inr e ↦ elim (Bool-cases (lt k j)) [
      | inl d ↦ rw (e, d) (rw (lt_irrefl k) refl)
      | inr d ↦ rw (e, d) (rw (e, d) refl)
    ]
  ]

  find-at-other :
      (new : V) (k i : K) (db : List (K × V))
      → (lt i k ≡ true) ⊎ (lt k i ≡ true)
      → find i (at new k db).1 ≡ find i db
  unfolding at find
  find-at-other new k i [] (inl p) = rw (asymmetric less i k p, p) refl
  find-at-other new k i [] (inr p) = rw p refl
  find-at-other new k i ((j, v) ∷ db) apart = elim (Bool-cases (lt j k)) [
    | inl e ↦ rw (e, find-at-other new k i db apart) refl
    | inr e ↦ elim (Bool-cases (lt k j)) [
      | inr d ↦ rw (e, d) refl
      | inl d ↦
          rw (e, d)
            (elim apart [
              | inr p ↦ rw p refl
              | inl p ↦
                  let q = lt_trans i k j p d in
                  rw (asymmetric less i k p, p, asymmetric less i j q, q) refl
            ])
    ]
  ]

  -- In a map with its entries in order: `operator[]` gives the value under the key, or a new one if there is
  -- none, and leaves a map in order that has this value under the key, and under any key that comes
  -- before or after it what it had.
  pub at-find :
      (new : V) (k i : K) (db : List (K × V))
      → Ordered db
      → (lt i k ≡ true) ⊎ (lt k i ≡ true)
      → ((at new k db).0 ≡ or_new new (find k db))
        × Ordered (at new k db).1
        × (find k (at new k db).1 ≡ some (at new k db).0)
        × (find i (at new k db).1 ≡ find i db)
  at-find new k i db o apart =
      (at-value new k db, at-Ordered new k db o, find-at new k db, find-at-other new k i db apart)
