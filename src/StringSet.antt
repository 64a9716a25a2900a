-- ===== src/StringSet.antt =====
-- `std::set<std::string>`: the members in ascending order, each once. `insert` keeps the order, so
-- a loop over a set meets its members in the order of the source.
use Prim.Native.Nat.{Ordering}
use Prim.Native.String.{compare}
use gpf.Prelude.{
  String, Bool, false, not, ◌&&◌, ◌||◌, List, [], ◌∷◌, ◌≡◌, refl, arith, ◌==◌, eq_iff,
  if◌then◌else◌,
}

abbrev pub StringSet : Type 0
StringSet = List String

-- `s.find(x) != s.end()`
unfoldable pub contains : StringSet → String → Bool
contains [] x = false
contains (y ∷ s) x = y == x || contains s x

-- `s.insert(x)`
unfoldable pub insert : String → StringSet → StringSet
insert x [] = x ∷ []
insert x (y ∷ s) = elim (compare x y) [
  | Ordering.lt ↦ x ∷ y ∷ s
  | Ordering.eq ↦ y ∷ s
  | Ordering.gt ↦ y ∷ insert x s
]

-- the members that pass a test, in order
unfoldable pub keep : (String → Bool) → StringSet → StringSet
keep test [] = []
keep test (y ∷ s) = let rest = keep test s in if test y then y ∷ rest else rest

-- `s.erase(x)`
unfoldable pub erase : String → StringSet → StringSet
unfolding keep
erase x s = keep (λ y. not (y == x)) s

-- `std::set_intersection(a, b)` and `std::set_difference(a, b)`, into an empty set
unfoldable pub set_intersection : StringSet → StringSet → StringSet
unfolding keep
set_intersection a b = keep (contains b) a

unfoldable pub set_difference : StringSet → StringSet → StringSet
unfolding keep
set_difference a b = keep (λ y. not (contains b y)) a

pub contains-insert :
    (x y : String) (s : StringSet) → contains (insert x s) y ≡ (x == y || contains s y)
unfolding contains insert
contains-insert x y [] = refl
contains-insert x y (z ∷ s) =
    ground (arith, eq_iff x y, eq_iff z y, eq_iff x z, contains-insert x y s)

pub contains-keep :
    (test : String → Bool) (x : String) (s : StringSet)
    → contains (keep test s) x ≡ (contains s x && test x)
unfolding contains keep
contains-keep test x [] = refl
contains-keep test x (y ∷ s) = ground (arith, eq_iff y x, contains-keep test x s)

pub contains-erase :
    (x y : String) (s : StringSet) → contains (erase x s) y ≡ (contains s y && not (y == x))
unfolding erase
contains-erase x y s = contains-keep (λ z. not (z == x)) y s

pub contains-set_intersection :
    (a b : StringSet) (x : String)
    → contains (set_intersection a b) x ≡ (contains a x && contains b x)
unfolding set_intersection
contains-set_intersection a b x = contains-keep (contains b) x a

pub contains-set_difference :
    (a b : StringSet) (x : String)
    → contains (set_difference a b) x ≡ (contains a x && not (contains b x))
unfolding set_difference
contains-set_difference a b x = contains-keep (λ y. not (contains b y)) x a

pub ruleset set_laws =
    (contains-insert, contains-erase, contains-set_intersection, contains-set_difference)
