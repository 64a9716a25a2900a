-- ===== src/Examples/Dictionary.antt =====
-- A dictionary with numbers as keys.
use gpf.Prelude.{ℕ, true, false, ◌≡◌, refl, List, [], ◌∷◌, ltb, arith}
use gpf.Dictionary.{Less, no_such_key, not_implemented, find, at, update}

ltb_irrefl : (a : ℕ) → ltb a a ≡ false
ltb_irrefl a = ground arith

ltb_trans : (a b c : ℕ) → ltb a b ≡ true → ltb b c ≡ true → ltb a c ≡ true
ltb_trans a b c p q = ground (arith, p, q)

abbrev numbers : Less ℕ
numbers = record { lt = ltb; lt_irrefl = ltb_irrefl; lt_trans = ltb_trans }

abbrev db : List (ℕ × ℕ)
db = (1, 10) ∷ (3, 30) ∷ []

two_added : at numbers 0 2 db ≡ (0, (1, 10) ∷ (2, 0) ∷ (3, 30) ∷ [])
unfolding at
two_added = refl

two_unknown : update numbers 2 20 db ≡ no_such_key
unfolding update find
two_unknown = refl

three_known : update numbers 3 20 db ≡ not_implemented
unfolding update find
three_known = refl
