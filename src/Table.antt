-- ===== src/Table.antt =====
-- The container behind `engine_connector_set` and `task_set`: what the code relies on of
-- `boost::multi_index_container` with one unique index (`ordered_unique` on a member, the key) and
-- further `ordered_non_unique` indices on members of the row. Boost is not part of the repository,
-- so the container is an interface: its operations, and their documented behaviour as laws.

pub mod Separate
pub mod Lookup
pub mod Listed
use gpf.Prelude.{
  ℕ, suc, String, Bool, ◌≡◌, ◌≢◌, Option, none, some, List, Eq, ℤ, is_some, if◌then◌else◌,
}
use gpf.Prelude.Lists.{All, Member}

pub record Table {Key Row : Type 0} (eq : Eq Key) (key : Row → Key) : Type 1 where
  pub Rows : Type 0
  pub empty : Rows
  -- `find` in the unique index
  pub find : Rows → Key → Option Row
  -- `find` in the index on the member `f`
  pub find_by : (Row → String) → Rows → String → Option Row
  -- `equal_range` in the index on the member `f`
  pub equal_range : (Row → ℤ) → Rows → ℤ → List Row
  pub size : Rows → ℕ
  -- `insert`, refused if the row's key is taken
  pub insert : Row → Rows → Rows
  -- `erase` of the row with a key
  pub erase : Key → Rows → Rows
  -- `replace` of the row that has the key of the given one, and writes to its mutable members
  pub replace : Row → Rows → Rows
  pub find-empty : (k : Key) → find empty k ≡ none
  pub find-key : (t : Rows) (k : Key) (r : Row) → find t k ≡ some r → key r ≡ k
  pub find-insert :
      (r : Row) (t : Rows) (k : Key)
      → find (insert r t) k ≡ (
          if is_some (find t (key r))
          then find t k
          else if eq.beq (key r) k
          then some r
          else find t k)
  pub find-erase :
      (j : Key) (t : Rows) (k : Key) → find (erase j t) k ≡ (if eq.beq j k then none else find t k)
  pub find-replace :
      (r : Row) (t : Rows) (k : Key)
      → find (replace r t) k ≡ (
          if is_some (find t (key r))
          then (if eq.beq (key r) k then some r else find t k)
          else find t k)
  pub find_by-sound :
      (f : Row → String) (t : Rows) (s : String) (r : Row)
      → find_by f t s ≡ some r
      → (f r ≡ s) × (find t (key r) ≡ some r)
  pub find_by-complete :
      (f : Row → String) (t : Rows) (s : String) (k : Key) (r : Row)
      → find_by f t s ≡ none
      → find t k ≡ some r
      → f r ≢ s
  pub range-sound :
      (f : Row → ℤ) (t : Rows) (z : ℤ)
      → All (λ r. (f r ≡ z) × (find t (key r) ≡ some r)) (equal_range f t z)
  pub range-complete :
      (f : Row → ℤ) (t : Rows) (z : ℤ) (k : Key) (r : Row)
      → find t k ≡ some r
      → f r ≡ z
      → Member r (equal_range f t z)
  pub size-empty : size empty ≡ 0
  pub size-insert :
      (r : Row) (t : Rows)
      → size (insert r t) ≡ (if is_some (find t (key r)) then size t else suc (size t))
  pub size-erase :
      (k : Key) (t : Rows)
      → (if is_some (find t k) then suc (size (erase k t)) else size (erase k t)) ≡ size t
