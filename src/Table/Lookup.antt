-- ===== src/Table/Lookup.antt =====
-- What a secondary index finds after an insertion or an erasure.
use gpf.Prelude.{String, ◌≡◌, none, some, Eq, refl, arith, Option-cases, inl, inr, is_some, true}
use gpf.Table.{Table}

module _ {Key Row : Type 0} {eq : Eq Key} {key : Row → Key} (T : Table eq key)
    (f : Row → String) where
  open T use {
    Rows, find, find_by, insert, erase, find-insert, find-erase, find_by-sound, find_by-complete,
    find-key,
  }

  -- A row with a new key and a new name is found by its name.
  pub find_by-insert :
      (t : Rows) (r : Row)
      → find_by f t (f r) ≡ none
      → find t (key r) ≡ none
      → find_by f (insert r t) (f r) ≡ some r
  find_by-insert t r free new = elim (Option-cases (find_by f (insert r t) (f r))) [
    | inl e ↦ absurd (
        find_by-complete f (insert r t) (f r) (key r) r e
          (ground (arith, new, find-insert r t (key r), eq.beq_iff (key r) (key r))) refl)
    | inr (g, e) ↦
        let found = find_by-sound f (insert r t) (f r) g e in
        ground (
          arith,
          e,
          found.1,
          new,
          find-insert r t (key g),
          find_by-complete f t (f r) (key g) g free,
          found.0,
        )
  ]

  -- A name that no row has is not found.
  pub find_by-none :
      (t : Rows) (s : String)
      → ((r : Row) → find t (key r) ≡ some r → f r ≡ s → ⊥)
      → find_by f t s ≡ none
  find_by-none t s nobody = elim (Option-cases (find_by f t s)) [
    | inl e ↦ e
    | inr (g, e) ↦ let found = find_by-sound f t s g e in absurd (nobody g found.1 found.0)
  ]

  -- A row that is taken out again leaves its name free.
  pub find_by-erase-insert :
      (t : Rows) (r : Row) (s : String)
      → find_by f t s ≡ none
      → find t (key r) ≡ none
      → find_by f (erase (key r) (insert r t)) s ≡ none
  find_by-erase-insert t r s free new = find_by-none (erase (key r) (insert r t)) s λ g p q.
      ground (
        arith,
        p,
        q,
        new,
        find-erase (key r) (insert r t) (key g),
        find-insert r t (key g),
        find_by-complete f t s (key g) g free,
      )

  -- A row that has the name is found, or another with the same name.
  pub find_by-is_some :
      (t : Rows) (r : Row) → find t (key r) ≡ some r → is_some (find_by f t (f r)) ≡ true
  find_by-is_some t r there = elim (Option-cases (find_by f t (f r))) [
    | inl e ↦ absurd (find_by-complete f t (f r) (key r) r e there refl)
    | inr (g, e) ↦ rw e
  ]
