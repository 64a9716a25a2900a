-- ===== src/Table/Separate.antt =====
-- Names that are unique without a unique index: the invariant behind the two tables of engines.
use gpf.Prelude.{String, ◌≡◌, none, some, Eq, sym, arith}
use gpf.Table.{Table}

module _ {Key Row : Type 0} {eq : Eq Key} {key : Row → Key} (T : Table eq key)
    (f : Row → String) where
  open T use {
    Rows, find, find_by, insert, erase, find-insert, find-erase, find_by-sound, find_by-complete,
  }

  -- Rows of the two tables that share a name have the same key.
  abbrev pub Separate : Rows → Rows → Type 0
  Separate s t = (k j : Key) (e g : Row) → find s k ≡ some e → find t j ≡ some g → f e ≡ f g → k ≡ j

  -- A name that `find_by` does not find is no row's.
  pub unused :
      (t : Rows) (r : Row)
      → find_by f t (f r) ≡ none
      → (j : Key) (g : Row) → find t j ≡ some g
      → f r ≡ f g
      → key r ≡ j
  unused t r free j g q same = absurd (find_by-complete f t (f r) j g free q (sym same))

  pub Separate-erase_left : (s t : Rows) (i : Key) → Separate s t → Separate (erase i s) t
  Separate-erase_left s t i sep k j e g p q same = ground (arith, find-erase i s k, sep k j e g)

  pub Separate-erase_right : (s t : Rows) (i : Key) → Separate s t → Separate s (erase i t)
  Separate-erase_right s t i sep k j e g p q same = ground (arith, find-erase i t j, sep k j e g)

  pub Separate-insert_left :
      (s t : Rows) (r : Row)
      → Separate s t
      → ((j : Key) (g : Row) → find t j ≡ some g → f r ≡ f g → key r ≡ j)
      → Separate (insert r s) t
  Separate-insert_left s t r sep new k j e g p q same =
      ground (arith, find-insert r s k, eq.beq_iff (key r) k, sep k j e g, new j g)

  pub Separate-insert_right :
      (s t : Rows) (r : Row)
      → Separate s t
      → ((k : Key) (e : Row) → find s k ≡ some e → f r ≡ f e → key r ≡ k)
      → Separate s (insert r t)
  Separate-insert_right s t r sep new k j e g p q same =
      ground (arith, find-insert r t j, eq.beq_iff (key r) j, sep k j e g, new k e)

  -- A table of registered rows and one of incoming rows: a name belongs to one key in both.
  pub record Registry (s t : Rows) : Type 0 where
    pub within : Separate s s
    pub waiting : Separate t t
    pub across : Separate s t

  pub Registry-empty : Registry T.empty T.empty
  Registry-empty = record {
    within = λ k j e g p q same. cc (T.find-empty k);
    waiting = λ k j e g p q same. cc (T.find-empty k);
    across = λ k j e g p q same. cc (T.find-empty k);
  }

  pub Registry-erase : (s t : Rows) (i : Key) → Registry s t → Registry (erase i s) t
  Registry-erase s t i v = record {
    within = Separate-erase_left s (erase i s) i (Separate-erase_right s s i v.within);
    waiting = v.waiting;
    across = Separate-erase_left s t i v.across;
  }

  pub Registry-drop : (s t : Rows) (i : Key) → Registry s t → Registry s (erase i t)
  Registry-drop s t i v = record {
    within = v.within;
    waiting = Separate-erase_left t (erase i t) i (Separate-erase_right t t i v.waiting);
    across = Separate-erase_right s t i v.across;
  }

  -- A row with an unused name joins the incoming ones.
  pub Registry-wait :
      (s t : Rows) (r : Row)
      → find_by f s (f r) ≡ none
      → find_by f t (f r) ≡ none
      → Registry s t
      → Registry s (insert r t)
  Registry-wait s t r free_s free_t v = record {
    within = v.within;
    waiting =
        Separate-insert_left t (insert r t) r
          (Separate-insert_right t t r v.waiting (unused t r free_t))
          (λ j g q same.
            ground (arith, find-insert r t j, eq.beq_iff (key r) j, unused t r free_t j g));
    across = Separate-insert_right s t r v.across (unused s r free_s);
  }

  -- An incoming row is registered.
  pub Registry-admit :
      (s t : Rows) (r : Row) → find t (key r) ≡ some r → Registry s t → Registry (insert r s) t
  Registry-admit s t r there v = record {
    within =
        Separate-insert_left s (insert r s) r
          (Separate-insert_right s s r v.within
            (λ k e p same. sym (v.across k (key r) e r p there (sym same))))
          (λ j g q same.
            ground (arith, find-insert r s j, eq.beq_iff (key r) j, v.across j (key r) g r));
    waiting = v.waiting;
    across =
        Separate-insert_left s t r v.across (λ j g q same. v.waiting (key r) j r g there q same);
  }
