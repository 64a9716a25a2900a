-- ===== src/Reactor/Aligned.antt =====
-- The three lists stay in step, and no socket is polled twice.
use gpf.Prelude.{
  ℕ, zero, suc, Bool, true, false, ◌≡◌, refl, sym, ap, ◌∙◌, some, List, [], ◌∷◌, ◌++◌, is_some,
  nat_eq, arith, inl, inr, Option-cases, Bool-cases, map, ◌||◌,
}
use gpf.Prelude.Lists.{length}
use gpf.Reactor.{PollItem, Reactor, get_index, erase_at, add, remove}

-- Whether the socket is in the list.
abbrev pub holds : List ℕ → ℕ → Bool
holds l v = is_some (get_index l v)

-- No socket of the list stands in it twice.
abbrev pub Once : List ℕ → Type 0
Once [] = Unit
Once (s ∷ ss) = (holds ss s ≡ false) × Once ss

module _ {C : Type 0} where
  -- The items are those of the sockets, there is a callback for each, and no socket is there twice.
  pub record Aligned (r : Reactor C) : Type 0 where
    pub items_of : map (λ (i : PollItem). i.socket) r.items ≡ r.socks
    pub callbacks_of : length r.callbacks ≡ length r.socks
    pub once : Once r.socks

map-snoc :
    {A B : Type 0} (f : A → B) (l : List A) (x : A) → map f (l ++ x ∷ []) ≡ map f l ++ f x ∷ []
map-snoc f [] x = refl
map-snoc f (y ∷ l) x = ap (λ t. f y ∷ t) (map-snoc f l x)

length-snoc : {A : Type 0} (l : List A) (x : A) → length (l ++ x ∷ []) ≡ suc (length l)
length-snoc [] x = refl
length-snoc (y ∷ l) x = ap suc (length-snoc l x)

holds-cons : (s : ℕ) (l : List ℕ) (w : ℕ) → holds (s ∷ l) w ≡ (nat_eq s w || holds l w)
unfolding get_index
holds-cons s l w = elim (Bool-cases (nat_eq s w)) [
  | inl e ↦ rw e refl
  | inr e ↦ elim (Option-cases (get_index l w)) [
    | inl d ↦ rw (e, d) refl
    | inr (i, d) ↦ rw (e, d) refl
  ]
]

holds-snoc : (l : List ℕ) (v w : ℕ) → holds (l ++ v ∷ []) w ≡ (holds l w || nat_eq v w)
holds-snoc [] v w = rw holds-cons (ground arith)
holds-snoc (s ∷ l) v w =
    ground (arith, holds-cons s (l ++ v ∷ []) w, holds-cons s l w, holds-snoc l v w)

Once-snoc : (l : List ℕ) (v : ℕ) → holds l v ≡ false → Once l → Once (l ++ v ∷ [])
unfolding get_index
Once-snoc [] v new o = (refl, tt)
Once-snoc (s ∷ l) v new o =
    let parts : (nat_eq s v ≡ false) × (holds l v ≡ false) =
      ground (arith, holds-cons s l v, new) in
    (ground (arith, holds-snoc l v s, o.0, parts.0), Once-snoc l v parts.1 o.1)

holds-erase_at : (n : ℕ) (l : List ℕ) (w : ℕ) → holds l w ≡ false → holds (erase_at n l) w ≡ false
unfolding erase_at
holds-erase_at n [] w e = e
holds-erase_at zero (s ∷ l) w e = ground (arith, holds-cons s l w, e)
holds-erase_at (suc n) (s ∷ l) w e =
    ground (arith, holds-cons s l w, holds-cons s (erase_at n l) w, e, holds-erase_at n l w)

Once-erase_at : (n : ℕ) (l : List ℕ) → Once l → Once (erase_at n l)
unfolding erase_at
Once-erase_at n [] o = tt
Once-erase_at zero (s ∷ l) o = o.1
Once-erase_at (suc n) (s ∷ l) o = (holds-erase_at n l s o.0, Once-erase_at n l o.1)

map-erase_at :
    {A B : Type 0} (f : A → B) (n : ℕ) (l : List A) → map f (erase_at n l) ≡ erase_at n (map f l)
unfolding erase_at
map-erase_at f n [] = refl
map-erase_at f zero (x ∷ l) = refl
map-erase_at f (suc n) (x ∷ l) = ap (λ t. f x ∷ t) (map-erase_at f n l)

length-erase_at :
    {A B : Type 0} (n : ℕ) (k : List A) (l : List B)
    → length k ≡ length l
    → length (erase_at n k) ≡ length (erase_at n l)
unfolding erase_at
length-erase_at n [] [] e = refl
length-erase_at n [] (y ∷ l) e = absurd (omega (arith, e))
length-erase_at n (x ∷ k) [] e = absurd (omega (arith, e))
length-erase_at zero (x ∷ k) (y ∷ l) e = omega (arith, e)
length-erase_at (suc n) (x ∷ k) (y ∷ l) e =
    let shorter : length k ≡ length l = omega (arith, e) in ap suc (length-erase_at n k l shorter)

get_index-snoc :
    (l : List ℕ) (v : ℕ) → holds l v ≡ false → get_index (l ++ v ∷ []) v ≡ some (length l)
unfolding get_index
get_index-snoc [] v new = let same : nat_eq v v ≡ true = ground arith in rw same refl
get_index-snoc (s ∷ l) v new =
    let parts : (nat_eq s v ≡ false) × (holds l v ≡ false) =
      ground (arith, holds-cons s l v, new) in
    rw (parts.0, get_index-snoc l v parts.1) refl

erase_at-snoc : {A : Type 0} (l : List A) (x : A) → erase_at (length l) (l ++ x ∷ []) ≡ l
unfolding erase_at
erase_at-snoc [] x = refl
erase_at-snoc (y ∷ l) x = ap (λ t. y ∷ t) (erase_at-snoc l x)

length-map : {A B : Type 0} (f : A → B) (l : List A) → length (map f l) ≡ length l
length-map f [] = refl
length-map f (y ∷ l) = ap suc (length-map f l)

module _ {C : Type 0} (v : ℕ) (r : Reactor C) (a : Aligned r) where
  -- Adding a socket, with the test whether it is there already, keeps the three lists in step: the
  -- items are those of the sockets, there is one callback for each, and no socket is there twice.
  pub add-Aligned : (event : ℕ) (cb : C) → Aligned (add v event cb true r).1
  unfolding add
  add-Aligned event cb = elim (Bool-cases (holds r.socks v)) [
    | inl e ↦ rw (add, e) a
    | inr e ↦
        rw (add, e)
          (record {
            items_of =
                map-snoc (λ (i : PollItem). i.socket) r.items
                  (record { socket = v; events = event })
                ∙ ap (λ l. l ++ v ∷ []) a.items_of;
            callbacks_of =
                length-snoc r.callbacks cb ∙ ap suc a.callbacks_of ∙ sym (length-snoc r.socks v);
            once = Once-snoc r.socks v e a.once;
          })
  ]

  -- Removing a socket keeps the three lists in step.
  pub remove-Aligned : Aligned (remove v r).1
  unfolding remove
  remove-Aligned = elim (Option-cases (get_index r.socks v)) [
    | inl e ↦ rw (remove, e) a
    | inr (pos, e) ↦
        rw (remove, e)
          (record {
            items_of =
                map-erase_at (λ (i : PollItem). i.socket) pos r.items
                ∙ ap (erase_at pos) a.items_of;
            callbacks_of = length-erase_at pos r.callbacks r.socks a.callbacks_of;
            once = Once-erase_at pos r.socks a.once;
          })
  ]

  abbrev added : ℕ → C → Reactor C
  added event cb = record {
    items = r.items ++ record { socket = v; events = event } ∷ [];
    callbacks = r.callbacks ++ cb ∷ [];
    socks = r.socks ++ v ∷ [];
  }

  add-new :
      (event : ℕ) (cb : C)
      → holds r.socks v ≡ false
      → add v event cb true r ≡ (true, added event cb)
  unfolding add
  add-new event cb new = rw (add, new) refl

  -- If the lists are in step, a socket that was not there, added and removed again, leaves the reactor
  -- as it was.
  pub remove-add :
      (event : ℕ) (cb : C)
      → holds r.socks v ≡ false
      → remove v (add v event cb true r).1 ≡ (true, r)
  unfolding remove
  remove-add event cb new =
      let many : length r.items ≡ length r.socks =
        sym (length-map (λ (i : PollItem). i.socket) r.items) ∙ ap length a.items_of in
      let item : PollItem = record { socket = v; events = event } in
      let items : erase_at (length r.socks) (r.items ++ item ∷ []) ≡ r.items =
        ap (λ n. erase_at n (r.items ++ item ∷ [])) (sym many) ∙ erase_at-snoc r.items item in
      let callbacks : erase_at (length r.socks) (r.callbacks ++ cb ∷ []) ≡ r.callbacks =
        ap (λ n. erase_at n (r.callbacks ++ cb ∷ [])) (sym a.callbacks_of)
        ∙ erase_at-snoc r.callbacks cb in
      ap (λ (p : Bool × Reactor C). remove v p.1) (add-new event cb new)
      ∙ rw (remove, get_index-snoc r.socks v new, items, callbacks, erase_at-snoc r.socks v) refl
