-- ===== src/Url/Split.antt =====
-- Where a text is split.
use gpf.Prelude.{ℕ, suc, ◌+◌, ◌≡◌, ◌≢◌, refl, ap, ◌∙◌, none, some, [], ◌∷◌, ◌++◌, arith}
use gpf.Prelude.Lists.{All, length}
use gpf.Url.{Bytes, colon, prot_end, index, take, drop, strip, split_protocol}

-- The byte does not stand in the text.
abbrev pub Without : ℕ → Bytes → Type 0
Without c s = All (λ b. b ≢ c) s

pub index-append : (c : ℕ) (s t : Bytes) → Without c s → index c (s ++ t) ≡ length s + index c t
unfolding index
index-append c [] t v = ground arith
index-append c (b ∷ s) t v = ground (arith, v.0, index-append c s t v.1)

pub index-Without : (c : ℕ) (s : Bytes) → Without c s → index c s ≡ length s
unfolding index
index-Without c [] v = refl
index-Without c (b ∷ s) v = ground (arith, v.0, index-Without c s v.1)

pub index-here : (c : ℕ) (t : Bytes) → index c (c ∷ t) ≡ 0
unfolding index
index-here c t = ground arith

pub take-append : (s t : Bytes) → take (length s) (s ++ t) ≡ s
unfolding take
take-append [] t = refl
take-append (b ∷ s) t = ap (λ r. b ∷ r) (take-append s t)

pub drop-append : (n : ℕ) (s t : Bytes) → drop (length s + n) (s ++ t) ≡ drop n t
unfolding drop
drop-append n [] t = let same : length {A = ℕ} [] + n ≡ n = omega arith in ap (λ k. drop k t) same
drop-append n (b ∷ s) t =
    let same : length (b ∷ s) + n ≡ suc (length s + n) = omega arith in
    ap (λ k. drop k (b ∷ (s ++ t))) same ∙ drop-append n s t

strip-other : (b : ℕ) (s : Bytes) → b ≢ colon → strip prot_end (b ∷ s) ≡ none
unfolding strip
strip-other b s v = ground (arith, v)

pub split_protocol-append :
    (prot s : Bytes) → Without colon prot → split_protocol (prot ++ prot_end ++ s) ≡ some (prot, s)
unfolding split_protocol strip
split_protocol-append [] s v = refl
split_protocol-append (b ∷ prot) s v =
    rw (split_protocol, strip-other b (prot ++ prot_end ++ s) v.0, split_protocol-append prot s v.1)
      refl
