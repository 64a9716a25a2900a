-- ===== src/Url/Parse.antt =====
-- What `parse` makes of a text that is put together from its parts.
use gpf.Prelude.{
  ℕ, suc, ◌+◌, ◌-◌, true, false, ◌≡◌, ◌≢◌, refl, ap, ◌∙◌, Option, some, [], ◌∷◌, ◌++◌, map, ℤ,
  negsuc, arith, leb, ltb,
}
use gpf.Prelude.Lists.{length, length-append}
use gpf.Url.{
  Bytes, Url, colon, slash, question, prot_end, index, take, drop, parsed, finish, parse_address,
  parse,
}
use gpf.Url.Split.{
  Without, index-append, index-Without, index-here, take-append, drop-append, split_protocol-append,
}

-- What follows the port: nothing, a path, or a path and a query.
pub data Tail : Type 0 where
  bare : Tail
  path_only : Bytes → Tail
  path_query : Bytes → Bytes → Tail

-- The path begins with a slash.
abbrev pub text_of : Tail → Bytes
text_of bare = []
text_of (path_only p) = slash ∷ p
text_of (path_query p q) = (slash ∷ p) ++ question ∷ q

abbrev pub path_of : Tail → Bytes
path_of bare = []
path_of (path_only p) = slash ∷ p
path_of (path_query p q) = slash ∷ p

abbrev pub query_of : Tail → Bytes
query_of bare = []
query_of (path_only p) = []
query_of (path_query p q) = q

-- The path ends at the first question mark.
abbrev pub Plain : Tail → Type 0
Plain t = Without question (path_of t)

take_all : (s : Bytes) → take (length s) s ≡ s
unfolding take
take_all [] = refl
take_all (b ∷ s) = ap (λ r. b ∷ r) (take_all s)

drop_all : (s : Bytes) → drop (suc (length s)) s ≡ []
unfolding drop
drop_all [] = refl
drop_all (b ∷ s) = drop_all s

tail_split :
    (t : Tail)
    → Plain t
    → (take (index question (text_of t)) (text_of t) ≡ path_of t)
      × (drop (suc (index question (text_of t))) (text_of t) ≡ query_of t)
unfolding take drop
tail_split bare v = rw (index-Without question [] tt) (refl, refl)
tail_split (path_only p) v =
    rw (index-Without question (slash ∷ p) v) (take_all (slash ∷ p), drop_all (slash ∷ p))
tail_split (path_query p q) v =
    let at_end : index question (text_of (path_query p q)) ≡ length (slash ∷ p) =
      ground (arith, index-append question (slash ∷ p) (question ∷ q) v, index-here question q) in
    let behind : suc (length (slash ∷ p)) ≡ length (slash ∷ p) + 1 = omega arith in
    rw at_end (
      take-append (slash ∷ p) (question ∷ q),
      ap (λ k. drop k (text_of (path_query p q))) behind ∙ drop-append 1 (slash ∷ p) (question ∷ q),
    )

length-map : (f : ℕ → ℕ) (s : Bytes) → length (map f s) ≡ length s
length-map f [] = refl
length-map f (b ∷ s) = ap suc (length-map f s)

module _ (tolower : ℕ → ℕ) (lexical_cast : Bytes → Option ℤ) where
  -- The record that a text with these parts stands for.
  abbrev pub url_of : Bytes → Bytes → ℤ → Tail → Url
  url_of prot host port t = record {
    protocol = map tolower prot;
    host = map tolower host;
    path = path_of t;
    query = query_of t;
    port = port;
  }

  finish-eq :
      (prot host : Bytes) (port : ℤ) (t : Tail)
      → host ≢ []
      → Without slash (map tolower host)
      → Plain t
      → finish tolower lexical_cast prot host port (text_of t) ≡ parsed (url_of prot host port t)
  unfolding finish
  finish-eq prot [] port t some_host free plain = absurd (some_host refl)
  finish-eq prot (b ∷ host) port t some_host free plain =
      let parts = tail_split t plain in
      let nowhere = index-Without slash (map tolower (b ∷ host)) free in
      rw (parts.0, parts.1, nowhere) (ground arith)

  index-text_of : (t : Tail) → index slash (text_of t) ≡ 0
  unfolding index
  index-text_of bare = refl
  index-text_of (path_only p) = ground arith
  index-text_of (path_query p q) = ground arith

  module _ (prot host : Bytes) (some_host : host ≢ []) (no_colon : Without colon host)
      (no_slash : Without slash host) (lower : Without slash (map tolower host)) (t : Tail)
      (plain : Plain t) where
    pub with_port :
        (digits : Bytes) (port : ℤ)
        → Without slash digits
        → lexical_cast digits ≡ some port
        → parse_address tolower lexical_cast prot (host ++ (colon ∷ (digits ++ text_of t)))
          ≡ parsed (url_of prot host port t)
    unfolding parse_address
    with_port digits port free cast =
        let s : Bytes = host ++ (colon ∷ (digits ++ text_of t)) in
        let at_colon : index colon s ≡ length host = ground (
          arith,
          index-append colon host (colon ∷ (digits ++ text_of t)) no_colon,
          index-here colon (digits ++ text_of t),
        ) in
        let colon_free : Without slash (colon ∷ digits) = (omega arith, free) in
        let at_slash : index slash s ≡ suc (length host + length digits) = ground (
          arith,
          index-append slash host (colon ∷ (digits ++ text_of t)) no_slash,
          index-append slash (colon ∷ digits) (text_of t) colon_free,
          index-text_of t,
        ) in
        let long : length s ≡ length host + suc (length digits + length (text_of t)) = ground (
          arith,
          length-append host (colon ∷ (digits ++ text_of t)),
          length-append digits (text_of t),
        ) in
        let inner : suc (length host + length digits) - suc (length host) ≡ length digits =
          omega arith in
        let next : suc (length host) ≡ length host + 1 = omega arith in
        let behind : drop (suc (length host)) s ≡ digits ++ text_of t =
          ap (λ k. drop k s) next ∙ drop-append 1 host (colon ∷ (digits ++ text_of t)) in
        let rest : suc (length host + length digits) ≡ length host + suc (length digits + 0) =
          omega arith in
        let path : drop (suc (length host + length digits)) s ≡ text_of t =
          ap (λ k. drop k s) rest
          ∙ drop-append (suc (length digits + 0)) host (colon ∷ (digits ++ text_of t))
          ∙ drop-append 0 digits (text_of t) in
        let first_test : ltb (length host) (length s) ≡ true = ground (arith, long) in
        let second_test : leb (suc (length host)) (suc (length host + length digits)) ≡ true =
          ground arith in
        rw
          (
            at_colon,
            at_slash,
            first_test,
            second_test,
            inner,
            behind,
            take-append digits (text_of t),
            cast,
            at_colon,
            at_slash,
            path,
            take-append host (colon ∷ (digits ++ text_of t)),
          )
          (finish-eq prot host port t some_host lower plain)

    pub portless :
        Without colon (text_of t)
        → parse_address tolower lexical_cast prot (host ++ text_of t)
          ≡ parsed (url_of prot host (negsuc 0) t)
    unfolding parse_address
    portless free =
        let s : Bytes = host ++ text_of t in
        let nowhere : index colon s ≡ length s = ground (
          arith,
          index-append colon host (text_of t) no_colon,
          index-Without colon (text_of t) free,
          length-append host (text_of t),
        ) in
        let at_slash : index slash s ≡ length host + 0 =
          ground (arith, index-append slash host (text_of t) no_slash, index-text_of t) in
        let all : length host + 0 ≡ length host = omega arith in
        let test : ltb (length s) (length s) ≡ false = ground arith in
        let path : drop (length host + 0) s ≡ text_of t = drop-append 0 host (text_of t) in
        rw (nowhere, test, at_slash, path, all, take-append host (text_of t))
          (finish-eq prot host (negsuc 0) t some_host lower plain)

  module _ (prot : Bytes) where
    abbrev pub ends : Bytes → Bytes
    ends s = (prot ++ prot_end) ++ s

    long_enough : (s : Bytes) → s ≢ [] → leb (length (ends s)) (length prot_end) ≡ false
    long_enough [] v = absurd (v refl)
    long_enough (b ∷ s) v =
        ground (arith, length-append (prot ++ prot_end) (b ∷ s), length-append prot prot_end)

    pub parse-ends :
        (s : Bytes)
        → s ≢ []
        → Without colon prot
        → parse tolower lexical_cast (ends s) ≡ parse_address tolower lexical_cast prot s
    unfolding parse
    parse-ends s v free = rw (long_enough s v, split_protocol-append prot s free) refl

pub some_more : (host s : Bytes) → host ≢ [] → host ++ s ≢ []
some_more [] s v e = v refl
some_more (b ∷ x) s v e = cc
