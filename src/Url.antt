-- ===== src/Url.antt =====
-- gpf/util/url_handling.{hpp,cpp}: the class `url`. A text is the list of its bytes. `tolower` is that
-- of the C library, and `lexical_cast` Boost's conversion to `int`, `none` where it throws.
pub mod Split
pub mod Parse
pub mod RoundTrip
use gpf.Prelude.{
  ℕ, zero, suc, ◌+◌, ◌-◌, Bool, true, false, Option, none, some, List, [], ◌∷◌, map, ℤ, negsuc,
  nat_eq, leb, ltb, if◌then◌else◌,
}
use gpf.Prelude.Lists.{length}

abbrev pub Bytes : Type 0
Bytes = List ℕ

-- `:`, `/` and `?`
abbrev pub colon : ℕ
colon = 58

abbrev pub slash : ℕ
slash = 47

abbrev pub question : ℕ
question = 63

abbrev pub prot_end : Bytes
prot_end = colon ∷ slash ∷ slash ∷ []

pub record Url : Type 0 where
  pub protocol : Bytes
  pub host : Bytes
  pub path : Bytes
  pub query : Bytes
  pub port : ℤ

-- The exceptions: the three of the parser itself, that of `reserve` with a negative size, and that of
-- `lexical_cast`.
pub data UrlError : Type 0 where
  too_short no_protocol bad_length bad_port no_host : UrlError

pub data Parsed : Type 0 where
  failed : UrlError → Parsed
  parsed : Url → Parsed

-- `find`: where a byte stands first, the length of the text if nowhere.
unfoldable pub index : ℕ → Bytes → ℕ
index c [] = 0
index c (b ∷ s) = if nat_eq b c then 0 else suc (index c s)

unfoldable pub take : ℕ → Bytes → Bytes
take zero s = []
take (suc n) [] = []
take (suc n) (b ∷ s) = b ∷ take n s

unfoldable pub drop : ℕ → Bytes → Bytes
drop zero s = s
drop (suc n) [] = []
drop (suc n) (b ∷ s) = drop n s

unfoldable pub strip : Bytes → Bytes → Option Bytes
strip [] s = some s
strip (p ∷ ps) [] = none
strip (p ∷ ps) (b ∷ s) = if nat_eq p b then strip ps s else none

-- `search` for `://`: the text before it, and the text behind it.
unfoldable pub split_protocol : Bytes → Option (Bytes × Bytes)
unfolding strip
split_protocol [] = none
split_protocol (b ∷ s) =
    let rest : Option (Bytes × Bytes) = split_protocol s in
    elim (strip prot_end (b ∷ s)) [
      | some behind ↦ some ([], behind)
      | none ↦ elim rest [ none ↦ none | some (before, behind) ↦ some (b ∷ before, behind) ]
    ]

module _ (tolower : ℕ → ℕ) (lexical_cast : Bytes → Option ℤ) where
  -- The end of `parse`, with the host and the port; `s` starts at `path_i`.
  unfoldable pub finish : Bytes → Bytes → ℤ → Bytes → Parsed
  unfolding index take drop
  finish prot host port s =
      let query_i : ℕ = index question s in
      let url : Url = record {
        protocol = map tolower prot;
        host = map tolower host;
        path = take query_i s;
        query = drop (suc query_i) s;
        port = port;
      } in
      if nat_eq (length url.host) 0
      then failed no_host
      else if ltb (index slash url.host) (length url.host)
      then failed no_host
      else parsed url

  -- `parse` from behind `://`.
  unfoldable pub parse_address : Bytes → Bytes → Parsed
  unfolding index take drop finish
  parse_address prot s =
      let colon_i : ℕ = index colon s in
      let path_i : ℕ = index slash s in
      if ltb colon_i (length s)
      then (if leb (suc colon_i) path_i
          then (elim (lexical_cast (take (path_i - suc colon_i) (drop (suc colon_i) s))) [
            | none ↦ failed bad_port
            | some port ↦ finish prot (take colon_i s) port (drop path_i s)
          ])
          else failed bad_length)
      else finish prot (take path_i s) (negsuc 0) (drop path_i s)

  unfoldable pub parse : Bytes → Parsed
  unfolding split_protocol parse_address
  parse url_s =
      if leb (length url_s) (length prot_end)
      then failed too_short
      else elim (split_protocol url_s) [
        | none ↦ failed no_protocol
        | some (prot, s) ↦ parse_address prot s
      ]

  unfoldable pub validate_url : Bytes → Bool
  unfolding parse
  validate_url u = elim (parse u) [ failed e ↦ false | parsed url ↦ true ]
