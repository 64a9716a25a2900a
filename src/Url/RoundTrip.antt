-- ===== src/Url/RoundTrip.antt =====
-- A URL that is put together from its parts, and what `parse` makes of it.
use gpf.Prelude.{
  ℕ, suc, ◌+◌, true, false, ◌≡◌, ◌≢◌, refl, ◌∙◌, Option, some, [], ◌∷◌, ◌++◌, map, ℤ, negsuc, arith,
  leb, ltb,
}
use gpf.Prelude.Lists.{length, length-append}
use gpf.Url.{Bytes, colon, slash, prot_end, index, failed, parsed, bad_length, parse_address, parse}
use gpf.Url.Split.{Without, index-append, index-here}
use gpf.Url.Parse.{Tail, text_of, Plain, url_of, with_port, portless, parse-ends, some_more}

module _ (tolower : ℕ → ℕ) (lexical_cast : Bytes → Option ℤ) (prot host : Bytes)
    (prot_plain : Without colon prot) (some_host : host ≢ []) (no_colon : Without colon host)
    (no_slash : Without slash host) where
  -- A text that consists of a protocol, `://`, a host, `:`, a port, and nothing more, a path, or a path
  -- and a query behind a question mark, is parsed into these parts, protocol and host in lower case.
  -- Conditions: the protocol has no colon; the host is not empty, and has no colon and no slash, nor has
  -- it one in lower case; the port has no slash and is a number; the path begins with a slash and has no
  -- question mark.
  pub parse-with_port :
      (digits : Bytes) (port : ℤ) (t : Tail)
      → Without slash (map tolower host)
      → Without slash digits
      → lexical_cast digits ≡ some port
      → Plain t
      → parse tolower lexical_cast ((prot ++ prot_end) ++ (host ++ (colon ∷ (digits ++ text_of t))))
        ≡ parsed (url_of tolower lexical_cast prot host port t)
  parse-with_port digits port t lower free cast plain =
      parse-ends tolower lexical_cast prot (host ++ (colon ∷ (digits ++ text_of t)))
        (some_more host (colon ∷ (digits ++ text_of t)) some_host) prot_plain
      ∙ with_port tolower lexical_cast prot host some_host no_colon no_slash lower t plain digits
          port free cast

  -- A text that consists of a protocol, `://`, a host, and nothing more, a path, or a path and a query
  -- behind a question mark, is parsed into these parts, protocol and host in lower case, with the port -1.
  -- Conditions: the protocol has no colon; the host is not empty, and has no colon and no slash, nor has
  -- it one in lower case; path and query have no colon; the path begins with a slash and has no
  -- question mark.
  pub parse-portless :
      (t : Tail)
      → Without slash (map tolower host)
      → Plain t
      → Without colon (text_of t)
      → parse tolower lexical_cast ((prot ++ prot_end) ++ (host ++ text_of t))
        ≡ parsed (url_of tolower lexical_cast prot host (negsuc 0) t)
  parse-portless t lower plain free =
      parse-ends tolower lexical_cast prot (host ++ text_of t)
        (some_more host (text_of t) some_host) prot_plain
      ∙ portless tolower lexical_cast prot host some_host no_colon no_slash lower t plain free

  -- A text without a port whose path has a colon is refused: the size of the port's text is negative.
  -- Conditions: the protocol has no colon, the host is not empty and has no colon and no slash.
  pub parse-colon_in_path :
      (p rest : Bytes)
      → Without colon p
      → parse tolower lexical_cast ((prot ++ prot_end) ++ (host ++ ((slash ∷ p) ++ (colon ∷ rest))))
        ≡ failed bad_length
  unfolding parse_address
  parse-colon_in_path p rest free =
      let s : Bytes = host ++ ((slash ∷ p) ++ (colon ∷ rest)) in
      let slash_free : Without colon (slash ∷ p) = (omega arith, free) in
      let at_colon : index colon s ≡ length host + suc (length p) = ground (
        arith,
        index-append colon host ((slash ∷ p) ++ (colon ∷ rest)) no_colon,
        index-append colon (slash ∷ p) (colon ∷ rest) slash_free,
        index-here colon rest,
      ) in
      let at_slash : index slash s ≡ length host = ground (
        arith,
        index-append slash host ((slash ∷ p) ++ (colon ∷ rest)) no_slash,
        index-here slash (p ++ (colon ∷ rest)),
      ) in
      let long : length s ≡ length host + suc (length p + suc (length rest)) = ground (
        arith,
        length-append host ((slash ∷ p) ++ (colon ∷ rest)),
        length-append p (colon ∷ rest),
      ) in
      let first_test : ltb (length host + suc (length p)) (length s) ≡ true =
        ground (arith, long) in
      let second_test : leb (suc (length host + suc (length p))) (length host) ≡ false =
        ground arith in
      parse-ends tolower lexical_cast prot s
        (some_more host ((slash ∷ p) ++ (colon ∷ rest)) some_host) prot_plain
      ∙ rw (at_colon, at_slash, first_test, second_test) refl
