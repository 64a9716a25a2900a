-- ===== src/Examples/Addresses.antt =====
-- Texts of URLs.
use gpf.Prelude.{
  ℕ, ◌+◌, ◌≡◌, refl, Option, none, some, [], ◌∷◌, ℤ, pos, arith, nat_eq, leb, ◌&&◌, if◌then◌else◌,
}
use gpf.Prelude.Lists.{length}
use gpf.Url.{Bytes, parse, parsed, failed, bad_length}
use gpf.Url.Parse.{path_query}
use gpf.Url.RoundTrip.{parse-with_port, parse-colon_in_path}

abbrev ascii_lower : ℕ → ℕ
ascii_lower b = if leb 65 b && leb b 90 then b + 32 else b

-- The conversion of one digit.
abbrev one_digit : Bytes → Option ℤ
one_digit [] = none
one_digit (d ∷ s) = if nat_eq d 52 && nat_eq (length s) 0 then some (pos 4) else none

-- `Tcp` and `h`, `/p`, `q`
abbrev tcp : Bytes
tcp = 84 ∷ 99 ∷ 112 ∷ []

abbrev h : Bytes
h = 104 ∷ []

-- `Tcp://h:4/p?q`
parse-with_port_example :
    parse ascii_lower one_digit
      (84 ∷ 99 ∷ 112 ∷ 58 ∷ 47 ∷ 47 ∷ 104 ∷ 58 ∷ 52 ∷ 47 ∷ 112 ∷ 63 ∷ 113 ∷ [])
    ≡ parsed (record {
      protocol = 116 ∷ 99 ∷ 112 ∷ [];
      host = 104 ∷ [];
      path = 47 ∷ 112 ∷ [];
      query = 113 ∷ [];
      port = pos 4;
    })
parse-with_port_example =
    parse-with_port ascii_lower one_digit tcp h (omega arith, (omega arith, (omega arith, tt)))
      (λ e. cc) (omega arith, tt) (omega arith, tt) (52 ∷ []) (pos 4)
      (path_query (112 ∷ []) (113 ∷ [])) (omega arith, tt) (omega arith, tt) refl
      (omega arith, (omega arith, tt))

-- `Tcp://h/p:4`
parse-colon_in_path_example :
    parse ascii_lower one_digit (84 ∷ 99 ∷ 112 ∷ 58 ∷ 47 ∷ 47 ∷ 104 ∷ 47 ∷ 112 ∷ 58 ∷ 52 ∷ [])
    ≡ failed bad_length
parse-colon_in_path_example =
    parse-colon_in_path ascii_lower one_digit tcp h (omega arith, (omega arith, (omega arith, tt)))
      (λ e. cc) (omega arith, tt) (omega arith, tt) (112 ∷ []) (52 ∷ []) (omega arith, tt)
