-- ===== src/Access/UriComponent.antt =====
-- `decodeURIComponent` of JavaScript, as server/middleware/san-readonly.ts calls it on a part of the
-- path: `%` and two hexadecimal digits are an octet, and the octets are read as UTF-8. `none` is the
-- URIError that it throws.
use Prim.Native.Char.{Char, char, IsScalar, code}
use Prim.Native.String.{[], ◌∷◌}
use mathlib.Core.Logic.{dite}
use native.Mathlib.Decide.{dec_lt}
use esos_webui.Common.{
  List, Option, String, [], arith, if◌then◌else◌, leb, ltb, none, not, some, suc, zero, ℕ, ◌&&◌,
  ◌*◌, ◌+◌, ◌-◌, ◌<◌, ◌==◌, ◌∷◌,
}

pub data UriPiece : Type 0 where
  plain : Char → UriPiece
  octet : ℕ → UriPiece

unfoldable pub hex_value : ℕ → Option ℕ
hex_value c =
    if leb b'0' c && leb c b'9'
    then some (c - b'0')
    else if leb b'A' c && leb c b'F'
    then some (c - b'A' + 10)
    else if leb b'a' c && leb c b'f'
    then some (c - b'a' + 10)
    else none

unfoldable pub push_octet : Option ℕ → Option ℕ → Option (List UriPiece) → Option (List UriPiece)
push_octet (some high) (some low) (some rest) = some (octet (high * 16 + low) ∷ rest)
push_octet _ _ _ = none

unfoldable pub push_plain : Char → Option (List UriPiece) → Option (List UriPiece)
push_plain c none = none
push_plain c (some rest) = some (plain c ∷ rest)

unfoldable pub octets : String → Option (List UriPiece)
unfolding hex_value push_octet push_plain
octets [] = some []
octets (c ∷ []) = if code c == b'%' then none else some (plain c ∷ [])
octets (c ∷ d ∷ []) =
    let rest = octets (d ∷ []) in if code c == b'%' then none else push_plain c rest
octets (c ∷ d ∷ e ∷ s) =
    let later = octets s in
    let rest = octets (d ∷ e ∷ s) in
    if code c == b'%'
    then push_octet (hex_value (code d)) (hex_value (code e)) later
    else push_plain c rest

pub low-IsScalar : (n : ℕ) → n < 55296 → IsScalar n
low-IsScalar n h = ground arith

pub high-IsScalar : (n : ℕ) → 57343 < n → n < 1114112 → IsScalar n
high-IsScalar n h k = ground arith

-- The character with a number, if it is one.
unfoldable pub char_of : ℕ → Option Char
unfolding dec_lt
char_of n =
    dite (dec_lt n 55296) (λ h. some (char n (low-IsScalar n h)))
      (λ _.
        dite (dec_lt 57343 n)
          (λ h. dite (dec_lt n 1114112) (λ k. some (char n (high-IsScalar n h k))) (λ _. none))
          (λ _. none))

unfoldable pub push_char : Option Char → Option String → Option String
push_char (some c) (some s) = some (c ∷ s)
push_char _ _ = none

-- `more` octets are still to come of a character whose number is at least `least`, `n` what the
-- octets so far give.
unfoldable pub read_utf8 : ℕ → ℕ → ℕ → List UriPiece → Option String
unfolding push_char char_of
read_utf8 zero n least [] = some ""
read_utf8 (suc more) n least [] = none
read_utf8 zero n least (plain c ∷ us) = push_char (some c) (read_utf8 0 0 0 us)
read_utf8 (suc more) n least (plain c ∷ us) = none
read_utf8 zero n least (octet b ∷ us) =
    let one = push_char (char_of b) (read_utf8 0 0 0 us) in
    let two = read_utf8 1 (b - 192) 128 us in
    let three = read_utf8 2 (b - 224) 2048 us in
    let four = read_utf8 3 (b - 240) 65536 us in
    if ltb b 128
    then one
    else if ltb b 192
    then none
    else if ltb b 224
    then two
    else if ltb b 240
    then three
    else if ltb b 248
    then four
    else none
read_utf8 (suc more) n least (octet b ∷ us) =
    let n' = n * 64 + (b - 128) in
    let last = if ltb n' least then none else push_char (char_of n') (read_utf8 0 0 0 us) in
    let rest = read_utf8 more n' least us in
    if not (leb 128 b && ltb b 192) then none else if more == 0 then last else rest

unfoldable pub decode_uri_component : String → Option String
unfolding octets read_utf8
decode_uri_component s = elim (octets s) [ none ↦ none | some us ↦ read_utf8 0 0 0 us ]
