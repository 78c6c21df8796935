-- ===== src/Common/Text.antt =====
-- JavaScript strings as native texts: template literals, `join`, `trim`, decimal numbers, and the
-- character classes that the program's regular expressions are made of.
use Prim.Native.Nat.{ℕ, zero, suc, ◌+◌, ◌/◌, ◌%◌}
use Prim.Native.Char.{code}
use Prim.Native.String
use Prim.Native.String.{String, [], ◌∷◌}
use mathlib.Core.Path.{◌≡◌, refl}
use mathlib.Core.Bool.{Bool, true, false, ◌&&◌, ◌||◌}
use mathlib.Core.Option.{Option, none, some}
use mathlib.Core.List.{List, [], ◌∷◌}
use text.Mathlib.Text.{◌==◌}
use esos_webui.Common.Tests.{leb, ◌==◌ as nat_eq, if◌then◌else◌}

-- a === b
abbrev pub str_eq : String → String → Bool
str_eq a b = a == b

-- A template literal, as the list of its parts.
unfoldable pub template : List String → String
template [] = ""
template (p ∷ ps) = String.◌++◌ p (template ps)

-- `parts.join(sep)`
unfoldable pub join : String → List String → String
join sep [] = ""
join sep (p ∷ []) = p
join sep (p ∷ q ∷ ps) = String.◌++◌ p (String.◌++◌ sep (join sep (q ∷ ps)))

unfoldable pub digit : ℕ → String
digit zero = "0"
digit (suc zero) = "1"
digit (suc (suc zero)) = "2"
digit (suc (suc (suc zero))) = "3"
digit (suc (suc (suc (suc zero)))) = "4"
digit (suc (suc (suc (suc (suc zero))))) = "5"
digit (suc (suc (suc (suc (suc (suc zero)))))) = "6"
digit (suc (suc (suc (suc (suc (suc (suc zero))))))) = "7"
digit (suc (suc (suc (suc (suc (suc (suc (suc zero)))))))) = "8"
digit _ = "9"

unfoldable pub show_from : ℕ → ℕ → String → String
unfolding digit
show_from zero n acc = acc
show_from (suc fuel) n acc =
    let out = String.◌++◌ (digit (n % 10)) acc in
    let more = show_from fuel (n / 10) out in if nat_eq (n / 10) 0 then out else more

-- A natural number as `${n}` prints it; every round divides by ten, so `n + 1` rounds suffice.
unfoldable pub show : ℕ → String
unfolding show_from
show n = show_from (n + 1) n ""

-- Every character of the text lies in a class: `/^[class]*$/`.
unfoldable pub all_chars : (ℕ → Bool) → String → Bool
all_chars p [] = true
all_chars p (c ∷ s) = p (code c) && all_chars p s

-- `[0-9]`, `[A-Z]`, `[a-z]`
unfoldable pub is_digit : ℕ → Bool
is_digit c = leb b'0' c && leb c b'9'

unfoldable pub is_alpha : ℕ → Bool
is_alpha c = leb b'A' c && leb c b'Z' || leb b'a' c && leb c b'z'

unfoldable pub is_alnum : ℕ → Bool
unfolding is_digit is_alpha
is_alnum c = is_digit c || is_alpha c

-- The text after a literal prefix, if it begins so.
unfoldable pub after : String → String → Option String
after [] s = some s
after (p ∷ ps) [] = none
after (p ∷ ps) (c ∷ s) = let rest = after ps s in if nat_eq (code p) (code c) then rest else none

-- `!s` is `""`; a text is truthy when it is not empty.
abbrev pub is_blank : String → Bool
is_blank [] = true
is_blank (_ ∷ _) = false

-- ASCII `toLowerCase` of one character code.
unfoldable pub lower_code : ℕ → ℕ
lower_code c = if leb b'A' c && leb c b'Z' then c + 32 else c

-- `list.includes(s)`
unfoldable pub includes : String → List String → Bool
includes s [] = false
includes s (t ∷ ts) = t == s || includes s ts

-- `[...new Set(list)]`: the first of each, in order.
dedupe_from : List String → List String → List String
unfolding includes
dedupe_from seen [] = []
dedupe_from seen (s ∷ ss) =
    let kept = dedupe_from (s ∷ seen) ss in
    let skipped = dedupe_from seen ss in if includes s seen then skipped else s ∷ kept

unfoldable pub dedupe : List String → List String
unfolding dedupe_from
dedupe ss = dedupe_from [] ss

pub dedupe-eq-nil : (ss : List String) → dedupe ss ≡ [] → ss ≡ []
unfolding dedupe
dedupe-eq-nil [] h = refl
dedupe-eq-nil (s ∷ ss) h = cc

text_tests :
    (show 0 ≡ "0")
    × (show 9070 ≡ "9070")
    × (dedupe ("a" ∷ "b" ∷ "a" ∷ []) ≡ "a" ∷ "b" ∷ [])
    × (join ", " ("x" ∷ "y" ∷ []) ≡ "x, y")
unfolding show dedupe join
text_tests = (refl, refl, refl, refl)
