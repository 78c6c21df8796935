-- ===== src/Common/Trim.antt =====
-- `trim` of JavaScript, and `\s` of its regular expressions, which is the same class.
use Prim.Native.Char.{Char, code}
use Prim.Native.String
use Prim.Native.String.{String, [], ◌∷◌}
use mathlib.Core.Path.{◌≡◌, refl}
use mathlib.Core.Bool.{Bool, true, false, not, ◌&&◌, ◌||◌}
use text.Mathlib.TextLemmas.{nil-append, cons-append}
use native.Mathlib.Omega.{arith}
use esos_webui.Common.Tests.{leb, ◌==◌ as nat_eq, if◌then◌else◌}

-- The white space that `trim` removes.
unfoldable pub is_space : Char → Bool
is_space c =
    let n = code c in
    leb 9 n && leb n 13
    || nat_eq n 32
    || nat_eq n 160
    || nat_eq n 5760
    || leb 8192 n && leb n 8202
    || nat_eq n 8232
    || nat_eq n 8233
    || nat_eq n 8239
    || nat_eq n 8287
    || nat_eq n 12288
    || nat_eq n 65279

unfoldable pub trim_start : String → String
unfolding is_space
trim_start [] = []
trim_start (c ∷ s) = let rest = trim_start s in if is_space c then rest else c ∷ s

unfoldable pub all_space : String → Bool
unfolding is_space
all_space [] = true
all_space (c ∷ s) = is_space c && all_space s

unfoldable pub trim_end : String → String
unfolding all_space
trim_end [] = []
trim_end (c ∷ s) = let rest = trim_end s in if all_space (c ∷ s) then [] else c ∷ rest

unfoldable pub trim : String → String
unfolding trim_start trim_end
trim s = trim_end (trim_start s)

-- The text ends in a character that is no white space.
unfoldable pub ends_solid : String → Bool
unfolding is_space
ends_solid [] = false
ends_solid (c ∷ []) = not (is_space c)
ends_solid (c ∷ d ∷ s) = ends_solid (d ∷ s)

-- The text begins with a character that is no white space.
unfoldable pub begins_solid : String → Bool
unfolding is_space
begins_solid [] = false
begins_solid (c ∷ s) = not (is_space c)

pub ends_solid-all_space : (s : String) → ends_solid s ≡ true → all_space s ≡ false
unfolding ends_solid all_space
ends_solid-all_space [] h = absurd (ground arith)
ends_solid-all_space (c ∷ []) h = ground arith
ends_solid-all_space (c ∷ d ∷ s) h = ground (arith, ends_solid-all_space (d ∷ s) h)

pub trim_end-solid : (s : String) → ends_solid s ≡ true → trim_end s ≡ s
unfolding trim_end ends_solid
trim_end-solid [] h = refl
trim_end-solid (c ∷ []) h = ground (arith, ends_solid-all_space (c ∷ []) h)
trim_end-solid (c ∷ d ∷ s) h =
    ground (arith, ends_solid-all_space (c ∷ d ∷ s) h, trim_end-solid (d ∷ s) h)

pub ends_solid-append : (s t : String) → ends_solid t ≡ true → ends_solid (String.◌++◌ s t) ≡ true
unfolding ends_solid
ends_solid-append [] t h = rw (nil-append) h
ends_solid-append (c ∷ []) [] h = absurd (ground arith)
ends_solid-append (c ∷ []) (d ∷ t) h = rw (cons-append, nil-append) h
ends_solid-append (c ∷ d ∷ s) t h =
    rw (cons-append c (d ∷ s) t, cons-append d s t)
      (rw (cons-append d s t) at (ends_solid-append (d ∷ s) t h))

pub trim-solid : (s : String) → begins_solid s ≡ true → ends_solid s ≡ true → trim s ≡ s
unfolding trim trim_start begins_solid
trim-solid [] b e = refl
trim-solid (c ∷ s) b e = ground (arith, trim_end-solid (c ∷ s) e)

-- A leading tab is dropped.
pub trim_tab : (s : String) → trim ("\t" ∷ s) ≡ trim s
unfolding trim trim_start is_space
trim_tab s = refl

trim_tests : (trim "  a b " ≡ "a b") × (trim "\t\tx" ≡ "x")
unfolding trim
trim_tests = (refl, refl)
