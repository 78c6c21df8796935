-- ===== src/Access/Prefix.antt =====
-- Texts and their prefixes, as the rules and the middlewares test them (`path.startsWith(p)`).
use Prim.Native.String
use Prim.Native.String.{[], ◌∷◌}
use Prim.Native.Char.{code}
use text.Mathlib.TextEquality.{eq_iff}
use text.Mathlib.TextLemmas.{cons-append, nil-append}
use esos_webui.Access.Middleware.{has_prefix_of}
use esos_webui.Common.{
  Bool, Bool-cases, List, String, [], after, arith, false, includes, inl, inr, is_some, none, not,
  refl, some, str_eq, true, ◌==◌, ◌||◌, ◌∷◌, ◌≡◌,
}

-- Two texts differ at a place that both have.
unfoldable pub clash : String → String → Bool
clash [] u = false
clash (c ∷ t) [] = false
clash (c ∷ t) (d ∷ u) = not (code c == code d) || clash t u

-- No text goes on with both.
pub clash-after :
    (t u s : String) → clash t u ≡ true → is_some (after t s) ≡ true → is_some (after u s) ≡ false
unfolding clash after
clash-after [] u s h k = cc
clash-after (c ∷ t) [] s h k = cc
clash-after (c ∷ t) (d ∷ u) [] h k = refl
clash-after (c ∷ t) (d ∷ u) (e ∷ s) h k = ground (arith, clash-after t u s)

pub after_self : (p s : String) → after p (String.◌++◌ p s) ≡ some s
unfolding after
after_self [] s = rw nil-append refl
after_self (c ∷ p) s = rw cons-append (ground (arith, after_self p s))

pub after-append_none : (p q s : String) → after p s ≡ none → after (String.◌++◌ p q) s ≡ none
unfolding after
after-append_none [] q s h = absurd (cc h)
after-append_none (c ∷ p) q [] h = rw cons-append refl
after-append_none (c ∷ p) q (d ∷ s) h = rw cons-append (ground (arith, after-append_none p q s))

pub after-append_some :
    (p q s t : String) → after p s ≡ some t → after (String.◌++◌ p q) s ≡ after q t
unfolding after
after-append_some [] q s t h = let same : s ≡ t = ground arith in rw (nil-append, same) refl
after-append_some (c ∷ p) q [] t h = absurd (cc h)
after-append_some (c ∷ p) q (d ∷ s) t h = rw cons-append (ground (arith, after-append_some p q s t))

pub has_prefix_of_self :
    (p s : String) (ps : List String)
    → includes p ps ≡ true
    → has_prefix_of ps (String.◌++◌ p s) ≡ true
unfolding has_prefix_of includes
has_prefix_of_self p s [] h = absurd (cc h)
has_prefix_of_self p s (q ∷ qs) h = elim (Bool-cases (str_eq q p)) [
  | inl e ↦ let same = (eq_iff q p).0 e in rw (same, after_self p s) refl
  | inr e ↦ ground (arith, has_prefix_of_self p s qs (ground arith))
]
