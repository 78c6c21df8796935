-- ===== src/Scst/Conf/Phrases.antt =====
-- Texts of the form `key rest`, as the regular expressions of server/utils/scst-conf-parser.ts read
-- them.
use Prim.Native.String
use Prim.Native.String.{[], ◌∷◌}
use text.Mathlib.TextLemmas.{cons-append, nil-append}
use esos_webui.Common.{
  Bool, Bool-cases, String, [], ap, arith, begins_solid, ends_solid, false, if◌then◌else◌, inl, inr,
  is_blank, is_space, none, not, refl, some, str_eq, trim_start, true, ◌&&◌, ◌∙◌, ◌∷◌, ◌≡◌,
}
use esos_webui.Scst.Conf.Words.{word, after_word, begins_space, argument}

-- No white space at all.
unfoldable pub solid : String → Bool
solid [] = true
solid (c ∷ s) = not (is_space c) && solid s

-- What `\S+` matches as a whole.
unfoldable pub is_word : String → Bool
unfolding solid
is_word s = not (is_blank s) && solid s

abbrev pub phrase : String → String → String
phrase key rest = String.◌++◌ key (" " ∷ rest)

pub space-append : (s : String) → String.◌++◌ " " s ≡ " " ∷ s
space-append s = cons-append " " "" s ∙ ap (λ t. " " ∷ t) (nil-append s)

pub solid-begins_solid : (s : String) → is_word s ≡ true → begins_solid s ≡ true
unfolding is_word begins_solid
solid-begins_solid [] h = absurd (ground arith)
solid-begins_solid (c ∷ s) h = ground arith

pub solid-ends_solid : (s : String) → is_word s ≡ true → ends_solid s ≡ true
unfolding is_word ends_solid
solid-ends_solid [] h = absurd (ground arith)
solid-ends_solid (c ∷ []) h = ground arith
solid-ends_solid (c ∷ d ∷ s) h = solid-ends_solid (d ∷ s) (ground arith)

pub word-append :
    (k s : String) → solid k ≡ true → begins_space s ≡ true → word (String.◌++◌ k s) ≡ k
unfolding word solid begins_space
word-append [] [] h b = absurd (ground arith)
word-append [] (c ∷ s) h b = rw nil-append (rw b refl)
word-append (c ∷ k) s h b = rw cons-append (ground (arith, word-append k s))

pub after_word-append :
    (k s : String) → solid k ≡ true → begins_space s ≡ true → after_word (String.◌++◌ k s) ≡ s
unfolding after_word solid begins_space
after_word-append [] [] h b = absurd (ground arith)
after_word-append [] (c ∷ s) h b = rw nil-append (rw b refl)
after_word-append (c ∷ k) s h b = rw cons-append (ground (arith, after_word-append k s))

pub word_self : (k : String) → solid k ≡ true → word k ≡ k
unfolding word solid
word_self [] h = refl
word_self (c ∷ k) h = ground (arith, word_self k)

pub after_word_self : (k : String) → solid k ≡ true → after_word k ≡ []
unfolding after_word solid
after_word_self [] h = refl
after_word_self (c ∷ k) h = ground (arith, after_word_self k)

pub is_word-split : (k : String) → is_word k ≡ true → (is_blank k ≡ false) × (solid k ≡ true)
unfolding is_word
is_word-split k h = ground arith

pub trim_start-solid : (s : String) → begins_solid s ≡ true → trim_start s ≡ s
unfolding trim_start begins_solid
trim_start-solid [] h = refl
trim_start-solid (c ∷ s) h = ground arith

pub begins_solid-blank : (s : String) → begins_solid s ≡ true → is_blank s ≡ false
unfolding begins_solid
begins_solid-blank [] h = absurd (ground arith)
begins_solid-blank (c ∷ s) h = refl

module _ (key rest : String) (k : is_word key ≡ true) (r : begins_solid rest ≡ true) where
  pub word-phrase : word (phrase key rest) ≡ key
  unfolding begins_space is_space
  word-phrase = word-append key (" " ∷ rest) (is_word-split key k).1 refl

  pub after_word-phrase : after_word (phrase key rest) ≡ " " ∷ rest
  unfolding begins_space is_space
  after_word-phrase = after_word-append key (" " ∷ rest) (is_word-split key k).1 refl

  rest-phrase : trim_start (after_word (phrase key rest)) ≡ rest
  unfolding trim_start is_space
  rest-phrase = rw after_word-phrase (trim_start-solid rest r)

  pub argument-phrase :
      (keyword : String)
      → argument keyword (phrase key rest) ≡ (if str_eq key keyword then some rest else none)
  unfolding argument begins_space is_space
  argument-phrase keyword =
      rw (word-phrase, rest-phrase, after_word-phrase)
        (elim (Bool-cases (str_eq key keyword)) [ inl e ↦ rw e refl | inr e ↦ rw e refl ])
