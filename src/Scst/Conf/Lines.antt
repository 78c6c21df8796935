-- ===== src/Scst/Conf/Lines.antt =====
-- Whole lines `key rest`, read by the patterns of server/utils/scst-conf-parser.ts and by one round
-- of its loop.
use Prim.Native.Char.{Char}
use Prim.Native.String
use Prim.Native.String.{[], ◌∷◌}
use text.Mathlib.TextLemmas.{cons-append, nil-append}
use text.Mathlib.TextEquality.{eq_iff}
use esos_webui.Common.{
  Bool, Bool-cases, String, [], all_chars, and_split, ap, arith, begins_solid, ends_solid,
  ends_solid-append, false, inl, inr, is_blank, is_space, not, refl, some, str_eq, sym, trim-solid,
  trim_start, true, ◌&&◌, ◌∙◌, ◌∷◌, ◌≡◌,
}
use esos_webui.Scst.Conf.Words.{
  after_word, begins_space, is_opening, name_of, sole_word, is_line_end, unquote, attribute,
}
use esos_webui.Scst.Conf.Edits.{Reading}
use esos_webui.Scst.Conf.Parser.{opens_block, in_block, enter, is_comment, on_line}
use esos_webui.Scst.Conf.Phrases.{
  is_word, phrase, solid-begins_solid, word_self, after_word_self, is_word-split, trim_start-solid,
  begins_solid-blank, word-phrase, after_word-phrase,
}

-- A value that the reader gives back as it stands: trimmed, on one line, not in quotes.
unfoldable pub is_value : String → Bool
unfolding begins_solid ends_solid all_chars is_line_end unquote
is_value v =
    begins_solid v
    && (ends_solid v && (all_chars (λ n. not (is_line_end n)) v && str_eq (unquote v) v))

pub is_value-split :
    (v : String)
    → is_value v ≡ true
    → (begins_solid v ≡ true)
      × (ends_solid v ≡ true)
      × (all_chars (λ n. not (is_line_end n)) v ≡ true)
      × (unquote v ≡ v)
unfolding is_value
is_value-split v h =
    let (b, h1) = and_split _ _ h in
    let (e, h2) = and_split _ _ h1 in
    let (l, u) = and_split _ _ h2 in (b, e, l, (eq_iff (unquote v) v).0 u)

pub name_of-word : (n : String) → is_word n ≡ true → name_of n ≡ some n
unfolding name_of is_opening trim_start
name_of-word n h = let (b, s) = is_word-split n h in rw (word_self n s, after_word_self n s, b) refl

pub name_of-open : (n : String) → is_word n ≡ true → name_of (phrase n "{") ≡ some n
unfolding name_of is_opening trim_start is_space begins_solid
name_of-open n h =
    let (b, s) = is_word-split n h in
    rw (word-phrase n "{" h refl, after_word-phrase n "{" h refl, b) refl

pub sole_word-word : (n : String) → is_word n ≡ true → sole_word n ≡ some n
unfolding sole_word
sole_word-word n h =
    let (b, s) = is_word-split n h in rw (word_self n s, after_word_self n s, b) refl

pub attribute-phrase :
    (k v : String) → is_word k ≡ true → is_value v ≡ true → attribute (phrase k v) ≡ some (k, v)
unfolding attribute begins_space is_space
attribute-phrase k v hk hv =
    let (b, e, l, u) = is_value-split v hv in
    rw (word-phrase k v hk b, after_word-phrase k v hk b, trim_start-solid v b, trim-solid v b e)
      (rw ((is_word-split k hk).0, begins_solid-blank v b, l, u) refl)

pub opens_block-append :
    (k : String) (c : Char) (s : String) → opens_block (String.◌++◌ k (c ∷ s)) ≡ opens_block (c ∷ s)
unfolding opens_block
opens_block-append [] c s = rw nil-append refl
opens_block-append (d ∷ []) c s = rw (cons-append, nil-append) refl
opens_block-append (d ∷ e ∷ k) c s =
    rw (cons-append, cons-append) (rw (cons-append e k (c ∷ s)) at (opens_block-append (e ∷ k) c s))

pub opens_block-phrase :
    (k r : String) → begins_solid r ≡ true → opens_block (phrase k r) ≡ opens_block r
unfolding opens_block begins_solid
opens_block-phrase k [] h = absurd (ground arith)
opens_block-phrase k (c ∷ r) h = opens_block-append k " " (c ∷ r)

begins_solid-append : (k s : String) → begins_solid k ≡ true → begins_solid (String.◌++◌ k s) ≡ true
unfolding begins_solid
begins_solid-append [] s h = absurd (ground arith)
begins_solid-append (c ∷ k) s h = rw cons-append h

pub begins_solid-phrase : (k r : String) → is_word k ≡ true → begins_solid (phrase k r) ≡ true
begins_solid-phrase k r h = begins_solid-append k (" " ∷ r) (solid-begins_solid k h)

pub ends_solid-phrase : (k r : String) → ends_solid r ≡ true → ends_solid (phrase k r) ≡ true
unfolding ends_solid
ends_solid-phrase k [] h = absurd (ground arith)
ends_solid-phrase k (c ∷ r) h = ends_solid-append k (" " ∷ c ∷ r) h

-- A key that does not begin a comment.
unfoldable pub is_key : String → Bool
unfolding is_word
is_key k = is_word k && not (is_comment k)

pub is_key-split : (k : String) → is_key k ≡ true → (is_word k ≡ true) × (is_comment k ≡ false)
unfolding is_key
is_key-split k h = ground arith

is_comment-append :
    (k s : String) → is_blank k ≡ false → is_comment (String.◌++◌ k s) ≡ is_comment k
is_comment-append [] s h = absurd (ground arith)
is_comment-append (c ∷ k) s h = rw cons-append refl

-- A line of two parts is not one of the words that stand alone on a line.
pub phrase-ne :
    (k r t : String)
    → is_word k ≡ true
    → begins_solid r ≡ true
    → after_word t ≡ []
    → str_eq (phrase k r) t ≡ false
phrase-ne k r t hk hr alone = elim (Bool-cases (str_eq (phrase k r) t)) [
  | inl e ↦
      let same = (eq_iff (phrase k r) t).0 e in
      let cut : " " ∷ r ≡ [] = sym (after_word-phrase k r hk hr) ∙ ap after_word same ∙ alone in
      cc cut
  | inr e ↦ e
]

-- The round that reads such a line.
pub on_line-phrase :
    (k r : String) (at : Reading)
    → is_key k ≡ true
    → begins_solid r ≡ true
    → on_line (phrase k r) at ≡ (
        let (changed, begun) = in_block at.stack (phrase k r) at.config in
        record { config = changed; stack = enter (opens_block r) begun at.stack })
unfolding on_line
on_line-phrase k r at hk hr =
    let (w, c) = is_key-split k hk in
    rw
      (
        begins_solid-blank _ (begins_solid-phrase k r w),
        is_comment-append k (" " ∷ r) (is_word-split k w).0,
        c,
        phrase-ne k r "}" w hr refl,
        opens_block-phrase k r hr,
      )
      refl
