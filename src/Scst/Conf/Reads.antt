-- ===== src/Scst/Conf/Reads.antt =====
-- The loop of parseScstConf (server/utils/scst-conf-parser.ts) over lines that
-- serializeScstConfig (server/utils/scst-config-writer.ts) writes, piece by piece.
use Prim.Native.Char.{Char, code}
use Prim.Native.String
use Prim.Native.String.{[], ◌∷◌}
use mathlib.Core.List.{append-nil, append_assoc}
use text.Mathlib.TextLemmas.{cons-append, nil-append}
use esos_webui.Common.{
  All, Bool, Bool-cases, List, Option, String, [], after, all, all-append, all_chars, and_split, ap,
  arith, begins_solid, ends_solid, false, inl, inr, is_space, join, not, refl, show, suc, trim,
  trim-solid, trim_tab, true, zero, ℕ, ◌&&◌, ◌++◌, ◌==◌, ◌∙◌, ◌∷◌, ◌≡◌,
}
use esos_webui.Scst.Types.{ScstConfig}
use esos_webui.Scst.Conf.Words.{is_line_end}
use esos_webui.Scst.Conf.Edits.{Context, Reading, push}
use esos_webui.Scst.Conf.Parser.{opens_block, in_block, enter, on_line, read_lines}
use esos_webui.Scst.Conf.Printer.{indent, print, print_each}
use esos_webui.Scst.Conf.Phrases.{
  solid, is_word, phrase, space-append, solid-begins_solid, solid-ends_solid, is_word-split,
}
use esos_webui.Scst.Conf.Lines.{
  is_value, is_value-split, begins_solid-phrase, ends_solid-phrase, is_key, is_key-split,
  on_line-phrase,
}

unfoldable pub one_line : String → Bool
unfolding all_chars
one_line s = all_chars (λ n. not (n == 10)) s

abbrev pub at : ScstConfig → List Context → Reading
at c stack = record { config = c; stack = stack }

-- Each text is one line, and the loop over them leads from one state to the other.
pub record Reads (lines : List String) (from to : Reading) : Type 0 where
  pub whole : all one_line lines ≡ true
  pub reached : read_lines lines from ≡ to

pub Reads-nil : {r : Reading} → Reads [] r r
unfolding read_lines all
Reads-nil = record { whole = refl; reached = refl }

read_lines-append :
    (xs ys : List String) (r : Reading) → read_lines (xs ++ ys) r ≡ read_lines ys (read_lines xs r)
unfolding read_lines
read_lines-append [] ys r = refl
read_lines-append (x ∷ xs) ys r = read_lines-append xs ys (on_line (trim x) r)

pub Reads-append :
    {xs ys : List String} {r s t : Reading} → Reads xs r s → Reads ys s t → Reads (xs ++ ys) r t
Reads-append {xs} {ys} {r} hx hy = record {
  whole = rw (all-append one_line xs ys, hx.whole) hy.whole;
  reached = rw (read_lines-append xs ys r, hx.reached) hy.reached;
}

-- Items that are each read by adding them to a list are read as a list.
pub Reads-each {ℓ κ} :
    {A : Type ℓ} (P : A → Type κ) (show : A → List String) (after : List A → Reading)
    → ((xs : List A) (x : A) → P x → Reads (show x) (after xs) (after (push x xs)))
    → (xs ys : List A) → All P ys
    → Reads (print_each show ys) (after xs) (after (xs ++ ys))
unfolding print_each
Reads-each P show after each xs [] h = rw append-nil Reads-nil
Reads-each P show after each xs (y ∷ ys) (p, h) =
    let later = Reads-each P show after each (push y xs) ys h in
    Reads-append (each xs y p) (rw (append_assoc xs (y ∷ []) ys) at later)

-- The text after a line's key: it begins and ends with a visible character, and has one line.
unfoldable pub is_rest : String → Bool
unfolding begins_solid ends_solid one_line
is_rest r = begins_solid r && (ends_solid r && one_line r)

pub is_rest-split :
    (r : String)
    → is_rest r ≡ true
    → (begins_solid r ≡ true) × (ends_solid r ≡ true) × (one_line r ≡ true)
unfolding is_rest
is_rest-split r h = let (b, h') = and_split _ _ h in let (e, l) = and_split _ _ h' in (b, e, l)

is_rest-join :
    (r : String)
    → begins_solid r ≡ true
    → ends_solid r ≡ true
    → one_line r ≡ true
    → is_rest r ≡ true
unfolding is_rest
is_rest-join r b e l = rw (b, e) l

newline-space : (c : Char) → is_space c ≡ false → (not (code c == 10)) ≡ true
unfolding is_space
newline-space c h = ground arith

one_line-append :
    (s t : String) → one_line s ≡ true → one_line t ≡ true → one_line (String.◌++◌ s t) ≡ true
unfolding one_line
one_line-append [] t h k = rw nil-append k
one_line-append (c ∷ s) t h k =
    let (p, q) = and_split (not (code c == 10)) (one_line s) h in
    rw (cons-append, p) (one_line-append s t q k)

one_line-solid : (s : String) → solid s ≡ true → one_line s ≡ true
unfolding one_line solid
one_line-solid [] h = refl
one_line-solid (c ∷ s) h = elim (Bool-cases (is_space c)) [
  | inl e ↦ absurd (ground arith)
  | inr e ↦ rw (newline-space c e) (one_line-solid s (rw e at h))
]

one_line-value : (s : String) → all_chars (λ n. not (is_line_end n)) s ≡ true → one_line s ≡ true
unfolding one_line is_line_end
one_line-value [] h = refl
one_line-value (c ∷ s) h =
    let (p, q) =
      and_split (not (is_line_end (code c))) (all_chars (λ n. not (is_line_end n)) s) h in
    let first : not (code c == 10) ≡ true = ground arith in rw first (one_line-value s q)

pub is_rest-word : (w : String) → is_word w ≡ true → is_rest w ≡ true
is_rest-word w h =
    is_rest-join w (solid-begins_solid w h) (solid-ends_solid w h)
      (one_line-solid w (is_word-split w h).1)

pub is_rest-phrase :
    (k r : String) → is_word k ≡ true → is_rest r ≡ true → is_rest (phrase k r) ≡ true
unfolding one_line
is_rest-phrase k r hk hr =
    let (b, e, l) = is_rest-split r hr in
    is_rest-join (phrase k r) (begins_solid-phrase k r hk) (ends_solid-phrase k r e)
      (one_line-append k (" " ∷ r) (one_line-solid k (is_word-split k hk).1) l)

pub is_rest-value : (v : String) → is_value v ≡ true → is_rest v ≡ true
is_rest-value v h = let (b, e, l, u) = is_value-split v h in is_rest-join v b e (one_line-value v l)

-- A printed line of several words is a key and the rest.
pub print-phrase :
    (depth : ℕ) (k w : String) (ws : List String)
    → print depth (k ∷ w ∷ ws) ≡ indent depth (phrase k (join " " (w ∷ ws))) ∷ []
unfolding print join
print-phrase depth k w ws =
    ap (λ s. indent depth (String.◌++◌ k s) ∷ []) (space-append (join " " (w ∷ ws)))

trim-indent : (depth : ℕ) (s : String) → trim (indent depth s) ≡ trim s
unfolding indent
trim-indent zero s = refl
trim-indent (suc n) s = trim_tab (indent n s) ∙ trim-indent n s

one_line-indent : (depth : ℕ) (s : String) → one_line s ≡ true → one_line (indent depth s) ≡ true
unfolding indent one_line
one_line-indent zero s h = h
one_line-indent (suc n) s h = one_line-indent n s h

Reads-one :
    (depth : ℕ) (s : String) {r : Reading}
    → is_rest s ≡ true
    → Reads (indent depth s ∷ []) r (on_line s r)
unfolding read_lines all
Reads-one depth s {r} h =
    let (b, e, l) = is_rest-split s h in
    record {
      whole = rw (one_line-indent depth s l) refl;
      reached = ap (λ t. on_line t r) (trim-indent depth s ∙ trim-solid s b e);
    }

-- A line's effect, given by the block that it stands in.
pub Reads-phrase :
    (depth : ℕ) (k rest : String) {c changed : ScstConfig} {begun : Option Context}
    {stack : List Context}
    → is_key k ≡ true
    → is_rest rest ≡ true
    → in_block stack (phrase k rest) c ≡ (changed, begun)
    → Reads
        (indent depth (phrase k rest) ∷ [])
        (at c stack)
        (at changed (enter (opens_block rest) begun stack))
Reads-phrase depth k rest {c} {stack = stack} hk hr effect =
    let line = is_rest-phrase k rest (is_key-split k hk).0 hr in
    let read : Reads (indent depth (phrase k rest) ∷ []) (at c stack)
        (on_line (phrase k rest) (at c stack)) =
      Reads-one depth (phrase k rest) line in
    let (b, _, _) = is_rest-split rest hr in
    record {
      whole = read.whole;
      reached =
          read.reached
          ∙ on_line-phrase k rest (at c stack) hk b
          ∙ ap (λ m. at m.0 (enter (opens_block rest) m.1 stack)) effect;
    }

pub Reads-close :
    (depth : ℕ) {c : ScstConfig} {block : Context} {stack : List Context}
    → Reads (print depth ("}" ∷ [])) (at c (block ∷ stack)) (at c stack)
unfolding print join on_line is_rest
Reads-close depth = Reads-one depth "}" refl

pub Reads-blank : {r : Reading} → Reads (print 0 ("" ∷ [])) r r
unfolding print join read_lines on_line one_line all trim indent
Reads-blank = record { whole = refl; reached = refl }

-- A line of one word.
pub Reads-alone :
    (depth : ℕ) (s : String) {c changed : ScstConfig} {stack : List Context}
    → is_rest s ≡ true
    → on_line s (at c stack) ≡ at changed stack
    → Reads (print depth (s ∷ [])) (at c stack) (at changed stack)
unfolding print join
Reads-alone depth s {c} {changed} {stack} h effect =
    let read : Reads (indent depth s ∷ []) (at c stack) (on_line s (at c stack)) =
      Reads-one depth s h in
    rw effect at read
