-- ===== src/Scst/Conf/RoundTrip/Attrs.antt =====
-- The lemmas that the blocks of the round trip share: changes of the last item of a list, names in
-- the first line of a block, and attributes.
use Prim.Native.String
use Prim.Native.String.{[], ◌∷◌}
use mathlib.Core.List.{append-nil, append_assoc}
use text.Mathlib.TextEquality.{eq_iff}
use esos_webui.Common.{
  Bool-cases, List, String, [], after, and_split, ap, arith, begins_solid, false, if◌then◌else◌,
  includes, inl, inr, insert, is_blank, is_space, join, none, not, or_false, refl, some, str_eq,
  true, ℕ, ◌++◌, ◌∷◌, ◌≡◌,
}
use esos_webui.Scst.Types.{ScstConfig}
use esos_webui.Scst.Conf.Words.{argument, begins_digit}
use esos_webui.Scst.Conf.Edits.{Context, Reading, push, edit_last}
use esos_webui.Scst.Conf.Parser.{opens_block, block, in_block}
use esos_webui.Scst.Conf.Printer.{print, print_each, print_attr}
use esos_webui.Scst.Conf.Phrases.{is_word, phrase, space-append, argument-phrase}
use esos_webui.Scst.Conf.Lines.{
  is_value, name_of-open, opens_block-phrase, begins_solid-phrase, is_key,
}
use esos_webui.Scst.Conf.Reads.{
  Reads, at, Reads-nil, Reads-append, is_rest, is_rest-phrase, print-phrase, Reads-phrase,
}
use esos_webui.Scst.Conf.Printable.{printable_attrs, has_key}

pub edit_last-push {ℓ} :
    {A : Type ℓ} (f : A → A) (x : A) (xs : List A) → edit_last f (push x xs) ≡ push (f x) xs
unfolding edit_last
edit_last-push f x [] = refl
edit_last-push f x (y ∷ []) = refl
edit_last-push f x (y ∷ z ∷ xs) = ap (λ rest. y ∷ rest) (edit_last-push f x (z ∷ xs))

module _ (keyword name : String) (n : is_word name ≡ true) where
  -- `KEYWORD name {`
  opening_rest : is_rest (phrase name "{") ≡ true
  unfolding is_rest
  opening_rest = is_rest-phrase name "{" n refl

  pub opens_block-opening : opens_block (phrase name "{") ≡ true
  unfolding begins_solid is_space opens_block
  opens_block-opening = opens_block-phrase name "{" refl

  pub argument-opening :
      (k : is_word keyword ≡ true) (asked : String)
      → argument asked (phrase keyword (phrase name "{"))
        ≡ (if str_eq keyword asked then some (phrase name "{") else none)
  argument-opening k asked =
      argument-phrase keyword (phrase name "{") k (begins_solid-phrase name "{" n) asked

  pub block-opening :
      (k : is_word keyword ≡ true) (asked : String)
      → block asked (phrase keyword (phrase name "{"))
        ≡ (if str_eq keyword asked then some name else none)
  unfolding block
  block-opening k asked = elim (Bool-cases (str_eq keyword asked)) [
    | inl e ↦ rw (block, argument-opening k asked, e) (name_of-open name n)
    | inr e ↦ rw (block, argument-opening k asked, e) refl
  ]

  -- The first line of a block, which the reader in `stack` takes as `effect` says.
  pub Reads-open :
      (depth : ℕ) {c changed : ScstConfig} {begun : Context} {stack : List Context}
      → is_key keyword ≡ true
      → in_block stack (phrase keyword (phrase name "{")) c ≡ (changed, some begun)
      → Reads (print depth (keyword ∷ name ∷ "{" ∷ [])) (at c stack) (at changed (begun ∷ stack))
  unfolding join
  Reads-open depth {c} {changed} {begun} {stack} k effect =
      let line = Reads-phrase depth keyword (phrase name "{") k opening_rest effect in
      let same : join " " (name ∷ "{" ∷ []) ≡ phrase name "{" =
        ap (String.◌++◌ name) (space-append "{") in
      rw (print-phrase, same) (rw opens_block-opening at line)

-- A line of a key and one text.
pub Reads-pair :
    (depth : ℕ) (key rest : String) {c changed : ScstConfig} {stack : List Context}
    → is_key key ≡ true
    → is_rest rest ≡ true
    → in_block stack (phrase key rest) c ≡ (changed, none)
    → Reads (print depth (key ∷ rest ∷ [])) (at c stack) (at changed stack)
unfolding join
Reads-pair depth key rest {c} {changed} {stack} k r effect =
    let line = Reads-phrase depth key rest k r effect in
    rw print-phrase
      (elim (Bool-cases (opens_block rest)) [ inl e ↦ rw e at line | inr e ↦ rw e at line ])

insert-new :
    (k v : String) (attrs : List (String × String))
    → has_key k attrs ≡ false
    → insert k v attrs ≡ attrs ++ (k, v) ∷ []
unfolding insert has_key
insert-new k v [] h = refl
insert-new k v ((j, w) ∷ attrs) h =
    let (here, later) = or_false (str_eq j k) (has_key k attrs) h in
    rw here (ap (λ rest. (j, w) ∷ rest) (insert-new k v attrs later))

-- Attributes that the reader adds one by one, in a block that keeps them as they come.
pub Reads-attrs :
    (reserved : List String) (after : List (String × String) → Reading)
    → ((k v : String) (attrs : List (String × String))
        → is_key k ≡ true
        → is_value v ≡ true
        → includes k reserved ≡ false
        → Reads (print_attr (k, v)) (after attrs) (after (insert k v attrs)))
    → (written attrs : List (String × String)) → printable_attrs reserved written attrs ≡ true
    → Reads (print_each print_attr attrs) (after written) (after (written ++ attrs))
unfolding printable_attrs print_each
Reads-attrs reserved after each written [] h = rw append-nil Reads-nil
Reads-attrs reserved after each written ((k, v) ∷ attrs) h =
    let (hk, h1) = and_split (is_key k) _ h in
    let (hv, h2) = and_split (is_value v) _ h1 in
    let (free, h3) = and_split (not (includes k reserved)) _ h2 in
    let (_, h4) = and_split (not (begins_digit k)) _ h3 in
    let (fresh, h5) = and_split (not (has_key k written)) _ h4 in
    let first = each k v written hk hv (ground arith) in
    let later = Reads-attrs reserved after each (push (k, v) written) attrs h5 in
    Reads-append (rw (insert-new k v written (ground arith)) at first)
      (rw (append_assoc written ((k, v) ∷ []) attrs) at later)

pub str_eq-swap : (a b : String) → str_eq a b ≡ false → str_eq b a ≡ false
str_eq-swap a b h = ground (arith, eq_iff a b, eq_iff b a, h)

pub blank→eq : (s : String) → is_blank s ≡ true → s ≡ ""
blank→eq [] h = refl
blank→eq (c ∷ s) h = absurd (ground arith)
