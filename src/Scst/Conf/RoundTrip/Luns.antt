-- ===== src/Scst/Conf/RoundTrip/Luns.antt =====
-- A LUN of scst.conf, in a target or in a group, and the lines that are no LUN.
use Prim.Native.String
use Prim.Native.String.{[], ◌∷◌}
use text.Mathlib.TextEquality.{eq_iff}
use esos_webui.Common.{
  Bool, Bool-cases, List, String, [], and_split, ap, arith, begins_solid, false, inl, inr, is_digit,
  is_empty→nil, is_space, join, none, not, refl, show, some, str_eq, sym, trim_start, true, ℕ, ◌+◌,
  ◌∙◌, ◌∷◌, ◌≡◌,
}
use esos_webui.Scst.Types.{Lun, ScstConfig}
use esos_webui.Scst.Conf.Words.{begins_space, argument, name_of, begins_digit, lun_of}
use esos_webui.Scst.Conf.Edits.{Context, push, new_lun}
use esos_webui.Scst.Conf.Parser.{
  opens_block, block, item, enabled_flag, lun_line, group_id_line, in_block,
}
use esos_webui.Scst.Conf.Printer.{print, print_lun}
use esos_webui.Scst.Conf.Phrases.{
  is_word, phrase, space-append, solid-begins_solid, trim_start-solid, argument-phrase,
}
use esos_webui.Scst.Conf.Digits.{
  digits_value-show, after_digits-show, begins_digit-show, is_word-show,
}
use esos_webui.Scst.Conf.Lines.{
  name_of-word, name_of-open, sole_word-word, opens_block-phrase, begins_solid-phrase, is_key,
}
use esos_webui.Scst.Conf.Reads.{
  Reads, at, Reads-append, is_rest, is_rest-word, is_rest-phrase, print-phrase, Reads-phrase,
  Reads-close, is_rest-split,
}
use esos_webui.Scst.Conf.Printable.{printable_lun}
use esos_webui.Scst.Conf.RoundTrip.Attrs.{opens_block-opening, Reads-pair}

module _ (k r : String) (hk : is_word k ≡ true) (hr : begins_solid r ≡ true) where
  -- A pattern that begins with another keyword does not match.
  argument-other : (asked : String) → str_eq k asked ≡ false → argument asked (phrase k r) ≡ none
  argument-other asked ne = rw (argument-phrase k r hk hr asked, ne) refl

  pub block-other : (asked : String) → str_eq k asked ≡ false → block asked (phrase k r) ≡ none
  unfolding block
  block-other asked ne = rw (block, argument-other asked ne) refl

  pub item-other : (asked : String) → str_eq k asked ≡ false → item asked (phrase k r) ≡ none
  unfolding item
  item-other asked ne = rw (item, argument-other asked ne) refl

  pub enabled_flag-other : str_eq k "enabled" ≡ false → enabled_flag (phrase k r) ≡ none
  unfolding enabled_flag
  enabled_flag-other ne = rw (enabled_flag, argument-other "enabled" ne) refl

  pub lun_line-other : str_eq k "LUN" ≡ false → lun_line (phrase k r) ≡ none
  unfolding lun_line
  lun_line-other ne = rw (lun_line, argument-other "LUN" ne) refl

  pub group_id_line-other : str_eq k "group_id" ≡ false → group_id_line (phrase k r) ≡ none
  unfolding group_id_line
  group_id_line-other ne = rw (group_id_line, argument-other "group_id" ne) refl

-- `KEYWORD name`
pub item-phrase :
    (k n : String) → is_word k ≡ true → is_word n ≡ true → item k (phrase k n) ≡ some n
unfolding item
item-phrase k n hk hn =
    rw (item, argument-phrase k n hk (solid-begins_solid n hn) k, (eq_iff k k).1 refl)
      (sole_word-word n hn)

module _ (n : ℕ) (rest : String) (r : is_rest rest ≡ true) where
  lun_rest : is_rest (phrase (show n) rest) ≡ true
  lun_rest = is_rest-phrase (show n) rest (is_word-show n) r

  pub lun_line-phrase :
      (name : String)
      → name_of rest ≡ some name
      → lun_line (phrase "LUN" (phrase (show n) rest)) ≡ some (n, name)
  unfolding lun_line lun_of is_word begins_digit begins_space is_digit is_space
  lun_line-phrase name e =
      let (b, _, _) = is_rest-split (phrase (show n) rest) lun_rest in
      let (visible, _, _) = is_rest-split rest r in
      let space_rest : trim_start (" " ∷ rest) ≡ rest = trim_start-solid rest visible in
      rw (lun_line, argument-phrase "LUN" (phrase (show n) rest) refl b "LUN")
        (rw
          (
            begins_digit-show n (" " ∷ rest),
            after_digits-show n (" " ∷ rest) refl,
            space_rest,
            e,
            digits_value-show n (" " ∷ rest) refl,
          )
          refl)

-- A LUN, in a block whose LUNs are a list: `base` gives the configuration for each list, and the
-- hypotheses are what the reader does in that block at the LUN's first line and in the LUN's block.
module _ (base : List Lun → ScstConfig) (stack : List Context) (inside : Context)
    (begins : (r : String) (n : ℕ) (name : String) (luns : List Lun)
      → is_rest r ≡ true
      → lun_line (phrase "LUN" r) ≡ some (n, name)
      → in_block stack (phrase "LUN" r) (base luns)
        ≡ (base (push (new_lun n name) luns), some inside))
    (marks : (l : Lun) (luns : List Lun)
      → in_block (inside ∷ stack) "read_only 1" (base (push l luns))
        ≡ (base (push (record l { read_only = true }) luns), none)) where
  Reads-lun_line :
      (depth : ℕ) (n : ℕ) (name : String) (luns : List Lun)
      → is_word name ≡ true
      → opens_block name ≡ false
      → Reads
          (print depth ("LUN" ∷ show n ∷ name ∷ []))
          (at (base luns) stack)
          (at (base (push (new_lun n name) luns)) stack)
  unfolding join is_key is_space
  Reads-lun_line depth n name luns w closed =
      let r = is_rest-phrase (show n) name (is_word-show n) (is_rest-word name w) in
      let found = lun_line-phrase n name (is_rest-word name w) name (name_of-word name w) in
      let line =
        Reads-phrase depth "LUN" (phrase (show n) name) refl r (begins _ n name luns r found) in
      let shut = opens_block-phrase (show n) name (solid-begins_solid name w) ∙ closed in
      rw (print-phrase, space-append) (rw shut at line)

  Reads-lun_open :
      (depth : ℕ) (n : ℕ) (name : String) (luns : List Lun)
      → is_word name ≡ true
      → Reads
          (print depth ("LUN" ∷ show n ∷ name ∷ "{" ∷ []))
          (at (base luns) stack)
          (at (base (push (new_lun n name) luns)) (inside ∷ stack))
  unfolding join is_key is_space is_rest
  Reads-lun_open depth n name luns w =
      let opening = phrase name "{" in
      let o : is_rest opening ≡ true = is_rest-phrase name "{" w refl in
      let r = is_rest-phrase (show n) opening (is_word-show n) o in
      let found = lun_line-phrase n opening o name (name_of-open name w) in
      let line =
        Reads-phrase depth "LUN" (phrase (show n) opening) refl r (begins _ n name luns r found) in
      let braced : opens_block (phrase (show n) opening) ≡ true =
        opens_block-phrase (show n) opening (begins_solid-phrase name "{" w)
        ∙ opens_block-opening "LUN" name w in
      rw (print-phrase, space-append (String.◌++◌ name (String.◌++◌ " " "{")), space-append "{")
        (rw braced at line)

  pub Reads-lun :
      (depth : ℕ) (luns : List Lun) (l : Lun)
      → printable_lun l ≡ true
      → Reads (print_lun depth l) (at (base luns) stack) (at (base (push l luns)) stack)
  unfolding print_lun printable_lun is_rest is_key is_space
  Reads-lun depth luns l p =
      let (w, p1) = and_split (is_word l.device) _ p in
      let (closed, bare) = and_split (not (opens_block l.device)) _ p1 in
      let none_left : l.attrs ≡ [] = is_empty→nil l.attrs bare in
      let made = new_lun l.id l.device in
      let bare_lun : Bool → List (String × String) → Lun =
        λ b attrs. record made { read_only = b; attrs = attrs } in
      let whole : (b : Bool) → bare_lun b [] ≡ bare_lun b l.attrs =
        λ b. ap (bare_lun b) (sym none_left) in
      elim (Bool-cases l.read_only) [
        | inl e ↦
            let opened = Reads-lun_open depth l.id l.device luns w in
            let marked : Reads (print (depth + 1) ("read_only" ∷ "1" ∷ []))
                (at (base (push made luns)) (inside ∷ stack))
                (at (base (push (record made { read_only = true }) luns)) (inside ∷ stack)) =
              Reads-pair (depth + 1) "read_only" "1" refl refl (marks made luns) in
            rw e
              (rw (whole true) at (Reads-append opened (Reads-append marked (Reads-close depth))))
        | inr e ↦
            rw e (rw (whole false) at (Reads-lun_line depth l.id l.device luns w (ground arith)))
      ]
