-- ===== src/Scst/File/Words.antt =====
-- The names that validateTargetName, validateGroupName and DEVICE_NAME_RE accept have no white space.
use Prim.Native.Char.{Char, code}
use Prim.Native.String.{[], ◌∷◌}
use esos_webui.Common.{
  Bool, Bool-cases, Option, Option-cases, String, [], after, all_chars, and_split, arith, false,
  inl, inr, is_blank, is_digit, is_space, none, not, refl, some, str_eq, suc, trim, true, zero, ℕ,
  ◌&&◌, ◌==◌, ◌∷◌, ◌≡◌,
}
use esos_webui.Scst.Names.{
  take_class, then_take, after_date, is_domain_char, is_iqn_char, is_domain_and_id, is_iqn, is_hex,
  is_hex_pairs, is_wwn, target_name_error, is_group_name_char, validate_group_name,
}
use esos_webui.Scst.Luns.{is_device_char, is_device_name}
use esos_webui.Scst.Conf.Parser.{opens_block}
use esos_webui.Scst.Conf.Phrases.{solid, is_word}

-- The characters of a class are visible.
abbrev Visible : (ℕ → Bool) → Type 0
Visible p = (c : Char) → p (code c) ≡ true → is_space c ≡ false

iqn_char-Visible : Visible is_iqn_char
unfolding is_iqn_char is_space
iqn_char-Visible c h = ground arith

domain_char-Visible : Visible is_domain_char
unfolding is_domain_char is_space
domain_char-Visible c h = ground arith

hex-Visible : Visible is_hex
unfolding is_hex is_space
hex-Visible c h = ground arith

digit-Visible : Visible is_digit
unfolding is_digit is_space
digit-Visible c h = ground arith

group_name_char-Visible : Visible is_group_name_char
unfolding is_group_name_char is_space
group_name_char-Visible c h = ground arith

device_char-Visible : Visible is_device_char
unfolding is_device_char is_space
device_char-Visible c h = ground arith

all_chars-solid : (p : ℕ → Bool) → Visible p → (s : String) → all_chars p s ≡ true → solid s ≡ true
unfolding all_chars solid
all_chars-solid p v [] h = refl
all_chars-solid p v (c ∷ s) h =
    let (here, later) = and_split (p (code c)) (all_chars p s) h in
    rw (v c here) (all_chars-solid p v s later)

-- A function that reads visible characters at the beginning of a text.
abbrev Keeps : (String → Option String) → Type 0
Keeps f = (s r : String) → f s ≡ some r → solid r ≡ true → solid s ≡ true

take_class-Keeps : (n : ℕ) (p : ℕ → Bool) → Visible p → Keeps (take_class n p)
unfolding take_class solid
take_class-Keeps zero p v s r e h = let same : s ≡ r = cc e in rw same h
take_class-Keeps (suc n) p v [] r e h = absurd (cc e)
take_class-Keeps (suc n) p v (c ∷ s) r e h = elim (Bool-cases (p (code c))) [
  | inl yes_class ↦ rw (v c yes_class) (take_class-Keeps n p v s r (rw yes_class at e) h)
  | inr other ↦ absurd (cc (rw other at e))
]

same_code : (a b : Char) → code a ≡ code b → is_space a ≡ is_space b
unfolding is_space
same_code a b e = rw e refl

after-Keeps : (t : String) → solid t ≡ true → Keeps (after t)
unfolding after solid
after-Keeps [] v s r e h = let same : s ≡ r = cc e in rw same h
after-Keeps (a ∷ t) v [] r e h = absurd (cc e)
after-Keeps (a ∷ t) v (c ∷ s) r e h = elim (Bool-cases (code a == code c)) [
  | inl same ↦
      let (first, later) = and_split (not (is_space a)) (solid t) v in
      let codes : code a ≡ code c = ground arith in
      rw (← same_code a c codes, first) (after-Keeps t later s r (rw same at e) h)
  | inr other ↦ absurd (cc (rw other at e))
]

then_take-Keeps :
    (f g : String → Option String) → Keeps f → Keeps g → Keeps (λ s. then_take f (g s))
then_take-Keeps f g kf kg s r e h = elim (Option-cases (g s)) [
  | inl missing ↦ absurd (cc (rw missing at e))
  | inr (t, found) ↦ kg s t found (kf t r (rw found at e) h)
]

after_date-Keeps : Keeps after_date
unfolding after_date solid is_space
after_date-Keeps = then_take-Keeps (after ".") _ (after-Keeps "." refl) (
    then_take-Keeps (take_class 2 is_digit) _ (take_class-Keeps 2 is_digit digit-Visible) (
      then_take-Keeps (after "-") _ (after-Keeps "-" refl) (
        then_take-Keeps (take_class 4 is_digit) (after "iqn.")
          (take_class-Keeps 4 is_digit digit-Visible) (after-Keeps "iqn." refl))))

colon-Visible : (c : Char) → (code c == b':') ≡ true → is_space c ≡ false
unfolding is_space
colon-Visible c h = ground arith

domain_and_id-solid : (seen : Bool) (s : String) → is_domain_and_id seen s ≡ true → solid s ≡ true
unfolding is_domain_and_id solid
domain_and_id-solid seen [] h = refl
domain_and_id-solid seen (c ∷ s) h = elim (Bool-cases (code c == b':')) [
  | inl colon ↦
      let (_, tail) = and_split seen (all_chars is_iqn_char s) (rw colon at h) in
      rw (colon-Visible c colon) (all_chars-solid is_iqn_char iqn_char-Visible s tail)
  | inr other ↦
      let (here, tail) =
        and_split (is_domain_char (code c)) (is_domain_and_id true s) (rw other at h) in
      rw (domain_char-Visible c here) (domain_and_id-solid true s tail)
]

iqn-solid : (s : String) → is_iqn s ≡ true → solid s ≡ true
unfolding is_iqn
iqn-solid s h = elim (Option-cases (after_date s)) [
  | inl missing ↦ absurd (cc (rw (is_iqn, missing) at h))
  | inr (rest, found) ↦
      after_date-Keeps s rest found (domain_and_id-solid false rest (rw (is_iqn, found) at h))
]

hex_pairs-solid :
    (n : ℕ) (o : Option String)
    → is_hex_pairs n o ≡ true
    → (r : String) × (o ≡ some r) × (solid r ≡ true)
unfolding is_hex_pairs solid is_space
hex_pairs-solid zero none h = absurd (cc h)
hex_pairs-solid (suc n) none h = absurd (cc h)
hex_pairs-solid zero (some []) h = ("", refl, refl)
hex_pairs-solid zero (some (c ∷ s)) h = absurd (cc h)
hex_pairs-solid (suc n) (some s) h =
    let (r, found, visible) = hex_pairs-solid n (then_take (take_class 2 is_hex) (after ":" s)) h in
    (
      s,
      refl,
      then_take-Keeps (take_class 2 is_hex) (after ":") (take_class-Keeps 2 is_hex hex-Visible)
          (after-Keeps ":" refl) s r found visible,
    )

wwn-solid : (s : String) → is_wwn s ≡ true → solid s ≡ true
unfolding is_wwn
wwn-solid s h =
    let (r, found, visible) = hex_pairs-solid 7 (take_class 2 is_hex s) h in
    take_class-Keeps 2 is_hex hex-Visible s r found visible

solid-word : (s : String) → solid s ≡ true → (s ≡ "" → ⊥) → is_word s ≡ true
unfolding is_word solid
solid-word [] h filled = absurd (filled refl)
solid-word (c ∷ s) h filled = h

iqn-word : (s : String) → is_iqn s ≡ true → is_word s ≡ true
unfolding is_iqn
iqn-word s h = solid-word s (iqn-solid s h) (λ e. let bad : is_iqn "" ≡ true = rw e at h in cc bad)

wwn-word : (s : String) → is_wwn s ≡ true → is_word s ≡ true
unfolding is_wwn
wwn-word s h = solid-word s (wwn-solid s h) (λ e. let bad : is_wwn "" ≡ true = rw e at h in cc bad)

class-word :
    (p : ℕ → Bool)
    → Visible p
    → (s : String) → (not (is_blank s) && all_chars p s) ≡ true
    → is_word s ≡ true
class-word p v s h =
    let (filled, chars) = and_split (not (is_blank s)) (all_chars p s) h in
    solid-word s (all_chars-solid p v s chars)
      (λ e. let bad : not (is_blank "") ≡ true = rw e at filled in cc bad)

pub target_name-word :
    (name driver : String) → target_name_error name driver ≡ none → is_word name ≡ true
unfolding target_name_error
target_name-word name driver h = elim (Bool-cases (str_eq driver "iscsi")) [
  | inl iscsi ↦ elim (Bool-cases (is_iqn name)) [
    | inl ok ↦ iqn-word name ok
    | inr bad ↦ absurd (cc (rw (target_name_error, iscsi, bad) at h))
  ]
  | inr other ↦ elim (Bool-cases (str_eq driver "qla2x00t")) [
    | inl fibre ↦ elim (Bool-cases (is_wwn name)) [
      | inl ok ↦ wwn-word name ok
      | inr bad ↦ absurd (cc (rw (target_name_error, other, fibre, bad) at h))
    ]
    | inr neither ↦ elim (Bool-cases (not (is_blank name) && all_chars is_iqn_char name)) [
      | inl ok ↦ class-word is_iqn_char iqn_char-Visible name ok
      | inr bad ↦ absurd (cc (rw (target_name_error, other, neither, bad) at h))
    ]
  ]
]

pub group_name-word :
    (raw name : String) → validate_group_name raw ≡ some name → is_word name ≡ true
unfolding validate_group_name
group_name-word raw name h =
    elim (Bool-cases (not (is_blank (trim raw)) && all_chars is_group_name_char (trim raw))) [
      | inl ok ↦
          let same : trim raw ≡ name = cc (rw (validate_group_name, ok) at h) in
          rw same at (class-word is_group_name_char group_name_char-Visible (trim raw) ok)
      | inr bad ↦ absurd (cc (rw (validate_group_name, bad) at h))
    ]

pub device_name-word : (name : String) → is_device_name name ≡ true → is_word name ≡ true
unfolding is_device_name
device_name-word name h = class-word is_device_char device_char-Visible name h

all_chars-opens : (s : String) → all_chars is_device_char s ≡ true → opens_block s ≡ false
unfolding all_chars opens_block is_device_char
all_chars-opens [] h = refl
all_chars-opens (c ∷ []) h = ground arith
all_chars-opens (c ∷ d ∷ s) h =
    all_chars-opens (d ∷ s)
      (and_split (is_device_char (code c)) (all_chars is_device_char (d ∷ s)) h).1

pub device_name-opens : (name : String) → is_device_name name ≡ true → opens_block name ≡ false
unfolding is_device_name
device_name-opens name h =
    all_chars-opens name (and_split (not (is_blank name)) (all_chars is_device_char name) h).1
