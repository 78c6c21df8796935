-- ===== src/Scst/Names.antt =====
-- `validateTargetName` of server/utils/scst-config-writer.ts and `validateGroupName` of
-- utils/scst-initiator-validation.ts, with the regular expressions `IQN_RE`, `WWN_RE` and
-- `GROUP_NAME_RE`.
use Prim.Native.Char.{code}
use Prim.Native.String.{[], ◌∷◌}
use esos_webui.Common.{
  Bool, Option, String, [], after, all_chars, false, if◌then◌else◌, is_alnum, is_blank, is_digit,
  leb, none, not, refl, some, str_eq, suc, template, trim, true, zero, ℕ, ◌&&◌, ◌==◌, ◌||◌, ◌∷◌,
  ◌≡◌,
}

-- `[class]{n}` at the beginning: the text after it.
unfoldable pub take_class : ℕ → (ℕ → Bool) → String → Option String
take_class zero p s = some s
take_class (suc n) p [] = none
take_class (suc n) p (c ∷ s) = let rest = take_class n p s in if p (code c) then rest else none

abbrev pub then_take : (String → Option String) → Option String → Option String
then_take f none = none
then_take f (some s) = f s

-- `\d{4}-\d{2}\.` after `iqn.`
unfoldable pub after_date : String → Option String
unfolding take_class after is_digit
after_date s = then_take (after ".") (
    then_take (take_class 2 is_digit)
      (then_take (after "-") (then_take (take_class 4 is_digit) (after "iqn." s))))

unfoldable pub is_domain_char : ℕ → Bool
unfolding is_alnum
is_domain_char c = is_alnum c || c == b'.' || c == b'-'

unfoldable pub is_iqn_char : ℕ → Bool
unfolding is_alnum
is_iqn_char c = is_alnum c || c == b'.' || c == b'_' || c == b':' || c == b'-'

-- `[a-zA-Z0-9.-]+:[a-zA-Z0-9._:-]*$`; the first colon ends the domain, which has none. `seen` says
-- that a character of the domain has been read.
unfoldable pub is_domain_and_id : Bool → String → Bool
unfolding all_chars is_iqn_char is_domain_char
is_domain_and_id seen [] = false
is_domain_and_id seen (c ∷ s) =
    let rest = is_domain_and_id true s in
    if code c == b':' then seen && all_chars is_iqn_char s else is_domain_char (code c) && rest

unfoldable pub is_iqn : String → Bool
unfolding after_date is_domain_and_id
is_iqn s = elim (after_date s) [ none ↦ false | some rest ↦ is_domain_and_id false rest ]

unfoldable pub is_hex : ℕ → Bool
unfolding is_digit
is_hex c = is_digit c || leb b'a' c && leb c b'f' || leb b'A' c && leb c b'F'

-- `(:[0-9a-fA-F]{2}){n}$`
unfoldable pub is_hex_pairs : ℕ → Option String → Bool
unfolding take_class after is_hex
is_hex_pairs n none = false
is_hex_pairs zero (some s) = is_blank s
is_hex_pairs (suc n) (some s) = is_hex_pairs n (then_take (take_class 2 is_hex) (after ":" s))

unfoldable pub is_wwn : String → Bool
unfolding take_class is_hex_pairs is_hex
is_wwn s = is_hex_pairs 7 (take_class 2 is_hex s)

-- The error of `validateTargetName`, if it throws.
unfoldable pub target_name_error : String → String → Option String
unfolding is_iqn is_wwn all_chars is_iqn_char template
target_name_error name driver =
    if str_eq driver "iscsi"
    then (if is_iqn name
        then none
        else some "IQN invalide. Format attendu : iqn.YYYY-MM.reversed-domain:identifier")
    else if str_eq driver "qla2x00t"
    then (if is_wwn name
        then none
        else some "WWN invalide. Format attendu : xx:xx:xx:xx:xx:xx:xx:xx")
    else if not (is_blank name) && all_chars is_iqn_char name
    then none
    else some (template ("Nom de target invalide pour le driver " ∷ driver ∷ []))

unfoldable pub is_group_name_char : ℕ → Bool
unfolding is_alnum
is_group_name_char c = is_alnum c || c == b'_' || c == b'.' || c == b'-'

-- `normalized` of `validateGroupName`, if it is ok.
unfoldable pub validate_group_name : String → Option String
unfolding trim all_chars is_group_name_char
validate_group_name name =
    let trimmed = trim name in
    if not (is_blank trimmed) && all_chars is_group_name_char trimmed then some trimmed else none

names_tests :
    (is_iqn "iqn.2004-01.com.example:disk1" ≡ true)
    × (is_iqn "iqn.2004-01.:disk1" ≡ false)
    × (is_wwn "50:01:43:80:16:77:99:a0" ≡ true)
    × (validate_group_name " hosts " ≡ some "hosts")
    × (validate_group_name "a b" ≡ none)
unfolding is_iqn is_wwn validate_group_name
names_tests = (refl, refl, refl, refl, refl)
