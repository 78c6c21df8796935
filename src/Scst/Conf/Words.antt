-- ===== src/Scst/Conf/Words.antt =====
-- The regular expressions of server/utils/scst-conf-parser.ts. Each is a keyword or `(\S+)`, then
-- `\s+`, then arguments. `\S+` before `\s` or `$` takes the whole run of such characters, so a
-- keyword at the start of a line is compared with the first run.
use Prim.Native.Char.{code}
use Prim.Native.String.{[], ◌∷◌}
use esos_webui.Common.{
  Bool, Option, String, [], all_chars, false, if◌then◌else◌, is_blank, is_digit, is_space, none,
  not, refl, some, str_eq, trim, trim_start, ℕ, ◌&&◌, ◌*◌, ◌+◌, ◌-◌, ◌==◌, ◌||◌, ◌∷◌, ◌≡◌,
}

-- `\S*` at the beginning, and the text after it.
unfoldable pub word : String → String
word [] = []
word (c ∷ s) = let rest = word s in if is_space c then [] else c ∷ rest

unfoldable pub after_word : String → String
after_word [] = []
after_word (c ∷ s) = let rest = after_word s in if is_space c then c ∷ s else rest

-- The text begins with white space.
unfoldable pub begins_space : String → Bool
begins_space [] = false
begins_space (c ∷ s) = is_space c

-- `^KEYWORD\s+`: what follows.
unfoldable pub argument : String → String → Option String
unfolding word after_word begins_space trim_start
argument keyword line =
    if str_eq (word line) keyword && begins_space (after_word line)
    then some (trim_start (after_word line))
    else none

-- `\s*\{?$`
unfoldable pub is_opening : String → Bool
unfolding trim_start
is_opening s = let rest = trim_start s in str_eq rest "" || str_eq rest "{"

-- `(\S+)\s*\{?$`
unfoldable pub name_of : String → Option String
unfolding word after_word is_opening
name_of s = if not (is_blank (word s)) && is_opening (after_word s) then some (word s) else none

-- `(\S+)$`
unfoldable pub sole_word : String → Option String
unfolding word after_word
sole_word s = if not (is_blank (word s)) && is_blank (after_word s) then some s else none

-- `\d*` at the beginning as a number read so far, and the text after it.
unfoldable pub digits_value : ℕ → String → ℕ
digits_value n [] = n
digits_value n (c ∷ s) =
    let rest = digits_value (n * 10 + (code c - b'0')) s in if is_digit (code c) then rest else n

unfoldable pub after_digits : String → String
after_digits [] = []
after_digits (c ∷ s) = let rest = after_digits s in if is_digit (code c) then rest else c ∷ s

unfoldable pub begins_digit : String → Bool
begins_digit [] = false
begins_digit (c ∷ s) = is_digit (code c)

-- `(\d+)$`
unfoldable pub sole_number : String → Option ℕ
unfolding digits_value after_digits begins_digit
sole_number s =
    if begins_digit s && is_blank (after_digits s) then some (digits_value 0 s) else none

-- `(\d)$`, compared with '1'
unfoldable pub flag_value : String → Option Bool
unfolding begins_digit
flag_value [] = none
flag_value (c ∷ []) = if begins_digit (c ∷ []) then some (str_eq (c ∷ []) "1") else none
flag_value (c ∷ d ∷ s) = none

-- `(\d+)\s+(\S+)\s*\{?$`
unfoldable pub lun_of : String → Option (ℕ × String)
unfolding digits_value after_digits begins_digit begins_space
lun_of s =
    if begins_digit s && begins_space (after_digits s)
    then elim (name_of (trim_start (after_digits s))) [
      | none ↦ none
      | some name ↦ some (digits_value 0 s, name)
    ]
    else none

-- The characters that `.` does not match.
unfoldable pub is_line_end : ℕ → Bool
is_line_end n = n == 10 || n == 13 || n == 8232 || n == 8233

unfoldable pub ends_quote : String → Bool
ends_quote [] = false
ends_quote (c ∷ []) = code c == b'"'
ends_quote (c ∷ d ∷ s) = ends_quote (d ∷ s)

unfoldable pub drop_last : String → String
drop_last [] = []
drop_last (c ∷ []) = []
drop_last (c ∷ d ∷ s) = c ∷ drop_last (d ∷ s)

-- `value.replace(/^"(.*)"$/, '$1')`
unfoldable pub unquote : String → String
unfolding ends_quote drop_last
unquote [] = []
unquote (c ∷ s) = if code c == b'"' && ends_quote s then drop_last s else c ∷ s

-- `^(\S+)\s+(.+)$`, with the value trimmed and unquoted
unfoldable pub attribute : String → Option (String × String)
unfolding word after_word begins_space trim_start all_chars is_line_end trim unquote
attribute line =
    let value = trim_start (after_word line) in
    if not (is_blank (word line))
      && begins_space (after_word line)
      && not (is_blank value)
      && all_chars (λ n. not (is_line_end n)) value
    then some (word line, unquote (trim value))
    else none

words_tests :
    (argument "GROUP" "GROUPS x" ≡ none)
    × (argument "LUN" "LUN 3 disk {" ≡ some "3 disk {")
    × (lun_of "3 disk {" ≡ some (3, "disk"))
    × (name_of "disk more" ≡ none)
    × (attribute "t10_dev_id \"a b\"" ≡ some ("t10_dev_id", "a b"))
    × (flag_value "0" ≡ some false)
unfolding argument lun_of name_of attribute flag_value is_space is_digit trim_start
words_tests = (refl, refl, refl, refl, refl, refl)
