-- ===== src/Shell/Posix.antt =====
-- How a POSIX shell splits a simple command into words, on the part of the syntax that quoting is
-- about: blanks, single quotes and the backslash. Every other character with a meaning to the
-- shell (operators, expansions, globs, double quotes, newline) is refused, so a line that is read
-- has no effect but its words.
use Prim.Native.Char.{Char, code}
use Prim.Native.String.{String, [], ◌∷◌}
use esos_webui.Common.{Bool, List, Option, [], if◌then◌else◌, ltb, none, some, ℕ, ◌==◌, ◌||◌, ◌∷◌}

pub data Meaning : Type 0 where
  blank quote backslash special literal : Meaning

-- Characters of the ASCII range that a shell does not take literally, and the control characters.
unfoldable pub is_special : ℕ → Bool
is_special c =
    ltb c 32
    || c == b'!'
    || c == b'"'
    || c == b'#'
    || c == b'$'
    || c == b'%'
    || c == b'&'
    || c == b'('
    || c == b')'
    || c == b'*'
    || c == b';'
    || c == b'<'
    || c == b'='
    || c == b'>'
    || c == b'?'
    || c == b'['
    || c == b']'
    || c == b'^'
    || c == b'`'
    || c == b'{'
    || c == b'|'
    || c == b'}'
    || c == b'~'
    || c == 127

unfoldable pub meaning : ℕ → Meaning
unfolding is_special
meaning c =
    if c == 32 || c == 9
    then blank
    else if c == b'\''
    then quote
    else if c == b'\\'
    then backslash
    else if is_special c
    then special
    else literal

pub data Mode : Type 0 where
  gap bare quoted escaped : Mode

-- The rest of the word that is being read, and the words after it.
abbrev pub Words : Type 0
Words = Option (String × List String)

abbrev pub push : Char → Words → Words
push c none = none
push c (some (w, ws)) = some (c ∷ w, ws)

-- A word begins here.
abbrev pub start : Words → Words
start none = none
start (some (w, ws)) = some ("", w ∷ ws)

unfoldable pub read : Mode → String → Words
read gap [] = some ("", [])
read gap (c ∷ s) = elim (meaning (code c)) [
  | blank ↦ read gap s
  | quote ↦ start (read quoted s)
  | backslash ↦ start (read escaped s)
  | special ↦ none
  | literal ↦ start (push c (read bare s))
]
read bare [] = some ("", [])
read bare (c ∷ s) = elim (meaning (code c)) [
  | blank ↦ read gap s
  | quote ↦ read quoted s
  | backslash ↦ read escaped s
  | special ↦ none
  | literal ↦ push c (read bare s)
]
read quoted [] = none
read quoted (c ∷ s) = elim (meaning (code c)) [ quote ↦ read bare s | _ ↦ push c (read quoted s) ]
read escaped [] = none
read escaped (c ∷ s) = push c (read bare s)

abbrev pub words_of : Words → Option (List String)
words_of none = none
words_of (some (w, ws)) = some ws

-- The words of a command line; `none` if it is no simple command made of words alone.
unfoldable pub shell_words : String → Option (List String)
unfolding read meaning
shell_words s = words_of (read gap s)
