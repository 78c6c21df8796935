-- ===== src/Shell/Quoting.antt =====
-- What a shell reads back from a quoted word and from a quoted command line.
use Prim.Native.Char.{Char, code}
use Prim.Native.String
use Prim.Native.String.{String, [], ◌∷◌}
use text.Mathlib.TextLemmas.{nil-append, cons-append, append-nil}
use esos_webui.Common.{
  Bool, Bool-cases, List, [], all, all_chars, and_split, ap, arith, false, if◌then◌else◌, inl, inr,
  join, map, not, refl, some, suc, sym, true, zero, ℕ, ◌<◌, ◌==◌, ◌||◌, ◌∙◌, ◌∷◌, ◌≡◌, ◌≢◌,
}
use esos_webui.Shell.Defs.{is_plain, escape_quotes, shell_single_quote, shell_quote, command_line}
use esos_webui.Shell.Posix.{
  Mode, Meaning, quote, literal, meaning, read, Words, push, start, words_of, shell_words,
}

-- The characters of a text in front of the word that is being read.
abbrev push_all : String → Words → Words
push_all [] r = r
push_all (c ∷ s) r = push c (push_all s r)

-- A character of the plain class is below 128, so the claim is checked for each of these codes.
abbrev codes : ℕ → List ℕ
codes zero = []
codes (suc top) = top ∷ codes top

all-codes : (test : ℕ → Bool) (top c : ℕ) → c < top → all test (codes top) ≡ true → test c ≡ true
unfolding all
all-codes test zero c below h = absurd (omega arith)
all-codes test (suc top) c below h = ground (arith, all-codes test top c)

abbrev is_literal : Meaning → Bool
is_literal literal = true
is_literal _ = false

is_literal→eq : (m : Meaning) → is_literal m ≡ true → m ≡ literal
is_literal→eq m h = ground arith

plain_table : all (λ c. not (is_plain c) || is_literal (meaning c)) (codes 128) ≡ true
unfolding all is_plain meaning
plain_table = refl

is_plain-lt : (c : ℕ) → is_plain c ≡ true → c < 128
unfolding is_plain
is_plain-lt c h = ground arith

meaning_of_plain : (c : ℕ) → is_plain c ≡ true → meaning c ≡ literal
meaning_of_plain c h =
    let row = all-codes _ 128 c (is_plain-lt c h) plain_table in
    is_literal→eq (meaning c) (rw h at row)

meaning_quote : (c : ℕ) → (c == b'\'') ≡ true → meaning c ≡ quote
unfolding meaning
meaning_quote c h = ground arith

meaning-ne-quote : (c : ℕ) → (c == b'\'') ≡ false → meaning c ≢ quote
unfolding meaning
meaning-ne-quote c h = ground arith

read_quoted_other :
    (c : Char) (s : String)
    → (code c == b'\'') ≡ false
    → read Mode.quoted (c ∷ s) ≡ push c (read Mode.quoted s)
unfolding read
read_quoted_other c s h = ground (arith, meaning-ne-quote (code c) h)

read_quoted_close :
    (c : Char) (s : String) → (code c == b'\'') ≡ true → read Mode.quoted (c ∷ s) ≡ read Mode.bare s
unfolding read
read_quoted_close c s h = rw (meaning_quote (code c) h, read)

read_bare_open :
    (c : Char) (s : String) → (code c == b'\'') ≡ true → read Mode.bare (c ∷ s) ≡ read Mode.quoted s
unfolding read
read_bare_open c s h = rw (meaning_quote (code c) h, read)

read_bare_escape :
    (c : Char) (s : String) → read Mode.bare ("\\" ∷ c ∷ s) ≡ push c (read Mode.bare s)
unfolding read meaning
read_bare_escape c s = refl

-- Inside the quotes the escaped text is read back, up to the closing quote.
read-escape_quotes :
    (s rest : String)
    → read Mode.quoted (escape_quotes s ("'" ∷ rest)) ≡ push_all s (read Mode.bare rest)
unfolding escape_quotes
read-escape_quotes [] rest = read_quoted_close "'" rest refl
read-escape_quotes (c ∷ s) rest = elim (Bool-cases (code c == b'\'')) [
  | inl e ↦
      rw (e, if◌then◌else◌)
        (read_quoted_close c _ e
          ∙ read_bare_escape c _
          ∙ ap (push c) (read_bare_open c _ e ∙ read-escape_quotes s rest))
  | inr e ↦
      rw (e, if◌then◌else◌) (read_quoted_other c _ e ∙ ap (push c) (read-escape_quotes s rest))
]

escape_quotes-append :
    (s r t : String) → String.◌++◌ (escape_quotes s r) t ≡ escape_quotes s (String.◌++◌ r t)
unfolding escape_quotes
escape_quotes-append [] r t = refl
escape_quotes-append (c ∷ s) r t = elim (Bool-cases (code c == b'\'')) [
  | inl e ↦ rw (e, if◌then◌else◌) (simp (cons-append, escape_quotes-append s r t))
  | inr e ↦ rw (e, if◌then◌else◌) (simp (cons-append, escape_quotes-append s r t))
]

-- Outside quotes a text of plain characters is read as it stands.
read_bare_plain :
    (s rest : String)
    → all_chars is_plain s ≡ true
    → read Mode.bare (String.◌++◌ s rest) ≡ push_all s (read Mode.bare rest)
unfolding all_chars read
read_bare_plain [] rest h = ap (read Mode.bare) (nil-append rest)
read_bare_plain (c ∷ s) rest h =
    let (here, later) = and_split _ _ h in
    rw cons-append
      (rw (meaning_of_plain (code c) here, read) (ap (push c) (read_bare_plain s rest later)))

read_gap_plain :
    (c : Char) (s : String)
    → is_plain (code c) ≡ true
    → read Mode.gap (c ∷ s) ≡ start (push c (read Mode.bare s))
unfolding read
read_gap_plain c s h = rw (meaning_of_plain (code c) h, read)

-- Between words a quoted word begins a word and is read whole.
read-shell_single_quote :
    (arg rest : String)
    → read Mode.gap (String.◌++◌ (shell_single_quote arg) rest)
      ≡ start (push_all arg (read Mode.bare rest))
unfolding shell_single_quote read meaning
read-shell_single_quote arg rest =
    rw (cons-append, escape_quotes-append arg "'" rest, cons-append, nil-append)
      (ap start (read-escape_quotes arg rest))

read-shell_quote :
    (arg rest : String)
    → read Mode.gap (String.◌++◌ (shell_quote arg) rest)
      ≡ start (push_all arg (read Mode.bare rest))
unfolding shell_quote all_chars
read-shell_quote [] rest = read-shell_single_quote [] rest
read-shell_quote (c ∷ s) rest = elim (Bool-cases (all_chars is_plain (c ∷ s))) [
  | inl e ↦
      let (here, later) = and_split _ _ e in
      rw (e, if◌then◌else◌)
        (rw cons-append
          (read_gap_plain c _ here ∙ ap (λ r. start (push c r)) (read_bare_plain s rest later)))
  | inr e ↦ rw (e, if◌then◌else◌) (read-shell_single_quote (c ∷ s) rest)
]

push_all-some : (s : String) (ws : List String) → push_all s (some ("", ws)) ≡ some (s, ws)
push_all-some [] ws = refl
push_all-some (c ∷ s) ws = ap (push c) (push_all-some s ws)

read_bare_blank : (s : String) → read Mode.bare (" " ∷ s) ≡ read Mode.gap s
unfolding read meaning
read_bare_blank s = refl

read-join : (args : List String) → read Mode.gap (join " " (map shell_quote args)) ≡ some ("", args)
unfolding join read
read-join [] = refl
read-join (a ∷ []) =
    rw (← append-nil (shell_quote a)) (read-shell_quote a "" ∙ ap start (push_all-some a []))
read-join (a ∷ b ∷ cs) =
    rw (cons-append, nil-append)
      (read-shell_quote a _
        ∙ ap (λ r. start (push_all a r)) (read_bare_blank _ ∙ read-join (b ∷ cs))
        ∙ ap start (push_all-some a (b ∷ cs)))

-- Whatever the arguments are, the remote shell reads the command line that is built from them as
-- exactly these words, and as no operator, expansion or second command.
pub shell_words-command_line : (args : List String) → shell_words (command_line args) ≡ some args
unfolding shell_words command_line
shell_words-command_line args = ap words_of (read-join args)

-- Whatever the text is, the remote shell reads it, quoted by `shellSingleQuoteForRemote`, as one word
-- that is this text.
pub shell_words-shell_single_quote :
    (s : String) → shell_words (shell_single_quote s) ≡ some (s ∷ [])
unfolding shell_words read
shell_words-shell_single_quote s = ap words_of (
    ap (read Mode.gap) (sym (append-nil (shell_single_quote s)))
    ∙ read-shell_single_quote s ""
    ∙ ap start (push_all-some s []))
