-- ===== src/Shell/Defs.antt =====
-- `shellQuote` (server/utils/lvm-actions.ts) and `shellSingleQuoteForRemote`
-- (server/utils/remote-config-paths.ts).
use Prim.Native.Char.{code}
use Prim.Native.String.{[], ◌∷◌}
use esos_webui.Common.{
  Bool, List, String, [], all_chars, if◌then◌else◌, is_alnum, is_blank, join, map, not, ℕ, ◌&&◌,
  ◌==◌, ◌||◌, ◌∷◌,
}

-- `[a-zA-Z0-9_./:@+-]`
unfoldable pub is_plain : ℕ → Bool
unfolding is_alnum
is_plain c =
    is_alnum c
    || c == b'_'
    || c == b'.'
    || c == b'/'
    || c == b':'
    || c == b'@'
    || c == b'+'
    || c == b'-'

-- The text with each quote replaced by quote, backslash, quote, quote; then `rest`.
unfoldable pub escape_quotes : String → String → String
escape_quotes [] rest = rest
escape_quotes (c ∷ s) rest =
    let more = escape_quotes s rest in if code c == b'\'' then c ∷ "\\" ∷ c ∷ c ∷ more else c ∷ more

unfoldable pub shell_single_quote : String → String
unfolding escape_quotes
shell_single_quote s = "'" ∷ escape_quotes s "'"

unfoldable pub shell_quote : String → String
unfolding is_plain shell_single_quote all_chars
shell_quote arg =
    if not (is_blank arg) && all_chars is_plain arg then arg else shell_single_quote arg

-- `args.map(shellQuote).join(' ')`
unfoldable pub command_line : List String → String
unfolding shell_quote join
command_line args = join " " (map shell_quote args)
