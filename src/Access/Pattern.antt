-- ===== src/Access/Pattern.antt =====
-- The regular expressions of server/utils/api-rbac.ts. Each is `^` followed by literal texts,
-- `[^/]+`, a last choice of texts, `(\/|$)` or `$`, which is what `Piece` has. A run `[^/]+` is
-- followed by `/` or by an end in every rule, so taking as many characters as there are is what
-- the regular expression does.
use Prim.Native.Char.{code}
use Prim.Native.String.{[], ◌∷◌}
use esos_webui.Common.{
  Bool, List, Option, String, [], after, false, if◌then◌else◌, is_blank, is_some, none, some, true,
  ◌==◌, ◌||◌, ◌∷◌,
}

pub data Piece : Type 0 where
  text : String → Piece
  segment : Piece
  one_of : List String → Piece
  slash_or_end : Piece
  end : Piece

-- The text from the next `/` on.
unfoldable pub from_slash : String → String
from_slash [] = []
from_slash (c ∷ s) = let rest = from_slash s in if code c == b'/' then c ∷ s else rest

-- `[^/]+`
unfoldable pub after_segment : String → Option String
unfolding from_slash
after_segment [] = none
after_segment (c ∷ s) = if code c == b'/' then none else some (from_slash s)

unfoldable pub begins_with_one : List String → String → Bool
unfolding after
begins_with_one [] s = false
begins_with_one (t ∷ ts) s = is_some (after t s) || begins_with_one ts s

-- What is left after a piece, if the text goes on with it.
unfoldable pub after_piece : Piece → String → Option String
unfolding after_segment begins_with_one after
after_piece (text t) s = after t s
after_piece segment s = after_segment s
after_piece (one_of ts) s = if begins_with_one ts s then some s else none
after_piece slash_or_end s = if is_blank s then some s else after "/" s
after_piece end s = if is_blank s then some s else none

-- `pattern.test(path)`
unfoldable pub test : List Piece → String → Bool
unfolding after_piece
test [] s = true
test (p ∷ ps) s = elim (after_piece p s) [ none ↦ false | some rest ↦ test ps rest ]
