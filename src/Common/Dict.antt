-- ===== src/Common/Dict.antt =====
-- A JavaScript `Map` with text keys as an association list: `get`, `set` (which keeps the place of a
-- key) and `delete`.
use Prim.Native.String.{String}
use mathlib.Core.Path.{◌≡◌, refl}
use mathlib.Core.Option.{Option, none, some}
use mathlib.Core.List.{List, [], ◌∷◌}
use text.Mathlib.TextEquality.{eq_iff}
use native.Mathlib.Omega.{arith}
use esos_webui.Common.Tests.{if◌then◌else◌}
use esos_webui.Common.Text.{str_eq}

module _ {ℓ} {V : Type ℓ} where
  unfoldable pub lookup : String → List (String × V) → Option V
  lookup key [] = none
  lookup key ((at, value) ∷ entries) =
      let later = lookup key entries in if str_eq at key then some value else later

  unfoldable pub insert : String → V → List (String × V) → List (String × V)
  insert key new [] = (key, new) ∷ []
  insert key new ((at, old) ∷ entries) =
      let later = insert key new entries in
      if str_eq at key then (key, new) ∷ entries else (at, old) ∷ later

  unfoldable pub remove : String → List (String × V) → List (String × V)
  remove key [] = []
  remove key ((at, value) ∷ entries) =
      let later = remove key entries in if str_eq at key then later else (at, value) ∷ later

  pub lookup-insert :
      (key asked : String) (new : V) (entries : List (String × V))
      → lookup asked (insert key new entries)
        ≡ (if str_eq key asked then some new else lookup asked entries)
  unfolding lookup insert
  lookup-insert key asked new [] = refl
  lookup-insert key asked new ((at, old) ∷ entries) =
      let later = lookup-insert key asked new entries in
      ground (arith, later, eq_iff at asked, eq_iff at key, eq_iff key asked)

  pub lookup-remove :
      (key asked : String) (entries : List (String × V))
      → lookup asked (remove key entries)
        ≡ (if str_eq key asked then none else lookup asked entries)
  unfolding lookup remove
  lookup-remove key asked [] = ground arith
  lookup-remove key asked ((at, old) ∷ entries) =
      let later = lookup-remove key asked entries in
      ground (arith, later, eq_iff at asked, eq_iff at key, eq_iff key asked)
