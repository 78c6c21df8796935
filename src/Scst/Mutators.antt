-- ===== src/Scst/Mutators.antt =====
-- The operations of server/utils/scst-config-writer.ts on targets, groups and LUNs. An operation
-- reads the configuration and either throws or writes the new one: `written c` is the
-- configuration that `writeAndReloadScst` is given. The source changes the target that it has
-- found in place; here the first target of that name is replaced. The number of a LUN is passed
-- to the operations as a whole number.
use esos_webui.Common.{
  Bool, List, Option, String, [], any, false, find, if◌then◌else◌, is_empty, join, length, none,
  not, select, show, some, str_eq, template, trim, true, ℕ, ◌&&◌, ◌++◌, ◌∷◌,
}
use esos_webui.Scst.Types.{Group, Target, Driver, ScstConfig}
use esos_webui.Scst.Luns.{whole, has_id, named, validate_map_lun, validate_unmap_lun}
use esos_webui.Scst.Names.{target_name_error, validate_group_name}

pub data Update : Type 0 where
  written : ScstConfig → Update
  threw : String → Update

-- Replace the first item that passes the test.
unfoldable pub edit_first {ℓ} : {A : Type ℓ} → (A → Bool) → (A → A) → List A → List A
edit_first p f [] = []
edit_first p f (x ∷ xs) = let rest = edit_first p f xs in if p x then f x ∷ xs else x ∷ rest

unfoldable pub drop_first {ℓ} : {A : Type ℓ} → (A → Bool) → List A → List A
drop_first p [] = []
drop_first p (x ∷ xs) = let rest = drop_first p xs in if p x then xs else x ∷ rest

abbrev pub is_target : String → Target → Bool
is_target target_name t = str_eq t.name target_name

unfoldable pub has_target : String → Driver → Bool
unfolding any
has_target target_name d = any (is_target target_name) d.targets

-- `findTargetInConfig`
unfoldable pub find_target_in_config : List Driver → String → Option Target
unfolding find
find_target_in_config [] target_name = none
find_target_in_config (d ∷ ds) target_name = elim (find (is_target target_name) d.targets) [
  | some t ↦ some t
  | none ↦ find_target_in_config ds target_name
]

-- The configuration after a change of the target that `findTargetInConfig` returns.
unfoldable pub with_target : String → (Target → Target) → ScstConfig → ScstConfig
unfolding edit_first has_target
with_target target_name f c = record c {
  drivers =
      edit_first (has_target target_name)
        (λ d. record d { targets = edit_first (is_target target_name) f d.targets }) c.drivers;
}

-- A change of the group that `findGroup` returns.
unfoldable pub with_group : String → (Group → Group) → Target → Target
unfolding edit_first
with_group group_name f t = record t { groups = edit_first (named group_name) f t.groups }

unfoldable pub not_found : String → Update
unfolding template
not_found target_name = threw (template ("Target \"" ∷ target_name ∷ "\" introuvable" ∷ []))

abbrev pub new_target : String → String → Target
new_target driver_name target_name = record {
  name = target_name;
  driver = driver_name;
  enabled = true;
  hw_target = false;
  attrs = [];
  groups = [];
  luns = [];
  sessions = [];
}

abbrev pub add_target : Target → Driver → Driver
add_target t d = record d { targets = d.targets ++ (t ∷ []) }

abbrev pub is_driver : String → Driver → Bool
is_driver driver_name d = str_eq d.name driver_name

unfoldable pub create_target : String → String → ScstConfig → Update
unfolding target_name_error find edit_first template has_target
create_target driver_name target_name c = elim (target_name_error target_name driver_name) [
  | some message ↦ threw message
  | none ↦ elim (find (is_driver driver_name) c.drivers) [
    | none ↦ written (record c {
      drivers =
          c.drivers
          ++ (record {
            name = driver_name;
            enabled = true;
            targets = new_target driver_name target_name ∷ [];
          }
              ∷ []);
    })
    | some d ↦
        if has_target target_name d
        then threw (template ("La target \"" ∷ target_name ∷ "\" existe déjà" ∷ []))
        else written (record c {
          drivers =
              edit_first (is_driver driver_name) (add_target (new_target driver_name target_name))
                c.drivers;
        })
  ]
]

unfoldable pub delete_target : String → ScstConfig → Update
unfolding not_found any edit_first drop_first
delete_target target_name c =
    if any (has_target target_name) c.drivers
    then written (record c {
      drivers =
          edit_first (has_target target_name)
            (λ d. record d { targets = drop_first (is_target target_name) d.targets }) c.drivers;
    })
    else not_found target_name

unfoldable pub set_target_enabled : String → Bool → ScstConfig → Update
unfolding not_found any with_target has_target
set_target_enabled target_name enabled c =
    if any (has_target target_name) c.drivers
    then written (with_target target_name (λ t. record t { enabled = enabled }) c)
    else not_found target_name

unfoldable pub create_group : String → String → ScstConfig → Update
unfolding not_found validate_group_name find_target_in_config any with_target template
create_group target_name group_name c = elim (validate_group_name group_name) [
  | none ↦ threw "Nom de groupe invalide"
  | some normalized ↦ elim (find_target_in_config c.drivers target_name) [
    | none ↦ not_found target_name
    | some t ↦
        if any (named normalized) t.groups
        then threw (template ("Le groupe \"" ∷ normalized ∷ "\" existe déjà" ∷ []))
        else written (
            with_target target_name
              (λ t. record t {
                groups =
                    t.groups ++ (record { name = normalized; initiators = []; luns = [] } ∷ []);
              })
              c)
  ]
]

-- The counts in the refusal of `deleteGroup`.
unfoldable pub group_content : Group → String
unfolding join template show
group_content g = join " et " (
    (if is_empty g.initiators
      then []
      else template (show (length g.initiators) ∷ " initiateur(s)" ∷ []) ∷ [])
    ++ (if is_empty g.luns then [] else template (show (length g.luns) ∷ " LUN(s)" ∷ []) ∷ []))

unfoldable pub delete_group : String → String → Bool → ScstConfig → Update
unfolding not_found find_target_in_config find select with_target template group_content
delete_group target_name group_name force c = elim (find_target_in_config c.drivers target_name) [
  | none ↦ not_found target_name
  | some t ↦ elim (find (named group_name) t.groups) [
    | none ↦ threw (template ("Groupe \"" ∷ group_name ∷ "\" introuvable" ∷ []))
    | some g ↦
        if not (is_empty g.initiators && is_empty g.luns) && not force
        then threw (
            template (
              "Le groupe \""
              ∷ group_name
              ∷ "\" contient "
              ∷ group_content g
              ∷ " — confirmez la suppression forcée"
              ∷ []))
        else written (
            with_target target_name
              (λ t. record t { groups = select (λ g. not (named group_name g)) t.groups }) c)
  ]
]

unfoldable pub add_lun_to_group : String → String → ℕ → String → Bool → ScstConfig → Update
unfolding not_found find_target_in_config validate_map_lun with_target with_group trim
add_lun_to_group target_name group_name n device_name read_only c =
    elim (find_target_in_config c.drivers target_name) [
      | none ↦ not_found target_name
      | some t ↦
          let validated =
            validate_map_lun
              (record { lun_id = whole n; device_name = some device_name; read_only = read_only }) c
              t group_name in
          if not validated.ok
          then threw "Mappage LUN invalide"
          else written (
              with_target target_name
                (with_group group_name (λ g. record g {
                  luns =
                      g.luns
                      ++ (record {
                        id = n;
                        device = trim device_name;
                        read_only = read_only;
                        attrs = [];
                      }
                          ∷ []);
                }))
                c)
    ]

unfoldable pub remove_lun_from_group : String → String → ℕ → ScstConfig → Update
unfolding not_found find_target_in_config validate_unmap_lun with_target with_group select
remove_lun_from_group target_name group_name n c =
    elim (find_target_in_config c.drivers target_name) [
      | none ↦ not_found target_name
      | some t ↦
          let v = validate_unmap_lun (whole n) t group_name in
          if not v.ok
          then threw "LUN introuvable"
          else written (
              with_target target_name
                (with_group group_name
                  (λ g. record g { luns = select (λ l. not (has_id n l)) g.luns }))
                c)
    ]
