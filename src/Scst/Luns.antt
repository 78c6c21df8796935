-- ===== src/Scst/Luns.antt =====
-- utils/scst-lun-validation.ts. A JavaScript number is told apart only as far as the checks do. No
-- check sets `message`, so the field is left out.
use esos_webui.Common.{
  Bool, List, Option, String, [], all_chars, any, false, find, if◌then◌else◌, includes, is_alnum,
  is_blank, leb, none, not, or_else, show, some, str_eq, suc, template, trim, true, ℕ, ◌&&◌, ◌++◌,
  ◌==◌, ◌||◌, ◌∷◌,
}
use esos_webui.Scst.Types.{Lun, Group, Target, Handler, Device, ScstConfig}

pub data LunNumber : Type 0 where
  whole : ℕ → LunNumber
  below_zero not_integer : LunNumber

pub record ValidateMapLunInput : Type 0 where
  pub lun_id : LunNumber
  pub device_name : Option String
  pub read_only : Bool

pub record ValidateLunResult : Type 0 where
  pub ok : Bool
  pub error_key : Option String
  pub preview_line : Option String

abbrev pub lun_id_max : ℕ
lun_id_max = 65535

-- The characters of `DEVICE_NAME_RE`.
unfoldable pub is_device_char : ℕ → Bool
unfolding is_alnum
is_device_char c = is_alnum c || c == b'_' || c == b'-'

unfoldable pub is_device_name : String → Bool
unfolding all_chars is_device_char
is_device_name s = not (is_blank s) && all_chars is_device_char s

-- The check of `lunId` in `validateMapLun`: the number, if it passes.
unfoldable pub lun_id_in_range : LunNumber → Option ℕ
lun_id_in_range (whole n) = if leb n lun_id_max then some n else none
lun_id_in_range below_zero = none
lun_id_in_range not_integer = none

abbrev pub group_luns : List Group → List Lun
group_luns [] = []
group_luns (g ∷ gs) = g.luns ++ group_luns gs

abbrev pub all_luns_on_target : Target → List Lun
all_luns_on_target t = t.luns ++ group_luns t.groups

abbrev pub has_id : ℕ → Lun → Bool
has_id n l = l.id == n

-- `exceptGroup && g.name === exceptGroup`
abbrev pub is_excepted : String → Group → Bool
is_excepted except_group g = not (is_blank except_group) && str_eq g.name except_group

unfoldable pub id_in_groups : List Group → ℕ → String → Bool
unfolding any
id_in_groups [] n except_group = false
id_in_groups (g ∷ gs) n except_group =
    let rest = id_in_groups gs n except_group in
    if is_excepted except_group g then rest else any (has_id n) g.luns || rest

unfoldable pub lun_id_used_on_target : Target → ℕ → String → Bool
unfolding any id_in_groups
lun_id_used_on_target t n except_group =
    any (has_id n) t.luns || id_in_groups t.groups n except_group

unfoldable pub device_mapped_on_target : Target → String → Bool
unfolding any
device_mapped_on_target t device_name =
    any (λ l. str_eq l.device device_name) (all_luns_on_target t)

unfoldable pub find_device : List Handler → String → Option (String × Device)
unfolding find
find_device [] device_name = none
find_device (h ∷ hs) device_name = elim (find (λ d. str_eq d.name device_name) h.devices) [
  | some d ↦ some (h.name, d)
  | none ↦ find_device hs device_name
]

abbrev pub allowed_handlers : List String
allowed_handlers = "vdisk_blockio" ∷ "vdisk_fileio" ∷ []

-- `Math.max(...ids)`
unfoldable pub max_id : List Lun → ℕ
max_id [] = 0
max_id (l ∷ ls) = let m = max_id ls in if leb m l.id then l.id else m

unfoldable pub suggest_next_lun_id : List Lun → ℕ
unfolding max_id
suggest_next_lun_id [] = 0
suggest_next_lun_id (l ∷ ls) = suc (max_id (l ∷ ls))

unfoldable pub build_lun_preview_line : ℕ → String → Bool → String
unfolding template show
build_lun_preview_line n device_name read_only =
    if read_only
    then template ("LUN " ∷ show n ∷ " " ∷ device_name ∷ " {\n\tread_only 1\n}" ∷ [])
    else template ("LUN " ∷ show n ∷ " " ∷ device_name ∷ [])

abbrev pub failed : String → ValidateLunResult
failed key = record { ok = false; error_key = some key; preview_line = none }

abbrev pub named : String → Group → Bool
named group_name g = str_eq g.name group_name

-- The checks of `validateMapLun` from the handler of the device on.
unfoldable pub check_placement :
    ℕ → String → Bool → String → Group → Target → String → ValidateLunResult
unfolding includes any lun_id_used_on_target device_mapped_on_target build_lun_preview_line
check_placement n device_name read_only handler group target group_name =
    if not (includes handler allowed_handlers)
    then failed "storage.hosts.luns.errors.handler_not_allowed"
    else if any (has_id n) group.luns
    then failed "storage.hosts.luns.errors.lun_id_duplicate_group"
    else if lun_id_used_on_target target n group_name
    then failed "storage.hosts.luns.errors.lun_id_duplicate_target"
    else if device_mapped_on_target target device_name
    then failed "storage.hosts.luns.errors.device_already_mapped"
    else record {
      ok = true;
      error_key = none;
      preview_line = some (build_lun_preview_line n device_name read_only);
    }

-- The checks of `validateMapLun` from the name of the device on.
unfoldable pub check_device :
    ℕ → String → Bool → Group → Target → String → ScstConfig → ValidateLunResult
unfolding is_device_name find_device check_placement
check_device n device_name read_only group target group_name config =
    if not (is_device_name device_name)
    then failed "storage.hosts.luns.errors.device_name_invalid"
    else elim (find_device config.handlers device_name) [
      | none ↦ failed "storage.hosts.luns.errors.device_not_found"
      | some (handler, device) ↦
          check_placement n device_name read_only handler group target group_name
    ]

unfoldable pub validate_map_lun :
    ValidateMapLunInput → ScstConfig → Target → String → ValidateLunResult
unfolding find lun_id_in_range trim check_device
validate_map_lun input config target group_name = elim (find (named group_name) target.groups) [
  | none ↦ failed "storage.hosts.luns.errors.group_not_found"
  | some group ↦ elim (lun_id_in_range input.lun_id) [
    | none ↦ failed "storage.hosts.luns.errors.lun_id_invalid"
    | some n ↦
        check_device n (trim (or_else input.device_name "")) input.read_only group target group_name
          config
  ]
]

-- `Number.isInteger`
abbrev pub is_integer : LunNumber → Bool
is_integer not_integer = false
is_integer (whole n) = true
is_integer below_zero = true

-- Whether a LUN of the list has this number.
unfoldable pub numbered : LunNumber → List Lun → Bool
unfolding any
numbered (whole n) luns = any (has_id n) luns
numbered below_zero luns = false
numbered not_integer luns = false

unfoldable pub validate_unmap_lun : LunNumber → Target → String → ValidateLunResult
unfolding find numbered
validate_unmap_lun lun_id target group_name = elim (find (named group_name) target.groups) [
  | none ↦ failed "storage.hosts.luns.errors.group_not_found"
  | some group ↦
      if not (is_integer lun_id)
      then failed "storage.hosts.luns.errors.lun_id_invalid"
      else if not (numbered lun_id group.luns)
      then failed "storage.hosts.luns.errors.lun_not_found"
      else record { ok = true; error_key = none; preview_line = none }
]
