-- ===== src/Lvm/Commands.antt =====
-- server/utils/lvm-actions.ts and utils/lvm-lv-size.ts: the command lines of the six LVM actions,
-- the previews that a plan shows, and the size argument of `lvcreate -L`.
use esos_webui.Common.{
  Bool, List, String, [], any, if◌then◌else◌, join, show, str_eq, template, trim, ℕ, ◌%◌, ◌&&◌, ◌/◌,
  ◌==◌, ◌∷◌,
}
use esos_webui.Lvm.Types.{LogicalVolume}

abbrev kib : ℕ
kib = 1024

abbrev mib : ℕ
mib = 1048576

abbrev gib : ℕ
gib = 1073741824

unfoldable pub format_lv_create_size_arg : ℕ → String
unfolding show template
format_lv_create_size_arg size_bytes =
    if size_bytes == 0
    then "0"
    else if size_bytes % gib == 0
    then template (show (size_bytes / gib) ∷ "G" ∷ [])
    else if size_bytes % mib == 0
    then template (show (size_bytes / mib) ∷ "M" ∷ [])
    else if size_bytes % kib == 0
    then template (show (size_bytes / kib) ∷ "K" ∷ [])
    else template (show size_bytes ∷ "b" ∷ [])

unfoldable pub overview_has_lv : List LogicalVolume → String → String → Bool
unfolding any trim
overview_has_lv lvs vg_name lv_name =
    let vg = trim vg_name in
    let name = trim lv_name in any (λ l. str_eq l.vg_name vg && str_eq l.name name) lvs

unfoldable pub pv_create_args : String → Bool → List String
pv_create_args path force =
    "pvcreate" ∷ "-y" ∷ "-v" ∷ (if force then "--force" ∷ path ∷ [] else path ∷ [])

unfoldable pub vg_create_args : String → List String → List String
vg_create_args name pv_paths = "vgcreate" ∷ "-v" ∷ name ∷ pv_paths

unfoldable pub lv_create_args : String → String → ℕ → List String
lv_create_args vg_name lv_name size_bytes =
    "lvcreate"
    ∷ "-y"
    ∷ "-v"
    ∷ "-L"
    ∷ format_lv_create_size_arg size_bytes
    ∷ "-n"
    ∷ lv_name
    ∷ vg_name
    ∷ []

unfoldable pub pv_remove_args : String → List String
pv_remove_args path = "pvremove" ∷ "-y" ∷ "-f" ∷ path ∷ []

unfoldable pub vg_remove_args : String → List String
vg_remove_args name = "vgremove" ∷ "-y" ∷ "-f" ∷ name ∷ []

unfoldable pub lv_remove_args : String → String → List String
unfolding template
lv_remove_args vg_name lv_name =
    "lvremove" ∷ "-y" ∷ "-f" ∷ template (vg_name ∷ "/" ∷ lv_name ∷ []) ∷ []

-- The previews are not quoted: they are shown, and never sent to a shell.
unfoldable pub pv_create_preview : String → Bool → String
unfolding template
pv_create_preview path force =
    if force
    then template ("pvcreate -y -v --force " ∷ path ∷ [])
    else template ("pvcreate -y -v " ∷ path ∷ [])

unfoldable pub vg_create_preview : String → List String → String
unfolding template join
vg_create_preview name pv_paths = template ("vgcreate -v " ∷ name ∷ " " ∷ join " " pv_paths ∷ [])

unfoldable pub lv_create_preview : String → String → ℕ → String
unfolding template format_lv_create_size_arg
lv_create_preview vg_name lv_name size_bytes = template (
    "lvcreate -y -v -L "
    ∷ format_lv_create_size_arg size_bytes
    ∷ " -n "
    ∷ lv_name
    ∷ " "
    ∷ vg_name
    ∷ [])

unfoldable pub pv_remove_preview : String → String
unfolding template
pv_remove_preview path = template ("pvremove -y -f " ∷ path ∷ [])

unfoldable pub vg_remove_preview : String → String
unfolding template
vg_remove_preview name = template ("vgremove -y -f " ∷ name ∷ [])

unfoldable pub lv_remove_preview : String → String → String
unfolding template
lv_remove_preview vg_name lv_name = template ("lvremove -y -f " ∷ vg_name ∷ "/" ∷ lv_name ∷ [])
