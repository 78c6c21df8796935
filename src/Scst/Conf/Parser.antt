-- ===== src/Scst/Conf/Parser.antt =====
-- parseScstConf and parseScstConfSafe of server/utils/scst-conf-parser.ts. Attributes keep the order
-- in which they are first set, as an object's keys do when they are no array indices.
use Prim.Native.Char.{Char, code}
use Prim.Native.String.{[], ◌∷◌}
use esos_webui.Common.{
  Bool, List, Option, String, [], false, if◌then◌else◌, insert, is_blank, none, some, str_eq, trim,
  true, ℕ, ◌==◌, ◌||◌, ◌∷◌,
}
use esos_webui.Scst.Types.{Lun, ScstConfig}
use esos_webui.Scst.Conf.Words.{
  argument, name_of, sole_word, sole_number, flag_value, lun_of, attribute,
}
use esos_webui.Scst.Conf.Edits.{
  Context, Reading, handler, driver, device_group, device, target, alua_target_group, group,
  target_lun, group_lun, push, edit_handler, edit_device, edit_driver, edit_target, edit_group,
  edit_target_lun, edit_group_lun, edit_device_group, edit_target_group, empty_config, new_handler,
  new_device, new_driver, begun_target, new_group, new_lun, new_device_group, new_target_group,
}

-- `raw.split('\n')`
unfoldable pub add_char : Char → List String → List String
add_char c [] = (c ∷ "") ∷ []
add_char c (line ∷ lines) = (c ∷ line) ∷ lines

unfoldable pub split_lines : String → List String
unfolding add_char
split_lines [] = "" ∷ []
split_lines (c ∷ s) =
    let rest = split_lines s in if code c == 10 then "" ∷ rest else add_char c rest

-- `line.endsWith('{')`
unfoldable pub opens_block : String → Bool
opens_block [] = false
opens_block (c ∷ []) = code c == b'{'
opens_block (c ∷ d ∷ s) = opens_block (d ∷ s)

-- `const m = …; if (m) { …; break }`, and what follows.
abbrev pub matched {ℓ κ} : {A : Type ℓ} {B : Type κ} → Option A → (A → B) → B → B
matched none f rest = rest
matched (some m) f rest = f m

-- `^KEYWORD\s+(\S+)\s*\{?$`
unfoldable pub block : String → String → Option String
unfolding argument name_of
block keyword line = elim (argument keyword line) [ none ↦ none | some rest ↦ name_of rest ]

-- `^KEYWORD\s+(\S+)$`
unfoldable pub item : String → String → Option String
unfolding argument sole_word
item keyword line = elim (argument keyword line) [ none ↦ none | some rest ↦ sole_word rest ]

-- `^enabled\s+(\d)$`
unfoldable pub enabled_flag : String → Option Bool
unfolding argument flag_value
enabled_flag line = elim (argument "enabled" line) [ none ↦ none | some rest ↦ flag_value rest ]

-- `^LUN\s+(\d+)\s+(\S+)\s*\{?$`
unfoldable pub lun_line : String → Option (ℕ × String)
unfolding argument lun_of
lun_line line = elim (argument "LUN" line) [ none ↦ none | some rest ↦ lun_of rest ]

-- `^group_id\s+(\d+)$`
unfoldable pub group_id_line : String → Option ℕ
unfolding argument sole_number
group_id_line line = elim (argument "group_id" line) [ none ↦ none | some rest ↦ sole_number rest ]

-- `^read_only\s+1$`
unfoldable pub is_read_only : String → Bool
unfolding argument
is_read_only line = elim (argument "read_only" line) [ none ↦ false | some rest ↦ str_eq rest "1" ]

-- The line in the block at the top of the stack: the new configuration, and the block that the line
-- has begun, which is entered if the line ends with a brace.
abbrev pub Effect : Type 0
Effect = ScstConfig × Option Context

unfoldable pub on_top : String → ScstConfig → Effect
unfolding block
on_top line c =
    matched (block "HANDLER" line)
      (λ n. (record c { handlers = push (new_handler n) c.handlers }, some handler))
      (matched (block "TARGET_DRIVER" line)
        (λ n. (record c { drivers = push (new_driver n) c.drivers }, some driver))
        (matched (block "DEVICE_GROUP" line)
          (λ n. (
            record c { device_groups = push (new_device_group n) c.device_groups },
            some device_group,
          ))
          (c, none)))

unfoldable pub on_handler : String → ScstConfig → Effect
unfolding block edit_handler
on_handler line c =
    matched (block "DEVICE" line)
      (λ n. (
        edit_handler (λ h. record h { devices = push (new_device h.name n) h.devices }) c,
        some device,
      ))
      (c, none)

unfoldable pub on_driver : String → ScstConfig → Effect
unfolding block enabled_flag edit_driver
on_driver line c =
    matched (enabled_flag line) (λ on. (edit_driver (λ d. record d { enabled = on }) c, none))
      (matched (block "TARGET" line)
        (λ n. (
          edit_driver (λ d. record d { targets = push (begun_target d.name n) d.targets }) c,
          some target,
        ))
        (c, none))

unfoldable pub on_device_group : String → ScstConfig → Effect
unfolding block item edit_device_group
on_device_group line c =
    matched (item "DEVICE" line)
      (λ n. (edit_device_group (λ g. record g { devices = push n g.devices }) c, none))
      (matched (block "TARGET_GROUP" line)
        (λ n. (
          edit_device_group
              (λ g. record g { target_groups = push (new_target_group n) g.target_groups }) c,
          some alua_target_group,
        ))
        (c, none))

unfoldable pub on_device : String → ScstConfig → Effect
unfolding attribute insert edit_device
on_device line c =
    matched (attribute line)
      (λ m. (
        if str_eq m.0 "filename"
            then edit_device (λ d. record d { filename = m.1 }) c
            else edit_device (λ d. record d { attrs = insert m.0 m.1 d.attrs }) c,
        none,
      ))
      (c, none)

unfoldable pub on_alua_target_group : String → ScstConfig → Effect
unfolding group_id_line item edit_target_group
on_alua_target_group line c =
    matched (group_id_line line) (λ n. (edit_target_group (λ g. record g { group_id = n }) c, none))
      (matched (item "TARGET" line)
        (λ n. (edit_target_group (λ g. record g { targets = push n g.targets }) c, none)) (c, none))

unfoldable pub on_target : String → ScstConfig → Effect
unfolding block enabled_flag lun_line attribute insert edit_target
on_target line c =
    if str_eq line "HW_TARGET"
    then (edit_target (λ t. record t { hw_target = true }) c, none)
    else matched (enabled_flag line) (λ on. (edit_target (λ t. record t { enabled = on }) c, none))
        (matched (block "GROUP" line)
          (λ n.
            (edit_target (λ t. record t { groups = push (new_group n) t.groups }) c, some group))
          (matched (lun_line line)
            (λ m. (
              edit_target (λ t. record t { luns = push (new_lun m.0 m.1) t.luns }) c,
              some target_lun,
            ))
            (matched (attribute line)
              (λ m. (edit_target (λ t. record t { attrs = insert m.0 m.1 t.attrs }) c, none))
              (c, none))))

unfoldable pub on_group : String → ScstConfig → Effect
unfolding item lun_line edit_group
on_group line c =
    matched (item "INITIATOR" line)
      (λ n. (edit_group (λ g. record g { initiators = push n g.initiators }) c, none))
      (matched (lun_line line)
        (λ m.
          (edit_group (λ g. record g { luns = push (new_lun m.0 m.1) g.luns }) c, some group_lun))
        (c, none))

-- A LUN's block; `edit` changes the LUN that it belongs to.
unfoldable pub on_lun : ((Lun → Lun) → ScstConfig → ScstConfig) → String → ScstConfig → Effect
unfolding is_read_only attribute insert
on_lun edit line c =
    if is_read_only line
    then (edit (λ l. record l { read_only = true }) c, none)
    else matched (attribute line)
        (λ m. (edit (λ l. record l { attrs = insert m.0 m.1 l.attrs }) c, none)) (c, none)

unfoldable pub in_block : List Context → String → ScstConfig → Effect
unfolding on_top on_handler on_driver on_device_group on_device on_target on_alua_target_group
    on_group on_lun edit_target_lun edit_group_lun
in_block [] = on_top
in_block (handler ∷ _) = on_handler
in_block (driver ∷ _) = on_driver
in_block (device_group ∷ _) = on_device_group
in_block (device ∷ _) = on_device
in_block (target ∷ _) = on_target
in_block (alua_target_group ∷ _) = on_alua_target_group
in_block (group ∷ _) = on_group
in_block (target_lun ∷ _) = on_lun edit_target_lun
in_block (group_lun ∷ _) = on_lun edit_group_lun

-- `if (opensBlock) stack.push(…)`
abbrev pub enter : Bool → Option Context → List Context → List Context
enter true (some context) stack = context ∷ stack
enter true none stack = stack
enter false _ stack = stack

-- `if (stack.length > 1) stack.pop()`
abbrev pub leave : List Context → List Context
leave [] = []
leave (_ ∷ stack) = stack

-- `line.startsWith('#')`
abbrev pub is_comment : String → Bool
is_comment [] = false
is_comment (c ∷ s) = code c == b'#'

-- One round of the loop, on the trimmed line.
unfoldable pub on_line : String → Reading → Reading
unfolding in_block opens_block
on_line line r =
    if is_blank line || is_comment line
    then r
    else if str_eq line "}"
    then record r { stack = leave r.stack }
    else let (changed, begun) = in_block r.stack line r.config in
      record { config = changed; stack = enter (opens_block line) begun r.stack }

unfoldable pub read_lines : List String → Reading → Reading
unfolding on_line trim
read_lines [] r = r
read_lines (line ∷ lines) r = read_lines lines (on_line (trim line) r)

abbrev pub start : Reading
start = record { config = empty_config; stack = [] }

unfoldable pub parse_scst_conf : String → ScstConfig
unfolding read_lines split_lines
parse_scst_conf raw = (read_lines (split_lines raw) start).config

-- The reader throws nothing, so its `catch` is never reached.
unfoldable pub parse_scst_conf_safe : String → ScstConfig
unfolding parse_scst_conf trim
parse_scst_conf_safe raw =
    if is_blank raw || is_blank (trim raw) then empty_config else parse_scst_conf raw
