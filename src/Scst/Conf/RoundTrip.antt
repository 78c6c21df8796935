-- ===== src/Scst/Conf/RoundTrip.antt =====
-- What serializeScstConfig (server/utils/scst-config-writer.ts) writes is read back by parseScstConf
-- (server/utils/scst-conf-parser.ts).
use Prim.Native.Char.{Char, code}
use Prim.Native.String
use Prim.Native.String.{[], ◌∷◌}
use text.Mathlib.TextLemmas.{cons-append, nil-append}
use esos_webui.Common.{
  List, String, [], all, all→All, and_split, ap, arith, false, join, not, refl, true, ◌++◌, ◌==◌,
  ◌∙◌, ◌∷◌, ◌≡◌,
}
use esos_webui.Scst.Types.{
  Lun, Group, Target, Driver, Device, Handler, AluaTargetGroupConfig, AluaDeviceGroupConfig,
  ScstConfig,
}
use esos_webui.Scst.Conf.Words.{
  word, after_word, begins_space, argument, is_opening, name_of, sole_word, digits_value,
  after_digits, begins_digit, sole_number, flag_value, lun_of, is_line_end, ends_quote, drop_last,
  unquote, attribute,
}
use esos_webui.Scst.Conf.Edits.{
  Context, Reading, handler, driver, device_group, device, target, alua_target_group, group,
  target_lun, group_lun, push, edit_last, edit_handler, edit_device, edit_driver, edit_target,
  edit_group, edit_target_lun, edit_group_lun, edit_device_group, edit_target_group, empty_config,
  new_handler, new_device, new_driver, begun_target, new_group, new_lun, new_device_group,
  new_target_group,
}
use esos_webui.Scst.Conf.Parser.{
  split_lines, opens_block, matched, block, item, enabled_flag, lun_line, group_id_line,
  is_read_only, Effect, on_top, on_handler, on_driver, on_device_group, on_device,
  on_alua_target_group, on_target, on_group, on_lun, in_block, enter, leave, is_comment, on_line,
  read_lines, start, parse_scst_conf, parse_scst_conf_safe,
}
use esos_webui.Scst.Conf.Printer.{
  indent, print, print_each, print_if, print_attr, print_lun, print_initiator, print_group,
  print_target, print_driver, print_device, print_handler, print_ref, print_target_group,
  print_device_group, config_lines, serialize_scst_config,
}
use esos_webui.Scst.Conf.Reads.{
  one_line, Reads, at, Reads-nil, Reads-append, Reads-each, is_rest, is_rest-word, is_rest-phrase,
  is_rest-value, print-phrase, Reads-phrase, Reads-alone, Reads-close, Reads-blank, is_rest-split,
}
use esos_webui.Scst.Conf.Printable.{
  printable_attrs, printable_device, printable_handler, printable_lun, printable_group,
  printable_target, printable_driver, printable_target_group, printable_device_group, printable,
  has_key,
}
use esos_webui.Scst.Conf.RoundTrip.Devices.{Reads-handler}
use esos_webui.Scst.Conf.RoundTrip.Targets.{Reads-driver}
use esos_webui.Scst.Conf.RoundTrip.DeviceGroups.{Reads-device_group}
mod Attrs
mod Devices
mod Luns
mod Groups
mod Targets
mod DeviceGroups

pub Reads-config_lines :
    (c : ScstConfig) → printable c ≡ true → Reads (config_lines c) start (at c [])
unfolding config_lines printable
Reads-config_lines c p =
    let (handlers, p1) = and_split (all printable_handler c.handlers) _ p in
    let (drivers, groups) = and_split (all printable_driver c.drivers) _ p1 in
    let handled : ScstConfig = record empty_config { handlers = c.handlers } in
    let driven : ScstConfig = record handled { drivers = c.drivers } in
    let first =
      Reads-each (λ h. printable_handler h ≡ true) print_handler
        (λ hs. at (record empty_config { handlers = hs }) [])
        (λ hs h. Reads-handler empty_config hs h) [] c.handlers
        (all→All printable_handler c.handlers handlers) in
    let second =
      Reads-each (λ d. printable_driver d ≡ true) print_driver
        (λ ds. at (record handled { drivers = ds }) []) (λ ds d. Reads-driver handled ds d) []
        c.drivers (all→All printable_driver c.drivers drivers) in
    let third =
      Reads-each (λ g. printable_device_group g ≡ true) print_device_group
        (λ gs. at (record driven { device_groups = gs }) [])
        (λ gs g. Reads-device_group driven gs g) [] c.device_groups
        (all→All printable_device_group c.device_groups groups) in
    Reads-append first (Reads-append second third)

-- Lines joined by `\n` and split again are the lines.
split_lines-one : (s : String) → one_line s ≡ true → split_lines s ≡ s ∷ []
unfolding split_lines one_line
split_lines-one [] h = refl
split_lines-one (c ∷ s) h =
    let (here, later) = and_split (not (code c == 10)) (one_line s) h in
    let other : (code c == 10) ≡ false = ground arith in rw (other, split_lines-one s later) refl

split_lines-append :
    (s t : String) → one_line s ≡ true → split_lines (String.◌++◌ s ("\n" ∷ t)) ≡ s ∷ split_lines t
unfolding split_lines one_line
split_lines-append [] t h = rw nil-append refl
split_lines-append (c ∷ s) t h =
    let (here, later) = and_split (not (code c == 10)) (one_line s) h in
    let other : (code c == 10) ≡ false = ground arith in
    rw (cons-append, other, split_lines-append s t later) refl

newline-append : (t : String) → String.◌++◌ "\n" t ≡ "\n" ∷ t
newline-append t = cons-append "\n" "" t ∙ ap (λ s. "\n" ∷ s) (nil-append t)

split_lines-join :
    (line : String) (lines : List String)
    → all one_line (line ∷ lines) ≡ true
    → split_lines (join "\n" (line ∷ lines)) ≡ line ∷ lines
unfolding join all
split_lines-join line [] h = split_lines-one line (and_split (one_line line) true h).0
split_lines-join line (next ∷ lines) h =
    let (here, later) = and_split (one_line line) _ h in
    rw newline-append (
      split_lines-append line (join "\n" (next ∷ lines)) here
      ∙ ap (λ rest. line ∷ rest) (split_lines-join next lines later))

-- The reader over joined lines goes over the lines.
read_lines-join :
    (lines : List String) (r : Reading)
    → all one_line lines ≡ true
    → read_lines (split_lines (join "\n" lines)) r ≡ read_lines lines r
unfolding split_lines join read_lines
read_lines-join [] r h = refl
read_lines-join (line ∷ lines) r h = ap (λ ls. read_lines ls r) (split_lines-join line lines h)

-- A printable configuration is read back from its text as it was. In a printable configuration names
-- are words; devices and targets name the handler and the driver that they stand in; attributes have
-- values on one line, trimmed and not in quotes, and different keys, which begin with no digit and no
-- `#` and are none that the reader gives another meaning; no LUN's device ends in a brace; and LUNs
-- have no attributes, targets no sessions.
pub parse_scst_conf-serialize_scst_config :
    (c : ScstConfig) → printable c ≡ true → parse_scst_conf (serialize_scst_config c) ≡ c
unfolding parse_scst_conf serialize_scst_config
parse_scst_conf-serialize_scst_config c p =
    let read = Reads-config_lines c p in
    ap (λ r. r.config) (read_lines-join (config_lines c) start read.whole ∙ read.reached)
