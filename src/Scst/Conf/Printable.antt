-- ===== src/Scst/Conf/Printable.antt =====
-- The configurations that serializeScstConfig (server/utils/scst-config-writer.ts) writes without
-- loss. Names are texts without white space; attributes have keys that differ from each other, from
-- the words that the reader gives a meaning, and from array indices (which JavaScript would put
-- first); a LUN has no attributes, which are not written, and a target no sessions, which do not
-- stand in the file.
use Prim.Native.String.{[], ◌∷◌}
use esos_webui.Common.{
  Bool, List, String, [], all, false, includes, is_blank, is_empty, not, str_eq, true, ◌&&◌, ◌++◌,
  ◌||◌, ◌∷◌,
}
use esos_webui.Scst.Types.{
  Lun, Group, Target, Driver, Device, Handler, AluaTargetGroupConfig, AluaDeviceGroupConfig,
  ScstConfig,
}
use esos_webui.Scst.Conf.Words.{begins_digit}
use esos_webui.Scst.Conf.Parser.{opens_block}
use esos_webui.Scst.Conf.Phrases.{is_word}
use esos_webui.Scst.Conf.Lines.{is_value, is_key}

unfoldable pub has_key : String → List (String × String) → Bool
has_key key [] = false
has_key key ((k, v) ∷ attrs) = str_eq k key || has_key key attrs

-- The attributes `attrs` after those already written.
unfoldable pub printable_attrs :
    List String → List (String × String) → List (String × String) → Bool
unfolding is_key is_value begins_digit has_key includes
printable_attrs reserved written [] = true
printable_attrs reserved written ((k, v) ∷ attrs) =
    is_key k
    && (is_value v
        && (not (includes k reserved)
            && (not (begins_digit k)
                && (not (has_key k written)
                    && printable_attrs reserved (written ++ (k, v) ∷ []) attrs))))

unfoldable pub printable_device : String → Device → Bool
unfolding is_word is_value printable_attrs
printable_device handler d =
    is_word d.name
    && (str_eq d.handler handler
        && ((is_blank d.filename || is_value d.filename)
            && printable_attrs ("filename" ∷ []) [] d.attrs))

unfoldable pub printable_handler : Handler → Bool
unfolding is_word printable_device all
printable_handler h = is_word h.name && all (printable_device h.name) h.devices

unfoldable pub printable_lun : Lun → Bool
unfolding is_word opens_block
printable_lun l = is_word l.device && (not (opens_block l.device) && is_empty l.attrs)

unfoldable pub printable_group : Group → Bool
unfolding is_word all printable_lun
printable_group g = is_word g.name && (all is_word g.initiators && all printable_lun g.luns)

unfoldable pub printable_target : String → Target → Bool
unfolding is_word printable_attrs all printable_group printable_lun
printable_target driver t =
    is_word t.name
    && (str_eq t.driver driver
        && (printable_attrs ("enabled" ∷ "GROUP" ∷ "LUN" ∷ []) [] t.attrs
            && (all printable_group t.groups && (all printable_lun t.luns && is_empty t.sessions))))

unfoldable pub printable_driver : Driver → Bool
unfolding is_word all printable_target
printable_driver d = is_word d.name && all (printable_target d.name) d.targets

unfoldable pub printable_target_group : AluaTargetGroupConfig → Bool
unfolding is_word all
printable_target_group g = is_word g.name && all is_word g.targets

unfoldable pub printable_device_group : AluaDeviceGroupConfig → Bool
unfolding is_word all printable_target_group
printable_device_group g =
    is_word g.name && (all is_word g.devices && all printable_target_group g.target_groups)

unfoldable pub printable : ScstConfig → Bool
unfolding all printable_handler printable_driver printable_device_group
printable c =
    all printable_handler c.handlers
    && (all printable_driver c.drivers && all printable_device_group c.device_groups)
