-- ===== src/Scst/Conf/Printer.antt =====
-- serializeScstConfig of server/utils/scst-config-writer.ts.
use Prim.Native.String.{[], ◌∷◌}
use esos_webui.Common.{
  Bool, List, String, [], false, if◌then◌else◌, is_blank, join, ltb, not, show, suc, true, zero, ℕ,
  ◌++◌, ◌+◌, ◌∷◌,
}
use esos_webui.Scst.Types.{
  Lun, Group, Target, Driver, Device, Handler, AluaTargetGroupConfig, AluaDeviceGroupConfig,
  ScstConfig,
}

-- The tabs at the beginning of a line, and its words.
unfoldable pub indent : ℕ → String → String
indent zero s = s
indent (suc n) s = "\t" ∷ indent n s

unfoldable pub print : ℕ → List String → List String
unfolding indent join
print depth words = indent depth (join " " words) ∷ []

-- The lines of each item, one after the other.
unfoldable pub print_each {ℓ} : {A : Type ℓ} → (A → List String) → List A → List String
print_each p [] = []
print_each p (x ∷ xs) = p x ++ print_each p xs

-- `if (test) lines.push(…)`
abbrev pub print_if : Bool → List String → List String
print_if true lines = lines
print_if false lines = []

unfoldable pub print_attr : String × String → List String
unfolding print
print_attr (key, value) = print 2 (key ∷ value ∷ [])

unfoldable pub print_lun : ℕ → Lun → List String
unfolding print show
print_lun depth lun =
    if lun.read_only
    then print depth ("LUN" ∷ show lun.id ∷ lun.device ∷ "{" ∷ [])
      ++ (print (depth + 1) ("read_only" ∷ "1" ∷ []) ++ print depth ("}" ∷ []))
    else print depth ("LUN" ∷ show lun.id ∷ lun.device ∷ [])

unfoldable pub print_initiator : String → List String
unfolding print
print_initiator initiator = print 3 ("INITIATOR" ∷ initiator ∷ [])

unfoldable pub print_group : Group → List String
unfolding print print_each print_initiator print_lun
print_group group =
    print 2 ("GROUP" ∷ group.name ∷ "{" ∷ [])
    ++ (print_each print_initiator group.initiators
        ++ (print_each (print_lun 3) group.luns ++ print 2 ("}" ∷ [])))

unfoldable pub print_target : Target → List String
unfolding print print_each print_attr print_group print_lun
print_target target =
    print 1 ("TARGET" ∷ target.name ∷ "{" ∷ [])
    ++ (print_if target.hw_target (print 2 ("HW_TARGET" ∷ []))
        ++ (print_if (not target.enabled) (print 2 ("enabled" ∷ "0" ∷ []))
            ++ (print_each print_attr target.attrs
                ++ (print_each print_group target.groups
                    ++ (print_each (print_lun 2) target.luns ++ print 1 ("}" ∷ []))))))

unfoldable pub print_driver : Driver → List String
unfolding print print_each print_target
print_driver driver =
    print 0 ("TARGET_DRIVER" ∷ driver.name ∷ "{" ∷ [])
    ++ (print_if (not driver.enabled) (print 1 ("enabled" ∷ "0" ∷ []))
        ++ (print_each print_target driver.targets ++ (print 0 ("}" ∷ []) ++ print 0 ("" ∷ []))))

unfoldable pub print_device : Device → List String
unfolding print print_each print_attr
print_device device =
    print 1 ("DEVICE" ∷ device.name ∷ "{" ∷ [])
    ++ (print_if (not (is_blank device.filename)) (print 2 ("filename" ∷ device.filename ∷ []))
        ++ (print_each print_attr device.attrs ++ print 1 ("}" ∷ [])))

unfoldable pub print_handler : Handler → List String
unfolding print print_each print_device
print_handler handler =
    print 0 ("HANDLER" ∷ handler.name ∷ "{" ∷ [])
    ++ (print_each print_device handler.devices ++ (print 0 ("}" ∷ []) ++ print 0 ("" ∷ [])))

unfoldable pub print_ref : String → ℕ → String → List String
unfolding print
print_ref keyword depth name = print depth (keyword ∷ name ∷ [])

unfoldable pub print_target_group : AluaTargetGroupConfig → List String
unfolding print print_each print_ref show
print_target_group group =
    print 1 ("TARGET_GROUP" ∷ group.name ∷ "{" ∷ [])
    ++ (print_if (ltb 0 group.group_id) (print 2 ("group_id" ∷ show group.group_id ∷ []))
        ++ (print_each (print_ref "TARGET" 2) group.targets ++ print 1 ("}" ∷ [])))

unfoldable pub print_device_group : AluaDeviceGroupConfig → List String
unfolding print print_each print_ref print_target_group
print_device_group group =
    print 0 ("DEVICE_GROUP" ∷ group.name ∷ "{" ∷ [])
    ++ (print_each (print_ref "DEVICE" 1) group.devices
        ++ (print_each print_target_group group.target_groups
            ++ (print 0 ("}" ∷ []) ++ print 0 ("" ∷ []))))

unfoldable pub config_lines : ScstConfig → List String
unfolding print_handler print_driver print_device_group
config_lines config =
    print_each print_handler config.handlers
    ++ (print_each print_driver config.drivers
        ++ print_each print_device_group config.device_groups)

unfoldable pub serialize_scst_config : ScstConfig → String
unfolding config_lines join
serialize_scst_config config = join "\n" (config_lines config)
