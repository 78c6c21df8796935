-- ===== src/Scst/File/Mutate.antt =====
-- Every operation of server/utils/scst-config-writer.ts keeps the configuration printable, given that
-- what it does not check can stand in the file.
use esos_webui.Common.{Bool, [], and_split, is_blank, trim, true, ◌&&◌, ◌||◌, ◌∷◌, ◌≡◌}
use esos_webui.Scst.Types.{ScstConfig}
use esos_webui.Scst.Mutators.{written}
use esos_webui.Scst.Sound.Mutate.{
  Mutation, creates_device, deletes_device, creates_target, deletes_target, enables_target,
  creates_group, deletes_group, adds_lun, removes_lun, mutate,
}
use esos_webui.Scst.Conf.Lines.{is_value}
use esos_webui.Scst.File.Devices.{create_device-printable, delete_device-printable}
use esos_webui.Scst.Conf.Phrases.{is_word}
use esos_webui.Scst.Conf.Printable.{printable_attrs, printable_attrs, printable}
use esos_webui.Scst.File.Updates.{
  set_target_enabled-printable, delete_target-printable, create_group-printable,
  delete_group-printable, add_lun-printable, remove_lun-printable, create_target-printable,
}

-- What no check of the operation looks at can stand in the file: the driver of a new target; the
-- handler, the file and the attributes of a new device.
unfoldable pub admissible : Mutation → Bool
unfolding is_word is_value printable_attrs trim
admissible (creates_target driver_name target_name) = is_word driver_name
admissible (deletes_target target_name) = true
admissible (enables_target target_name enabled) = true
admissible (creates_group target_name group_name) = true
admissible (deletes_group target_name group_name force) = true
admissible (adds_lun target_name group_name n device_name read_only) = true
admissible (removes_lun target_name group_name n) = true
admissible (creates_device handler_name device_name filename attrs) =
    is_word handler_name
    && ((is_blank (trim filename) || is_value (trim filename))
        && printable_attrs ("filename" ∷ []) [] attrs)
admissible (deletes_device device_name) = true

-- If an operation on targets, groups, LUNs or devices reads a printable configuration, then the configuration
-- it writes is printable: names and LUN devices that pass the checks of the operation can stand in
-- the file. What no check looks at must be fit for it: the driver's name of a new target; the
-- handler's name, the path and the attributes of a new device.
pub mutate-printable :
    (m : Mutation) (c c' : ScstConfig)
    → admissible m ≡ true
    → printable c ≡ true
    → mutate m c ≡ written c'
    → printable c' ≡ true
unfolding mutate admissible
mutate-printable (creates_target dn n) c c' w s h = create_target-printable dn n c c' w s h
mutate-printable (deletes_target n) c c' w s h = delete_target-printable n c c' s h
mutate-printable (enables_target n enabled) c c' w s h =
    set_target_enabled-printable n enabled c c' s h
mutate-printable (creates_group n gn) c c' w s h = create_group-printable n gn c c' s h
mutate-printable (deletes_group n gn force) c c' w s h = delete_group-printable n gn force c c' s h
mutate-printable (adds_lun n gn i dev read_only) c c' w s h =
    add_lun-printable n gn i dev read_only c c' s h
mutate-printable (removes_lun n gn i) c c' w s h = remove_lun-printable n gn i c c' s h
mutate-printable (creates_device hn dn file attrs) c c' w s h =
    let (word_hn, w1) = and_split (is_word hn) _ w in
    let (path, w2) = and_split (is_blank (trim file) || is_value (trim file)) _ w1 in
    create_device-printable hn dn file attrs c c' word_hn path w2 s h
mutate-printable (deletes_device dn) c c' w s h = delete_device-printable dn c c' s h
