-- ===== src/Scst/Sound.antt =====
-- The invariant of the configuration: on every target the groups have different names, no two LUNs
-- have the same number, and no two LUNs show the same device.
mod Edits
mod Targets
mod Updates
pub mod Devices
pub mod Mutate
pub mod Undo
use esos_webui.Common.{Bool, all, str_eq, ◌&&◌, ◌==◌}
use esos_webui.Scst.Types.{Lun, Group, Target, Driver, ScstConfig}
use esos_webui.Scst.Luns.{all_luns_on_target}
use esos_webui.Scst.Distinct.{distinct}

abbrev pub same_name : Group → Group → Bool
same_name g h = str_eq h.name g.name

abbrev pub same_id : Lun → Lun → Bool
same_id l k = k.id == l.id

abbrev pub same_device : Lun → Lun → Bool
same_device l k = str_eq k.device l.device

unfoldable pub sound_target : Target → Bool
unfolding distinct
sound_target t =
    distinct same_name t.groups
    && distinct same_id (all_luns_on_target t)
    && distinct same_device (all_luns_on_target t)

unfoldable pub sound_driver : Driver → Bool
unfolding all sound_target
sound_driver d = all sound_target d.targets

unfoldable pub sound : ScstConfig → Bool
unfolding all sound_driver
sound c = all sound_driver c.drivers
