-- ===== src/Scst/Referenced.antt =====
-- The invariant that every LUN of the configuration shows a device that a handler has, which
-- server/utils/scst-config-writer.ts keeps by the checks of a mapping and of `deleteDevice`.
mod Edits
mod Updates
pub mod Mutate
mod Tests
use esos_webui.Common.{Bool, List, all, any, ◌&&◌}
use esos_webui.Scst.Types.{Lun, Group, Target, Driver, Handler, ScstConfig}
use esos_webui.Scst.Devices.{has_device}

unfoldable pub has_defined : List Handler → Lun → Bool
unfolding any has_device
has_defined handlers l = any (has_device l.device) handlers

unfoldable pub referenced_group : (Lun → Bool) → Group → Bool
unfolding all
referenced_group p g = all p g.luns

unfoldable pub referenced_target : (Lun → Bool) → Target → Bool
unfolding all referenced_group
referenced_target p t = all p t.luns && all (referenced_group p) t.groups

unfoldable pub referenced_driver : (Lun → Bool) → Driver → Bool
unfolding all referenced_target
referenced_driver p d = all (referenced_target p) d.targets

unfoldable pub referenced : ScstConfig → Bool
unfolding all referenced_driver has_defined
referenced c = all (referenced_driver (has_defined c.handlers)) c.drivers
