-- ===== src/Scst/Referenced/Mutate.antt =====
-- Every operation on the configuration keeps its LUNs on devices that are there.
use esos_webui.Common.{true, ◌≡◌}
use esos_webui.Scst.Types.{ScstConfig}
use esos_webui.Scst.Mutators.{written}
use esos_webui.Scst.Sound.Mutate.{
  Mutation, creates_device, deletes_device, creates_target, deletes_target, enables_target,
  creates_group, deletes_group, adds_lun, removes_lun, mutate,
}
use esos_webui.Scst.Referenced.{referenced}
use esos_webui.Scst.Referenced.Updates.{
  set_target_enabled-referenced, delete_target-referenced, create_group-referenced,
  delete_group-referenced, add_lun-referenced, remove_lun-referenced, create_target-referenced,
  create_device-referenced, delete_device-referenced,
}

-- If every LUN of the configuration that an operation on targets, groups, LUNs or devices reads shows
-- a device that a handler has, then so does every LUN of the configuration that it writes.
pub mutate-referenced :
    (m : Mutation) (c c' : ScstConfig)
    → referenced c ≡ true
    → mutate m c ≡ written c'
    → referenced c' ≡ true
unfolding mutate
mutate-referenced (creates_target dn n) c c' s h = create_target-referenced dn n c c' s h
mutate-referenced (deletes_target n) c c' s h = delete_target-referenced n c c' s h
mutate-referenced (enables_target n enabled) c c' s h =
    set_target_enabled-referenced n enabled c c' s h
mutate-referenced (creates_group n gn) c c' s h = create_group-referenced n gn c c' s h
mutate-referenced (deletes_group n gn force) c c' s h = delete_group-referenced n gn force c c' s h
mutate-referenced (adds_lun n gn i dev read_only) c c' s h =
    add_lun-referenced n gn i dev read_only c c' s h
mutate-referenced (removes_lun n gn i) c c' s h = remove_lun-referenced n gn i c c' s h
mutate-referenced (creates_device hn dn file attrs) c c' s h =
    create_device-referenced hn dn file attrs c c' s h
mutate-referenced (deletes_device dn) c c' s h = delete_device-referenced dn c c' s h
