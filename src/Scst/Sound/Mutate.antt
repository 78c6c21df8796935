-- ===== src/Scst/Sound/Mutate.antt =====
-- The operations on the configuration as one function, and the invariant over all of them.
use esos_webui.Common.{Bool, List, String, all, ap, true, ℕ, ◌≡◌}
use esos_webui.Scst.Types.{ScstConfig}
use esos_webui.Scst.Mutators.{
  Update, written, create_target, delete_target, set_target_enabled, create_group, delete_group,
  add_lun_to_group, remove_lun_from_group,
}
use esos_webui.Scst.Devices.{create_device, delete_device}
use esos_webui.Scst.Sound.{sound, sound_driver}
use esos_webui.Scst.Sound.Devices.{create_device-drivers, delete_device-drivers}
use esos_webui.Scst.Sound.Updates.{
  create_target-sound, delete_target-sound, set_target_enabled-sound, create_group-sound,
  delete_group-sound, add_lun-sound, remove_lun-sound,
}

pub data Mutation : Type 0 where
  creates_target : String → String → Mutation
  deletes_target : String → Mutation
  enables_target : String → Bool → Mutation
  creates_group : String → String → Mutation
  deletes_group : String → String → Bool → Mutation
  adds_lun : String → String → ℕ → String → Bool → Mutation
  removes_lun : String → String → ℕ → Mutation
  creates_device : String → String → String → List (String × String) → Mutation
  deletes_device : String → Mutation

unfoldable pub mutate : Mutation → ScstConfig → Update
unfolding create_target delete_target set_target_enabled create_group delete_group add_lun_to_group
    remove_lun_from_group
mutate (creates_target driver_name target_name) c = create_target driver_name target_name c
mutate (deletes_target target_name) c = delete_target target_name c
mutate (enables_target target_name enabled) c = set_target_enabled target_name enabled c
mutate (creates_group target_name group_name) c = create_group target_name group_name c
mutate (deletes_group target_name group_name force) c = delete_group target_name group_name force c
mutate (adds_lun target_name group_name n device_name read_only) c =
    add_lun_to_group target_name group_name n device_name read_only c
mutate (removes_lun target_name group_name n) c = remove_lun_from_group target_name group_name n c
mutate (creates_device handler_name device_name filename attrs) c =
    create_device handler_name device_name filename attrs c
mutate (deletes_device device_name) c = delete_device device_name c

sound-drivers : (c c' : ScstConfig) → c.drivers ≡ c'.drivers → sound c ≡ sound c'
unfolding sound
sound-drivers c c' e = ap (all sound_driver) e

-- If an operation on targets, groups, LUNs or devices reads a sound configuration (on each target the groups
-- have different names, and no two LUNs have the same number or the same device), then the
-- configuration it writes is sound.
pub mutate-sound :
    (m : Mutation) (c c' : ScstConfig) → sound c ≡ true → mutate m c ≡ written c' → sound c' ≡ true
unfolding mutate
mutate-sound (creates_target driver_name target_name) c c' s h =
    create_target-sound driver_name target_name c c' s h
mutate-sound (deletes_target target_name) c c' s h = delete_target-sound target_name c c' s h
mutate-sound (enables_target target_name enabled) c c' s h =
    set_target_enabled-sound target_name enabled c c' s h
mutate-sound (creates_group target_name group_name) c c' s h =
    create_group-sound target_name group_name c c' s h
mutate-sound (deletes_group target_name group_name force) c c' s h =
    delete_group-sound target_name group_name force c c' s h
mutate-sound (adds_lun target_name group_name n device_name read_only) c c' s h =
    add_lun-sound target_name group_name n device_name read_only c c' s h
mutate-sound (removes_lun target_name group_name n) c c' s h =
    remove_lun-sound target_name group_name n c c' s h
mutate-sound (creates_device handler_name device_name filename attrs) c c' s h =
    rw (sound-drivers c' c (create_device-drivers handler_name device_name filename attrs c c' h)) s
mutate-sound (deletes_device device_name) c c' s h =
    rw (sound-drivers c' c (delete_device-drivers device_name c c' h)) s
