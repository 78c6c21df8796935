-- ===== src/Scst/Referenced/Tests.antt =====
-- The removal of a device that no LUN shows, and the refusal of one that a LUN shows.
use esos_webui.Common.{List, String, [], false, refl, true, ◌∷◌, ◌≡◌}
use esos_webui.Scst.Types.{Device, ScstConfig}
use esos_webui.Scst.Mutators.{threw}
use esos_webui.Scst.Devices.{create_device, delete_device}
use esos_webui.Scst.Sound.Mutate.{deletes_device, mutate}
use esos_webui.Scst.Referenced.{referenced}
use esos_webui.Scst.Referenced.Mutate.{mutate-referenced}

abbrev disk : String → Device
disk n = record { name = n; handler = "nullio"; filename = ""; attrs = [] }

abbrev config : List Device → ScstConfig
config devices = record {
  handlers = record { name = "nullio"; devices = devices } ∷ [];
  drivers =
      record {
        name = "copy_manager";
        enabled = true;
        targets =
            record {
              name = "t";
              driver = "copy_manager";
              enabled = true;
              hw_target = false;
              attrs = [];
              groups = [];
              luns = record { id = 0; device = "d0"; read_only = false; attrs = [] } ∷ [];
              sessions = [];
            }
            ∷ [];
      }
      ∷ [];
  device_groups = [];
}

device_tests :
    (delete_device "d0" (config (disk "d0" ∷ []))
      ≡ threw
          "Le device \"d0\" est utilisé par 1 LUN(s) — retirez-le des groupes avant de le supprimer")
    × (create_device "nullio" "d1" "" [] (config (disk "d0" ∷ []))
        ≡ threw "Le fichier \"\" est déjà utilisé par le device FILEIO \"d0\"")
unfolding delete_device create_device
device_tests = (refl, refl)

mutate-referenced_example : referenced (config (disk "d0" ∷ [])) ≡ true
unfolding referenced mutate delete_device
mutate-referenced_example =
    mutate-referenced (deletes_device "d1") (config (disk "d0" ∷ disk "d1" ∷ []))
      (config (disk "d0" ∷ [])) refl refl
