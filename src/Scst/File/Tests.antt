-- ===== src/Scst/File/Tests.antt =====
-- Operations on a small file, with one that is refused.
use esos_webui.Common.{List, String, [], all, is_space, none, refl, some, true, ◌∷◌, ◌≡◌}
use esos_webui.Scst.Types.{ScstConfig}
use esos_webui.Scst.Sound.Mutate.{Mutation, creates_target, creates_group, adds_lun, mutate}
use esos_webui.Scst.Conf.Printer.{serialize_scst_config}
use esos_webui.Scst.Conf.Printable.{printable}
use esos_webui.Scst.File.{read_scst_config, apply, run_all, apply_all, run_all-apply_all}
use esos_webui.Scst.File.Mutate.{admissible, mutate-printable}

abbrev disks : ScstConfig
disks = record {
  handlers =
      record {
        name = "vdisk_blockio";
        devices =
            record { name = "d0"; handler = "vdisk_blockio"; filename = "/dev/x"; attrs = [] } ∷ [];
      }
      ∷ [];
  drivers = [];
  device_groups = [];
}

abbrev wwn : String
wwn = "50:01:43:80:16:77:99:a0"

abbrev requests : List Mutation
requests =
    creates_target "qla2x00t" wwn
    ∷ creates_group wwn "hosts"
    ∷ creates_group wwn "hosts"
    ∷ adds_lun wwn "hosts" 4 " d0 " true
    ∷ []

run_tests :
    (apply_all requests disks).1 ≡ none ∷ none ∷ some "Le groupe \"hosts\" existe déjà" ∷ none ∷ []
unfolding apply_all
run_tests = refl

requests_named : all admissible requests ≡ true
unfolding all admissible is_space
requests_named = refl

disks-printable : printable disks ≡ true
unfolding printable is_space
disks-printable = refl

run_all-apply_all_example :
    (read_scst_config (run_all requests (serialize_scst_config disks)).0
      ≡ (apply_all requests disks).0)
    × ((run_all requests (serialize_scst_config disks)).1 ≡ (apply_all requests disks).1)
run_all-apply_all_example = run_all-apply_all requests disks requests_named disks-printable

mutate-printable_example : printable (apply (creates_target "qla2x00t" wwn) disks).0 ≡ true
unfolding mutate apply admissible is_space
mutate-printable_example =
    mutate-printable (creates_target "qla2x00t" wwn) disks
      (apply (creates_target "qla2x00t" wwn) disks).0 refl disks-printable refl
