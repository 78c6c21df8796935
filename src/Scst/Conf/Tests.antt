-- ===== src/Scst/Conf/Tests.antt =====
-- A configuration and its text, by the reader and the writer.
use esos_webui.Common.{
  List, String, [], false, is_digit, is_space, refl, trim_start, true, ◌∷◌, ◌≡◌,
}
use esos_webui.Scst.Types.{ScstConfig, Driver}
use esos_webui.Scst.Conf.Words.{name_of}
use esos_webui.Scst.Conf.Parser.{parse_scst_conf_safe, parse_scst_conf}
use esos_webui.Scst.Conf.Printer.{serialize_scst_config}
use esos_webui.Scst.Conf.Printable.{printable}
use esos_webui.Scst.Conf.Safe.{parse_scst_conf_safe-parse_scst_conf}
use esos_webui.Scst.Conf.Lost.{parse_scst_conf-loses_attrs}
use esos_webui.Scst.Conf.RoundTrip.{parse_scst_conf-serialize_scst_config}

abbrev text : String
text =
    "# a comment\nHANDLER vdisk_blockio {\n\tDEVICE d0 {\n\t\tfilename \"/dev/x\"\n\t\tt10_dev_id a b\n\t}\n}\n\nTARGET_DRIVER iscsi {\n\tenabled 0\n\tTARGET iqn:t {\n\t\tHW_TARGET\n\t\trel_tgt_id 1\n\t\tGROUP hosts {\n\t\t\tINITIATOR *\n\t\t\tLUN 12 d0 {\n\t\t\t\tread_only 1\n\t\t\t}\n\t\t}\n\t\tLUN 0 d0\n\t}\n}\nDEVICE_GROUP g {\n\tDEVICE d0\n\tTARGET_GROUP local {\n\t\tgroup_id 3\n\t\tTARGET iqn:t\n\t}\n}\n"

-- A driver whose LUN 12 has the given attributes.
abbrev iscsi : List (String × String) → Driver
iscsi attrs = record {
  name = "iscsi";
  enabled = false;
  targets =
      record {
        name = "iqn:t";
        driver = "iscsi";
        enabled = true;
        hw_target = true;
        attrs = ("rel_tgt_id", "1") ∷ [];
        groups =
            record {
              name = "hosts";
              initiators = "*" ∷ [];
              luns = record { id = 12; device = "d0"; read_only = true; attrs = attrs } ∷ [];
            }
            ∷ [];
        luns = record { id = 0; device = "d0"; read_only = false; attrs = [] } ∷ [];
        sessions = [];
      }
      ∷ [];
}

abbrev config : ScstConfig
config = record {
  handlers =
      record {
        name = "vdisk_blockio";
        devices =
            record {
              name = "d0";
              handler = "vdisk_blockio";
              filename = "/dev/x";
              attrs = ("t10_dev_id", "a b") ∷ [];
            }
            ∷ [];
      }
      ∷ [];
  drivers = iscsi [] ∷ [];
  device_groups =
      record {
        name = "g";
        devices = "d0" ∷ [];
        target_groups = record { name = "local"; group_id = 3; targets = "iqn:t" ∷ [] } ∷ [];
      }
      ∷ [];
}

parse_tests : parse_scst_conf text ≡ config
unfolding parse_scst_conf is_space is_digit trim_start name_of
parse_tests = refl

config-printable : printable config ≡ true
unfolding printable is_space is_digit
config-printable = refl

parse_scst_conf-serialize_scst_config_example :
    parse_scst_conf (serialize_scst_config config) ≡ config
parse_scst_conf-serialize_scst_config_example =
    parse_scst_conf-serialize_scst_config config config-printable

parse_scst_conf_safe-parse_scst_conf_example :
    parse_scst_conf_safe " \n\t" ≡ parse_scst_conf " \n\t"
parse_scst_conf_safe-parse_scst_conf_example = parse_scst_conf_safe-parse_scst_conf " \n\t"

abbrev labelled : ScstConfig
labelled = record config { drivers = iscsi (("threads_num", "4") ∷ []) ∷ [] }

parse_scst_conf-loses_attrs_example : parse_scst_conf (serialize_scst_config labelled) ≡ config
parse_scst_conf-loses_attrs_example = parse_scst_conf-loses_attrs labelled config-printable
