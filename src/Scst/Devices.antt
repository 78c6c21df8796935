-- ===== src/Scst/Devices.antt =====
-- `createDevice` and `deleteDevice` of server/utils/scst-config-writer.ts.
use esos_webui.Common.{
  Bool, List, String, [], any, find, if◌then◌else◌, is_blank, is_empty, length, ltb, none, not,
  select, show, some, str_eq, template, trim, ◌&&◌, ◌++◌, ◌∷◌,
}
use esos_webui.Scst.Types.{Lun, Device, Handler, Target, Driver, ScstConfig}
use esos_webui.Scst.Luns.{is_device_name, all_luns_on_target}
use esos_webui.Scst.Mutators.{Update, written, threw, edit_first, drop_first}

abbrev pub is_handler : String → Handler → Bool
is_handler handler_name h = str_eq h.name handler_name

abbrev pub is_device : String → Device → Bool
is_device device_name d = str_eq d.name device_name

unfoldable pub has_device : String → Handler → Bool
unfolding any
has_device device_name h = any (is_device device_name) h.devices

abbrev pub add_device : Device → Handler → Handler
add_device d h = record h { devices = h.devices ++ (d ∷ []) }

unfoldable pub create_device :
    String → String → String → List (String × String) → ScstConfig → Update
unfolding is_device_name find has_device edit_first template trim
create_device handler_name device_name filename attrs c =
    let made : Device = record {
      name = device_name;
      handler = handler_name;
      filename = trim filename;
      attrs = attrs;
    } in
    if not (is_device_name device_name)
    then threw "Nom de device invalide (lettres, chiffres, _ et - uniquement)"
    else if not (str_eq handler_name "nullio") && is_blank (trim filename)
    then threw "Le chemin du fichier/périphérique est requis"
    else elim (find (is_handler handler_name) c.handlers) [
      | none ↦ written (record c {
        handlers = c.handlers ++ (record { name = handler_name; devices = made ∷ [] } ∷ []);
      })
      | some h ↦
          if has_device device_name h
          then threw (template ("Le device \"" ∷ device_name ∷ "\" existe déjà" ∷ []))
          else elim (find (λ d. str_eq (trim d.filename) (trim filename)) h.devices) [
            | some other ↦ threw (
                template (
                  "Le fichier \""
                  ∷ trim filename
                  ∷ "\" est déjà utilisé par le device FILEIO \""
                  ∷ other.name
                  ∷ "\""
                  ∷ []))
            | none ↦ written (record c {
              handlers = edit_first (is_handler handler_name) (add_device made) c.handlers;
            })
          ]
    ]

abbrev pub targets_luns : List Target → List Lun
targets_luns [] = []
targets_luns (t ∷ ts) = all_luns_on_target t ++ targets_luns ts

abbrev pub drivers_luns : List Driver → List Lun
drivers_luns [] = []
drivers_luns (d ∷ ds) = targets_luns d.targets ++ drivers_luns ds

-- The first handler that has the device loses it, and goes when it has no other.
unfoldable pub drop_device : String → List Handler → List Handler
unfolding has_device drop_first
drop_device device_name [] = []
drop_device device_name (h ∷ hs) =
    let rest = drop_device device_name hs in
    let kept = drop_first (is_device device_name) h.devices in
    if has_device device_name h
    then (if is_empty kept then hs else record h { devices = kept } ∷ hs)
    else h ∷ rest

unfoldable pub delete_device : String → ScstConfig → Update
unfolding select any has_device drop_device template show
delete_device device_name c =
    let lun_count = length (select (λ l. str_eq l.device device_name) (drivers_luns c.drivers)) in
    if ltb 0 lun_count
    then threw (
        template (
          "Le device \""
          ∷ device_name
          ∷ "\" est utilisé par "
          ∷ show lun_count
          ∷ " LUN(s) — retirez-le des groupes avant de le supprimer"
          ∷ []))
    else if any (has_device device_name) c.handlers
    then written (record c { handlers = drop_device device_name c.handlers })
    else threw (template ("Device \"" ∷ device_name ∷ "\" introuvable" ∷ []))
