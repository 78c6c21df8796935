-- ===== src/Scst/Referenced/Updates.antt =====
-- Each operation on the configuration keeps its LUNs on devices that are there.
use esos_webui.Common.{
  Bool, List, Option-cases, String, [], all, any, ap, arith, find, inl, inr, not, or_else, refl,
  select, some, sym, trim, true, ℕ, ◌++◌, ◌∙◌, ◌∷◌, ◌≡◌,
}
use esos_webui.Scst.Types.{Lun, Group, Target, Driver, Handler, ScstConfig}
use esos_webui.Scst.Luns.{
  ValidateMapLunInput, whole, named, has_id, find_device, validate_map_lun, check_device,
  lun_id_in_range,
}
use esos_webui.Scst.Names.{validate_group_name}
use esos_webui.Scst.Mutators.{
  written, drop_first, is_target, has_target, find_target_in_config, not_found, with_target,
  with_group, new_target, add_target, is_driver, create_target, delete_target, set_target_enabled,
  create_group, delete_group, add_lun_to_group, remove_lun_from_group,
}
use esos_webui.Scst.Devices.{has_device, create_device, drivers_luns, drop_device, delete_device}
use esos_webui.Scst.Sound.Devices.{create_device-written, delete_device-written}
use esos_webui.Scst.Kept.{all-edit, all-drop, all-select, all-push}
use esos_webui.Scst.Referenced.{
  has_defined, referenced_group, referenced_target, referenced_driver, referenced,
}
use esos_webui.Scst.Referenced.Edits.{
  Keeps, drivers_referenced, groups-keep, with_group-keep, all-drivers_luns, all-weaken, all-imply,
  any-add_device, any-handlers, any-drop_device, find_device-any,
}

with_target-referenced :
    (n : String) (f : Target → Target) (c : ScstConfig)
    → Keeps (has_defined c.handlers) f
    → referenced c ≡ true
    → referenced (with_target n f c) ≡ true
unfolding with_target referenced
with_target-referenced n f c k h = drivers_referenced (has_defined c.handlers) n f c.drivers k h

pub set_target_enabled-referenced :
    (n : String) (enabled : Bool) (c c' : ScstConfig)
    → referenced c ≡ true
    → set_target_enabled n enabled c ≡ written c'
    → referenced c' ≡ true
unfolding set_target_enabled not_found referenced_target
set_target_enabled-referenced n enabled c c' s h =
    let kept = with_target-referenced n (λ t. record t { enabled = enabled }) c (λ t ok. ok) s in
    ground arith

pub delete_target-referenced :
    (n : String) (c c' : ScstConfig)
    → referenced c ≡ true
    → delete_target n c ≡ written c'
    → referenced c' ≡ true
unfolding delete_target not_found referenced referenced_driver
delete_target-referenced n c c' s h =
    let p = has_defined c.handlers in
    let kept =
      all-edit (referenced_driver p) (has_target n)
        (λ d. record d { targets = drop_first (is_target n) d.targets }) c.drivers
        (λ d _ ok. all-drop (referenced_target p) (is_target n) d.targets ok) s in
    ground arith

pub create_group-referenced :
    (n gn : String) (c c' : ScstConfig)
    → referenced c ≡ true
    → create_group n gn c ≡ written c'
    → referenced c' ≡ true
unfolding create_group not_found referenced_group all
create_group-referenced n gn c c' s h = elim (Option-cases (validate_group_name gn)) [
  | inl bad ↦ absurd (ground arith)
  | inr (g, valid) ↦ elim (Option-cases (find_target_in_config c.drivers n)) [
    | inl missing ↦ absurd (ground arith)
    | inr (t, found) ↦
        let made : Group = record { name = g; initiators = []; luns = [] } in
        let p = has_defined c.handlers in
        let kept =
          with_target-referenced n (λ t. record t { groups = t.groups ++ made ∷ [] }) c
            (groups-keep p (λ gs. gs ++ made ∷ [])
              (λ gs ok. all-push (referenced_group p) made gs ok refl))
            s in
        ground arith
  ]
]

pub delete_group-referenced :
    (n gn : String) (force : Bool) (c c' : ScstConfig)
    → referenced c ≡ true
    → delete_group n gn force c ≡ written c'
    → referenced c' ≡ true
unfolding delete_group not_found
delete_group-referenced n gn force c c' s h =
    elim (Option-cases (find_target_in_config c.drivers n)) [
      | inl missing ↦ absurd (ground arith)
      | inr (t, found) ↦
          let p = has_defined c.handlers in
          let kept =
            with_target-referenced n
              (λ t. record t { groups = select (λ g. not (named gn g)) t.groups }) c
              (groups-keep p (select (λ g. not (named gn g))) (all-select (referenced_group p) _))
              s in
          ground arith
    ]

-- A mapping that passes its checks names a device that is there.
known_device :
    (input : ValidateMapLunInput) (c : ScstConfig) (t : Target) (gn : String)
    → (validate_map_lun input c t gn).ok ≡ true
    → any (has_device (trim (or_else input.device_name ""))) c.handlers ≡ true
unfolding validate_map_lun check_device
known_device input c t gn h =
    let name = trim (or_else input.device_name "") in
    elim (Option-cases (find_device c.handlers name)) [
      | inr (r, device) ↦ find_device-any name c.handlers r device
      | inl missing ↦ elim (Option-cases (find (named gn) t.groups)) [
        | inl none_such ↦ absurd (ground arith)
        | inr (g, found) ↦ elim (Option-cases (lun_id_in_range input.lun_id)) [
          | inl bad ↦ absurd (ground arith)
          | inr (n, whole_number) ↦ absurd (ground arith)
        ]
      ]
    ]

pub add_lun-referenced :
    (n gn : String) (i : ℕ) (dev : String) (read_only : Bool) (c c' : ScstConfig)
    → referenced c ≡ true
    → add_lun_to_group n gn i dev read_only c ≡ written c'
    → referenced c' ≡ true
unfolding add_lun_to_group not_found has_defined
add_lun-referenced n gn i dev read_only c c' s h =
    elim (Option-cases (find_target_in_config c.drivers n)) [
      | inl missing ↦ absurd (ground arith)
      | inr (t, found) ↦
          let input : ValidateMapLunInput = record {
            lun_id = whole i;
            device_name = some dev;
            read_only = read_only;
          } in
          let p = has_defined c.handlers in
          let known : any (has_device (trim dev)) c.handlers ≡ true =
            known_device input c t gn (ground arith) in
          let lun : Lun = record { id = i; device = trim dev; read_only = read_only; attrs = [] } in
          let kept =
            with_target-referenced n (with_group gn (λ g. record g { luns = g.luns ++ (lun ∷ []) }))
              c (with_group-keep p gn (λ ls. ls ++ lun ∷ []) (λ ls ok. all-push p lun ls ok known))
              s in
          ground arith
    ]

pub remove_lun-referenced :
    (n gn : String) (i : ℕ) (c c' : ScstConfig)
    → referenced c ≡ true
    → remove_lun_from_group n gn i c ≡ written c'
    → referenced c' ≡ true
unfolding remove_lun_from_group not_found
remove_lun-referenced n gn i c c' s h = elim (Option-cases (find_target_in_config c.drivers n)) [
  | inl missing ↦ absurd (ground arith)
  | inr (t, found) ↦
      let p = has_defined c.handlers in
      let kept =
        with_target-referenced n
          (with_group gn (λ g. record g { luns = select (λ l. not (has_id i l)) g.luns })) c
          (with_group-keep p gn (select (λ l. not (has_id i l))) (all-select p _)) s in
      ground arith
]

pub create_target-referenced :
    (dn n : String) (c c' : ScstConfig)
    → referenced c ≡ true
    → create_target dn n c ≡ written c'
    → referenced c' ≡ true
unfolding create_target referenced referenced_driver referenced_target all
create_target-referenced dn n c c' s h = elim (Option-cases (find (is_driver dn) c.drivers)) [
  | inl missing ↦
      let p = has_defined c.handlers in
      let made : Driver = record { name = dn; enabled = true; targets = new_target dn n ∷ [] } in
      let kept = all-push (referenced_driver p) made c.drivers s refl in ground arith
  | inr (d, found) ↦
      let p = has_defined c.handlers in
      let kept =
        all-edit (referenced_driver p) (is_driver dn) (add_target (new_target dn n)) c.drivers
          (λ x _ ok. all-push (referenced_target p) (new_target dn n) x.targets ok refl) s in
      ground arith
]

-- A change of the handlers that keeps the devices that the LUNs show.
handlers_referenced :
    (hs : List Handler) (c : ScstConfig)
    → (all (has_defined c.handlers) (drivers_luns c.drivers) ≡ true
        → all (has_defined hs) (drivers_luns c.drivers) ≡ true)
    → referenced c ≡ true
    → referenced (record c { handlers = hs }) ≡ true
unfolding referenced
handlers_referenced hs c k h =
    sym (all-drivers_luns (has_defined hs) c.drivers)
    ∙ k (all-drivers_luns (has_defined c.handlers) c.drivers ∙ h)

pub create_device-referenced :
    (hn dn file : String) (attrs : List (String × String)) (c c' : ScstConfig)
    → referenced c ≡ true
    → create_device hn dn file attrs c ≡ written c'
    → referenced c' ≡ true
unfolding has_defined
create_device-referenced hn dn file attrs c c' s h =
    elim ((create_device-written hn dn file attrs c c' h).1) [
      | inl e ↦
          ap referenced (sym e)
          ∙ handlers_referenced _ c
              (all-imply (has_defined c.handlers) _ (drivers_luns c.drivers)
                (λ l. any-handlers l.device c.handlers _))
              s
      | inr e ↦
          ap referenced (sym e)
          ∙ handlers_referenced _ c
              (all-imply (has_defined c.handlers) _ (drivers_luns c.drivers)
                (λ l. any-add_device l.device hn _ c.handlers))
              s
    ]

pub delete_device-referenced :
    (dn : String) (c c' : ScstConfig)
    → referenced c ≡ true
    → delete_device dn c ≡ written c'
    → referenced c' ≡ true
unfolding has_defined
delete_device-referenced dn c c' s h =
    let (unused, e) = delete_device-written dn c c' h in
    ap referenced (sym e)
    ∙ handlers_referenced (drop_device dn c.handlers) c
        (all-weaken (has_defined c.handlers) (has_defined (drop_device dn c.handlers)) dn
          (drivers_luns c.drivers) (λ l other. any-drop_device l.device dn c.handlers other) unused)
        s
