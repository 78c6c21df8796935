-- ===== src/Scst/File/Updates.antt =====
-- The configuration that an operation of server/utils/scst-config-writer.ts writes is printable.
use text.Mathlib.TextEquality.{eq_iff}
use esos_webui.Common.{
  Bool, Bool-cases, Option-cases, String, [], all, and_split, ap, arith, find, inl, inr, none, not,
  or_else, refl, select, some, sym, trim, true, ℕ, ◌++◌, ◌∙◌, ◌∷◌, ◌≡◌,
}
use esos_webui.Scst.Types.{Lun, Group, Target, Driver, ScstConfig}
use esos_webui.Scst.Luns.{
  ValidateMapLunInput, whole, named, has_id, is_device_name, validate_map_lun, check_device,
  lun_id_in_range,
}
use esos_webui.Scst.Names.{validate_group_name, target_name_error}
use esos_webui.Scst.Mutators.{
  written, edit_first, drop_first, is_target, has_target, find_target_in_config, not_found,
  with_group, new_target, add_target, is_driver, create_target, delete_target, set_target_enabled,
  create_group, delete_group, add_lun_to_group, remove_lun_from_group,
}
use esos_webui.Scst.Conf.Phrases.{is_word}
use esos_webui.Scst.Conf.Printable.{
  printable_attrs, printable_attrs, printable_handler, printable_lun, printable_group,
  printable_target, printable_driver, printable,
}
use esos_webui.Scst.File.Words.{
  target_name-word, group_name-word, device_name-word, device_name-opens,
}
use esos_webui.Scst.Kept.{all-drop, all-select, all-push}
use esos_webui.Scst.File.Kept.{
  drivers_printable, with_target-printable, groups-keeps, with_group-keeps,
}

pub set_target_enabled-printable :
    (n : String) (enabled : Bool) (c c' : ScstConfig)
    → printable c ≡ true
    → set_target_enabled n enabled c ≡ written c'
    → printable c' ≡ true
unfolding set_target_enabled not_found printable_target
set_target_enabled-printable n enabled c c' s h =
    let kept =
      with_target-printable n (λ t. record t { enabled = enabled }) c (λ driver t ok. ok) s in
    ground arith

pub delete_target-printable :
    (n : String) (c c' : ScstConfig)
    → printable c ≡ true
    → delete_target n c ≡ written c'
    → printable c' ≡ true
unfolding delete_target not_found printable_driver
delete_target-printable n c c' s h =
    let kept =
      drivers_printable (has_target n)
        (λ d. record d { targets = drop_first (is_target n) d.targets }) c
        (λ d _ ok.
          let (w, ts) = and_split (is_word d.name) (all (printable_target d.name) d.targets) ok in
          rw w (all-drop (printable_target d.name) (is_target n) d.targets ts))
        s in
    ground arith

pub create_group-printable :
    (n gn : String) (c c' : ScstConfig)
    → printable c ≡ true
    → create_group n gn c ≡ written c'
    → printable c' ≡ true
unfolding create_group not_found printable_group all
create_group-printable n gn c c' s h = elim (Option-cases (validate_group_name gn)) [
  | inl bad ↦ absurd (ground arith)
  | inr (g, valid) ↦ elim (Option-cases (find_target_in_config c.drivers n)) [
    | inl missing ↦ absurd (ground arith)
    | inr (t, found) ↦
        let made : Group = record { name = g; initiators = []; luns = [] } in
        let ok : printable_group made ≡ true = rw (group_name-word gn g valid) refl in
        let kept =
          with_target-printable n (λ t. record t { groups = t.groups ++ made ∷ [] }) c
            (groups-keeps (λ gs. gs ++ made ∷ [])
              (λ gs all_ok. all-push printable_group made gs all_ok ok))
            s in
        ground arith
  ]
]

pub delete_group-printable :
    (n gn : String) (force : Bool) (c c' : ScstConfig)
    → printable c ≡ true
    → delete_group n gn force c ≡ written c'
    → printable c' ≡ true
unfolding delete_group not_found
delete_group-printable n gn force c c' s h =
    elim (Option-cases (find_target_in_config c.drivers n)) [
      | inl missing ↦ absurd (ground arith)
      | inr (t, found) ↦
          let kept =
            with_target-printable n
              (λ t. record t { groups = select (λ g. not (named gn g)) t.groups }) c
              (groups-keeps (select (λ g. not (named gn g))) (all-select printable_group _)) s in
          ground arith
    ]

-- A mapping that passes its checks names a device that may stand in a LUN's line.
valid_device :
    (input : ValidateMapLunInput) (c : ScstConfig) (t : Target) (gn : String)
    → (validate_map_lun input c t gn).ok ≡ true
    → is_device_name (trim (or_else input.device_name "")) ≡ true
unfolding validate_map_lun check_device
valid_device input c t gn h = elim (Option-cases (find (named gn) t.groups)) [
  | inl missing ↦ absurd (ground arith)
  | inr (g, found) ↦ elim (Option-cases (lun_id_in_range input.lun_id)) [
    | inl bad ↦ absurd (ground arith)
    | inr (n, whole_number) ↦ ground arith
  ]
]

pub add_lun-printable :
    (n gn : String) (i : ℕ) (dev : String) (read_only : Bool) (c c' : ScstConfig)
    → printable c ≡ true
    → add_lun_to_group n gn i dev read_only c ≡ written c'
    → printable c' ≡ true
unfolding add_lun_to_group not_found printable_lun
add_lun-printable n gn i dev read_only c c' s h =
    elim (Option-cases (find_target_in_config c.drivers n)) [
      | inl missing ↦ absurd (ground arith)
      | inr (t, found) ↦
          let input : ValidateMapLunInput = record {
            lun_id = whole i;
            device_name = some dev;
            read_only = read_only;
          } in
          let name_ok : is_device_name (trim dev) ≡ true =
            valid_device input c t gn (ground arith) in
          let lun : Lun = record { id = i; device = trim dev; read_only = read_only; attrs = [] } in
          let ok : printable_lun lun ≡ true =
            rw (device_name-word (trim dev) name_ok, device_name-opens (trim dev) name_ok) refl in
          let kept =
            with_target-printable n (with_group gn (λ g. record g { luns = g.luns ++ (lun ∷ []) }))
              c
              (with_group-keeps gn (λ ls. ls ++ lun ∷ [])
                (λ ls all_ok. all-push printable_lun lun ls all_ok ok))
              s in
          ground arith
    ]

pub remove_lun-printable :
    (n gn : String) (i : ℕ) (c c' : ScstConfig)
    → printable c ≡ true
    → remove_lun_from_group n gn i c ≡ written c'
    → printable c' ≡ true
unfolding remove_lun_from_group not_found
remove_lun-printable n gn i c c' s h = elim (Option-cases (find_target_in_config c.drivers n)) [
  | inl missing ↦ absurd (ground arith)
  | inr (t, found) ↦
      let kept =
        with_target-printable n
          (with_group gn (λ g. record g { luns = select (λ l. not (has_id i l)) g.luns })) c
          (with_group-keeps gn (select (λ l. not (has_id i l))) (all-select printable_lun _)) s in
      ground arith
]

new_target-printable :
    (dn n : String) → target_name_error n dn ≡ none → printable_target dn (new_target dn n) ≡ true
unfolding printable_target printable_attrs all
new_target-printable dn n valid = rw (target_name-word n dn valid, (eq_iff dn dn).1 refl) refl

-- The driver that `createTarget` finds, with the new target.
add_target-printable :
    (dn n : String) (d : Driver)
    → target_name_error n dn ≡ none
    → is_driver dn d ≡ true
    → printable_driver d ≡ true
    → printable_driver (add_target (new_target dn n) d) ≡ true
unfolding printable_driver
add_target-printable dn n d valid named_so ok =
    let (w, ts) = and_split (is_word d.name) (all (printable_target d.name) d.targets) ok in
    let same : dn ≡ d.name = sym ((eq_iff d.name dn).0 named_so) in
    let new_ok : printable_target d.name (new_target dn n) ≡ true =
      ap (λ x. printable_target x (new_target dn n)) (sym same) ∙ new_target-printable dn n valid in
    rw w (all-push (printable_target d.name) (new_target dn n) d.targets ts new_ok)

pub create_target-printable :
    (dn n : String) (c c' : ScstConfig)
    → is_word dn ≡ true
    → printable c ≡ true
    → create_target dn n c ≡ written c'
    → printable c' ≡ true
unfolding create_target printable printable_driver all
create_target-printable dn n c c' w s h = elim (Option-cases (target_name_error n dn)) [
  | inr (message, bad) ↦ absurd (cc (rw (create_target, bad) at h))
  | inl valid ↦ elim (Option-cases (find (is_driver dn) c.drivers)) [
    | inl missing ↦
        let (handlers, s1) = and_split (all printable_handler c.handlers) _ s in
        let (drivers, groups) = and_split (all printable_driver c.drivers) _ s1 in
        let made : Driver = record { name = dn; enabled = true; targets = new_target dn n ∷ [] } in
        let made_ok : printable_driver made ≡ true = rw (w, new_target-printable dn n valid) refl in
        let after : ScstConfig = record c { drivers = c.drivers ++ made ∷ [] } in
        let same : after ≡ c' = cc (rw (create_target, valid, missing) at h) in
        let kept : printable after ≡ true =
          rw (handlers, all-push printable_driver made c.drivers drivers made_ok) groups in
        ap printable (sym same) ∙ kept
    | inr (d, found) ↦ elim (Bool-cases (has_target n d)) [
      | inl taken ↦ absurd (cc (rw (create_target, valid, found, taken) at h))
      | inr free ↦
          let kept =
            drivers_printable (is_driver dn) (add_target (new_target dn n)) c
              (λ x named_so ok. add_target-printable dn n x valid named_so ok) s in
          let after : ScstConfig = record c {
            drivers = edit_first (is_driver dn) (add_target (new_target dn n)) c.drivers;
          } in
          let same : after ≡ c' = cc (rw (create_target, valid, found, free) at h) in
          ap printable (sym same) ∙ kept
    ]
  ]
]
