-- ===== src/Scst/Sound/Targets.antt =====
-- Each change of one target keeps it sound.
use mathlib.Core.List.{append-nil, append_assoc}
use esos_webui.Common.{
  Bool, Bool-cases, List, Option-cases, String, [], any, ap, arith, false, find, if◌then◌else◌, inl,
  inr, or_else, refl, select, some, sym, trim, true, ℕ, ◌++◌, ◌∙◌, ◌∷◌, ◌≡◌,
}
use esos_webui.Scst.Types.{Lun, Group, Target}
use esos_webui.Scst.Luns.{
  whole, ValidateMapLunInput, group_luns, all_luns_on_target, named, has_id, lun_id_used_on_target,
  device_mapped_on_target, validate_map_lun, check_device, check_placement, lun_id_in_range,
}
use esos_webui.Scst.Types.{ScstConfig}
use esos_webui.Scst.Mutators.{edit_first, with_group}
use esos_webui.Scst.Distinct.{
  Sub, done, Sub-refl, Sub-append, Sub-drop, Sub-select, any-append, distinct, distinct-Sub,
  distinct-insert,
}
use esos_webui.Scst.Sound.{same_name, same_id, same_device, sound_target}
use esos_webui.Scst.Sound.Edits.{
  same_id_comm, same_device_comm, same_name_comm, distinct-edit_name, Sub-edit_luns,
  id_in_groups-free,
}

-- A target stays sound when its groups stay apart and it loses LUNs.
sound_target-fewer :
    (t u : Target)
    → distinct same_name u.groups ≡ true
    → Sub (all_luns_on_target u) (all_luns_on_target t)
    → sound_target t ≡ true
    → sound_target u ≡ true
unfolding sound_target
sound_target-fewer t u names luns h =
    ground (arith, names, distinct-Sub same_id luns, distinct-Sub same_device luns)

pub sound_target-names : (t : Target) → sound_target t ≡ true → distinct same_name t.groups ≡ true
unfolding sound_target
sound_target-names t h = ground arith

group_luns-fresh :
    (gs : List Group) (n : String)
    → Sub
        (group_luns (gs ++ (record { name = n; initiators = []; luns = [] } ∷ [])))
        (group_luns gs)
group_luns-fresh [] n = done
group_luns-fresh (g ∷ gs) n = Sub-append (Sub-refl g.luns) (group_luns-fresh gs n)

group_luns-select :
    (p : Group → Bool) (gs : List Group) → Sub (group_luns (select p gs)) (group_luns gs)
unfolding select
group_luns-select p [] = done
group_luns-select p (g ∷ gs) =
    elim (p g)
      as (λ b.
        Sub (group_luns (if b then g ∷ select p gs else select p gs)) (group_luns (g ∷ gs))) [
          | true ↦ Sub-append (Sub-refl g.luns) (group_luns-select p gs)
          | false ↦ Sub-drop g.luns (group_luns-select p gs)
        ]

pub sound_target-create_group :
    (t : Target) (n : String)
    → any (named n) t.groups ≡ false
    → sound_target t ≡ true
    → sound_target
        (record t { groups = t.groups ++ (record { name = n; initiators = []; luns = [] } ∷ []) })
      ≡ true
sound_target-create_group t n free h =
    let fresh : Group = record { name = n; initiators = []; luns = [] } in
    let e : t.groups ++ [] ≡ t.groups = append-nil t.groups in
    sound_target-fewer t _
      (distinct-insert same_name same_name_comm fresh t.groups []
        (ap (any (same_name fresh)) e ∙ free) (ap (distinct same_name) e ∙ sound_target-names t h))
      (Sub-append (Sub-refl t.luns) (group_luns-fresh t.groups n)) h

pub sound_target-delete_group :
    (t : Target) (p : Group → Bool)
    → sound_target t ≡ true
    → sound_target (record t { groups = select p t.groups }) ≡ true
sound_target-delete_group t p h =
    sound_target-fewer t _ (distinct-Sub same_name (Sub-select p t.groups) (sound_target-names t h))
      (Sub-append (Sub-refl t.luns) (group_luns-select p t.groups)) h

pub sound_target-remove_lun :
    (t : Target) (n : String) (p : Lun → Bool)
    → sound_target t ≡ true
    → sound_target (with_group n (λ g. record g { luns = select p g.luns }) t) ≡ true
unfolding with_group
sound_target-remove_lun t n p h =
    sound_target-fewer t _ (distinct-edit_name _ n t.groups (λ g. refl) (sound_target-names t h))
      (Sub-append (Sub-refl t.luns) (Sub-edit_luns _ n t.groups (λ g. Sub-select p g.luns))) h

-- Where a LUN that a group is given stands among the LUNs of the groups.
group_luns-add :
    (gs : List Group) (n : String) (g : Group) (l : Lun)
    → find (named n) gs ≡ some g
    → (xs : List Lun) × (ys : List Lun) × (group_luns gs ≡ xs ++ ys)
      × (group_luns (edit_first (named n) (λ g. record g { luns = g.luns ++ (l ∷ []) }) gs)
          ≡ xs ++ (l ∷ ys))
unfolding find edit_first
group_luns-add [] n g l h = absurd (ground arith)
group_luns-add (x ∷ gs) n g l h = elim (Bool-cases (named n x)) [
  | inl e ↦ (x.luns, group_luns gs, refl, rw (e) (append_assoc x.luns (l ∷ []) (group_luns gs)))
  | inr e ↦
      let (xs, ys, before, later) = group_luns-add gs n g l (ground arith) in
      (
        x.luns ++ xs,
        ys,
        ap (λ r. x.luns ++ r) before ∙ sym (append_assoc x.luns xs ys),
        rw (e) (ap (λ r. x.luns ++ r) later ∙ sym (append_assoc x.luns xs (l ∷ ys))),
      )
]

pub sound_target-add_lun :
    (t : Target) (n : String) (g : Group) (l : Lun)
    → find (named n) t.groups ≡ some g
    → any (has_id l.id) (all_luns_on_target t) ≡ false
    → device_mapped_on_target t l.device ≡ false
    → sound_target t ≡ true
    → sound_target (with_group n (λ g. record g { luns = g.luns ++ (l ∷ []) }) t) ≡ true
unfolding with_group device_mapped_on_target sound_target
sound_target-add_lun t n g l found new_id new_device h =
    let (xs, ys, before, later) = group_luns-add t.groups n g l found in
    let old : all_luns_on_target t ≡ t.luns ++ xs ++ ys =
      ap (λ r. t.luns ++ r) before ∙ sym (append_assoc t.luns xs ys) in
    let new : _ ≡ t.luns ++ xs ++ (l ∷ ys) =
      ap (λ r. t.luns ++ r) later ∙ sym (append_assoc t.luns xs (l ∷ ys)) in
    let ids =
      ap (distinct same_id) new
      ∙ distinct-insert same_id same_id_comm l (t.luns ++ xs) ys
          (ap (any (has_id l.id)) (sym old) ∙ new_id)
          (ap (distinct same_id) (sym old) ∙ ground arith) in
    let devices =
      ap (distinct same_device) new
      ∙ distinct-insert same_device same_device_comm l (t.luns ++ xs) ys
          (ap (any (same_device l)) (sym old) ∙ new_device)
          (ap (distinct same_device) (sym old) ∙ ground arith) in
    let names =
      distinct-edit_name (λ g. record g { luns = g.luns ++ (l ∷ []) }) n t.groups (λ g. refl)
        (sound_target-names t h) in
    ground (arith, ids, devices, names)

check_device-ok :
    (n : ℕ) (device_name : String) (read_only : Bool) (g : Group) (t : Target) (gn : String)
    (c : ScstConfig)
    → (check_device n device_name read_only g t gn c).ok ≡ true
    → (any (has_id n) g.luns ≡ false)
      × (lun_id_used_on_target t n gn ≡ false)
      × (device_mapped_on_target t device_name ≡ false)
unfolding check_device check_placement
check_device-ok n device_name read_only g t gn c h = (ground arith, ground arith, ground arith)

no_id :
    (t : Target) (n : ℕ) (gn : String) (g : Group)
    → sound_target t ≡ true
    → find (named gn) t.groups ≡ some g
    → any (has_id n) g.luns ≡ false
    → lun_id_used_on_target t n gn ≡ false
    → any (has_id n) (all_luns_on_target t) ≡ false
unfolding lun_id_used_on_target
no_id t n gn g s found own used = ground (
  arith,
  id_in_groups-free t.groups n gn g (sound_target-names t s) found own,
  any-append (has_id n) t.luns (group_luns t.groups),
)

-- What the checks of `validateMapLun` establish, when they pass.
pub validate_map_lun-ok :
    (input : ValidateMapLunInput) (c : ScstConfig) (t : Target) (gn : String) (n : ℕ)
    → input.lun_id ≡ whole n
    → sound_target t ≡ true
    → (validate_map_lun input c t gn).ok ≡ true
    → (g : Group) × (find (named gn) t.groups ≡ some g)
      × (any (has_id n) g.luns ≡ false)
      × (any (has_id n) (all_luns_on_target t) ≡ false)
      × (device_mapped_on_target t (trim (or_else input.device_name "")) ≡ false)
unfolding validate_map_lun lun_id_in_range
validate_map_lun-ok input c t gn n e s h = elim (Option-cases (find (named gn) t.groups)) [
  | inl missing ↦ absurd (ground arith)
  | inr (g, found) ↦
      let name = trim (or_else input.device_name "") in
      let (own, used, mapped) = check_device-ok n name input.read_only g t gn c (ground arith) in
      (g, found, own, no_id t n gn g s found own used, mapped)
]
