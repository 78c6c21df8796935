-- ===== src/Scst/Sound/Updates.antt =====
-- Every operation on the configuration keeps it sound.
use esos_webui.Common.{
  Bool, List, Option-cases, String, [], all, all-append, all-find, any, arith, false, find,
  find-none→any, find-some→any, inl, inr, not, refl, select, some, trim, true, ℕ, ◌++◌, ◌∷◌, ◌≡◌,
}
use esos_webui.Scst.Types.{Lun, Target, Driver, ScstConfig}
use esos_webui.Scst.Luns.{ValidateMapLunInput, whole, named, has_id}
use esos_webui.Scst.Names.{validate_group_name}
use esos_webui.Scst.Mutators.{
  written, edit_first, drop_first, is_target, has_target, find_target_in_config, not_found,
  with_target, with_group, new_target, add_target, is_driver, create_target, delete_target,
  set_target_enabled, create_group, delete_group, add_lun_to_group, remove_lun_from_group,
}
use esos_webui.Scst.Distinct.{distinct}
use esos_webui.Scst.Sound.{sound_target, sound_driver, sound}
use esos_webui.Scst.Sound.Edits.{all-edit_found, all-edit_first}
use esos_webui.Scst.Sound.Targets.{
  sound_target-create_group, sound_target-delete_group, sound_target-remove_lun,
  sound_target-add_lun, validate_map_lun-ok,
}

pub found_sound :
    (ds : List Driver) (n : String) (t : Target)
    → find_target_in_config ds n ≡ some t
    → all sound_driver ds ≡ true
    → sound_target t ≡ true
unfolding find_target_in_config all sound_driver
found_sound [] n t found h = absurd (ground arith)
found_sound (d ∷ ds) n t found h = elim (Option-cases (find (is_target n) d.targets)) [
  | inl missing ↦ found_sound ds n t (ground arith) (ground arith)
  | inr (u, here) ↦ all-find (is_target n) sound_target d.targets t (ground arith) (ground arith)
]

drivers_sound :
    (ds : List Driver) (n : String) (t : Target) (f : Target → Target)
    → find_target_in_config ds n ≡ some t
    → sound_target (f t) ≡ true
    → all sound_driver ds ≡ true
    → all sound_driver (
        edit_first
          (has_target n)
          (λ d. record d { targets = edit_first (is_target n) f d.targets })
          ds)
      ≡ true
unfolding find_target_in_config all edit_first has_target sound_driver
drivers_sound [] n t f found kept h = h
drivers_sound (d ∷ ds) n t f found kept h = elim (Option-cases (find (is_target n) d.targets)) [
  | inl missing ↦
      ground (arith, find-none→any (is_target n) d.targets missing, drivers_sound ds n t f)
  | inr (u, here) ↦
      let same : u ≡ t = ground arith in
      ground (
        arith,
        find-some→any (is_target n) d.targets u here,
        all-edit_found (is_target n) sound_target f d.targets t,
      )
]

with_target-sound :
    (c : ScstConfig) (n : String) (t : Target) (f : Target → Target)
    → find_target_in_config c.drivers n ≡ some t
    → (sound_target t ≡ true → sound_target (f t) ≡ true)
    → sound c ≡ true
    → sound (with_target n f c) ≡ true
unfolding sound with_target
with_target-sound c n t f found kept h =
    drivers_sound c.drivers n t f found (kept (found_sound c.drivers n t found h)) h

pub set_target_enabled-sound :
    (n : String) (enabled : Bool) (c c' : ScstConfig)
    → sound c ≡ true
    → set_target_enabled n enabled c ≡ written c'
    → sound c' ≡ true
unfolding set_target_enabled sound sound_driver with_target not_found
set_target_enabled-sound n enabled c c' s h =
    let kept =
      all-edit_first (has_target n) sound_driver
        (λ d. record d {
          targets = edit_first (is_target n) (λ t. record t { enabled = enabled }) d.targets;
        })
        c.drivers (λ d k. all-edit_first (is_target n) sound_target _ d.targets (λ t r. r) k) s in
    ground arith

drop_sound :
    (p : Target → Bool) (ts : List Target)
    → all sound_target ts ≡ true
    → all sound_target (drop_first p ts) ≡ true
unfolding all drop_first
drop_sound p [] h = h
drop_sound p (t ∷ ts) h = ground (arith, drop_sound p ts)

pub delete_target-sound :
    (n : String) (c c' : ScstConfig)
    → sound c ≡ true
    → delete_target n c ≡ written c'
    → sound c' ≡ true
unfolding delete_target sound sound_driver not_found
delete_target-sound n c c' s h =
    let kept =
      all-edit_first (has_target n) sound_driver
        (λ d. record d { targets = drop_first (is_target n) d.targets }) c.drivers
        (λ d k. drop_sound (is_target n) d.targets k) s in
    ground arith

add_target_sound :
    (dn n : String) (d : Driver)
    → sound_driver d ≡ true
    → sound_driver (add_target (new_target dn n) d) ≡ true
unfolding sound_driver all sound_target distinct
add_target_sound dn n d h = ground (arith, all-append sound_target d.targets (new_target dn n ∷ []))

pub create_target-sound :
    (dn n : String) (c c' : ScstConfig)
    → sound c ≡ true
    → create_target dn n c ≡ written c'
    → sound c' ≡ true
unfolding create_target sound sound_driver
create_target-sound dn n c c' s h = elim (Option-cases (find (is_driver dn) c.drivers)) [
  | inl missing ↦
      let kept =
        all-append sound_driver c.drivers
          (record { name = dn; enabled = true; targets = new_target dn n ∷ [] } ∷ []) in
      ground arith
  | inr (d, found) ↦
      let kept =
        all-edit_first (is_driver dn) sound_driver (add_target (new_target dn n)) c.drivers
          (add_target_sound dn n) s in
      ground arith
]

pub create_group-sound :
    (n gn : String) (c c' : ScstConfig)
    → sound c ≡ true
    → create_group n gn c ≡ written c'
    → sound c' ≡ true
unfolding create_group not_found
create_group-sound n gn c c' s h = elim (Option-cases (validate_group_name gn)) [
  | inl bad ↦ absurd (ground arith)
  | inr (g, valid) ↦ elim (Option-cases (find_target_in_config c.drivers n)) [
    | inl missing ↦ absurd (ground arith)
    | inr (t, found) ↦
        let free : any (named g) t.groups ≡ false = ground arith in
        let kept =
          with_target-sound c n t
            (λ t. record t {
              groups = t.groups ++ (record { name = g; initiators = []; luns = [] } ∷ []);
            })
            found (sound_target-create_group t g free) s in
        ground arith
  ]
]

pub delete_group-sound :
    (n gn : String) (force : Bool) (c c' : ScstConfig)
    → sound c ≡ true
    → delete_group n gn force c ≡ written c'
    → sound c' ≡ true
unfolding delete_group not_found
delete_group-sound n gn force c c' s h = elim (Option-cases (find_target_in_config c.drivers n)) [
  | inl missing ↦ absurd (ground arith)
  | inr (t, found) ↦
      let kept =
        with_target-sound c n t (λ t. record t { groups = select (λ g. not (named gn g)) t.groups })
          found (sound_target-delete_group t _) s in
      ground arith
]

pub add_lun-sound :
    (n gn : String) (i : ℕ) (dev : String) (read_only : Bool) (c c' : ScstConfig)
    → sound c ≡ true
    → add_lun_to_group n gn i dev read_only c ≡ written c'
    → sound c' ≡ true
unfolding add_lun_to_group not_found all sound
add_lun-sound n gn i dev read_only c c' s h =
    elim (Option-cases (find_target_in_config c.drivers n)) [
      | inl missing ↦ absurd (ground arith)
      | inr (t, found) ↦
          let input : ValidateMapLunInput = record {
            lun_id = whole i;
            device_name = some dev;
            read_only = read_only;
          } in
          let (g, here, own, new_id, new_device) =
            validate_map_lun-ok input c t gn i refl (found_sound c.drivers n t found s)
              (ground arith) in
          let lun : Lun = record { id = i; device = trim dev; read_only = read_only; attrs = [] } in
          let kept =
            with_target-sound c n t (with_group gn (λ g. record g { luns = g.luns ++ (lun ∷ []) }))
              found (sound_target-add_lun t gn g lun here new_id new_device) s in
          ground arith
    ]

pub remove_lun-sound :
    (n gn : String) (i : ℕ) (c c' : ScstConfig)
    → sound c ≡ true
    → remove_lun_from_group n gn i c ≡ written c'
    → sound c' ≡ true
unfolding remove_lun_from_group not_found
remove_lun-sound n gn i c c' s h = elim (Option-cases (find_target_in_config c.drivers n)) [
  | inl missing ↦ absurd (ground arith)
  | inr (t, found) ↦
      let kept =
        with_target-sound c n t
          (with_group gn (λ g. record g { luns = select (λ l. not (has_id i l)) g.luns })) found
          (sound_target-remove_lun t gn _) s in
      ground arith
]
