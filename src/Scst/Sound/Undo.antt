-- ===== src/Scst/Sound/Undo.antt =====
-- Taking back a LUN that was added gives the configuration that was there before.
use esos_webui.Common.{
  Bool, List, Option-cases, String, [], all, any, ap, arith, false, find, find-none→any,
  find-some→any, find→true, inl, inr, not, refl, select, some, trim, true, ℕ, ◌++◌, ◌∙◌, ◌∷◌, ◌≡◌,
}
use esos_webui.Scst.Types.{Lun, Group, Target, Driver, ScstConfig}
use esos_webui.Scst.Luns.{ValidateMapLunInput, whole, named, has_id, validate_unmap_lun, numbered}
use esos_webui.Scst.Mutators.{
  written, edit_first, is_target, has_target, find_target_in_config, not_found, with_target,
  with_group, add_lun_to_group, remove_lun_from_group,
}
use esos_webui.Scst.Distinct.{any-append}
use esos_webui.Scst.Sound.{sound}
use esos_webui.Scst.Sound.Updates.{found_sound}
use esos_webui.Scst.Sound.Targets.{validate_map_lun-ok}

module _ {ℓ} {A : Type ℓ} (p : A → Bool) (f : A → A) (a : A) where
  find-edit_first :
      (xs : List A) → find p xs ≡ some a → p (f a) ≡ true → find p (edit_first p f xs) ≡ some (f a)
  unfolding find edit_first
  find-edit_first [] h k = absurd (ground arith)
  find-edit_first (x ∷ xs) h k = ground (arith, find-edit_first xs)

  edit_first-undo :
      (g : A → A) (xs : List A)
      → find p xs ≡ some a
      → p (f a) ≡ true
      → g (f a) ≡ a
      → edit_first p g (edit_first p f xs) ≡ xs
  unfolding find edit_first
  edit_first-undo g [] h k u = refl
  edit_first-undo g (x ∷ xs) h k u = ground (arith, edit_first-undo g xs)

module _ {ℓ} {A : Type ℓ} (p : A → Bool) (a : A) where
  select-added :
      (xs : List A) → any p xs ≡ false → p a ≡ true → select (λ x. not (p x)) (xs ++ (a ∷ [])) ≡ xs
  unfolding any select
  select-added [] h k = ground arith
  select-added (x ∷ xs) h k = ground (arith, select-added xs)

-- A change of the found target is found again, and a second change can undo it.
drivers-undo :
    (ds : List Driver) (n : String) (t : Target) (f g : Target → Target)
    → find_target_in_config ds n ≡ some t
    → is_target n (f t) ≡ true
    → g (f t) ≡ t
    → let retarget : (Target → Target) → Driver → Driver =
        λ h d. record d { targets = edit_first (is_target n) h d.targets } in
      let changed = edit_first (has_target n) (retarget f) ds in
      (find_target_in_config changed n ≡ some (f t))
      × (edit_first (has_target n) (retarget g) changed ≡ ds)
unfolding find_target_in_config edit_first has_target find
drivers-undo [] n t f g found k u = absurd (ground arith)
drivers-undo (d ∷ ds) n t f g found k u = elim (Option-cases (find (is_target n) d.targets)) [
  | inl missing ↦
      let (again, back) = drivers-undo ds n t f g (ground arith) k u in
      let none_here = find-none→any (is_target n) d.targets missing in (ground arith, ground arith)
  | inr (v, here) ↦
      let same : v ≡ t = ground arith in
      let found_here : find (is_target n) d.targets ≡ some t = ground arith in
      let any_here = find-some→any (is_target n) d.targets t found_here in
      let found_later = find-edit_first (is_target n) f t d.targets found_here k in
      let any_later = find-some→any (is_target n) _ (f t) found_later in
      let back = edit_first-undo (is_target n) f t g d.targets found_here k u in
      (
        ground arith,
        edit_first-undo (has_target n)
            (λ d. record d { targets = edit_first (is_target n) f d.targets }) d
            (λ d. record d { targets = edit_first (is_target n) g d.targets }) (d ∷ ds)
            (ground arith) any_later (ap (λ ts. record d { targets = ts }) back),
      )
]

abbrev give : Lun → Group → Group
give l g = record g { luns = g.luns ++ (l ∷ []) }

validate_unmap_lun-given :
    (t : Target) (gn : String) (g : Group) (l : Lun)
    → find (named gn) t.groups ≡ some g
    → (validate_unmap_lun (whole l.id) (with_group gn (give l) t) gn).ok ≡ true
unfolding validate_unmap_lun numbered with_group any
validate_unmap_lun-given t gn g l found =
    let again =
      find-edit_first (named gn) (give l) g t.groups found
        (find→true (named gn) t.groups g found) in
    ground (arith, any-append (has_id l.id) g.luns (l ∷ []))

with_group-undo :
    (t : Target) (gn : String) (g : Group) (l : Lun)
    → find (named gn) t.groups ≡ some g
    → any (has_id l.id) g.luns ≡ false
    → with_group gn
        (λ g. record g { luns = select (λ l'. not (has_id l.id l')) g.luns })
        (with_group gn (give l) t)
      ≡ t
unfolding with_group
with_group-undo t gn g l found own =
    ap (λ gs. record t { groups = gs })
      (edit_first-undo (named gn) (give l) g
        (λ g. record g { luns = select (λ l'. not (has_id l.id l')) g.luns }) t.groups found
        (find→true (named gn) t.groups g found)
        (ap (λ ls. record g { luns = ls })
          (select-added (has_id l.id) l g.luns own (ground arith))))

target-named :
    (ds : List Driver) (n : String) (t : Target)
    → find_target_in_config ds n ≡ some t
    → is_target n t ≡ true
unfolding find_target_in_config
target-named [] n t found = absurd (ground arith)
target-named (d ∷ ds) n t found = elim (Option-cases (find (is_target n) d.targets)) [
  | inl missing ↦ target-named ds n t (ground arith)
  | inr (u, here) ↦ find→true (is_target n) d.targets t (ground arith)
]

abbrev remove_id : ℕ → Group → Group
remove_id i g = record g { luns = select (λ l. not (has_id i l)) g.luns }

remove_lun-written :
    (n gn : String) (i : ℕ) (c : ScstConfig) (t : Target)
    → find_target_in_config c.drivers n ≡ some t
    → (validate_unmap_lun (whole i) t gn).ok ≡ true
    → remove_lun_from_group n gn i c ≡ written (with_target n (with_group gn (remove_id i)) c)
unfolding remove_lun_from_group
remove_lun-written n gn i c t found valid = ground arith

undo-with_target :
    (n gn : String) (c : ScstConfig) (t : Target) (g : Group) (l : Lun)
    → find_target_in_config c.drivers n ≡ some t
    → find (named gn) t.groups ≡ some g
    → any (has_id l.id) g.luns ≡ false
    → remove_lun_from_group n gn l.id (with_target n (with_group gn (give l)) c) ≡ written c
unfolding with_target with_group
undo-with_target n gn c t g l found here own =
    let (again, back) =
      drivers-undo c.drivers n t (with_group gn (give l)) (with_group gn (remove_id l.id)) found
        (target-named c.drivers n t found) (with_group-undo t gn g l here own) in
    remove_lun-written n gn l.id _ _ again (validate_unmap_lun-given t gn g l here)
    ∙ ap written (ap (λ ds. record c { drivers = ds }) back)

-- If a sound configuration is written with a new LUN, removing that LUN from its group succeeds and
-- writes the first configuration again.
pub remove_lun-add_lun :
    (n gn : String) (i : ℕ) (dev : String) (read_only : Bool) (c c' : ScstConfig)
    → sound c ≡ true
    → add_lun_to_group n gn i dev read_only c ≡ written c'
    → remove_lun_from_group n gn i c' ≡ written c
unfolding add_lun_to_group remove_lun_from_group not_found all sound with_target
remove_lun-add_lun n gn i dev read_only c c' s h =
    elim (Option-cases (find_target_in_config c.drivers n)) [
      | inl missing ↦ absurd (ground arith)
      | inr (t, found) ↦
          let input : ValidateMapLunInput = record {
            lun_id = whole i;
            device_name = some dev;
            read_only = read_only;
          } in
          let (g, here, own, _, _) =
            validate_map_lun-ok input c t gn i refl (found_sound c.drivers n t found s)
              (ground arith) in
          let lun : Lun = record { id = i; device = trim dev; read_only = read_only; attrs = [] } in
          let same : c' ≡ with_target n (with_group gn (give lun)) c = ground arith in
          ap (remove_lun_from_group n gn i) same ∙ undo-with_target n gn c t g lun found here own
    ]
