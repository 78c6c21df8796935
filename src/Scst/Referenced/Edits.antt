-- ===== src/Scst/Referenced/Edits.antt =====
-- Changes that keep the LUNs of a configuration within a property of LUNs.
use text.Mathlib.TextEquality.{eq_iff}
use esos_webui.Common.{
  Bool, Bool-cases, List, Option-cases, String, [], all, all-append, and_split, any, arith, false,
  find, find-some→any, inl, inr, is_empty, length, refl, select, some, str_eq, true, ◌++◌, ◌∷◌, ◌≡◌,
}
use esos_webui.Scst.Types.{Lun, Group, Target, Driver, Device, Handler}
use esos_webui.Scst.Luns.{named, group_luns, all_luns_on_target, find_device}
use esos_webui.Scst.Mutators.{edit_first, drop_first, is_target, has_target, with_group}
use esos_webui.Scst.Devices.{
  is_handler, is_device, has_device, add_device, targets_luns, drivers_luns, drop_device,
}
use esos_webui.Scst.Kept.{all-edit}
use esos_webui.Scst.Referenced.{referenced_group, referenced_target, referenced_driver}

module _ (p : Lun → Bool) where
  -- A change of targets that keeps each of them within the property.
  abbrev pub Keeps : (Target → Target) → Type 0
  Keeps f = (t : Target) → referenced_target p t ≡ true → referenced_target p (f t) ≡ true

  pub drivers_referenced :
      (n : String) (f : Target → Target) (ds : List Driver)
      → Keeps f
      → all (referenced_driver p) ds ≡ true
      → all (referenced_driver p) (
          edit_first
            (has_target n)
            (λ d. record d { targets = edit_first (is_target n) f d.targets })
            ds)
        ≡ true
  unfolding referenced_driver
  drivers_referenced n f ds k h =
      all-edit (referenced_driver p) (has_target n) _ ds
        (λ d _ ok. all-edit (referenced_target p) (is_target n) f d.targets (λ t _. k t) ok) h

  pub groups-keep :
      (f : List Group → List Group)
      → ((gs : List Group)
          → all (referenced_group p) gs ≡ true
          → all (referenced_group p) (f gs) ≡ true)
      → Keeps (λ t. record t { groups = f t.groups })
  unfolding referenced_target
  groups-keep f k t h =
      let (luns, groups) = and_split (all p t.luns) _ h in rw luns (k t.groups groups)

  pub with_group-keep :
      (gn : String) (f : List Lun → List Lun)
      → ((ls : List Lun) → all p ls ≡ true → all p (f ls) ≡ true)
      → Keeps (with_group gn (λ g. record g { luns = f g.luns }))
  unfolding with_group referenced_group
  with_group-keep gn f k =
      groups-keep (edit_first (named gn) (λ g. record g { luns = f g.luns }))
        (λ gs. all-edit (referenced_group p) (named gn) _ gs (λ g _. k g.luns))

  -- The property of all drivers, of the LUNs in one list.
  all-group_luns : (gs : List Group) → all p (group_luns gs) ≡ all (referenced_group p) gs
  unfolding all referenced_group
  all-group_luns [] = refl
  all-group_luns (g ∷ gs) = rw (all-append p g.luns (group_luns gs), all-group_luns gs) refl

  all-targets_luns : (ts : List Target) → all p (targets_luns ts) ≡ all (referenced_target p) ts
  unfolding all referenced_target
  all-targets_luns [] = refl
  all-targets_luns (t ∷ ts) =
      rw
        (
          all-append p (all_luns_on_target t) (targets_luns ts),
          all-append p t.luns (group_luns t.groups),
          all-group_luns t.groups,
          all-targets_luns ts,
        )
        refl

  pub all-drivers_luns : (ds : List Driver) → all p (drivers_luns ds) ≡ all (referenced_driver p) ds
  unfolding all referenced_driver
  all-drivers_luns [] = refl
  all-drivers_luns (d ∷ ds) =
      rw
        (
          all-append p (targets_luns d.targets) (drivers_luns ds),
          all-targets_luns d.targets,
          all-drivers_luns ds,
        )
        refl

-- If `p` gives `q` but for LUNs that are not in the list, then `q` holds of the list.
pub all-weaken :
    (p q : Lun → Bool) (n : String) (ls : List Lun)
    → ((l : Lun) → str_eq l.device n ≡ false → p l ≡ true → q l ≡ true)
    → length (select (λ l. str_eq l.device n) ls) ≡ 0
    → all p ls ≡ true
    → all q ls ≡ true
unfolding all select
all-weaken p q n [] k e h = refl
all-weaken p q n (l ∷ ls) k e h =
    let (here, later) = and_split (p l) (all p ls) h in
    elim (Bool-cases (str_eq l.device n)) [
      | inl named_so ↦ absurd (ground arith)
      | inr other ↦ rw (k l other here) (all-weaken p q n ls k (rw other at e) later)
    ]

pub all-imply :
    (p q : Lun → Bool) (ls : List Lun)
    → ((l : Lun) → p l ≡ true → q l ≡ true)
    → all p ls ≡ true
    → all q ls ≡ true
unfolding all
all-imply p q [] k h = refl
all-imply p q (l ∷ ls) k h =
    let (here, later) = and_split (p l) (all p ls) h in rw (k l here) (all-imply p q ls k later)

-- A device is kept by what is added to a handler, and by the removal of another device.
pub any-add_device :
    (m hn : String) (d : Device) (hs : List Handler)
    → any (has_device m) hs ≡ true
    → any (has_device m) (edit_first (is_handler hn) (add_device d) hs) ≡ true
unfolding any edit_first has_device
any-add_device m hn d [] h = h
any-add_device m hn d (x ∷ hs) h = ground (arith, any-add_device m hn d hs, any-more x.devices)
  where
    any-more :
        (ds : List Device) → any (is_device m) ds ≡ true → any (is_device m) (ds ++ d ∷ []) ≡ true
    any-more [] e = absurd (cc e)
    any-more (y ∷ ds) e = ground (arith, any-more ds)

pub any-handlers :
    (m : String) (hs more : List Handler)
    → any (has_device m) hs ≡ true
    → any (has_device m) (hs ++ more) ≡ true
unfolding any
any-handlers m [] more h = absurd (cc h)
any-handlers m (x ∷ hs) more h = ground (arith, any-handlers m hs more)

any-drop_first :
    (m n : String) (ds : List Device)
    → str_eq m n ≡ false
    → any (is_device m) (drop_first (is_device n) ds) ≡ any (is_device m) ds
unfolding any drop_first
any-drop_first m n [] ne = refl
any-drop_first m n (d ∷ ds) ne =
    ground (arith, any-drop_first m n ds ne, eq_iff d.name n, eq_iff d.name m, eq_iff m n)

any-empty : (m : String) (ds : List Device) → is_empty ds ≡ true → any (is_device m) ds ≡ false
unfolding any
any-empty m [] h = refl
any-empty m (d ∷ ds) h = absurd (cc h)

pub any-drop_device :
    (m n : String) (hs : List Handler)
    → str_eq m n ≡ false
    → any (has_device m) hs ≡ true
    → any (has_device m) (drop_device n hs) ≡ true
unfolding any drop_device has_device
any-drop_device m n [] ne h = h
any-drop_device m n (x ∷ hs) ne h =
    let kept = drop_first (is_device n) x.devices in
    ground (arith, any-drop_device m n hs ne, any-drop_first m n x.devices ne, any-empty m kept)

pub find_device-any :
    (n : String) (hs : List Handler) (r : String × Device)
    → find_device hs n ≡ some r
    → any (has_device n) hs ≡ true
unfolding find_device any has_device
find_device-any n [] r h = absurd (cc h)
find_device-any n (x ∷ hs) r h = elim (Option-cases (find (is_device n) x.devices)) [
  | inl missing ↦ ground (arith, find_device-any n hs r)
  | inr (d, found) ↦ rw (find-some→any (is_device n) x.devices d found) refl
]
