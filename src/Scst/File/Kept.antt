-- ===== src/Scst/File/Kept.antt =====
-- Every operation of server/utils/scst-config-writer.ts keeps the configuration printable.
use esos_webui.Common.{Bool, List, String, [], all, and_split, str_eq, true, ◌∷◌, ◌≡◌}
use esos_webui.Scst.Kept.{all-edit}
use esos_webui.Scst.Types.{Lun, Group, Target, Driver, ScstConfig}
use esos_webui.Scst.Luns.{named}
use esos_webui.Scst.Mutators.{edit_first, is_target, has_target, with_target, with_group}
use esos_webui.Scst.Conf.Phrases.{is_word}
use esos_webui.Scst.Conf.Printable.{
  printable_attrs, printable_handler, printable_lun, printable_group, printable_target,
  printable_driver, printable,
}

-- A change of targets that keeps each of them printable in its driver.
abbrev pub KeepsTarget : (Target → Target) → Type 0
KeepsTarget f =
    (driver : String) (t : Target)
    → printable_target driver t ≡ true
    → printable_target driver (f t) ≡ true

pub drivers_printable :
    (p : Driver → Bool) (f : Driver → Driver) (c : ScstConfig)
    → ((d : Driver) → p d ≡ true → printable_driver d ≡ true → printable_driver (f d) ≡ true)
    → printable c ≡ true
    → printable (record c { drivers = edit_first p f c.drivers }) ≡ true
unfolding printable
drivers_printable p f c k h =
    let (handlers, h1) = and_split (all printable_handler c.handlers) _ h in
    let (drivers, groups) = and_split (all printable_driver c.drivers) _ h1 in
    rw (handlers, all-edit printable_driver p f c.drivers k drivers) groups

pub with_target-printable :
    (n : String) (f : Target → Target) (c : ScstConfig)
    → KeepsTarget f
    → printable c ≡ true
    → printable (with_target n f c) ≡ true
unfolding with_target printable_driver
with_target-printable n f c k h =
    drivers_printable (has_target n) _ c
      (λ d _ ok.
        let (w, ts) = and_split (is_word d.name) (all (printable_target d.name) d.targets) ok in
        rw w (all-edit (printable_target d.name) (is_target n) f d.targets (λ t _. k d.name t) ts))
      h

-- A change of a target's groups.
pub groups-keeps :
    (f : List Group → List Group)
    → ((gs : List Group) → all printable_group gs ≡ true → all printable_group (f gs) ≡ true)
    → KeepsTarget (λ t. record t { groups = f t.groups })
unfolding printable_target
groups-keeps f k driver t h =
    let (n, h1) = and_split (is_word t.name) _ h in
    let (same, h2) = and_split (str_eq t.driver driver) _ h1 in
    let (attrs, h3) =
      and_split (printable_attrs ("enabled" ∷ "GROUP" ∷ "LUN" ∷ []) [] t.attrs) _ h2 in
    let (groups, rest) = and_split (all printable_group t.groups) _ h3 in
    rw (n, same, attrs, k t.groups groups) rest

-- A change of the LUNs of a group.
pub with_group-keeps :
    (gn : String) (f : List Lun → List Lun)
    → ((ls : List Lun) → all printable_lun ls ≡ true → all printable_lun (f ls) ≡ true)
    → KeepsTarget (with_group gn (λ g. record g { luns = f g.luns }))
unfolding with_group printable_group
with_group-keeps gn f k =
    groups-keeps (edit_first (named gn) (λ g. record g { luns = f g.luns })) (λ gs.
      all-edit printable_group (named gn) _ gs (λ g _ ok.
        let (n, h1) = and_split (is_word g.name) _ ok in
        let (initiators, luns) = and_split (all is_word g.initiators) _ h1 in
        rw (n, initiators) (k g.luns luns)))
