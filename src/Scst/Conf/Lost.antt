-- ===== src/Scst/Conf/Lost.antt =====
-- What serializeScstConfig of server/utils/scst-config-writer.ts leaves out.
use esos_webui.Common.{List, String, [], ap, map, refl, sym, true, ℕ, ◌++◌, ◌∙◌, ◌∷◌, ◌≡◌}
use esos_webui.Scst.Types.{Lun, Group, Target, Driver, ScstConfig}
use esos_webui.Scst.Conf.Parser.{parse_scst_conf}
use esos_webui.Scst.Conf.Printable.{printable}
use esos_webui.Scst.Conf.RoundTrip.{parse_scst_conf-serialize_scst_config}
use esos_webui.Scst.Conf.Printer.{
  print_each, print_lun, print_group, print_target, print_driver, config_lines,
  serialize_scst_config,
}

-- The configuration without the attributes of its LUNs.
abbrev pub bare_lun : Lun → Lun
bare_lun l = record l { attrs = [] }

abbrev pub bare_group : Group → Group
bare_group g = record g { luns = map bare_lun g.luns }

abbrev pub bare_target : Target → Target
bare_target t = record t { groups = map bare_group t.groups; luns = map bare_lun t.luns }

abbrev pub bare_driver : Driver → Driver
bare_driver d = record d { targets = map bare_target d.targets }

abbrev pub bare_config : ScstConfig → ScstConfig
bare_config c = record c { drivers = map bare_driver c.drivers }

print_each-map {ℓ} :
    {A : Type ℓ} (p : A → List String) (f : A → A)
    → ((x : A) → p (f x) ≡ p x)
    → (xs : List A) → print_each p (map f xs) ≡ print_each p xs
unfolding print_each
print_each-map p f e [] = refl
print_each-map p f e (x ∷ xs) = rw (e x) (ap (λ rest. p x ++ rest) (print_each-map p f e xs))

print_lun-bare : (depth : ℕ) (l : Lun) → print_lun depth (bare_lun l) ≡ print_lun depth l
unfolding print_lun
print_lun-bare depth l = refl

print_group-bare : (g : Group) → print_group (bare_group g) ≡ print_group g
unfolding print_group
print_group-bare g = rw (print_each-map (print_lun 3) bare_lun (print_lun-bare 3) g.luns) refl

print_target-bare : (t : Target) → print_target (bare_target t) ≡ print_target t
unfolding print_target
print_target-bare t =
    rw
      (
        print_each-map print_group bare_group print_group-bare t.groups,
        print_each-map (print_lun 2) bare_lun (print_lun-bare 2) t.luns,
      )
      refl

print_driver-bare : (d : Driver) → print_driver (bare_driver d) ≡ print_driver d
unfolding print_driver
print_driver-bare d = rw (print_each-map print_target bare_target print_target-bare d.targets) refl

serialize_scst_config-bare_config :
    (c : ScstConfig) → serialize_scst_config (bare_config c) ≡ serialize_scst_config c
unfolding serialize_scst_config config_lines
serialize_scst_config-bare_config c =
    rw (print_each-map print_driver bare_driver print_driver-bare c.drivers) refl

-- A configuration that is printable but for the attributes of its LUNs loses these attributes when it
-- is written and read again, and nothing else: what is read is the configuration without them.
pub parse_scst_conf-loses_attrs :
    (c : ScstConfig)
    → printable (bare_config c) ≡ true
    → parse_scst_conf (serialize_scst_config c) ≡ bare_config c
parse_scst_conf-loses_attrs c p =
    ap parse_scst_conf (sym (serialize_scst_config-bare_config c))
    ∙ parse_scst_conf-serialize_scst_config (bare_config c) p
