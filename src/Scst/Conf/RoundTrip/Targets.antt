-- ===== src/Scst/Conf/RoundTrip/Targets.antt =====
-- The TARGET_DRIVER blocks of scst.conf and the targets in them.
use Prim.Native.String.{[], ◌∷◌}
use text.Mathlib.TextEquality.{eq_iff}
use esos_webui.Common.{
  Bool, List, String, [], all, all→All, and_split, ap, false, includes, insert, is_digit,
  is_empty→nil, is_space, none, not, or_false, refl, some, str_eq, sym, trim_start, true, ◌∙◌, ◌∷◌,
  ◌≡◌,
}
use esos_webui.Scst.Types.{Lun, Group, Target, Driver, ScstConfig}
use esos_webui.Scst.Conf.Words.{after_word}
use esos_webui.Scst.Conf.Edits.{
  Reading, target, group, target_lun, push, new_driver, begun_target, new_group, new_lun,
}
use esos_webui.Scst.Conf.Parser.{on_top, on_driver, on_target, on_lun, in_block, on_line}
use esos_webui.Scst.Conf.Printer.{
  print, print_each, print_if, print_attr, print_lun, print_group, print_target, print_driver,
}
use esos_webui.Scst.Conf.Phrases.{is_word, phrase}
use esos_webui.Scst.Conf.Lines.{
  attribute-phrase, begins_solid-phrase, is_key, is_key-split, phrase-ne,
}
use esos_webui.Scst.Conf.Reads.{
  Reads, at, Reads-nil, Reads-append, Reads-each, is_rest, is_rest-value, Reads-alone, Reads-close,
  Reads-blank, is_rest-split,
}
use esos_webui.Scst.Conf.Printable.{
  printable_attrs, printable_lun, printable_group, printable_target, printable_driver,
}
use esos_webui.Scst.Conf.RoundTrip.Attrs.{
  block-opening, Reads-open, Reads-pair, Reads-attrs, str_eq-swap,
}
use esos_webui.Scst.Conf.RoundTrip.Luns.{block-other, enabled_flag-other, lun_line-other, Reads-lun}
use esos_webui.Scst.Conf.RoundTrip.Groups.{
  at_driver, at_target, edit_driver-at, edit_target-at, edit_target_lun-at, Reads-group,
  driver_block, target_block,
}

abbrev reserved : List String
reserved = "enabled" ∷ "GROUP" ∷ "LUN" ∷ []

module _ (c : ScstConfig) (d : Driver) where
  abbrev in_target : Target → Reading
  in_target t = at (at_target c d t) target_block

  Reads-hw_target :
      (t : Target) (hw : Bool)
      → t.hw_target ≡ false
      → Reads
          (print_if hw (print 2 ("HW_TARGET" ∷ [])))
          (in_target t)
          (in_target (record t { hw_target = hw }))
  unfolding on_line in_block on_target is_rest is_space
  Reads-hw_target t true e =
      Reads-alone 2 "HW_TARGET" refl
        (ap (λ x. at x target_block) (edit_target-at c d t (λ x. record x { hw_target = true })))
  Reads-hw_target t false e = rw (← e) Reads-nil

  Reads-disabled_target :
      (t : Target) (on : Bool)
      → t.enabled ≡ true
      → Reads
          (print_if (not on) (print 2 ("enabled" ∷ "0" ∷ [])))
          (in_target t)
          (in_target (record t { enabled = on }))
  unfolding in_block on_target is_rest is_key is_space is_digit trim_start
  Reads-disabled_target t true e = rw (← e) Reads-nil
  Reads-disabled_target t false e =
      Reads-pair 2 "enabled" "0" refl refl
        (ap (λ x. (x, none)) (edit_target-at c d t (λ x. record x { enabled = false })))

  Reads-target_attrs :
      (t : Target) (attrs : List (String × String))
      → printable_attrs reserved [] attrs ≡ true
      → Reads
          (print_each print_attr attrs)
          (in_target (record t { attrs = [] }))
          (in_target (record t { attrs = attrs }))
  unfolding print_attr in_block on_target includes after_word is_space
  Reads-target_attrs t attrs p =
      Reads-attrs reserved (λ kept. in_target (record t { attrs = kept }))
        (λ k v kept hk hv free.
          let (w, _) = is_key-split k hk in
          let (b, _, _) = is_rest-split v (is_rest-value v hv) in
          let (e, free1) = or_false (str_eq "enabled" k) _ free in
          let (g, free2) = or_false (str_eq "GROUP" k) _ free1 in
          let (l, _) = or_false (str_eq "LUN" k) _ free2 in
          Reads-pair 2 k v hk (is_rest-value v hv) (
            rw
              (
                phrase-ne k v "HW_TARGET" w b refl,
                enabled_flag-other k v w b (str_eq-swap "enabled" k e),
                block-other k v w b "GROUP" (str_eq-swap "GROUP" k g),
                lun_line-other k v w b (str_eq-swap "LUN" k l),
                attribute-phrase k v w hv,
              )
              (ap (λ x. (x, none))
                (edit_target-at c d (record t { attrs = kept })
                  (λ x. record x { attrs = insert k v x.attrs })))))
        [] attrs p

  Reads-target_group :
      (t : Target) (g : Group)
      → printable_group g ≡ true
      → Reads (print_group g) (in_target t) (in_target (record t { groups = push g t.groups }))
  unfolding in_block on_target printable_group is_word is_space after_word
  Reads-target_group t g p =
      let (n, _) = and_split (is_word g.name) _ p in
      let b = begins_solid-phrase g.name "{" n in
      Reads-group c d t g p (
        rw
          (
            phrase-ne "GROUP" (phrase g.name "{") "HW_TARGET" refl b refl,
            enabled_flag-other "GROUP" (phrase g.name "{") refl b refl,
            block-opening "GROUP" g.name n refl "GROUP",
          )
          (ap (λ x. (x, some group))
            (edit_target-at c d t (λ x. record x { groups = push (new_group g.name) x.groups }))))

  Reads-target_lun :
      (t : Target) (luns : List Lun) (l : Lun)
      → printable_lun l ≡ true
      → Reads
          (print_lun 2 l)
          (in_target (record t { luns = luns }))
          (in_target (record t { luns = push l luns }))
  unfolding in_block on_target on_lun is_word is_space after_word
  Reads-target_lun t =
      Reads-lun (λ luns. at_target c d (record t { luns = luns })) target_block target_lun
        (λ r n name luns ok found.
          let (b, _, _) = is_rest-split r ok in
          rw
            (
              phrase-ne "LUN" r "HW_TARGET" refl b refl,
              enabled_flag-other "LUN" r refl b refl,
              block-other "LUN" r refl b "GROUP" refl,
              found,
            )
            (ap (λ x. (x, some target_lun))
              (edit_target-at c d (record t { luns = luns })
                (λ x. record x { luns = push (new_lun n name) x.luns }))))
        (λ l luns.
          ap (λ x. (x, none))
            (edit_target_lun-at c d t (λ x. record x { read_only = true }) l luns))
        2

  Reads-target :
      (t : Target)
      → printable_target d.name t ≡ true
      → Reads (print_target t) (at (at_driver c d) driver_block) (at (at_target c d t) driver_block)
  unfolding print_target printable_target in_block on_driver is_key is_space
  Reads-target t p =
      let (n, p1) = and_split (is_word t.name) _ p in
      let (same, p2) = and_split (str_eq t.driver d.name) _ p1 in
      let (attrs, p3) = and_split (printable_attrs reserved [] t.attrs) _ p2 in
      let (groups, p4) = and_split (all printable_group t.groups) _ p3 in
      let (luns, absent) = and_split (all printable_lun t.luns) _ p4 in
      let made : Target = begun_target d.name t.name in
      let b = begins_solid-phrase t.name "{" n in
      let opened : Reads (print 1 ("TARGET" ∷ t.name ∷ "{" ∷ [])) (at (at_driver c d) driver_block)
          (in_target made) =
        Reads-open "TARGET" t.name n 1 refl (
          rw
            (
              enabled_flag-other "TARGET" (phrase t.name "{") refl b refl,
              block-opening "TARGET" t.name n refl "TARGET",
            )
            (ap (λ x. (x, some target))
              (edit_driver-at c d
                (λ x. record x { targets = push (begun_target x.name t.name) x.targets })))) in
      let flagged : Target = record made { hw_target = t.hw_target } in
      let switched : Target = record flagged { enabled = t.enabled } in
      let described : Target = record switched { attrs = t.attrs } in
      let grouped : Target = record described { groups = t.groups } in
      let read_groups =
        Reads-each (λ g. printable_group g ≡ true) print_group
          (λ gs. in_target (record described { groups = gs }))
          (λ gs g. Reads-target_group (record described { groups = gs }) g) [] t.groups
          (all→All printable_group t.groups groups) in
      let read_luns =
        Reads-each (λ l. printable_lun l ≡ true) (print_lun 2)
          (λ ls. in_target (record grouped { luns = ls })) (λ ls l. Reads-target_lun grouped ls l)
          [] t.luns (all→All printable_lun t.luns luns) in
      let full : Target = record grouped { luns = t.luns } in
      let whole : full ≡ t =
        ap (λ x. record t { driver = x; sessions = [] }) (sym ((eq_iff t.driver d.name).0 same))
        ∙ ap (λ x. record t { sessions = x }) (sym (is_empty→nil t.sessions absent)) in
      rw whole at (
        Reads-append opened (
          Reads-append (Reads-hw_target made t.hw_target refl) (
            Reads-append (Reads-disabled_target flagged t.enabled refl) (
              Reads-append (Reads-target_attrs switched t.attrs attrs)
                (Reads-append read_groups (Reads-append read_luns (Reads-close 1)))))))

  Reads-disabled_driver :
      (on : Bool)
      → d.enabled ≡ true
      → Reads
          (print_if (not on) (print 1 ("enabled" ∷ "0" ∷ [])))
          (at (at_driver c d) driver_block)
          (at (at_driver c (record d { enabled = on })) driver_block)
  unfolding in_block on_driver is_rest is_key is_space is_digit trim_start
  Reads-disabled_driver true e = rw (← e) Reads-nil
  Reads-disabled_driver false e =
      Reads-pair 1 "enabled" "0" refl refl
        (ap (λ x. (x, none)) (edit_driver-at c d (λ x. record x { enabled = false })))

pub Reads-driver :
    (c : ScstConfig) (ds : List Driver) (d : Driver)
    → printable_driver d ≡ true
    → Reads
        (print_driver d)
        (at (record c { drivers = ds }) [])
        (at (record c { drivers = push d ds }) [])
unfolding print_driver printable_driver in_block on_top is_key is_space
Reads-driver c ds d p =
    let (n, targets) = and_split (is_word d.name) _ p in
    let before : ScstConfig = record c { drivers = ds } in
    let made : Driver = new_driver d.name in
    let b = begins_solid-phrase d.name "{" n in
    let opened : Reads (print 0 ("TARGET_DRIVER" ∷ d.name ∷ "{" ∷ [])) (at before [])
        (at (at_driver before made) driver_block) =
      Reads-open "TARGET_DRIVER" d.name n 0 refl (
        rw
          (
            block-other "TARGET_DRIVER" (phrase d.name "{") refl b "HANDLER" refl,
            block-opening "TARGET_DRIVER" d.name n refl "TARGET_DRIVER",
          )
          refl) in
    let switched : Driver = record made { enabled = d.enabled } in
    let body =
      Reads-each (λ t. printable_target d.name t ≡ true) print_target
        (λ ts. at (at_driver before (record switched { targets = ts })) driver_block)
        (λ ts t. Reads-target before (record switched { targets = ts }) t) [] d.targets
        (all→All (printable_target d.name) d.targets targets) in
    Reads-append opened (
      Reads-append (Reads-disabled_driver before made d.enabled refl)
        (Reads-append body (Reads-append (Reads-close 0) Reads-blank)))
