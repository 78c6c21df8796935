-- ===== src/Scst/Conf/RoundTrip/Groups.antt =====
-- The groups of a target: their initiators and LUNs.
use Prim.Native.String.{[], ◌∷◌}
use esos_webui.Common.{
  List, String, [], all, all→All, and_split, ap, is_space, none, refl, some, true, ◌∙◌, ◌∷◌, ◌≡◌,
}
use esos_webui.Scst.Types.{Lun, Group, Target, Driver, ScstConfig}
use esos_webui.Scst.Conf.Edits.{
  Context, driver, target, group, group_lun, push, edit_last, edit_driver, edit_target, edit_group,
  edit_target_lun, edit_group_lun, new_group, new_lun,
}
use esos_webui.Scst.Conf.Parser.{on_group, on_lun, in_block}
use esos_webui.Scst.Conf.Printer.{print_lun, print_initiator, print_group}
use esos_webui.Scst.Conf.Phrases.{is_word, phrase}
use esos_webui.Scst.Conf.Lines.{is_key}
use esos_webui.Scst.Conf.Reads.{
  Reads, at, Reads-append, Reads-each, is_rest-word, Reads-close, is_rest-split,
}
use esos_webui.Scst.Conf.Printable.{printable_lun, printable_group}
use esos_webui.Scst.Conf.RoundTrip.Attrs.{edit_last-push, Reads-open, Reads-pair}
use esos_webui.Scst.Conf.RoundTrip.Luns.{item-other, item-phrase, Reads-lun}

-- The configuration while the last driver, its last target, or that one's last group is read.
abbrev pub at_driver : ScstConfig → Driver → ScstConfig
at_driver c d = record c { drivers = push d c.drivers }

abbrev pub at_target : ScstConfig → Driver → Target → ScstConfig
at_target c d t = at_driver c (record d { targets = push t d.targets })

abbrev at_group : ScstConfig → Driver → Target → Group → ScstConfig
at_group c d t g = at_target c d (record t { groups = push g t.groups })

abbrev pub driver_block : List Context
driver_block = driver ∷ []

abbrev pub target_block : List Context
target_block = target ∷ driver_block

abbrev group_block : List Context
group_block = group ∷ target_block

pub edit_driver-at :
    (c : ScstConfig) (d : Driver) (f : Driver → Driver)
    → edit_driver f (at_driver c d) ≡ at_driver c (f d)
unfolding edit_driver
edit_driver-at c d f = ap (λ ds. record c { drivers = ds }) (edit_last-push f d c.drivers)

module _ (c : ScstConfig) (d : Driver) where
  pub edit_target-at :
      (t : Target) (f : Target → Target) → edit_target f (at_target c d t) ≡ at_target c d (f t)
  unfolding edit_target
  edit_target-at t f =
      edit_driver-at c (record d { targets = push t d.targets })
        (λ d'. record d' { targets = edit_last f d'.targets })
      ∙ ap (λ ts. at_driver c (record d { targets = ts })) (edit_last-push f t d.targets)

  pub edit_target_lun-at :
      (t : Target) (f : Lun → Lun) (l : Lun) (luns : List Lun)
      → edit_target_lun f (at_target c d (record t { luns = push l luns }))
        ≡ at_target c d (record t { luns = push (f l) luns })
  unfolding edit_target_lun
  edit_target_lun-at t f l luns =
      edit_target-at (record t { luns = push l luns }) (λ x. record x { luns = edit_last f x.luns })
      ∙ ap (λ ls. at_target c d (record t { luns = ls })) (edit_last-push f l luns)

module _ (c : ScstConfig) (d : Driver) (t : Target) where
  edit_group-at :
      (g : Group) (f : Group → Group) → edit_group f (at_group c d t g) ≡ at_group c d t (f g)
  unfolding edit_group
  edit_group-at g f =
      edit_target-at c d (record t { groups = push g t.groups })
        (λ x. record x { groups = edit_last f x.groups })
      ∙ ap (λ gs. at_target c d (record t { groups = gs })) (edit_last-push f g t.groups)

  edit_group_lun-at :
      (g : Group) (f : Lun → Lun) (l : Lun) (luns : List Lun)
      → edit_group_lun f (at_group c d t (record g { luns = push l luns }))
        ≡ at_group c d t (record g { luns = push (f l) luns })
  unfolding edit_group_lun
  edit_group_lun-at g f l luns =
      edit_group-at (record g { luns = push l luns }) (λ x. record x { luns = edit_last f x.luns })
      ∙ ap (λ ls. at_group c d t (record g { luns = ls })) (edit_last-push f l luns)

  Reads-initiator :
      (g : Group) (name : String)
      → is_word name ≡ true
      → Reads
          (print_initiator name)
          (at (at_group c d t g) group_block)
          (at (at_group c d t (record g { initiators = push name g.initiators })) group_block)
  unfolding print_initiator in_block on_group is_key is_space
  Reads-initiator g name w = Reads-pair 3 "INITIATOR" name refl (is_rest-word name w) (
      rw (item-phrase "INITIATOR" name refl w) (
        ap (λ x. (x, none))
          (edit_group-at g (λ x. record x { initiators = push name x.initiators }))))

  Reads-group_lun :
      (g : Group) (luns : List Lun) (l : Lun)
      → printable_lun l ≡ true
      → Reads
          (print_lun 3 l)
          (at (at_group c d t (record g { luns = luns })) group_block)
          (at (at_group c d t (record g { luns = push l luns })) group_block)
  unfolding in_block on_group on_lun is_word is_space
  Reads-group_lun g =
      Reads-lun (λ luns. at_group c d t (record g { luns = luns })) group_block group_lun
        (λ r n name luns ok found.
          let (b, _, _) = is_rest-split r ok in
          rw (item-other "LUN" r refl b "INITIATOR" refl, found)
            (ap (λ x. (x, some group_lun))
              (edit_group-at (record g { luns = luns })
                (λ x. record x { luns = push (new_lun n name) x.luns }))))
        (λ l luns.
          ap (λ x. (x, none)) (edit_group_lun-at g (λ x. record x { read_only = true }) l luns))
        3

  -- A group's block, given that its first line begins it.
  pub Reads-group :
      (g : Group)
      → printable_group g ≡ true
      → in_block target_block (phrase "GROUP" (phrase g.name "{")) (at_target c d t)
        ≡ (at_group c d t (new_group g.name), some group)
      → Reads
          (print_group g)
          (at (at_target c d t) target_block)
          (at (at_group c d t g) target_block)
  unfolding print_group printable_group is_key is_space
  Reads-group g p begins =
      let (n, p1) = and_split (is_word g.name) _ p in
      let (names, luns) = and_split (all is_word g.initiators) _ p1 in
      let made = new_group g.name in
      let filled = record made { initiators = g.initiators } in
      let opened = Reads-open "GROUP" g.name n 2 refl begins in
      let first =
        Reads-each (λ i. is_word i ≡ true) print_initiator
          (λ is. at (at_group c d t (record made { initiators = is })) group_block)
          (λ is i. Reads-initiator (record made { initiators = is }) i) [] g.initiators
          (all→All is_word g.initiators names) in
      let second =
        Reads-each (λ l. printable_lun l ≡ true) (print_lun 3)
          (λ ls. at (at_group c d t (record filled { luns = ls })) group_block)
          (λ ls l. Reads-group_lun filled ls l) [] g.luns (all→All printable_lun g.luns luns) in
      Reads-append opened (Reads-append first (Reads-append second (Reads-close 2)))
