-- ===== src/Scst/Conf/RoundTrip/DeviceGroups.antt =====
-- The DEVICE_GROUP blocks of scst.conf: ALUA's devices and target groups.
use Prim.Native.String.{[], ◌∷◌}
use text.Mathlib.TextLemmas.{append-nil}
use esos_webui.Common.{
  Bool-cases, List, String, [], all, all→All, and_split, ap, arith, inl, inr, is_space, ltb, none,
  refl, show, some, true, ℕ, ◌∙◌, ◌∷◌, ◌≡◌,
}
use esos_webui.Scst.Types.{AluaTargetGroupConfig, AluaDeviceGroupConfig, ScstConfig}
use esos_webui.Scst.Conf.Words.{digits_value, after_digits, begins_digit, sole_number}
use esos_webui.Scst.Conf.Edits.{
  Context, Reading, device_group, alua_target_group, push, edit_last, edit_device_group,
  edit_target_group, new_device_group, new_target_group,
}
use esos_webui.Scst.Conf.Parser.{
  group_id_line, on_top, on_device_group, on_alua_target_group, in_block,
}
use esos_webui.Scst.Conf.Printer.{
  print, print_if, print_ref, print_target_group, print_device_group,
}
use esos_webui.Scst.Conf.Phrases.{is_word, phrase, solid-begins_solid, argument-phrase}
use esos_webui.Scst.Conf.Digits.{
  digits_value-show, after_digits-show, begins_digit-show, is_word-show,
}
use esos_webui.Scst.Conf.Lines.{begins_solid-phrase, is_key}
use esos_webui.Scst.Conf.Reads.{
  Reads, at, Reads-nil, Reads-append, Reads-each, is_rest-word, Reads-close, Reads-blank,
}
use esos_webui.Scst.Conf.Printable.{printable_target_group, printable_device_group}
use esos_webui.Scst.Conf.RoundTrip.Attrs.{edit_last-push, block-opening, Reads-open, Reads-pair}
use esos_webui.Scst.Conf.RoundTrip.Luns.{group_id_line-other, block-other, item-other, item-phrase}

abbrev at_device_group : ScstConfig → AluaDeviceGroupConfig → ScstConfig
at_device_group c g = record c { device_groups = push g c.device_groups }

abbrev at_target_group : ScstConfig → AluaDeviceGroupConfig → AluaTargetGroupConfig → ScstConfig
at_target_group c g t = at_device_group c (record g { target_groups = push t g.target_groups })

abbrev device_group_block : List Context
device_group_block = device_group ∷ []

edit_device_group-at :
    (c : ScstConfig) (g : AluaDeviceGroupConfig) (f : AluaDeviceGroupConfig → AluaDeviceGroupConfig)
    → edit_device_group f (at_device_group c g) ≡ at_device_group c (f g)
unfolding edit_device_group
edit_device_group-at c g f =
    ap (λ gs. record c { device_groups = gs }) (edit_last-push f g c.device_groups)

-- `group_id n`
group_id_line-phrase : (n : ℕ) → group_id_line (phrase "group_id" (show n)) ≡ some n
unfolding group_id_line sole_number is_word is_space begins_digit
group_id_line-phrase n =
    let solid_show = solid-begins_solid (show n) (is_word-show n) in
    rw (group_id_line, argument-phrase "group_id" (show n) refl solid_show "group_id")
      (rw (begins, after_all, value) refl)
  where
    begins : begins_digit (show n) ≡ true
    begins = rw (append-nil (show n)) at (begins_digit-show n "")

    after_all : after_digits (show n) ≡ ""
    after_all = rw (append-nil (show n)) at (after_digits-show n "" refl)

    value : digits_value 0 (show n) ≡ n
    value = rw (append-nil (show n)) at (digits_value-show n "" refl)

module _ (c : ScstConfig) (g : AluaDeviceGroupConfig) where
  abbrev in_target_group : AluaTargetGroupConfig → Reading
  in_target_group t = at (at_target_group c g t) (alua_target_group ∷ device_group_block)

  edit_target_group-at :
      (t : AluaTargetGroupConfig) (f : AluaTargetGroupConfig → AluaTargetGroupConfig)
      → edit_target_group f (at_target_group c g t) ≡ at_target_group c g (f t)
  unfolding edit_target_group
  edit_target_group-at t f =
      edit_device_group-at c (record g { target_groups = push t g.target_groups })
        (λ x. record x { target_groups = edit_last f x.target_groups })
      ∙ ap (λ ts. at_device_group c (record g { target_groups = ts }))
          (edit_last-push f t g.target_groups)

  Reads-group_id :
      (t : AluaTargetGroupConfig) (n : ℕ)
      → t.group_id ≡ 0
      → Reads
          (print_if (ltb 0 n) (print 2 ("group_id" ∷ show n ∷ [])))
          (in_target_group t)
          (in_target_group (record t { group_id = n }))
  unfolding in_block on_alua_target_group is_key is_space
  Reads-group_id t n e = elim (Bool-cases (ltb 0 n)) [
    | inl positive ↦ rw positive (
        Reads-pair 2 "group_id" (show n) refl (is_rest-word (show n) (is_word-show n)) (
          rw (group_id_line-phrase n)
            (ap (λ x. (x, none)) (edit_target_group-at t (λ x. record x { group_id = n })))))
    | inr absent ↦ let none_given : n ≡ 0 = ground arith in rw (absent, none_given, ← e) Reads-nil
  ]

  Reads-target_ref :
      (t : AluaTargetGroupConfig) (name : String)
      → is_word name ≡ true
      → Reads
          (print_ref "TARGET" 2 name)
          (in_target_group t)
          (in_target_group (record t { targets = push name t.targets }))
  unfolding print_ref in_block on_alua_target_group is_key is_space
  Reads-target_ref t name w =
      let b = solid-begins_solid name w in
      Reads-pair 2 "TARGET" name refl (is_rest-word name w) (
        rw (group_id_line-other "TARGET" name refl b refl, item-phrase "TARGET" name refl w)
          (ap (λ x. (x, none))
            (edit_target_group-at t (λ x. record x { targets = push name x.targets }))))

  Reads-target_group :
      (t : AluaTargetGroupConfig)
      → printable_target_group t ≡ true
      → Reads
          (print_target_group t)
          (at (at_device_group c g) device_group_block)
          (at (at_target_group c g t) device_group_block)
  unfolding print_target_group printable_target_group in_block on_device_group is_key is_space
  Reads-target_group t p =
      let (n, targets) = and_split (is_word t.name) _ p in
      let made : AluaTargetGroupConfig = new_target_group t.name in
      let b = begins_solid-phrase t.name "{" n in
      let opened : Reads (print 1 ("TARGET_GROUP" ∷ t.name ∷ "{" ∷ []))
          (at (at_device_group c g) device_group_block) (in_target_group made) =
        Reads-open "TARGET_GROUP" t.name n 1 refl (
          rw
            (
              item-other "TARGET_GROUP" (phrase t.name "{") refl b "DEVICE" refl,
              block-opening "TARGET_GROUP" t.name n refl "TARGET_GROUP",
            )
            (ap (λ x. (x, some alua_target_group))
              (edit_device_group-at c g (λ x. record x {
                target_groups = push (new_target_group t.name) x.target_groups;
              })))) in
      let numbered : AluaTargetGroupConfig = record made { group_id = t.group_id } in
      let body =
        Reads-each (λ x. is_word x ≡ true) (print_ref "TARGET" 2)
          (λ ts. in_target_group (record numbered { targets = ts }))
          (λ ts x. Reads-target_ref (record numbered { targets = ts }) x) [] t.targets
          (all→All is_word t.targets targets) in
      Reads-append opened
        (Reads-append (Reads-group_id made t.group_id refl) (Reads-append body (Reads-close 1)))

  Reads-device_ref :
      (name : String)
      → is_word name ≡ true
      → Reads
          (print_ref "DEVICE" 1 name)
          (at (at_device_group c g) device_group_block)
          (at (at_device_group c (record g { devices = push name g.devices })) device_group_block)
  unfolding print_ref in_block on_device_group is_key is_space
  Reads-device_ref name w = Reads-pair 1 "DEVICE" name refl (is_rest-word name w) (
      rw (item-phrase "DEVICE" name refl w) (
        ap (λ x. (x, none))
          (edit_device_group-at c g (λ x. record x { devices = push name x.devices }))))

pub Reads-device_group :
    (c : ScstConfig) (gs : List AluaDeviceGroupConfig) (g : AluaDeviceGroupConfig)
    → printable_device_group g ≡ true
    → Reads
        (print_device_group g)
        (at (record c { device_groups = gs }) [])
        (at (record c { device_groups = push g gs }) [])
unfolding print_device_group printable_device_group in_block on_top is_key is_space
Reads-device_group c gs g p =
    let (n, p1) = and_split (is_word g.name) _ p in
    let (devices, groups) = and_split (all is_word g.devices) _ p1 in
    let before : ScstConfig = record c { device_groups = gs } in
    let made : AluaDeviceGroupConfig = new_device_group g.name in
    let b = begins_solid-phrase g.name "{" n in
    let opened : Reads (print 0 ("DEVICE_GROUP" ∷ g.name ∷ "{" ∷ [])) (at before [])
        (at (at_device_group before made) device_group_block) =
      Reads-open "DEVICE_GROUP" g.name n 0 refl (
        rw
          (
            block-other "DEVICE_GROUP" (phrase g.name "{") refl b "HANDLER" refl,
            block-other "DEVICE_GROUP" (phrase g.name "{") refl b "TARGET_DRIVER" refl,
            block-opening "DEVICE_GROUP" g.name n refl "DEVICE_GROUP",
          )
          refl) in
    let first =
      Reads-each (λ x. is_word x ≡ true) (print_ref "DEVICE" 1)
        (λ ds. at (at_device_group before (record made { devices = ds })) device_group_block)
        (λ ds x. Reads-device_ref before (record made { devices = ds }) x) [] g.devices
        (all→All is_word g.devices devices) in
    let filled : AluaDeviceGroupConfig = record made { devices = g.devices } in
    let second =
      Reads-each (λ t. printable_target_group t ≡ true) print_target_group
        (λ ts.
          at (at_device_group before (record filled { target_groups = ts })) device_group_block)
        (λ ts t. Reads-target_group before (record filled { target_groups = ts }) t) []
        g.target_groups (all→All printable_target_group g.target_groups groups) in
    Reads-append opened
      (Reads-append first (Reads-append second (Reads-append (Reads-close 0) Reads-blank)))
