-- ===== src/Scst/File/Devices.antt =====
-- The operations on devices keep the configuration printable.
use text.Mathlib.TextEquality.{eq_iff}
use esos_webui.Common.{
  Bool-cases, List, String, [], all, and_split, ap, inl, inr, is_blank, is_empty, refl, sym, trim,
  true, ◌||◌, ◌∙◌, ◌∷◌, ◌≡◌,
}
use esos_webui.Scst.Types.{Device, Handler, ScstConfig}
use esos_webui.Scst.Luns.{is_device_name}
use esos_webui.Scst.Mutators.{written, drop_first}
use esos_webui.Scst.Devices.{
  is_handler, is_device, has_device, add_device, create_device, drop_device, delete_device,
}
use esos_webui.Scst.Sound.Devices.{create_device-written, delete_device-written}
use esos_webui.Scst.Conf.Phrases.{is_word}
use esos_webui.Scst.Conf.Lines.{is_value}
use esos_webui.Scst.Conf.Printable.{printable_attrs, printable_device, printable_handler, printable}
use esos_webui.Scst.File.Words.{device_name-word}
use esos_webui.Scst.Kept.{all-edit, all-drop, all-push}

handlers_printable :
    (hs : List Handler) (c : ScstConfig)
    → (all printable_handler c.handlers ≡ true → all printable_handler hs ≡ true)
    → printable c ≡ true
    → printable (record c { handlers = hs }) ≡ true
unfolding printable
handlers_printable hs c k h =
    let (handlers, rest) = and_split (all printable_handler c.handlers) _ h in rw (k handlers) rest

module _ (hn dn file : String) (attrs : List (String × String)) (w : is_word hn ≡ true)
    (path : (is_blank (trim file) || is_value (trim file)) ≡ true)
    (ok : printable_attrs ("filename" ∷ []) [] attrs ≡ true)
    (valid : is_device_name dn ≡ true) where
  abbrev made : Device
  made = record { name = dn; handler = hn; filename = trim file; attrs = attrs }

  made-printable : printable_device hn made ≡ true
  unfolding printable_device
  made-printable = rw (device_name-word dn valid, (eq_iff hn hn).1 refl, path) ok

  new_handler-printable : printable_handler (record { name = hn; devices = made ∷ [] }) ≡ true
  unfolding printable_handler all
  new_handler-printable = rw (w, made-printable) refl

  add_device-printable :
      (h : Handler)
      → is_handler hn h ≡ true
      → printable_handler h ≡ true
      → printable_handler (add_device made h) ≡ true
  unfolding printable_handler
  add_device-printable h named_so p =
      let (word_h, ds) = and_split (is_word h.name) (all (printable_device h.name) h.devices) p in
      let same : hn ≡ h.name = sym ((eq_iff h.name hn).0 named_so) in
      let fits : printable_device h.name made ≡ true =
        ap (λ x. printable_device x made) (sym same) ∙ made-printable in
      rw word_h (all-push (printable_device h.name) made h.devices ds fits)

pub create_device-printable :
    (hn dn file : String) (attrs : List (String × String)) (c c' : ScstConfig)
    → is_word hn ≡ true
    → (is_blank (trim file) || is_value (trim file)) ≡ true
    → printable_attrs ("filename" ∷ []) [] attrs ≡ true
    → printable c ≡ true
    → create_device hn dn file attrs c ≡ written c'
    → printable c' ≡ true
create_device-printable hn dn file attrs c c' w path ok s h =
    let (valid, outcome) = create_device-written hn dn file attrs c c' h in
    elim outcome [
      | inl e ↦
          ap printable (sym e)
          ∙ handlers_printable _ c
              (λ hs.
                all-push printable_handler _ c.handlers hs
                  (new_handler-printable hn dn file attrs w path ok valid))
              s
      | inr e ↦
          ap printable (sym e)
          ∙ handlers_printable _ c
              (λ hs.
                all-edit printable_handler (is_handler hn) _ c.handlers
                  (λ x. add_device-printable hn dn file attrs w path ok valid x) hs)
              s
    ]

drop_device-printable :
    (dn : String) (hs : List Handler)
    → all printable_handler hs ≡ true
    → all printable_handler (drop_device dn hs) ≡ true
unfolding drop_device all printable_handler
drop_device-printable dn [] h = h
drop_device-printable dn (x ∷ hs) h =
    let (first, later) = and_split (printable_handler x) (all printable_handler hs) h in
    let (w, ds) = and_split (is_word x.name) (all (printable_device x.name) x.devices) first in
    let kept = drop_first (is_device dn) x.devices in
    elim (Bool-cases (has_device dn x)) [
      | inr other ↦ rw (drop_device, other, first) (drop_device-printable dn hs later)
      | inl found ↦ elim (Bool-cases (is_empty kept)) [
        | inl bare ↦ rw (drop_device, found, bare) later
        | inr more ↦
            rw
              (
                drop_device,
                found,
                more,
                w,
                all-drop (printable_device x.name) (is_device dn) x.devices ds,
              )
              later
      ]
    ]

pub delete_device-printable :
    (dn : String) (c c' : ScstConfig)
    → printable c ≡ true
    → delete_device dn c ≡ written c'
    → printable c' ≡ true
delete_device-printable dn c c' s h =
    ap printable (sym (delete_device-written dn c c' h).1)
    ∙ handlers_printable (drop_device dn c.handlers) c (drop_device-printable dn c.handlers) s
