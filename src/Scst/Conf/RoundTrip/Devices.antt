-- ===== src/Scst/Conf/RoundTrip/Devices.antt =====
-- The HANDLER blocks of scst.conf and the devices in them.
use text.Mathlib.TextEquality.{eq_iff}
use esos_webui.Common.{
  Bool-cases, List, String, [], all→All, and_split, ap, arith, false, includes, inl, inr, insert,
  is_blank, is_space, none, not, refl, some, str_eq, sym, true, ◌||◌, ◌∙◌, ◌∷◌, ◌≡◌,
}
use esos_webui.Scst.Types.{Device, Handler, ScstConfig}
use esos_webui.Scst.Conf.Edits.{
  Reading, handler, device, push, edit_handler, edit_device, new_handler, new_device,
}
use esos_webui.Scst.Conf.Parser.{block, on_top, on_handler, on_device, in_block}
use esos_webui.Scst.Conf.Printer.{
  print, print_each, print_if, print_attr, print_device, print_handler,
}
use esos_webui.Scst.Conf.Phrases.{is_word}
use esos_webui.Scst.Conf.Lines.{is_value, attribute-phrase, is_key, is_key-split}
use esos_webui.Scst.Conf.Reads.{
  Reads, at, Reads-nil, Reads-append, Reads-each, is_rest-value, Reads-close, Reads-blank,
}
use esos_webui.Scst.Conf.Printable.{printable_attrs, printable_device, printable_handler}
use esos_webui.Scst.Conf.RoundTrip.Attrs.{
  edit_last-push, block-opening, Reads-open, Reads-pair, Reads-attrs, str_eq-swap, blank→eq,
}

-- The configuration while the last handler, or its last device, is read.
abbrev at_handler : ScstConfig → Handler → ScstConfig
at_handler c h = record c { handlers = push h c.handlers }

abbrev at_device : ScstConfig → Handler → Device → ScstConfig
at_device c h d = at_handler c (record h { devices = push d h.devices })

edit_handler-at :
    (f : Handler → Handler) (c : ScstConfig) (h : Handler)
    → edit_handler f (at_handler c h) ≡ at_handler c (f h)
unfolding edit_handler
edit_handler-at f c h = ap (λ hs. record c { handlers = hs }) (edit_last-push f h c.handlers)

edit_device-at :
    (f : Device → Device) (c : ScstConfig) (h : Handler) (d : Device)
    → edit_device f (at_device c h d) ≡ at_device c h (f d)
unfolding edit_device
edit_device-at f c h d =
    edit_handler-at _ c (record h { devices = push d h.devices })
    ∙ ap (λ ds. at_handler c (record h { devices = ds })) (edit_last-push f d h.devices)

module _ (c : ScstConfig) (h : Handler) where
  -- The reader inside a device's block.
  abbrev in_device : Device → Reading
  in_device d = at (at_device c h d) (device ∷ handler ∷ [])

  Reads-filename :
      (d : Device) (f : String)
      → d.filename ≡ ""
      → (is_blank f || is_value f) ≡ true
      → Reads
          (print_if (not (is_blank f)) (print 2 ("filename" ∷ f ∷ [])))
          (in_device d)
          (in_device (record d { filename = f }))
  unfolding in_block on_device is_key is_space
  Reads-filename d f e ok = elim (Bool-cases (is_blank f)) [
    | inl b ↦ rw (b, blank→eq f b, ← e) Reads-nil
    | inr b ↦
        let v : is_value f ≡ true = rw b at ok in
        rw b (
          Reads-pair 2 "filename" f refl (is_rest-value f v) (
            rw (attribute-phrase "filename" f refl v)
              (ap (λ x. (x, none)) (edit_device-at (λ d'. record d' { filename = f }) c h d))))
  ]

  Reads-device_attrs :
      (d : Device)
      → printable_attrs ("filename" ∷ []) [] d.attrs ≡ true
      → Reads (print_each print_attr d.attrs) (in_device (record d { attrs = [] })) (in_device d)
  unfolding print_attr in_block on_device includes
  Reads-device_attrs d p =
      Reads-attrs ("filename" ∷ []) (λ attrs. in_device (record d { attrs = attrs }))
        (λ k v attrs hk hv free.
          let other : str_eq k "filename" ≡ false = str_eq-swap "filename" k (ground arith) in
          Reads-pair 2 k v hk (is_rest-value v hv) (
            rw (attribute-phrase k v (is_key-split k hk).0 hv, other)
              (ap (λ x. (x, none))
                (edit_device-at (λ d'. record d' { attrs = insert k v d'.attrs }) c h
                  (record d { attrs = attrs })))))
        [] d.attrs p

  Reads-device :
      (d : Device)
      → printable_device h.name d ≡ true
      → Reads
          (print_device d)
          (at (at_handler c h) (handler ∷ []))
          (at (at_device c h d) (handler ∷ []))
  unfolding print_device printable_device in_block on_handler block
  Reads-device d p =
      let (n, p1) = and_split (is_word d.name) _ p in
      let (same, p2) = and_split (str_eq d.handler h.name) _ p1 in
      let (f, attrs) = and_split (is_blank d.filename || is_value d.filename) _ p2 in
      let made : Device = new_device h.name d.name in
      let opened : Reads (print 1 ("DEVICE" ∷ d.name ∷ "{" ∷ []))
          (at (at_handler c h) (handler ∷ [])) (in_device made) =
        Reads-open "DEVICE" d.name n 1 refl (
          rw (block-opening "DEVICE" d.name n refl "DEVICE")
            (ap (λ x. (x, some device)) (edit_handler-at _ c h))) in
      let full : Device = record made { filename = d.filename; attrs = d.attrs } in
      let whole : full ≡ d =
        ap (λ x. record d { handler = x }) (sym ((eq_iff d.handler h.name).0 same)) in
      let body = Reads-append (Reads-device_attrs full attrs) (Reads-close 1) in
      rw whole at (Reads-append opened (Reads-append (Reads-filename made d.filename refl f) body))

pub Reads-handler :
    (c : ScstConfig) (hs : List Handler) (h : Handler)
    → printable_handler h ≡ true
    → Reads
        (print_handler h)
        (at (record c { handlers = hs }) [])
        (at (record c { handlers = push h hs }) [])
unfolding print_handler printable_handler in_block on_top
Reads-handler c hs h p =
    let (n, devices) = and_split (is_word h.name) _ p in
    let before : ScstConfig = record c { handlers = hs } in
    let opened : Reads (print 0 ("HANDLER" ∷ h.name ∷ "{" ∷ [])) (at before [])
        (at (at_handler before (new_handler h.name)) (handler ∷ [])) =
      Reads-open "HANDLER" h.name n 0 refl
        (rw (block-opening "HANDLER" h.name n refl "HANDLER") refl) in
    let body =
      Reads-each (λ d. printable_device h.name d ≡ true) print_device
        (λ ds. at (at_handler before (record h { devices = ds })) (handler ∷ []))
        (λ ds d ok. Reads-device before (record h { devices = ds }) d ok) [] h.devices
        (all→All (printable_device h.name) h.devices devices) in
    Reads-append opened (Reads-append body (Reads-append (Reads-close 0) Reads-blank))
