-- ===== src/Scst/Sound/Devices.antt =====
-- The operations on devices leave the drivers as they are.
use esos_webui.Common.{
  Bool-cases, List, Option-cases, String, [], any, ap, arith, find, inl, inr, is_blank, length, ltb,
  not, select, str_eq, sym, trim, true, ◌&&◌, ◌++◌, ◌∷◌, ◌≡◌, ◌⊎◌,
}
use esos_webui.Scst.Types.{ScstConfig}
use esos_webui.Scst.Luns.{is_device_name}
use esos_webui.Scst.Mutators.{written, edit_first}
use esos_webui.Scst.Devices.{
  is_handler, has_device, add_device, create_device, drivers_luns, drop_device, delete_device,
}

-- What a created device is written as, in a handler that is new or is there.
pub create_device-written :
    (hn dn file : String) (attrs : List (String × String)) (c c' : ScstConfig)
    → create_device hn dn file attrs c ≡ written c'
    → (is_device_name dn ≡ true)
      × ((record c {
        handlers =
            c.handlers
            ++ (record {
              name = hn;
              devices =
                  record { name = dn; handler = hn; filename = trim file; attrs = attrs } ∷ [];
            }
                ∷ []);
      }
            ≡ c')
          ⊎ (record c {
            handlers =
                edit_first
                  (is_handler hn)
                  (add_device
                    (record { name = dn; handler = hn; filename = trim file; attrs = attrs }))
                  c.handlers;
          }
              ≡ c'))
unfolding create_device
create_device-written hn dn file attrs c c' h = elim (Bool-cases (is_device_name dn)) [
  | inr bad ↦ absurd (cc (rw (create_device, bad) at h))
  | inl valid ↦ elim (Bool-cases (not (str_eq hn "nullio") && is_blank (trim file))) [
    | inl nameless ↦ absurd (cc (rw (create_device, valid, nameless) at h))
    | inr filed ↦ elim (Option-cases (find (is_handler hn) c.handlers)) [
      | inl missing ↦ (valid, inl (cc (rw (create_device, valid, filed, missing) at h)))
      | inr (x, found) ↦ elim (Bool-cases (has_device dn x)) [
        | inl taken ↦ absurd (cc (rw (create_device, valid, filed, found, taken) at h))
        | inr free ↦
            elim (Option-cases (find (λ d. str_eq (trim d.filename) (trim file)) x.devices)) [
              | inr (d, used) ↦
                  absurd (cc (rw (create_device, valid, filed, found, free, used) at h))
              | inl unused ↦
                  (valid, inr (cc (rw (create_device, valid, filed, found, free, unused) at h)))
            ]
      ]
    ]
  ]
]

pub delete_device-written :
    (dn : String) (c c' : ScstConfig)
    → delete_device dn c ≡ written c'
    → (length (select (λ l. str_eq l.device dn) (drivers_luns c.drivers)) ≡ 0)
      × (record c { handlers = drop_device dn c.handlers } ≡ c')
unfolding delete_device
delete_device-written dn c c' h =
    let count = length (select (λ l. str_eq l.device dn) (drivers_luns c.drivers)) in
    elim (Bool-cases (ltb 0 count)) [
      | inl used ↦ absurd (cc (rw (delete_device, used) at h))
      | inr unused ↦ elim (Bool-cases (any (has_device dn) c.handlers)) [
        | inl there_is ↦ (ground arith, cc (rw (delete_device, unused, there_is) at h))
        | inr missing ↦ absurd (cc (rw (delete_device, unused, missing) at h))
      ]
    ]

pub create_device-drivers :
    (hn dn file : String) (attrs : List (String × String)) (c c' : ScstConfig)
    → create_device hn dn file attrs c ≡ written c'
    → c'.drivers ≡ c.drivers
create_device-drivers hn dn file attrs c c' h =
    elim ((create_device-written hn dn file attrs c c' h).1) [
      | inl e ↦ ap (λ x. x.drivers) (sym e)
      | inr e ↦ ap (λ x. x.drivers) (sym e)
    ]

pub delete_device-drivers :
    (dn : String) (c c' : ScstConfig) → delete_device dn c ≡ written c' → c'.drivers ≡ c.drivers
delete_device-drivers dn c c' h = ap (λ x. x.drivers) (sym (delete_device-written dn c c' h).1)
