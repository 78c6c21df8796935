-- ===== src/Scst/File.antt =====
-- The operations of server/utils/scst-config-writer.ts on the file scst.conf: each reads it
-- (readScstConfig of server/utils/scst-config-reader.ts), changes the configuration and writes it
-- (serializeScstConfig and writeAndReloadScst). The `cat` and the write are taken to succeed, and the
-- text that is read is the one last written.
use esos_webui.Common.{
  List, Option, String, [], all, and_split, ap, inl, inr, none, refl, some, true, ◌∙◌, ◌∷◌, ◌≡◌,
  ◌⊎◌,
}
use esos_webui.Scst.Types.{
  Lun, Group, Target, Driver, Device, Handler, AluaTargetGroupConfig, AluaDeviceGroupConfig,
  ScstConfig,
}
use esos_webui.Scst.Mutators.{Update, written, threw}
use esos_webui.Scst.Sound.Mutate.{Mutation, mutate}
use esos_webui.Scst.Conf.Parser.{parse_scst_conf, parse_scst_conf_safe}
use esos_webui.Scst.Conf.Printer.{serialize_scst_config}
use esos_webui.Scst.Conf.Printable.{printable}
use esos_webui.Scst.Conf.Safe.{parse_scst_conf_safe-parse_scst_conf}
use esos_webui.Scst.Conf.RoundTrip.{parse_scst_conf-serialize_scst_config}
use esos_webui.Scst.File.Mutate.{admissible, mutate-printable}
mod Words
mod Kept
mod Devices
mod Updates
pub mod Mutate
mod Tests

-- `readScstConfig`, on the output of `cat`.
unfoldable pub read_scst_config : String → ScstConfig
unfolding parse_scst_conf_safe
read_scst_config file = parse_scst_conf_safe file

-- An operation on the file: the new text, and the error that it throws.
unfoldable pub run : Mutation → String → String × Option String
unfolding read_scst_config mutate serialize_scst_config
run m file = elim (mutate m (read_scst_config file)) [
  | written c ↦ (serialize_scst_config c, none)
  | threw message ↦ (file, some message)
]

unfoldable pub run_all : List Mutation → String → String × List (Option String)
unfolding run
run_all [] file = (file, [])
run_all (m ∷ ms) file =
    let (next, error) = run m file in let (last, errors) = run_all ms next in (last, error ∷ errors)

-- The same operations on the configuration itself, which is what they promise.
unfoldable pub apply : Mutation → ScstConfig → ScstConfig × Option String
unfolding mutate
apply m c = elim (mutate m c) [ written c' ↦ (c', none) | threw message ↦ (c, some message) ]

unfoldable pub apply_all : List Mutation → ScstConfig → ScstConfig × List (Option String)
unfolding apply
apply_all [] c = (c, [])
apply_all (m ∷ ms) c =
    let (next, error) = apply m c in
    let (last, errors) = apply_all ms next in (last, error ∷ errors)

read-serialize :
    (c : ScstConfig) → printable c ≡ true → read_scst_config (serialize_scst_config c) ≡ c
unfolding read_scst_config
read-serialize c p =
    parse_scst_conf_safe-parse_scst_conf (serialize_scst_config c)
    ∙ parse_scst_conf-serialize_scst_config c p

Update-cases : (u : Update) → ((c : ScstConfig) × (u ≡ written c)) ⊎ ((e : String) × (u ≡ threw e))
Update-cases (written c) = inl (c, refl)
Update-cases (threw e) = inr (e, refl)

-- One operation on the text does what it does on the configuration, which stays printable.
run-apply :
    (m : Mutation) (c : ScstConfig)
    → admissible m ≡ true
    → printable c ≡ true
    → (run m (serialize_scst_config c) ≡ (serialize_scst_config (apply m c).0, (apply m c).1))
      × (printable (apply m c).0 ≡ true)
unfolding run apply
run-apply m c w p =
    let same = read-serialize c p in
    elim (Update-cases (mutate m c)) [
      | inl (c', e) ↦ (rw (run, apply, same, e) refl, rw (apply, e) (mutate-printable m c c' w p e))
      | inr (message, e) ↦ (rw (run, apply, same, e) refl, rw (apply, e) p)
    ]

run_all-serialize :
    (ms : List Mutation) (c : ScstConfig)
    → all admissible ms ≡ true
    → printable c ≡ true
    → (run_all ms (serialize_scst_config c)
        ≡ (serialize_scst_config (apply_all ms c).0, (apply_all ms c).1))
      × (printable (apply_all ms c).0 ≡ true)
unfolding run_all apply_all all
run_all-serialize [] c w p = (refl, p)
run_all-serialize (m ∷ ms) c w p =
    let (here, later) = and_split (admissible m) (all admissible ms) w in
    let (step, kept) = run-apply m c here p in
    let (steps, end) = run_all-serialize ms (apply m c).0 later kept in
    (rw (run_all, step, steps) refl, end)

-- On the text of a printable configuration, any operations on targets, groups, LUNs and devices (with
-- names and texts fit for the file, where no check looks at them), one after the other, throw the
-- same errors as on the configuration itself, and the text they leave is read as the configuration
-- they leave there.
pub run_all-apply_all :
    (ms : List Mutation) (c : ScstConfig)
    → all admissible ms ≡ true
    → printable c ≡ true
    → (read_scst_config (run_all ms (serialize_scst_config c)).0 ≡ (apply_all ms c).0)
      × ((run_all ms (serialize_scst_config c)).1 ≡ (apply_all ms c).1)
run_all-apply_all ms c w p =
    let (steps, kept) = run_all-serialize ms c w p in
    (
      ap (λ r. read_scst_config r.0) steps ∙ read-serialize (apply_all ms c).0 kept,
      ap (λ r. r.1) steps,
    )
