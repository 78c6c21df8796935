-- ===== src/Scst/Conf/Safe.antt =====
-- parseScstConfSafe of server/utils/scst-conf-parser.ts against parseScstConf.
use Prim.Native.Char.{code}
use Prim.Native.String.{[], ◌∷◌}
use esos_webui.Common.{
  Bool-cases, List, String, [], all, all_space, and_split, ap, inl, inr, is_blank, is_space, refl,
  sym, trim, trim_end, trim_start, true, ◌&&◌, ◌==◌, ◌||◌, ◌∷◌, ◌≡◌,
}
use esos_webui.Scst.Conf.Edits.{Reading}
use esos_webui.Scst.Conf.Parser.{
  add_char, split_lines, on_line, read_lines, start, parse_scst_conf, parse_scst_conf_safe,
}

trim_end-blank : (s : String) → is_blank (trim_end s) ≡ true → all_space s ≡ true
unfolding trim_end all_space
trim_end-blank [] h = refl
trim_end-blank (c ∷ s) h = elim (Bool-cases (is_space c && all_space s)) [
  | inl e ↦ e
  | inr e ↦ absurd (cc (rw e at h))
]

trim_start-all_space : (s : String) → all_space (trim_start s) ≡ true → all_space s ≡ true
unfolding trim_start all_space
trim_start-all_space [] h = refl
trim_start-all_space (c ∷ s) h = elim (Bool-cases (is_space c)) [
  | inl e ↦ rw e (trim_start-all_space s (rw e at h))
  | inr e ↦ rw e at h
]

trim-all_space : (s : String) → all_space s ≡ true → trim s ≡ ""
unfolding trim trim_start all_space
trim-all_space s h = go s h
  where
    go : (s : String) → all_space s ≡ true → trim s ≡ ""
    go [] h = refl
    go (c ∷ s) h =
        let (here, later) = and_split (is_space c) (all_space s) h in rw here (go s later)

-- A text of white space is split into lines of white space.
split_lines-all_space : (s : String) → all_space s ≡ true → all all_space (split_lines s) ≡ true
unfolding split_lines all all_space
split_lines-all_space [] h = refl
split_lines-all_space (c ∷ s) h =
    let (here, later) = and_split (is_space c) (all_space s) h in
    let rest = split_lines-all_space s later in
    elim (Bool-cases (code c == 10)) [
      | inl e ↦ rw e rest
      | inr e ↦ rw e (first (split_lines s) rest here)
    ]
  where
    first :
        (lines : List String)
        → all all_space lines ≡ true
        → is_space c ≡ true
        → all all_space (add_char c lines) ≡ true
    first [] r h = rw h refl
    first (line ∷ lines) r h = rw h r

read_lines-all_space :
    (lines : List String) (r : Reading) → all all_space lines ≡ true → read_lines lines r ≡ r
unfolding read_lines all on_line
read_lines-all_space [] r h = refl
read_lines-all_space (line ∷ lines) r h =
    let (here, later) = and_split (all_space line) (all all_space lines) h in
    rw (trim-all_space line here) (read_lines-all_space lines r later)

trim-blank : (s : String) → (is_blank s || is_blank (trim s)) ≡ true → all_space s ≡ true
unfolding trim all_space
trim-blank [] h = refl
trim-blank (c ∷ s) h = trim_start-all_space (c ∷ s) (trim_end-blank (trim_start (c ∷ s)) h)

-- On every text the tolerant reader, which looks for an empty text first, gives the configuration
-- that the reader gives.
pub parse_scst_conf_safe-parse_scst_conf :
    (raw : String) → parse_scst_conf_safe raw ≡ parse_scst_conf raw
unfolding parse_scst_conf_safe parse_scst_conf
parse_scst_conf_safe-parse_scst_conf raw = elim (Bool-cases (is_blank raw || is_blank (trim raw))) [
  | inl e ↦
      let blank : all_space raw ≡ true = trim-blank raw e in
      rw e (
        sym (
          ap (λ r. r.config)
            (read_lines-all_space (split_lines raw) start (split_lines-all_space raw blank))))
  | inr e ↦ rw e refl
]
