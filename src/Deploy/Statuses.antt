-- ===== src/Deploy/Statuses.antt =====
-- The statuses that the tasks of a deployment leave in the tables.
use esos_webui.Common.{
  Bool-cases, Checked-cases, List, Option, String, [], false, inl, inr, is_blank, ltb, none, not,
  or_else, refl, some, str_eq, template, true, ℕ, ◌%◌, ◌&&◌, ◌==◌, ◌∙◌, ◌∷◌, ◌≡◌,
}
use esos_webui.Cluster.{SanRow}
use esos_webui.Access.Middleware.{assert_san_writable}
use esos_webui.Deploy.Types.{InstallKind, DeploymentBinary, TargetStatus, TargetRow, Tables}
use esos_webui.Deploy.Tables.{
  update_job_target, append_job_target_log, with_line, target_status, target_status-update_other,
  target_status-update_set, target_status-update_kept,
}
use esos_webui.Deploy.Install.{install_output}
use esos_webui.Deploy.Runner.{
  resolved, rejected, Phase, connecting, locating, transferring, verifying, installing, ended,
  Answer, Moment, not_connected, no_local_file, remote_hash, fail, succeed, install, log_all, begin,
  start_install, resume, progress,
}

-- The status of a target whose task is in a phase.
abbrev pub phase_status : Phase → TargetStatus
phase_status connecting = TargetStatus.uploading
phase_status (locating path) = TargetStatus.uploading
phase_status (transferring path) = TargetStatus.uploading
phase_status (verifying path) = TargetStatus.uploading
phase_status (installing kind command rest) = TargetStatus.applying
phase_status (ended true) = TargetStatus.success
phase_status (ended false) = TargetStatus.failed

abbrev pub status_in : Tables → String → Option TargetStatus
status_in db id = target_status id db.targets

pub append_job_target_log-status :
    (id other line : String) (db : Tables)
    → status_in (append_job_target_log id line db) other ≡ status_in db other
unfolding append_job_target_log update_job_target
append_job_target_log-status id other line db =
    target_status-update_kept id other (λ r. record r { logs = with_line r.logs line }) db.targets
      (λ r. refl) (λ r. refl)

module _ (binary : DeploymentBinary) (id : String) (at : Moment) where
  log_all-status :
      (other : String) (lines : List String) (db : Tables)
      → status_in (log_all binary id at lines db) other ≡ status_in db other
  unfolding log_all
  log_all-status other [] db = refl
  log_all-status other (line ∷ lines) db =
      log_all-status other lines (append_job_target_log id line db)
      ∙ append_job_target_log-status id other line db

  -- What a piece of the task does to the row of its target, which was there.
  abbrev pub Ends : Tables × Phase → Type 0
  Ends r = status_in r.0 id ≡ some (phase_status r.1)

  fail-Ends :
      (message : String) (old : TargetStatus) (db : Tables)
      → status_in db id ≡ some old
      → Ends (fail binary id at message db)
  unfolding fail update_job_target
  fail-Ends message old db h =
      target_status-update_set id _ old TargetStatus.failed _ (λ r. refl) (λ r. refl)
        (append_job_target_log-status id id _ db ∙ h)

  install-Ends :
      (kind : InstallKind) (commands : List String) (db : Tables)
      → status_in db id ≡ some TargetStatus.applying
      → Ends (install binary id at kind commands db)
  unfolding install succeed update_job_target
  install-Ends kind [] db h =
      append_job_target_log-status id id "Succès" (
        update_job_target id
          (λ r. record r { status = TargetStatus.success; finished_at = some at.now }) db)
      ∙ target_status-update_set id _ TargetStatus.applying TargetStatus.success db.targets
          (λ r. refl) (λ r. refl) h
  install-Ends kind (command ∷ rest) db h = append_job_target_log-status id id _ db ∙ h

  start_install-Ends :
      (path : String) (db : Tables)
      → status_in db id ≡ some TargetStatus.uploading
      → Ends (start_install binary id at path db)
  unfolding start_install update_job_target
  start_install-Ends path db h =
      let checked = append_job_target_log id "Checksum distant OK" db in
      let applied =
        update_job_target id (λ r. record r { status = TargetStatus.applying }) checked in
      install-Ends _ _ (append_job_target_log id "Application…" applied) (
        append_job_target_log-status id id "Application…" applied
        ∙ target_status-update_set id _ TargetStatus.uploading TargetStatus.applying _ (λ r. refl)
            (λ r. refl) (append_job_target_log-status id id "Checksum distant OK" db ∙ h))

  pub begin-Ends :
      (sans : List SanRow) (san_id : String) (old : TargetStatus) (db : Tables)
      → status_in db id ≡ some old
      → Ends (begin binary id at sans san_id db)
  unfolding begin update_job_target
  begin-Ends sans san_id old db h =
      let patch : TargetRow → TargetRow = λ r. record r {
        status = TargetStatus.uploading;
        started_at = some at.now;
        error_message = none;
      } in
      let started =
        target_status-update_set id patch old TargetStatus.uploading db.targets (λ r. refl)
          (λ r. refl) h in
      elim (Checked-cases (assert_san_writable sans san_id)) [
        | inl (u, e) ↦ rw (begin, e) started
        | inr (code, m, e) ↦
            rw (begin, e)
              (fail-Ends m TargetStatus.uploading (update_job_target id patch db) started)
      ]

  pub resume-Ends :
      (p : Phase) (a : Answer p) (db : Tables)
      → status_in db id ≡ some (phase_status p)
      → Ends (resume binary id at p a db)
  unfolding resume update_job_target
  resume-Ends connecting (rejected message) db h = fail-Ends message _ db h
  resume-Ends connecting (resolved false) db h = fail-Ends not_connected _ db h
  resume-Ends connecting (resolved true) db h =
      target_status-update_kept id id _ db.targets (λ r. refl) (λ r. refl) ∙ h
  resume-Ends (locating path) (rejected message) db h = fail-Ends message _ db h
  resume-Ends (locating path) (resolved found) db h =
      elim (Bool-cases (is_blank (or_else found ""))) [
        | inl e ↦ rw (resume, e) (fail-Ends no_local_file _ db h)
        | inr e ↦ rw (resume, e) (append_job_target_log-status id id _ db ∙ h)
      ]
  resume-Ends (transferring path) (rejected message) db h = fail-Ends message _ db h
  resume-Ends (transferring path) (resolved u) db h = h
  resume-Ends (verifying path) (rejected message) db h = fail-Ends message _ db h
  resume-Ends (verifying path) (resolved stdout) db h =
      elim (Bool-cases
        (not (is_blank (remote_hash stdout)) && not (str_eq (remote_hash stdout) binary.sha256))) [
          | inl e ↦ rw (resume, e) (fail-Ends _ _ db h)
          | inr e ↦ rw (resume, e) (start_install-Ends path db h)
        ]
  resume-Ends (installing kind command rest) (rejected message) db h = fail-Ends message _ db h
  resume-Ends (installing kind command rest) (resolved res) db h =
      let after = log_all binary id at (install_output kind res) db in
      let logged = log_all-status id (install_output kind res) db ∙ h in
      elim (Bool-cases (res.code == 0)) [
        | inl e ↦ rw (resume, e) (install-Ends kind rest after logged)
        | inr e ↦ rw (resume, e) (fail-Ends _ _ after logged)
      ]
  resume-Ends (ended ok) a db h = elim a [ ]

-- A piece of a task changes the row of its own target only.
abbrev pub Frames : String → Tables → Tables → Type 0
Frames id db db' =
    (other : String) → str_eq id other ≡ false → status_in db' other ≡ status_in db other

module _ (binary : DeploymentBinary) (id : String) (at : Moment) where
  fail-Frames : (message : String) (db : Tables) → Frames id db (fail binary id at message db).0
  unfolding fail update_job_target
  fail-Frames message db other ne =
      let line = template ("Erreur: " ∷ message ∷ []) in
      target_status-update_other id other _ (append_job_target_log id line db).targets (λ r. refl)
        ne
      ∙ append_job_target_log-status id other line db

  install-Frames :
      (kind : InstallKind) (commands : List String) (db : Tables)
      → Frames id db (install binary id at kind commands db).0
  unfolding install succeed update_job_target
  install-Frames kind [] db other ne =
      append_job_target_log-status id other "Succès" (
        update_job_target id
          (λ r. record r { status = TargetStatus.success; finished_at = some at.now }) db)
      ∙ target_status-update_other id other _ db.targets (λ r. refl) ne
  install-Frames kind (command ∷ rest) db other ne = append_job_target_log-status id other _ db

  start_install-Frames :
      (path : String) (db : Tables) → Frames id db (start_install binary id at path db).0
  unfolding start_install update_job_target
  start_install-Frames path db other ne =
      let checked = append_job_target_log id "Checksum distant OK" db in
      let applied =
        update_job_target id (λ r. record r { status = TargetStatus.applying }) checked in
      install-Frames _ _ (append_job_target_log id "Application…" applied) other ne
      ∙ append_job_target_log-status id other "Application…" applied
      ∙ target_status-update_other id other _ checked.targets (λ r. refl) ne
      ∙ append_job_target_log-status id other "Checksum distant OK" db

  pub begin-Frames :
      (sans : List SanRow) (san_id : String) (db : Tables)
      → Frames id db (begin binary id at sans san_id db).0
  unfolding begin update_job_target
  begin-Frames sans san_id db other ne =
      let patch : TargetRow → TargetRow = λ r. record r {
        status = TargetStatus.uploading;
        started_at = some at.now;
        error_message = none;
      } in
      let started = target_status-update_other id other patch db.targets (λ r. refl) ne in
      elim (Checked-cases (assert_san_writable sans san_id)) [
        | inl (u, e) ↦ rw (begin, e) started
        | inr (code, m, e) ↦
            rw (begin, e) (fail-Frames m (update_job_target id patch db) other ne ∙ started)
      ]

  pub resume-Frames :
      (p : Phase) (a : Answer p) (db : Tables) → Frames id db (resume binary id at p a db).0
  unfolding resume update_job_target
  resume-Frames connecting (rejected message) db other ne = fail-Frames message db other ne
  resume-Frames connecting (resolved false) db other ne = fail-Frames not_connected db other ne
  resume-Frames connecting (resolved true) db other ne =
      target_status-update_other id other _ db.targets (λ r. refl) ne
  resume-Frames (locating path) (rejected message) db other ne = fail-Frames message db other ne
  resume-Frames (locating path) (resolved found) db other ne =
      elim (Bool-cases (is_blank (or_else found ""))) [
        | inl e ↦ rw (resume, e) (fail-Frames no_local_file db other ne)
        | inr e ↦ rw (resume, e) (append_job_target_log-status id other _ db)
      ]
  resume-Frames (transferring path) (rejected message) db other ne = fail-Frames message db other ne
  resume-Frames (transferring path) (resolved u) db other ne = refl
  resume-Frames (verifying path) (rejected message) db other ne = fail-Frames message db other ne
  resume-Frames (verifying path) (resolved stdout) db other ne =
      elim (Bool-cases
        (not (is_blank (remote_hash stdout)) && not (str_eq (remote_hash stdout) binary.sha256))) [
          | inl e ↦ rw (resume, e) (fail-Frames _ db other ne)
          | inr e ↦ rw (resume, e) (start_install-Frames path db other ne)
        ]
  resume-Frames (installing kind command rest) (rejected message) db other ne =
      fail-Frames message db other ne
  resume-Frames (installing kind command rest) (resolved res) db other ne =
      let after = log_all binary id at (install_output kind res) db in
      let logged = log_all-status binary id at other (install_output kind res) db in
      elim (Bool-cases (res.code == 0)) [
        | inl e ↦ rw (resume, e) (install-Frames kind rest after other ne ∙ logged)
        | inr e ↦ rw (resume, e) (fail-Frames _ after other ne ∙ logged)
      ]
  resume-Frames (ended ok) a db other ne = elim a [ ]

pub progress-status :
    (id other : String) (done total : ℕ) (db : Tables)
    → status_in (progress id done total db) other ≡ status_in db other
unfolding progress
progress-status id other done total db =
    elim (Bool-cases (ltb 0 total && ltb (done % 524288) 393216)) [
      | inl e ↦ rw (progress, e) (append_job_target_log-status id other _ db)
      | inr e ↦ rw (progress, e) refl
    ]
