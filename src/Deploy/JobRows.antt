-- ===== src/Deploy/JobRows.antt =====
-- The tasks of a deployment do not write the table of jobs.
use esos_webui.Common.{
  Bool-cases, Checked-cases, List, String, [], false, inl, inr, is_blank, ltb, not, or_else, refl,
  str_eq, true, ℕ, ◌%◌, ◌&&◌, ◌==◌, ◌∙◌, ◌∷◌, ◌≡◌,
}
use esos_webui.Cluster.{SanRow}
use esos_webui.Access.Middleware.{assert_san_writable}
use esos_webui.Deploy.Types.{InstallKind, DeploymentBinary, TargetRow, Tables}
use esos_webui.Deploy.Tables.{update_job_target, append_job_target_log}
use esos_webui.Deploy.Install.{install_output, install_kind, install_commands}
use esos_webui.Deploy.Runner.{
  resolved, rejected, Phase, connecting, locating, transferring, verifying, installing, ended,
  Answer, Moment, remote_hash, fail, succeed, install, log_all, begin, start_install, resume,
  progress,
}
use esos_webui.Deploy.Jobs.{
  Task, begin_all, Advance, here, there, Runs, started, answered, progressed,
}

module _ (binary : DeploymentBinary) (id : String) (at : Moment) where
  log_all-jobs :
      (lines : List String) (db : Tables) → (log_all binary id at lines db).jobs ≡ db.jobs
  unfolding log_all append_job_target_log update_job_target
  log_all-jobs [] db = refl
  log_all-jobs (line ∷ lines) db = log_all-jobs lines (append_job_target_log id line db)

  install-jobs :
      (kind : InstallKind) (commands : List String) (db : Tables)
      → (install binary id at kind commands db).0.jobs ≡ db.jobs
  unfolding install succeed append_job_target_log update_job_target
  install-jobs kind [] db = refl
  install-jobs kind (command ∷ rest) db = refl

  start_install-jobs :
      (path : String) (db : Tables) → (start_install binary id at path db).0.jobs ≡ db.jobs
  unfolding start_install append_job_target_log update_job_target
  start_install-jobs path db =
      install-jobs (install_kind binary)
        (install_commands at.random binary path (install_kind binary)) _

  begin-jobs :
      (sans : List SanRow) (san_id : String) (db : Tables)
      → (begin binary id at sans san_id db).0.jobs ≡ db.jobs
  unfolding begin fail append_job_target_log update_job_target
  begin-jobs sans san_id db = elim (Checked-cases (assert_san_writable sans san_id)) [
    | inl (u, e) ↦ rw (begin, e) refl
    | inr (code, m, e) ↦ rw (begin, e) refl
  ]

  resume-jobs :
      (p : Phase) (a : Answer p) (db : Tables) → (resume binary id at p a db).0.jobs ≡ db.jobs
  unfolding resume fail append_job_target_log update_job_target
  resume-jobs connecting (rejected message) db = refl
  resume-jobs connecting (resolved false) db = refl
  resume-jobs connecting (resolved true) db = refl
  resume-jobs (locating path) (rejected message) db = refl
  resume-jobs (locating path) (resolved found) db =
      elim (Bool-cases (is_blank (or_else found ""))) [
        | inl e ↦ rw (resume, e) refl
        | inr e ↦ rw (resume, e) refl
      ]
  resume-jobs (transferring path) (rejected message) db = refl
  resume-jobs (transferring path) (resolved u) db = refl
  resume-jobs (verifying path) (rejected message) db = refl
  resume-jobs (verifying path) (resolved stdout) db =
      elim (Bool-cases
        (not (is_blank (remote_hash stdout)) && not (str_eq (remote_hash stdout) binary.sha256))) [
          | inl e ↦ rw (resume, e) refl
          | inr e ↦ rw (resume, e) (start_install-jobs path db)
        ]
  resume-jobs (installing kind command rest) (rejected message) db = refl
  resume-jobs (installing kind command rest) (resolved res) db =
      let after = log_all binary id at (install_output kind res) db in
      let logged = log_all-jobs (install_output kind res) db in
      elim (Bool-cases (res.code == 0)) [
        | inl e ↦ rw (resume, e) (install-jobs kind rest after ∙ logged)
        | inr e ↦ rw (resume, e) logged
      ]
  resume-jobs (ended ok) a db = elim a [ ]

progress-jobs :
    (id : String) (done total : ℕ) (db : Tables) → (progress id done total db).jobs ≡ db.jobs
unfolding progress append_job_target_log update_job_target
progress-jobs id done total db = elim (Bool-cases (ltb 0 total && ltb (done % 524288) 393216)) [
  | inl e ↦ rw (progress, e) refl
  | inr e ↦ rw (progress, e) refl
]

module _ (binary : DeploymentBinary) where
  Advance-jobs :
      {db db' : Tables} {ts ts' : List Task} → Advance binary db ts db' ts' → db'.jobs ≡ db.jobs
  Advance-jobs (here {db} id p at a) = resume-jobs binary id at p a db
  Advance-jobs (there t step) = Advance-jobs step

  pub Runs-jobs :
      {db : Tables} {ts : List Task} {n : ℕ} {db' : Tables} {ts' : List Task}
      → Runs binary db ts n db' ts'
      → db'.jobs ≡ db.jobs
  Runs-jobs started = refl
  Runs-jobs (answered run step) = Advance-jobs step ∙ Runs-jobs run
  Runs-jobs (progressed {db1 = db1} id done total run) =
      progress-jobs id done total db1 ∙ Runs-jobs run

  pub begin_all-jobs :
      (at : Moment) (sans : List SanRow) (rs : List TargetRow) (db : Tables)
      → (begin_all binary at sans rs db).0.jobs ≡ db.jobs
  unfolding begin_all
  begin_all-jobs at sans [] db = refl
  begin_all-jobs at sans (r ∷ rs) db =
      begin_all-jobs at sans rs (begin binary r.id at sans r.san_id db).0
      ∙ begin-jobs binary r.id at sans r.san_id db
