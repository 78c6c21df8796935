-- ===== src/Deploy/Runner.antt =====
-- `runTarget` and `runDeploymentJob` of server/utils/deployment-job-runner.ts. A target's task is cut
-- at its awaits: `Phase` says what it waits for, and `resume` runs it on, with the answer, to the
-- next await. Other tasks run in between. The SSH pool, the files and the nodes enter as answers; a
-- rejected promise is `rejected`.
use Prim.Native.String.{[], ◌∷◌}
use esos_webui.Common.{
  Bool, List, Option, String, [], false, if◌then◌else◌, is_blank, ltb, none, not, or_else, passed,
  refused, show, some, str_eq, suc, template, trim, true, zero, ℕ, ◌%◌, ◌&&◌, ◌*◌, ◌+◌, ◌/◌, ◌==◌,
  ◌∷◌,
}
use esos_webui.Cluster.{SanRow}
use esos_webui.Access.Middleware.{assert_san_writable}
use esos_webui.Lvm.Execute.{ExecResult}
use esos_webui.Scst.Conf.Words.{word}
use esos_webui.Deploy.Types.{InstallKind, DeploymentBinary, TargetStatus, Tables}
use esos_webui.Deploy.Tables.{update_job_target, append_job_target_log}
use esos_webui.Deploy.Install.{
  remote_staging_path, install_kind, install_commands, install_error, install_output,
}

pub data Outcome {ℓ} (A : Type ℓ) : Type ℓ where
  resolved : A → Outcome A
  rejected : String → Outcome A

pub data Phase : Type 0 where
  connecting : Phase
  locating : String → Phase
  transferring : String → Phase
  verifying : String → Phase
  -- The command that runs, and those after it.
  installing : InstallKind → String → List String → Phase
  ended : Bool → Phase

-- What a task in a phase waits for: the readiness of the manager, the local path, the end of the
-- transfer, the output of `sha256sum`, the result of a command.
abbrev pub Answer : Phase → Type 0
Answer connecting = Outcome Bool
Answer (locating path) = Outcome (Option String)
Answer (transferring path) = Outcome (Unit {0})
Answer (verifying path) = Outcome String
Answer (installing kind command rest) = Outcome ExecResult
Answer (ended ok) = ⊥

-- The binary, the time, and the random parts of the paths.
pub record Moment : Type 0 where
  pub now : String
  pub random : String

-- `sha256.slice(0, n)`, of characters in the basic plane.
unfoldable pub first_chars : ℕ → String → String
first_chars zero s = ""
first_chars (suc n) [] = []
first_chars (suc n) (c ∷ s) = c ∷ first_chars n s

-- The messages of the errors that a task throws itself.
abbrev pub not_connected : String
not_connected = "SSH non connecté"

abbrev pub no_local_file : String
no_local_file = "Fichier binaire introuvable sur le conteneur WebUI"

-- `stdout.trim().split(/\s/)[0]`
unfoldable pub remote_hash : String → String
unfolding trim word
remote_hash stdout = word (trim stdout)

module _ (binary : DeploymentBinary) (id : String) (at : Moment) where
  -- The `catch` block.
  unfoldable pub fail : String → Tables → Tables × Phase
  unfolding update_job_target append_job_target_log template
  fail message db = (
    update_job_target id
        (λ r. record r {
          status = TargetStatus.failed;
          error_message = some message;
          finished_at = some at.now;
        })
        (append_job_target_log id (template ("Erreur: " ∷ message ∷ [])) db),
    ended false,
  )

  unfoldable pub succeed : Tables → Tables × Phase
  unfolding update_job_target append_job_target_log
  succeed db = (
    append_job_target_log id "Succès" (
        update_job_target id
          (λ r. record r { status = TargetStatus.success; finished_at = some at.now }) db),
    ended true,
  )

  -- The next command of `applyInstall`, or its return.
  unfoldable pub install : InstallKind → List String → Tables → Tables × Phase
  unfolding append_job_target_log template succeed
  install kind [] db = succeed db
  install kind (command ∷ rest) db =
      (append_job_target_log id (template ("$ " ∷ command ∷ [])) db, installing kind command rest)

  unfoldable pub log_all : List String → Tables → Tables
  unfolding append_job_target_log
  log_all [] db = db
  log_all (line ∷ lines) db = log_all lines (append_job_target_log id line db)

  -- `runTarget` up to its first await.
  unfoldable pub begin : List SanRow → String → Tables → Tables × Phase
  unfolding update_job_target assert_san_writable fail
  begin sans san_id db =
      let started =
        update_job_target id
          (λ r. record r {
            status = TargetStatus.uploading;
            started_at = some at.now;
            error_message = none;
          })
          db in
      elim (assert_san_writable sans san_id) [
        | passed _ ↦ (started, connecting)
        | refused status message ↦ fail message started
      ]

  unfoldable pub start_install : String → Tables → Tables × Phase
  unfolding update_job_target append_job_target_log install install_kind install_commands
  start_install path db =
      install (install_kind binary) (install_commands at.random binary path (install_kind binary)) (
        append_job_target_log id "Application…" (
          update_job_target id (λ r. record r { status = TargetStatus.applying })
            (append_job_target_log id "Checksum distant OK" db)))

  unfoldable pub resume : (p : Phase) → Answer p → Tables → Tables × Phase
  unfolding fail start_install install log_all remote_hash remote_staging_path update_job_target
      append_job_target_log template install_error install_output
  resume connecting (rejected message) db = fail message db
  resume connecting (resolved false) db = fail not_connected db
  resume connecting (resolved true) db =
      let path = remote_staging_path at.random binary in
      (update_job_target id (λ r. record r { remote_path = some path }) db, locating path)
  resume (locating path) (rejected message) db = fail message db
  resume (locating path) (resolved found) db =
      if is_blank (or_else found "") then fail no_local_file db else (
        append_job_target_log id (template ("Transfert SFTP vers " ∷ path ∷ "…" ∷ [])) db,
        transferring path,
      )
  resume (transferring path) (rejected message) db = fail message db
  resume (transferring path) (resolved _) db = (db, verifying path)
  resume (verifying path) (rejected message) db = fail message db
  resume (verifying path) (resolved stdout) db =
      if not (is_blank (remote_hash stdout)) && not (str_eq (remote_hash stdout) binary.sha256)
      then fail
          (template
            ("Checksum distant incorrect (attendu " ∷ first_chars 12 binary.sha256 ∷ "…)" ∷ []))
          db
      else start_install path db
  resume (installing kind command rest) (rejected message) db = fail message db
  resume (installing kind command rest) (resolved res) db =
      let logged = log_all (install_output kind res) db in
      if res.code == 0
      then install kind rest logged
      else fail (install_error kind command res) logged
  resume (ended ok) answer db = elim answer [ ]

-- `onProgress` of the transfer.
unfoldable pub progress : String → ℕ → ℕ → Tables → Tables
unfolding append_job_target_log template show
progress id done total db =
    if ltb 0 total && ltb (done % 524288) 393216
    then append_job_target_log id
        (template ("Transfert " ∷ show ((done * 200 + total) / (total * 2)) ∷ "%" ∷ [])) db
    else db
