-- ===== src/Deploy/Ending.antt =====
-- The tasks of a deployment job come to an end.
use esos_webui.Common.{
  Bool, Bool-cases, Checked-cases, List, Option-cases, String, [], ap, arith, false, inl, inr,
  is_blank, length, none, not, or_else, refl, some, str_eq, true, ℕ, ◌&&◌, ◌*◌, ◌+◌, ◌<◌, ◌==◌, ◌∷◌,
  ◌≡◌, ◌≤◌, ◌⊎◌,
}
use esos_webui.Cluster.{SanRow}
use esos_webui.Access.Middleware.{assert_san_writable}
use esos_webui.Deploy.Types.{
  InstallKind, copy_executable, unpack_rpm, perccli, DeploymentBinary, JobStatus, TargetRow, Tables,
}
use esos_webui.Deploy.Tables.{update_job_status}
use esos_webui.Deploy.Install.{install_kind, install_commands, install_output}
use esos_webui.Deploy.Runner.{
  resolved, rejected, Phase, connecting, locating, transferring, verifying, installing, ended,
  Answer, Moment, remote_hash, fail, succeed, install, log_all, begin, start_install, resume,
}
use esos_webui.Deploy.Jobs.{
  Task, begin_all, running, begin_job, Advance, here, there, Runs, started, answered, progressed,
  result_of, results,
}
use esos_webui.Deploy.Ended.{job_targets, begin_job-running}

-- The most answers that a task in a phase can take.
abbrev pub work : Phase → ℕ
work connecting = 9
work (locating path) = 8
work (transferring path) = 7
work (verifying path) = 6
work (installing kind command rest) = length rest + 1
work (ended ok) = 0

abbrev tasks_work : List Task → ℕ
tasks_work [] = 0
tasks_work (t ∷ ts) = work t.phase + tasks_work ts

module _ (binary : DeploymentBinary) (id : String) (at : Moment) where
  length-install_commands :
      (path : String) (kind : InstallKind)
      → length (install_commands at.random binary path kind) ≤ 5
  unfolding install_commands
  length-install_commands path perccli = omega arith
  length-install_commands path unpack_rpm = omega arith
  length-install_commands path copy_executable = omega arith

  work-install :
      (kind : InstallKind) (commands : List String) (db : Tables)
      → work (install binary id at kind commands db).1 ≤ length commands
  unfolding install succeed
  work-install kind [] db = omega arith
  work-install kind (command ∷ rest) db = omega arith

  work-start_install :
      (path : String) (db : Tables) → work (start_install binary id at path db).1 ≤ 5
  unfolding start_install
  work-start_install path db =
      let kind = install_kind binary in
      omega (
        arith,
        work-install kind (install_commands at.random binary path kind) _,
        length-install_commands path kind,
      )

  -- Every answer takes the task further.
  pub work-resume :
      (p : Phase) (a : Answer p) (db : Tables) → work (resume binary id at p a db).1 < work p
  unfolding resume fail
  work-resume connecting (rejected message) db = omega arith
  work-resume connecting (resolved false) db = omega arith
  work-resume connecting (resolved true) db = omega arith
  work-resume (locating path) (rejected message) db = omega arith
  work-resume (locating path) (resolved found) db =
      elim (Bool-cases (is_blank (or_else found ""))) [
        | inl e ↦ rw (resume, e) (omega arith)
        | inr e ↦ rw (resume, e) (omega arith)
      ]
  work-resume (transferring path) (rejected message) db = omega arith
  work-resume (transferring path) (resolved u) db = omega arith
  work-resume (verifying path) (rejected message) db = omega arith
  work-resume (verifying path) (resolved stdout) db =
      elim (Bool-cases
        (not (is_blank (remote_hash stdout)) && not (str_eq (remote_hash stdout) binary.sha256))) [
          | inl e ↦ rw (resume, e) (omega arith)
          | inr e ↦ rw (resume, e) (omega (arith, work-start_install path db))
        ]
  work-resume (installing kind command rest) (rejected message) db = omega arith
  work-resume (installing kind command rest) (resolved res) db =
      let after = log_all binary id at (install_output kind res) db in
      elim (Bool-cases (res.code == 0)) [
        | inl e ↦ rw (resume, e) (omega (arith, work-install kind rest after))
        | inr e ↦ rw (resume, e) (omega arith)
      ]
  work-resume (ended ok) a db = elim a [ ]

  pub work-begin :
      (sans : List SanRow) (san_id : String) (db : Tables)
      → work (begin binary id at sans san_id db).1 ≤ 9
  unfolding begin fail
  work-begin sans san_id db = elim (Checked-cases (assert_san_writable sans san_id)) [
    | inl (u, e) ↦ rw (begin, e) (omega arith)
    | inr (code, m, e) ↦ rw (begin, e) (omega arith)
  ]

module _ (binary : DeploymentBinary) where
  work-Advance :
      {db db' : Tables} {ts ts' : List Task}
      → Advance binary db ts db' ts'
      → tasks_work ts' < tasks_work ts
  work-Advance (here {db} id p at a) = omega (arith, work-resume binary id at p a db)
  work-Advance (there t step) = omega (arith, work-Advance step)

  work-Runs :
      {db : Tables} {ts : List Task} {n : ℕ} {db' : Tables} {ts' : List Task}
      → Runs binary db ts n db' ts'
      → n + tasks_work ts' ≤ tasks_work ts
  work-Runs started = omega arith
  work-Runs (answered run step) = omega (arith, work-Runs run, work-Advance step)
  work-Runs (progressed id done total run) = work-Runs run

  work-begin_all :
      (at : Moment) (sans : List SanRow) (rs : List TargetRow) (db : Tables)
      → tasks_work (begin_all binary at sans rs db).1 ≤ 9 * length rs
  unfolding begin_all
  work-begin_all at sans [] db = omega arith
  work-begin_all at sans (r ∷ rs) db = omega (
    arith,
    work-begin binary r.id at sans r.san_id db,
    work-begin_all at sans rs (begin binary r.id at sans r.san_id db).0,
  )

  -- A phase that has no result waits for an answer.
  waits : (p : Phase) → result_of p ≡ none → Answer p
  unfolding result_of
  waits connecting h = rejected ""
  waits (locating path) h = rejected ""
  waits (transferring path) h = rejected ""
  waits (verifying path) h = rejected ""
  waits (installing kind command rest) h = rejected ""
  waits (ended ok) h = absurd (cc h)

  -- The tasks of a state have all ended, or one of them can take an answer.
  abbrev pub EndedOrAdvances : Tables → List Task → Type 0
  EndedOrAdvances db ts =
      ((oks : List Bool) × (results ts ≡ some oks))
      ⊎ ((db' : Tables) × (ts' : List Task) × Advance binary db ts db' ts')

  ended_or_advances : (at : Moment) (db : Tables) (ts : List Task) → EndedOrAdvances db ts
  unfolding results
  ended_or_advances at db [] = inl ([], refl)
  ended_or_advances at db (t ∷ ts) = elim (Option-cases (result_of t.phase)) [
    | inl open_yet ↦ inr (_, _, here t.target_id t.phase at (waits t.phase open_yet))
    | inr (ok, e) ↦ elim (ended_or_advances at db ts) [
      | inl (oks, es) ↦ inl (ok ∷ oks, rw (results, e, es) refl)
      | inr (db', ts', step) ↦ inr (db', t ∷ ts', there t step)
    ]
  ]

module _ (at : Moment) (sans : List SanRow) (job_id : String) (db : Tables)
    (binary : DeploymentBinary) (db1 : Tables) (tasks : List Task)
    (begun : begin_job at sans job_id db ≡ running binary db1 tasks) (n : ℕ) (db2 : Tables)
    (ts : List Task) (run : Runs binary db1 tasks n db2 ts) where
  -- A job that has begun takes at most nine answers for each of its targets; and as long as a task
  -- has not ended, some task takes another answer, whatever the order of the answers so far.
  pub Runs-bounded : (n ≤ 9 * length (job_targets job_id db)) × EndedOrAdvances binary db2 ts
  Runs-bounded =
      let (old, stands, all_begun) = begin_job-running at sans job_id db binary db1 tasks begun in
      let rows = job_targets job_id db in
      let marked = update_job_status at.now job_id JobStatus.running db in
      let most = work-begin_all binary at sans rows marked in
      let same : tasks_work (begin_all binary at sans rows marked).1 ≡ tasks_work tasks =
        ap (λ r. tasks_work r.1) all_begun in
      (omega (arith, work-Runs binary run, most, same), ended_or_advances binary at db2 ts)
