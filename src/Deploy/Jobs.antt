-- ===== src/Deploy/Jobs.antt =====
-- `runDeploymentJob` of server/utils/deployment-job-runner.ts: the tasks of a job's targets run at the
-- same time, and the job ends when all of them have ended (`Promise.all`).
use esos_webui.Common.{
  Bool, List, Option, String, [], if◌then◌else◌, length, none, not, select, some, ℕ, ◌+◌, ◌==◌, ◌∷◌,
}
use esos_webui.Cluster.{SanRow}
use esos_webui.Deploy.Types.{DeploymentBinary, JobStatus, TargetRow, Tables}
use esos_webui.Deploy.Tables.{
  update_job_status, get_deployment_job_by_id, get_deployment_binary_by_id,
}
use esos_webui.Deploy.Runner.{Phase, ended, Answer, Moment, begin, resume, progress}

pub record Task : Type 0 where
  pub target_id : String
  pub phase : Phase

-- `job.targets.map(t => runTarget(…))`: each task runs to its first await.
unfoldable pub begin_all :
    DeploymentBinary → Moment → List SanRow → List TargetRow → Tables → Tables × List Task
unfolding begin
begin_all binary at sans [] db = (db, [])
begin_all binary at sans (t ∷ ts) db =
    let (db1, phase) = begin binary t.id at sans t.san_id db in
    let (db2, tasks) = begin_all binary at sans ts db1 in
    (db2, record { target_id = t.id; phase = phase } ∷ tasks)

pub data JobStart : Type 0 where
  no_job : JobStart
  no_binary : Tables → JobStart
  running : DeploymentBinary → Tables → List Task → JobStart

unfoldable pub begin_job : Moment → List SanRow → String → Tables → JobStart
unfolding begin_all get_deployment_job_by_id get_deployment_binary_by_id update_job_status
begin_job at sans job_id db = elim (get_deployment_job_by_id job_id db) [
  | none ↦ no_job
  | some (job, targets) ↦ elim (get_deployment_binary_by_id job.binary_id db) [
    | none ↦ no_binary (update_job_status at.now job_id JobStatus.failed db)
    | some binary ↦
        let (db', tasks) =
          begin_all binary at sans targets (update_job_status at.now job_id JobStatus.running db) in
        running binary db' tasks
  ]
]

-- One task gets its answer.
pub data Advance (binary : DeploymentBinary)
    : Tables → List Task → Tables → List Task → Type 0 where
  here :
      {db : Tables} {ts : List Task} (id : String) (p : Phase) (at : Moment) (a : Answer p)
      → Advance binary db
          (record { target_id = id; phase = p } ∷ ts)
          (resume binary id at p a db).0
          (record { target_id = id; phase = (resume binary id at p a db).1 } ∷ ts)
  there :
      {db db' : Tables} {ts ts' : List Task} (t : Task)
      → Advance binary db ts db' ts'
      → Advance binary db (t ∷ ts) db' (t ∷ ts')

-- The tasks run, with so many answers; the progress of a transfer is logged in between.
pub data Runs (binary : DeploymentBinary) (db : Tables) (ts : List Task)
    : ℕ → Tables → List Task → Type 0 where
  started : Runs binary db ts 0 db ts
  answered :
      {n : ℕ} {db1 db2 : Tables} {ts1 ts2 : List Task}
      → Runs binary db ts n db1 ts1
      → Advance binary db1 ts1 db2 ts2
      → Runs binary db ts (n + 1) db2 ts2
  progressed :
      {n : ℕ} {db1 : Tables} {ts1 : List Task} (id : String) (done total : ℕ)
      → Runs binary db ts n db1 ts1
      → Runs binary db ts n (progress id done total db1) ts1

-- The results of the tasks, once all of them have one.
unfoldable pub result_of : Phase → Option Bool
result_of (ended ok) = some ok
result_of _ = none

unfoldable pub results : List Task → Option (List Bool)
unfolding result_of
results [] = some []
results (t ∷ ts) = elim (result_of t.phase) [
  | none ↦ none
  | some ok ↦ elim (results ts) [ none ↦ none | some oks ↦ some (ok ∷ oks) ]
]

-- The status of the job, by the numbers of results.
unfoldable pub status_of_results : List Bool → JobStatus
unfolding select
status_of_results oks =
    let ok = length (select (λ r. r) oks) in
    let failed = length (select not oks) in
    if failed == 0
    then JobStatus.success
    else if ok == 0
    then JobStatus.failed
    else JobStatus.partial

unfoldable pub finish_job : String → String → List Bool → Tables → Tables
unfolding status_of_results update_job_status
finish_job now job_id oks db = update_job_status now job_id (status_of_results oks) db
