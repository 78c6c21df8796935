-- ===== src/Deploy/Tests.antt =====
-- A job on two SANs, one of which is read-only: an empty answer to `sha256sum` is no obstacle.
use esos_webui.Common.{
  Bool, List, String, [], false, length, none, refl, some, true, ℕ, ◌*◌, ◌∷◌, ◌≡◌, ◌≤◌,
}
use esos_webui.Cluster.{SanRow}
use esos_webui.Deploy.Types.{
  executable, copy_executable, DeploymentBinary, JobStatus, TargetStatus, TargetRow, Tables,
}
use esos_webui.Deploy.Tables.{job_status, update_job_status}
use esos_webui.Deploy.Install.{install_commands}
use esos_webui.Deploy.Runner.{
  resume, ended, resolved, rejected, connecting, locating, transferring, verifying, installing,
  Moment,
}
use esos_webui.Deploy.Jobs.{
  Task, begin_all, running, begin_job, here, Runs, started, answered, results, finish_job,
}
use esos_webui.Deploy.Verdict.{verdict, Apart, row_ids, statuses}
use esos_webui.Deploy.Ended.{job_targets, job_status-verdict}
use esos_webui.Deploy.Ending.{EndedOrAdvances, Runs-bounded}
use esos_webui.Deploy.Rounds.{Answers, rounds, rounds_complete}

abbrev tool : DeploymentBinary
tool = record {
  id = "b";
  filename = "my tool";
  sha256 = "ab12";
  kind = executable;
  install_spec = record { install_kind = none; remote_path = none };
}

abbrev target : String → String → TargetRow
target id san_id = record {
  id = id;
  job_id = "j";
  san_id = san_id;
  status = TargetStatus.pending;
  remote_path = none;
  logs = "";
  error_message = none;
  started_at = none;
  finished_at = none;
}

abbrev tables : Tables
tables = record {
  binaries = tool ∷ [];
  jobs = record { id = "j"; binary_id = "b"; status = JobStatus.pending; updated_at = "t0" } ∷ [];
  targets = target "t1" "s1" ∷ target "t2" "s2" ∷ [];
}

abbrev san : String → Bool → SanRow
san id read_only = record {
  id = id;
  label = id;
  read_only = read_only;
  cluster_id = none;
  cluster_enabled = false;
}

abbrev sans : List SanRow
sans = san "s1" false ∷ san "s2" true ∷ []

abbrev at : Moment
at = record { now = "t1"; random = "r" }

abbrev path : String
path = "/tmp/esos-deploy-r-my_tool"

abbrev copy : String
copy =
    "cp -f '/tmp/esos-deploy-r-my_tool' '/usr/local/sbin/my tool' && chmod 755 '/usr/local/sbin/my tool'"

abbrev first : Tables × List Task
first =
    begin_all tool at sans tables.targets (update_job_status at.now "j" JobStatus.running tables)

begin_job_test : begin_job at sans "j" tables ≡ running tool first.0 first.1
unfolding begin_job
begin_job_test = refl

-- The SAN that can be written answers; `sha256sum` gives no output.
sample_run :
    (db : Tables) × (ts : List Task) × Runs tool first.0 first.1 5 db ts
    × (results ts ≡ some (true ∷ false ∷ []))
unfolding begin_job resume results install_commands
sample_run = (
  _,
  _,
  answered
      (answered
        (answered
          (answered (answered started (here "t1" connecting at (resolved true)))
            (here "t1" (locating path) at (resolved (some "/data/my tool"))))
          (here "t1" (transferring path) at (resolved tt)))
        (here "t1" (verifying path) at (resolved "")))
      (here "t1" (installing copy_executable copy []) at
        (resolved (record { stdout = ""; stderr = ""; code = 0 }))),
  refl,
)

tables-Apart : Apart (row_ids tables.targets)
tables-Apart = ((refl, tt), (tt, tt))

job_status-verdict_example :
    job_status "j" (finish_job "t9" "j" (true ∷ false ∷ []) sample_run.0).jobs
    ≡ some (
        verdict (
          statuses
            (finish_job "t9" "j" (true ∷ false ∷ []) sample_run.0).targets
            (row_ids (job_targets "j" tables))))
job_status-verdict_example =
    job_status-verdict at sans "j" tables tool first.0 first.1 5 sample_run.0 sample_run.1
      (true ∷ false ∷ []) "t9" tables-Apart begin_job_test sample_run.2 sample_run.3

Runs-bounded_example :
    (5 ≤ 9 * length (job_targets "j" tables)) × EndedOrAdvances tool sample_run.0 sample_run.1
Runs-bounded_example =
    Runs-bounded at sans "j" tables tool first.0 first.1 begin_job_test 5 sample_run.0 sample_run.1
      sample_run.2

-- Every node answers with a connection that is not ready, or fails.
abbrev refusals : Answers
refusals k db id connecting = (at, resolved false)
refusals k db id (locating _) = (at, rejected "")
refusals k db id (transferring _) = (at, rejected "")
refusals k db id (verifying _) = (at, rejected "")
refusals k db id (installing _ _ _) = (at, rejected "")
refusals k db id (ended ok) = (at, tt)

rounds_complete_example :
    let (db, ts) = rounds tool refusals 9 first.0 first.1 in
    ((m : ℕ) × Runs tool first.0 first.1 m db ts) × ((oks : List Bool) × (results ts ≡ some oks))
rounds_complete_example =
    rounds_complete at sans "j" tables tool first.0 first.1 begin_job_test 0 first.0 first.1 started
      refusals
