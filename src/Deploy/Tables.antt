-- ===== src/Deploy/Tables.antt =====
-- server/db/repositories/deployment.repository.ts: the statements on the tables. A patch of a row is
-- the change of the fields that it names; `now` is the time of the statement.
use text.Mathlib.TextEquality.{eq_iff}
use esos_webui.Common.{
  List, Option, String, [], arith, false, find, if◌then◌else◌, is_blank, none, refl, select, some,
  str_eq, template, ◌∷◌, ◌≡◌,
}
use esos_webui.Deploy.Types.{DeploymentBinary, JobStatus, TargetStatus, JobRow, TargetRow, Tables}

-- `update(table).set(…).where(eq(table.id, id))`
unfoldable pub update_targets : String → (TargetRow → TargetRow) → List TargetRow → List TargetRow
update_targets id patch [] = []
update_targets id patch (r ∷ rs) =
    let rest = update_targets id patch rs in (if str_eq r.id id then patch r else r) ∷ rest

unfoldable pub update_job_target : String → (TargetRow → TargetRow) → Tables → Tables
unfolding update_targets
update_job_target id patch db = record db { targets = update_targets id patch db.targets }

-- `row.logs ? … : line`
abbrev pub with_line : String → String → String
with_line logs line = if is_blank logs then line else template (logs ∷ "\n" ∷ line ∷ [])

-- A row that is not there is not changed, so the early return needs no case.
unfoldable pub append_job_target_log : String → String → Tables → Tables
unfolding update_job_target template
append_job_target_log id line db =
    update_job_target id (λ r. record r { logs = with_line r.logs line }) db

unfoldable pub update_jobs : String → (JobRow → JobRow) → List JobRow → List JobRow
update_jobs id patch [] = []
update_jobs id patch (r ∷ rs) =
    let rest = update_jobs id patch rs in (if str_eq r.id id then patch r else r) ∷ rest

unfoldable pub update_job_status : String → String → JobStatus → Tables → Tables
unfolding update_jobs
update_job_status now id status db = record db {
  jobs = update_jobs id (λ r. record r { status = status; updated_at = now }) db.jobs;
}

-- The rows of a job: its own, and those of its targets.
unfoldable pub get_deployment_job_by_id : String → Tables → Option (JobRow × List TargetRow)
unfolding find select
get_deployment_job_by_id id db = elim (find (λ r. str_eq r.id id) db.jobs) [
  | none ↦ none
  | some job ↦ some (job, select (λ t. str_eq t.job_id id) db.targets)
]

unfoldable pub get_deployment_binary_by_id : String → Tables → Option DeploymentBinary
unfolding find
get_deployment_binary_by_id id db = find (λ b. str_eq b.id id) db.binaries

-- What the tables say of a target and of a job.
unfoldable pub target_status : String → List TargetRow → Option TargetStatus
target_status id [] = none
target_status id (r ∷ rs) =
    let rest = target_status id rs in if str_eq r.id id then some r.status else rest

unfoldable pub job_status : String → List JobRow → Option JobStatus
job_status id [] = none
job_status id (r ∷ rs) =
    let rest = job_status id rs in if str_eq r.id id then some r.status else rest

-- An update of a row changes the status that the patch sets, and no other row's.
pub target_status-update_other :
    (id other : String) (patch : TargetRow → TargetRow) (rs : List TargetRow)
    → ((r : TargetRow) → (patch r).id ≡ r.id)
    → str_eq id other ≡ false
    → target_status other (update_targets id patch rs) ≡ target_status other rs
unfolding target_status update_targets
target_status-update_other id other patch [] k ne = refl
target_status-update_other id other patch (r ∷ rs) k ne = ground (
  arith,
  target_status-update_other id other patch rs k ne,
  k r,
  eq_iff r.id id,
  eq_iff r.id other,
  eq_iff id other,
  eq_iff (patch r).id other,
)

pub target_status-update_set :
    (id : String) (patch : TargetRow → TargetRow) (old new : TargetStatus) (rs : List TargetRow)
    → ((r : TargetRow) → (patch r).id ≡ r.id)
    → ((r : TargetRow) → (patch r).status ≡ new)
    → target_status id rs ≡ some old
    → target_status id (update_targets id patch rs) ≡ some new
unfolding target_status update_targets
target_status-update_set id patch old new [] k e h = absurd (ground arith)
target_status-update_set id patch old new (r ∷ rs) k e h = ground (
  arith,
  target_status-update_set id patch old new rs k e,
  k r,
  e r,
  eq_iff r.id id,
  eq_iff (patch r).id id,
)

pub target_status-update_kept :
    (id other : String) (patch : TargetRow → TargetRow) (rs : List TargetRow)
    → ((r : TargetRow) → (patch r).id ≡ r.id)
    → ((r : TargetRow) → (patch r).status ≡ r.status)
    → target_status other (update_targets id patch rs) ≡ target_status other rs
unfolding target_status update_targets
target_status-update_kept id other patch [] k e = refl
target_status-update_kept id other patch (r ∷ rs) k e = ground (
  arith,
  target_status-update_kept id other patch rs k e,
  k r,
  e r,
  eq_iff r.id id,
  eq_iff r.id other,
  eq_iff (patch r).id other,
)

pub job_status-update :
    (now id : String) (old new : JobStatus) (db : Tables)
    → job_status id db.jobs ≡ some old
    → job_status id (update_job_status now id new db).jobs ≡ some new
unfolding update_job_status job_status
job_status-update now id old new db h = go db.jobs h
  where
    go :
        (rs : List JobRow)
        → job_status id rs ≡ some old
        → job_status id (update_jobs id (λ r. record r { status = new; updated_at = now }) rs)
          ≡ some new
    go [] h = absurd (ground arith)
    go (r ∷ rs) h = ground (arith, go rs)
