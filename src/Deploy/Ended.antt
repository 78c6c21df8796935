-- ===== src/Deploy/Ended.antt =====
-- The status of a deployment job that has ended.
use mathlib.Core.Path.{subst}
use text.Mathlib.TextEquality.{eq_iff}
use esos_webui.Common.{
  All, Bool, Bool-cases, List, Option-cases, String, [], ap, false, find, inl, inr, map, refl,
  select, some, str_eq, sym, ℕ, ◌∙◌, ◌∷◌, ◌≡◌,
}
use esos_webui.Cluster.{SanRow}
use esos_webui.Deploy.Types.{DeploymentBinary, JobStatus, TargetStatus, JobRow, TargetRow, Tables}
use esos_webui.Deploy.Tables.{
  target_status, job_status, update_job_status, job_status-update, get_deployment_job_by_id,
  get_deployment_binary_by_id,
}
use esos_webui.Deploy.Runner.{Moment}
use esos_webui.Deploy.Verdict.{
  verdict, Apart, row_ids, task_ids, Agrees, statuses, Stands, results-statuses,
  status_of_results-verdict, Runs-Agrees, begin_all-Agrees,
}
use esos_webui.Deploy.JobRows.{Runs-jobs, begin_all-jobs}
use esos_webui.Deploy.Jobs.{
  Task, begin_all, running, begin_job, Runs, results, status_of_results, finish_job,
}

abbrev pub job_targets : String → Tables → List TargetRow
job_targets job_id db = select (λ t. str_eq t.job_id job_id) db.targets

All-row_ids-select {κ} :
    (P : String → Type κ) (p : TargetRow → Bool) (rs : List TargetRow)
    → All P (row_ids rs)
    → All P (row_ids (select p rs))
unfolding select
All-row_ids-select P p [] h = tt
All-row_ids-select P p (r ∷ rs) (here, later) = elim (Bool-cases (p r)) [
  | inl e ↦ rw e (here, All-row_ids-select P p rs later)
  | inr e ↦ rw e (All-row_ids-select P p rs later)
]

Apart-row_ids-select :
    (p : TargetRow → Bool) (rs : List TargetRow)
    → Apart (row_ids rs)
    → Apart (row_ids (select p rs))
unfolding select
Apart-row_ids-select p [] h = tt
Apart-row_ids-select p (r ∷ rs) (here, later) = elim (Bool-cases (p r)) [
  | inl e ↦
      rw e
        (All-row_ids-select (λ y. str_eq r.id y ≡ false) p rs here, Apart-row_ids-select p rs later)
  | inr e ↦ rw e (Apart-row_ids-select p rs later)
]

abbrev InRows : List TargetRow → String → Type 0
InRows rs id = (s : TargetStatus) × (target_status id rs ≡ some s)

InRows-more :
    (r : TargetRow) (rs : List TargetRow) (id : String) → InRows rs id → InRows (r ∷ rs) id
unfolding target_status
InRows-more r rs id (s, e) = elim (Bool-cases (str_eq r.id id)) [
  | inl same ↦ (r.status, rw same refl)
  | inr other ↦ (s, rw other e)
]

All-InRows-more :
    (r : TargetRow) (rs : List TargetRow) (ids : List String)
    → All (InRows rs) ids
    → All (InRows (r ∷ rs)) ids
All-InRows-more r rs [] h = tt
All-InRows-more r rs (id ∷ ids) (e, h) = (InRows-more r rs id e, All-InRows-more r rs ids h)

rows-InRows : (rs : List TargetRow) → All (InRows rs) (row_ids rs)
unfolding target_status
rows-InRows [] = tt
rows-InRows (r ∷ rs) = (
  (r.status, rw ((eq_iff r.id r.id).1 refl) refl),
  All-InRows-more r rs (row_ids rs) (rows-InRows rs),
)

find-job_status :
    (id : String) (rs : List JobRow) (job : JobRow)
    → find (λ r. str_eq r.id id) rs ≡ some job
    → job_status id rs ≡ some job.status
unfolding find job_status
find-job_status id [] job h = absurd (cc h)
find-job_status id (r ∷ rs) job h = elim (Bool-cases (str_eq r.id id)) [
  | inl e ↦ let same : r ≡ job = cc (rw e at h) in rw (e, same) refl
  | inr e ↦ rw e (find-job_status id rs job (rw e at h))
]

pair_eq {ℓ κ} :
    {A : Type ℓ} {B : Type κ} (r : A × B) {a : A} {b : B} → r.0 ≡ a → r.1 ≡ b → r ≡ (a, b)
pair_eq r p q = rw (← p, ← q) refl

-- What a job that runs has begun with.
pub begin_job-running :
    (at : Moment) (sans : List SanRow) (job_id : String) (db : Tables) (binary : DeploymentBinary)
    (db1 : Tables) (tasks : List Task)
    → begin_job at sans job_id db ≡ running binary db1 tasks
    → (old : JobStatus) × (job_status job_id db.jobs ≡ some old)
      × (begin_all binary at sans
            (job_targets job_id db)
            (update_job_status at.now job_id JobStatus.running db)
          ≡ (db1, tasks))
unfolding begin_job get_deployment_job_by_id
begin_job-running at sans job_id db binary db1 tasks h =
    elim (Option-cases (find (λ r. str_eq r.id job_id) db.jobs)) [
      | inl missing ↦ absurd (cc (rw (begin_job, get_deployment_job_by_id, missing) at h))
      | inr (job, found) ↦ elim (Option-cases (get_deployment_binary_by_id job.binary_id db)) [
        | inl missing ↦ absurd (cc (rw (begin_job, get_deployment_job_by_id, found, missing) at h))
        | inr (b, given) ↦
            let marked = update_job_status at.now job_id JobStatus.running db in
            let begun = rw (begin_job, get_deployment_job_by_id, found, given) at h in
            let same : b ≡ binary = cc begun in
            let tables : (begin_all b at sans (job_targets job_id db) marked).0 ≡ db1 = cc begun in
            let list : (begin_all b at sans (job_targets job_id db) marked).1 ≡ tasks = cc begun in
            (
              job.status,
              find-job_status job_id db.jobs job found,
              rw (← same) (pair_eq _ tables list),
            )
      ]
    ]

-- When every task of a deployment job has ended, whatever the answers to the tasks and their order,
-- the job's row says `success` if all its targets have the status `success` in the table, else
-- `failed` if all have `failed`, and else `partial`; the targets' rows have different ids.
pub job_status-verdict :
    (at : Moment) (sans : List SanRow) (job_id : String) (db : Tables) (binary : DeploymentBinary)
    (db1 : Tables) (tasks : List Task) (n : ℕ) (db2 : Tables) (ts : List Task) (oks : List Bool)
    (now : String)
    → Apart (row_ids db.targets)
    → begin_job at sans job_id db ≡ running binary db1 tasks
    → Runs binary db1 tasks n db2 ts
    → results ts ≡ some oks
    → job_status job_id (finish_job now job_id oks db2).jobs
      ≡ some (
          verdict
            (statuses (finish_job now job_id oks db2).targets (row_ids (job_targets job_id db))))
unfolding finish_job update_job_status
job_status-verdict at sans job_id db binary db1 tasks n db2 ts oks now apart begun run e =
    let (old, stands, all_begun) = begin_job-running at sans job_id db binary db1 tasks begun in
    let rows = job_targets job_id db in
    let marked = update_job_status at.now job_id JobStatus.running db in
    let rows_apart : Apart (row_ids rows) = Apart-row_ids-select _ db.targets apart in
    let rows_stand : All (Stands marked) (row_ids rows) =
      All-row_ids-select (InRows db.targets) _ db.targets (rows-InRows db.targets) in
    let (ids, agrees) = begin_all-Agrees binary at sans rows marked rows_apart rows_stand in
    let first : task_ids tasks ≡ row_ids rows = ap (λ r. task_ids r.1) (sym all_begun) ∙ ids in
    let agrees1 : Agrees db1 tasks = subst (λ r. Agrees r.0 r.1) all_begun agrees in
    let (same_ids, agrees2) = Runs-Agrees binary run (subst Apart (sym first) rows_apart) agrees1 in
    let said : statuses db2.targets (row_ids rows) ≡ map _ oks =
      ap (statuses db2.targets) (sym (same_ids ∙ first)) ∙ results-statuses db2 ts oks agrees2 e in
    let job_rows : db2.jobs ≡ marked.jobs =
      Runs-jobs binary run
      ∙ ap (λ r. r.0.jobs) (sym all_begun)
      ∙ begin_all-jobs binary at sans rows marked in
    let is_running : job_status job_id db2.jobs ≡ some JobStatus.running =
      ap (job_status job_id) job_rows
      ∙ job_status-update at.now job_id old JobStatus.running db stands in
    rw (said, ← status_of_results-verdict oks)
      (job_status-update now job_id JobStatus.running (status_of_results oks) db2 is_running)
