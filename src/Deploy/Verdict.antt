-- ===== src/Deploy/Verdict.antt =====
-- The status of a deployment job, against the statuses of its targets.
use text.Mathlib.TextEquality.{eq_iff}
use esos_webui.Common.{
  All, Bool, List, Option, Option-cases, String, [], all, ap, arith, false, if◌then◌else◌, inl, inr,
  length, map, none, not, refl, select, some, str_eq, true, ℕ, ◌==◌, ◌∙◌, ◌∷◌, ◌≡◌,
}
use esos_webui.Cluster.{SanRow}
use esos_webui.Deploy.Types.{DeploymentBinary, JobStatus, TargetStatus, TargetRow, Tables}
use esos_webui.Deploy.Tables.{target_status}
use esos_webui.Deploy.Runner.{
  Phase, connecting, locating, transferring, verifying, installing, ended, Moment, begin, resume,
  progress,
}
use esos_webui.Deploy.Statuses.{
  phase_status, status_in, begin-Ends, begin-Frames, resume-Ends, resume-Frames, progress-status,
  Frames,
}
use esos_webui.Deploy.Jobs.{
  Task, begin_all, Advance, here, there, Runs, started, answered, progressed, result_of, results,
  status_of_results,
}

abbrev is_success : Option TargetStatus → Bool
is_success (some TargetStatus.success) = true
is_success _ = false

abbrev is_failed : Option TargetStatus → Bool
is_failed (some TargetStatus.failed) = true
is_failed _ = false

-- What the statuses of the targets say of the job.
abbrev pub verdict : List (Option TargetStatus) → JobStatus
verdict statuses =
    if all is_success statuses
    then JobStatus.success
    else if all is_failed statuses
    then JobStatus.failed
    else JobStatus.partial

-- The texts differ from each other.
abbrev pub Apart : List String → Type 0
Apart [] = Unit
Apart (x ∷ xs) = All (λ y. str_eq x y ≡ false) xs × Apart xs

abbrev pub task_ids : List Task → List String
task_ids [] = []
task_ids (t ∷ ts) = t.target_id ∷ task_ids ts

abbrev pub row_ids : List TargetRow → List String
row_ids [] = []
row_ids (r ∷ rs) = r.id ∷ row_ids rs

-- Each target has the status that belongs to the phase of its task.
abbrev pub Agrees : Tables → List Task → Type 0
Agrees db ts = All (λ t. status_in db t.target_id ≡ some (phase_status t.phase)) ts

Agrees-frame :
    (id : String) (db db' : Tables) (ts : List Task)
    → Frames id db db'
    → All (λ y. str_eq id y ≡ false) (task_ids ts)
    → Agrees db ts
    → Agrees db' ts
Agrees-frame id db db' [] f a h = tt
Agrees-frame id db db' (t ∷ ts) f (ne, a) (e, h) =
    (f t.target_id ne ∙ e, Agrees-frame id db db' ts f a h)

module _ (binary : DeploymentBinary) where
  Advance-ids :
      {db db' : Tables} {ts ts' : List Task}
      → Advance binary db ts db' ts'
      → task_ids ts' ≡ task_ids ts
  Advance-ids (here id p at a) = refl
  Advance-ids (there t step) = ap (λ ids. t.target_id ∷ ids) (Advance-ids step)

  -- A step of the tasks keeps the row of a target that is none of theirs.
  Advance-frame :
      {db db' : Tables} {ts ts' : List Task} (other : String)
      → Advance binary db ts db' ts'
      → All (λ y. str_eq other y ≡ false) (task_ids ts)
      → status_in db' other ≡ status_in db other
  Advance-frame other (here id p at a) (ne, f) =
      resume-Frames binary id at p a _ other (ground (arith, eq_iff other id, eq_iff id other, ne))
  Advance-frame other (there t step) (ne, f) = Advance-frame other step f

  Advance-Agrees :
      {db db' : Tables} {ts ts' : List Task}
      → Advance binary db ts db' ts'
      → Apart (task_ids ts)
      → Agrees db ts
      → Agrees db' ts'
  Advance-Agrees (here {db} {ts} id p at a) (f, apart) (e, h) = (
    resume-Ends binary id at p a db e,
    Agrees-frame id db (resume binary id at p a db).0 ts (resume-Frames binary id at p a db) f h,
  )
  Advance-Agrees (there t step) (f, apart) (e, h) =
      (Advance-frame t.target_id step f ∙ e, Advance-Agrees step apart h)

  Agrees-progress :
      (id : String) (done total : ℕ) (db : Tables) (ts : List Task)
      → Agrees db ts
      → Agrees (progress id done total db) ts
  Agrees-progress id done total db [] h = tt
  Agrees-progress id done total db (t ∷ ts) (e, h) =
      (progress-status id t.target_id done total db ∙ e, Agrees-progress id done total db ts h)

  pub Runs-Agrees :
      {db : Tables} {ts : List Task} {n : ℕ} {db' : Tables} {ts' : List Task}
      → Runs binary db ts n db' ts'
      → Apart (task_ids ts)
      → Agrees db ts
      → (task_ids ts' ≡ task_ids ts) × Agrees db' ts'
  Runs-Agrees started apart h = (refl, h)
  Runs-Agrees (answered run step) apart h =
      let (ids, agrees) = Runs-Agrees run apart h in
      (Advance-ids step ∙ ids, Advance-Agrees step (rw (← ids) at apart) agrees)
  Runs-Agrees (progressed {db1 = db1} {ts1 = ts1} id done total run) apart h =
      let (ids, agrees) = Runs-Agrees run apart h in
      (ids, Agrees-progress id done total db1 ts1 agrees)

-- A target that stands in the table.
abbrev pub Stands : Tables → String → Type 0
Stands db id = (s : TargetStatus) × (status_in db id ≡ some s)

module _ (binary : DeploymentBinary) (at : Moment) (sans : List SanRow) where
  Stands-frame :
      (id : String) (db db' : Tables) (rs : List TargetRow)
      → Frames id db db'
      → All (λ y. str_eq id y ≡ false) (row_ids rs)
      → All (Stands db) (row_ids rs)
      → All (Stands db') (row_ids rs)
  Stands-frame id db db' [] f a h = tt
  Stands-frame id db db' (r ∷ rs) f (ne, a) ((s, e), h) =
      ((s, f r.id ne ∙ e), Stands-frame id db db' rs f a h)

  begin_all-frame :
      (other : String) (rs : List TargetRow) (db : Tables)
      → All (λ y. str_eq other y ≡ false) (row_ids rs)
      → status_in (begin_all binary at sans rs db).0 other ≡ status_in db other
  unfolding begin_all
  begin_all-frame other [] db f = refl
  begin_all-frame other (r ∷ rs) db (ne, f) =
      begin_all-frame other rs (begin binary r.id at sans r.san_id db).0 f
      ∙ begin-Frames binary r.id at sans r.san_id db other
          (ground (arith, eq_iff other r.id, eq_iff r.id other, ne))

  pub begin_all-Agrees :
      (rs : List TargetRow) (db : Tables)
      → Apart (row_ids rs)
      → All (Stands db) (row_ids rs)
      → (task_ids (begin_all binary at sans rs db).1 ≡ row_ids rs)
        × Agrees (begin_all binary at sans rs db).0 (begin_all binary at sans rs db).1
  unfolding begin_all
  begin_all-Agrees [] db apart h = (refl, tt)
  begin_all-Agrees (r ∷ rs) db (f, apart) ((s, e), h) =
      let begun = (begin binary r.id at sans r.san_id db).0 in
      let (ids, agrees) =
        begin_all-Agrees rs begun apart
          (Stands-frame r.id db begun rs (begin-Frames binary r.id at sans r.san_id db) f h) in
      (
        ap (λ ids. r.id ∷ ids) ids,
        (begin_all-frame r.id rs begun f ∙ begin-Ends binary r.id at sans r.san_id s db e, agrees),
      )

-- The results of the tasks are the statuses of their targets.
abbrev pub statuses : List TargetRow → List String → List (Option TargetStatus)
statuses rows [] = []
statuses rows (id ∷ ids) = target_status id rows ∷ statuses rows ids

abbrev of_result : Bool → Option TargetStatus
of_result true = some TargetStatus.success
of_result false = some TargetStatus.failed

ended_status : (ok : Bool) → some (phase_status (ended ok)) ≡ of_result ok
ended_status true = refl
ended_status false = refl

pub results-statuses :
    (db : Tables) (ts : List Task) (oks : List Bool)
    → Agrees db ts
    → results ts ≡ some oks
    → statuses db.targets (task_ids ts) ≡ map of_result oks
unfolding results result_of
results-statuses db [] oks h e = let none_left : [] ≡ oks = cc e in rw (← none_left) refl
results-statuses db (t ∷ ts) oks (s, h) e =
    go (λ rest found. results-statuses db ts rest h found) t.phase s e
  where
    go :
        ((rest : List Bool)
          → results ts ≡ some rest
          → statuses db.targets (task_ids ts) ≡ map of_result rest)
        → (p : Phase) → status_in db t.target_id ≡ some (phase_status p)
        → elim (result_of p) [
          | none ↦ none
          | some ok ↦ elim (results ts) [ none ↦ none | some rest ↦ some (ok ∷ rest) ]
        ]
          ≡ some oks
        → statuses db.targets (t.target_id ∷ task_ids ts) ≡ map of_result oks
    go later connecting s e = absurd (cc e)
    go later (locating path) s e = absurd (cc e)
    go later (transferring path) s e = absurd (cc e)
    go later (verifying path) s e = absurd (cc e)
    go later (installing kind command rest) s e = absurd (cc e)
    go later (ended ok) s e = elim (Option-cases (results ts)) [
      | inl missing ↦ absurd (cc (rw missing at e))
      | inr (rest, found) ↦
          let same : ok ∷ rest ≡ oks = cc (rw found at e) in
          let first : status_in db t.target_id ≡ of_result ok = s ∙ ended_status ok in
          rw (← same, first) (ap (λ l. of_result ok ∷ l) (later rest found))
    ]

all_success :
    (oks : List Bool) → all is_success (map of_result oks) ≡ (length (select not oks) == 0)
unfolding all select
all_success [] = refl
all_success (true ∷ oks) = all_success oks
all_success (false ∷ oks) = ground arith

all_failed :
    (oks : List Bool) → all is_failed (map of_result oks) ≡ (length (select (λ r. r) oks) == 0)
unfolding all select
all_failed [] = refl
all_failed (true ∷ oks) = ground arith
all_failed (false ∷ oks) = all_failed oks

pub status_of_results-verdict :
    (oks : List Bool) → status_of_results oks ≡ verdict (map of_result oks)
unfolding status_of_results
status_of_results-verdict oks = rw (all_success oks, all_failed oks) refl
