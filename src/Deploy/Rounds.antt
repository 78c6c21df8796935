-- ===== src/Deploy/Rounds.antt =====
-- The tasks of a deployment job all end, whatever the nodes answer.
use mathlib.Core.Path.{subst}
use mathlib.Core.List.{append_assoc}
use esos_webui.Common.{
  All, Bool, List, String, [], arith, refl, some, suc, sym, zero, ℕ, ◌++◌, ◌+◌, ◌∷◌, ◌≡◌, ◌≤◌,
}
use esos_webui.Cluster.{SanRow}
use esos_webui.Deploy.Types.{DeploymentBinary, JobStatus, TargetRow, Tables}
use esos_webui.Deploy.Tables.{update_job_status}
use esos_webui.Deploy.Runner.{
  Phase, connecting, locating, transferring, verifying, installing, ended, Answer, Moment, resume,
}
use esos_webui.Deploy.Jobs.{
  Task, begin_all, running, begin_job, Advance, here, there, Runs, started, answered, progressed,
  result_of, results,
}
use esos_webui.Deploy.Ended.{job_targets, begin_job-running}
use esos_webui.Deploy.Ending.{work, work-resume, work-begin}

-- What a task takes in one round: an answer to what it waits for, and nothing once it has ended.
abbrev pub RoundAnswer : Phase → Type 0
RoundAnswer connecting = Answer connecting
RoundAnswer (locating path) = Answer (locating path)
RoundAnswer (transferring path) = Answer (transferring path)
RoundAnswer (verifying path) = Answer (verifying path)
RoundAnswer (installing kind command rest) = Answer (installing kind command rest)
RoundAnswer (ended ok) = Unit {0}

-- How the nodes answer: by the number of rounds to come, the tables, the target and what its task
-- waits for.
abbrev pub Answers : Type 0
Answers = ℕ → Tables → String → (p : Phase) → Moment × RoundAnswer p

module _ (binary : DeploymentBinary) where
  unfoldable pub take_answer :
      String → (p : Phase) → Moment × RoundAnswer p → Tables → Tables × Phase
  take_answer id connecting (at, a) db = resume binary id at connecting a db
  take_answer id (locating path) (at, a) db = resume binary id at (locating path) a db
  take_answer id (transferring path) (at, a) db = resume binary id at (transferring path) a db
  take_answer id (verifying path) (at, a) db = resume binary id at (verifying path) a db
  take_answer id (installing kind command rest) (at, a) db =
      resume binary id at (installing kind command rest) a db
  take_answer id (ended ok) (at, a) db = (db, ended ok)

  module _ (answers : Answers) where
    -- One round: every task that has not ended takes one answer.
    unfoldable pub round : ℕ → Tables → List Task → Tables × List Task
    unfolding take_answer
    round k db [] = (db, [])
    round k db (t ∷ ts) =
        let (db', p) = take_answer t.target_id t.phase (answers k db t.target_id t.phase) db in
        let (db'', ts') = round k db' ts in
        (db'', record { target_id = t.target_id; phase = p } ∷ ts')

    unfoldable pub rounds : ℕ → Tables → List Task → Tables × List Task
    unfolding round
    rounds zero db ts = (db, ts)
    rounds (suc k) db ts = let (db', ts') = round k db ts in rounds k db' ts'

  -- No task has more than `k` answers to come.
  abbrev AtMost : ℕ → List Task → Type 0
  AtMost k ts = All (λ t. work t.phase ≤ k) ts

  take_answer-work :
      (id : String) (p : Phase) (a : Moment × RoundAnswer p) (db : Tables) (k : ℕ)
      → work p ≤ suc k
      → work (take_answer id p a db).1 ≤ k
  unfolding take_answer
  take_answer-work id connecting (at, a) db k h =
      omega (arith, work-resume binary id at connecting a db)
  take_answer-work id (locating path) (at, a) db k h =
      omega (arith, work-resume binary id at (locating path) a db)
  take_answer-work id (transferring path) (at, a) db k h =
      omega (arith, work-resume binary id at (transferring path) a db)
  take_answer-work id (verifying path) (at, a) db k h =
      omega (arith, work-resume binary id at (verifying path) a db)
  take_answer-work id (installing kind command rest) (at, a) db k h =
      omega (arith, work-resume binary id at (installing kind command rest) a db)
  take_answer-work id (ended ok) (at, a) db k h = omega arith

  Advance-before :
      (done : List Task) {db db' : Tables} {ts ts' : List Task}
      → Advance binary db ts db' ts'
      → Advance binary db (done ++ ts) db' (done ++ ts')
  Advance-before [] step = step
  Advance-before (t ∷ done) step = there t (Advance-before done step)

  -- A run goes on with an answer to one task, if it has not ended.
  take_answer-Runs :
      (id : String) (p : Phase) (a : Moment × RoundAnswer p) (db db0 : Tables)
      (ts0 done ts : List Task) (n : ℕ)
      → Runs binary db0 ts0 n db (done ++ (record { target_id = id; phase = p } ∷ ts))
      → (m : ℕ) × Runs binary db0 ts0 m
          (take_answer id p a db).0
          (done ++ (record { target_id = id; phase = (take_answer id p a db).1 } ∷ ts))
  unfolding take_answer
  take_answer-Runs id connecting (at, a) db db0 ts0 done ts n run =
      (n + 1, answered run (Advance-before done (here id connecting at a)))
  take_answer-Runs id (locating path) (at, a) db db0 ts0 done ts n run =
      (n + 1, answered run (Advance-before done (here id (locating path) at a)))
  take_answer-Runs id (transferring path) (at, a) db db0 ts0 done ts n run =
      (n + 1, answered run (Advance-before done (here id (transferring path) at a)))
  take_answer-Runs id (verifying path) (at, a) db db0 ts0 done ts n run =
      (n + 1, answered run (Advance-before done (here id (verifying path) at a)))
  take_answer-Runs id (installing kind command rest) (at, a) db db0 ts0 done ts n run =
      (n + 1, answered run (Advance-before done (here id (installing kind command rest) at a)))
  take_answer-Runs id (ended ok) (at, a) db db0 ts0 done ts n run = (n, run)

  module _ (answers : Answers) where
    round-AtMost :
        (k j : ℕ) (db : Tables) (ts : List Task)
        → AtMost (suc j) ts
        → AtMost j (round answers k db ts).1
    unfolding round
    round-AtMost k j db [] h = tt
    round-AtMost k j db (t ∷ ts) (h, hs) = (
      take_answer-work t.target_id t.phase (answers k db t.target_id t.phase) db j h,
      round-AtMost k j (take_answer t.target_id t.phase (answers k db t.target_id t.phase) db).0 ts
          hs,
    )

    round-Runs :
        (k : ℕ) (db db0 : Tables) (ts0 done ts : List Task) (n : ℕ)
        → Runs binary db0 ts0 n db (done ++ ts)
        → (m : ℕ) × Runs binary db0 ts0 m
            (round answers k db ts).0
            (done ++ (round answers k db ts).1)
    unfolding round
    round-Runs k db db0 ts0 done [] n run = (n, run)
    round-Runs k db db0 ts0 done (t ∷ ts) n run =
        let a = answers k db t.target_id t.phase in
        let after = take_answer t.target_id t.phase a db in
        let now : Task = record { target_id = t.target_id; phase = after.1 } in
        let (m, run') = take_answer-Runs t.target_id t.phase a db db0 ts0 done ts n run in
        let (m', run'') = round-Runs k after.0 db0 ts0 (done ++ (now ∷ [])) ts m (
          subst (λ l. Runs binary db0 ts0 m after.0 l) (sym (append_assoc done (now ∷ []) ts))
            run') in
        (
          m',
          subst (λ l. Runs binary db0 ts0 m' (round answers k after.0 ts).0 l)
              (append_assoc done (now ∷ []) (round answers k after.0 ts).1) run'',
        )

    rounds-AtMost :
        (k : ℕ) (db : Tables) (ts : List Task) → AtMost k ts → AtMost 0 (rounds answers k db ts).1
    unfolding rounds
    rounds-AtMost zero db ts h = h
    rounds-AtMost (suc k) db ts h = rounds-AtMost k _ _ (round-AtMost k k db ts h)

    rounds-Runs :
        (k : ℕ) (db db0 : Tables) (ts0 ts : List Task) (n : ℕ)
        → Runs binary db0 ts0 n db ts
        → (m : ℕ) × Runs binary db0 ts0 m (rounds answers k db ts).0 (rounds answers k db ts).1
    unfolding rounds
    rounds-Runs zero db db0 ts0 ts n run = (n, run)
    rounds-Runs (suc k) db db0 ts0 ts n run =
        let (m, run') = round-Runs k db db0 ts0 [] ts n run in rounds-Runs k _ db0 ts0 _ m run'

  result_of-idle : (p : Phase) → work p ≤ 0 → (ok : Bool) × (result_of p ≡ some ok)
  unfolding result_of
  result_of-idle connecting h = absurd (omega arith)
  result_of-idle (locating path) h = absurd (omega arith)
  result_of-idle (transferring path) h = absurd (omega arith)
  result_of-idle (verifying path) h = absurd (omega arith)
  result_of-idle (installing kind command rest) h = absurd (omega arith)
  result_of-idle (ended ok) h = (ok, refl)

  results-idle : (ts : List Task) → AtMost 0 ts → (oks : List Bool) × (results ts ≡ some oks)
  unfolding results
  results-idle [] h = ([], refl)
  results-idle (t ∷ ts) (h, hs) =
      let (ok, e) = result_of-idle t.phase h in
      let (oks, es) = results-idle ts hs in (ok ∷ oks, rw (results, e, es) refl)

  Advance-AtMost :
      {db db' : Tables} {ts ts' : List Task}
      → Advance binary db ts db' ts'
      → AtMost 9 ts
      → AtMost 9 ts'
  Advance-AtMost (here {db} id p at a) (h, hs) =
      (omega (arith, work-resume binary id at p a db), hs)
  Advance-AtMost (there t step) (h, hs) = (h, Advance-AtMost step hs)

  Runs-AtMost :
      {db : Tables} {ts : List Task} {n : ℕ} {db' : Tables} {ts' : List Task}
      → Runs binary db ts n db' ts'
      → AtMost 9 ts
      → AtMost 9 ts'
  Runs-AtMost started h = h
  Runs-AtMost (answered run step) h = Advance-AtMost step (Runs-AtMost run h)
  Runs-AtMost (progressed id done total run) h = Runs-AtMost run h

  begin_all-AtMost :
      (at : Moment) (sans : List SanRow) (rs : List TargetRow) (db : Tables)
      → AtMost 9 (begin_all binary at sans rs db).1
  unfolding begin_all
  begin_all-AtMost at sans [] db = tt
  begin_all-AtMost at sans (r ∷ rs) db =
      (work-begin binary r.id at sans r.san_id db, begin_all-AtMost at sans rs _)

-- From every state that a job reaches, nine rounds in which every task that has not ended takes one
-- answer, whatever the answers are, are a run of the job after which all its tasks have ended.
pub rounds_complete :
    (at : Moment) (sans : List SanRow) (job_id : String) (db : Tables) (binary : DeploymentBinary)
    (db1 : Tables) (tasks : List Task)
    → begin_job at sans job_id db ≡ running binary db1 tasks
    → (n : ℕ) (db2 : Tables) (ts : List Task) → Runs binary db1 tasks n db2 ts
    → (answers : Answers)
    → let (db3, ts3) = rounds binary answers 9 db2 ts in
      ((m : ℕ) × Runs binary db1 tasks m db3 ts3) × ((oks : List Bool) × (results ts3 ≡ some oks))
rounds_complete at sans job_id db binary db1 tasks begun n db2 ts run answers =
    let (old, stands, all_begun) = begin_job-running at sans job_id db binary db1 tasks begun in
    let rows = job_targets job_id db in
    let marked = update_job_status at.now job_id JobStatus.running db in
    let first =
      subst (λ r. All (λ t. work t.phase ≤ 9) r.1) all_begun
        (begin_all-AtMost binary at sans rows marked) in
    (
      rounds-Runs binary answers 9 db2 db1 tasks ts n run,
      results-idle binary (rounds binary answers 9 db2 ts).1
          (rounds-AtMost binary answers 9 db2 ts (Runs-AtMost binary run first)),
    )
