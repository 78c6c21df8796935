-- ===== src/Ssh/Runs.antt =====
-- The runs of a session manager: calls from the program, and what the network, the timers and the
-- remote commands do, in any order. `reload` is `destroy`, then `reload` when the configuration has
-- been read. Any client may become ready or close at any time, which is more than the library allows.
use esos_webui.Common.{
  List, List-cases, Option, String, [], ap, arith, false, if◌then◌else◌, inl, inr, none, refl, some,
  ℕ, ◌++◌, ◌+◌, ◌==◌, ◌∷◌, ◌≡◌,
}
use esos_webui.Ssh.Manager.{
  QueuedCommand, Rejection, SshSessionManager, new_manager, connect, schedule_reconnect, on_close,
  on_ready, run_exec, run_all, flush_queue, drain_queue, reject_all, exec, destroy, start, reload,
  resume_slot, begin_exec, release_slot, reject,
}

-- The end of a running command: its channel is released, and its promise is resolved or rejected.
abbrev pub end_exec : QueuedCommand → Option String → SshSessionManager → SshSessionManager
end_exec c none s = record s { resolved = c ∷ s.resolved }
end_exec c (some message) s = reject c message s

-- One step, and the command that it issued, if any.
pub data Step : List QueuedCommand → SshSessionManager → SshSessionManager → Type 0 where
  starts : (s : SshSessionManager) → Step [] s (start s)
  issues : (s : SshSessionManager) (c : QueuedCommand) → Step (c ∷ []) s (exec c s)
  readies : (s : SshSessionManager) → Step [] s (on_ready s)
  closes : (s : SshSessionManager) → Step [] s (on_close s)
  fails_to_connect : (s : SshSessionManager) → Step [] s (schedule_reconnect s)
  destroys : (s : SshSessionManager) → Step [] s (destroy s)
  reloads : (s : SshSessionManager) → Step [] s (reload s)
  fires :
      (s : SshSessionManager) (delay : ℕ) (delays : List ℕ)
      → s.timers ≡ delay ∷ delays
      → Step [] s (connect (record s { timers = delays }))
  resumes :
      (s : SshSessionManager) (c : QueuedCommand) (cs : List QueuedCommand)
      → s.woken ≡ c ∷ cs
      → Step [] s (resume_slot c (record s { woken = cs }))
  begins :
      (s : SshSessionManager) (c : QueuedCommand) (cs : List QueuedCommand)
      → s.acquired ≡ c ∷ cs
      → Step [] s (begin_exec c (record s { acquired = cs }))
  ends :
      (s : SshSessionManager) (earlier later : List QueuedCommand) (c : QueuedCommand)
      (message : Option String)
      → s.running ≡ earlier ++ (c ∷ later)
      → Step [] s (release_slot (end_exec c message (record s { running = earlier ++ later })))

-- A state that a new manager reaches, with the commands that were issued, the last first.
pub data Reach : List QueuedCommand → SshSessionManager → Type 0 where
  created : Reach [] new_manager
  after_step :
      {issued cs : List QueuedCommand} {s t : SshSessionManager}
      → Reach issued s
      → Step cs s t
      → Reach (cs ++ issued) t

abbrev hit : ℕ → QueuedCommand → ℕ
hit k c = if c.id == k then 1 else 0

-- How many commands of a list have a number.
abbrev pub count : ℕ → List QueuedCommand → ℕ
count k [] = 0
count k (c ∷ cs) = hit k c + count k cs

abbrev pub count_rejected : ℕ → List Rejection → ℕ
count_rejected k [] = 0
count_rejected k (r ∷ rs) = hit k r.command + count_rejected k rs

-- How many commands with a number the manager has in all places together.
abbrev pub places : ℕ → SshSessionManager → ℕ
places k s =
    count k s.queue
    + count k s.waiters
    + count k s.woken
    + count k s.acquired
    + count k s.running
    + count k s.resolved
    + count k s.stranded
    + count_rejected k s.rejected

pub count-append :
    (k : ℕ) (xs ys : List QueuedCommand) → count k (xs ++ ys) ≡ count k xs + count k ys
count-append k [] ys = omega arith
count-append k (x ∷ xs) ys = omega (arith, count-append k xs ys)

count-reject_all :
    (k : ℕ) (cs : List QueuedCommand) (m : String) (rs : List Rejection)
    → count_rejected k (reject_all cs m rs) ≡ count k cs + count_rejected k rs
count-reject_all k [] m rs = omega arith
count-reject_all k (c ∷ cs) m rs = omega (arith, count-reject_all k cs m rs)

run_exec-places :
    (k : ℕ) (c : QueuedCommand) (s : SshSessionManager)
    → places k (run_exec c s) ≡ hit k c + places k s
unfolding run_exec
run_exec-places k c s =
    ground (arith, count-append k s.waiters (c ∷ []), count-append k s.acquired (c ∷ []))

run_all-places :
    (k : ℕ) (cs : List QueuedCommand) (s : SshSessionManager)
    → places k (run_all cs s) ≡ count k cs + places k s
unfolding run_all
run_all-places k [] s = omega arith
run_all-places k (c ∷ cs) s =
    omega (arith, run_all-places k cs (run_exec c s), run_exec-places k c s)

drain_queue-places :
    (k : ℕ) (m : String) (s : SshSessionManager) → places k (drain_queue m s) ≡ places k s
unfolding drain_queue
drain_queue-places k m s = omega (arith, count-reject_all k s.queue m s.rejected)

schedule_reconnect-places :
    (k : ℕ) (s : SshSessionManager) → places k (schedule_reconnect s) ≡ places k s
unfolding schedule_reconnect drain_queue
schedule_reconnect-places k s =
    ground (arith, count-reject_all k s.queue "SSH: max reconnect attempts reached (10)" s.rejected)

connect-places : (k : ℕ) (s : SshSessionManager) → places k (connect s) ≡ places k s
unfolding connect
connect-places k s = ground arith

exec-places :
    (k : ℕ) (c : QueuedCommand) (s : SshSessionManager) → places k (exec c s) ≡ hit k c + places k s
unfolding exec
exec-places k c s = ground (arith, run_exec-places k c s, count-append k s.queue (c ∷ []))

release_slot-places : (k : ℕ) (s : SshSessionManager) → places k (release_slot s) ≡ places k s
unfolding release_slot
release_slot-places k s = elim (List-cases s.waiters) [
  | inl e ↦ ground arith
  | inr (w, ws, e) ↦ let waiting = ap (count k) e in ground (arith, count-append k s.woken (w ∷ []))
]

destroy-places : (k : ℕ) (s : SshSessionManager) → places k (destroy s) ≡ places k s
unfolding destroy drain_queue
destroy-places k s = omega (
  arith,
  count-reject_all k s.queue "SSHSessionManager destroyed" s.rejected,
  count-append k s.woken s.waiters,
)

resume_slot-places :
    (k : ℕ) (c : QueuedCommand) (s : SshSessionManager)
    → places k (resume_slot c s) ≡ hit k c + places k s
unfolding resume_slot
resume_slot-places k c s = omega (arith, count-append k s.acquired (c ∷ []))

begin_exec-places :
    (k : ℕ) (c : QueuedCommand) (s : SshSessionManager)
    → places k (begin_exec c s) ≡ hit k c + places k s
unfolding begin_exec
begin_exec-places k c s = ground arith

end_exec-places :
    (k : ℕ) (c : QueuedCommand) (message : Option String) (s : SshSessionManager)
    → places k (end_exec c message s) ≡ hit k c + places k s
end_exec-places k c none s = omega arith
end_exec-places k c (some m) s = omega arith

Step-places :
    (k : ℕ) {cs : List QueuedCommand} {s t : SshSessionManager}
    → Step cs s t
    → places k t ≡ count k cs + places k s
unfolding start on_ready on_close reload flush_queue
Step-places k (starts s) = omega (arith, connect-places k (record s { destroyed = false }))
Step-places k (issues s c) = omega (arith, exec-places k c s)
Step-places k (readies s) = omega (arith, run_all-places k s.queue _)
Step-places k (closes s) = ground (arith, schedule_reconnect-places k s)
Step-places k (fails_to_connect s) = omega (arith, schedule_reconnect-places k s)
Step-places k (destroys s) = omega (arith, destroy-places k s)
Step-places k (reloads s) =
    omega (arith, connect-places k (record s { destroyed = false; retry_count = 0 }))
Step-places k (fires s delay delays e) =
    omega (arith, connect-places k (record s { timers = delays }))
Step-places k (resumes s c cs e) =
    omega (arith, resume_slot-places k c (record s { woken = cs }), ap (count k) e)
Step-places k (begins s c cs e) =
    omega (arith, begin_exec-places k c (record s { acquired = cs }), ap (count k) e)
Step-places k (ends s earlier later c message e) =
    let left : SshSessionManager = record s { running = earlier ++ later } in
    omega (
      arith,
      release_slot-places k (end_exec c message left),
      end_exec-places k c message left,
      ap (count k) e,
      count-append k earlier (c ∷ later),
      count-append k earlier later,
    )

-- No command is lost or doubled: in every state that a manager reaches, the commands that were
-- issued are, each as often as it was issued, those that are queued, waiting, woken, acquired, running,
-- resolved, rejected or stranded.
pub places_issued :
    {issued : List QueuedCommand} {s : SshSessionManager}
    → Reach issued s
    → (k : ℕ) → places k s ≡ count k issued
places_issued created k = refl
places_issued (after_step {issued} {cs} r st) k =
    omega (arith, places_issued r k, Step-places k st, count-append k cs issued)
