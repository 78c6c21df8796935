-- ===== src/Ssh/Orderly.antt =====
-- The reconnections of a session manager and its queue, over every run.
use native.Mathlib.Nat.{one-le-pow}
use esos_webui.Common.{
  Bool, List, List-cases, Option, String, [], all, all-append, ap, arith, false, inl, inr, is_empty,
  leb, none, not, refl, some, true, ℕ, ◌&&◌, ◌++◌, ◌^◌, ◌||◌, ◌∙◌, ◌∷◌, ◌≡◌, ◌≤◌,
}
use esos_webui.Ssh.Manager.{
  SshStatus, is_error, QueuedCommand, SshSessionManager, connect, retry_delay, schedule_reconnect,
  on_close, on_ready, run_exec, run_all, flush_queue, drain_queue, exec, destroy, start, reload,
  resume_slot, begin_exec, release_slot, max_retries,
}
use esos_webui.Ssh.Runs.{
  Step, Reach, end_exec, starts, issues, readies, closes, fails_to_connect, destroys, reloads,
  fires, resumes, begins, ends, created, after_step,
}

abbrev pub in_bounds : ℕ → Bool
in_bounds d = leb 3000 d && leb d 60000

-- At most ten attempts are counted, every scheduled delay is between 3 and 60 seconds, and in the
-- error state no command is queued.
unfoldable pub orderly : SshSessionManager → Bool
unfolding all
orderly s =
    leb s.retry_count max_retries
    && all in_bounds s.timers
    && (not (is_error s.status) || is_empty s.queue)

pow_positive : (n : ℕ) → 1 ≤ 2 ^ n
pow_positive n = one-le-pow n 2 (omega arith)

retry_delay-in_bounds : (n : ℕ) → in_bounds (retry_delay n) ≡ true
unfolding retry_delay
retry_delay-in_bounds n = ground (arith, pow_positive n)

run_exec_keeps :
    (c : QueuedCommand) (s : SshSessionManager)
    → let t = run_exec c s in
      (t.retry_count ≡ s.retry_count)
      × (t.timers ≡ s.timers)
      × (t.status ≡ s.status)
      × (t.queue ≡ s.queue)
unfolding run_exec
run_exec_keeps c s = (ground arith, ground arith, ground arith, ground arith)

run_all_keeps :
    (cs : List QueuedCommand) (s : SshSessionManager)
    → let t = run_all cs s in
      (t.retry_count ≡ s.retry_count)
      × (t.timers ≡ s.timers)
      × (t.status ≡ s.status)
      × (t.queue ≡ s.queue)
unfolding run_all
run_all_keeps [] s = (refl, refl, refl, refl)
run_all_keeps (c ∷ cs) s =
    let (a, b, d, e) = run_exec_keeps c s in
    let (a', b', d', e') = run_all_keeps cs (run_exec c s) in (a' ∙ a, b' ∙ b, d' ∙ d, e' ∙ e)

connect-orderly : (s : SshSessionManager) → orderly s ≡ true → orderly (connect s) ≡ true
unfolding connect orderly
connect-orderly s h = ground arith

schedule_reconnect-orderly :
    (s : SshSessionManager) → orderly s ≡ true → orderly (schedule_reconnect s) ≡ true
unfolding schedule_reconnect orderly drain_queue all
schedule_reconnect-orderly s h = ground (
  arith,
  all-append in_bounds s.timers (retry_delay s.retry_count ∷ []),
  retry_delay-in_bounds s.retry_count,
)

exec-orderly :
    (c : QueuedCommand) (s : SshSessionManager) → orderly s ≡ true → orderly (exec c s) ≡ true
unfolding exec orderly
exec-orderly c s h =
    let (a, b, d, e) = run_exec_keeps c s in
    ground (arith, a, ap (all in_bounds) b, ap is_error d, ap is_empty e)

on_ready-orderly : (s : SshSessionManager) → orderly s ≡ true → orderly (on_ready s) ≡ true
unfolding on_ready flush_queue orderly
on_ready-orderly s h =
    let begun : SshSessionManager = record s {
      retry_count = 0;
      status = SshStatus.connected;
      keep_alive = true;
      queue = [];
    } in
    let (a, b, d, e) = run_all_keeps s.queue begun in
    ground (arith, a, ap (all in_bounds) b, ap is_error d)

release_slot-orderly : (s : SshSessionManager) → orderly s ≡ true → orderly (release_slot s) ≡ true
unfolding release_slot orderly
release_slot-orderly s h = elim (List-cases s.waiters) [
  | inl e ↦ ground arith
  | inr (w, ws, e) ↦ ground arith
]

resume_slot-orderly :
    (c : QueuedCommand) (s : SshSessionManager)
    → orderly s ≡ true
    → orderly (resume_slot c s) ≡ true
unfolding resume_slot orderly
resume_slot-orderly c s h = ground arith

begin_exec-orderly :
    (c : QueuedCommand) (s : SshSessionManager) → orderly s ≡ true → orderly (begin_exec c s) ≡ true
unfolding begin_exec orderly
begin_exec-orderly c s h = ground arith

end_exec-orderly :
    (c : QueuedCommand) (message : Option String) (s : SshSessionManager)
    → orderly s ≡ true
    → orderly (end_exec c message s) ≡ true
unfolding orderly
end_exec-orderly c none s h = h
end_exec-orderly c (some m) s h = h

Step-orderly :
    {cs : List QueuedCommand} {s t : SshSessionManager}
    → Step cs s t
    → orderly s ≡ true
    → orderly t ≡ true
unfolding start on_close reload destroy drain_queue orderly
Step-orderly (starts s) h = connect-orderly (record s { destroyed = false }) h
Step-orderly (issues s c) h = exec-orderly c s h
Step-orderly (readies s) h = on_ready-orderly s h
Step-orderly (closes s) h = ground (arith, schedule_reconnect-orderly s h)
Step-orderly (fails_to_connect s) h = schedule_reconnect-orderly s h
Step-orderly (destroys s) h = ground arith
Step-orderly (reloads s) h =
    connect-orderly (record s { destroyed = false; retry_count = 0 }) (ground arith)
Step-orderly (fires s delay delays e) h =
    connect-orderly (record s { timers = delays }) (ground (arith, ap (all in_bounds) e))
Step-orderly (resumes s c cs e) h = resume_slot-orderly c (record s { woken = cs }) h
Step-orderly (begins s c cs e) h = begin_exec-orderly c (record s { acquired = cs }) h
Step-orderly (ends s earlier later c message e) h =
    release_slot-orderly _ (end_exec-orderly c message (record s { running = earlier ++ later }) h)

-- In every state that a manager reaches, at most ten attempts to reconnect are counted, every
-- scheduled delay is between 3 and 60 seconds, and in the error state no command is queued.
pub Reach-orderly :
    {issued : List QueuedCommand} {s : SshSessionManager} → Reach issued s → orderly s ≡ true
unfolding orderly
Reach-orderly created = refl
Reach-orderly (after_step r st) = Step-orderly st (Reach-orderly r)
