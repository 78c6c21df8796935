-- ===== src/Ssh/Destroyed.antt =====
-- What becomes of the commands that wait for a channel when a session manager is destroyed.
use esos_webui.Common.{
  List, [], ap, arith, false, length, length-append, refl, ℕ, ◌+◌, ◌∙◌, ◌∷◌, ◌≡◌,
}
use esos_webui.Ssh.Manager.{
  QueuedCommand, SshSessionManager, reject_all, drain_queue, destroy, resume_slot, begin_exec,
}
use esos_webui.Ssh.Runs.{count, count-append}

-- The microtasks that are due: the waits that are over are resumed, and so are the commands that have
-- a channel, in any order. No event or timer comes before they are done.
pub data Microtasks : SshSessionManager → SshSessionManager → Type 0 where
  idle : {s : SshSessionManager} → s.woken ≡ [] → s.acquired ≡ [] → Microtasks s s
  resumed :
      {s t : SshSessionManager} (c : QueuedCommand) (cs : List QueuedCommand)
      → s.woken ≡ c ∷ cs
      → Microtasks (resume_slot c (record s { woken = cs })) t
      → Microtasks s t
  begun :
      {s t : SshSessionManager} (c : QueuedCommand) (cs : List QueuedCommand)
      → s.acquired ≡ c ∷ cs
      → Microtasks (begin_exec c (record s { acquired = cs })) t
      → Microtasks s t

-- Commands with a number that have no channel yet, or have one and have not begun, or are stranded.
abbrev unsettled : ℕ → SshSessionManager → ℕ
unsettled k s = count k s.woken + count k s.acquired + count k s.stranded

record Stranding (k : ℕ) (s t : SshSessionManager) : Type 0 where
  nothing_due : (t.woken ≡ []) × (t.acquired ≡ [])
  kept : unsettled k t ≡ unsettled k s
  resolved : t.resolved ≡ s.resolved
  rejected : t.rejected ≡ s.rejected
  running : t.running ≡ s.running
  channels : t.active_channels ≡ s.active_channels + length s.woken

resume-keeps :
    (k : ℕ) (c : QueuedCommand) (cs : List QueuedCommand) (s : SshSessionManager)
    → s.woken ≡ c ∷ cs
    → let u = resume_slot c (record s { woken = cs }) in
      (unsettled k u ≡ unsettled k s)
      × (u.resolved ≡ s.resolved)
      × (u.rejected ≡ s.rejected)
      × (u.running ≡ s.running)
      × (u.has_client ≡ s.has_client)
      × (u.active_channels + length u.woken ≡ s.active_channels + length s.woken)
unfolding resume_slot
resume-keeps k c cs s e = (
  omega (arith, ap (count k) e, count-append k s.acquired (c ∷ [])),
  refl,
  refl,
  refl,
  refl,
  omega (arith, ap length e),
)

begin-keeps :
    (k : ℕ) (c : QueuedCommand) (cs : List QueuedCommand) (s : SshSessionManager)
    → s.acquired ≡ c ∷ cs
    → s.has_client ≡ false
    → let u = begin_exec c (record s { acquired = cs }) in
      (unsettled k u ≡ unsettled k s)
      × (u.resolved ≡ s.resolved)
      × (u.rejected ≡ s.rejected)
      × (u.running ≡ s.running)
      × (u.has_client ≡ false)
      × (u.active_channels + length u.woken ≡ s.active_channels + length s.woken)
unfolding begin_exec
begin-keeps k c cs s e gone = (
  ground (arith, ap (count k) e),
  ground arith,
  ground arith,
  ground arith,
  ground arith,
  ground arith,
)

microtasks-Stranding :
    (k : ℕ) {s t : SshSessionManager} → Microtasks s t → s.has_client ≡ false → Stranding k s t
microtasks-Stranding k (idle {s} w a) gone = record {
  nothing_due = (w, a);
  kept = refl;
  resolved = refl;
  rejected = refl;
  running = refl;
  channels = omega (arith, ap length w);
}
microtasks-Stranding k (resumed {s} c cs e run) gone =
    let (same, ok, bad, on, client, n) = resume-keeps k c cs s e in
    let later = microtasks-Stranding k run (client ∙ gone) in
    record {
      nothing_due = later.nothing_due;
      kept = later.kept ∙ same;
      resolved = later.resolved ∙ ok;
      rejected = later.rejected ∙ bad;
      running = later.running ∙ on;
      channels = later.channels ∙ n;
    }
microtasks-Stranding k (begun {s} c cs e run) gone =
    let (same, ok, bad, on, client, n) = begin-keeps k c cs s e gone in
    let later = microtasks-Stranding k run client in
    record {
      nothing_due = later.nothing_due;
      kept = later.kept ∙ same;
      resolved = later.resolved ∙ ok;
      rejected = later.rejected ∙ bad;
      running = later.running ∙ on;
      channels = later.channels ∙ n;
    }

begin_exec-woken :
    (c : QueuedCommand) (cs : List QueuedCommand) (s : SshSessionManager)
    → s.woken ≡ []
    → (begin_exec c (record s { acquired = cs })).woken ≡ []
unfolding begin_exec
begin_exec-woken c cs s e = ground arith

begin_exec-acquired :
    (c : QueuedCommand) (cs : List QueuedCommand) (s : SshSessionManager)
    → (begin_exec c (record s { acquired = cs })).acquired ≡ cs
unfolding begin_exec
begin_exec-acquired c cs s = ground arith

-- The microtasks come to an end.
begin-microtasks :
    (cs : List QueuedCommand) (s : SshSessionManager)
    → s.woken ≡ []
    → s.acquired ≡ cs
    → (t : SshSessionManager) × Microtasks s t
begin-microtasks [] s w a = (s, idle w a)
begin-microtasks (c ∷ cs) s w a =
    let next = begin_exec c (record s { acquired = cs }) in
    let (t, run) =
      begin-microtasks cs next (begin_exec-woken c cs s w) (begin_exec-acquired c cs s) in
    (t, begun c cs a run)

resume-microtasks :
    (ws : List QueuedCommand) (s : SshSessionManager)
    → s.woken ≡ ws
    → (t : SshSessionManager) × Microtasks s t
unfolding resume_slot
resume-microtasks [] s w = begin-microtasks s.acquired s w refl
resume-microtasks (c ∷ ws) s w =
    let (t, run) = resume-microtasks ws (resume_slot c (record s { woken = ws })) refl in
    (t, resumed c ws w run)

pub Microtasks-end : (s : SshSessionManager) → (t : SshSessionManager) × Microtasks s t
Microtasks-end s = resume-microtasks s.woken s refl

-- After a manager is destroyed and the microtasks that this makes due have run, every command that
-- waited for a channel, had been given one or had not begun, is stranded, each as often as it was
-- there: none of them is resolved or rejected (the commands of the queue are what is rejected), none
-- runs, and each that waited or was woken has taken a channel that is not given back.
pub destroy-stranded :
    (s t : SshSessionManager) (k : ℕ)
    → Microtasks (destroy s) t
    → (count k t.stranded
        ≡ count k s.waiters + count k s.woken + count k s.acquired + count k s.stranded)
      × (t.resolved ≡ s.resolved)
      × (t.rejected ≡ reject_all s.queue "SSHSessionManager destroyed" s.rejected)
      × (t.running ≡ s.running)
      × (t.active_channels ≡ s.active_channels + length s.waiters + length s.woken)
unfolding destroy drain_queue
destroy-stranded s t k run =
    let after = microtasks-Stranding k run refl in
    let (w, a) = after.nothing_due in
    (
      omega (arith, after.kept, ap (count k) w, ap (count k) a, count-append k s.woken s.waiters),
      after.resolved,
      after.rejected,
      after.running,
      omega (arith, after.channels, length-append s.woken s.waiters),
    )
