-- ===== src/Ssh/Channels.antt =====
-- The limit of ten channels of a session manager.
use esos_webui.Common.{
  List, List-cases, Option, String, [], ap, arith, false, inl, inr, none, refl, some, suc, true,
  ◌++◌, ◌-◌, ◌<◌, ◌∙◌, ◌∷◌, ◌≡◌,
}
use esos_webui.Ssh.Manager.{
  SshStatus, is_error, is_connected, QueuedCommand, SshSessionManager, run_exec, exec, resume_slot,
  release_slot,
}
use esos_webui.Ssh.Runs.{end_exec}

release_slot_keeps :
    (s : SshSessionManager)
    → let t = release_slot s in
      (t.active_channels ≡ s.active_channels - 1)
      × (t.has_client ≡ s.has_client)
      × (t.status ≡ s.status)
      × (t.destroyed ≡ s.destroyed)
unfolding release_slot
release_slot_keeps s = elim (List-cases s.waiters) [
  | inl e ↦ (ground arith, ground arith, ground arith, ground arith)
  | inr (w, ws, e) ↦ (ground arith, ground arith, ground arith, ground arith)
]

end_exec_keeps :
    (c : QueuedCommand) (message : Option String) (s : SshSessionManager)
    → let t = end_exec c message s in
      (t.active_channels ≡ s.active_channels)
      × (t.has_client ≡ s.has_client)
      × (t.status ≡ s.status)
      × (t.destroyed ≡ s.destroyed)
end_exec_keeps c none s = (refl, refl, refl, refl)
end_exec_keeps c (some m) s = (refl, refl, refl, refl)

exec_takes :
    (c : QueuedCommand) (s : SshSessionManager)
    → s.has_client ≡ true
    → s.status ≡ SshStatus.connected
    → s.destroyed ≡ false
    → s.active_channels < 10
    → (exec c s).active_channels ≡ suc s.active_channels
unfolding exec run_exec
exec_takes c s client up alive room =
    let on = ap is_connected up in let off = ap is_error up in ground arith

resume_slot_takes :
    (c : QueuedCommand) (s : SshSessionManager)
    → (resume_slot c s).active_channels ≡ suc s.active_channels
unfolding resume_slot
resume_slot_takes c s = ground arith

release_slot-woken :
    (s : SshSessionManager) (w : QueuedCommand) (ws : List QueuedCommand)
    → s.waiters ≡ w ∷ ws
    → (release_slot s).woken ≡ s.woken ++ (w ∷ [])
unfolding release_slot
release_slot-woken s w ws e = ground arith

exec-woken : (c : QueuedCommand) (s : SshSessionManager) → (exec c s).woken ≡ s.woken
unfolding exec run_exec
exec-woken c s = ground arith

end_exec-waiters :
    (c : QueuedCommand) (message : Option String) (s : SshSessionManager)
    → let t = end_exec c message s in (t.waiters ≡ s.waiters) × (t.woken ≡ s.woken)
end_exec-waiters c none s = (refl, refl)
end_exec-waiters c (some m) s = (refl, refl)

-- A woken command and a new one can both take one released channel: if ten channels are in use on a
-- live connection and a command waits, then the end of a command wakes it, and a new command and
-- the resumption of the woken one leave eleven channels in use.
pub channels_exceed :
    (s : SshSessionManager) (done waiting new : QueuedCommand) (others : List QueuedCommand)
    (message : Option String)
    → s.active_channels ≡ 10
    → s.has_client ≡ true
    → s.status ≡ SshStatus.connected
    → s.destroyed ≡ false
    → s.waiters ≡ waiting ∷ others
    → let t = exec new (release_slot (end_exec done message s)) in
      (t.woken ≡ s.woken ++ (waiting ∷ [])) × ((resume_slot waiting t).active_channels ≡ 11)
channels_exceed s done waiting new others message full client up alive waits =
    let ended : SshSessionManager = end_exec done message s in
    let (n, c, u, d) = end_exec_keeps done message s in
    let (n', c', u', d') = release_slot_keeps ended in
    let (ws, wo) = end_exec-waiters done message s in
    let taken =
      exec_takes new (release_slot ended) (c' ∙ c ∙ client) (u' ∙ u ∙ up) (d' ∙ d ∙ alive)
        (omega arith) in
    (
      exec-woken new (release_slot ended)
          ∙ release_slot-woken ended waiting others (ws ∙ waits)
          ∙ ap (λ cs. cs ++ (waiting ∷ [])) wo,
      omega (arith, taken, resume_slot_takes waiting (exec new (release_slot ended))),
    )
