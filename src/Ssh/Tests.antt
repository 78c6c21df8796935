-- ===== src/Ssh/Tests.antt =====
-- A manager that connects and runs a command, and one with ten channels in use.
use esos_webui.Common.{[], none, refl, true, ℕ, ◌∷◌, ◌≡◌}
use esos_webui.Ssh.Manager.{
  SshStatus, QueuedCommand, SshSessionManager, new_manager, start, exec, on_ready, destroy,
  release_slot, resume_slot, retry_delay, on_close,
}
use esos_webui.Ssh.Runs.{
  count, Reach, created, after_step, starts, issues, readies, places, places_issued, end_exec,
}
use esos_webui.Ssh.Orderly.{orderly, Reach-orderly}
use esos_webui.Ssh.Channels.{channels_exceed}
use esos_webui.Ssh.Destroyed.{Microtasks-end, destroy-stranded}

abbrev command : ℕ → QueuedCommand
command n = record { id = n; cmd = "true"; timeout_ms = 5000 }

-- The command is issued before the connection is ready, and gets a channel when it is.
abbrev connected_run : SshSessionManager
connected_run = on_ready (exec (command 1) (start new_manager))

abbrev connected_Reach : Reach (command 1 ∷ []) connected_run
connected_Reach =
    after_step
      (after_step (after_step created (starts new_manager))
        (issues (start new_manager) (command 1)))
      (readies (exec (command 1) (start new_manager)))

ssh_tests :
    (connected_run.acquired ≡ command 1 ∷ [])
    × (connected_run.active_channels ≡ 1)
    × (retry_delay 2 ≡ 12000)
    × (retry_delay 9 ≡ 60000)
    × ((on_close connected_run).timers ≡ 3000 ∷ [])
unfolding on_ready exec start retry_delay on_close
ssh_tests = (refl, refl, refl, refl, refl)

places_issued_example : places 1 connected_run ≡ 1
places_issued_example = places_issued connected_Reach 1

Reach-orderly_example : orderly connected_run ≡ true
Reach-orderly_example = Reach-orderly connected_Reach

abbrev full : SshSessionManager
full = record new_manager {
  has_client = true;
  status = SshStatus.connected;
  active_channels = 10;
  waiters = command 11 ∷ command 12 ∷ [];
}

channels_exceed_example :
    let t = exec (command 13) (release_slot (end_exec (command 1) none full)) in
    (t.woken ≡ command 11 ∷ []) × ((resume_slot (command 11) t).active_channels ≡ 11)
channels_exceed_example =
    channels_exceed full (command 1) (command 11) (command 13) (command 12 ∷ []) none refl refl refl
      refl refl

destroy-stranded_example :
    let t = (Microtasks-end (destroy full)).0 in
    (count 11 t.stranded ≡ 1)
    × (t.resolved ≡ [])
    × (t.rejected ≡ [])
    × (t.running ≡ [])
    × (t.active_channels ≡ 12)
destroy-stranded_example =
    destroy-stranded full (Microtasks-end (destroy full)).0 11 (Microtasks-end (destroy full)).1
