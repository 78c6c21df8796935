-- ===== src/Ssh/Manager.antt =====
-- `SSHSessionManager` of server/utils/ssh-session-manager.ts, without `uploadFile` and `openShell`.
-- The state has the fields of the class and where each command is. The code after an `await` runs
-- later than what it waits for, so there are places in between: a command is queued, waiting for a
-- channel, woken (its wait is over, its channel not yet counted), acquired (counted, and its
-- `runExec` not yet resumed), running, or ended. A command that finds no client when `runExec` is
-- resumed is stranded: the code throws, its promise never ends, and its channel is not given back.
-- The network and the timers are steps from outside.
use esos_webui.Common.{
  Bool, List, String, [], false, if◌then◌else◌, leb, ltb, not, suc, true, ℕ, ◌&&◌, ◌*◌, ◌++◌, ◌-◌,
  ◌^◌, ◌||◌, ◌∷◌,
}

pub data SshStatus : Type 0 where
  connecting connected reconnecting error : SshStatus

abbrev pub is_error : SshStatus → Bool
is_error error = true
is_error connecting = false
is_error connected = false
is_error reconnecting = false

abbrev pub is_connected : SshStatus → Bool
is_connected connected = true
is_connected connecting = false
is_connected error = false
is_connected reconnecting = false

pub record QueuedCommand : Type 0 where
  pub id : ℕ
  pub cmd : String
  pub timeout_ms : ℕ

pub record Rejection : Type 0 where
  pub command : QueuedCommand
  pub message : String

pub record SshSessionManager : Type 0 where
  pub has_client : Bool
  pub status : SshStatus
  pub retry_count : ℕ
  pub keep_alive : Bool
  pub queue : List QueuedCommand
  pub destroyed : Bool
  pub active_channels : ℕ
  pub waiters : List QueuedCommand
  pub woken : List QueuedCommand
  pub acquired : List QueuedCommand
  pub running : List QueuedCommand
  pub resolved : List QueuedCommand
  pub rejected : List Rejection
  pub stranded : List QueuedCommand
  -- The delays of the reconnections that are scheduled and not yet due.
  pub timers : List ℕ

abbrev pub max_retries : ℕ
max_retries = 10

abbrev pub base_retry_delay : ℕ
base_retry_delay = 3000

abbrev pub max_channels : ℕ
max_channels = 10

-- `new SSHSessionManager(config)`
abbrev pub new_manager : SshSessionManager
new_manager = record {
  has_client = false;
  status = connecting;
  retry_count = 0;
  keep_alive = false;
  queue = [];
  destroyed = false;
  active_channels = 0;
  waiters = [];
  woken = [];
  acquired = [];
  running = [];
  resolved = [];
  rejected = [];
  stranded = [];
  timers = [];
}

abbrev pub reject : QueuedCommand → String → SshSessionManager → SshSessionManager
reject c message s = record s { rejected = record { command = c; message = message } ∷ s.rejected }

abbrev pub reject_all : List QueuedCommand → String → List Rejection → List Rejection
reject_all [] message rs = rs
reject_all (c ∷ cs) message rs =
    record { command = c; message = message } ∷ reject_all cs message rs

-- `drainQueue`
unfoldable pub drain_queue : String → SshSessionManager → SshSessionManager
drain_queue message s = record s { queue = []; rejected = reject_all s.queue message s.rejected }

unfoldable pub connect : SshSessionManager → SshSessionManager
connect s = if s.destroyed then s else record s {
  has_client = true;
  status = if ltb 0 s.retry_count then reconnecting else connecting;
}

-- `Math.min(baseRetryDelay * Math.pow(2, retryCount), 60_000)`
unfoldable pub retry_delay : ℕ → ℕ
retry_delay n = let delay = base_retry_delay * 2 ^ n in if leb delay 60000 then delay else 60000

unfoldable pub schedule_reconnect : SshSessionManager → SshSessionManager
unfolding drain_queue retry_delay
schedule_reconnect s =
    let idle = record s { keep_alive = false; has_client = false } in
    if s.destroyed
    then s
    else if leb max_retries s.retry_count
    then drain_queue "SSH: max reconnect attempts reached (10)" (record idle { status = error })
    else record idle {
      retry_count = suc s.retry_count;
      timers = s.timers ++ (retry_delay s.retry_count ∷ []);
    }

-- `client.on('close')`
unfoldable pub on_close : SshSessionManager → SshSessionManager
unfolding schedule_reconnect
on_close s = if s.destroyed then s else schedule_reconnect s

-- `runExec` up to its `await`, with `acquireSlot` up to its own.
unfoldable pub run_exec : QueuedCommand → SshSessionManager → SshSessionManager
run_exec c s =
    if not s.has_client
    then reject c "SSH: no client" s
    else if ltb s.active_channels max_channels
    then record s { active_channels = suc s.active_channels; acquired = s.acquired ++ (c ∷ []) }
    else record s { waiters = s.waiters ++ (c ∷ []) }

-- The end of `acquireSlot` for a woken command: its channel is counted.
unfoldable pub resume_slot : QueuedCommand → SshSessionManager → SshSessionManager
resume_slot c s = record s {
  active_channels = suc s.active_channels;
  acquired = s.acquired ++ (c ∷ []);
}

-- `runExec` after its `await`: `this.client.exec` throws if there is no client.
unfoldable pub begin_exec : QueuedCommand → SshSessionManager → SshSessionManager
begin_exec c s =
    if s.has_client
    then record s { running = c ∷ s.running }
    else record s { stranded = c ∷ s.stranded }

-- `releaseSlot`: the first waiter is woken.
unfoldable pub release_slot : SshSessionManager → SshSessionManager
release_slot s =
    let freed = record s { active_channels = s.active_channels - 1 } in
    elim (s.waiters) [
      | [] ↦ freed
      | w ∷ ws ↦ record freed { waiters = ws; woken = s.woken ++ (w ∷ []) }
    ]

unfoldable pub run_all : List QueuedCommand → SshSessionManager → SshSessionManager
unfolding run_exec
run_all [] s = s
run_all (c ∷ cs) s = run_all cs (run_exec c s)

-- `flushQueue`
unfoldable pub flush_queue : SshSessionManager → SshSessionManager
unfolding run_all
flush_queue s = run_all s.queue (record s { queue = [] })

-- `client.on('ready')`
unfoldable pub on_ready : SshSessionManager → SshSessionManager
unfolding flush_queue
on_ready s = flush_queue (record s { retry_count = 0; status = connected; keep_alive = true })

unfoldable pub exec : QueuedCommand → SshSessionManager → SshSessionManager
unfolding run_exec
exec c s =
    if s.destroyed || is_error s.status
    then reject c "SSH: connection in error state" s
    else if is_connected s.status && s.has_client
    then run_exec c s
    else record s { queue = s.queue ++ (c ∷ []) }

unfoldable pub destroy : SshSessionManager → SshSessionManager
unfolding drain_queue
destroy s =
    let drained =
      drain_queue "SSHSessionManager destroyed"
        (record s { destroyed = true; keep_alive = false; has_client = false; status = error }) in
    record drained { waiters = []; woken = s.woken ++ s.waiters }

unfoldable pub start : SshSessionManager → SshSessionManager
unfolding connect
start s = connect (record s { destroyed = false })

-- `reload`, after the configuration has been read.
unfoldable pub reload : SshSessionManager → SshSessionManager
unfolding connect
reload s = connect (record s { destroyed = false; retry_count = 0 })
