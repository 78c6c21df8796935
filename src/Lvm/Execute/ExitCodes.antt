-- ===== src/Lvm/Execute/ExitCodes.antt =====
-- The five actions other than `lvcreate` do not look at the exit code of their command.
use esos_webui.Common.{List, String, [], passed, refl, select, true, ◌∷◌, ◌≡◌, ◌≢◌}
use esos_webui.Cluster.{SanRow}
use esos_webui.Lvm.Types.{
  LvmAction, lvcreate, ClusterLvmDiskMapping, LvmPayload, ClusterLvmExecutionRequest,
  ClusterLvmNodeResult, ClusterLvmExecutionPlan, ClusterLvmExecutionResult, is_execute,
}
use esos_webui.Shell.Defs.{command_line}
use esos_webui.Lvm.Execute.{
  ExecResult, Attempt, value, thrown, Remote, NodeOutcome, after_command, run_command, run_action,
  run_node, run_nodes, run_plan, settle, Progress, begin, execute_cluster_lvm_plan,
}
use esos_webui.Lvm.Execute.Rounds.{execute-passed}

-- A round that neither throws nor adds an error.
abbrev IsQuiet : Attempt NodeOutcome → Type 0
IsQuiet (thrown m) = ⊥
IsQuiet (value o) = o.errors ≡ []

module _ {W : Type 0} (remote : Remote W) where
  after_command-IsQuiet :
      (node : ClusterLvmNodeResult) (a : Attempt ExecResult × W) (e : ExecResult)
      → a.0 ≡ value e
      → IsQuiet (after_command node a).0
  after_command-IsQuiet node (value r, w) e h = refl
  after_command-IsQuiet node (thrown m, w) e h = cc

  module _
      (answers : (w : W) (id command : String)
        → (e : ExecResult) × ((remote.exec w id command).0 ≡ value e)) where
    run_command-IsQuiet :
        (node : ClusterLvmNodeResult) (args : List String) (w : W)
        → IsQuiet (run_command remote node args w).0
    unfolding run_command
    run_command-IsQuiet node args w =
        let (e, same) = answers w node.san_id (command_line args) in
        after_command-IsQuiet node (remote.exec w node.san_id (command_line args)) e same

    module _ (req : ClusterLvmExecutionRequest) (payload : LvmPayload)
        (disk_mappings : List ClusterLvmDiskMapping) (peer_paths : String → List String) where
      run_action-IsQuiet :
          (action : LvmAction) (node : ClusterLvmNodeResult) (w : W)
          → action ≢ lvcreate
          → IsQuiet (run_action remote req payload disk_mappings peer_paths action node w).0
      unfolding run_action
      run_action-IsQuiet LvmAction.lvcreate node w h = absurd (h refl)
      run_action-IsQuiet LvmAction.bind_scst node w h = refl
      run_action-IsQuiet _ node w h = run_command-IsQuiet node _ w

      run_node-IsQuiet :
          ((w : W) (id : String) → remote.connected w id ≡ true)
          → (action : LvmAction) (node : ClusterLvmNodeResult) (w : W) → action ≢ lvcreate
          → IsQuiet (run_node remote req payload disk_mappings peer_paths action node w).0
      unfolding run_node
      run_node-IsQuiet up action node w h =
          rw (up w node.san_id) (run_action-IsQuiet action node w h)

settle-quiet :
    {W : Type 0} (s : Progress W) (node : ClusterLvmNodeResult) (a : Attempt NodeOutcome × W)
    → IsQuiet a.0
    → s.errors ≡ []
    → (settle s node a).errors ≡ []
unfolding settle
settle-quiet s node (value o, w) h e = rw (e, h)
settle-quiet s node (thrown m, w) h e = absurd h

run_nodes-quiet :
    {W : Type 0} (body : ClusterLvmNodeResult → W → Attempt NodeOutcome × W)
    → ((node : ClusterLvmNodeResult) (w : W) → IsQuiet (body node w).0)
    → (s : Progress W) (nodes : List ClusterLvmNodeResult) → s.errors ≡ []
    → (run_nodes body s nodes).errors ≡ []
unfolding run_nodes
run_nodes-quiet body h s [] e = e
run_nodes-quiet body h s (n ∷ ns) e =
    run_nodes-quiet body h (settle s n (body n s.world)) ns
      (settle-quiet s n (body n s.world) (h n s.world) e)

-- For each of the five actions other than `lvcreate`: if the nodes stay connected and every command
-- ends, with whatever exit code, then a run that is not refused reports success.
pub execute_ignores_exit_codes :
    {W : Type 0} (remote : Remote W) (sans : List SanRow) (plan : ClusterLvmExecutionPlan)
    (req : ClusterLvmExecutionRequest) (payload : LvmPayload)
    (disk_mappings : List ClusterLvmDiskMapping) (peer_paths : String → List String) (w w' : W)
    (r : ClusterLvmExecutionResult)
    → plan.action ≢ lvcreate
    → ((u : W) (id : String) → remote.connected u id ≡ true)
    → ((u : W) (id command : String) → (e : ExecResult) × ((remote.exec u id command).0 ≡ value e))
    → execute_cluster_lvm_plan remote sans plan req payload disk_mappings peer_paths w
      ≡ (passed r, w')
    → r.success ≡ true
unfolding run_plan
execute_ignores_exit_codes remote sans plan req payload disk_mappings peer_paths w w' r action up
      answers h =
    let (c, cleared, same) =
      execute-passed remote sans plan req payload disk_mappings peer_paths w r w' h in
    let quiet =
      run_nodes-quiet (run_node remote req payload disk_mappings peer_paths plan.action)
        (λ node u.
          run_node-IsQuiet remote answers req payload disk_mappings peer_paths up plan.action node u
            action)
        (begin w) (select (λ n. is_execute n.participation) plan.node_results) refl in
    rw same (rw quiet refl)
