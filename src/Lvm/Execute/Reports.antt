-- ===== src/Lvm/Execute/Reports.antt =====
-- What `executeClusterLvmPlan` reports of a run.
use esos_webui.Common.{All, List, String, map, passed, true, ◌↔◌, ◌≡◌, ◌≢◌}
use esos_webui.Cluster.{SanRow}
use esos_webui.Lvm.Types.{
  bind_scst, execute, ClusterLvmDiskMapping, LvmPayload, ClusterLvmExecutionRequest,
  ClusterLvmExecutionPlan, ClusterLvmExecutionResult,
}
use esos_webui.Lvm.Execute.{Remote, execute_cluster_lvm_plan}
use esos_webui.Lvm.Execute.Rounds.{run_plan-IsConsistent, execute-passed, all_execute-All}

module _ {W : Type 0} (remote : Remote W) (sans : List SanRow) (plan : ClusterLvmExecutionPlan)
    (req : ClusterLvmExecutionRequest) (payload : LvmPayload)
    (disk_mappings : List ClusterLvmDiskMapping) (peer_paths : String → List String) (w w' : W)
    (r : ClusterLvmExecutionResult) where
  -- For every action but bind_scst: a run that is not refused reports one result for each node of
  -- the plan, in the plan's order, and reports success exactly when every one of these results is
  -- marked as executed.
  pub execute-reports :
      plan.action ≢ bind_scst
      → execute_cluster_lvm_plan remote sans plan req payload disk_mappings peer_paths w
        ≡ (passed r, w')
      → (map (λ n. n.san_id) r.node_results ≡ map (λ n. n.san_id) plan.node_results)
        × ((r.success ≡ true) ↔ All (λ n. n.participation ≡ execute) r.node_results)
  execute-reports action h =
      let (c, cleared, same) =
        execute-passed remote sans plan req payload disk_mappings peer_paths w r w' h in
      let k =
        run_plan-IsConsistent remote sans plan req payload disk_mappings peer_paths w action
          cleared.ready in
      rw same (k.covers, rw k.honest (all_execute-All _))
