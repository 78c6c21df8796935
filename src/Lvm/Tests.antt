-- ===== src/Lvm/Tests.antt =====
-- A cluster of two nodes on which a logical volume is created and a volume group removed.
use esos_webui.Common.{
  All, List, String, [], false, map, none, passed, refl, refused, some, suc, true, ℕ, ◌↔◌, ◌∷◌, ◌≡◌,
  ◌⊎◌,
}
use esos_webui.Cluster.{SanRow}
use esos_webui.Lvm.Types.{
  lvcreate, vgremove, VolumeGroup, LvmPayload, LvmOverview, execute, ClusterLvmNodeInventory,
  ClusterLvmPreflightResult, ClusterLvmExecutionRequest, ClusterLvmNodeResult,
  ClusterLvmExecutionPlan, ClusterLvmExecutionResult,
}
use esos_webui.Lvm.Commands.{lv_create_preview, vg_remove_preview}
use esos_webui.Lvm.Plan.{
  build_cluster_lv_create_plan, build_cluster_vg_remove_plan, assert_plan_executable,
  build_cluster_pv_create_plan,
}
use esos_webui.Lvm.Plan.Symmetry.{
  build_cluster_lv_create_plan-executable, build_cluster_pv_create_plan-executable, IsLvTarget,
  IsPvTarget,
}
use esos_webui.Lvm.Execute.{value, Remote, run_node, execute_cluster_lvm_plan}
use esos_webui.Lvm.Execute.Gates.{MayRun, execute-gates}
use esos_webui.Lvm.Execute.Reports.{execute-reports}
use esos_webui.Lvm.Execute.Verified.{lvcreate-IsVerified, IsVerified}
use esos_webui.Lvm.Execute.ExitCodes.{execute_ignores_exit_codes}

abbrev node_a : SanRow
node_a = record {
  id = "a";
  label = "A";
  read_only = false;
  cluster_id = some "c1";
  cluster_enabled = true;
}

abbrev node_b : SanRow
node_b = record {
  id = "b";
  label = "B";
  read_only = false;
  cluster_id = some "c1";
  cluster_enabled = true;
}

abbrev sans : List SanRow
sans = node_a ∷ node_b ∷ []

abbrev vg0 : VolumeGroup
vg0 = record { name = "vg0"; size_bytes = 4096; free_bytes = 2048; clustered = false }

abbrev overview : LvmOverview
overview = record {
  tools = record { pvcreate = true; clvmd = false };
  pvs = [];
  vgs = vg0 ∷ [];
  lvs = [];
  candidates = [];
}

abbrev inventory : String → ClusterLvmNodeInventory
inventory id = record {
  san_id = id;
  label = id;
  read_only = false;
  ssh_ready = true;
  error = none;
  overview = overview;
  md_arrays = [];
  block_devices = [];
}

abbrev pre : ClusterLvmPreflightResult
pre = record {
  ok = true;
  blockers = [];
  warnings = [];
  mappings =
      record {
        source_san_id = "a";
        peer_san_id = "b";
        source_path = "/dev/sdb";
        peer_path = "/dev/sdc";
      }
      ∷ [];
  nodes = inventory "a" ∷ inventory "b" ∷ [];
}

abbrev payload : LvmPayload
payload = record {
  path = "/dev/sdb";
  force = false;
  name = "data";
  vg_name = "vg0";
  pv_paths = [];
  size_bytes = 1024;
  confirmation = " LVCREATE CLUSTER vg0/data ";
}

abbrev request : ClusterLvmExecutionRequest
request = record { primary_san_id = "a"; cluster_id = none }

-- Every command ends with the given exit code; the world counts the commands.
abbrev remote : ℕ → Remote ℕ
remote code = record {
  connected = λ w id. true;
  exec = λ w id command. (value (record { stdout = ""; stderr = "no"; code = code }), suc w);
  list_lvs = λ w id. (
    value (
        record {
          name = "data";
          path = "/dev/vg0/data";
          vg_name = "vg0";
          size_bytes = 1024;
          used_by = [];
        }
        ∷ []),
    w,
  );
}

abbrev plan : ClusterLvmExecutionPlan
unfolding build_cluster_lv_create_plan
plan = build_cluster_lv_create_plan pre "a" payload "c1" sans

abbrev no_paths : String → List String
no_paths id = []

abbrev created : String → String → ClusterLvmNodeResult
created id label = record {
  san_id = id;
  label = label;
  participation = execute;
  command = some "lvcreate -y -v -L 1K -n data vg0";
  exit_code = some 0;
  stdout = some "";
  stderr = some "no";
  error = none;
}

abbrev done : ClusterLvmExecutionResult
done = record {
  success = true;
  action = lvcreate;
  cluster_id = "c1";
  primary_san_id = "a";
  node_results = created "a" "A" ∷ created "b" "B" ∷ [];
  refreshed_san_ids = "a" ∷ "b" ∷ [];
  errors = [];
}

-- Two commands for each node: the creation and the activation.
run_done :
    execute_cluster_lvm_plan (remote 0) sans plan request payload [] no_paths 0 ≡ (passed done, 4)
unfolding execute_cluster_lvm_plan plan lv_create_preview
run_done = refl

lv_plan_example :
    (assert_plan_executable (build_cluster_lv_create_plan pre "a" payload "c1" sans) ≡ passed tt)
    ↔ ((pre.ok ≡ true) × All (IsLvTarget pre "a" payload) sans)
lv_plan_example = build_cluster_lv_create_plan-executable pre "a" payload "c1" sans

pv_plan_example :
    (assert_plan_executable (build_cluster_pv_create_plan pre "a" payload "c1" sans []) ≡ passed tt)
    ↔ ((pre.ok ≡ true) × All (IsPvTarget pre "a" payload []) sans)
pv_plan_example = build_cluster_pv_create_plan-executable pre "a" payload "c1" sans []

execute-gates_example :
    (MayRun sans plan request payload ↔ (
      (r : ClusterLvmExecutionResult) × (w : ℕ) × (execute_cluster_lvm_plan
          (remote 0)
          sans
          plan
          request
          payload
          []
          no_paths
          0
        ≡ (passed r, w))))
    × (MayRun sans plan request payload
        ⊎ ((code : ℕ) × (message : String) × (execute_cluster_lvm_plan
                (remote 0)
                sans
                plan
                request
                payload
                []
                no_paths
                0
              ≡ (refused code message, 0))))
execute-gates_example = execute-gates (remote 0) sans plan request payload [] no_paths 0

execute-reports_example :
    (map (λ n. n.san_id) done.node_results ≡ map (λ n. n.san_id) plan.node_results)
    × ((done.success ≡ true) ↔ All (λ n. n.participation ≡ execute) done.node_results)
unfolding plan
execute-reports_example =
    execute-reports (remote 0) sans plan request payload [] no_paths 0 4 done (λ e. cc) run_done

lvcreate-IsVerified_example :
    All
      (IsVerified
        (remote 0)
        payload
        (run_node (remote 0) request payload [] no_paths lvcreate)
        0
        plan.node_results)
      done.node_results
unfolding plan
lvcreate-IsVerified_example =
    lvcreate-IsVerified (remote 0) sans plan request payload [] no_paths 0 4 done refl run_done

abbrev removal : LvmPayload
removal = record payload { name = "vg0"; confirmation = "VGREMOVE CLUSTER vg0" }

abbrev removal_plan : ClusterLvmExecutionPlan
unfolding build_cluster_vg_remove_plan
removal_plan = build_cluster_vg_remove_plan pre "a" removal "c1" sans

abbrev removed : String → String → ClusterLvmNodeResult
removed id label = record {
  san_id = id;
  label = label;
  participation = execute;
  command = some "vgremove -y -f vg0";
  exit_code = none;
  stdout = some "";
  stderr = some "no";
  error = none;
}

abbrev removal_done : ClusterLvmExecutionResult
removal_done = record {
  success = true;
  action = vgremove;
  cluster_id = "c1";
  primary_san_id = "a";
  node_results = removed "a" "A" ∷ removed "b" "B" ∷ [];
  refreshed_san_ids = "a" ∷ "b" ∷ [];
  errors = [];
}

-- Both `vgremove` commands exit with code 5.
removal_run :
    execute_cluster_lvm_plan (remote 5) sans removal_plan request removal [] no_paths 0
    ≡ (passed removal_done, 2)
unfolding execute_cluster_lvm_plan removal_plan vg_remove_preview
removal_run = refl

execute_ignores_exit_codes_example : removal_done.success ≡ true
unfolding removal_plan
execute_ignores_exit_codes_example =
    execute_ignores_exit_codes (remote 5) sans removal_plan request removal [] no_paths 0 2
      removal_done (λ e. cc) (λ u id. refl) (λ u id command. (_, refl)) removal_run
