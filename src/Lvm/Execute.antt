-- ===== src/Lvm/Execute.antt =====
-- server/utils/lvm-cluster-execution.ts: `executeClusterLvmPlan`, with the commands that
-- server/utils/lvm-actions.ts and server/utils/lvm-lv-device-path.ts send over SSH. The SSH pool,
-- the remote shells and the scan of the logical volumes are parameters over a world `W` that
-- every command may change; a rejected promise is `thrown`.
pub mod Rounds
pub mod Gates
pub mod Reports
pub mod Verified
pub mod ExitCodes
use esos_webui.Common.{
  Bool, Checked, List, Option, String, [], false, if◌then◌else◌, includes, is_blank, is_empty, join,
  none, not, passed, refused, select, show, some, str_eq, template, trim, true, ℕ, ◌++◌, ◌==◌, ◌∷◌,
}
use esos_webui.Cluster.{SanRow, cluster_nodes_writable}
use esos_webui.Shell.Defs.{command_line, escape_quotes}
use esos_webui.Lvm.Types.{
  LvmAction, pvcreate, vgcreate, lvcreate, pvremove, vgremove, lvremove, bind_scst, LogicalVolume,
  ClusterLvmDiskMapping, LvmPayload, ClusterLvmExecutionRequest, Participation, execute, failed,
  is_execute, ClusterLvmNodeResult, ClusterLvmExecutionPlan, ClusterLvmExecutionResult,
}
use esos_webui.Lvm.Commands.{
  overview_has_lv, pv_create_args, vg_create_args, lv_create_args, pv_remove_args, vg_remove_args,
  lv_remove_args,
}
use esos_webui.Lvm.Plan.{resolve_pv_path_on_node, assert_plan_executable}

pub record ExecResult : Type 0 where
  pub stdout : String
  pub stderr : String
  pub code : ℕ

pub data Attempt {ℓ} (A : Type ℓ) : Type ℓ where
  value : A → Attempt A
  thrown : String → Attempt A

-- What the execution uses of the SSH pool and of the remote node.
pub record Remote (W : Type 0) : Type 0 where
  -- `getSSHPool().get(id)` is there and its status is `connected`.
  pub connected : W → String → Bool
  pub exec : W → String → String → Attempt ExecResult × W
  -- `collectLvmOverviewLite(manager)`, of which the logical volumes are read.
  pub list_lvs : W → String → Attempt (List LogicalVolume) × W

-- The shell text of `activateLogicalVolume`, whose outcome is ignored.
unfoldable pub activation_command : String → String → String
unfolding template join escape_quotes
activation_command vg_name lv_name =
    let vg = escape_quotes vg_name "" in
    let lv = template (vg ∷ "/" ∷ escape_quotes lv_name "" ∷ []) in
    join " && " (
      template ("vgchange -ay '" ∷ vg ∷ "' 2>/dev/null || true" ∷ [])
      ∷ template ("lvchange -ay '" ∷ lv ∷ "' 2>/dev/null || true" ∷ [])
      ∷ "if command -v udevadm >/dev/null 2>&1; then udevadm settle -t 30 2>/dev/null || udevadm settle 2>/dev/null || true; fi"
      ∷ [])

-- `a || b || ...` on texts: the first that is not empty.
unfoldable pub first_text : List String → String
first_text [] = ""
first_text (t ∷ ts) = if is_blank t then first_text ts else t

abbrev pub done_result : ClusterLvmNodeResult → ExecResult → ClusterLvmNodeResult
done_result node r = record {
  san_id = node.san_id;
  label = node.label;
  participation = execute;
  command = node.command;
  exit_code = none;
  stdout = some r.stdout;
  stderr = some r.stderr;
  error = none;
}

abbrev pub failed_result : ClusterLvmNodeResult → String → ClusterLvmNodeResult
failed_result node message = record {
  san_id = node.san_id;
  label = node.label;
  participation = failed;
  command = node.command;
  exit_code = none;
  stdout = none;
  stderr = none;
  error = some message;
}

-- What one round of the loop adds: the node's result, if one was pushed, and the errors.
pub record NodeOutcome : Type 0 where
  pub result : Option ClusterLvmNodeResult
  pub errors : List String

-- `errors.push` and the result of an `lvcreate` that ran with the given verification failure.
unfoldable pub lv_create_outcome : ClusterLvmNodeResult → ExecResult → String → Bool → NodeOutcome
unfolding template first_text trim show
lv_create_outcome node r detail failed? =
    let texts = detail ∷ trim r.stderr ∷ trim r.stdout ∷ [] in
    record {
      result = some (record {
        san_id = node.san_id;
        label = node.label;
        participation = if failed? then failed else execute;
        command = node.command;
        exit_code = some r.code;
        stdout = some r.stdout;
        stderr = some r.stderr;
        error =
            if failed?
            then some (first_text (texts ++ template ("exit " ∷ show r.code ∷ []) ∷ []))
            else none;
      });
      errors =
          if failed?
          then template (
              node.label
              ∷ ": "
              ∷ first_text (texts ++ template ("lvcreate exit " ∷ show r.code ∷ []) ∷ [])
              ∷ [])
            ∷ []
          else [];
    }

-- The result of a command whose exit code is not looked at.
abbrev after_command :
    {W : Type 0} → ClusterLvmNodeResult → Attempt ExecResult × W → Attempt NodeOutcome × W
after_command node (value r, w) =
    (value (record { result = some (done_result node r); errors = [] }), w)
after_command node (thrown m, w) = (thrown m, w)

unfoldable pub absent_message : LvmPayload → String
unfolding template
absent_message p = template ("LV " ∷ p.vg_name ∷ "/" ∷ p.name ∷ " absent après lvcreate (lvs)" ∷ [])

-- After the scan that follows `lvcreate`: is the volume there?
unfoldable pub after_scan :
    {W : Type 0}
    → ClusterLvmNodeResult
    → LvmPayload
    → ExecResult
    → Attempt (List LogicalVolume) × W
    → Attempt NodeOutcome × W
unfolding lv_create_outcome overview_has_lv absent_message
after_scan node p r (thrown m, w) = (thrown m, w)
after_scan node p r (value lvs, w) =
    if overview_has_lv lvs p.vg_name p.name
    then (value (lv_create_outcome node r "" false), w)
    else (value (lv_create_outcome node r (absent_message p) true), w)

module _ {W : Type 0} (remote : Remote W) where
  unfoldable pub run_command : ClusterLvmNodeResult → List String → W → Attempt NodeOutcome × W
  run_command node args w = after_command node (remote.exec w node.san_id (command_line args))

  -- After `lvcreate` returned 0: activate the volume, then look for it among the volumes.
  unfoldable pub verify_lv :
      ClusterLvmNodeResult → LvmPayload → ExecResult → W → Attempt NodeOutcome × W
  unfolding after_scan activation_command
  verify_lv node p r w = after_scan node p r (
      remote.list_lvs (remote.exec w node.san_id (activation_command p.vg_name p.name)).1
        node.san_id)

  unfoldable pub after_lv_create :
      ClusterLvmNodeResult → LvmPayload → Attempt ExecResult × W → Attempt NodeOutcome × W
  unfolding verify_lv lv_create_outcome
  after_lv_create node p (thrown m, w) = (thrown m, w)
  after_lv_create node p (value r, w) =
      if r.code == 0 then verify_lv node p r w else (value (lv_create_outcome node r "" true), w)

  unfoldable pub run_lv_create : ClusterLvmNodeResult → LvmPayload → W → Attempt NodeOutcome × W
  unfolding after_lv_create
  run_lv_create node p w =
      after_lv_create node p
        (remote.exec w node.san_id (command_line (lv_create_args p.vg_name p.name p.size_bytes)))

  -- The body of the `try` block for one node.
  module _ (req : ClusterLvmExecutionRequest) (payload : LvmPayload)
      (disk_mappings : List ClusterLvmDiskMapping) (peer_paths : String → List String) where
    unfoldable pub run_action : LvmAction → ClusterLvmNodeResult → W → Attempt NodeOutcome × W
    unfolding run_command run_lv_create resolve_pv_path_on_node
    run_action pvremove node w =
        run_command node
          (pv_remove_args
            (resolve_pv_path_on_node node.san_id req.primary_san_id payload.path disk_mappings))
          w
    run_action pvcreate node w =
        run_command node
          (pv_create_args
            (resolve_pv_path_on_node node.san_id req.primary_san_id payload.path disk_mappings)
            payload.force)
          w
    run_action vgcreate node w =
        run_command node
          (vg_create_args payload.name (
            if str_eq node.san_id req.primary_san_id
            then payload.pv_paths
            else peer_paths node.san_id))
          w
    run_action vgremove node w = run_command node (vg_remove_args payload.name) w
    run_action lvcreate node w = run_lv_create node payload w
    run_action lvremove node w = run_command node (lv_remove_args payload.vg_name payload.name) w
    run_action bind_scst node w = (value (record { result = none; errors = [] }), w)

    unfoldable pub run_node : LvmAction → ClusterLvmNodeResult → W → Attempt NodeOutcome × W
    unfolding run_action
    run_node action node w =
        if remote.connected w node.san_id
        then run_action action node w
        else (thrown "SSH non connecté", w)

-- `set.add(id)`
unfoldable pub set_add : String → List String → List String
unfolding includes
set_add id ids = if includes id ids then ids else ids ++ id ∷ []

abbrev pub pushed : Option ClusterLvmNodeResult → List ClusterLvmNodeResult
pushed none = []
pushed (some r) = r ∷ []

-- The variables of the loop, the remote world and the cache keys that were invalidated.
pub record Progress (W : Type 0) : Type 0 where
  pub world : W
  pub node_results : List ClusterLvmNodeResult
  pub errors : List String
  pub refreshed : List String
  pub invalidated : List String

abbrev storage_cache_keys : String → List String
storage_cache_keys id =
    template ("lvm-overview-" ∷ id ∷ []) ∷ template ("raid-overview-" ∷ id ∷ []) ∷ []

-- The end of one round: after the body, or in the `catch` block.
unfoldable pub settle :
    {W : Type 0} → Progress W → ClusterLvmNodeResult → Attempt NodeOutcome × W → Progress W
unfolding set_add template
settle s node (value o, w) = record {
  world = w;
  node_results = s.node_results ++ pushed o.result;
  errors = s.errors ++ o.errors;
  refreshed = set_add node.san_id s.refreshed;
  invalidated = s.invalidated ++ storage_cache_keys node.san_id;
}
settle s node (thrown m, w) = record s {
  world = w;
  node_results = s.node_results ++ failed_result node m ∷ [];
  errors = s.errors ++ template (node.label ∷ ": " ∷ m ∷ []) ∷ [];
}

unfoldable pub run_nodes :
    {W : Type 0}
    → (ClusterLvmNodeResult → W → Attempt NodeOutcome × W)
    → Progress W
    → List ClusterLvmNodeResult
    → Progress W
unfolding settle
run_nodes body s [] = s
run_nodes body s (node ∷ nodes) = run_nodes body (settle s node (body node s.world)) nodes

abbrev pub begin : {W : Type 0} → W → Progress W
begin w = record { world = w; node_results = []; errors = []; refreshed = []; invalidated = [] }

-- `plan.clusterId ?? clusterExecution.clusterId`, when not empty.
unfoldable pub effective_cluster_id : Option String → Option String → Option String
effective_cluster_id (some c) _ = if is_blank c then none else some c
effective_cluster_id none none = none
effective_cluster_id none (some c) = if is_blank c then none else some c

-- The checks that stand before the first command.
unfoldable pub check_execution :
    List SanRow → ClusterLvmExecutionPlan → ClusterLvmExecutionRequest → LvmPayload → Checked String
unfolding assert_plan_executable effective_cluster_id cluster_nodes_writable trim template
check_execution sans plan req payload = elim (assert_plan_executable plan) [
  | refused code m ↦ refused code m
  | passed _ ↦
      if not (str_eq (trim payload.confirmation) plan.confirmation_phrase)
      then refused 400 (template ("Confirmation requise : " ∷ plan.confirmation_phrase ∷ []))
      else elim (effective_cluster_id plan.cluster_id req.cluster_id) [
        | none ↦ refused 400 "clusterId requis"
        | some c ↦
            if cluster_nodes_writable sans c then passed c else refused 403 "SAN is read-only"
      ]
]

abbrev pub report :
    {W : Type 0}
    → ClusterLvmExecutionPlan
    → ClusterLvmExecutionRequest
    → String
    → Progress W
    → ClusterLvmExecutionResult
report plan req cluster_id s = record {
  success = is_empty s.errors;
  action = plan.action;
  cluster_id = cluster_id;
  primary_san_id = req.primary_san_id;
  node_results = s.node_results;
  refreshed_san_ids = s.refreshed;
  errors = s.errors;
}

module _ {W : Type 0} (remote : Remote W) where
  -- The loop runs over the results of the plan that are marked `execute`.
  unfoldable pub run_plan :
      ClusterLvmExecutionPlan
      → ClusterLvmExecutionRequest
      → LvmPayload
      → List ClusterLvmDiskMapping
      → (String → List String)
      → W
      → Progress W
  unfolding run_nodes run_node select
  run_plan plan req payload disk_mappings peer_paths w =
      run_nodes (run_node remote req payload disk_mappings peer_paths plan.action) (begin w)
        (select (λ n. is_execute n.participation) plan.node_results)

  unfoldable pub execute_cluster_lvm_plan :
      List SanRow
      → ClusterLvmExecutionPlan
      → ClusterLvmExecutionRequest
      → LvmPayload
      → List ClusterLvmDiskMapping
      → (String → List String)
      → W
      → Checked ClusterLvmExecutionResult × W
  unfolding check_execution run_plan
  execute_cluster_lvm_plan sans plan req payload disk_mappings peer_paths w =
      elim (check_execution sans plan req payload) [
        | refused code m ↦ (refused code m, w)
        | passed c ↦
            let s = run_plan plan req payload disk_mappings peer_paths w in
            (passed (report plan req c s), s.world)
      ]
