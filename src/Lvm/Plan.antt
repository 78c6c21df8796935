-- ===== src/Lvm/Plan.antt =====
-- server/utils/lvm-cluster-execution.ts: the six plan builders, and the check that a plan may be
-- executed. A builder takes what `runClusterLvmPreflight` returned and the rows of the cluster's
-- nodes as arguments; its loop pushes one result for each node, so it is a `map`.
pub mod Symmetry
use mathlib.Core.Option
use esos_webui.Common.{
  Bool, Checked, List, Option, String, [], all, false, find, if◌then◌else◌, is_blank, is_empty,
  join, leb, length, map, none, not, or_else, passed, refused, select, some, str_eq, template, ◌&&◌,
  ◌++◌, ◌==◌, ◌∷◌,
}
use esos_webui.Cluster.{SanRow}
use esos_webui.Lvm.Types.{
  LvmAction, pvcreate, vgcreate, lvcreate, pvremove, vgremove, lvremove, LvmOverview, VolumeGroup,
  ClusterLvmNodeInventory, ClusterLvmDiskMapping, ClusterLvmPreflightResult, LvmPayload,
  Participation, execute, skip, is_execute, ClusterLvmNodeResult, ClusterLvmExecutionPlan,
}
use esos_webui.Lvm.Commands.{
  pv_create_preview, vg_create_preview, lv_create_preview, pv_remove_preview, vg_remove_preview,
  lv_remove_preview,
}

abbrev ssh_missing : String
ssh_missing = "SSH non connecté"

unfoldable pub find_inventory :
    List ClusterLvmNodeInventory → String → Option ClusterLvmNodeInventory
unfolding find
find_inventory nodes id = find (λ n. str_eq n.san_id id) nodes

-- `!inv?.sshReady` negated.
abbrev pub is_ready : Option ClusterLvmNodeInventory → Bool
is_ready none = false
is_ready (some inv) = inv.ssh_ready

abbrev inventory_error : Option ClusterLvmNodeInventory → String
inventory_error none = ssh_missing
inventory_error (some inv) = or_else inv.error ssh_missing

-- `mappings.find(m => m.sourcePath === path && m.peerSanId === id)?.peerPath`
unfoldable pub mapped_path : List ClusterLvmDiskMapping → String → String → Option String
unfolding find
mapped_path mappings path peer_san_id =
    Option.map (λ m. m.peer_path)
      (find (λ m. str_eq m.source_path path && str_eq m.peer_san_id peer_san_id) mappings)

unfoldable pub resolve_pv_path_on_node :
    String → String → String → List ClusterLvmDiskMapping → String
unfolding mapped_path
resolve_pv_path_on_node node_san_id primary_san_id source_path mappings =
    if str_eq node_san_id primary_san_id
    then source_path
    else or_else (mapped_path mappings source_path node_san_id) source_path

-- The results that the builders push: a node left out, and a node with its command.
abbrev pub left_out : SanRow → String → ClusterLvmNodeResult
left_out node message = record {
  san_id = node.id;
  label = node.label;
  participation = skip;
  command = none;
  exit_code = none;
  stdout = none;
  stderr = none;
  error = some message;
}

abbrev pub planned : SanRow → Bool → String → Option String → ClusterLvmNodeResult
planned node go command error = record {
  san_id = node.id;
  label = node.label;
  participation = if go then execute else skip;
  command = some command;
  exit_code = none;
  stdout = none;
  stderr = none;
  error = error;
}

-- `pre.ok && nodeResults.every(n => n.participation === 'execute')`
unfoldable pub all_execute : List ClusterLvmNodeResult → Bool
unfolding all
all_execute results = all (λ n. is_execute n.participation) results

module _ (pre : ClusterLvmPreflightResult) (primary_san_id : String) (payload : LvmPayload) where
  -- `pre.mappings.length ? pre.mappings : mappings`
  abbrev pub plan_mappings : List ClusterLvmDiskMapping → List ClusterLvmDiskMapping
  plan_mappings mappings = if is_empty pre.mappings then mappings else pre.mappings

  pv_create_with : SanRow → Option String → ClusterLvmNodeResult
  pv_create_with node none = left_out node "Mapping manquant"
  pv_create_with node (some path) =
      if is_blank path
      then left_out node "Mapping manquant"
      else planned node pre.ok (pv_create_preview path payload.force) none

  unfoldable pub pv_create_node : List ClusterLvmDiskMapping → SanRow → ClusterLvmNodeResult
  unfolding find_inventory pv_create_with mapped_path
  pv_create_node mappings node =
      let inv = find_inventory pre.nodes node.id in
      if not (is_ready inv)
      then left_out node (inventory_error inv)
      else pv_create_with node (
          if str_eq node.id primary_san_id
          then some payload.path
          else mapped_path (plan_mappings mappings) payload.path node.id)

  -- `peer_paths` is `resolvePeerPvPaths` of server/utils/lvm-cluster-preflight.ts.
  unfoldable pub vg_create_node : (String → List String) → SanRow → ClusterLvmNodeResult
  unfolding find_inventory
  vg_create_node peer_paths node =
      let inv = find_inventory pre.nodes node.id in
      let pv_paths =
        if str_eq node.id primary_san_id then payload.pv_paths else peer_paths node.id in
      if not (is_ready inv)
      then left_out node ssh_missing
      else planned node (pre.ok && length pv_paths == length payload.pv_paths)
          (vg_create_preview payload.name pv_paths)
          (if is_empty pv_paths then some "PV non mappés" else none)

  lv_create_with : SanRow → Option VolumeGroup → ClusterLvmNodeResult
  unfolding template
  lv_create_with node none =
      planned node false (lv_create_preview payload.vg_name payload.name payload.size_bytes)
        (some (template ("VG " ∷ payload.vg_name ∷ " absent" ∷ [])))
  lv_create_with node (some vg) =
      planned node (pre.ok && leb payload.size_bytes vg.free_bytes)
        (lv_create_preview payload.vg_name payload.name payload.size_bytes)
        (if leb payload.size_bytes vg.free_bytes then none else some "Espace insuffisant")

  lv_create_on : SanRow → Option ClusterLvmNodeInventory → ClusterLvmNodeResult
  unfolding lv_create_with find
  lv_create_on node none = left_out node ssh_missing
  lv_create_on node (some inv) =
      if inv.ssh_ready
      then lv_create_with node (find (λ v. str_eq v.name payload.vg_name) inv.overview.vgs)
      else left_out node ssh_missing

  unfoldable pub lv_create_node : SanRow → ClusterLvmNodeResult
  unfolding find_inventory lv_create_on
  lv_create_node node = lv_create_on node (find_inventory pre.nodes node.id)

  unfoldable pub pv_remove_node : List ClusterLvmDiskMapping → SanRow → ClusterLvmNodeResult
  unfolding find_inventory resolve_pv_path_on_node
  pv_remove_node mappings node =
      let inv = find_inventory pre.nodes node.id in
      if not (is_ready inv)
      then left_out node (inventory_error inv)
      else planned node pre.ok
          (pv_remove_preview
            (resolve_pv_path_on_node node.id primary_san_id payload.path (plan_mappings mappings)))
          none

  unfoldable pub vg_remove_node : SanRow → ClusterLvmNodeResult
  unfolding find_inventory
  vg_remove_node node =
      if not (is_ready (find_inventory pre.nodes node.id))
      then left_out node ssh_missing
      else planned node pre.ok (vg_remove_preview payload.name) none

  unfoldable pub lv_remove_node : SanRow → ClusterLvmNodeResult
  unfolding find_inventory
  lv_remove_node node =
      if not (is_ready (find_inventory pre.nodes node.id))
      then left_out node ssh_missing
      else planned node pre.ok (lv_remove_preview payload.vg_name payload.name) none

  -- The plan that a builder returns around its node results.
  unfoldable pub plan_of :
      LvmAction → String → String → List ClusterLvmNodeResult → ClusterLvmExecutionPlan
  unfolding all_execute
  plan_of action cluster_id phrase results = record {
    action = action;
    cluster_id = some cluster_id;
    primary_san_id = primary_san_id;
    confirmation_phrase = phrase;
    node_results = results;
    ok_symmetric = pre.ok && all_execute results;
    warnings = pre.warnings;
    blockers = pre.blockers;
  }

  unfoldable pub build_cluster_pv_create_plan :
      String → List SanRow → List ClusterLvmDiskMapping → ClusterLvmExecutionPlan
  unfolding plan_of pv_create_node template
  build_cluster_pv_create_plan cluster_id nodes mappings =
      plan_of pvcreate cluster_id (template ("PVCREATE CLUSTER " ∷ payload.path ∷ []))
        (map (pv_create_node mappings) nodes)

  unfoldable pub build_cluster_vg_create_plan :
      String → List SanRow → (String → List String) → ClusterLvmExecutionPlan
  unfolding plan_of vg_create_node template
  build_cluster_vg_create_plan cluster_id nodes peer_paths =
      let plan =
        plan_of vgcreate cluster_id (template ("VGCREATE CLUSTER " ∷ payload.name ∷ []))
          (map (vg_create_node peer_paths) nodes) in
      record plan {
        warnings =
            pre.warnings
            ++ "Chaque nœud reçoit un VG local du même nom (symétrie locale, pas clvmd)." ∷ [];
      }

  unfoldable pub build_cluster_lv_create_plan : String → List SanRow → ClusterLvmExecutionPlan
  unfolding plan_of lv_create_node template
  build_cluster_lv_create_plan cluster_id nodes =
      plan_of lvcreate cluster_id
        (template ("LVCREATE CLUSTER " ∷ payload.vg_name ∷ "/" ∷ payload.name ∷ []))
        (map lv_create_node nodes)

  unfoldable pub build_cluster_pv_remove_plan :
      String → List SanRow → List ClusterLvmDiskMapping → ClusterLvmExecutionPlan
  unfolding plan_of pv_remove_node template
  build_cluster_pv_remove_plan cluster_id nodes mappings =
      plan_of pvremove cluster_id (template ("PVREMOVE CLUSTER " ∷ payload.path ∷ []))
        (map (pv_remove_node mappings) nodes)

  unfoldable pub build_cluster_vg_remove_plan : String → List SanRow → ClusterLvmExecutionPlan
  unfolding plan_of vg_remove_node template
  build_cluster_vg_remove_plan cluster_id nodes =
      plan_of vgremove cluster_id (template ("VGREMOVE CLUSTER " ∷ payload.name ∷ []))
        (map vg_remove_node nodes)

  unfoldable pub build_cluster_lv_remove_plan : String → List SanRow → ClusterLvmExecutionPlan
  unfolding plan_of lv_remove_node template
  build_cluster_lv_remove_plan cluster_id nodes =
      plan_of lvremove cluster_id
        (template ("LVREMOVE CLUSTER " ∷ payload.vg_name ∷ "/" ∷ payload.name ∷ []))
        (map lv_remove_node nodes)

unfoldable pub assert_plan_executable : ClusterLvmExecutionPlan → Checked (Unit {0})
unfolding select join template
assert_plan_executable plan =
    let missing = select (λ n. not (is_execute n.participation)) plan.node_results in
    let reason = join " · " plan.blockers in
    if not plan.ok_symmetric
    then refused 422 (if is_blank reason then "Plan cluster non symétrique" else reason)
    else if is_empty missing
    then passed tt
    else refused 422
        (template ("Nœuds non exécutables : " ∷ join ", " (map (λ n. n.label) missing) ∷ []))

-- `assertClusteredSanAllowsLvmMutation`: `none` for a SAN outside every cluster.
unfoldable pub assert_clustered_san_allows_lvm_mutation :
    Option SanRow → String → Option String → Checked (Option String)
assert_clustered_san_allows_lvm_mutation none san_id primary = passed none
assert_clustered_san_allows_lvm_mutation (some san) san_id primary = elim san.cluster_id [
  | none ↦ passed none
  | some c ↦ if is_blank c then passed none else elim primary [
    | none ↦
        refused 409
          "Ce SAN est en cluster : les opérations LVM destructives requièrent un plan cluster validé (clusterExecution)."
    | some p ↦
        if is_blank p
        then refused 409
            "Ce SAN est en cluster : les opérations LVM destructives requièrent un plan cluster validé (clusterExecution)."
        else if str_eq p san_id
        then passed (some c)
        else refused 400 "primarySanId doit être le SAN courant"
  ]
]
