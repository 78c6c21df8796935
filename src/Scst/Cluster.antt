-- ===== src/Scst/Cluster.antt =====
-- server/utils/scst-cluster-mutation.ts: one operation on the configuration of every node of a
-- cluster, in turn. The SSH pool and the remote file are parameters over a world `W`, as in
-- Lvm/Execute; `withSanContext` makes the operation run on the node, which is an argument here. The
-- cache of the overview and the log are left out.
pub mod Outcome
use esos_webui.Common.{
  Bool, Checked, List, Option, String, [], all, any, dedupe, if◌then◌else◌, is_blank, is_empty,
  join, map, none, not, passed, refused, select, show, some, template, ◌&&◌, ◌++◌, ◌∷◌,
}
use esos_webui.Cluster.{SanRow, resolve_cluster_nodes}
use esos_webui.Lvm.Types.{ClusterLvmNodeResult, execute, failed, is_execute}
use esos_webui.Lvm.Execute.{Attempt, value, thrown}
use esos_webui.Scst.Types.{ScstConfig}
use esos_webui.Scst.Mutators.{Update, written, threw}
use esos_webui.Scst.Sound.Mutate.{
  Mutation, creates_group, deletes_group, adds_lun, removes_lun, mutate,
}

pub record ScstSite (W : Type 0) : Type 0 where
  -- `getSSHPool().get(id)` is there and its status is `connected`.
  pub connected : W → String → Bool
  pub read_scst_config : W → String → Attempt ScstConfig × W
  pub write_and_reload_scst : W → String → ScstConfig → Attempt {0} Unit × W

pub record ScstClusterMutationResult : Type 0 where
  pub success : Bool
  pub node_results : List ClusterLvmNodeResult
  pub errors : List String
  pub refreshed_san_ids : List String

module _ {W : Type 0} (site : ScstSite W) where
  -- The operation on one node: read, change, write.
  unfoldable pub run : Mutation → String → W → Attempt {0} Unit × W
  unfolding mutate
  run m id w =
      let (read, w') = site.read_scst_config w id in
      elim read [
        | thrown message ↦ (thrown message, w')
        | value c ↦ elim (mutate m c) [
          | threw message ↦ (thrown message, w')
          | written c' ↦ site.write_and_reload_scst w' id c'
        ]
      ]

abbrev pub failure : SanRow → Option String → String → Option String → ClusterLvmNodeResult
failure node command message stderr = record {
  san_id = node.id;
  label = node.label;
  participation = failed;
  command = command;
  exit_code = none;
  stdout = none;
  stderr = stderr;
  error = some message;
}

abbrev pub success_of : SanRow → String → ClusterLvmNodeResult
success_of node action = record {
  san_id = node.id;
  label = node.label;
  participation = execute;
  command = some action;
  exit_code = some 0;
  stdout = none;
  stderr = none;
  error = none;
}

module _ {W : Type 0} (site : ScstSite W) where
  -- The body of the loop.
  unfoldable pub run_on_node : String → Mutation → SanRow → W → ClusterLvmNodeResult × W
  unfolding run
  run_on_node action m node w =
      if node.read_only
      then (failure node none "lecture seule" none, w)
      else if not (site.connected w node.id)
      then (failure node none "connexion SSH indisponible" none, w)
      else (let (end, w') = run site m node.id w in
          elim end [
            | value u ↦ (success_of node action, w')
            | thrown message ↦ (failure node (some action) message (some message), w')
          ])

  unfoldable pub run_on_nodes : String → Mutation → List SanRow → W → List ClusterLvmNodeResult × W
  unfolding run_on_node
  run_on_nodes action m [] w = ([], w)
  run_on_nodes action m (node ∷ nodes) w =
      let (result, w') = run_on_node action m node w in
      let (results, w'') = run_on_nodes action m nodes w' in (result ∷ results, w'')

-- The entry of `errors` for a node, which is pushed with the result of a node that fails.
unfoldable pub error_of : ClusterLvmNodeResult → List String
unfolding template
error_of r = elim r.error [
  | none ↦ []
  | some message ↦ template (r.label ∷ ": " ∷ message ∷ []) ∷ []
]

unfoldable pub errors_of : List ClusterLvmNodeResult → List String
unfolding error_of
errors_of [] = []
errors_of (r ∷ rs) = error_of r ++ errors_of rs

abbrev pub executed : ClusterLvmNodeResult → Bool
executed r = is_execute r.participation

-- What `runOnClusterNodes` returns for the results of the nodes.
unfoldable pub summary : List ClusterLvmNodeResult → ScstClusterMutationResult
unfolding errors_of any all select dedupe
summary results = record {
  success = any executed results && is_empty (errors_of results) && all executed results;
  node_results = results;
  errors = errors_of results;
  refreshed_san_ids = dedupe (map (λ r. r.san_id) (select executed results));
}

-- The label of the operation in each `cluster…` function.
unfoldable pub action_label : Mutation → String
unfolding template show
action_label (creates_group target group) = template ("createGroup " ∷ group ∷ [])
action_label (deletes_group target group force) = template ("deleteGroup " ∷ group ∷ [])
action_label (adds_lun target group n device read_only) =
    template ("addLun " ∷ group ∷ "/" ∷ show n ∷ [])
action_label (removes_lun target group n) = template ("removeLun " ∷ group ∷ "/" ∷ show n ∷ [])
action_label m = ""

unfoldable pub run_on_cluster_nodes :
    {W : Type 0} → ScstSite W → List SanRow → String → Mutation → W → ScstClusterMutationResult × W
unfolding resolve_cluster_nodes run_on_nodes summary action_label
run_on_cluster_nodes site sans cluster_id m w =
    let (results, w') =
      run_on_nodes site (action_label m) m (resolve_cluster_nodes sans cluster_id) w in
    (summary results, w')

unfoldable pub assert_scst_cluster_success : ScstClusterMutationResult → Checked {0} Unit
unfolding any join
assert_scst_cluster_success result =
    if result.success
    then passed tt
    else (let message = join " · " result.errors in
        refused (if any executed result.node_results then 409 else 422)
          (if is_blank message then "Mutation SCST cluster échouée" else message))
