-- ===== src/Scst/Tests.antt =====
-- A target with one group and one LUN, and the theorems at operations on it.
use mathlib.Core.List.{Mem}
use esos_webui.Common.{
  List, String, [], all, any, dedupe, false, is_empty, map, not, passed, refl, refused, some,
  str_eq, true, ℕ, ◌&&◌, ◌∷◌, ◌≡◌,
}
use esos_webui.Cluster.{SanRow, resolve_cluster_nodes}
use esos_webui.Lvm.Execute.{value}
use esos_webui.Lvm.Types.{ClusterLvmNodeResult}
use esos_webui.Scst.Types.{Lun, Device, ScstConfig}
use esos_webui.Scst.Luns.{has_id, suggest_next_lun_id}
use esos_webui.Scst.Suggestion.{suggest_next_lun_id_free}
use esos_webui.Scst.Mutators.{written, threw, add_lun_to_group, remove_lun_from_group}
use esos_webui.Scst.Sound.{sound}
use esos_webui.Scst.Sound.Mutate.{Mutation, adds_lun, mutate, mutate-sound}
use esos_webui.Scst.Sound.Undo.{remove_lun-add_lun}
use esos_webui.Scst.Cluster.{
  action_label, error_of, ScstSite, run_on_node, run_on_cluster_nodes, executed,
  assert_scst_cluster_success,
}
use esos_webui.Scst.Cluster.Outcome.{
  run_on_node-executed, run_on_cluster_nodes-success, assert_scst_cluster_success-passed,
  assert_scst_cluster_success-conflict, WrittenOnOne,
}

abbrev disk : String → Device
disk n = record { name = n; handler = "vdisk_blockio"; filename = "/dev/x"; attrs = [] }

abbrev lun : ℕ → String → Lun
lun n d = record { id = n; device = d; read_only = false; attrs = [] }

abbrev config : List Lun → ScstConfig
config luns = record {
  handlers = record { name = "vdisk_blockio"; devices = disk "d0" ∷ disk "d1" ∷ [] } ∷ [];
  drivers =
      record {
        name = "iscsi";
        enabled = true;
        targets =
            record {
              name = "t1";
              driver = "iscsi";
              enabled = true;
              hw_target = false;
              attrs = [];
              groups = record { name = "hosts"; initiators = []; luns = luns } ∷ [];
              luns = [];
              sessions = [];
            }
            ∷ [];
      }
      ∷ [];
  device_groups = [];
}

abbrev before_add : ScstConfig
before_add = config (lun 0 "d0" ∷ [])

abbrev after_add : ScstConfig
after_add = config (lun 0 "d0" ∷ lun 1 "d1" ∷ [])

scst_tests :
    (sound before_add ≡ true)
    × (add_lun_to_group "t1" "hosts" 1 " d1 " false before_add ≡ written after_add)
    × (add_lun_to_group "t1" "hosts" 0 "d1" false before_add ≡ threw "Mappage LUN invalide")
    × (suggest_next_lun_id (lun 3 "d0" ∷ lun 1 "d1" ∷ []) ≡ 4)
unfolding sound add_lun_to_group suggest_next_lun_id
scst_tests = (refl, refl, refl, refl)

mutate-sound_example : sound after_add ≡ true
unfolding mutate
mutate-sound_example =
    mutate-sound (adds_lun "t1" "hosts" 1 "d1" false) before_add after_add scst_tests.0 refl

remove_lun-add_lun_example : remove_lun_from_group "t1" "hosts" 1 after_add ≡ written before_add
remove_lun-add_lun_example =
    remove_lun-add_lun "t1" "hosts" 1 " d1 " false before_add after_add scst_tests.0 scst_tests.1

-- Every node holds the same configuration and is connected; writing it succeeds.
abbrev site : ScstSite ScstConfig
site = record {
  connected = λ w id. true;
  read_scst_config = λ w id. (value w, w);
  write_and_reload_scst = λ w id c. (value tt, c);
}

-- Only the first node is connected.
abbrev half_site : ScstSite ScstConfig
half_site = record {
  connected = λ w id. str_eq id "s1";
  read_scst_config = λ w id. (value w, w);
  write_and_reload_scst = λ w id c. (value tt, c);
}

abbrev node : SanRow
node = record {
  id = "s1";
  label = "san 1";
  read_only = false;
  cluster_id = some "c1";
  cluster_enabled = true;
}

abbrev mapping : Mutation
mapping = adds_lun "t1" "hosts" 1 "d1" false

ran : executed (run_on_node site "addLun hosts/1" mapping node before_add).0 ≡ true
unfolding run_on_node
ran = refl

run_on_node-executed_example :
    (node.read_only ≡ false)
    × (site.connected before_add "s1" ≡ true)
    × ((c : ScstConfig) × (c' : ScstConfig) × (value before_add ≡ value c)
        × (mutate mapping c ≡ written c')
        × ((site.write_and_reload_scst before_add "s1" c').0 ≡ value tt))
run_on_node-executed_example =
    run_on_node-executed site "addLun hosts/1" mapping node before_add ran

run_on_cluster_nodes-success_example :
    let r = (run_on_cluster_nodes site (node ∷ []) "c1" mapping before_add).0 in
    (map (λ n. n.san_id) r.node_results ≡ map (λ n. n.id) (resolve_cluster_nodes (node ∷ []) "c1"))
    × (r.success ≡ (not (is_empty r.node_results) && all executed r.node_results))
    × (is_empty r.errors ≡ all executed r.node_results)
run_on_cluster_nodes-success_example =
    run_on_cluster_nodes-success site (node ∷ []) "c1" mapping before_add

check_passes :
    assert_scst_cluster_success (run_on_cluster_nodes site (node ∷ []) "c1" mapping before_add).0
    ≡ passed tt
unfolding assert_scst_cluster_success run_on_cluster_nodes
check_passes = refl

assert_scst_cluster_success-passed_example :
    (is_empty (run_on_cluster_nodes site (node ∷ []) "c1" mapping before_add).0.node_results
      ≡ false)
    × ((run_on_cluster_nodes site (node ∷ []) "c1" mapping before_add).0.refreshed_san_ids
        ≡ dedupe (map (λ n. n.id) (resolve_cluster_nodes (node ∷ []) "c1")))
assert_scst_cluster_success-passed_example =
    assert_scst_cluster_success-passed site (node ∷ []) "c1" mapping before_add check_passes

abbrev peer : SanRow
peer = record node { id = "s2"; label = "san 2" }

check_refuses :
    assert_scst_cluster_success
      (run_on_cluster_nodes half_site (node ∷ peer ∷ []) "c1" mapping before_add).0
    ≡ refused 409 "san 2: connexion SSH indisponible"
unfolding assert_scst_cluster_success run_on_cluster_nodes
check_refuses = refl

assert_scst_cluster_success-conflict_example :
    WrittenOnOne half_site
      (action_label mapping)
      mapping
      (resolve_cluster_nodes (node ∷ peer ∷ []) "c1")
      before_add
    × ((n : SanRow) × Mem n (resolve_cluster_nodes (node ∷ peer ∷ []) "c1")
        × ((r : ClusterLvmNodeResult) × Mem r
              (run_on_cluster_nodes half_site
                (node ∷ peer ∷ [])
                "c1"
                mapping
                before_add).0.node_results
            × (r.san_id ≡ n.id)
            × (executed r ≡ false)
            × (is_empty (error_of r) ≡ false)))
assert_scst_cluster_success-conflict_example =
    assert_scst_cluster_success-conflict half_site (node ∷ peer ∷ []) "c1" mapping before_add _
      check_refuses

suggest_next_lun_id_free_example : any (has_id 4) (lun 3 "d0" ∷ lun 1 "d1" ∷ []) ≡ false
unfolding suggest_next_lun_id
suggest_next_lun_id_free_example = suggest_next_lun_id_free (lun 3 "d0" ∷ lun 1 "d1" ∷ [])
