-- ===== src/Lvm/Execute/Rounds.antt =====
-- One round of the loop of `executeClusterLvmPlan`, what the loop's variables satisfy after it, and
-- what stands behind a reply that is no refusal.
use mathlib.Core.List.{map-append, append-nil, append_assoc}
use text.Mathlib.TextEquality.{eq_iff}
use esos_webui.Common.{
  All, Bool, Bool-cases, Checked-cases, List, String, [], all, arith, false, inl, inr, is_empty,
  map, not, passed, refl, select, some, trim, true, ◌&&◌, ◌++◌, ◌==◌, ◌↔◌, ◌∷◌, ◌≡◌, ◌≢◌,
}
use esos_webui.Lvm.Types.{
  LvmAction, lvcreate, bind_scst, LogicalVolume, ClusterLvmDiskMapping, LvmPayload,
  ClusterLvmExecutionRequest, is_execute, ClusterLvmNodeResult, ClusterLvmExecutionPlan,
  ClusterLvmExecutionResult, execute,
}
use esos_webui.Shell.Defs.{command_line}
use esos_webui.Cluster.{SanRow, cluster_nodes_writable}
use esos_webui.Lvm.Commands.{overview_has_lv, lv_create_args}
use esos_webui.Lvm.Plan.{all_execute, assert_plan_executable}
use esos_webui.Lvm.Execute.{
  ExecResult, Attempt, value, thrown, Remote, NodeOutcome, after_command, after_scan,
  after_lv_create, run_command, verify_lv, run_lv_create, run_action, run_node, lv_create_outcome,
  absent_message, Progress, settle, run_nodes, begin, run_plan, check_execution,
  effective_cluster_id, execute_cluster_lvm_plan, report,
}

-- A round that did not throw pushed one result, of this node, and an error exactly when that
-- result is no success.
abbrev pub IsSound : ClusterLvmNodeResult → Attempt NodeOutcome → Type 0
IsSound node (thrown m) = Unit
IsSound node (value o) =
    (r : ClusterLvmNodeResult) × (o.result ≡ some r)
    × (r.san_id ≡ node.san_id)
    × (is_empty o.errors ≡ is_execute r.participation)

lv_create_outcome-IsSound :
    (node : ClusterLvmNodeResult) (r : ExecResult) (detail : String) (failed? : Bool)
    → IsSound node (value (lv_create_outcome node r detail failed?))
unfolding lv_create_outcome
lv_create_outcome-IsSound node r detail true = (_, refl, refl, refl)
lv_create_outcome-IsSound node r detail false = (_, refl, refl, refl)

module _ {W : Type 0} (node : ClusterLvmNodeResult) where
  after_command-IsSound : (a : Attempt ExecResult × W) → IsSound node (after_command node a).0
  after_command-IsSound (value r, w) = (_, refl, refl, refl)
  after_command-IsSound (thrown m, w) = tt

  after_scan-IsSound :
      (p : LvmPayload) (r : ExecResult) (a : Attempt (List LogicalVolume) × W)
      → IsSound node (after_scan node p r a).0
  unfolding after_scan
  after_scan-IsSound p r (thrown m, w) = tt
  after_scan-IsSound p r (value lvs, w) = elim (Bool-cases (overview_has_lv lvs p.vg_name p.name)) [
    | inl e ↦ rw e (lv_create_outcome-IsSound node r "" false)
    | inr e ↦ rw e (lv_create_outcome-IsSound node r (absent_message p) true)
  ]

module _ {W : Type 0} (remote : Remote W) (node : ClusterLvmNodeResult) where
  after_lv_create-IsSound :
      (p : LvmPayload) (a : Attempt ExecResult × W)
      → IsSound node (after_lv_create remote node p a).0
  unfolding after_lv_create verify_lv
  after_lv_create-IsSound p (thrown m, w) = tt
  after_lv_create-IsSound p (value r, w) = elim (Bool-cases (r.code == 0)) [
    | inl e ↦ rw e (after_scan-IsSound node p r _)
    | inr e ↦ rw e (lv_create_outcome-IsSound node r "" true)
  ]

  run_command-IsSound :
      (args : List String) (w : W) → IsSound node (run_command remote node args w).0
  unfolding run_command
  run_command-IsSound args w =
      after_command-IsSound node (remote.exec w node.san_id (command_line args))

  run_lv_create-IsSound : (p : LvmPayload) (w : W) → IsSound node (run_lv_create remote node p w).0
  unfolding run_lv_create
  run_lv_create-IsSound p w =
      after_lv_create-IsSound p
        (remote.exec w node.san_id (command_line (lv_create_args p.vg_name p.name p.size_bytes)))

  module _ (req : ClusterLvmExecutionRequest) (payload : LvmPayload)
      (disk_mappings : List ClusterLvmDiskMapping) (peer_paths : String → List String) where
    run_action-IsSound :
        (action : LvmAction) (w : W)
        → action ≢ bind_scst
        → IsSound node (run_action remote req payload disk_mappings peer_paths action node w).0
    unfolding run_action
    run_action-IsSound lvcreate w h = run_lv_create-IsSound payload w
    run_action-IsSound bind_scst w h = absurd (h refl)
    run_action-IsSound _ w h = run_command-IsSound _ w

    pub run_node-IsSound :
        (action : LvmAction) (w : W)
        → action ≢ bind_scst
        → IsSound node (run_node remote req payload disk_mappings peer_paths action node w).0
    unfolding run_node
    run_node-IsSound action w h = elim (Bool-cases (remote.connected w node.san_id)) [
      | inl e ↦ rw e (run_action-IsSound action w h)
      | inr e ↦ rw e tt
    ]

is_empty-append {ℓ} :
    {A : Type ℓ} (xs ys : List A) → is_empty (xs ++ ys) ≡ (is_empty xs && is_empty ys)
is_empty-append [] ys = refl
is_empty-append (x ∷ xs) ys = refl

all_execute-append :
    (xs ys : List ClusterLvmNodeResult)
    → all_execute (xs ++ ys) ≡ (all_execute xs && all_execute ys)
unfolding all_execute all
all_execute-append [] ys = refl
all_execute-append (x ∷ xs) ys = ground (arith, all_execute-append xs ys)

all_execute-nil : true ≡ all_execute []
unfolding all_execute all
all_execute-nil = refl

all_execute-one : (r : ClusterLvmNodeResult) → all_execute (r ∷ []) ≡ is_execute r.participation
unfolding all_execute all
all_execute-one r = ground arith

-- What holds of the loop's variables after the nodes `seen`.
pub record IsConsistent {W : Type 0} (seen : List String) (s : Progress W) : Type 0 where
  pub covers : map (λ r. r.san_id) s.node_results ≡ seen
  pub honest : is_empty s.errors ≡ all_execute s.node_results

settle-IsConsistent :
    {W : Type 0} (seen : List String) (s : Progress W) (node : ClusterLvmNodeResult)
    (a : Attempt NodeOutcome × W)
    → IsSound node a.0
    → IsConsistent seen s
    → IsConsistent (seen ++ node.san_id ∷ []) (settle s node a)
unfolding settle
settle-IsConsistent seen s node (value o, w) (r, e, id, same) c = record {
  covers = rw e (simp (map-append, c.covers, id));
  honest = rw e (simp (is_empty-append {0}, all_execute-append, all_execute-one, c.honest, same));
}
settle-IsConsistent seen s node (thrown m, w) _ c = record {
  covers = simp (map-append, c.covers);
  honest = simp (is_empty-append {0}, all_execute-append, all_execute-one, c.honest);
}

run_nodes-IsConsistent :
    {W : Type 0} (body : ClusterLvmNodeResult → W → Attempt NodeOutcome × W)
    → ((node : ClusterLvmNodeResult) (w : W) → IsSound node (body node w).0)
    → (seen : List String) (s : Progress W) (nodes : List ClusterLvmNodeResult)
    → IsConsistent seen s
    → IsConsistent (seen ++ map (λ n. n.san_id) nodes) (run_nodes body s nodes)
unfolding run_nodes
run_nodes-IsConsistent body sound seen s [] c = rw append-nil c
run_nodes-IsConsistent body sound seen s (n ∷ ns) c =
    rw (← append_assoc seen (n.san_id ∷ []) (map (λ m. m.san_id) ns)) (
      run_nodes-IsConsistent body sound (seen ++ n.san_id ∷ []) (settle s n (body n s.world)) ns
        (settle-IsConsistent seen s n (body n s.world) (sound n s.world) c))

select_everything :
    (xs : List ClusterLvmNodeResult)
    → is_empty (select (λ n. not (is_execute n.participation)) xs) ≡ true
    → select (λ n. is_execute n.participation) xs ≡ xs
unfolding select
select_everything [] h = refl
select_everything (x ∷ xs) h = ground (arith, select_everything xs)

-- A plan that passes the check has no node but those to execute.
pub assert_plan_executable-select :
    (plan : ClusterLvmExecutionPlan)
    → assert_plan_executable plan ≡ passed tt
    → select (λ n. is_execute n.participation) plan.node_results ≡ plan.node_results
unfolding assert_plan_executable
assert_plan_executable-select plan h = select_everything plan.node_results (ground arith)

pub all_execute-All :
    (xs : List ClusterLvmNodeResult)
    → (all_execute xs ≡ true) ↔ All (λ n. n.participation ≡ execute) xs
unfolding all_execute all
all_execute-All [] = ground arith
all_execute-All (x ∷ xs) = ground (arith, all_execute-All xs)

-- The checks that a passed execution went through.
pub record IsCleared (sans : List SanRow) (plan : ClusterLvmExecutionPlan)
    (req : ClusterLvmExecutionRequest) (payload : LvmPayload) (cluster_id : String) : Type 0 where
  pub ready : assert_plan_executable plan ≡ passed tt
  pub effective : effective_cluster_id plan.cluster_id req.cluster_id ≡ some cluster_id
  pub confirmed : trim payload.confirmation ≡ plan.confirmation_phrase
  pub writable : cluster_nodes_writable sans cluster_id ≡ true

pub check_execution-IsCleared :
    (sans : List SanRow) (plan : ClusterLvmExecutionPlan) (req : ClusterLvmExecutionRequest)
    (payload : LvmPayload) (c : String)
    → check_execution sans plan req payload ≡ passed c
    → IsCleared sans plan req payload c
unfolding check_execution
check_execution-IsCleared sans plan req payload c h = record {
  ready = ground arith;
  effective = ground arith;
  confirmed = ground (arith, eq_iff (trim payload.confirmation) plan.confirmation_phrase);
  writable = ground arith;
}

module _ {W : Type 0} (remote : Remote W) (sans : List SanRow) (plan : ClusterLvmExecutionPlan)
    (req : ClusterLvmExecutionRequest) (payload : LvmPayload)
    (disk_mappings : List ClusterLvmDiskMapping) (peer_paths : String → List String) (w : W) where
  pub run_plan-IsConsistent :
      plan.action ≢ bind_scst
      → assert_plan_executable plan ≡ passed tt
      → IsConsistent
          (map (λ n. n.san_id) plan.node_results)
          (run_plan remote plan req payload disk_mappings peer_paths w)
  unfolding run_plan
  run_plan-IsConsistent action ready = rw (assert_plan_executable-select plan ready) (
      run_nodes-IsConsistent _
        (λ node u.
          run_node-IsSound remote node req payload disk_mappings peer_paths plan.action u action)
        [] (begin w) plan.node_results (record { covers = refl; honest = all_execute-nil }))

  -- What is behind a reply that is no refusal.
  pub execute-passed :
      (r : ClusterLvmExecutionResult) (w' : W)
      → execute_cluster_lvm_plan remote sans plan req payload disk_mappings peer_paths w
        ≡ (passed r, w')
      → (c : String) × IsCleared sans plan req payload c
        × (r ≡ report plan req c (run_plan remote plan req payload disk_mappings peer_paths w))
  unfolding execute_cluster_lvm_plan
  execute-passed r w' h = elim (Checked-cases (check_execution sans plan req payload)) [
    | inl (c, e) ↦ (c, check_execution-IsCleared sans plan req payload c e, ground arith)
    | inr (code, m, e) ↦ ground arith
  ]
