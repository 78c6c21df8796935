-- ===== src/Lvm/Execute/Verified.antt =====
-- When an `lvcreate` on a cluster counts as done: exit code 0, and the volume seen by the scan that
-- follows on the same node.
use mathlib.Core.Path.{subst}
use mathlib.Core.List.{append_assoc, append-nil}
use esos_webui.Common.{
  ==_iff, All, All-append, Bool-cases, List, String, [], ap, inl, inr, passed, refl, some, sym,
  true, ◌++◌, ◌==◌, ◌∙◌, ◌∷◌, ◌≡◌, ◌⊎◌,
}
use esos_webui.Cluster.{SanRow}
use esos_webui.Lvm.Types.{
  lvcreate, LogicalVolume, ClusterLvmDiskMapping, LvmPayload, failed, ClusterLvmExecutionRequest,
  ClusterLvmNodeResult, ClusterLvmExecutionPlan, ClusterLvmExecutionResult,
}
use esos_webui.Shell.Defs.{command_line}
use esos_webui.Lvm.Commands.{overview_has_lv, lv_create_args}
use esos_webui.Lvm.Execute.{
  ExecResult, Attempt, value, thrown, Remote, NodeOutcome, run_action, run_node, run_lv_create,
  after_lv_create, verify_lv, after_scan, run_nodes, run_plan, settle, Progress, activation_command,
  begin, execute_cluster_lvm_plan, pushed,
}
use esos_webui.Lvm.Execute.Rounds.{execute-passed, assert_plan_executable-select}

run_nodes-last :
    {W : Type 0} (body : ClusterLvmNodeResult → W → Attempt NodeOutcome × W)
    (before : List ClusterLvmNodeResult) (node : ClusterLvmNodeResult) (s : Progress W)
    → run_nodes body s (before ++ (node ∷ []))
      ≡ settle (run_nodes body s before) node (body node (run_nodes body s before).world)
unfolding run_nodes
run_nodes-last body [] node s = refl
run_nodes-last body (n ∷ before) node s =
    run_nodes-last body before node (settle s n (body n s.world))

module _ {W : Type 0} (remote : Remote W) (p : LvmPayload) where
  -- The world that `lvcreate` finds on a node, with what the node answers from there on: `lvcreate`
  -- ends with exit code 0, and the scan after the activation lists the volume that was asked for.
  abbrev pub IsCreatedAt : W → String → Type 0
  IsCreatedAt u id =
      let created =
        remote.exec u id (command_line (lv_create_args p.vg_name p.name p.size_bytes)) in
      let active = remote.exec created.1 id (activation_command p.vg_name p.name) in
      ((e : ExecResult) × (created.0 ≡ value e) × (e.code ≡ 0))
      × ((lvs : List LogicalVolume) × ((remote.list_lvs active.1 id).0 ≡ value lvs)
          × (overview_has_lv lvs p.vg_name p.name ≡ true))

  -- A result that one round pushes in a world.
  abbrev IsVerifiedAt : W → ClusterLvmNodeResult → ClusterLvmNodeResult → Type 0
  IsVerifiedAt u node r =
      (r.participation ≡ failed)
      ⊎ ((r.exit_code ≡ some 0) × (r.san_id ≡ node.san_id) × IsCreatedAt u node.san_id)

  abbrev IsVerifiedRound : W → ClusterLvmNodeResult → Attempt NodeOutcome → Type 0
  IsVerifiedRound u node (thrown m) = Unit
  IsVerifiedRound u node (value o) = All (IsVerifiedAt u node) (pushed o.result)

  module _ (node : ClusterLvmNodeResult) where
    after_scan-IsVerified :
        (u : W) (r : ExecResult) (a : Attempt (List LogicalVolume) × W)
        → r.code ≡ 0
        → ((lvs : List LogicalVolume)
            → a.0 ≡ value lvs
            → overview_has_lv lvs p.vg_name p.name ≡ true
            → IsCreatedAt u node.san_id)
        → IsVerifiedRound u node (after_scan node p r a).0
    unfolding after_scan
    after_scan-IsVerified u r (thrown m, w) zero_code created = tt
    after_scan-IsVerified u r (value lvs, w) zero_code created =
        elim (Bool-cases (overview_has_lv lvs p.vg_name p.name)) [
          | inl seen ↦ rw seen (inr (ap some zero_code, refl, created lvs refl seen), tt)
          | inr unseen ↦ rw unseen (inl refl, tt)
        ]

    after_lv_create-IsVerified :
        (u : W) (a : Attempt ExecResult × W)
        → remote.exec u node.san_id (command_line (lv_create_args p.vg_name p.name p.size_bytes))
          ≡ a
        → IsVerifiedRound u node (after_lv_create remote node p a).0
    unfolding after_lv_create verify_lv
    after_lv_create-IsVerified u (thrown m, w) same = tt
    after_lv_create-IsVerified u (value r, w) same = elim (Bool-cases (r.code == 0)) [
      | inr e ↦ rw e (inl refl, tt)
      | inl e ↦
          let zero_code = (==_iff r.code 0).0 e in
          rw e (
            after_scan-IsVerified u r _ zero_code
              (λ lvs listed seen. rw same ((r, refl, zero_code), (lvs, listed, seen))))
    ]

    run_node-IsVerified :
        (req : ClusterLvmExecutionRequest) (disk_mappings : List ClusterLvmDiskMapping)
        (peer_paths : String → List String) (u : W)
        → IsVerifiedRound u node (run_node remote req p disk_mappings peer_paths lvcreate node u).0
    unfolding run_node run_action run_lv_create
    run_node-IsVerified req disk_mappings peer_paths u =
        elim (Bool-cases (remote.connected u node.san_id)) [
          | inl e ↦ rw e (after_lv_create-IsVerified u _ refl)
          | inr e ↦ rw e tt
        ]

  -- One result of a run of `body` over the nodes from a world: a failure, or exit code 0 and the
  -- volume created on that node, in the world that the rounds of the nodes before it leave.
  abbrev pub IsVerified :
      (ClusterLvmNodeResult → W → Attempt NodeOutcome × W)
      → W
      → List ClusterLvmNodeResult
      → ClusterLvmNodeResult
      → Type 0
  IsVerified body w nodes r =
      (r.participation ≡ failed)
      ⊎ ((r.exit_code ≡ some 0)
          × ((before : List ClusterLvmNodeResult) × (node : ClusterLvmNodeResult) × (later : List
                ClusterLvmNodeResult)
              × (nodes ≡ before ++ (node ∷ later))
              × (r.san_id ≡ node.san_id)
              × IsCreatedAt (run_nodes body (begin w) before).world node.san_id))

  module _ (body : ClusterLvmNodeResult → W → Attempt NodeOutcome × W)
      (verified : (node : ClusterLvmNodeResult) (u : W) → IsVerifiedRound u node (body node u).0)
      (w : W) (nodes : List ClusterLvmNodeResult) where
    placed :
        (before later : List ClusterLvmNodeResult) (node : ClusterLvmNodeResult)
        → nodes ≡ before ++ (node ∷ later)
        → (rs : List ClusterLvmNodeResult)
        → All (IsVerifiedAt (run_nodes body (begin w) before).world node) rs
        → All (IsVerified body w nodes) rs
    placed before later node e [] h = tt
    placed before later node e (r ∷ rs) (inl bad, h) = (inl bad, placed before later node e rs h)
    placed before later node e (r ∷ rs) (inr (code, id, created), h) =
        (inr (code, (before, node, later, e, id, created)), placed before later node e rs h)

    settle-IsVerified :
        (before later : List ClusterLvmNodeResult) (node : ClusterLvmNodeResult)
        → nodes ≡ before ++ (node ∷ later)
        → (s : Progress W) (a : Attempt NodeOutcome × W)
        → IsVerifiedRound (run_nodes body (begin w) before).world node a.0
        → All (IsVerified body w nodes) s.node_results
        → All (IsVerified body w nodes) (settle s node a).node_results
    unfolding settle
    settle-IsVerified before later node e s (value o, u) h k =
        All-append (IsVerified body w nodes) _ _ k (placed before later node e _ h)
    settle-IsVerified before later node e s (thrown m, u) h k =
        All-append (IsVerified body w nodes) _ _ k (inl refl, tt)

    run_nodes-IsVerified :
        (before later : List ClusterLvmNodeResult)
        → nodes ≡ before ++ later
        → All (IsVerified body w nodes) (run_nodes body (begin w) before).node_results
        → All (IsVerified body w nodes) (run_nodes body (begin w) nodes).node_results
    run_nodes-IsVerified before [] e k =
        subst (λ ns. All (IsVerified body w nodes) (run_nodes body (begin w) ns).node_results)
          (sym (e ∙ append-nil before)) k
    run_nodes-IsVerified before (node ∷ later) e k =
        run_nodes-IsVerified (before ++ (node ∷ [])) later
          (e ∙ sym (append_assoc before (node ∷ []) later))
          (rw (run_nodes-last body before node (begin w))
            (settle-IsVerified before later node e _ _ (verified node _) k))

-- For an `lvcreate` run that is not refused: every reported result is a failure, or it has exit code
-- 0 and belongs to a node of the plan on which, in the world that the rounds of the nodes before it
-- leave, `lvcreate` ended with exit code 0 and the scan after the activation listed the volume.
pub lvcreate-IsVerified :
    {W : Type 0} (remote : Remote W) (sans : List SanRow) (plan : ClusterLvmExecutionPlan)
    (req : ClusterLvmExecutionRequest) (payload : LvmPayload)
    (disk_mappings : List ClusterLvmDiskMapping) (peer_paths : String → List String) (w w' : W)
    (r : ClusterLvmExecutionResult)
    → plan.action ≡ lvcreate
    → execute_cluster_lvm_plan remote sans plan req payload disk_mappings peer_paths w
      ≡ (passed r, w')
    → All
        (IsVerified remote payload
          (run_node remote req payload disk_mappings peer_paths lvcreate)
          w
          plan.node_results)
        r.node_results
unfolding run_plan
lvcreate-IsVerified remote sans plan req payload disk_mappings peer_paths w w' r action h =
    let (c, cleared, same) =
      execute-passed remote sans plan req payload disk_mappings peer_paths w r w' h in
    rw (same, action, assert_plan_executable-select plan cleared.ready)
      (run_nodes-IsVerified remote payload
        (run_node remote req payload disk_mappings peer_paths lvcreate)
        (λ node u. run_node-IsVerified remote payload node req disk_mappings peer_paths u) w
        plan.node_results [] plan.node_results refl tt)
