-- ===== src/Lvm/Execute/Gates.antt =====
-- Which runs of `executeClusterLvmPlan` pass its checks.
use text.Mathlib.TextEquality.{eq_iff}
use esos_webui.Common.{
  All, Bool-cases, Checked-cases, List, Option, Option-cases, String, [], and_split, ap, arith,
  false, inl, inr, is_blank, is_empty, none, not, passed, refl, refused, select, some, trim, true,
  ℕ, ◌&&◌, ◌↔◌, ◌∙◌, ◌∷◌, ◌≡◌, ◌≢◌, ◌⊎◌,
}
use esos_webui.Cluster.{SanRow, is_cluster, cluster_nodes_writable}
use esos_webui.Lvm.Types.{
  execute, ClusterLvmDiskMapping, LvmPayload, ClusterLvmExecutionRequest, ClusterLvmNodeResult,
  ClusterLvmExecutionPlan, is_execute, ClusterLvmExecutionResult,
}
use esos_webui.Lvm.Plan.{assert_plan_executable}
use esos_webui.Lvm.Execute.{
  Remote, run_plan, report, execute_cluster_lvm_plan, effective_cluster_id, check_execution,
}
use esos_webui.Lvm.Execute.Rounds.{IsCleared, check_execution-IsCleared, execute-passed}

executable-parts :
    (plan : ClusterLvmExecutionPlan)
    → assert_plan_executable plan ≡ passed tt
    → (plan.ok_symmetric ≡ true)
      × (is_empty (select (λ n. not (is_execute n.participation)) plan.node_results) ≡ true)
unfolding assert_plan_executable
executable-parts plan h = ground arith

none_missing-All :
    (ns : List ClusterLvmNodeResult)
    → is_empty (select (λ n. not (is_execute n.participation)) ns) ≡ true
    → All (λ n. n.participation ≡ execute) ns
unfolding select
none_missing-All [] h = tt
none_missing-All (n ∷ ns) h = ground (arith, none_missing-All ns)

-- A cluster id makes a SAN one of the nodes that may not be touched, unless the SAN is outside the
-- cluster, disabled in it, or writable.
abbrev pub IsWritableIn : String → SanRow → Type 0
IsWritableIn c s = (s.cluster_id ≢ some c) ⊎ ((s.cluster_enabled ≡ false) ⊎ (s.read_only ≡ false))

-- What a run needs: the plan's phrase as confirmation, a symmetric plan with every node marked to
-- execute, and a cluster id, the plan's before the request's, of which every enabled node is writable.
abbrev pub MayRun :
    List SanRow → ClusterLvmExecutionPlan → ClusterLvmExecutionRequest → LvmPayload → Type 0
MayRun sans plan req payload =
    (trim payload.confirmation ≡ plan.confirmation_phrase)
    × (plan.ok_symmetric ≡ true)
    × All (λ n. n.participation ≡ execute) plan.node_results
    × ((c : String) × ((plan.cluster_id ≡ some c)
          ⊎ ((plan.cluster_id ≡ none) × (req.cluster_id ≡ some c)))
        × (is_blank c ≡ false)
        × All (IsWritableIn c) sans)

node-IsWritableIn :
    (c : String) (s : SanRow)
    → (s.read_only ≡ true)
    → (is_cluster c s.cluster_id && s.cluster_enabled) ≡ true
    → IsWritableIn c s
    → ⊥
node-IsWritableIn c s locked here (inl other) = elim (Option-cases s.cluster_id) [
  | inl e ↦ ground (arith, e)
  | inr (d, e) ↦ other (e ∙ ap some ((eq_iff d c).0 (and_split _ _ (rw e at here)).0))
]
node-IsWritableIn c s locked here (inr (inl off)) =
    cc ((and_split (is_cluster c s.cluster_id) s.cluster_enabled here).1)
node-IsWritableIn c s locked here (inr (inr free)) = cc

node-outside :
    (c : String) (s : SanRow)
    → (is_cluster c s.cluster_id && s.cluster_enabled) ≡ false
    → IsWritableIn c s
node-outside c s h = elim (Bool-cases s.cluster_enabled) [
  | inr off ↦ inr (inl off)
  | inl on ↦ inl (λ e. ground (arith, e, (eq_iff c c).1 refl))
]

writable→All :
    (sans : List SanRow) (c : String)
    → cluster_nodes_writable sans c ≡ true
    → All (IsWritableIn c) sans
unfolding cluster_nodes_writable select
writable→All [] c h = tt
writable→All (s ∷ ss) c h = elim (Bool-cases (is_cluster c s.cluster_id && s.cluster_enabled)) [
  | inr out ↦ (node-outside c s out, writable→All ss c (rw out at h))
  | inl here ↦ elim (Bool-cases s.read_only) [
    | inr free ↦ (inr (inr free), writable→All ss c (rw (here, free) at h))
    | inl locked ↦ absurd (ground arith)
  ]
]

All→writable :
    (sans : List SanRow) (c : String)
    → All (IsWritableIn c) sans
    → cluster_nodes_writable sans c ≡ true
unfolding cluster_nodes_writable select
All→writable [] c h = refl
All→writable (s ∷ ss) c (h, k) =
    elim (Bool-cases (is_cluster c s.cluster_id && s.cluster_enabled)) [
      | inr out ↦ rw out (All→writable ss c k)
      | inl here ↦ elim (Bool-cases s.read_only) [
        | inr free ↦ rw (here, free) (All→writable ss c k)
        | inl locked ↦ absurd (node-IsWritableIn c s locked here h)
      ]
    ]

All→none_missing :
    (ns : List ClusterLvmNodeResult)
    → All (λ n. n.participation ≡ execute) ns
    → is_empty (select (λ n. not (is_execute n.participation)) ns) ≡ true
unfolding select
All→none_missing [] h = refl
All→none_missing (n ∷ ns) (h, k) = rw h (All→none_missing ns k)

parts-executable :
    (plan : ClusterLvmExecutionPlan)
    → plan.ok_symmetric ≡ true
    → All (λ n. n.participation ≡ execute) plan.node_results
    → assert_plan_executable plan ≡ passed tt
unfolding assert_plan_executable
parts-executable plan symmetric complete = rw (symmetric, All→none_missing _ complete) refl

effective-cases :
    (p q : Option String) (c : String)
    → effective_cluster_id p q ≡ some c
    → ((p ≡ some c) ⊎ ((p ≡ none) × (q ≡ some c))) × (is_blank c ≡ false)
unfolding effective_cluster_id
effective-cases none none c h = absurd (cc h)
effective-cases none (some d) c h = (inr (refl, ground arith), ground arith)
effective-cases (some d) q c h = (inl (ground arith), ground arith)

effective-some :
    (p q : Option String) (c : String)
    → (p ≡ some c) ⊎ ((p ≡ none) × (q ≡ some c))
    → is_blank c ≡ false
    → effective_cluster_id p q ≡ some c
unfolding effective_cluster_id
effective-some p q c (inl e) full = rw (e, effective_cluster_id, full) refl
effective-some p q c (inr (e, k)) full = rw (e, k, effective_cluster_id, full) refl

cleared-MayRun :
    (sans : List SanRow) (plan : ClusterLvmExecutionPlan) (req : ClusterLvmExecutionRequest)
    (payload : LvmPayload) (c : String)
    → IsCleared sans plan req payload c
    → MayRun sans plan req payload
cleared-MayRun sans plan req payload c cleared =
    let (symmetric, complete) = executable-parts plan cleared.ready in
    let (id, full) = effective-cases plan.cluster_id req.cluster_id c cleared.effective in
    (
      cleared.confirmed,
      symmetric,
      none_missing-All plan.node_results complete,
      (c, id, full, writable→All sans c cleared.writable),
    )

check_execution-MayRun :
    (sans : List SanRow) (plan : ClusterLvmExecutionPlan) (req : ClusterLvmExecutionRequest)
    (payload : LvmPayload)
    → MayRun sans plan req payload
    → (c : String) × (check_execution sans plan req payload ≡ passed c)
unfolding check_execution
check_execution-MayRun sans plan req payload (phrase, symmetric, complete, (c, id, full, free)) = (
  c,
  rw
      (
        check_execution,
        parts-executable plan symmetric complete,
        (eq_iff (trim payload.confirmation) plan.confirmation_phrase).1 phrase,
        effective-some plan.cluster_id req.cluster_id c id full,
        All→writable sans c free,
      )
      refl,
)

module _ {W : Type 0} (remote : Remote W) (sans : List SanRow) (plan : ClusterLvmExecutionPlan)
    (req : ClusterLvmExecutionRequest) (payload : LvmPayload)
    (disk_mappings : List ClusterLvmDiskMapping) (peer_paths : String → List String) (w : W) where
  -- A run passes the checks exactly when the trimmed confirmation is the plan's phrase, the plan is
  -- symmetric with every node marked to execute, and there is a cluster id (the plan's, or else the
  -- request's) that is not empty and of which no enabled node is read-only. In every other case it is refused, and no
  -- command has been sent to any node.
  pub execute-gates :
      (MayRun sans plan req payload ↔ (
        (r : ClusterLvmExecutionResult) × (w' : W) × (execute_cluster_lvm_plan remote sans plan req
            payload disk_mappings peer_paths w
          ≡ (passed r, w'))))
      × (MayRun sans plan req payload
          ⊎ ((code : ℕ) × (message : String) × (execute_cluster_lvm_plan remote sans plan req
                  payload disk_mappings peer_paths w
                ≡ (refused code message, w))))
  unfolding execute_cluster_lvm_plan
  execute-gates = (
    (
      λ may.
          let (c, e) = check_execution-MayRun sans plan req payload may in
          let s = run_plan remote plan req payload disk_mappings peer_paths w in
          (report plan req c s, s.world, rw (execute_cluster_lvm_plan, e) refl),
      λ (r, w', h).
          let (c, cleared, same) =
            execute-passed remote sans plan req payload disk_mappings peer_paths w r w' h in
          cleared-MayRun sans plan req payload c cleared,
    ),
    elim (Checked-cases (check_execution sans plan req payload)) [
      | inr (code, m, e) ↦ inr (code, m, rw (execute_cluster_lvm_plan, e) refl)
      | inl (c, e) ↦ inl (
          cleared-MayRun sans plan req payload c
            (check_execution-IsCleared sans plan req payload c e))
    ],
  )
