-- ===== src/Lvm/Plan/Symmetry.antt =====
-- When a plan may be executed, by the inventory that the preflight collected.
use esos_webui.Common.{
  All, Bool-cases, List, Option, Option-cases, String, [], all, and_split, arith, false, find,
  if◌then◌else◌, inl, inr, is_blank, is_empty, map, none, not, passed, refl, select, some, str_eq,
  true, ◌&&◌, ◌↔◌, ◌∷◌, ◌≡◌, ◌≤◌,
}
use esos_webui.Cluster.{SanRow}
use esos_webui.Lvm.Types.{
  LvmAction, ClusterLvmNodeInventory, ClusterLvmDiskMapping, ClusterLvmPreflightResult, LvmPayload,
  VolumeGroup, is_execute, ClusterLvmNodeResult,
}
use esos_webui.Lvm.Plan.{
  find_inventory, mapped_path, plan_mappings, all_execute, plan_of, pv_create_node, pv_create_with,
  lv_create_node, lv_create_on, lv_create_with, build_cluster_pv_create_plan,
  build_cluster_lv_create_plan, assert_plan_executable,
}

none_missing :
    (ns : List ClusterLvmNodeResult)
    → all_execute ns ≡ true
    → is_empty (select (λ n. not (is_execute n.participation)) ns) ≡ true
unfolding all_execute all select
none_missing [] h = refl
none_missing (n ∷ ns) h = ground (arith, none_missing ns)

module _ (pre : ClusterLvmPreflightResult) (primary_san_id : String) (payload : LvmPayload) where
  -- A plan around these results may be executed exactly when the preflight found nothing and every
  -- result is marked to execute.
  plan_of-executable :
      (action : LvmAction) (cluster_id phrase : String) (results : List ClusterLvmNodeResult)
      → (assert_plan_executable
            (plan_of pre primary_san_id payload action cluster_id phrase results)
          ≡ passed tt)
        ↔ ((pre.ok && all_execute results) ≡ true)
  unfolding plan_of assert_plan_executable
  plan_of-executable action cluster_id phrase results = ground (arith, none_missing results)

  -- A plan's nodes are executable one by one.
  all_execute-map :
      (f : SanRow → ClusterLvmNodeResult) (P : SanRow → Type 0)
      → ((node : SanRow) → (is_execute (f node).participation ≡ true) ↔ P node)
      → (nodes : List SanRow) → (all_execute (map f nodes) ≡ true) ↔ All P nodes
  unfolding all_execute all
  all_execute-map f P h [] = (λ _. tt, λ _. refl)
  all_execute-map f P h (n ∷ ns) =
      let (to, from) = all_execute-map f P h ns in
      (
        λ e. let (here, later) = and_split _ _ e in ((h n).0 here, to later),
        λ (here, later). rw ((h n).1 here) (from later),
      )

  -- A node on which the volume group exists with room for the new volume.
  abbrev pub IsLvTarget : SanRow → Type 0
  IsLvTarget node =
      (inv : ClusterLvmNodeInventory) × (find_inventory pre.nodes node.id ≡ some inv)
      × (inv.ssh_ready ≡ true)
      × ((vg : VolumeGroup) × (find (λ v. str_eq v.name payload.vg_name) inv.overview.vgs ≡ some vg)
          × (payload.size_bytes ≤ vg.free_bytes))

  lv_create_on-IsLvTarget :
      (node : SanRow)
      → pre.ok ≡ true
      → (is_execute (lv_create_node pre primary_san_id payload node).participation ≡ true)
        ↔ IsLvTarget node
  unfolding lv_create_node lv_create_on lv_create_with
  lv_create_on-IsLvTarget node ok = elim (Option-cases (find_inventory pre.nodes node.id)) [
    | inl e ↦ (λ h. absurd (ground arith), λ h. ground arith)
    | inr (inv, e) ↦
        elim (Option-cases (find (λ v. str_eq v.name payload.vg_name) inv.overview.vgs)) [
          | inl f ↦ (λ h. absurd (ground arith), λ h. ground arith)
          | inr (vg, f) ↦ (λ h. (inv, e, ground arith, (vg, f, ground arith)), λ h. ground arith)
        ]
  ]

  -- A node that answers and on which the path of the new physical volume is known: the path asked
  -- for on the primary node, and its mapping on every other one.
  abbrev pub IsPvTarget : List ClusterLvmDiskMapping → SanRow → Type 0
  IsPvTarget mappings node =
      (inv : ClusterLvmNodeInventory) × (find_inventory pre.nodes node.id ≡ some inv)
      × (inv.ssh_ready ≡ true)
      × ((path : String) × (is_blank path ≡ false)
          × ((if str_eq node.id primary_san_id
                then some payload.path
                else mapped_path (plan_mappings pre primary_san_id payload mappings) payload.path
                    node.id)
              ≡ some path))

  pv_create_with-execute :
      (node : SanRow) (target : Option String)
      → pre.ok ≡ true
      → (is_execute (pv_create_with pre primary_san_id payload node target).participation ≡ true)
        ↔ ((path : String) × (is_blank path ≡ false) × (target ≡ some path))
  unfolding pv_create_with
  pv_create_with-execute node none ok = (λ h. absurd (ground arith), λ h. absurd (ground arith))
  pv_create_with-execute node (some path) ok =
      (λ h. (path, ground arith, refl), λ (p, full, e). ground arith)

  pv_create_node-IsPvTarget :
      (mappings : List ClusterLvmDiskMapping) (node : SanRow)
      → pre.ok ≡ true
      → (is_execute (pv_create_node pre primary_san_id payload mappings node).participation ≡ true)
        ↔ IsPvTarget mappings node
  unfolding pv_create_node
  pv_create_node-IsPvTarget mappings node ok =
      let target =
        if str_eq node.id primary_san_id
        then some payload.path
        else mapped_path (plan_mappings pre primary_san_id payload mappings) payload.path node.id in
      let (to, from) = pv_create_with-execute node target ok in
      elim (Option-cases (find_inventory pre.nodes node.id)) [
        | inl e ↦ (λ h. absurd (ground arith), λ h. ground arith)
        | inr (inv, e) ↦ elim (Bool-cases inv.ssh_ready) [
          | inl up ↦ (λ h. (inv, e, up, to (rw (e, up) at h)), λ (i, f, u, p). rw (e, up) (from p))
          | inr down ↦ (λ h. absurd (ground arith), λ h. ground arith)
        ]
      ]

  plan_of-map-executable :
      (f : SanRow → ClusterLvmNodeResult) (P : SanRow → Type 0)
      → (pre.ok ≡ true → (node : SanRow) → (is_execute (f node).participation ≡ true) ↔ P node)
      → (action : LvmAction) (cluster_id phrase : String) (nodes : List SanRow)
      → (assert_plan_executable
            (plan_of pre primary_san_id payload action cluster_id phrase (map f nodes))
          ≡ passed tt)
        ↔ ((pre.ok ≡ true) × All P nodes)
  plan_of-map-executable f P h action cluster_id phrase nodes =
      let (to, from) = plan_of-executable action cluster_id phrase (map f nodes) in
      (
        λ e.
            let (ok, each) = and_split _ _ (to e) in
            (ok, (all_execute-map f P (h ok) nodes).0 each),
        λ (ok, a). from (rw ok ((all_execute-map f P (h ok) nodes).1 a)),
      )

  -- The `pvcreate` plan of a cluster may be executed exactly when the preflight found nothing and
  -- every node answers and has a path for the volume.
  pub build_cluster_pv_create_plan-executable :
      (cluster_id : String) (nodes : List SanRow) (mappings : List ClusterLvmDiskMapping)
      → (assert_plan_executable
            (build_cluster_pv_create_plan pre primary_san_id payload cluster_id nodes mappings)
          ≡ passed tt)
        ↔ ((pre.ok ≡ true) × All (IsPvTarget mappings) nodes)
  unfolding build_cluster_pv_create_plan
  build_cluster_pv_create_plan-executable cluster_id nodes mappings =
      plan_of-map-executable (pv_create_node pre primary_san_id payload mappings)
        (IsPvTarget mappings) (λ ok node. pv_create_node-IsPvTarget mappings node ok) _ _ _ nodes

  -- The `lvcreate` plan of a cluster may be executed exactly when the preflight found nothing and
  -- every node answers and has the volume group with room for the volume.
  pub build_cluster_lv_create_plan-executable :
      (cluster_id : String) (nodes : List SanRow)
      → (assert_plan_executable
            (build_cluster_lv_create_plan pre primary_san_id payload cluster_id nodes)
          ≡ passed tt)
        ↔ ((pre.ok ≡ true) × All IsLvTarget nodes)
  unfolding build_cluster_lv_create_plan
  build_cluster_lv_create_plan-executable cluster_id nodes =
      plan_of-map-executable (lv_create_node pre primary_san_id payload) IsLvTarget
        (λ ok node. lv_create_on-IsLvTarget node ok) _ _ _ nodes
