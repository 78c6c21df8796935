-- ===== src/Scst/Cluster/Outcome.antt =====
-- What the outcome of a cluster operation says of the nodes.
use mathlib.Core.List.{Mem, mem-cons_self, mem-cons_of_mem}
use esos_webui.Common.{
  All, Bool-cases, List, String, [], all, any, ap, arith, dedupe, false, inl, inr, is_empty, map,
  not, passed, refl, refused, select, true, ◌&&◌, ◌++◌, ◌∙◌, ◌∷◌, ◌≡◌, ◌⊎◌,
}
use esos_webui.Cluster.{SanRow, resolve_cluster_nodes}
use esos_webui.Lvm.Types.{ClusterLvmNodeResult}
use esos_webui.Lvm.Execute.{Attempt, value, thrown}
use esos_webui.Scst.Mutators.{Update, written, threw}
use esos_webui.Scst.Types.{ScstConfig}
use esos_webui.Scst.Sound.Mutate.{Mutation, mutate}
use esos_webui.Scst.Cluster.{
  ScstSite, run, run_on_node, run_on_nodes, error_of, errors_of, executed, summary,
  run_on_cluster_nodes, assert_scst_cluster_success, action_label,
}

-- An executed node reports no error, and any other node reports one.
abbrev Reported : ClusterLvmNodeResult → Type 0
Reported r = is_empty (error_of r) ≡ executed r

-- The node that a result belongs to.
run_on_node-Reported :
    {W : Type 0} (site : ScstSite W) (action : String) (m : Mutation) (node : SanRow) (w : W)
    → let r = (run_on_node site action m node w).0 in
      (Reported r) × (r.san_id ≡ node.id) × (r.label ≡ node.label)
unfolding run_on_node error_of
run_on_node-Reported site action m node w = (ground arith, ground arith, ground arith)

run_on_nodes-Reported :
    {W : Type 0} (site : ScstSite W) (action : String) (m : Mutation) (nodes : List SanRow) (w : W)
    → let rs = (run_on_nodes site action m nodes w).0 in
      (All Reported rs) × (map (λ r. r.san_id) rs ≡ map (λ n. n.id) nodes)
unfolding run_on_nodes
run_on_nodes-Reported site action m [] w = (tt, refl)
run_on_nodes-Reported site action m (n ∷ ns) w =
    let (here, id, label) = run_on_node-Reported site action m n w in
    let (later, ids) = run_on_nodes-Reported site action m ns _ in ((here, later), cc (id, ids))

append-empty : {A : Type 0} (xs ys : List A) → is_empty (xs ++ ys) ≡ (is_empty xs && is_empty ys)
append-empty [] ys = refl
append-empty (x ∷ xs) ys = refl

errors_of-all :
    (rs : List ClusterLvmNodeResult) → All Reported rs → is_empty (errors_of rs) ≡ all executed rs
unfolding errors_of all
errors_of-all [] h = refl
errors_of-all (r ∷ rs) (here, later) =
    ground (arith, here, errors_of-all rs later, append-empty (error_of r) (errors_of rs))

all-any :
    (rs : List ClusterLvmNodeResult) → all executed rs ≡ true → any executed rs ≡ not (is_empty rs)
unfolding all any
all-any [] h = refl
all-any (r ∷ rs) h = ground arith

select-all : (rs : List ClusterLvmNodeResult) → all executed rs ≡ true → select executed rs ≡ rs
unfolding all select
select-all [] h = refl
select-all (r ∷ rs) h = ground (arith, select-all rs)

Attempt-cases {ℓ} :
    {A : Type ℓ} (e : Attempt A) → ((a : A) × (e ≡ value a)) ⊎ ((s : String) × (e ≡ thrown s))
Attempt-cases (value a) = inl (a, refl)
Attempt-cases (thrown s) = inr (s, refl)

Update-cases : (u : Update) → ((c : ScstConfig) × (u ≡ written c)) ⊎ ((s : String) × (u ≡ threw s))
Update-cases (written c) = inl (c, refl)
Update-cases (threw s) = inr (s, refl)

module _ {W : Type 0} (site : ScstSite W) where
  run-value :
      (m : Mutation) (id : String) (w : W)
      → (run site m id w).0 ≡ value tt
      → (c : ScstConfig) × (c' : ScstConfig) × ((site.read_scst_config w id).0 ≡ value c)
        × (mutate m c ≡ written c')
        × ((site.write_and_reload_scst (site.read_scst_config w id).1 id c').0 ≡ value tt)
  unfolding run
  run-value m id w h = elim (Attempt-cases (site.read_scst_config w id).0) [
    | inr (message, e) ↦ absurd (ground arith)
    | inl (c, e) ↦ elim (Update-cases (mutate m c)) [
      | inr (message, k) ↦ absurd (ground arith)
      | inl (c', k) ↦ (c, c', e, k, ground arith)
    ]
  ]

  -- A node on which the operation is reported as executed was writable and connected, its
  -- configuration could be read, the operation wrote another one from it, and the write succeeded.
  pub run_on_node-executed :
      (action : String) (m : Mutation) (node : SanRow) (w : W)
      → executed (run_on_node site action m node w).0 ≡ true
      → (node.read_only ≡ false)
        × (site.connected w node.id ≡ true)
        × ((c : ScstConfig) × (c' : ScstConfig) × ((site.read_scst_config w node.id).0 ≡ value c)
            × (mutate m c ≡ written c')
            × ((site.write_and_reload_scst (site.read_scst_config w node.id).1 node.id c').0
                ≡ value tt))
  unfolding run_on_node
  run_on_node-executed action m node w h =
      (ground arith, ground arith, run-value m node.id w (ground arith))

  -- A cluster operation has one result for each node of the cluster, in order. It succeeds exactly
  -- if there is a node and every one executed it, and it reports no error exactly if every node
  -- executed it.
  pub run_on_cluster_nodes-success :
      (sans : List SanRow) (cluster_id : String) (m : Mutation) (w : W)
      → let r = (run_on_cluster_nodes site sans cluster_id m w).0 in
        (map (λ n. n.san_id) r.node_results
          ≡ map (λ n. n.id) (resolve_cluster_nodes sans cluster_id))
        × (r.success ≡ (not (is_empty r.node_results) && all executed r.node_results))
        × (is_empty r.errors ≡ all executed r.node_results)
  unfolding run_on_cluster_nodes summary
  run_on_cluster_nodes-success sans cluster_id m w =
      let nodes = resolve_cluster_nodes sans cluster_id in
      let rs = (run_on_nodes site (action_label m) m nodes w).0 in
      let (reported, ids) = run_on_nodes-Reported site (action_label m) m nodes w in
      let quiet = errors_of-all rs reported in (ids, ground (arith, all-any rs), quiet)

  -- If the check after a cluster operation passes, the cluster has a node, and the refreshed nodes are
  -- all of its nodes.
  pub assert_scst_cluster_success-passed :
      (sans : List SanRow) (cluster_id : String) (m : Mutation) (w : W)
      → assert_scst_cluster_success (run_on_cluster_nodes site sans cluster_id m w).0 ≡ passed tt
      → (is_empty (run_on_cluster_nodes site sans cluster_id m w).0.node_results ≡ false)
        × ((run_on_cluster_nodes site sans cluster_id m w).0.refreshed_san_ids
            ≡ dedupe (map (λ n. n.id) (resolve_cluster_nodes sans cluster_id)))
  unfolding run_on_cluster_nodes summary assert_scst_cluster_success
  assert_scst_cluster_success-passed sans cluster_id m w h =
      let nodes = resolve_cluster_nodes sans cluster_id in
      let rs = (run_on_nodes site (action_label m) m nodes w).0 in
      let (reported, ids) = run_on_nodes-Reported site (action_label m) m nodes w in
      let everyone : all executed rs ≡ true = ground arith in
      (ground (arith, all-any rs), rw (select-all rs everyone) (ap dedupe ids))

  -- The operation was executed on a node, in the world `u`.
  abbrev pub IsWritten : Mutation → SanRow → W → Type 0
  IsWritten m node u =
      (c : ScstConfig) × (c' : ScstConfig) × ((site.read_scst_config u node.id).0 ≡ value c)
      × (mutate m c ≡ written c')
      × ((site.write_and_reload_scst (site.read_scst_config u node.id).1 node.id c').0 ≡ value tt)

  -- Among the nodes there is one on which the operation was executed, in the world that the nodes
  -- before it leave.
  abbrev pub WrittenOnOne : String → Mutation → List SanRow → W → Type 0
  WrittenOnOne action m nodes w =
      (before : List SanRow) × (node : SanRow) × (later : List SanRow) × (nodes
        ≡ before ++ (node ∷ later))
      × IsWritten m node (run_on_nodes site action m before w).1

  any-written :
      (action : String) (m : Mutation) (nodes : List SanRow) (w : W)
      → any executed (run_on_nodes site action m nodes w).0 ≡ true
      → WrittenOnOne action m nodes w
  unfolding run_on_nodes any
  any-written action m [] w h = absurd (cc h)
  any-written action m (n ∷ ns) w h =
      elim (Bool-cases (executed (run_on_node site action m n w).0)) [
        | inl e ↦ ([], n, ns, refl, (run_on_node-executed action m n w e).2)
        | inr e ↦
            let (before, node, later, split, done) =
              any-written action m ns (run_on_node site action m n w).1 (rw e at h) in
            (n ∷ before, node, later, ap (λ l. n ∷ l) split, done)
      ]

  all-failed :
      (action : String) (m : Mutation) (nodes : List SanRow) (w : W)
      → all executed (run_on_nodes site action m nodes w).0 ≡ false
      → (node : SanRow) × Mem node nodes
        × ((r : ClusterLvmNodeResult) × Mem r (run_on_nodes site action m nodes w).0
            × (r.san_id ≡ node.id)
            × (executed r ≡ false)
            × (is_empty (error_of r) ≡ false))
  unfolding run_on_nodes all
  all-failed action m [] w h = absurd (cc h)
  all-failed action m (n ∷ ns) w h =
      let (honest, id, label) = run_on_node-Reported site action m n w in
      elim (Bool-cases (executed (run_on_node site action m n w).0)) [
        | inr e ↦ (
          n,
          mem-cons_self,
          ((run_on_node site action m n w).0, mem-cons_self, id, e, honest ∙ e),
        )
        | inl e ↦
            let (node, there, (r, in_rest, id', e', bad)) =
              all-failed action m ns (run_on_node site action m n w).1 (rw e at h) in
            (node, mem-cons_of_mem _ there, (r, mem-cons_of_mem _ in_rest, id', e', bad))
      ]

  -- If the check after a cluster operation refuses with status 409, there is a node of the cluster on
  -- which the operation was executed (in the world that the nodes before it leave, its configuration
  -- was read and the one that the operation makes of it was written), and there is a node with a
  -- result that is not executed and has an error.
  pub assert_scst_cluster_success-conflict :
      (sans : List SanRow) (cluster_id : String) (m : Mutation) (w : W) (message : String)
      → assert_scst_cluster_success (run_on_cluster_nodes site sans cluster_id m w).0
        ≡ refused 409 message
      → WrittenOnOne (action_label m) m (resolve_cluster_nodes sans cluster_id) w
        × ((node : SanRow) × Mem node (resolve_cluster_nodes sans cluster_id)
            × ((r : ClusterLvmNodeResult) × Mem r
                  (run_on_cluster_nodes site sans cluster_id m w).0.node_results
                × (r.san_id ≡ node.id)
                × (executed r ≡ false)
                × (is_empty (error_of r) ≡ false)))
  unfolding run_on_cluster_nodes summary assert_scst_cluster_success
  assert_scst_cluster_success-conflict sans cluster_id m w message h =
      let nodes = resolve_cluster_nodes sans cluster_id in
      let action = action_label m in
      let rs = (run_on_nodes site action m nodes w).0 in
      let (reported, ids) = run_on_nodes-Reported site action m nodes w in
      let some_ran : any executed rs ≡ true = ground arith in
      let some_failed : all executed rs ≡ false = ground (arith, errors_of-all rs reported) in
      (any-written action m nodes w some_ran, all-failed action m nodes w some_failed)
