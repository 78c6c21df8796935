-- ===== src/Cluster.antt =====
-- The part of the SAN table (server/db/schema.ts) that the cluster operations read, and the query
-- for the nodes of a cluster: `resolveClusterNodes` of server/utils/lvm-cluster-execution.ts and
-- of server/utils/scst-cluster-mutation.ts, `resolveClusterEnabledNodes` and
-- `assertClusterNodesWritable` of server/utils/cluster-readonly.ts.
use esos_webui.Common.{
  Bool, List, Option, String, false, is_empty, none, select, some, str_eq, ◌&&◌,
}

pub record SanRow : Type 0 where
  pub id : String
  pub label : String
  pub read_only : Bool
  pub cluster_id : Option String
  pub cluster_enabled : Bool

-- `eq(sans.clusterId, id)` is false on NULL.
abbrev pub is_cluster : String → Option String → Bool
is_cluster id none = false
is_cluster id (some c) = str_eq c id

unfoldable pub resolve_cluster_nodes : List SanRow → String → List SanRow
unfolding select
resolve_cluster_nodes sans cluster_id =
    select (λ s. is_cluster cluster_id s.cluster_id && s.cluster_enabled) sans

-- True when `assertClusterNodesWritable` does not throw.
unfoldable pub cluster_nodes_writable : List SanRow → String → Bool
unfolding resolve_cluster_nodes
cluster_nodes_writable sans cluster_id =
    is_empty (select (λ s. s.read_only) (resolve_cluster_nodes sans cluster_id))
