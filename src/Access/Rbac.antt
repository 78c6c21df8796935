-- ===== src/Access/Rbac.antt =====
-- server/utils/api-rbac.ts: the two tables of rules and the functions that enforce them.
pub mod Roles
pub mod AdminArea
use esos_webui.Common.{
  Bool, Checked, List, String, [], if◌then◌else◌, includes, join, passed, refused, template, ◌&&◌,
  ◌||◌, ◌∷◌,
}
use esos_webui.Access.Pattern.{Piece, text, segment, one_of, slash_or_end, end, test}

pub record RoutePermission : Type 0 where
  pub pattern : List Piece
  pub methods : List String
  pub roles : List String

abbrev rule : List Piece → List String → List String → RoutePermission
rule p m r = record { pattern = p; methods = m; roles = r }

abbrev admin : List String
admin = "admin" ∷ []

abbrev staff : List String
staff = "admin" ∷ "operator" ∷ []

abbrev everyone : List String
everyone = "admin" ∷ "operator" ∷ "viewer" ∷ []

abbrev any_method : List String
any_method = "*" ∷ []

abbrev reads : List String
reads = "GET" ∷ "HEAD" ∷ []

abbrev writes : List String
writes = "POST" ∷ "PUT" ∷ "PATCH" ∷ "DELETE" ∷ []

unfoldable pub mutation_route_permissions : List RoutePermission
mutation_route_permissions =
    rule (text "/api/auth/logout" ∷ end ∷ []) ("POST" ∷ []) everyone
    ∷ rule (text "/api/auth/change-password" ∷ end ∷ []) ("POST" ∷ []) everyone
    ∷ rule (text "/api/auth/preferences" ∷ end ∷ []) ("PATCH" ∷ []) everyone
    ∷ rule (text "/api/admin/ssh/test" ∷ end ∷ []) ("POST" ∷ []) admin
    ∷ rule (text "/api/admin/upgrade/" ∷ []) writes admin
    ∷ rule (text "/api/admin/deployment/" ∷ []) writes admin
    ∷ rule (text "/api/admin/binaries" ∷ []) writes admin
    ∷ rule (text "/api/admin/auth-providers" ∷ []) ("POST" ∷ "PATCH" ∷ "PUT" ∷ "DELETE" ∷ []) admin
    ∷ rule (text "/api/admin/users" ∷ []) any_method admin
    ∷ rule (text "/api/san/" ∷ segment ∷ text "/missing-tools/" ∷ []) writes admin
    ∷ rule (text "/api/san/" ∷ segment ∷ text "/binary-deployments" ∷ []) writes admin
    ∷ rule (text "/api/san/" ∷ segment ∷ text "/system-config" ∷ [])
        ("POST" ∷ "PATCH" ∷ "DELETE" ∷ []) admin
    ∷ rule (text "/api/admin/sans/" ∷ segment ∷ end ∷ []) ("DELETE" ∷ []) admin
    ∷ rule (text "/api/admin/sans/" ∷ segment ∷ text "/reconnect" ∷ end ∷ []) ("POST" ∷ []) staff
    ∷ rule (text "/api/admin/dependencies" ∷ []) any_method staff
    ∷ rule (text "/api/perf/" ∷ one_of ("config" ∷ "service" ∷ "db-test" ∷ "devices" ∷ []) ∷ [])
        any_method staff
    ∷ rule (text "/api/raid/" ∷ []) ("POST" ∷ "PATCH" ∷ "PUT" ∷ "DELETE" ∷ []) staff
    ∷ rule (text "/api/lvm/" ∷ []) ("POST" ∷ "PATCH" ∷ "PUT" ∷ "DELETE" ∷ []) staff
    ∷ rule (text "/api/fs/" ∷ []) ("POST" ∷ "PATCH" ∷ "PUT" ∷ "DELETE" ∷ []) staff
    ∷ rule (text "/api/cluster/" ∷ []) writes staff
    ∷ rule (text "/api/targets" ∷ []) ("POST" ∷ "PATCH" ∷ "DELETE" ∷ []) staff
    ∷ rule (text "/api/devices" ∷ []) ("POST" ∷ "DELETE" ∷ []) staff
    ∷ rule (text "/api/san/" ∷ []) ("POST" ∷ "PATCH" ∷ "PUT" ∷ "DELETE" ∷ []) staff
    ∷ rule (text "/api/admin/" ∷ []) ("POST" ∷ "PATCH" ∷ "PUT" ∷ "DELETE" ∷ []) admin
    ∷ []

unfoldable pub read_route_permissions : List RoutePermission
read_route_permissions =
    rule (text "/api/admin/users" ∷ []) any_method admin
    ∷ rule
        (text "/api/admin/auth-providers/ldap/"
          ∷ one_of ("status" ∷ "provisioned" ∷ "events" ∷ [])
          ∷ [])
        reads admin
    ∷ rule (text "/api/admin/auth-providers" ∷ []) reads everyone
    ∷ rule (text "/api/san/" ∷ segment ∷ text "/system-config" ∷ [])
        ("POST" ∷ "PATCH" ∷ "DELETE" ∷ []) admin
    ∷ rule (text "/api/admin/sans/" ∷ segment ∷ end ∷ []) ("DELETE" ∷ []) admin
    ∷ rule (text "/api/admin/dependencies" ∷ []) any_method staff
    ∷ rule (text "/api/perf/" ∷ one_of ("config" ∷ "service" ∷ "db-test" ∷ "devices" ∷ []) ∷ [])
        any_method staff
    ∷ rule (text "/api/perf/" ∷ []) ("GET" ∷ []) everyone
    ∷ rule (text "/api/raid/" ∷ []) ("POST" ∷ "PATCH" ∷ "PUT" ∷ "DELETE" ∷ []) staff
    ∷ rule (text "/api/raid/" ∷ []) ("GET" ∷ []) everyone
    ∷ rule (text "/api/advanced-storage/" ∷ []) ("GET" ∷ []) everyone
    ∷ rule (text "/api/san/" ∷ segment ∷ text "/missing-tools/" ∷ []) reads staff
    ∷ rule (text "/api/san/" ∷ segment ∷ text "/binary-deployments" ∷ []) reads staff
    ∷ rule (text "/api/lvm/" ∷ []) ("POST" ∷ "PATCH" ∷ "PUT" ∷ "DELETE" ∷ []) staff
    ∷ rule (text "/api/lvm/" ∷ []) ("GET" ∷ []) everyone
    ∷ rule (text "/api/fs/" ∷ []) ("POST" ∷ "PATCH" ∷ "PUT" ∷ "DELETE" ∷ []) staff
    ∷ rule (text "/api/fs/" ∷ []) ("GET" ∷ []) everyone
    ∷ rule (text "/api/targets/access-control" ∷ end ∷ []) reads everyone
    ∷ rule (text "/api/san/" ∷ segment ∷ text "/terminal/ws-ticket" ∷ end ∷ []) ("GET" ∷ []) staff
    ∷ rule (text "/api/san/" ∷ segment ∷ text "/system-config" ∷ []) ("GET" ∷ []) staff
    ∷ rule (text "/api/san/" ∷ []) ("POST" ∷ "PATCH" ∷ "PUT" ∷ "DELETE" ∷ []) staff
    ∷ rule (text "/api/context/selection" ∷ end ∷ []) reads everyone
    ∷ rule (text "/api/admin/sans" ∷ slash_or_end ∷ []) reads staff
    ∷ rule (text "/api/admin/clusters" ∷ slash_or_end ∷ []) reads staff
    ∷ rule (text "/api/admin/login-history" ∷ end ∷ []) reads staff
    ∷ rule (text "/api/admin/app-version" ∷ slash_or_end ∷ []) reads staff
    ∷ rule (text "/api/admin/health" ∷ end ∷ []) reads staff
    ∷ rule (text "/api/admin/esos-version" ∷ slash_or_end ∷ []) reads staff
    ∷ rule (text "/api/admin/upgrade/" ∷ []) reads staff
    ∷ rule (text "/api/admin/deployment/" ∷ []) reads staff
    ∷ rule (text "/api/admin/binaries" ∷ []) reads staff
    ∷ rule (text "/api/admin/" ∷ []) reads admin
    ∷ []

-- `MUTATING_METHODS`
abbrev pub mutating_methods : List String
mutating_methods = "POST" ∷ "PUT" ∷ "PATCH" ∷ "DELETE" ∷ []

unfoldable pub method_matches : List String → String → Bool
unfolding includes
method_matches methods method = includes "*" methods || includes method methods

-- The rule speaks about this path and method.
unfoldable pub applies : String → String → RoutePermission → Bool
unfolding test method_matches
applies path method r = test r.pattern path && method_matches r.methods method

-- The first rule that applies decides by the role.
unfoldable pub decide_by : String → RoutePermission → Checked (Unit {0})
unfolding includes template join
decide_by role r =
    if includes role r.roles
    then passed tt
    else refused 403 (template ("Accès refusé. Rôle requis : " ∷ join " ou " r.roles ∷ "." ∷ []))

-- The loop of both functions; `otherwise` is what stands after it.
unfoldable pub enforce_rules :
    Checked (Unit {0}) → String → String → String → List RoutePermission → Checked (Unit {0})
enforce_rules otherwise path method role [] = otherwise
enforce_rules otherwise path method role (r ∷ rs) =
    if applies path method r then decide_by role r else enforce_rules otherwise path method role rs

unfoldable pub enforce_mutation_access : String → String → String → Checked (Unit {0})
enforce_mutation_access path method role =
    enforce_rules (refused 403 "Accès refusé pour cette opération.") path method role
      mutation_route_permissions

unfoldable pub enforce_read_access : String → String → String → Checked (Unit {0})
enforce_read_access path method role =
    enforce_rules (passed tt) path method role read_route_permissions

unfoldable pub enforce_api_rbac : String → String → String → Checked (Unit {0})
enforce_api_rbac path method role =
    if includes method mutating_methods
    then enforce_mutation_access path method role
    else enforce_read_access path method role

-- What a test by evaluation unfolds.
unfoldable pub rbac : Unit {0}
unfolding enforce_api_rbac enforce_mutation_access enforce_read_access enforce_rules applies
    decide_by mutation_route_permissions read_route_permissions
rbac = tt
