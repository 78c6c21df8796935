-- ===== src/Access/Tests.antt =====
-- Requests of a viewer and of an operator, and the theorems at these requests.
use esos_webui.Common.{
  Option, String, [], after, all_chars, arith, false, if◌then◌else◌, includes, inl, is_some, none,
  passed, refl, refused, some, str_eq, trim, true, ◌↔◌, ◌∷◌, ◌≡◌, ◌⊎◌,
}
use esos_webui.Cluster.{SanRow}
use esos_webui.Access.Rbac.{enforce_api_rbac, rbac}
use esos_webui.Access.Rbac.Roles.{
  viewer, operator, enforce_api_rbac-le, viewer_writes_own_account, own_account, admin_reads_all,
}
use esos_webui.Access.Rbac.AdminArea.{ldap_areas, viewer_admin_reads}
use esos_webui.Access.Session.{
  UserRow, SessionPayload, SessionUser, ok, authenticate_session_from_token, authenticate-ok,
}
use esos_webui.Access.UriComponent.{decode_uri_component}
use esos_webui.Access.Middleware.{
  has_prefix_of, absent, single, repeated, ApiRequest, auth_middleware, admit, storage_readonly,
  san_readonly, readonly_error,
}
use esos_webui.Access.Middleware.Guards.{auth_middleware-user}
use esos_webui.Access.Middleware.Readonly.{IsLocked, storage_readonly-refused, san_readonly-refused}

rbac_tests :
    (enforce_api_rbac "/api/auth/logout" "POST" "viewer" ≡ passed tt)
    × (enforce_api_rbac "/api/lvm/pv/create" "POST" "viewer"
        ≡ refused 403 "Accès refusé. Rôle requis : admin ou operator.")
    × (enforce_api_rbac "/api/unknown" "POST" "admin"
        ≡ refused 403 "Accès refusé pour cette opération.")
    × (enforce_api_rbac "/api/admin/sans/s1/reconnect" "POST" "operator" ≡ passed tt)
    × (enforce_api_rbac "/api/admin/auth-providers" "GET" "viewer" ≡ passed tt)
unfolding rbac
rbac_tests = (refl, refl, refl, refl, refl)

enforce_api_rbac-le_example : enforce_api_rbac "/api/auth/logout" "POST" "operator" ≡ passed tt
enforce_api_rbac-le_example =
    enforce_api_rbac-le "/api/auth/logout" "POST" viewer operator (omega arith) rbac_tests.0

viewer_writes_own_account_example : includes "/api/auth/logout" own_account ≡ true
unfolding includes
viewer_writes_own_account_example =
    viewer_writes_own_account "/api/auth/logout" "POST" refl rbac_tests.0

admin_reads_all_example : enforce_api_rbac "/api/admin/settings" "GET" "admin" ≡ passed tt
unfolding includes
admin_reads_all_example = admin_reads_all "/api/admin/settings" "GET" refl

viewer_admin_reads_example :
    (enforce_api_rbac "/api/admin/auth-providers/ldap/events" "GET" "viewer" ≡ passed tt) ↔ (
      (is_some (after "/api/admin/auth-providers" "/api/admin/auth-providers/ldap/events") ≡ true)
      × (has_prefix_of ldap_areas "/api/admin/auth-providers/ldap/events" ≡ false))
unfolding after
viewer_admin_reads_example =
    viewer_admin_reads "/api/admin/auth-providers/ldap/events" "GET" (inl refl) refl

abbrev row : UserRow
row = record { id = "u1"; username = "ann"; role = "viewer"; active = true; session_version = 3 }

abbrev session : SessionUser
session = record { id = "u1"; username = "ann"; role = "viewer"; session_version = 3 }

abbrev payload : SessionPayload
payload = record { user_id = "u1"; session_version = 3 }

abbrev verify : String → Option SessionPayload
verify token = if str_eq token "good" then some payload else none

abbrev users : String → Option UserRow
users id = if str_eq id "u1" then some row else none

accepted : authenticate_session_from_token verify users (some "good") ≡ ok session
unfolding authenticate_session_from_token
accepted = refl

authenticate-ok_example :
    (p : SessionPayload) × (verify "good" ≡ some p)
    × ((r : UserRow) × (users p.user_id ≡ some r)
        × (r.active ≡ true)
        × (r.session_version ≡ p.session_version)
        × (session.role ≡ r.role)
        × (session.id ≡ r.id))
authenticate-ok_example = authenticate-ok verify users "good" session accepted

abbrev logout : ApiRequest
logout = record { path = "/api/auth/logout"; method = "POST"; san_id_query = absent }

auth_middleware-user_example :
    (user : SessionUser) × (some session ≡ some user)
    × (enforce_api_rbac "/api/auth/logout" "POST" user.role ≡ passed tt)
    × ((authenticate_session_from_token verify users (some "good") ≡ ok user)
        ⊎ ((t : Option String) × (◌≡◌ {A = Option (Option String)} none (some t))
            × (authenticate_session_from_token verify users t ≡ ok user)))
unfolding rbac auth_middleware admit authenticate_session_from_token
auth_middleware-user_example =
    auth_middleware-user verify users logout (some "good") none (some session) refl refl refl

abbrev locked : SanRow
locked = record {
  id = "s1";
  label = "S";
  read_only = true;
  cluster_id = none;
  cluster_enabled = false;
}

-- The path names the SAN as `s%31`, the query as ` s1`.
abbrev create_pv : ApiRequest
create_pv = record { path = "/api/lvm/pv/create"; method = "POST"; san_id_query = single " s1" }

abbrev configure : ApiRequest
configure = record { path = "/api/san/s%31/system-config"; method = "PATCH"; san_id_query = absent }

locked-IsLocked : IsLocked (locked ∷ []) "s1"
locked-IsLocked = ([], locked, [], refl, tt, refl, refl)

middleware_tests :
    (decode_uri_component "a%c3%A9%E2%82%ac%" ≡ none)
    × (decode_uri_component "a%c3%A9%E2%82%ac%F0%9F%98%80" ≡ some "aé€😀")
    × (decode_uri_component "%C0%80" ≡ none)
    × (storage_readonly (locked ∷ []) (record create_pv { san_id_query = repeated ("s1" ∷ []) })
        ≡ passed tt)
    × (san_readonly (locked ∷ []) (record configure { path = "/api/san/%" }) ≡ passed tt)
    × (san_readonly (locked ∷ []) (record configure { path = "/api/san/%/x" })
        ≡ refused 500 "URI malformed")
unfolding decode_uri_component storage_readonly san_readonly
middleware_tests = (refl, refl, refl, refl, refl, refl)

storage_readonly-refused_example :
    storage_readonly (locked ∷ []) create_pv ≡ refused 403 "SAN is read-only"
unfolding includes trim
storage_readonly-refused_example =
    storage_readonly-refused (locked ∷ []) create_pv "/api/lvm/" "pv/create" " s1" refl refl refl
      refl refl locked-IsLocked

san_readonly-refused_example : san_readonly (locked ∷ []) configure ≡ refused 403 readonly_error
unfolding includes decode_uri_component all_chars
san_readonly-refused_example =
    san_readonly-refused (locked ∷ []) configure "s1" refl
      (inl ("s%31", "system-config", refl, refl, refl, refl)) refl locked-IsLocked
