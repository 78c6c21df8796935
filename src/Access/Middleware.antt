-- ===== src/Access/Middleware.antt =====
-- server/middleware: the session and role check (auth.ts) and the three checks that keep a
-- read-only SAN from being changed (san-readonly.ts, raid-readonly.ts, storage-readonly.ts).
pub mod Guards
pub mod Readonly
use Prim.Native.Char.{Char, code}
use Prim.Native.String.{[], ◌∷◌}
use esos_webui.Common.{
  Bool, Checked, List, Option, String, [], after, false, find, if◌then◌else◌, is_blank, is_some,
  none, not, passed, refused, some, str_eq, trim, true, ◌==◌, ◌||◌, ◌∷◌,
}
use esos_webui.Cluster.{SanRow}
use esos_webui.Access.Session.{
  UserRow, SessionPayload, SessionAuthFailure, session_failure_status, SessionUser, SessionAuth, ok,
  failure, authenticate_session_from_token,
}
use esos_webui.Access.Rbac.{enforce_api_rbac}
use esos_webui.Access.UriComponent.{decode_uri_component}

-- What `getQuery` gives for a key: nothing, a text, or an array where the key is repeated.
pub data QueryValue : Type 0 where
  absent : QueryValue
  single : String → QueryValue
  repeated : List String → QueryValue

-- What a middleware reads of a request: the path name of its URL, its method, and `?sanId=`.
pub record ApiRequest : Type 0 where
  pub path : String
  pub method : String
  pub san_id_query : QueryValue

abbrev pub public_api_prefixes : List String
public_api_prefixes =
    "/api/auth/login" ∷ "/api/auth/providers" ∷ "/api/auth/oidc/login" ∷ "/api/auth/oidc/callback"
    ∷ "/api/auth/ldap/login" ∷ "/api/auth/header/session" ∷ "/api/health" ∷ "/api/app/version"
    ∷ "/api/_nuxt_icon" ∷ []

-- `prefixes.some(p => path.startsWith(p))`
unfoldable pub has_prefix_of : List String → String → Bool
unfolding after
has_prefix_of [] path = false
has_prefix_of (p ∷ ps) path = is_some (after p path) || has_prefix_of ps path

module _ (verify : String → Option SessionPayload) (get_user_by_id : String → Option UserRow) where
  -- After the authentication: the failure's status, or the role rules.
  unfoldable pub admit : ApiRequest → SessionAuth → Checked (Option SessionUser)
  unfolding session_failure_status
  admit req (failure f) = let (code, m) = session_failure_status f in refused code m
  admit req (ok user) = elim (enforce_api_rbac req.path req.method user.role) [
    | refused code m ↦ refused code m
    | passed _ ↦ passed (some user)
  ]

  is_ok : SessionAuth → Bool
  is_ok (ok u) = true
  is_ok (failure f) = false

  -- `header` is `none` where `tryEstablishHeaderSession` fails, and otherwise the session cookie as
  -- it reads afterwards. `passed none` is a request that needs no session.
  unfoldable pub auth_middleware :
      ApiRequest → Option String → Option (Option String) → Checked (Option SessionUser)
  unfolding is_ok has_prefix_of
  auth_middleware req token header =
      let auth = authenticate_session_from_token verify get_user_by_id token in
      if not (is_some (after "/api/" req.path))
      then passed none
      else if has_prefix_of public_api_prefixes req.path
      then passed none
      else if is_ok auth
      then admit req auth
      else elim header [
        | none ↦ admit req auth
        | some t ↦ admit req (authenticate_session_from_token verify get_user_by_id t)
      ]

-- `method === 'GET' || method === 'HEAD' || method === 'OPTIONS'`
unfoldable pub is_read_method : String → Bool
is_read_method m = str_eq m "GET" || str_eq m "HEAD" || str_eq m "OPTIONS"

abbrev pub readonly_error : String
readonly_error =
    "Ce SAN est en lecture seule. Désactivez la protection dans Administration → SANs pour autoriser les modifications."

refuse_readonly : String → Option SanRow → Checked (Unit {0})
refuse_readonly message none = passed tt
refuse_readonly message (some san) = if san.read_only then refused 403 message else passed tt

unfoldable pub find_san : List SanRow → String → Option SanRow
unfolding find
find_san sans id = find (λ s. str_eq s.id id) sans

-- `blockIfReadonly`
unfoldable pub block_if_readonly : List SanRow → Option String → Checked (Unit {0})
unfolding refuse_readonly find_san
block_if_readonly sans none = passed tt
block_if_readonly sans (some id) =
    if is_blank id then passed tt else refuse_readonly readonly_error (find_san sans id)

-- `blockIfReadonly(sanId)` with a value of the query: no id is equal to an array.
unfoldable pub block_query : List SanRow → QueryValue → Checked (Unit {0})
unfolding block_if_readonly
block_query sans absent = block_if_readonly sans none
block_query sans (single id) = block_if_readonly sans (some id)
block_query sans (repeated ids) = passed tt

cons_text : Char → Option String → Option String
cons_text c none = none
cons_text c (some t) = some (c ∷ t)

-- The text before the first `/`, if there is one.
unfoldable pub before_slash : String → Option String
unfolding cons_text
before_slash [] = none
before_slash (c ∷ s) =
    let rest = cons_text c (before_slash s) in if code c == b'/' then some [] else rest

-- `path.match(/^\/api\/san\/([^/]+)\//)`, the part in parentheses.
unfoldable pub san_segment : String → Option String
unfolding before_slash after
san_segment path = elim (after "/api/san/" path) [
  | none ↦ none
  | some rest ↦ elim (before_slash rest) [
    | none ↦ none
    | some segment ↦ if is_blank segment then none else some segment
  ]
]

-- `blockIfReadonly(decodeURIComponent(m[1]))`; an error that is no `createError` is answered by 500.
unfoldable pub block_segment : List SanRow → String → Checked (Unit {0})
unfolding block_if_readonly decode_uri_component
block_segment sans segment = elim (decode_uri_component segment) [
  | none ↦ refused 500 "URI malformed"
  | some id ↦ block_if_readonly sans (some id)
]

unfoldable pub san_readonly : List SanRow → ApiRequest → Checked (Unit {0})
unfolding block_query block_segment san_segment is_read_method
san_readonly sans req =
    if is_read_method req.method then passed tt else elim (san_segment req.path) [
      | some segment ↦ block_segment sans segment
      | none ↦
          if is_some (after "/api/perf/" req.path)
          then block_query sans req.san_id_query
          else passed tt
    ]

unfoldable pub raid_readonly : List SanRow → ApiRequest → Checked (Unit {0})
unfolding block_query is_read_method
raid_readonly sans req =
    if is_read_method req.method
    then passed tt
    else if is_some (after "/api/raid/" req.path)
    then block_query sans req.san_id_query
    else passed tt

abbrev pub mutation_prefixes : List String
mutation_prefixes =
    "/api/raid/" ∷ "/api/lvm/" ∷ "/api/fs/" ∷ "/api/targets/" ∷ "/api/devices/" ∷ "/api/cluster/"
    ∷ "/api/admin/upgrade/" ∷ []

-- `assertSanWritable` of server/utils/san-request-context.ts
unfoldable pub assert_san_writable : List SanRow → String → Checked (Unit {0})
unfolding refuse_readonly find_san
assert_san_writable sans id = refuse_readonly "SAN is read-only" (find_san sans id)

-- `if (!sanId || typeof sanId !== 'string') return`, then `assertSanWritable(sanId.trim())`
trimmed_writable : List SanRow → QueryValue → Checked (Unit {0})
unfolding assert_san_writable trim
trimmed_writable sans absent = passed tt
trimmed_writable sans (repeated ids) = passed tt
trimmed_writable sans (single id) =
    if is_blank id then passed tt else assert_san_writable sans (trim id)

unfoldable pub storage_readonly : List SanRow → ApiRequest → Checked (Unit {0})
unfolding trimmed_writable has_prefix_of is_read_method
storage_readonly sans req =
    if is_read_method req.method
    then passed tt
    else if has_prefix_of mutation_prefixes req.path
    then trimmed_writable sans req.san_id_query
    else passed tt
