-- ===== src/Access/Session.antt =====
-- server/utils/session-auth.ts: from a token to the user of a session. The verification of the JWT
-- (the `jose` package) and the user table are parameters: `verify token` is the payload that
-- `verifySession` returns, or `none` where it throws.
use esos_webui.Common.{
  Bool, Option, String, arith, if◌then◌else◌, is_blank, none, not, refl, some, str_eq, true, ℕ,
  ◌==◌, ◌||◌, ◌≡◌,
}

-- The fields of a row of the user table that the sessions read.
pub record UserRow : Type 0 where
  pub id : String
  pub username : String
  pub role : String
  pub active : Bool
  pub session_version : ℕ

pub record SessionPayload : Type 0 where
  pub user_id : String
  pub session_version : ℕ

pub data SessionAuthFailure : Type 0 where
  missing_token invalid_token user_not_found inactive session_revoked : SessionAuthFailure

pub record SessionUser : Type 0 where
  pub id : String
  pub username : String
  pub role : String
  pub session_version : ℕ

pub data SessionAuth : Type 0 where
  ok : SessionUser → SessionAuth
  failure : SessionAuthFailure → SessionAuth

unfoldable pub session_failure_status : SessionAuthFailure → ℕ × String
session_failure_status missing_token = (401, "Non authentifié")
session_failure_status invalid_token = (401, "Session expirée")
session_failure_status user_not_found = (401, "Compte introuvable")
session_failure_status inactive = (403, "Compte désactivé. Contactez un administrateur.")
session_failure_status session_revoked = (401, "Session révoquée. Reconnectez-vous.")

-- The checks of a user's row against the payload of the token.
unfoldable pub check_user : SessionPayload → Option UserRow → SessionAuth
check_user payload none = failure user_not_found
check_user payload (some user) =
    if not user.active
    then failure inactive
    else if not (user.session_version == payload.session_version)
    then failure session_revoked
    else ok (record {
      id = user.id;
      username = user.username;
      role = user.role;
      session_version = user.session_version;
    })

check_user-ok :
    (payload : SessionPayload) (found : Option UserRow) (u : SessionUser)
    → check_user payload found ≡ ok u
    → (row : UserRow) × (found ≡ some row)
      × ((row.active ≡ true)
          × (row.session_version ≡ payload.session_version)
          × (u.role ≡ row.role)
          × (u.id ≡ row.id))
unfolding check_user
check_user-ok payload none u h = absurd (ground arith)
check_user-ok payload (some row) u h =
    (row, refl, (ground arith, ground arith, ground arith, ground arith))

-- The role check of the terminal's WebSocket.
unfoldable pub is_terminal_web_socket_role_allowed : String → Bool
is_terminal_web_socket_role_allowed role = str_eq role "admin" || str_eq role "operator"

module _ (verify : String → Option SessionPayload) (get_user_by_id : String → Option UserRow) where
  check_payload : Option SessionPayload → SessionAuth
  unfolding check_user
  check_payload none = failure invalid_token
  check_payload (some payload) = check_user payload (get_user_by_id payload.user_id)

  unfoldable pub authenticate_session_from_token : Option String → SessionAuth
  unfolding check_payload
  authenticate_session_from_token none = failure missing_token
  authenticate_session_from_token (some token) =
      if is_blank token then failure missing_token else check_payload (verify token)

  check_payload-ok :
      (found : Option SessionPayload) (u : SessionUser)
      → check_payload found ≡ ok u
      → (payload : SessionPayload) × (found ≡ some payload)
        × (check_user payload (get_user_by_id payload.user_id) ≡ ok u)
  unfolding check_payload
  check_payload-ok none u h = absurd (ground arith)
  check_payload-ok (some payload) u h = (payload, refl, h)

  -- A token that is accepted verifies, and names a user who is there and active, with the session
  -- version of the token; the session has this user's id and role.
  pub authenticate-ok :
      (token : String) (u : SessionUser)
      → authenticate_session_from_token (some token) ≡ ok u
      → (payload : SessionPayload) × (verify token ≡ some payload)
        × ((row : UserRow) × (get_user_by_id payload.user_id ≡ some row)
            × (row.active ≡ true)
            × (row.session_version ≡ payload.session_version)
            × (u.role ≡ row.role)
            × (u.id ≡ row.id))
  unfolding authenticate_session_from_token
  authenticate-ok token u h =
      let (payload, verified, checked) = check_payload-ok (verify token) u (ground arith) in
      let (row, found, parts) = check_user-ok payload (get_user_by_id payload.user_id) u checked in
      (payload, verified, (row, found, parts.0, parts.1, parts.2, parts.3))
