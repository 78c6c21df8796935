-- ===== src/Access/Middleware/Guards.antt =====
-- What the session and role check guarantees to a handler.
use Prim.Native.Char.{code}
use esos_webui.Common.{
  Bool-cases, Checked-cases, Option, String, after, arith, false, inl, inr, is_some, none, passed,
  refl, some, true, ◌≡◌, ◌⊎◌,
}
use esos_webui.Access.Session.{
  UserRow, SessionPayload, SessionUser, SessionAuth, ok, failure, authenticate_session_from_token,
}
use esos_webui.Access.Rbac.{enforce_api_rbac}
use esos_webui.Access.Middleware.{
  ApiRequest, public_api_prefixes, has_prefix_of, admit, auth_middleware, is_ok,
}

module _ (verify : String → Option SessionPayload) (get_user_by_id : String → Option UserRow) where
  admit-passed :
      (req : ApiRequest) (auth : SessionAuth) (r : Option SessionUser)
      → admit verify get_user_by_id req auth ≡ passed r
      → (user : SessionUser) × (auth ≡ ok user)
        × (r ≡ some user)
        × (enforce_api_rbac req.path req.method user.role ≡ passed tt)
  unfolding admit
  admit-passed req (failure f) r h = absurd (ground arith)
  admit-passed req (ok user) r h =
      elim (Checked-cases (enforce_api_rbac req.path req.method user.role)) [
        | inl (t, e) ↦ (user, refl, ground arith, e)
        | inr (code, m, e) ↦ absurd (ground arith)
      ]

  -- A request below /api/ that no public prefix covers is let through only with a user: the session
  -- cookie of the request, or the cookie after a header session was set up, is accepted for that
  -- user, and the role rules let the user's role through.
  pub auth_middleware-user :
      (req : ApiRequest) (token : Option String) (header : Option (Option String))
      (r : Option SessionUser)
      → is_some (after "/api/" req.path) ≡ true
      → has_prefix_of public_api_prefixes req.path ≡ false
      → auth_middleware verify get_user_by_id req token header ≡ passed r
      → (user : SessionUser) × (r ≡ some user)
        × (enforce_api_rbac req.path req.method user.role ≡ passed tt)
        × ((authenticate_session_from_token verify get_user_by_id token ≡ ok user)
            ⊎ ((t : Option String) × (header ≡ some t)
                × (authenticate_session_from_token verify get_user_by_id t ≡ ok user)))
  unfolding auth_middleware
  auth_middleware-user req token none r api covered h =
      let (user, e, same, allowed) =
        admit-passed req (authenticate_session_from_token verify get_user_by_id token) r
          (ground arith) in
      (user, same, allowed, inl e)
  auth_middleware-user req token (some t) r api covered h =
      let own = authenticate_session_from_token verify get_user_by_id token in
      elim (Bool-cases (is_ok verify get_user_by_id own)) [
        | inl e ↦
            let (user, e', same, allowed) = admit-passed req own r (ground arith) in
            (user, same, allowed, inl e')
        | inr e ↦
            let (user, e', same, allowed) =
              admit-passed req (authenticate_session_from_token verify get_user_by_id t) r
                (ground arith) in
            (user, same, allowed, inr (t, refl, e'))
      ]
