-- ===== src/Access/Rbac/AdminArea.antt =====
-- What a viewer may read below /api/admin/.
use Prim.Native.String
use package.text.Mathlib.TextEquality.{eq_iff}
use esos_webui.Common.{
  Bool, Bool-cases, List, Option-cases, String, [], after, all, and_split, any, ap, arith, false,
  includes, inl, inr, is_some, map, not, passed, refl, str_eq, true, ◌++◌, ◌||◌, ◌↔◌, ◌∷◌, ◌≡◌, ◌⊎◌,
}
use esos_webui.Access.Pattern.{Piece, text, one_of, begins_with_one, after_piece, test}
use esos_webui.Access.Middleware.{has_prefix_of}
use esos_webui.Access.Prefix.{clash, clash-after, after-append_none, after-append_some}
use esos_webui.Access.Rbac.{
  RoutePermission, read_route_permissions, applies, enforce_read_access, enforce_api_rbac,
  method_matches, enforce_rules, decide_by,
}
use esos_webui.Access.Rbac.Roles.{enforce_rules-rule}

abbrev first_is : List Piece → String → Bool
first_is (text t ∷ ps) u = str_eq t u
first_is _ u = false

abbrev first_clashes : List Piece → String → Bool
first_clashes (text t ∷ ps) u = clash t u
first_clashes _ u = false

test-first :
    (t : String) (ps : List Piece) (path : String)
    → test (text t ∷ ps) path ≡ true
    → is_some (after t path) ≡ true
unfolding test after_piece
test-first t ps path h = ground arith

first_is-after :
    (p : List Piece) (u path : String)
    → first_is p u ≡ true
    → test p path ≡ true
    → is_some (after u path) ≡ true
first_is-after (text t ∷ ps) u path h k = rw (← (eq_iff t u).0 h) (test-first t ps path k)
first_is-after p u path h k = cc

first_clashes-after :
    (p : List Piece) (u path : String)
    → first_clashes p u ≡ true
    → test p path ≡ true
    → is_some (after u path) ≡ false
first_clashes-after (text t ∷ ps) u path h k = clash-after t u path h (test-first t ps path k)
first_clashes-after p u path h k = cc

abbrev is_viewer_rule : RoutePermission → Bool
is_viewer_rule r =
    not (includes "viewer" r.roles)
    || first_is r.pattern "/api/admin/auth-providers"
    || first_clashes r.pattern "/api/admin/"

viewer_rules : all is_viewer_rule read_route_permissions ≡ true
unfolding all read_route_permissions includes clash
viewer_rules = refl

any-append_last {ℓ} :
    {A : Type ℓ} (p : A → Bool) (xs : List A) (a : A) → p a ≡ true → any p (xs ++ a ∷ []) ≡ true
unfolding any
any-append_last p [] a h = rw h
any-append_last p (x ∷ xs) a h = ground (arith, any-append_last p xs a h)

all_but_last {ℓ} : {A : Type ℓ} → List A → List A
all_but_last [] = []
all_but_last (x ∷ []) = []
all_but_last (x ∷ y ∷ ys) = x ∷ all_but_last (y ∷ ys)

abbrev catch_all : RoutePermission
catch_all = record {
  pattern = text "/api/admin/" ∷ [];
  methods = "GET" ∷ "HEAD" ∷ [];
  roles = "admin" ∷ [];
}

read_rules_end : read_route_permissions ≡ all_but_last read_route_permissions ++ catch_all ∷ []
unfolding all_but_last read_route_permissions
read_rules_end = refl

catch_all-applies :
    (path method : String)
    → is_some (after "/api/admin/" path) ≡ true
    → method_matches ("GET" ∷ "HEAD" ∷ []) method ≡ true
    → applies path method catch_all ≡ true
unfolding applies test after_piece
catch_all-applies path method h k = ground arith

viewer_case :
    (path : String) (r : RoutePermission)
    → is_some (after "/api/admin/" path) ≡ true
    → is_viewer_rule r ≡ true
    → test r.pattern path ≡ true
    → includes "viewer" r.roles ≡ true
    → is_some (after "/api/admin/auth-providers" path) ≡ true
viewer_case path r h kind here role =
    elim (Bool-cases (first_is r.pattern "/api/admin/auth-providers")) [
      | inl e ↦ first_is-after r.pattern "/api/admin/auth-providers" path e here
      | inr e ↦
          absurd
            (ground (arith, first_clashes-after r.pattern "/api/admin/" path (ground arith) here))
    ]

viewer_reads :
    (path method : String)
    → method_matches ("GET" ∷ "HEAD" ∷ []) method ≡ true
    → is_some (after "/api/admin/" path) ≡ true
    → enforce_read_access path method "viewer" ≡ passed tt
    → is_some (after "/api/admin/auth-providers" path) ≡ true
unfolding enforce_read_access
viewer_reads path method m h k =
    elim (enforce_rules-rule is_viewer_rule (passed tt) path method "viewer" read_route_permissions
      viewer_rules k) [
        | inl (r, kind, here, role) ↦
            viewer_case path r h kind (unfold applies in (and_split _ _ here).0) role
        | inr (missed, _) ↦ cc (
          missed,
          ap (any (applies path method)) read_rules_end,
          any-append_last (applies path method) (all_but_last read_route_permissions) catch_all
              (catch_all-applies path method h m),
        )
      ]

-- What LDAP reports of its logins and accounts.
abbrev pub ldap_areas : List String
ldap_areas =
    "/api/admin/auth-providers/ldap/status" ∷ "/api/admin/auth-providers/ldap/provisioned"
    ∷ "/api/admin/auth-providers/ldap/events" ∷ []

abbrev users_rule : RoutePermission
users_rule = record {
  pattern = text "/api/admin/users" ∷ [];
  methods = "*" ∷ [];
  roles = "admin" ∷ [];
}

abbrev ldap_rule : RoutePermission
ldap_rule = record {
  pattern =
      text "/api/admin/auth-providers/ldap/"
      ∷ one_of ("status" ∷ "provisioned" ∷ "events" ∷ [])
      ∷ [];
  methods = "GET" ∷ "HEAD" ∷ [];
  roles = "admin" ∷ [];
}

abbrev providers_rule : RoutePermission
providers_rule = record {
  pattern = text "/api/admin/auth-providers" ∷ [];
  methods = "GET" ∷ "HEAD" ∷ [];
  roles = "admin" ∷ "operator" ∷ "viewer" ∷ [];
}

after_three {ℓ} : {A : Type ℓ} → List A → List A
after_three (x ∷ y ∷ z ∷ xs) = xs
after_three _ = []

read_rules_begin :
    read_route_permissions
    ≡ users_rule ∷ ldap_rule ∷ providers_rule ∷ after_three read_route_permissions
unfolding after_three read_route_permissions
read_rules_begin = refl

test-one_of :
    (p : String) (ts : List String) (s : String)
    → test (text p ∷ one_of ts ∷ []) s ≡ has_prefix_of (map (λ t. String.◌++◌ p t) ts) s
unfolding test after_piece begins_with_one has_prefix_of
test-one_of p [] s = elim (Option-cases (after p s)) [
  | inl e ↦ rw (test, e) refl
  | inr (t, e) ↦ rw (test, e) refl
]
test-one_of p (u ∷ ts) s = elim (Option-cases (after p s)) [
  | inl e ↦ ground (arith, e, test-one_of p ts s, after-append_none p u s e)
  | inr (t, e) ↦ ground (arith, e, test-one_of p ts s, after-append_some p u s t e)
]

module _ (path method : String) (reads : method_matches ("GET" ∷ "HEAD" ∷ []) method ≡ true) where
  misses_users :
      is_some (after "/api/admin/auth-providers" path) ≡ true
      → applies path method users_rule ≡ false
  unfolding applies test after_piece clash
  misses_users h =
      let missed = clash-after "/api/admin/auth-providers" "/api/admin/users" path refl h in
      ground arith

  applies_ldap : applies path method ldap_rule ≡ has_prefix_of ldap_areas path
  unfolding applies
  applies_ldap =
      let same =
        test-one_of "/api/admin/auth-providers/ldap/" ("status" ∷ "provisioned" ∷ "events" ∷ [])
          path in
      ground arith

  applies_providers :
      is_some (after "/api/admin/auth-providers" path) ≡ true
      → applies path method providers_rule ≡ true
  unfolding applies test after_piece
  applies_providers h = ground arith

  viewer_providers :
      is_some (after "/api/admin/auth-providers" path) ≡ true
      → (enforce_read_access path method "viewer" ≡ passed tt)
        ↔ (has_prefix_of ldap_areas path ≡ false)
  unfolding enforce_read_access enforce_rules decide_by includes
  viewer_providers h =
      let u = misses_users h in
      let p = applies_providers h in
      let l = applies_ldap in
      rw (read_rules_begin, u)
        (elim (Bool-cases (has_prefix_of ldap_areas path)) [
          | inl e ↦ ground arith
          | inr e ↦ ground arith
        ])

viewer_admin :
    (path method : String)
    → method_matches ("GET" ∷ "HEAD" ∷ []) method ≡ true
    → is_some (after "/api/admin/" path) ≡ true
    → (enforce_read_access path method "viewer" ≡ passed tt) ↔ (
        (is_some (after "/api/admin/auth-providers" path) ≡ true)
        × (has_prefix_of ldap_areas path ≡ false))
viewer_admin path method reads h = (
  λ k.
      let covered = viewer_reads path method reads h k in
      (covered, (viewer_providers path method reads covered).0 k),
  λ (covered, free). (viewer_providers path method reads covered).1 free,
)

-- What a viewer may read below /api/admin/ is exactly what begins with /api/admin/auth-providers and
-- does not begin with /api/admin/auth-providers/ldap/status, .../provisioned or .../events.
pub viewer_admin_reads :
    (path method : String)
    → (method ≡ "GET") ⊎ (method ≡ "HEAD")
    → is_some (after "/api/admin/" path) ≡ true
    → (enforce_api_rbac path method "viewer" ≡ passed tt) ↔ (
        (is_some (after "/api/admin/auth-providers" path) ≡ true)
        × (has_prefix_of ldap_areas path ≡ false))
unfolding enforce_api_rbac method_matches includes
viewer_admin_reads path method (inl e) h = rw e (viewer_admin path "GET" refl h)
viewer_admin_reads path method (inr e) h = rw e (viewer_admin path "HEAD" refl h)
