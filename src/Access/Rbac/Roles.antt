-- ===== src/Access/Rbac/Roles.antt =====
-- What the role rules allow: the order of the roles, and what is out of reach for a viewer.
use Prim.Native.String.{[], ◌∷◌}
use Prim.Native.Char.{code}
use package.text.Mathlib.TextEquality.{codes_equal}
use esos_webui.Common.{
  Bool, Bool-cases, Checked, List, Option-cases, String, [], after, all, and_split, any, ap, arith,
  false, includes, inl, inr, is_blank, not, passed, refl, refused, some, true, ℕ, ◌==◌, ◌||◌, ◌∙◌,
  ◌∷◌, ◌≡◌, ◌≤◌, ◌⊎◌,
}
use esos_webui.Access.Pattern.{Piece, text, end, after_piece, test}
use esos_webui.Access.Rbac.{
  RoutePermission, mutation_route_permissions, read_route_permissions, mutating_methods, applies,
  decide_by, enforce_rules, enforce_mutation_access, enforce_read_access, enforce_api_rbac,
}

-- What a check of every rule says of the rule that let a request through.
pub enforce_rules-rule :
    (p : RoutePermission → Bool) (otherwise : Checked (Unit {0})) (path method role : String)
    (rules : List RoutePermission)
    → all p rules ≡ true
    → enforce_rules otherwise path method role rules ≡ passed tt
    → ((r : RoutePermission) × (p r ≡ true)
        × (applies path method r ≡ true)
        × (includes role r.roles ≡ true))
      ⊎ ((any (applies path method) rules ≡ false) × (otherwise ≡ passed tt))
unfolding enforce_rules all any decide_by
enforce_rules-rule p otherwise path method role [] a h = inr (refl, h)
enforce_rules-rule p otherwise path method role (r ∷ rs) a h =
    let (here, later) = and_split _ _ a in
    elim (Bool-cases (applies path method r)) [
      | inl e ↦ inl (r, here, e, ground arith)
      | inr e ↦
          elim (enforce_rules-rule p otherwise path method role rs later
            (rw (e, enforce_rules) at h)) [
              | inl found ↦ inl found
              | inr (missed, o) ↦ inr (rw e missed, o)
            ]
    ]

-- A role that every rule of another role names too passes wherever the other passes.
enforce_rules_mono :
    (otherwise : Checked (Unit {0})) (path method low high : String) (rules : List RoutePermission)
    → all (λ r. not (includes low r.roles) || includes high r.roles) rules ≡ true
    → enforce_rules otherwise path method low rules ≡ passed tt
    → enforce_rules otherwise path method high rules ≡ passed tt
unfolding enforce_rules all decide_by
enforce_rules_mono otherwise path method low high [] a h = h
enforce_rules_mono otherwise path method low high (r ∷ rs) a h =
    ground (arith, enforce_rules_mono otherwise path method low high rs)

abbrev covers : String → String → RoutePermission → Bool
covers low high r = not (includes low r.roles) || includes high r.roles

-- The role strings of the rules (`UserRole`), in the order of what they may do.
pub data Role : Type 0 where
  viewer operator admin : Role

abbrev pub role_name : Role → String
role_name viewer = "viewer"
role_name operator = "operator"
role_name admin = "admin"

abbrev pub rank : Role → ℕ
rank viewer = 0
rank operator = 1
rank admin = 2

covers_table :
    (low high : Role)
    → rank low ≤ rank high
    → (all (covers (role_name low) (role_name high)) mutation_route_permissions ≡ true)
      × (all (covers (role_name low) (role_name high)) read_route_permissions ≡ true)
unfolding all mutation_route_permissions read_route_permissions includes
covers_table viewer viewer h = (refl, refl)
covers_table viewer operator h = (refl, refl)
covers_table viewer admin h = (refl, refl)
covers_table operator operator h = (refl, refl)
covers_table operator admin h = (refl, refl)
covers_table admin admin h = (refl, refl)
covers_table operator viewer h = absurd (omega arith)
covers_table admin viewer h = absurd (omega arith)
covers_table admin operator h = absurd (omega arith)

enforce_api_rbac_mono :
    (path method low high : String)
    → all (covers low high) mutation_route_permissions ≡ true
    → all (covers low high) read_route_permissions ≡ true
    → enforce_api_rbac path method low ≡ passed tt
    → enforce_api_rbac path method high ≡ passed tt
unfolding enforce_api_rbac enforce_mutation_access enforce_read_access
enforce_api_rbac_mono path method low high writes reads h =
    elim (Bool-cases (includes method mutating_methods)) [
      | inl e ↦
          rw e (
            enforce_rules_mono _ path method low high mutation_route_permissions writes (rw e at h))
      | inr e ↦
          rw e (enforce_rules_mono _ path method low high read_route_permissions reads (rw e at h))
    ]

-- Whatever the path and the method, what a role may do every higher role may do: viewer, operator
-- and admin in this order.
pub enforce_api_rbac-le :
    (path method : String) (low high : Role)
    → rank low ≤ rank high
    → enforce_api_rbac path method (role_name low) ≡ passed tt
    → enforce_api_rbac path method (role_name high) ≡ passed tt
enforce_api_rbac-le path method low high h =
    let (writes, reads) = covers_table low high h in
    enforce_api_rbac_mono path method (role_name low) (role_name high) writes reads

-- The paths of one's own account, which every role may change.
abbrev pub own_account : List String
own_account = "/api/auth/logout" ∷ "/api/auth/change-password" ∷ "/api/auth/preferences" ∷ []

abbrev is_exactly : List Piece → List String → Bool
is_exactly (text t ∷ end ∷ []) ts = includes t ts
is_exactly _ ts = false

after-eq : (t s : String) → after t s ≡ some "" → s ≡ t
unfolding after
after-eq [] s h = cc
after-eq (p ∷ ps) [] h = cc
after-eq (p ∷ ps) (c ∷ s) h = elim (Bool-cases (code p == code c)) [
  | inl e ↦ rw (codes_equal p c (ground arith)) (ap (λ t. c ∷ t) (after-eq ps s (ground arith)))
  | inr e ↦ absurd (ground arith)
]

is_blank→eq : (s : String) → is_blank s ≡ true → s ≡ ""
is_blank→eq [] h = refl
is_blank→eq (c ∷ s) h = cc

test_exactly :
    (p : List Piece) (ts : List String) (path : String)
    → is_exactly p ts ≡ true
    → test p path ≡ true
    → includes path ts ≡ true
unfolding test after_piece
test_exactly (text t ∷ end ∷ []) ts path h k = elim (Option-cases (after t path)) [
  | inl e ↦ absurd (ground arith)
  | inr (rest, e) ↦ rw (after-eq t path (e ∙ ap some (is_blank→eq rest (ground arith)))) h
]
test_exactly p ts path h k = cc

own_account_rules :
    all
      (λ r. not (includes "viewer" r.roles) || is_exactly r.pattern own_account)
      mutation_route_permissions
    ≡ true
unfolding all mutation_route_permissions includes
own_account_rules = refl

-- A viewer changes nothing but the own account: a POST, PUT, PATCH or DELETE that a viewer is let
-- through with goes to logout, change-password or preferences.
pub viewer_writes_own_account :
    (path method : String)
    → includes method mutating_methods ≡ true
    → enforce_api_rbac path method "viewer" ≡ passed tt
    → includes path own_account ≡ true
unfolding enforce_api_rbac enforce_mutation_access
viewer_writes_own_account path method m h =
    elim (enforce_rules-rule
      (λ r. not (includes "viewer" r.roles) || is_exactly r.pattern own_account)
      (refused 403 "Accès refusé pour cette opération.") path method "viewer"
      mutation_route_permissions own_account_rules (rw m at h)) [
        | inl (r, own, here, role) ↦
            test_exactly r.pattern own_account path (rw role at own)
              (unfold applies in (and_split _ _ here).0)
        | inr (_, e) ↦ absurd (ground arith)
      ]

admin_rules : all (λ r. includes "admin" r.roles) read_route_permissions ≡ true
unfolding all read_route_permissions includes
admin_rules = refl

enforce_rules-admin :
    (path method : String) (rules : List RoutePermission)
    → all (λ r. includes "admin" r.roles) rules ≡ true
    → enforce_rules (passed tt) path method "admin" rules ≡ passed tt
unfolding enforce_rules all decide_by
enforce_rules-admin path method [] a = refl
enforce_rules-admin path method (r ∷ rs) a = ground (arith, enforce_rules-admin path method rs)

-- An admin is refused no read, whatever the path.
pub admin_reads_all :
    (path method : String)
    → includes method mutating_methods ≡ false
    → enforce_api_rbac path method "admin" ≡ passed tt
unfolding enforce_api_rbac enforce_read_access
admin_reads_all path method m =
    rw m (enforce_rules-admin path method read_route_permissions admin_rules)
