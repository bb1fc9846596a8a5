-- ===== src/Authorization/Grants.antt =====
-- Which role grants which permission, said without the tables of the code.
use bazusop.Base.{
  All, ◌≡◌, ◌⊎◌, ◌↔◌, refl, sym, inl, inr, subst, true, List, [], ◌∷◌, arith, eq_iff,
  string_comparable,
}
use bazusop.Base.Assoc.{lookup}
use bazusop.Base.Assoc.Unique.{All-lookup}
use bazusop.Authorization.{Permission, SiteRole}
use bazusop.Authorization.Matrix.{
  site_role_admin, site_role_operator, site_role_viewer, org_scoped_permissions, admins, operators,
  viewers, site_role_permissions, or_false, permission_allows_role, row_of,
}

abbrev pub IsOneOf : Permission → List Permission → Type 0
IsOneOf p [] = ⊥
IsOneOf p (q ∷ qs) = (p ≡ q) ⊎ IsOneOf p qs

abbrev pub viewing : List Permission
viewing = "view_site" ∷ "view_activity" ∷ []

abbrev pub operating : List Permission
operating = "create_jobs" ∷ "acknowledge_incidents" ∷ "view_audit_events" ∷ []

abbrev pub administering : List Permission
administering =
    "manage_agents" ∷ "manage_alerts" ∷ "manage_cloud_accounts" ∷ "manage_service_accounts" ∷ []

-- Every role may look, operators and administrators of the site may operate, and administrators of the
-- site may administer it. No role of a site has any other permission, and no other text is a role.
abbrev pub Grants : Permission → SiteRole → Type 0
Grants p role =
    (IsOneOf p viewing × ((role ≡ "site-admin") ⊎ (role ≡ "operator") ⊎ (role ≡ "viewer")))
    ⊎ (IsOneOf p operating × ((role ≡ "site-admin") ⊎ (role ≡ "operator")))
    ⊎ (IsOneOf p administering × (role ≡ "site-admin"))

in_admins : (role : SiteRole) → or_false (lookup role admins) ≡ true → role ≡ "site-admin"
unfolding lookup
in_admins role h = ground (arith, eq_iff site_role_admin role)

in_operators :
    (role : SiteRole)
    → or_false (lookup role operators) ≡ true
    → (role ≡ "site-admin") ⊎ (role ≡ "operator")
unfolding lookup
in_operators role h = ground (arith, eq_iff site_role_admin role, eq_iff site_role_operator role)

in_viewers :
    (role : SiteRole)
    → or_false (lookup role viewers) ≡ true
    → (role ≡ "site-admin") ⊎ (role ≡ "operator") ⊎ (role ≡ "viewer")
unfolding lookup
in_viewers role h = ground (
  arith,
  eq_iff site_role_admin role,
  eq_iff site_role_operator role,
  eq_iff site_role_viewer role,
)

rows_grant :
    (role : SiteRole)
    → All (λ row. or_false (lookup role row.1) ≡ true → Grants row.0 role) site_role_permissions
rows_grant role = (
  look (inl refl),
  (
    rule (inl refl),
    (
      rule (inr (inl refl)),
      (
        rule (inr (inr (inl refl))),
        (
          work (inl refl),
          (
            work (inr (inl refl)),
            (
              look (inr (inl refl)),
              (work (inr (inr (inl refl))), (rule (inr (inr (inr (inl refl)))), tt)),
            ),
          ),
        ),
      ),
    ),
  ),
)
  where
    look :
        {p : Permission} → IsOneOf p viewing → or_false (lookup role viewers) ≡ true → Grants p role
    look o h = inl (o, in_viewers role h)

    work :
        {p : Permission}
        → IsOneOf p operating
        → or_false (lookup role operators) ≡ true
        → Grants p role
    work o h = inr (inl (o, in_operators role h))

    rule :
        {p : Permission}
        → IsOneOf p administering
        → or_false (lookup role admins) ≡ true
        → Grants p role
    rule o h = inr (inr (o, in_admins role h))

one_of :
    (P : Permission → Type 0) {p : Permission} (qs : List Permission)
    → IsOneOf p qs
    → All P qs
    → P p
one_of P [] o h = absurd o
one_of P (q ∷ qs) (inl e) h = subst P (sym e) h.0
one_of P (q ∷ qs) (inr o) h = one_of P qs o h.1

allowed : (p : Permission) (role : SiteRole) → Grants p role → permission_allows_role p role ≡ true
unfolding permission_allows_role lookup
allowed p role (inl (o, inl e)) =
    rw e (one_of (λ q. permission_allows_role q "site-admin" ≡ true) viewing o (refl, (refl, tt)))
allowed p role (inl (o, inr (inl e))) =
    rw e (one_of (λ q. permission_allows_role q "operator" ≡ true) viewing o (refl, (refl, tt)))
allowed p role (inl (o, inr (inr e))) =
    rw e (one_of (λ q. permission_allows_role q "viewer" ≡ true) viewing o (refl, (refl, tt)))
allowed p role (inr (inl (o, inl e))) = rw e (
    one_of (λ q. permission_allows_role q "site-admin" ≡ true) operating o
      (refl, (refl, (refl, tt))))
allowed p role (inr (inl (o, inr e))) = rw e (
    one_of (λ q. permission_allows_role q "operator" ≡ true) operating o (refl, (refl, (refl, tt))))
allowed p role (inr (inr (o, e))) = rw e (
    one_of (λ q. permission_allows_role q "site-admin" ≡ true) administering o
      (refl, (refl, (refl, (refl, tt)))))

-- The table allows a role what the role grants, and nothing else.
pub permission_allows_role-Grants :
    (p : Permission) (role : SiteRole) → (permission_allows_role p role ≡ true) ↔ Grants p role
unfolding permission_allows_role
permission_allows_role-Grants p role = (
  λ h.
      let (site, (m, found, granted)) =
        row_of p role (or_false (lookup p org_scoped_permissions)) (lookup p site_role_permissions)
          h in
      All-lookup (λ q row. or_false (lookup role row) ≡ true → Grants q role) p m
        site_role_permissions (rows_grant role) found granted,
  allowed p role,
)
