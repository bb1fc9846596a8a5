-- ===== src/Authorization/Matrix.antt =====
-- Which roles have which permissions.
use bazusop.Base.{
  All, refl, ap, Bool, true, false, Option, none, some, [], ◌∷◌, ◌≡◌, ◌≢◌, ◌⊎◌, arith, eq_iff,
  string_comparable, if◌then◌else◌,
}
use bazusop.Base.Assoc.{Map, lookup}
use bazusop.Base.Assoc.Unique.{All-lookup}
use bazusop.Authorization.{Permission, SiteRole}

abbrev pub site_role_admin : SiteRole
site_role_admin = "site-admin"

abbrev pub site_role_operator : SiteRole
site_role_operator = "operator"

abbrev pub site_role_viewer : SiteRole
site_role_viewer = "viewer"

abbrev pub IsRole : SiteRole → Type 0
IsRole role = (role ≡ site_role_admin) ⊎ (role ≡ site_role_operator) ⊎ (role ≡ site_role_viewer)

abbrev pub org_scoped_permissions : Map Permission Bool
org_scoped_permissions = ("manage_users", true) ∷ ("manage_org_security", true) ∷ []

abbrev pub admins : Map SiteRole Bool
admins = (site_role_admin, true) ∷ []

abbrev pub operators : Map SiteRole Bool
operators = (site_role_admin, true) ∷ (site_role_operator, true) ∷ []

abbrev pub viewers : Map SiteRole Bool
viewers = (site_role_admin, true) ∷ (site_role_operator, true) ∷ (site_role_viewer, true) ∷ []

abbrev pub site_role_permissions : Map Permission (Map SiteRole Bool)
site_role_permissions =
    ("view_site", viewers)
    ∷ ("manage_agents", admins)
    ∷ ("manage_alerts", admins)
    ∷ ("manage_cloud_accounts", admins)
    ∷ ("create_jobs", operators)
    ∷ ("acknowledge_incidents", operators)
    ∷ ("view_activity", viewers)
    ∷ ("view_audit_events", operators)
    ∷ ("manage_service_accounts", admins)
    ∷ []

-- What Go reads from a map of Booleans.
abbrev pub or_false : Option Bool → Bool
or_false none = false
or_false (some b) = b

abbrev pub role_in : SiteRole → Option (Map SiteRole Bool) → Bool
role_in role none = false
role_in role (some allowed) = or_false (lookup role allowed)

unfoldable pub permission_allows_role : Permission → SiteRole → Bool
permission_allows_role p role =
    if or_false (lookup p org_scoped_permissions)
    then false
    else role_in role (lookup p site_role_permissions)

-- A row of the table grants nothing to a lower role only, and nothing to a text that is no role.
abbrev IsLadder : Map SiteRole Bool → Type 0
IsLadder m =
    (or_false (lookup site_role_viewer m) ≡ true → or_false (lookup site_role_operator m) ≡ true)
    × (or_false (lookup site_role_operator m) ≡ true → or_false (lookup site_role_admin m) ≡ true)
    × ((role : SiteRole) → or_false (lookup role m) ≡ true → IsRole role)

admins-IsLadder : IsLadder admins
unfolding lookup
admins-IsLadder = (λ h. cc, λ h. refl, λ role h. ground (arith, eq_iff site_role_admin role))

operators-IsLadder : IsLadder operators
unfolding lookup
operators-IsLadder = (
  λ h. cc,
  λ h. refl,
  λ role h. ground (arith, eq_iff site_role_admin role, eq_iff site_role_operator role),
)

viewers-IsLadder : IsLadder viewers
unfolding lookup
viewers-IsLadder = (
  λ h. refl,
  λ h. refl,
  λ role h. ground (
    arith,
    eq_iff site_role_admin role,
    eq_iff site_role_operator role,
    eq_iff site_role_viewer role,
  ),
)

rows-IsLadder : All (λ (row : Permission × Map SiteRole Bool). IsLadder row.1) site_role_permissions
rows-IsLadder = (
  viewers-IsLadder,
  (
    admins-IsLadder,
    (
      admins-IsLadder,
      (
        admins-IsLadder,
        (
          operators-IsLadder,
          (operators-IsLadder, (viewers-IsLadder, (operators-IsLadder, (admins-IsLadder, tt)))),
        ),
      ),
    ),
  ),
)

-- What a role has of a row of the table, it has by the row.
pub row_of :
    (p : Permission) (role : SiteRole) (b : Bool) (o : Option (Map SiteRole Bool))
    → (if b then false else role_in role o) ≡ true
    → (b ≡ false) × ((m : Map SiteRole Bool) × (o ≡ some m) × (or_false (lookup role m) ≡ true))
row_of p role true o h = cc
row_of p role false none h = cc
row_of p role false (some m) h = (refl, (m, refl, h))

raise :
    (p : Permission) (low high : SiteRole)
    → ((m : Map SiteRole Bool)
        → IsLadder m
        → or_false (lookup low m) ≡ true
        → or_false (lookup high m) ≡ true)
    → permission_allows_role p low ≡ true
    → permission_allows_role p high ≡ true
unfolding permission_allows_role
raise p low high up h =
    let (site, (m, found, granted)) =
      row_of p low (or_false (lookup p org_scoped_permissions)) (lookup p site_role_permissions)
        h in
    rw (site, found)
      (up m (All-lookup (λ _ row. IsLadder row) p m site_role_permissions rows-IsLadder found)
        granted)

-- Whatever a viewer may do, an operator may, and whatever an operator may do, a site's administrator
-- may: no permission is granted to a lower role only.
pub permission_allows_role-ladder :
    (p : Permission)
    → (permission_allows_role p site_role_viewer ≡ true
        → permission_allows_role p site_role_operator ≡ true)
      × (permission_allows_role p site_role_operator ≡ true
          → permission_allows_role p site_role_admin ≡ true)
permission_allows_role-ladder p = (
  raise p site_role_viewer site_role_operator (λ m l. l.0),
  raise p site_role_operator site_role_admin (λ m l. l.1),
)

not_org_scoped :
    (p : Permission)
    → or_false (lookup p org_scoped_permissions) ≡ false
    → (p ≢ "manage_users") × (p ≢ "manage_org_security")
unfolding lookup
not_org_scoped p h = (
  λ e. let s = ap (λ x. or_false (lookup x org_scoped_permissions)) e in cc,
  λ e. let s = ap (λ x. or_false (lookup x org_scoped_permissions)) e in cc,
)

-- A permission that a role grants is neither of the two that concern a whole organization, and the
-- role is one of the three of the table.
pub permission_allows_role-denies :
    (p : Permission) (role : SiteRole)
    → permission_allows_role p role ≡ true
    → (p ≢ "manage_users") × (p ≢ "manage_org_security") × IsRole role
unfolding permission_allows_role
permission_allows_role-denies p role h =
    let (site, (m, found, granted)) =
      row_of p role (or_false (lookup p org_scoped_permissions)) (lookup p site_role_permissions)
        h in
    let ladder : IsLadder m =
      All-lookup (λ _ row. IsLadder row) p m site_role_permissions rows-IsLadder found in
    let clear = not_org_scoped p site in (clear.0, clear.1, ladder.2 role granted)
