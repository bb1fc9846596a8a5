-- ===== src/Authorization/Service.antt =====
-- The methods of authorization.Service. A new identifier and the reading of the clock are arguments.
use bazusop.Base.{String, Bool, true, false, Result, ok, err, Exec, lift, ◌>>=◌, Time}
use bazusop.Authorization.{Permission, SiteRole, Error, membership_not_found, other, MemoryStore}
use bazusop.Authorization.Matrix.{permission_allows_role}
use bazusop.Authorization.Store.{assign_role, revoke_role, role_for_user_at_site}

pub record Service : Type 0 where
  pub platform_admin : String → Result Error Bool

-- Can, once the caller is known not to administer the platform.
abbrev pub by_role : Permission → Result Error SiteRole → Result Error Bool
by_role p (ok role) = ok (permission_allows_role p role)
by_role p (err membership_not_found) = ok false
by_role p (err (other e)) = err (other e)

abbrev pub decide : Permission → Result Error SiteRole → Result Error Bool → Result Error Bool
decide p role (err e) = err e
decide p role (ok true) = ok true
decide p role (ok false) = by_role p role

-- Where Can fails, Go's caller gets `false` beside the error.
unfoldable pub can : Service → MemoryStore → String → Permission → String → Result Error Bool
can sv s user p site = decide p (role_for_user_at_site s user site) (sv.platform_admin user)

unfoldable pub assign :
    String
    → String
    → String
    → SiteRole
    → Result Error String
    → Time
    → Exec MemoryStore Error (Unit {0})
assign user organization site role new_id now = do
  id ← lift new_id
  (λ s. assign_role s (record {
    id = id;
    user_id = user;
    organization_id = organization;
    site_id = site;
    role = role;
    created_at = now;
  }))

unfoldable pub revoke : String → String → Exec MemoryStore Error (Unit {0})
revoke user site s = revoke_role s user site
