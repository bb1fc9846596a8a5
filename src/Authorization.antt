-- ===== src/Authorization.antt =====
-- internal/authorization: roles at sites (authorization.go) and their memory store (memorystore.go).
-- A permission and a role are texts, as in Go: any text may be asked for.
pub mod Matrix
pub mod Store
pub mod Service
pub mod Keys
pub mod Grants
pub mod Standing
mod Examples
use bazusop.Base.{String, Time}
use bazusop.Base.Assoc.{Map}

abbrev pub Permission : Type 0
Permission = String

abbrev pub SiteRole : Type 0
SiteRole = String

pub record SiteMembership : Type 0 where
  pub id : String
  pub user_id : String
  pub organization_id : String
  pub site_id : String
  pub role : SiteRole
  pub created_at : Time

pub data Error : Type 0 where
  membership_not_found : Error
  other : String → Error

pub record MemoryStore : Type 0 where
  pub memberships : Map String SiteMembership
