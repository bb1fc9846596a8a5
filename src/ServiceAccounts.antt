-- ===== src/ServiceAccounts.antt =====
-- internal/serviceaccounts: accounts of programs and their tokens (serviceaccounts.go), and their memory
-- store (memorystore.go).
pub mod Store
pub mod Service
pub mod Tokens
pub mod Issued
pub mod Revocation
mod Examples
use bazusop.Base.{ℕ, String, Option, Time}
use bazusop.Base.Assoc.{Map}
use bazusop.Authorization.{SiteRole}

pub data Error : Type 0 where
  invalid_role invalid_expiry account_not_found account_disabled token_not_found token_revoked
        token_expired :
      Error
  other : String → Error

pub record ServiceAccount : Type 0 where
  pub id : String
  pub organization_id : String
  pub site_id : String
  pub name : String
  pub role : SiteRole
  pub created_at : Time
  pub disabled_at : Option Time

pub record Token : Type 0 where
  pub id : String
  pub service_account_id : String
  pub created_at : Time
  pub expires_at : Time
  pub last_used_at : Option Time
  pub last_used_ip : String
  pub revoked_at : Option Time

pub record TokenRecord : Type 0 where
  pub token : Token
  pub secret_hash : String

pub record MemoryStore : Type 0 where
  pub accounts : Map String ServiceAccount
  pub tokens : Map String TokenRecord
