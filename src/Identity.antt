-- ===== src/Identity.antt =====
-- internal/identity: users, invitations and the settings of single sign-on (identity.go) and their
-- memory store (memorystore.go).
pub mod Random
pub mod Password
pub mod Totp
pub mod Store
pub mod Service
pub mod SignIn
pub mod Secrets
pub mod Window
pub mod History
pub mod Invitations
pub mod Closed
pub mod Recovery
pub mod Login
pub mod Bootstrap
pub mod Race
mod Examples
use bazusop.Base.{ℕ, String, Bool, List, Option, Time}
use bazusop.Base.Assoc.{Map}

abbrev pub Bytes : Type 0
Bytes = List ℕ

abbrev pub Role : Type 0
Role = String

abbrev pub role_platform_admin : Role
role_platform_admin = "platform-admin"

pub data Error : Type 0 where
  already_bootstrapped invalid_bootstrap_secret invite_not_found invite_expired : Error
  invalid_credentials totp_already_confirmed invalid_totp_code invalid_invite_role : Error
  oidc_not_configured invite_wrong_identity_type : Error
  other : String → Error

-- A secret or a hash that a user does not have is empty.
pub record User : Type 0 where
  pub id : String
  pub organization_id : String
  pub email : String
  pub role : Role
  pub password_hash : String
  pub totp_secret_encrypted : Bytes
  pub totp_confirmed_at : Option Time
  pub oidc_issuer : String
  pub oidc_subject : String
  pub created_at : Time
  pub disabled_at : Option Time

abbrev pub IdentityType : Type 0
IdentityType = String

abbrev pub identity_type_local : IdentityType
identity_type_local = "local"

abbrev pub identity_type_oidc : IdentityType
identity_type_oidc = "oidc"

pub record SiteRoleGrant : Type 0 where
  pub site_id : String
  pub role : String

pub record Invite : Type 0 where
  pub id : String
  pub organization_id : String
  pub email : String
  pub role : Role
  pub site_role_grants : List SiteRoleGrant
  pub identity_type : IdentityType
  pub created_by : String
  pub expires_at : Time
  pub consumed_at : Option Time
  pub revoked_at : Option Time
  pub created_at : Time

pub record OidcConfiguration : Type 0 where
  pub organization_id : String
  pub discovery_url : String
  pub issuer : String
  pub client_id : String
  pub client_secret_encrypted : Bytes
  pub redirect_url : String
  pub updated_at : Time
  pub updated_by : String

pub record TotpEnrollment : Type 0 where
  pub provisioning_uri : String
  pub recovery_codes : List String

pub record InviteRecord : Type 0 where
  pub invite : Invite
  pub token_hash : String

pub record MemoryStore : Type 0 where
  pub bootstrapped : Bool
  pub users_by_id : Map String User
  pub users_by_email : Map String String
  pub users_by_oidc : Map String String
  pub invites : Map String InviteRecord
  pub recovery_hashes : Map String (Map String Bool)
  pub oidc_configs : Map String OidcConfiguration
