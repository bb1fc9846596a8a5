-- ===== src/Identity/Service.antt =====
-- The methods of identity.Service that make users. Each reading of the clock and each drawn value is an argument.
use bazusop.Base.{
  ℕ, ◌+◌, ◌*◌, String, Bool, true, false, not, ◌&&◌, ◌||◌, List, [], ◌∷◌, map, Option, none, some,
  is_some, Result, ok, Exec, pure, lift, reads, refuse, ◌>>=◌, ◌>>◌, ◌==◌, string_comparable,
  if◌then◌else◌, Time, hour, after,
}
use bazusop.Identity.{
  Bytes, Role, role_platform_admin, Error, already_bootstrapped, invite_expired,
  totp_already_confirmed, invalid_totp_code, invalid_invite_role, invite_wrong_identity_type, User,
  IdentityType, identity_type_local, identity_type_oidc, SiteRoleGrant, Invite, TotpEnrollment,
  MemoryStore,
}
use bazusop.Identity.Random.{
  Crypto, Drawn, new_id, generate_recovery_codes, hash_recovery_code, hash_token,
}
use bazusop.Identity.Password.{hash_password}
use bazusop.Identity.Totp.{encrypt_totp_secret, decrypt_totp_secret, verify_totp_code}
use bazusop.Identity.Store.{
  is_bootstrapped, complete_bootstrap, create_user, user_by_id, update_user, save_invite,
  invite_by_token_hash, consume_invite, save_recovery_codes,
}

-- The grantor of site roles may be missing; what it answers is given.
pub record Service : Type 0 where
  pub crypto : Crypto
  pub totp_encryption_key : String
  pub site_role_grantor : Option (String → List SiteRoleGrant → Result Error (Unit {0}))

-- What a call draws.
pub record Draws : Type 0 where
  pub salt : Drawn
  pub secret : Drawn
  pub nonce : Drawn
  pub token : Drawn
  pub id : Drawn
  pub codes : ℕ → Drawn

-- The recovery codes, once their hashes are stored.
unfoldable pub issue_codes : Service → String → (ℕ → Drawn) → Exec MemoryStore Error (List String)
issue_codes sv user_id drawn = do
  codes ← lift (generate_recovery_codes sv.crypto 10 drawn)
  (λ s. save_recovery_codes s user_id (map (hash_recovery_code sv.crypto) codes))
  pure codes

abbrev pub enrollment : Service → String → Bytes → List String → TotpEnrollment
enrollment sv email secret codes = record {
  provisioning_uri = sv.crypto.provisioning_uri "bazUSOP" email secret;
  recovery_codes = codes;
}

abbrev pub first_user : String → String → String → Bytes → String → Time → User
first_user organization_id email password_hash encrypted id now = record {
  id = id;
  organization_id = organization_id;
  email = email;
  role = role_platform_admin;
  password_hash = password_hash;
  totp_secret_encrypted = encrypted;
  totp_confirmed_at = some now;
  oidc_issuer = "";
  oidc_subject = "";
  created_at = now;
  disabled_at = none;
}

unfoldable pub bootstrap :
    Service
    → String
    → String
    → String
    → Draws
    → Time
    → Exec MemoryStore Error (User × TotpEnrollment)
bootstrap sv organization_id email password draws now = do
  bootstrapped ← reads is_bootstrapped
  refuse bootstrapped already_bootstrapped
  password_hash ← lift (hash_password sv.crypto password draws.salt)
  totp_secret ← lift draws.secret
  encrypted ← lift (encrypt_totp_secret sv.crypto totp_secret sv.totp_encryption_key draws.nonce)
  id ← lift (new_id sv.crypto draws.id)
  let user = first_user organization_id email password_hash encrypted id now
  (λ s. complete_bootstrap s user)
  codes ← issue_codes sv id draws.codes
  pure (user, enrollment sv email totp_secret codes)

abbrev pub is_empty {ℓ} : {A : Type ℓ} → List A → Bool
is_empty [] = true
is_empty (x ∷ xs) = false

abbrev pub or_local : IdentityType → IdentityType
or_local t = if t == "" then identity_type_local else t

unfoldable pub create_invite :
    Service
    → String
    → String
    → String
    → Role
    → List SiteRoleGrant
    → IdentityType
    → Draws
    → Time
    → Time
    → Exec MemoryStore Error (Invite × String)
create_invite sv created_by organization_id email role grants identity_type draws now₁ now₂ = do
  refuse (role == role_platform_admin && not (is_empty grants)) invalid_invite_role
  refuse (not (role == role_platform_admin) && is_empty grants) invalid_invite_role
  token ← lift (new_id sv.crypto draws.token)
  id ← lift (new_id sv.crypto draws.id)
  let invite : Invite = record {
    id = id;
    organization_id = organization_id;
    email = email;
    role = role;
    site_role_grants = grants;
    identity_type = or_local identity_type;
    created_by = created_by;
    expires_at = now₁ + 24 * hour;
    consumed_at = none;
    revoked_at = none;
    created_at = now₂;
  }
  (λ s. save_invite s invite (hash_token sv.crypto token))
  pure (invite, token)

-- The test for an invitation that cannot be used any more.
abbrev pub is_spent : Invite → Time → Bool
is_spent i now = is_some i.consumed_at || is_some i.revoked_at || after now i.expires_at

abbrev pub ask :
    Option (String → List SiteRoleGrant → Result Error (Unit {0}))
    → String
    → List SiteRoleGrant
    → Result Error (Unit {0})
ask none user_id grants = ok tt
ask (some grantor) user_id grants = if not (is_empty grants) then grantor user_id grants else ok tt

abbrev pub invited_user : Invite → String → Bytes → String → Time → User
invited_user i password_hash encrypted id now = record {
  id = id;
  organization_id = i.organization_id;
  email = i.email;
  role = i.role;
  password_hash = password_hash;
  totp_secret_encrypted = encrypted;
  totp_confirmed_at = none;
  oidc_issuer = "";
  oidc_subject = "";
  created_at = now;
  disabled_at = none;
}

-- ConsumeInvite, once the invitation is read.
unfoldable pub accept_invite :
    Service
    → String
    → String
    → Draws
    → Time
    → Time
    → Time
    → Invite
    → Exec MemoryStore Error (User × TotpEnrollment)
accept_invite sv token_hash password draws now₁ now₂ now₃ invite = do
  refuse (is_spent invite now₁) invite_expired
  refuse (invite.identity_type == identity_type_oidc) invite_wrong_identity_type
  password_hash ← lift (hash_password sv.crypto password draws.salt)
  totp_secret ← lift draws.secret
  encrypted ← lift (encrypt_totp_secret sv.crypto totp_secret sv.totp_encryption_key draws.nonce)
  id ← lift (new_id sv.crypto draws.id)
  let user = invited_user invite password_hash encrypted id now₂
  (λ s. create_user s user)
  lift (ask sv.site_role_grantor user.id invite.site_role_grants)
  (λ s. consume_invite s token_hash now₃)
  pure (user, enrollment sv invite.email totp_secret [])

-- ConsumeInvite.
unfoldable pub redeem_invite :
    Service
    → String
    → String
    → Draws
    → Time
    → Time
    → Time
    → Exec MemoryStore Error (User × TotpEnrollment)
unfolding accept_invite
redeem_invite sv token password draws now₁ now₂ now₃ = do
  let token_hash = hash_token sv.crypto token
  invite ← reads (λ s. invite_by_token_hash s token_hash)
  accept_invite sv token_hash password draws now₁ now₂ now₃ invite

unfoldable pub confirm_totp :
    Service → String → (Bytes → String) → Time → Draws → Exec MemoryStore Error TotpEnrollment
confirm_totp sv user_id code_from_secret at draws = do
  user ← reads (λ s. user_by_id s user_id)
  refuse (is_some user.totp_confirmed_at) totp_already_confirmed
  secret ← lift (decrypt_totp_secret sv.crypto user.totp_secret_encrypted sv.totp_encryption_key)
  refuse (not (verify_totp_code sv.crypto secret (code_from_secret secret) at)) invalid_totp_code
  (λ s. update_user s (record user { totp_confirmed_at = some at }))
  codes ← issue_codes sv user_id draws.codes
  pure (enrollment sv user.email secret codes)
