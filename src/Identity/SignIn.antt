-- ===== src/Identity/SignIn.antt =====
-- The methods of identity.Service that let users in, and the settings of single sign-on.
use bazusop.Base.{
  String, Bool, true, false, not, [], none, is_some, Result, ok, err, Exec, pure, fail, lift, reads,
  refuse, ◌>>=◌, ◌>>◌, ◌==◌, string_comparable, if◌then◌else◌, Time,
}
use bazusop.Identity.{
  role_platform_admin, Error, invite_expired, invalid_credentials, invalid_totp_code,
  invite_wrong_identity_type, User, identity_type_oidc, Invite, OidcConfiguration, MemoryStore,
}
use bazusop.Identity.Random.{new_id, hash_recovery_code}
use bazusop.Identity.Password.{verify_password}
use bazusop.Identity.Totp.{encrypt_totp_secret, decrypt_totp_secret, verify_totp_code}
use bazusop.Identity.Store.{
  create_user, user_by_email, user_by_oidc_identity, user_by_id, invite_by_email,
  consume_invite_by_id, save_oidc_configuration, oidc_configuration_by_organization,
  consume_recovery_code,
}
use bazusop.Identity.Service.{Service, Draws, is_spent, ask}

-- `if err != nil { return User{}, ErrInvalidCredentials }`.
abbrev pub or_invalid : {A : Type 0} → Result Error A → Result Error A
or_invalid (ok a) = ok a
or_invalid (err e) = err invalid_credentials

-- The beginning that both ways to log in share.
unfoldable pub with_password : Service → String → String → String → Exec MemoryStore Error User
with_password sv organization_id email password = do
  user ← reads (λ s. or_invalid (user_by_email s organization_id email))
  verified ← lift (or_invalid (verify_password sv.crypto user.password_hash password))
  refuse (not verified) invalid_credentials
  pure user

unfoldable pub verify_credentials :
    Service → String → String → String → String → Time → Exec MemoryStore Error User
unfolding with_password
verify_credentials sv organization_id email password totp_code now = do
  user ← with_password sv organization_id email password
  secret ←
      lift (
        or_invalid
          (decrypt_totp_secret sv.crypto user.totp_secret_encrypted sv.totp_encryption_key))
  refuse (not (verify_totp_code sv.crypto secret totp_code now)) invalid_totp_code
  pure user

unfoldable pub verify_credentials_with_recovery_code :
    Service → String → String → String → String → Exec MemoryStore Error User
unfolding with_password
verify_credentials_with_recovery_code sv organization_id email password recovery_code = do
  user ← with_password sv organization_id email password
  used ← (λ s. consume_recovery_code s user.id (hash_recovery_code sv.crypto recovery_code))
  refuse (not used) invalid_credentials
  pure user

-- `errors.Is(err, ErrInvalidCredentials)`.
abbrev pub is_invalid_credentials : Error → Bool
is_invalid_credentials invalid_credentials = true
is_invalid_credentials _ = false

abbrev pub or_false : (User → Bool) → Result Error User → Result Error Bool
or_false test (ok user) = ok (test user)
or_false test (err e) = if is_invalid_credentials e then ok false else err e

unfoldable pub is_user_active : MemoryStore → String → Result Error Bool
is_user_active s id = or_false (λ user. not (is_some user.disabled_at)) (user_by_id s id)

unfoldable pub is_platform_admin : MemoryStore → String → Result Error Bool
is_platform_admin s id = or_false (λ user. user.role == role_platform_admin) (user_by_id s id)

abbrev pub linked_user : Invite → String → String → String → Time → User
linked_user i issuer subject id now = record {
  id = id;
  organization_id = i.organization_id;
  email = i.email;
  role = i.role;
  password_hash = "";
  totp_secret_encrypted = [];
  totp_confirmed_at = none;
  oidc_issuer = issuer;
  oidc_subject = subject;
  created_at = now;
  disabled_at = none;
}

-- LoginOrLinkOIDCUser for a user who is not linked yet.
unfoldable pub link_oidc_user :
    Service
    → String
    → String
    → String
    → String
    → Draws
    → Time
    → Time
    → Time
    → Exec MemoryStore Error User
link_oidc_user sv organization_id issuer subject email draws now₁ now₂ now₃ = do
  invite ← reads (λ s. invite_by_email s organization_id email)
  refuse (is_spent invite now₁) invite_expired
  refuse (not (invite.identity_type == identity_type_oidc)) invite_wrong_identity_type
  id ← lift (new_id sv.crypto draws.id)
  let user = linked_user invite issuer subject id now₂
  (λ s. create_user s user)
  lift (ask sv.site_role_grantor user.id invite.site_role_grants)
  (λ s. consume_invite_by_id s invite.id now₃)
  pure user

abbrev pub existing_or :
    Result Error User → Exec MemoryStore Error User → Exec MemoryStore Error User
existing_or (ok user) link = pure user
existing_or (err e) link = if not (is_invalid_credentials e) then fail e else link

unfoldable pub login_or_link_oidc_user :
    Service
    → String
    → String
    → String
    → String
    → Draws
    → Time
    → Time
    → Time
    → Exec MemoryStore Error User
unfolding link_oidc_user
login_or_link_oidc_user sv organization_id issuer subject email draws now₁ now₂ now₃ s =
    existing_or (user_by_oidc_identity s organization_id issuer subject)
      (link_oidc_user sv organization_id issuer subject email draws now₁ now₂ now₃) s

unfoldable pub set_oidc_configuration :
    Service
    → String
    → String
    → String
    → String
    → String
    → String
    → String
    → Draws
    → Time
    → Exec MemoryStore Error OidcConfiguration
set_oidc_configuration sv organization_id discovery_url issuer client_id client_secret redirect_url
      updated_by draws now =
    do
      encrypted ← lift (
          encrypt_totp_secret sv.crypto (sv.crypto.bytes_of client_secret) sv.totp_encryption_key
            draws.nonce)
      let config : OidcConfiguration = record {
        organization_id = organization_id;
        discovery_url = discovery_url;
        issuer = issuer;
        client_id = client_id;
        client_secret_encrypted = encrypted;
        redirect_url = redirect_url;
        updated_at = now;
        updated_by = updated_by;
      }
      (λ s. save_oidc_configuration s config)
      pure config

abbrev pub without_secret : OidcConfiguration → OidcConfiguration
without_secret config = record config { client_secret_encrypted = [] }

unfoldable pub oidc_configuration : String → Exec MemoryStore Error OidcConfiguration
oidc_configuration organization_id = do
  config ← reads (λ s. oidc_configuration_by_organization s organization_id)
  pure (without_secret config)

unfoldable pub oidc_configuration_with_secret :
    Service → String → Exec MemoryStore Error (OidcConfiguration × String)
oidc_configuration_with_secret sv organization_id = do
  config ← reads (λ s. oidc_configuration_by_organization s organization_id)
  secret ←
      lift (decrypt_totp_secret sv.crypto config.client_secret_encrypted sv.totp_encryption_key)
  pure (without_secret config, sv.crypto.text_of secret)
