-- ===== src/ServiceAccounts/Service.antt =====
-- ParseToken and the methods of serviceaccounts.Service. Readings of the clock, drawn texts, the digest
-- of a secret (HMAC under the pepper) and time.AddDate are arguments.
use Prim.Native.Char.{Char, code}
use bazusop.Base.{
  ℕ, String, Bool, true, false, not, ◌&&◌, ◌||◌, Option, none, some, Time, Result, Exec, pure, fail,
  lift, reads, refuse, ◌>>=◌, ◌>>◌, is_some, ◌==◌, string_comparable, nat_comparable, ltb, after,
  if◌then◌else◌,
}
use bazusop.Authorization.{SiteRole}
use bazusop.Authorization.Matrix.{site_role_admin, site_role_operator, site_role_viewer}
use bazusop.Authorization.Store.{append}
use bazusop.ServiceAccounts.{
  Error, invalid_role, invalid_expiry, account_not_found, account_disabled, token_not_found,
  token_revoked, token_expired, ServiceAccount, Token, TokenRecord, MemoryStore,
}
use bazusop.ServiceAccounts.Store.{
  create_account, account_by_id, disable_account, create_token, token_by_id, revoke_token,
  touch_token, revoke_active_tokens,
}

abbrev pub token_prefix : String
token_prefix = "bazusop_sat_"

-- strings.HasPrefix.
unfoldable pub has_prefix : String → String → Bool
has_prefix String.[] s = true
has_prefix (String.◌∷◌ c p) String.[] = false
has_prefix (String.◌∷◌ c p) (String.◌∷◌ d s) = code c == code d && has_prefix p s

-- strings.TrimPrefix, where the prefix is known to be there.
unfoldable pub drop_prefix : String → String → String
drop_prefix String.[] s = s
drop_prefix (String.◌∷◌ c p) String.[] = String.[]
drop_prefix (String.◌∷◌ c p) (String.◌∷◌ d s) = drop_prefix p s

abbrev pub push_left : Char → Option (String × String) → Option (String × String)
push_left c none = none
push_left c (some parts) = some (String.◌∷◌ c parts.0, parts.1)

-- strings.SplitN(s, "_", 2), where it gives two parts.
unfoldable pub split_underscore : String → Option (String × String)
split_underscore String.[] = none
split_underscore (String.◌∷◌ c s) =
    let rest = split_underscore s in if code c == b'_' then some ("", s) else push_left c rest

abbrev pub both_present : Option (String × String) → Option (String × String)
both_present none = none
both_present (some parts) = if parts.0 == "" || parts.1 == "" then none else some parts

unfoldable pub parse_token : String → Option (String × String)
unfolding has_prefix drop_prefix split_underscore
parse_token token =
    if has_prefix token_prefix token
    then both_present (split_underscore (drop_prefix token_prefix token))
    else none

pub record Service : Type 0 where
  pub hash_secret : String → String
  pub add_days : Time → ℕ → Time

pub record Draws : Type 0 where
  pub token_id : Result Error String
  pub secret : Result Error String

abbrev pub expiry : ℕ → ℕ
expiry days = if days == 0 then 90 else days

unfoldable pub issue_token : Service → String → ℕ → Draws → Time → Exec MemoryStore Error String
issue_token sv account days draws now = do
  refuse (ltb (expiry days) 1 || ltb 365 (expiry days)) invalid_expiry
  token_id ← lift draws.token_id
  secret ← lift draws.secret
  let token : Token = record {
    id = token_id;
    service_account_id = account;
    created_at = now;
    expires_at = sv.add_days now (expiry days);
    last_used_at = none;
    last_used_ip = "";
    revoked_at = none;
  }
  (λ s. create_token s token (sv.hash_secret secret))
  pure (append token_prefix (append token_id (append "_" secret)))

unfoldable pub create :
    Service
    → String
    → String
    → String
    → SiteRole
    → ℕ
    → Result Error String
    → Draws
    → Time
    → Time
    → Exec MemoryStore Error (ServiceAccount × String)
unfolding issue_token
create sv organization site name role days new_id draws now₁ now₂ = do
  refuse
      (not (role == site_role_admin)
        && not (role == site_role_operator)
        && not (role == site_role_viewer))
      invalid_role
  id ← lift new_id
  let account : ServiceAccount = record {
    id = id;
    organization_id = organization;
    site_id = site;
    name = name;
    role = role;
    created_at = now₁;
    disabled_at = none;
  }
  (λ s. create_account s account)
  token ← issue_token sv id days draws now₂
  pure (account, token)

unfoldable pub rotate :
    Service → String → String → ℕ → Draws → Time → Time → Exec MemoryStore Error String
unfolding issue_token
rotate sv site account_id days draws now₁ now₂ = do
  account ← reads (λ s. account_by_id s account_id)
  refuse (not (account.site_id == site)) account_not_found
  (λ s. revoke_active_tokens s account_id now₁)
  issue_token sv account_id days draws now₂

unfoldable pub revoke : String → String → Time → Exec MemoryStore Error (Unit {0})
revoke site token_id now = do
  found ← reads (λ s. token_by_id s token_id)
  account ← reads (λ s. account_by_id s found.token.service_account_id)
  refuse (not (account.site_id == site)) token_not_found
  (λ s. revoke_token s token_id now)

unfoldable pub disable : String → String → Time → Time → Exec MemoryStore Error (Unit {0})
disable site account_id now₁ now₂ = do
  account ← reads (λ s. account_by_id s account_id)
  refuse (not (account.site_id == site)) account_not_found
  (λ s. revoke_active_tokens s account_id now₁)
  (λ s. disable_account s account_id now₂)

-- Validate, once the token's record and account are read.
unfoldable pub admit :
    Service → String → String → Time → Time → TokenRecord → Exec MemoryStore Error ServiceAccount
admit sv secret ip now₁ now₂ r = do
  refuse (not (sv.hash_secret secret == r.secret_hash)) token_not_found
  refuse (is_some r.token.revoked_at) token_revoked
  refuse (after now₁ r.token.expires_at) token_expired
  account ← reads (λ s. account_by_id s r.token.service_account_id)
  refuse (is_some account.disabled_at) account_disabled
  (λ s. touch_token s r.token.id now₂ ip)
  pure account

abbrev pub validate_parts :
    Service
    → String
    → Time
    → Time
    → Option (String × String)
    → Exec MemoryStore Error ServiceAccount
validate_parts sv ip now₁ now₂ none = fail token_not_found
validate_parts sv ip now₁ now₂ (some parts) = do
  r ← reads (λ s. token_by_id s parts.0)
  admit sv parts.1 ip now₁ now₂ r

unfoldable pub validate :
    Service → String → String → Time → Time → Exec MemoryStore Error ServiceAccount
validate sv presented ip now₁ now₂ = validate_parts sv ip now₁ now₂ (parse_token presented)
