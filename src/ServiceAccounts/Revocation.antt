-- ===== src/ServiceAccounts/Revocation.antt =====
-- Disabling an account ends its tokens.
use bazusop.Base.{
  ap, sym, ◌∙◌, String, ◌≡◌, ◌≢◌, Option, none, some, Time, ok, ==_refl, string_comparable,
}
use bazusop.Base.Assoc.{lookup, lookup-map_values}
use bazusop.ServiceAccounts.{ServiceAccount, TokenRecord, MemoryStore}
use bazusop.ServiceAccounts.Store.{account_by_id, revoke_active_tokens, revoke_if, disable_account}
use bazusop.ServiceAccounts.Service.{Service, parse_token, validate, disable}
use bazusop.ServiceAccounts.Tokens.{validate-Accepted}

-- What is stored under a token's identifier is revoked.
abbrev IsRevoked : Option TokenRecord → Type 0
IsRevoked none = ⊥
IsRevoked (some r) = r.token.revoked_at ≢ none

revoke_if-IsRevoked :
    (account : String) (at : Time) (r : TokenRecord)
    → r.token.service_account_id ≡ account
    → IsRevoked (some (revoke_if account at r))
revoke_if-IsRevoked account at r e = at_any r.token.revoked_at
  where
    at_any :
        (o : Option Time)
        → IsRevoked
            (some (revoke_if account at (record r { token = record (r.token) { revoked_at = o } })))
    at_any none = rw (e, ==_refl account) (λ q. cc)
    at_any (some t) = rw (e, ==_refl account) (λ q. cc)

clash :
    (o : Option TokenRecord) (r : TokenRecord)
    → o ≡ some r
    → r.token.revoked_at ≡ none
    → IsRevoked o
    → ⊥
clash none r e kept dead = dead
clash (some x) r e kept dead =
    dead (let same : x ≡ r = cc in ap (λ (y : TokenRecord). y.token.revoked_at) same ∙ kept)

-- A text whose token is revoked is not accepted.
validate-IsRevoked :
    (sv : Service) (s : MemoryStore) (presented ip : String) (now₁ now₂ : Time)
    (account : ServiceAccount) (parts : String × String)
    → parse_token presented ≡ some parts
    → IsRevoked (lookup parts.0 s.tokens)
    → (validate sv presented ip now₁ now₂ s).1 ≢ ok account
validate-IsRevoked sv s presented ip now₁ now₂ account parts p dead h =
    let (read, parsed, (r, found, good)) =
      validate-Accepted sv s presented ip now₁ now₂ account h in
    let same : read ≡ parts = cc in
    clash (lookup parts.0 s.tokens) r
      (ap (λ (x : String × String). lookup x.0 s.tokens) (sym same) ∙ found) good.1 dead

-- After an account is disabled, Validate accepts no text that parses as a token of that account.
pub disable-validate :
    (sv : Service) (s : MemoryStore) (site account_id presented ip : String)
    (at₁ at₂ now₁ now₂ : Time) (account : ServiceAccount) (parts : String × String)
    (r : TokenRecord) (answer : ServiceAccount)
    → lookup account_id s.accounts ≡ some account
    → account.site_id ≡ site
    → parse_token presented ≡ some parts
    → lookup parts.0 s.tokens ≡ some r
    → r.token.service_account_id ≡ account_id
    → (validate sv presented ip now₁ now₂ (disable site account_id at₁ at₂ s).0).1 ≢ ok answer
unfolding disable account_by_id revoke_active_tokens disable_account
disable-validate sv s site account_id presented ip at₁ at₂ now₁ now₂ account parts r answer known
      here parsed held own =
    validate-IsRevoked sv (disable site account_id at₁ at₂ s).0 presented ip now₁ now₂ answer parts
      parsed
      (rw
        (
          known,
          here,
          ==_refl site,
          disable_account,
          known,
          lookup-map_values (revoke_if account_id at₁) parts.0 s.tokens,
          held,
        )
        (revoke_if-IsRevoked account_id at₁ r own))
