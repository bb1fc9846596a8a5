-- ===== src/ServiceAccounts/Issued.antt =====
-- An issued token: what ParseToken and Validate make of its text.
use bazusop.Base.{
  ◌≤◌, ℕ, String, false, true, ◌||◌, ◌≡◌, ◌≢◌, refl, subst, none, some, Time, ok, arith, Bool-cases,
  inl, inr, ltb, after, ==_refl, ◌==◌, string_comparable,
}
use bazusop.Base.Assoc.{lookup, insert, lookup-insert_self}
use bazusop.Authorization.Store.{append}
use bazusop.ServiceAccounts.{ServiceAccount, TokenRecord, MemoryStore}
use bazusop.ServiceAccounts.Store.{create_token, account_by_id, token_by_id, touch_token}
use bazusop.ServiceAccounts.Service.{
  Service, Draws, token_prefix, parse_token, expiry, issue_token, admit, validate,
}
use bazusop.ServiceAccounts.Tokens.{has_underscore, parse_token-append}

-- If a token is issued whose drawn identifier has no underscore, and neither that nor the drawn secret is
-- empty, then ParseToken reads both back from the text that is handed out; and if its account is stored and
-- not disabled, Validate takes that text for the account, on the store that issuing leaves, until the token
-- expires.
pub validate-issue_token :
    (sv : Service) (s : MemoryStore) (account_id id secret token ip : String) (days : ℕ)
    (draws : Draws) (now now₁ now₂ : Time) (account : ServiceAccount)
    → draws.token_id ≡ ok id
    → draws.secret ≡ ok secret
    → has_underscore id ≡ false
    → id ≢ ""
    → secret ≢ ""
    → lookup account_id s.accounts ≡ some account
    → account.disabled_at ≡ none
    → now₁ ≤ sv.add_days now (expiry days)
    → (issue_token sv account_id days draws now s).1 ≡ ok token
    → (parse_token token ≡ some (id, secret))
      × ((validate sv token ip now₁ now₂ (issue_token sv account_id days draws now s).0).1
          ≡ ok account)
unfolding issue_token create_token validate admit account_by_id token_by_id touch_token
validate-issue_token sv s account_id id secret token ip days draws now now₁ now₂ account d e plain
      named kept stored live early h =
    elim (Bool-cases (ltb (expiry days) 1 || ltb 365 (expiry days))) [
      | inl t ↦ absurd (let b = rw t at h in cc)
      | inr f ↦
          let b = rw (f, d, e) at h in
          let text : append token_prefix (append id (append "_" secret)) ≡ token = cc in
          let parsed : parse_token token ≡ some (id, secret) =
            subst (λ x. parse_token x ≡ some (id, secret)) text
              (parse_token-append id secret plain named kept) in
          let record_of : TokenRecord = record {
            token = record {
              id = id;
              service_account_id = account_id;
              created_at = now;
              expires_at = sv.add_days now (expiry days);
              last_used_at = none;
              last_used_ip = "";
              revoked_at = none;
            };
            secret_hash = sv.hash_secret secret;
          } in
          let found : lookup id (insert id record_of s.tokens) ≡ some record_of =
            lookup-insert_self id record_of s.tokens in
          let in_time : after now₁ (sv.add_days now (expiry days)) ≡ false = ground arith in
          let same : (sv.hash_secret secret == sv.hash_secret secret) ≡ true =
            ==_refl (sv.hash_secret secret) in
          (parsed, rw (parsed, f, d, e, found, same, in_time, stored, live, found) refl)
    ]
