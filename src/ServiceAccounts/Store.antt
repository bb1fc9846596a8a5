-- ===== src/ServiceAccounts/Store.antt =====
-- The methods of serviceaccounts.MemoryStore.
use bazusop.Base.{
  String, Bool, true, false, not, ◌&&◌, List, [], ◌∷◌, Option, none, some, Time, Result, ok, err,
  is_some, ◌==◌, string_comparable, filter, after, if◌then◌else◌,
}
use bazusop.Base.Assoc.{Map, lookup, insert, values, map_values}
use bazusop.ServiceAccounts.{
  Error, account_not_found, token_not_found, ServiceAccount, Token, TokenRecord, MemoryStore,
}

abbrev pub empty_store : MemoryStore
empty_store = record { accounts = []; tokens = [] }

unfoldable pub create_account : MemoryStore → ServiceAccount → MemoryStore × Result Error (Unit {0})
create_account s account = (record s { accounts = insert account.id account s.accounts }, ok tt)

abbrev pub account_of : Option ServiceAccount → Result Error ServiceAccount
account_of none = err account_not_found
account_of (some account) = ok account

unfoldable pub account_by_id : MemoryStore → String → Result Error ServiceAccount
account_by_id s id = account_of (lookup id s.accounts)

abbrev pub disabled_in :
    MemoryStore → String → Time → Option ServiceAccount → MemoryStore × Result Error (Unit {0})
disabled_in s id at none = (s, err account_not_found)
disabled_in s id at (some account) =
    (record s { accounts = insert id (record account { disabled_at = some at }) s.accounts }, ok tt)

unfoldable pub disable_account : MemoryStore → String → Time → MemoryStore × Result Error (Unit {0})
disable_account s id at = disabled_in s id at (lookup id s.accounts)

unfoldable pub accounts_for_site : MemoryStore → String → List ServiceAccount
accounts_for_site s site = filter (λ account. account.site_id == site) (values s.accounts)

abbrev of_site : String → Option ServiceAccount → Bool
of_site site none = false
of_site site (some account) = account.site_id == site

abbrev newer : Token → Option Token → Bool
newer token none = true
newer token (some existing) = after token.created_at existing.created_at

-- The loop of ActiveTokensForSite, with the map that it has built so far.
unfoldable pub active_tokens :
    MemoryStore → String → Map String Token → List TokenRecord → Map String Token
active_tokens s site result [] = result
active_tokens s site result (r ∷ rs) =
    active_tokens s site
      (if not (is_some r.token.revoked_at)
          && of_site site (lookup r.token.service_account_id s.accounts)
          && newer r.token (lookup r.token.service_account_id result)
        then insert r.token.service_account_id r.token result
        else result)
      rs

unfoldable pub active_tokens_for_site : MemoryStore → String → Map String Token
unfolding active_tokens
active_tokens_for_site s site = active_tokens s site [] (values s.tokens)

unfoldable pub create_token : MemoryStore → Token → String → MemoryStore × Result Error (Unit {0})
create_token s token secret_hash = (
  record s {
    tokens = insert token.id (record { token = token; secret_hash = secret_hash }) s.tokens;
  },
  ok tt,
)

abbrev pub token_of : Option TokenRecord → Result Error TokenRecord
token_of none = err token_not_found
token_of (some r) = ok r

unfoldable pub token_by_id : MemoryStore → String → Result Error TokenRecord
token_by_id s id = token_of (lookup id s.tokens)

abbrev pub revoked : Time → TokenRecord → TokenRecord
revoked at r = record r { token = record (r.token) { revoked_at = some at } }

abbrev pub used : Time → String → TokenRecord → TokenRecord
used at ip r = record r { token = record (r.token) { last_used_at = some at; last_used_ip = ip } }

-- RevokeToken and TouchToken write back the record that they find.
abbrev pub update :
    (TokenRecord → TokenRecord)
    → MemoryStore
    → String
    → Option TokenRecord
    → MemoryStore × Result Error (Unit {0})
update f s id none = (s, err token_not_found)
update f s id (some r) = (record s { tokens = insert id (f r) s.tokens }, ok tt)

unfoldable pub revoke_token : MemoryStore → String → Time → MemoryStore × Result Error (Unit {0})
revoke_token s id at = update (revoked at) s id (lookup id s.tokens)

unfoldable pub touch_token :
    MemoryStore → String → Time → String → MemoryStore × Result Error (Unit {0})
touch_token s id at ip = update (used at ip) s id (lookup id s.tokens)

abbrev pub revoke_if : String → Time → TokenRecord → TokenRecord
revoke_if account at r =
    if r.token.service_account_id == account && not (is_some r.token.revoked_at)
    then revoked at r
    else r

unfoldable pub revoke_active_tokens :
    MemoryStore → String → Time → MemoryStore × Result Error (Unit {0})
revoke_active_tokens s account at =
    (record s { tokens = map_values (revoke_if account at) s.tokens }, ok tt)
