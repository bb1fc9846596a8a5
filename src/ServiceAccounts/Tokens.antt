-- ===== src/ServiceAccounts/Tokens.antt =====
-- Tokens as texts, and what Validate's acceptance of one means.
use Prim.Native.Char.{code}
use bazusop.Base.{
  ◌≤◌, String, Bool, false, ◌||◌, ◌≡◌, ◌≢◌, refl, Option, none, some, Time, ok, arith, resume, ◌==◌,
  ==_false, eq_iff, nat_comparable, string_comparable,
}
use bazusop.Base.Assoc.{lookup}
use bazusop.Authorization.Store.{append}
use bazusop.ServiceAccounts.{ServiceAccount, TokenRecord, MemoryStore}
use bazusop.ServiceAccounts.Store.{account_by_id, token_of, token_by_id}
use bazusop.ServiceAccounts.Service.{
  Service, token_prefix, has_prefix, drop_prefix, split_underscore, parse_token, admit,
  validate_parts, validate,
}

-- The identifiers that the program draws are hexadecimal, so that none has an underscore.
unfoldable pub has_underscore : String → Bool
has_underscore String.[] = false
has_underscore (String.◌∷◌ c s) = code c == b'_' || has_underscore s

split-append :
    (id secret : String)
    → has_underscore id ≡ false
    → split_underscore (append id (append "_" secret)) ≡ some (id, secret)
unfolding split_underscore append has_underscore
split-append String.[] secret h = refl
split-append (String.◌∷◌ c id) secret h = rw (split-append id secret (ground arith)) (ground arith)

-- ParseToken reads back the token made of an identifier without an underscore and a secret, if neither
-- is empty.
pub parse_token-append :
    (id secret : String)
    → has_underscore id ≡ false
    → id ≢ ""
    → secret ≢ ""
    → parse_token (append token_prefix (append id (append "_" secret))) ≡ some (id, secret)
unfolding parse_token has_prefix drop_prefix append
parse_token-append id secret plain named kept =
    rw (split-append id secret plain, ==_false id "" named, ==_false secret "" kept) refl

-- The grounds on which a token's record is good at an instant, and `account` is its account.
abbrev pub IsGood : Service → MemoryStore → String → Time → TokenRecord → ServiceAccount → Type 0
IsGood sv s secret now r account =
    (sv.hash_secret secret ≡ r.secret_hash)
    × (r.token.revoked_at ≡ none)
    × (now ≤ r.token.expires_at)
    × (lookup r.token.service_account_id s.accounts ≡ some account)
    × (account.disabled_at ≡ none)

-- The presented text is a token of the store that is good.
abbrev pub Accepted : Service → MemoryStore → String → Time → ServiceAccount → Type 0
Accepted sv s presented now account =
    (parts : String × String) × (parse_token presented ≡ some parts)
    × ((r : TokenRecord) × (lookup parts.0 s.tokens ≡ some r) × IsGood sv s parts.1 now r account)

admit-IsGood :
    (sv : Service) (s : MemoryStore) (secret ip : String) (now₁ now₂ : Time) (r : TokenRecord)
    (account : ServiceAccount)
    → (admit sv secret ip now₁ now₂ r s).1 ≡ ok account
    → IsGood sv s secret now₁ r account
unfolding admit account_by_id
admit-IsGood sv s secret ip now₁ now₂ r account h =
    ground (arith, eq_iff (sv.hash_secret secret) r.secret_hash)

token-IsGood :
    (sv : Service) (s : MemoryStore) (secret ip : String) (now₁ now₂ : Time)
    (account : ServiceAccount) (o : Option TokenRecord)
    → (resume (token_of o) (admit sv secret ip now₁ now₂) s).1 ≡ ok account
    → (r : TokenRecord) × (o ≡ some r) × IsGood sv s secret now₁ r account
token-IsGood sv s secret ip now₁ now₂ account none h = cc
token-IsGood sv s secret ip now₁ now₂ account (some r) h =
    (r, refl, admit-IsGood sv s secret ip now₁ now₂ r account h)

parts-Accepted :
    (sv : Service) (s : MemoryStore) (presented ip : String) (now₁ now₂ : Time)
    (account : ServiceAccount) (o : Option (String × String))
    → parse_token presented ≡ o
    → (validate_parts sv ip now₁ now₂ o s).1 ≡ ok account
    → Accepted sv s presented now₁ account
unfolding token_by_id
parts-Accepted sv s presented ip now₁ now₂ account none p h = cc
parts-Accepted sv s presented ip now₁ now₂ account (some parts) p h =
    (parts, p, token-IsGood sv s parts.1 ip now₁ now₂ account (lookup parts.0 s.tokens) h)

-- If Validate accepts a text, it parses as a token that the store has, whose secret has the stored
-- digest, and which is neither revoked nor expired; its account is in the store, is not disabled, and is
-- what Validate returns.
pub validate-Accepted :
    (sv : Service) (s : MemoryStore) (presented ip : String) (now₁ now₂ : Time)
    (account : ServiceAccount)
    → (validate sv presented ip now₁ now₂ s).1 ≡ ok account
    → Accepted sv s presented now₁ account
unfolding validate
validate-Accepted sv s presented ip now₁ now₂ account h =
    parts-Accepted sv s presented ip now₁ now₂ account (parse_token presented) refl h
