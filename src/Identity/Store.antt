-- ===== src/Identity/Store.antt =====
-- The methods of identity.MemoryStore. The store's mutex makes each of them one step.
use bazusop.Base.{
  String, Bool, true, false, not, ◌||◌, List, [], ◌∷◌, Option, none, some, Result, ok, err, ◌==◌,
  string_comparable, string_ltb, if◌then◌else◌, Time, after, filter,
}
use bazusop.Base.Assoc.{Map, lookup, insert, values}
use bazusop.Base.Sort.{sort_by}
use bazusop.Authorization.Store.{append}
use bazusop.Identity.{
  Error, already_bootstrapped, invite_not_found, invalid_credentials, oidc_not_configured, User,
  Invite, InviteRecord, OidcConfiguration, MemoryStore,
}

abbrev pub empty_store : MemoryStore
empty_store = record {
  bootstrapped = false;
  users_by_id = [];
  users_by_email = [];
  users_by_oidc = [];
  invites = [];
  recovery_hashes = [];
  oidc_configs = [];
}

unfoldable pub email_key : String → String → String
unfolding append
email_key organization_id email = append organization_id (append "\0" email)

unfoldable pub oidc_key : String → String → String → String
unfolding append
oidc_key organization_id issuer subject =
    append organization_id (append "\0" (append issuer (append "\0" subject)))

abbrev pub is_bootstrapped : MemoryStore → Result Error Bool
is_bootstrapped s = ok s.bootstrapped

-- The two writes that enter a user.
abbrev pub enter_user : User → MemoryStore → MemoryStore
enter_user user s = record s {
  users_by_id = insert user.id user s.users_by_id;
  users_by_email = insert (email_key user.organization_id user.email) user.id s.users_by_email;
}

unfoldable pub complete_bootstrap : MemoryStore → User → MemoryStore × Result Error (Unit {0})
complete_bootstrap s user =
    if s.bootstrapped
    then (s, err already_bootstrapped)
    else (enter_user user (record s { bootstrapped = true }), ok tt)

abbrev pub enter_subject : User → MemoryStore → MemoryStore
enter_subject user s =
    if not (user.oidc_subject == "")
    then record s {
      users_by_oidc =
          insert (oidc_key user.organization_id user.oidc_issuer user.oidc_subject) user.id
            s.users_by_oidc;
    }
    else s

unfoldable pub create_user : MemoryStore → User → MemoryStore × Result Error (Unit {0})
create_user s user = (enter_subject user (enter_user user s), ok tt)

-- The zero User that Go's `store.usersByID[id]` reads for a missing key.
abbrev pub zero_user : User
zero_user = record {
  id = "";
  organization_id = "";
  email = "";
  role = "";
  password_hash = "";
  totp_secret_encrypted = [];
  totp_confirmed_at = none;
  oidc_issuer = "";
  oidc_subject = "";
  created_at = 0;
  disabled_at = none;
}

abbrev pub or_zero : Option User → User
or_zero none = zero_user
or_zero (some user) = user

abbrev pub user_at : MemoryStore → Option String → Result Error User
user_at s none = err invalid_credentials
user_at s (some id) = ok (or_zero (lookup id s.users_by_id))

unfoldable pub user_by_email : MemoryStore → String → String → Result Error User
user_by_email s organization_id email =
    user_at s (lookup (email_key organization_id email) s.users_by_email)

unfoldable pub user_by_oidc_identity : MemoryStore → String → String → String → Result Error User
user_by_oidc_identity s organization_id issuer subject =
    user_at s (lookup (oidc_key organization_id issuer subject) s.users_by_oidc)

abbrev pub found_user : Option User → Result Error User
found_user none = err invalid_credentials
found_user (some user) = ok user

unfoldable pub user_by_id : MemoryStore → String → Result Error User
user_by_id s id = found_user (lookup id s.users_by_id)

unfoldable pub update_user : MemoryStore → User → MemoryStore × Result Error (Unit {0})
update_user s user = (record s { users_by_id = insert user.id user s.users_by_id }, ok tt)

unfoldable pub save_invite : MemoryStore → Invite → String → MemoryStore × Result Error (Unit {0})
save_invite s invite token_hash = (
  record s {
    invites = insert token_hash (record { invite = invite; token_hash = token_hash }) s.invites;
  },
  ok tt,
)

abbrev pub invite_of : Option InviteRecord → Result Error Invite
invite_of none = err invite_not_found
invite_of (some r) = ok r.invite

unfoldable pub invite_by_token_hash : MemoryStore → String → Result Error Invite
invite_by_token_hash s token_hash = invite_of (lookup token_hash s.invites)

abbrev pub consumed : Time → InviteRecord → InviteRecord
consumed at r = record r { invite = record r.invite { consumed_at = some at } }

abbrev pub consume_at :
    MemoryStore → String → Time → Option InviteRecord → MemoryStore × Result Error (Unit {0})
consume_at s token_hash at none = (s, err invite_not_found)
consume_at s token_hash at (some r) =
    (record s { invites = insert token_hash (consumed at r) s.invites }, ok tt)

unfoldable pub consume_invite : MemoryStore → String → Time → MemoryStore × Result Error (Unit {0})
consume_invite s token_hash at = consume_at s token_hash at (lookup token_hash s.invites)

-- One round of the loop of InviteByEmail.
abbrev pub is_newer : Invite → Option Invite → Bool
is_newer i none = true
is_newer i (some found) = after i.created_at found.created_at

unfoldable pub latest : String → String → Option Invite → List InviteRecord → Option Invite
latest organization_id email found [] = found
latest organization_id email found (r ∷ rs) =
    latest organization_id email
      (if not (r.invite.organization_id == organization_id) || not (r.invite.email == email)
        then found
        else if is_newer r.invite found
        then some r.invite
        else found)
      rs

abbrev pub or_not_found : Option Invite → Result Error Invite
or_not_found none = err invite_not_found
or_not_found (some invite) = ok invite

unfoldable pub invite_by_email : MemoryStore → String → String → Result Error Invite
unfolding latest
invite_by_email s organization_id email =
    or_not_found (latest organization_id email none (values s.invites))

-- The token hash of the first invitation with the identifier.
unfoldable pub hash_of_id : String → Map String InviteRecord → Option String
hash_of_id id [] = none
hash_of_id id (entry ∷ m) =
    let rest = hash_of_id id m in if entry.1.invite.id == id then some entry.0 else rest

abbrev pub consume_found :
    MemoryStore → Time → Option String → MemoryStore × Result Error (Unit {0})
consume_found s at none = (s, err invite_not_found)
consume_found s at (some token_hash) = consume_invite s token_hash at

unfoldable pub consume_invite_by_id :
    MemoryStore → String → Time → MemoryStore × Result Error (Unit {0})
unfolding consume_invite hash_of_id
consume_invite_by_id s invite_id at = consume_found s at (hash_of_id invite_id s.invites)

unfoldable pub save_oidc_configuration :
    MemoryStore → OidcConfiguration → MemoryStore × Result Error (Unit {0})
save_oidc_configuration s config =
    (record s { oidc_configs = insert config.organization_id config s.oidc_configs }, ok tt)

abbrev pub configured : Option OidcConfiguration → Result Error OidcConfiguration
configured none = err oidc_not_configured
configured (some config) = ok config

unfoldable pub oidc_configuration_by_organization :
    MemoryStore → String → Result Error OidcConfiguration
oidc_configuration_by_organization s organization_id =
    configured (lookup organization_id s.oidc_configs)

-- The map of the hashes, none of them consumed.
abbrev pub unused : Map String Bool → List String → Map String Bool
unused m [] = m
unused m (hash ∷ hashes) = unused (insert hash false m) hashes

unfoldable pub save_recovery_codes :
    MemoryStore → String → List String → MemoryStore × Result Error (Unit {0})
save_recovery_codes s user_id code_hashes =
    (record s { recovery_hashes = insert user_id (unused [] code_hashes) s.recovery_hashes }, ok tt)

abbrev pub use_code :
    MemoryStore → String → String → Map String Bool → Option Bool → MemoryStore × Result Error Bool
use_code s user_id code_hash hashes none = (s, ok false)
use_code s user_id code_hash hashes (some true) = (s, ok false)
use_code s user_id code_hash hashes (some false) = (
  record s { recovery_hashes = insert user_id (insert code_hash true hashes) s.recovery_hashes },
  ok true,
)

abbrev pub use_code_of :
    MemoryStore → String → String → Option (Map String Bool) → MemoryStore × Result Error Bool
use_code_of s user_id code_hash none = (s, ok false)
use_code_of s user_id code_hash (some hashes) =
    use_code s user_id code_hash hashes (lookup code_hash hashes)

unfoldable pub consume_recovery_code :
    MemoryStore → String → String → MemoryStore × Result Error Bool
consume_recovery_code s user_id code_hash =
    use_code_of s user_id code_hash (lookup user_id s.recovery_hashes)

unfoldable pub users_for_organization : MemoryStore → String → Result Error (List User)
users_for_organization s organization_id = ok (
    sort_by (λ i j. string_ltb i.email j.email)
      (filter (λ user. user.organization_id == organization_id) (values s.users_by_id)))
