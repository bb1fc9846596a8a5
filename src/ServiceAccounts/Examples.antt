-- ===== src/ServiceAccounts/Examples.antt =====
-- An account of a backup program, with a digest that is the identity.
use bazusop.Base.{
  ◌+◌, ◌*◌, ◌≡◌, ◌≢◌, refl, arith, String, false, [], ◌∷◌, some, none, ok, eq_iff,
  string_comparable, hour,
}
use bazusop.Base.Assoc.{lookup, insert}
use bazusop.Authorization.Store.{append}
use bazusop.ServiceAccounts.{ServiceAccount, TokenRecord, MemoryStore}
use bazusop.ServiceAccounts.Store.{
  create_account, create_token, account_by_id, token_by_id, touch_token, empty_store,
}
use bazusop.ServiceAccounts.Service.{
  Service, has_prefix, drop_prefix, split_underscore, parse_token, create, issue_token, admit,
  validate, disable,
}
use bazusop.ServiceAccounts.Tokens.{has_underscore, validate-Accepted, Accepted}
use bazusop.ServiceAccounts.Issued.{validate-issue_token}
use bazusop.ServiceAccounts.Revocation.{disable-validate}

abbrev toy : Service
toy = record { hash_secret = λ secret. secret; add_days = λ now days. now + days * (24 * hour) }

abbrev backup : ServiceAccount
backup = record {
  id = "a1";
  organization_id = "acme";
  site_id = "izmir";
  name = "backup";
  role = "operator";
  created_at = 1;
  disabled_at = none;
}

abbrev kept_token : TokenRecord
kept_token = record {
  token = record {
    id = "7f";
    service_account_id = "a1";
    created_at = 2;
    expires_at = 2 + 90 * (24 * hour);
    last_used_at = none;
    last_used_ip = "";
    revoked_at = none;
  };
  secret_hash = "c0ffee";
}

abbrev one : MemoryStore
one = record { accounts = ("a1", backup) ∷ []; tokens = ("7f", kept_token) ∷ [] }

create-one :
    create toy "acme" "izmir" "backup" "operator" 0
      (ok "a1")
      (record { token_id = ok "7f"; secret = ok "c0ffee" })
      1
      2
      empty_store
    ≡ (one, ok (backup, "bazusop_sat_7f_c0ffee"))
unfolding create issue_token create_account create_token insert append
create-one = refl

parsed : parse_token "bazusop_sat_7f_c0ffee" ≡ some ("7f", "c0ffee")
unfolding parse_token has_prefix drop_prefix split_underscore
parsed = refl

found : lookup "7f" one.tokens ≡ some kept_token
unfolding lookup
found = refl

known : lookup "a1" one.accounts ≡ some backup
unfolding lookup
known = refl

no-underscore : has_underscore "7f" ≡ false
unfolding has_underscore
no-underscore = refl

id-named : ◌≢◌ {A = String} "7f" ""
id-named = λ e. let t = (eq_iff "7f" "").1 e in cc

secret-named : ◌≢◌ {A = String} "c0ffee" ""
secret-named = λ e. let t = (eq_iff "c0ffee" "").1 e in cc

accepted : (validate toy "bazusop_sat_7f_c0ffee" "10.0.0.1" 5 6 one).1 ≡ ok backup
unfolding validate parse_token has_prefix drop_prefix split_underscore token_by_id admit
    account_by_id touch_token lookup
accepted = refl

abbrev opened : MemoryStore
opened = record { accounts = ("a1", backup) ∷ []; tokens = [] }

issued :
    (issue_token toy "a1" 30 (record { token_id = ok "7f"; secret = ok "c0ffee" }) 2 opened).1
    ≡ ok "bazusop_sat_7f_c0ffee"
unfolding issue_token create_token append
issued = refl

opened-known : lookup "a1" opened.accounts ≡ some backup
unfolding lookup
opened-known = refl

validate-issue_token_example :
    (parse_token "bazusop_sat_7f_c0ffee" ≡ some ("7f", "c0ffee"))
    × ((validate toy "bazusop_sat_7f_c0ffee" "10.0.0.1" 5 6
          (issue_token toy "a1" 30
            (record { token_id = ok "7f"; secret = ok "c0ffee" })
            2
            opened).0).1
        ≡ ok backup)
validate-issue_token_example =
    validate-issue_token toy opened "a1" "7f" "c0ffee" "bazusop_sat_7f_c0ffee" "10.0.0.1" 30
      (record { token_id = ok "7f"; secret = ok "c0ffee" }) 2 5 6 backup refl refl no-underscore
      id-named secret-named opened-known refl (omega arith) issued

validate-Accepted_example : Accepted toy one "bazusop_sat_7f_c0ffee" 5 backup
validate-Accepted_example =
    validate-Accepted toy one "bazusop_sat_7f_c0ffee" "10.0.0.1" 5 6 backup accepted

disable-validate_example :
    (validate toy "bazusop_sat_7f_c0ffee" "10.0.0.1" 9 9 (disable "izmir" "a1" 7 8 one).0).1
    ≢ ok backup
disable-validate_example =
    disable-validate toy one "izmir" "a1" "bazusop_sat_7f_c0ffee" "10.0.0.1" 7 8 9 9 backup
      ("7f", "c0ffee") kept_token backup known refl parsed found refl
