-- ===== src/Identity/History.antt =====
-- What the hub can do to its users and invitations, in any order.
use bazusop.Base.{
  ℕ, not, String, List, [], ◌∷◌, Option, none, some, Time, Result, ok, err, Exec, lift, ◌>>=◌,
  Bool-cases, inl, inr, All,
}
use bazusop.Base.Keeps.{Keeps, keeps_rules}
use bazusop.Identity.{
  Bytes, Role, Error, User, IdentityType, SiteRoleGrant, Invite, OidcConfiguration, MemoryStore,
}
use bazusop.Identity.Random.{Drawn, new_id, hash_token}
use bazusop.Identity.Store.{
  user_by_oidc_identity, hash_of_id, consume_found, complete_bootstrap, create_user, save_invite,
  consume_invite, consume_invite_by_id, save_oidc_configuration, save_recovery_codes,
  consume_recovery_code,
}
use bazusop.Identity.Service.{
  Service, Draws, issue_codes, accept_invite, bootstrap, create_invite, redeem_invite, confirm_totp,
}
use bazusop.Identity.SignIn.{
  link_oidc_user, existing_or, is_invalid_credentials, with_password, verify_credentials,
  verify_credentials_with_recovery_code, login_or_link_oidc_user, set_oidc_configuration,
}

pub data Call : Type 0 where
  bootstraps : String → String → String → Draws → Time → Call
  invites :
      String
      → String
      → String
      → Role
      → List SiteRoleGrant
      → IdentityType
      → Draws
      → Time
      → Time
      → Call
  redeems : String → String → Draws → Time → Time → Time → Call
  confirms : String → (Bytes → String) → Time → Draws → Call
  logs_in : String → String → String → String → Time → Call
  recovers : String → String → String → String → Call
  links : String → String → String → String → Draws → Time → Time → Time → Call
  configures : String → String → String → String → String → String → String → Draws → Time → Call

unfoldable pub serve : Service → MemoryStore → Call → MemoryStore
serve sv s (bootstraps organization email password draws now) =
    (bootstrap sv organization email password draws now s).0
serve sv s (invites by organization email role grants t draws now₁ now₂) =
    (create_invite sv by organization email role grants t draws now₁ now₂ s).0
serve sv s (redeems token password draws now₁ now₂ now₃) =
    (redeem_invite sv token password draws now₁ now₂ now₃ s).0
serve sv s (confirms user code at draws) = (confirm_totp sv user code at draws s).0
serve sv s (logs_in organization email password code now) =
    (verify_credentials sv organization email password code now s).0
serve sv s (recovers organization email password code) =
    (verify_credentials_with_recovery_code sv organization email password code s).0
serve sv s (links organization issuer subject email draws now₁ now₂ now₃) =
    (login_or_link_oidc_user sv organization issuer subject email draws now₁ now₂ now₃ s).0
serve sv s (configures organization discovery issuer client secret redirect by draws now) =
    (set_oidc_configuration sv organization discovery issuer client secret redirect by draws now
      s).0

unfoldable pub run : Service → MemoryStore → List Call → MemoryStore
unfolding serve
run sv s [] = s
run sv s (c ∷ cs) = run sv (serve sv s c) cs

-- What is known of an identifier or a token that was drawn, if it was.
abbrev pub Of : (String → Type 0) → Result Error String → Type 0
Of D (ok text) = D text
Of D (err e) = Unit

-- The tokens of invitations that a call draws satisfy `T`, and the identifiers of users `U`.
abbrev pub Draw : Service → (String → Type 0) → (String → Type 0) → Call → Type 0
Draw sv T U (bootstraps organization email password draws now) = Of U (new_id sv.crypto draws.id)
Draw sv T U (invites by organization email role grants t draws now₁ now₂) =
    Of T (new_id sv.crypto draws.token)
Draw sv T U (redeems token password draws now₁ now₂ now₃) = Of U (new_id sv.crypto draws.id)
Draw sv T U (confirms user code at draws) = Unit
Draw sv T U (logs_in organization email password code now) = Unit
Draw sv T U (recovers organization email password code) = Unit
Draw sv T U (links organization issuer subject email draws now₁ now₂ now₃) =
    Of U (new_id sv.crypto draws.id)
Draw sv T U (configures organization discovery issuer client secret redirect by draws now) = Unit

pub Keeps-Of :
    {A : Type 0} {P : MemoryStore → Type 0} (D : String → Type 0) (r : Result Error String)
    (next : String → Exec MemoryStore Error A)
    → Of D r
    → ((text : String) → D text → Keeps P (next text))
    → Keeps P (lift r >>= next)
Keeps-Of D (ok text) next d kept = record { at = λ s p. (kept text d).at s p }
Keeps-Of D (err e) next d kept = record { at = λ s p. p }

-- What every step of the store keeps, if the users that it enters are drawn from `U` and the tokens
-- from `T`, is kept by every call. A confirmation is left to the property.
pub record Lasting (sv : Service) (T U : String → Type 0) (P : MemoryStore → Type 0) : Type 0 where
  pub at_bootstrap : (user : User) → U user.id → Keeps P (λ s. complete_bootstrap s user)
  pub at_user : (user : User) → U user.id → Keeps P (λ s. create_user s user)
  pub at_invite :
      (invite : Invite) (token : String)
      → T token
      → Keeps P (λ s. save_invite s invite (hash_token sv.crypto token))
  pub at_consumption : (hash : String) (at : Time) → Keeps P (λ s. consume_invite s hash at)
  pub at_oidc : (config : OidcConfiguration) → Keeps P (λ s. save_oidc_configuration s config)
  pub at_codes :
      (id : String) (hashes : List String) → U id → Keeps P (λ s. save_recovery_codes s id hashes)
  pub at_code : (id hash : String) → Keeps P (λ s. consume_recovery_code s id hash)
  pub at_confirmation :
      (user : String) (code : Bytes → String) (at : Time) (draws : Draws)
      → Keeps P (confirm_totp sv user code at draws)

pub with_password-Keeps :
    (P : MemoryStore → Type 0) (sv : Service) (organization email password : String)
    → Keeps P (with_password sv organization email password)
unfolding with_password
with_password-Keeps P sv organization email password = search (keeps_rules) depth 12

module _ (sv : Service) (T U : String → Type 0) (P : MemoryStore → Type 0) where
  issue_codes-Lasting :
      (id : String) (drawn : ℕ → Drawn)
      → Lasting sv T U P
      → U id
      → Keeps P (issue_codes sv id drawn)
  unfolding issue_codes
  issue_codes-Lasting id drawn l u =
      let saves = λ (hashes : List String). l.at_codes id hashes u in
      search (keeps_rules, saves) depth 12

  bootstrap-Lasting :
      (organization email password : String) (draws : Draws) (now : Time)
      → Lasting sv T U P
      → Of U (new_id sv.crypto draws.id)
      → Keeps P (bootstrap sv organization email password draws now)
  unfolding bootstrap
  bootstrap-Lasting organization email password draws now l u =
      let enters = l.at_bootstrap in
      search (keeps_rules, Keeps-Of U, enters, issue_codes-Lasting) depth 20

  create_invite-Lasting :
      (by organization email : String) (role : Role) (grants : List SiteRoleGrant)
      (t : IdentityType) (draws : Draws) (now₁ now₂ : Time)
      → Lasting sv T U P
      → Of T (new_id sv.crypto draws.token)
      → Keeps P (create_invite sv by organization email role grants t draws now₁ now₂)
  unfolding create_invite
  create_invite-Lasting by organization email role grants t draws now₁ now₂ l d =
      let saves = l.at_invite in search (keeps_rules, Keeps-Of T, saves) depth 20

  accept_invite-Lasting :
      (hash password : String) (draws : Draws) (now₁ now₂ now₃ : Time) (invite : Invite)
      → Lasting sv T U P
      → Of U (new_id sv.crypto draws.id)
      → Keeps P (accept_invite sv hash password draws now₁ now₂ now₃ invite)
  unfolding accept_invite
  accept_invite-Lasting hash password draws now₁ now₂ now₃ invite l u =
      let enters = l.at_user in
      let consumes = l.at_consumption in search (keeps_rules, Keeps-Of U, enters, consumes) depth 20

  redeem_invite-Lasting :
      (token password : String) (draws : Draws) (now₁ now₂ now₃ : Time)
      → Lasting sv T U P
      → Of U (new_id sv.crypto draws.id)
      → Keeps P (redeem_invite sv token password draws now₁ now₂ now₃)
  unfolding redeem_invite
  redeem_invite-Lasting token password draws now₁ now₂ now₃ l u =
      search (keeps_rules, accept_invite-Lasting) depth 12

  consume_invite_by_id-Lasting :
      (id : String) (at : Time) → Lasting sv T U P → Keeps P (λ s. consume_invite_by_id s id at)
  unfolding consume_invite_by_id
  consume_invite_by_id-Lasting id at l = record { at = λ s p. go s p (hash_of_id id s.invites) }
    where
      go : (s : MemoryStore) → P s → (o : Option String) → P (consume_found s at o).0
      go s p none = p
      go s p (some hash) = (l.at_consumption hash at).at s p

  link_oidc_user-Lasting :
      (organization issuer subject email : String) (draws : Draws) (now₁ now₂ now₃ : Time)
      → Lasting sv T U P
      → Of U (new_id sv.crypto draws.id)
      → Keeps P (link_oidc_user sv organization issuer subject email draws now₁ now₂ now₃)
  unfolding link_oidc_user
  link_oidc_user-Lasting organization issuer subject email draws now₁ now₂ now₃ l u =
      let enters = l.at_user in
      search (keeps_rules, Keeps-Of U, enters, consume_invite_by_id-Lasting) depth 20

  login_or_link_oidc_user-Lasting :
      (organization issuer subject email : String) (draws : Draws) (now₁ now₂ now₃ : Time)
      → Lasting sv T U P
      → Of U (new_id sv.crypto draws.id)
      → Keeps P (login_or_link_oidc_user sv organization issuer subject email draws now₁ now₂ now₃)
  unfolding login_or_link_oidc_user
  login_or_link_oidc_user-Lasting organization issuer subject email draws now₁ now₂ now₃ l u =
      record { at = λ s p. go s p (user_by_oidc_identity s organization issuer subject) }
    where
      go :
          (s : MemoryStore)
          → P s
          → (r : Result Error User)
          → P
              (existing_or r
                (link_oidc_user sv organization issuer subject email draws now₁ now₂ now₃)
                s).0
      go s p (ok user) = p
      go s p (err e) = elim (Bool-cases (not (is_invalid_credentials e))) [
        | inl t ↦ rw t p
        | inr f ↦ rw f (
            (link_oidc_user-Lasting organization issuer subject email draws now₁ now₂ now₃ l u).at s
              p)
      ]

  login-Keeps :
      (organization email password code : String) (now : Time)
      → Keeps P (verify_credentials sv organization email password code now)
  unfolding verify_credentials
  login-Keeps organization email password code now =
      search (keeps_rules, with_password-Keeps) depth 12

  recovery-Lasting :
      (organization email password code : String)
      → Lasting sv T U P
      → Keeps P (verify_credentials_with_recovery_code sv organization email password code)
  unfolding verify_credentials_with_recovery_code
  recovery-Lasting organization email password code l =
      let uses = l.at_code in search (keeps_rules, with_password-Keeps, uses) depth 12

  configuration-Lasting :
      (organization discovery issuer client secret redirect by : String) (draws : Draws)
      (now : Time)
      → Lasting sv T U P
      → Keeps P (
          set_oidc_configuration sv organization discovery issuer client secret redirect by draws
            now)
  unfolding set_oidc_configuration
  configuration-Lasting organization discovery issuer client secret redirect by draws now l =
      let saves = l.at_oidc in search (keeps_rules, saves) depth 12

  serve-Lasting :
      (s : MemoryStore) (c : Call) → Lasting sv T U P → Draw sv T U c → P s → P (serve sv s c)
  unfolding serve
  serve-Lasting s (bootstraps organization email password draws now) l d =
      (bootstrap-Lasting organization email password draws now l d).at s
  serve-Lasting s (invites by organization email role grants t draws now₁ now₂) l d =
      (create_invite-Lasting by organization email role grants t draws now₁ now₂ l d).at s
  serve-Lasting s (redeems token password draws now₁ now₂ now₃) l d =
      (redeem_invite-Lasting token password draws now₁ now₂ now₃ l d).at s
  serve-Lasting s (confirms user code at draws) l d = (l.at_confirmation user code at draws).at s
  serve-Lasting s (logs_in organization email password code now) l d =
      (login-Keeps organization email password code now).at s
  serve-Lasting s (recovers organization email password code) l d =
      (recovery-Lasting organization email password code l).at s
  serve-Lasting s (links organization issuer subject email draws now₁ now₂ now₃) l d =
      (login_or_link_oidc_user-Lasting organization issuer subject email draws now₁ now₂ now₃ l
          d).at
        s
  serve-Lasting s (configures organization discovery issuer client secret redirect by draws now) l
        d =
      (configuration-Lasting organization discovery issuer client secret redirect by draws now l).at
        s

  pub run-Lasting :
      (s : MemoryStore) (cs : List Call)
      → Lasting sv T U P
      → All (Draw sv T U) cs
      → P s
      → P (run sv s cs)
  unfolding run
  run-Lasting s [] l d p = p
  run-Lasting s (c ∷ cs) l d p = run-Lasting (serve sv s c) cs l d.1 (serve-Lasting s c l d.0 p)
