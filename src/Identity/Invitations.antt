-- ===== src/Identity/Invitations.antt =====
-- An invitation makes one user.
use bazusop.Base.{
  not, ◌≤◌, ◌≡◌, refl, true, false, String, Bool, List, Option, none, some, is_some, Time, Result,
  ok, err, pure, resume, Bool-cases, inl, inr, arith, All, ◌≢◌, ==_cases, ◌==◌, string_comparable,
  eq_iff,
}
use bazusop.Base.Assoc.{Map, lookup, lookup-insert, lookup-insert_self}
use bazusop.Base.Keeps.{
  Keeps, Ends, Ends-bind, Ends-then, Yields, Yields-bind, Yields-pure, Yields-unless, keeps_rules,
}
use bazusop.Identity.{
  Bytes, Error, invite_expired, User, Invite, InviteRecord, OidcConfiguration, MemoryStore,
  identity_type_oidc, TotpEnrollment,
}
use bazusop.Identity.Random.{hash_token}
use bazusop.Identity.Store.{
  complete_bootstrap, create_user, update_user, save_invite, consumed, consume_at, consume_invite,
  invite_by_token_hash, save_oidc_configuration, save_recovery_codes, consume_recovery_code,
  use_code, use_code_of,
}
use bazusop.Identity.Service.{
  Service, Draws, issue_codes, invited_user, is_spent, accept_invite, redeem_invite, confirm_totp,
}
use bazusop.Identity.History.{Call, run, Draw, Lasting, run-Lasting}

-- The invitation under the hash is consumed.
abbrev pub Consumed : String → MemoryStore → Type 0
Consumed h s =
    (r : InviteRecord) × (lookup h s.invites ≡ some r) × (is_some r.invite.consumed_at ≡ true)

-- What a step of the store does to the invitations, if it does nothing.
module _ (R : Map String InviteRecord → Type 0) where
  abbrev Apart : MemoryStore → Type 0
  Apart s = R s.invites

  bootstrap-Apart : (user : User) → Keeps Apart (λ s. complete_bootstrap s user)
  unfolding complete_bootstrap
  bootstrap-Apart user = record {
    at = λ s p. elim (Bool-cases s.bootstrapped) [ inl t ↦ rw t p | inr f ↦ rw f p ];
  }

  create_user-Apart : (user : User) → Keeps Apart (λ s. create_user s user)
  unfolding create_user
  create_user-Apart user = record {
    at = λ s p. elim (Bool-cases (not (user.oidc_subject == ""))) [
      | inl t ↦ rw t p
      | inr f ↦ rw f p
    ];
  }

  update_user-Apart : (user : User) → Keeps Apart (λ s. update_user s user)
  unfolding update_user
  update_user-Apart user = record { at = λ s p. p }

  oidc-Apart : (config : OidcConfiguration) → Keeps Apart (λ s. save_oidc_configuration s config)
  unfolding save_oidc_configuration
  oidc-Apart config = record { at = λ s p. p }

  codes-Apart :
      (id : String) (hashes : List String) → Keeps Apart (λ s. save_recovery_codes s id hashes)
  unfolding save_recovery_codes
  codes-Apart id hashes = record { at = λ s p. p }

  code-Apart : (id hash : String) → Keeps Apart (λ s. consume_recovery_code s id hash)
  unfolding consume_recovery_code
  code-Apart id hash = record { at = λ s p. go s p (lookup id s.recovery_hashes) }
    where
      use_it :
          (s : MemoryStore)
          → Apart s
          → (m : Map String Bool) (o : Option Bool) → Apart (use_code s id hash m o).0
      use_it s p m none = p
      use_it s p m (some true) = p
      use_it s p m (some false) = p

      go :
          (s : MemoryStore)
          → Apart s
          → (o : Option (Map String Bool)) → Apart (use_code_of s id hash o).0
      go s p none = p
      go s p (some m) = use_it s p m (lookup hash m)

  confirm-Apart :
      (sv : Service) (user : String) (code : Bytes → String) (at : Time) (draws : Draws)
      → Keeps Apart (confirm_totp sv user code at draws)
  unfolding confirm_totp issue_codes
  confirm-Apart sv user code at draws =
      search (keeps_rules, update_user-Apart, codes-Apart) depth 20

consume_invite-Consumed :
    (h hash : String) (at : Time) → Keeps (Consumed h) (λ s. consume_invite s hash at)
unfolding consume_invite
consume_invite-Consumed h hash at = record { at = λ s p. go s p (lookup hash s.invites) refl }
  where
    go :
        (s : MemoryStore)
        → Consumed h s
        → (o : Option InviteRecord) → lookup hash s.invites ≡ o
        → Consumed h (consume_at s hash at o).0
    go s p none e = p
    go s p (some r) e = elim (==_cases hash h) [
      | inl (t, same) ↦
          (consumed at r, rw (lookup-insert s.invites hash (consumed at r) h, t) refl, refl)
      | inr (f, n) ↦ (p.0, rw (lookup-insert s.invites hash (consumed at r) h, f) p.1, p.2)
    ]

save_invite-Consumed :
    (h hash : String) (invite : Invite)
    → hash ≢ h
    → Keeps (Consumed h) (λ s. save_invite s invite hash)
unfolding save_invite
save_invite-Consumed h hash invite n = record {
  at = λ s p. elim (==_cases hash h) [
    | inl (t, same) ↦ absurd (n same)
    | inr (f, _) ↦ (
      p.0,
      rw (lookup-insert s.invites hash (record { invite = invite; token_hash = hash }) h, f) p.1,
      p.2,
    )
  ];
}

-- The tokens that are drawn have other hashes.
abbrev pub Misses : Service → String → String → Type 0
Misses sv h token = hash_token sv.crypto token ≢ h

Consumed-Lasting :
    (sv : Service) (h : String) → Lasting sv (Misses sv h) (λ _. Unit {0}) (Consumed h)
Consumed-Lasting sv h = record {
  at_bootstrap = λ user _. bootstrap-Apart (holds h) user;
  at_user = λ user _. create_user-Apart (holds h) user;
  at_invite = λ invite token n. save_invite-Consumed h (hash_token sv.crypto token) invite n;
  at_consumption = consume_invite-Consumed h;
  at_oidc = oidc-Apart (holds h);
  at_codes = λ id hashes _. codes-Apart (holds h) id hashes;
  at_code = code-Apart (holds h);
  at_confirmation = confirm-Apart (holds h) sv;
}
  where
    holds : String → Map String InviteRecord → Type 0
    holds h m = (r : InviteRecord) × (lookup h m ≡ some r) × (is_some r.invite.consumed_at ≡ true)

consume_invite-Ends :
    (hash : String) (at : Time) → Ends (Consumed hash) (λ s. consume_invite s hash at)
unfolding consume_invite
consume_invite-Ends hash at = record { at = λ s a e. go s (lookup hash s.invites) a e }
  where
    go :
        (s : MemoryStore) (o : Option InviteRecord) (a : Unit {0})
        → (consume_at s hash at o).1 ≡ ok a
        → Consumed hash (consume_at s hash at o).0
    go s none a e = cc
    go s (some r) a e = (consumed at r, lookup-insert_self hash (consumed at r) s.invites, refl)

pub accept_invite-Ends :
    (sv : Service) (hash password : String) (draws : Draws) (now₁ now₂ now₃ : Time)
    (invite : Invite)
    → Ends (Consumed hash) (accept_invite sv hash password draws now₁ now₂ now₃ invite)
unfolding accept_invite
accept_invite-Ends sv hash password draws now₁ now₂ now₃ invite =
    search (Ends-bind, Ends-then, consume_invite-Ends, keeps_rules) depth 24

redeem_invite-Ends :
    (sv : Service) (token password : String) (draws : Draws) (now₁ now₂ now₃ : Time)
    → Ends
        (Consumed (hash_token sv.crypto token))
        (redeem_invite sv token password draws now₁ now₂ now₃)
unfolding redeem_invite
redeem_invite-Ends sv token password draws now₁ now₂ now₃ = search (Ends-bind, accept_invite-Ends)

redeem_invite-spent :
    (sv : Service) (s : MemoryStore) (token password : String) (draws : Draws)
    (now₁ now₂ now₃ : Time)
    → Consumed (hash_token sv.crypto token) s
    → redeem_invite sv token password draws now₁ now₂ now₃ s ≡ (s, err invite_expired)
unfolding redeem_invite invite_by_token_hash accept_invite
redeem_invite-spent sv s token password draws now₁ now₂ now₃ (r, found, used) =
    rw (found, used) refl

-- An invitation makes one user: once its token has been redeemed, every later attempt to redeem it is
-- refused as expired and changes nothing, whatever was called in between, as long as no later
-- invitation draws a token with the same hash.
pub redeem_invite-once :
    (sv : Service) (s : MemoryStore) (cs : List Call) (token password again : String)
    (first second : Draws) (now₁ now₂ now₃ at₁ at₂ at₃ : Time) (a : User × TotpEnrollment)
    → let (s', answer) = redeem_invite sv token password first now₁ now₂ now₃ s in
      answer ≡ ok a
      → All (Draw sv (Misses sv (hash_token sv.crypto token)) (λ _. Unit {0})) cs
      → redeem_invite sv token again second at₁ at₂ at₃ (run sv s' cs)
        ≡ (run sv s' cs, err invite_expired)
redeem_invite-once sv s cs token password again first second now₁ now₂ now₃ at₁ at₂ at₃ a e d =
    let s' = (redeem_invite sv token password first now₁ now₂ now₃ s).0 in
    let hash = hash_token sv.crypto token in
    redeem_invite-spent sv (run sv s' cs) token again second at₁ at₂ at₃ (
      run-Lasting sv (Misses sv hash) (λ _. Unit {0}) (Consumed hash) s' cs
        (Consumed-Lasting sv hash) d
        ((redeem_invite-Ends sv token password first now₁ now₂ now₃).at s a e))

-- The user is the one that the invitation is for.
abbrev pub Invited : Invite → Time → User → Type 0
Invited i now u =
    (u.organization_id ≡ i.organization_id)
    × (u.email ≡ i.email)
    × (u.role ≡ i.role)
    × (u.totp_confirmed_at ≡ none)
    × (i.consumed_at ≡ none)
    × (i.revoked_at ≡ none)
    × (now ≤ i.expires_at)
    × (i.identity_type ≢ identity_type_oidc)

unspent :
    (i : Invite) (now : Time)
    → is_spent i now ≡ false
    → (i.consumed_at ≡ none) × (i.revoked_at ≡ none) × (now ≤ i.expires_at)
unspent i now h = (ground arith, ground arith, ground arith)

accept_invite-Invited :
    (sv : Service) (hash password : String) (draws : Draws) (now₁ now₂ now₃ : Time) (i : Invite)
    → Yields
        (λ (a : User × TotpEnrollment). Invited i now₁ a.0)
        (accept_invite sv hash password draws now₁ now₂ now₃ i)
unfolding accept_invite
accept_invite-Invited sv hash password draws now₁ now₂ now₃ i =
    Yields-unless (is_spent i now₁) invite_expired _ λ fresh.
      Yields-unless (i.identity_type == identity_type_oidc) _ _ λ local.
        let (a, b, c) = unspent i now₁ fresh in
        let apart : i.identity_type ≢ identity_type_oidc =
          λ e. ground (arith, eq_iff i.identity_type identity_type_oidc) in
        let returned : (h : String) (e : Bytes) (id : String) (t : TotpEnrollment)
            → Yields {S = MemoryStore} {E = Error}
                (λ (a : User × TotpEnrollment). Invited i now₁ a.0)
                (pure (invited_user i h e id now₂, t)) =
          λ h e id t.
            Yields-pure (invited_user i h e id now₂, t) (refl, refl, refl, refl, a, b, c, apart) in
        search (Yields-bind, returned) depth 20

-- What redeeming a token returns is the user of a stored invitation under the token's hash, with its
-- organization, email address and role and without a confirmed second factor; the invitation was neither
-- consumed nor revoked nor past its expiry, and not for single sign-on.
pub redeem_invite-Invited :
    (sv : Service) (s : MemoryStore) (token password : String) (draws : Draws)
    (now₁ now₂ now₃ : Time) (a : User × TotpEnrollment)
    → (redeem_invite sv token password draws now₁ now₂ now₃ s).1 ≡ ok a
    → (i : Invite) × (invite_by_token_hash s (hash_token sv.crypto token) ≡ ok i)
      × Invited i now₁ a.0
unfolding redeem_invite
redeem_invite-Invited sv s token password draws now₁ now₂ now₃ a e =
    go (invite_by_token_hash s (hash_token sv.crypto token)) e
  where
    go :
        (r : Result Error Invite)
        → (resume r
            (accept_invite sv (hash_token sv.crypto token) password draws now₁ now₂ now₃)
            s).1
          ≡ ok a
        → (i : Invite) × (r ≡ ok i) × Invited i now₁ a.0
    go (ok i) e = (
      i,
      refl,
      (accept_invite-Invited sv (hash_token sv.crypto token) password draws now₁ now₂ now₃ i).at s a
          e,
    )
    go (err x) e = cc
