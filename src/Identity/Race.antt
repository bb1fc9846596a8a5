-- ===== src/Identity/Race.antt =====
-- Requests that read the same invitation before one of them has consumed it.
use bazusop.Base.{
  ◌≡◌, ◌≢◌, refl, false, String, Option, none, [], some, Time, ok, ◌==◌, string_comparable,
}
use bazusop.Base.Assoc.{lookup, insert, lookup-insert_self, lookup-insert_other}
use bazusop.Identity.{Bytes, Invite, InviteRecord, MemoryStore, identity_type_oidc}
use bazusop.Identity.Random.{new_id}
use bazusop.Identity.Password.{hash_password}
use bazusop.Identity.Totp.{encrypt_totp_secret}
use bazusop.Identity.Store.{create_user, consumed, consume_invite, invite_by_token_hash, invite_of}
use bazusop.Identity.Service.{
  Service, Draws, accept_invite, is_spent, invited_user, ask, enrollment,
}

-- A request that may accept the invitation it has read: the invitation is neither consumed, revoked nor
-- past its time, it is for a local user, every draw and every hash succeeds, and the roles are granted.
-- It makes the user with these values.
pub record IsAcceptable (sv : Service) (i : Invite) (password : String) (draws : Draws) (now : Time)
    (id password_hash : String) (secret sealed : Bytes) : Type 0 where
  pub fresh : is_spent i now ≡ false
  pub local : (i.identity_type == identity_type_oidc) ≡ false
  pub hashed : hash_password sv.crypto password draws.salt ≡ ok password_hash
  pub drawn : draws.secret ≡ ok secret
  pub encrypted :
      encrypt_totp_secret sv.crypto secret sv.totp_encryption_key draws.nonce ≡ ok sealed
  pub named : new_id sv.crypto draws.id ≡ ok id
  pub granted : ask sv.site_role_grantor id i.site_role_grants ≡ ok tt

-- What a request that may accept its invitation leaves, if the invitation stands in the store: its user is
-- stored and returned, the other users are as before, and the invitation stands there still, consumed.
abbrev Accepts :
    Service
    → MemoryStore
    → String
    → Invite
    → String
    → Draws
    → Time
    → Time
    → Time
    → String
    → String
    → Bytes
    → Bytes
    → Type 0
Accepts sv s h i password draws now₁ now₂ now₃ id password_hash secret sealed =
    let (s', answer) = accept_invite sv h password draws now₁ now₂ now₃ i s in
    let user = invited_user i password_hash sealed id now₂ in
    (answer ≡ ok (user, enrollment sv i.email secret []))
    × (s'.users_by_id ≡ insert id user s.users_by_id)
    × ((r : InviteRecord) × (lookup h s'.invites ≡ some r))

accept_invite-Accepts :
    (sv : Service) (s : MemoryStore) (h : String) (i : Invite) (password : String) (draws : Draws)
    (now₁ now₂ now₃ : Time) (id password_hash : String) (secret sealed : Bytes) (r : InviteRecord)
    → lookup h s.invites ≡ some r
    → IsAcceptable sv i password draws now₁ id password_hash secret sealed
    → Accepts sv s h i password draws now₁ now₂ now₃ id password_hash secret sealed
unfolding accept_invite create_user consume_invite
accept_invite-Accepts sv s h i password draws now₁ now₂ now₃ id password_hash secret sealed r found
      a =
    rw (a.fresh, a.local, a.hashed, a.drawn, a.encrypted, a.named, a.granted, found)
      (refl, refl, (consumed now₃ r, lookup-insert_self h (consumed now₃ r) s.invites))

present :
    (s : MemoryStore) (h : String) (i : Invite)
    → invite_by_token_hash s h ≡ ok i
    → (r : InviteRecord) × (lookup h s.invites ≡ some r)
unfolding invite_by_token_hash
present s h i e = go (lookup h s.invites) refl e
  where
    go :
        (o : Option InviteRecord)
        → lookup h s.invites ≡ o
        → invite_of o ≡ ok i
        → (r : InviteRecord) × (lookup h s.invites ≡ some r)
    go none l e = absurd (let b = e in cc)
    go (some r) l e = (r, l)

-- Reading an invitation and consuming it are two calls of the store, and the second does not look whether
-- the invitation is consumed by now. Of two requests that have both read a fresh invitation, and that run
-- on one after the other with draws and grants that succeed, each is answered with its own user, and in the
-- end the users of both are stored, if their drawn identifiers differ: one invitation makes two users.
pub accept_invite-twice :
    (sv : Service) (s : MemoryStore) (h : String) (i : Invite) (password again : String)
    (first second : Draws) (now₁ now₂ now₃ at₁ at₂ at₃ : Time) (id password_hash : String)
    (secret sealed : Bytes) (id' password_hash' : String) (secret' sealed' : Bytes)
    → invite_by_token_hash s h ≡ ok i
    → IsAcceptable sv i password first now₁ id password_hash secret sealed
    → IsAcceptable sv i again second at₁ id' password_hash' secret' sealed'
    → id ≢ id'
    → let (s', answer) = accept_invite sv h password first now₁ now₂ now₃ i s in
      let (s'', answer') = accept_invite sv h again second at₁ at₂ at₃ i s' in
      let user = invited_user i password_hash sealed id now₂ in
      let user' = invited_user i password_hash' sealed' id' at₂ in
      (answer ≡ ok (user, enrollment sv i.email secret []))
      × (answer' ≡ ok (user', enrollment sv i.email secret' []))
      × (lookup id s''.users_by_id ≡ some user)
      × (lookup id' s''.users_by_id ≡ some user')
accept_invite-twice sv s h i password again first second now₁ now₂ now₃ at₁ at₂ at₃ id password_hash
      secret sealed id' password_hash' secret' sealed' found a a' apart =
    let s' = (accept_invite sv h password first now₁ now₂ now₃ i s).0 in
    let user = invited_user i password_hash sealed id now₂ in
    let user' = invited_user i password_hash' sealed' id' at₂ in
    let (r, there) = present s h i found in
    let (one, users, (r', there')) =
      accept_invite-Accepts sv s h i password first now₁ now₂ now₃ id password_hash secret sealed r
        there a in
    let (two, users', _) =
      accept_invite-Accepts sv s' h i again second at₁ at₂ at₃ id' password_hash' secret' sealed' r'
        there' a' in
    (
      one,
      two,
      rw
          (
            users',
            lookup-insert_other s'.users_by_id id' user' id (λ e. apart (let b = e in cc)),
            users,
          )
          (lookup-insert_self id user s.users_by_id),
      rw users' (lookup-insert_self id' user' s'.users_by_id),
    )
