-- ===== src/Sessions/Revocation.antt =====
-- Revoked sessions stay revoked.
use bazusop.Base.{
  ◌≡◌, ◌≢◌, String, List, Option, none, some, Time, Bool, err, resume, refl, eq_iff, arith, All,
  ◌==◌, ==_refl, true, string_comparable,
}
use bazusop.Base.Assoc.{lookup, lookup-map_values, lookup-insert_self}
use bazusop.Sessions.{session_revoked, Session, SessionRecord, MemoryStore}
use bazusop.Sessions.Store.{
  session_of, session_by_token_hash, update, seen, revoked, or_zero, revoke_if, revoke_session,
  revoke_all_for_user, revoke_all_for_organization,
}
use bazusop.Sessions.Service.{Service, admit, validate, revoke, revoke_user, revoke_organization}
use bazusop.Sessions.History.{Call, run, run-Under, Draw, Lasting, Under}

-- The session is there and is revoked.
abbrev pub IsRevoked : Option SessionRecord → Type 0
IsRevoked none = ⊥
IsRevoked (some r) = r.session.revoked_at ≢ none

-- The calls draw no token with the hash of this one.
abbrev pub Fresh : Service → String → String → Type 0
Fresh sv token other = sv.hash_token other ≢ sv.hash_token token

pub IsRevoked-Lasting :
    (sv : Service) (token : String) → Lasting sv (Fresh sv token) (sv.hash_token token) IsRevoked
IsRevoked-Lasting sv token = record {
  at_seen = at_seen;
  at_revoked = λ o at h. λ e. cc;
  at_created = λ user organization id other csrf now d e. absurd (d e);
}
  where
    at_seen :
        (o : Option SessionRecord) (at : Time)
        → IsRevoked o
        → IsRevoked (some (seen at (or_zero o)))
    at_seen none at h = absurd h
    at_seen (some r) at h = h

refused :
    (sv : Service) (now : Time) (s : MemoryStore) (o : Option SessionRecord)
    → IsRevoked o
    → resume (session_of o) (admit sv now) s ≡ (s, err session_revoked)
unfolding admit
refused sv now s none h = absurd h
refused sv now s (some r) h = refused_at r.session.revoked_at h
  where
    refused_at :
        (at : Option Time)
        → at ≢ none
        → admit sv now (record (r.session) { revoked_at = at }) s ≡ (s, err session_revoked)
    refused_at none n = absurd (n refl)
    refused_at (some at) n = refl

validate-IsRevoked :
    (sv : Service) (s : MemoryStore) (token : String) (now : Time)
    → Under (sv.hash_token token) IsRevoked s
    → validate sv token now s ≡ (s, err session_revoked)
unfolding validate session_by_token_hash
validate-IsRevoked sv s token now h =
    refused sv now s (lookup (sv.hash_token token) s.by_token_hash) h

validate-later :
    (sv : Service) (s : MemoryStore) (token : String) (cs : List Call) (now : Time)
    → All (Draw (Fresh sv token)) cs
    → Under (sv.hash_token token) IsRevoked s
    → validate sv token now (run sv s cs) ≡ (run sv s cs, err session_revoked)
validate-later sv s token cs now fresh h = validate-IsRevoked sv (run sv s cs) token now (
    run-Under sv (Fresh sv token) (sv.hash_token token) IsRevoked s cs (IsRevoked-Lasting sv token)
      fresh h)

-- A logout is for good. If Revoke is called with a token of the store whose session's identifier leads
-- back to it, then after any further calls that draw no token with its hash, Validate answers that the
-- session is revoked, and changes nothing.
pub revoke-run :
    (sv : Service) (s : MemoryStore) (token : String) (r : SessionRecord) (at : Time)
    (cs : List Call) (now : Time)
    → lookup (sv.hash_token token) s.by_token_hash ≡ some r
    → lookup r.session.id s.by_id ≡ some (sv.hash_token token)
    → All (Draw (Fresh sv token)) cs
    → validate sv token now (run sv (revoke sv token at s).0 cs)
      ≡ (run sv (revoke sv token at s).0 cs, err session_revoked)
unfolding revoke session_by_token_hash revoke_session update
revoke-run sv s token r at cs now found linked fresh =
    validate-later sv (revoke sv token at s).0 token cs now fresh (
      rw
        (
          found,
          linked,
          lookup-insert_self (sv.hash_token token)
              (revoked at (or_zero (lookup (sv.hash_token token) s.by_token_hash))) s.by_token_hash,
        )
        (λ e. cc))

revoke_if-IsRevoked :
    (chosen : Session → Bool) (at : Time) (r : SessionRecord)
    → chosen r.session ≡ true
    → IsRevoked (some (revoke_if chosen at r))
revoke_if-IsRevoked chosen at r c = revoked_at r.session.revoked_at
  where
    revoked_at :
        (o : Option Time)
        → IsRevoked (
            some (
              revoke_if
                (λ _. chosen r.session)
                at
                (record r { session = record (r.session) { revoked_at = o } })))
    revoked_at none = rw c (λ e. cc)
    revoked_at (some t) = rw c (λ e. cc)

-- If a user's sessions are revoked, then after any further calls that draw no token with the hash of a
-- token of theirs, Validate answers that the token's session is revoked, and changes nothing.
pub revoke_user-run :
    (sv : Service) (s : MemoryStore) (token : String) (r : SessionRecord) (at : Time)
    (cs : List Call) (now : Time)
    → lookup (sv.hash_token token) s.by_token_hash ≡ some r
    → All (Draw (Fresh sv token)) cs
    → validate sv token now (run sv (revoke_user r.session.user_id at s).0 cs)
      ≡ (run sv (revoke_user r.session.user_id at s).0 cs, err session_revoked)
unfolding revoke_user revoke_all_for_user
revoke_user-run sv s token r at cs now found fresh =
    let chosen : Session → Bool = λ x. x.user_id == r.session.user_id in
    validate-later sv (revoke_user r.session.user_id at s).0 token cs now fresh (
      rw (lookup-map_values (revoke_if chosen at) (sv.hash_token token) s.by_token_hash, found)
        (revoke_if-IsRevoked chosen at r (==_refl r.session.user_id)))

-- If an organization's sessions are revoked, then after any further calls that draw no token with the
-- hash of a token of theirs, Validate answers that the token's session is revoked, and changes nothing.
pub revoke_organization-run :
    (sv : Service) (s : MemoryStore) (token : String) (r : SessionRecord) (at : Time)
    (cs : List Call) (now : Time)
    → lookup (sv.hash_token token) s.by_token_hash ≡ some r
    → All (Draw (Fresh sv token)) cs
    → validate sv token now (run sv (revoke_organization r.session.organization_id at s).0 cs)
      ≡ (run sv (revoke_organization r.session.organization_id at s).0 cs, err session_revoked)
unfolding revoke_organization revoke_all_for_organization
revoke_organization-run sv s token r at cs now found fresh =
    let chosen : Session → Bool = λ x. x.organization_id == r.session.organization_id in
    validate-later sv (revoke_organization r.session.organization_id at s).0 token cs now fresh (
      rw (lookup-map_values (revoke_if chosen at) (sv.hash_token token) s.by_token_hash, found)
        (revoke_if-IsRevoked chosen at r (==_refl r.session.organization_id)))

-- Revoking a user's sessions leaves those of every other user as they are.
pub revoke_user-others :
    (s : MemoryStore) (hash user : String) (r : SessionRecord) (at : Time)
    → lookup hash s.by_token_hash ≡ some r
    → r.session.user_id ≢ user
    → lookup hash (revoke_user user at s).0.by_token_hash ≡ some r
unfolding revoke_user revoke_all_for_user
revoke_user-others s hash user r at found other =
    rw (lookup-map_values (revoke_if (λ x. x.user_id == user) at) hash s.by_token_hash, found)
      (ground (arith, eq_iff r.session.user_id user))
