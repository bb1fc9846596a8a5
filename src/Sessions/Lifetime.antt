-- ===== src/Sessions/Lifetime.antt =====
-- What Validate's acceptance means, and how long a session can last.
use bazusop.Base.{
  ◌≡◌, refl, ◌+◌, ◌≤◌, String, List, [], ◌∷◌, Option, none, some, Time, Result, ok, err, true,
  arith, All, resume, string_comparable,
}
use bazusop.Base.Assoc.{lookup}
use bazusop.Sessions.{Error, Session, SessionRecord, MemoryStore}
use bazusop.Sessions.Store.{
  session_of, session_by_token_hash, touch, update, seen, revoked, or_zero, empty_store,
}
use bazusop.Sessions.Service.{Service, admit, validate}
use bazusop.Sessions.History.{
  Call, creates, validates, rotates, revokes, revokes_user, revokes_organization, run, run-Under,
  Drawn, Draw, Lasting,
}

-- A stored session is good at an instant.
abbrev pub IsLive : Service → Time → Session → Type 0
IsLive sv now y =
    (y.revoked_at ≡ none)
    × (now ≤ y.absolute_expires_at)
    × (now ≤ y.last_seen_at + sv.idle_timeout)
    × (sv.user_active y.user_id ≡ ok true)

-- The store's session for a token is good, and `x` is that session as seen now.
abbrev pub Backed : Service → MemoryStore → String → Time → Session → Type 0
Backed sv s token now x =
    (r : SessionRecord) × (lookup (sv.hash_token token) s.by_token_hash ≡ some r)
    × IsLive sv now r.session
    × (x ≡ record (r.session) { last_seen_at = now })

admit-IsLive :
    (sv : Service) (s : MemoryStore) (now : Time) (y x : Session)
    → (admit sv now y s).1 ≡ ok x
    → IsLive sv now y × (x ≡ record y { last_seen_at = now })
unfolding admit
admit-IsLive sv s now y x h = ground arith

found-IsLive :
    (sv : Service) (s : MemoryStore) (now : Time) (x : Session) (o : Option SessionRecord)
    → (resume (session_of o) (admit sv now) s).1 ≡ ok x
    → (r : SessionRecord) × (o ≡ some r)
      × IsLive sv now r.session
      × (x ≡ record (r.session) { last_seen_at = now })
found-IsLive sv s now x none h = cc
found-IsLive sv s now x (some r) h =
    let both = admit-IsLive sv s now r.session x h in (r, refl, both.0, both.1)

-- If Validate accepts a token, the store has a session for it that is not revoked, not past its
-- absolute expiry, idle for no longer than the idle timeout, and of an active user; and the session
-- returned is that one with this instant as the last one at which it was seen.
pub validate-Backed :
    (sv : Service) (s : MemoryStore) (token : String) (now : Time) (x : Session)
    → (validate sv token now s).1 ≡ ok x
    → Backed sv s token now x
unfolding validate session_by_token_hash
validate-Backed sv s token now x h =
    found-IsLive sv s now x (lookup (sv.hash_token token) s.by_token_hash) h

-- Conversely, Validate accepts the token of a stored session that is not revoked, not past its
-- absolute expiry, idle for no longer than the idle timeout, and of an active user, if the store has a
-- token for the session's identifier; the session that it returns was last seen at this instant.
pub validate-accepts :
    (sv : Service) (s : MemoryStore) (token linked : String) (now : Time) (r : SessionRecord)
    → lookup (sv.hash_token token) s.by_token_hash ≡ some r
    → lookup r.session.id s.by_id ≡ some linked
    → IsLive sv now r.session
    → (validate sv token now s).1 ≡ ok (record (r.session) { last_seen_at = now })
unfolding validate session_by_token_hash admit touch update
validate-accepts sv s token linked now r found known live = rw (found) (ground arith)

-- The session is set to expire no later than the absolute timeout after its creation.
abbrev pub IsBounded : Service → Option SessionRecord → Type 0
IsBounded sv none = Unit
IsBounded sv (some r) = r.session.absolute_expires_at ≤ r.session.created_at + sv.absolute_timeout

IsBounded-Lasting : (sv : Service) (h : String) → Lasting sv (λ _. Unit) h (IsBounded sv)
IsBounded-Lasting sv h = record {
  at_seen = at_seen;
  at_revoked = at_revoked;
  at_created = λ user organization id token csrf now d e. omega arith;
}
  where
    at_seen :
        (o : Option SessionRecord) (at : Time)
        → IsBounded sv o
        → IsBounded sv (some (seen at (or_zero o)))
    at_seen none at b = omega arith
    at_seen (some r) at b = b

    at_revoked :
        (o : Option SessionRecord) (at : Time)
        → IsBounded sv o
        → IsBounded sv (some (revoked at (or_zero o)))
    at_revoked none at b = omega arith
    at_revoked (some r) at b = b

Drawn-any : (r : Result Error String) → Drawn (λ _. Unit) r
Drawn-any (ok token) = tt
Drawn-any (err e) = tt

Draw-any : (c : Call) → Draw (λ _. Unit) c
Draw-any (creates user organization draws now) = Drawn-any draws.token
Draw-any (validates token now) = tt
Draw-any (rotates token draws now₁ now₂ now₃) = Drawn-any draws.token
Draw-any (revokes token now) = tt
Draw-any (revokes_user user now) = tt
Draw-any (revokes_organization organization now) = tt

All-Draw : (cs : List Call) → All (Draw (λ _. Unit)) cs
All-Draw [] = tt
All-Draw (c ∷ cs) = (Draw-any c, All-Draw cs)

bounded_life :
    (sv : Service) (now : Time) (x : Session) (r : SessionRecord) (o : Option SessionRecord)
    → o ≡ some r
    → IsBounded sv o
    → IsLive sv now r.session
    → x ≡ record (r.session) { last_seen_at = now }
    → now ≤ x.created_at + sv.absolute_timeout
bounded_life sv now x r o e b live same = rw same let b' = rw e at b in omega arith

-- From an empty store, whatever is called, in any order, a token that Validate then accepts is of a
-- session created no longer than the absolute timeout ago.
pub validate-run :
    (sv : Service) (cs : List Call) (token : String) (now : Time) (x : Session)
    → (validate sv token now (run sv empty_store cs)).1 ≡ ok x
    → now ≤ x.created_at + sv.absolute_timeout
unfolding lookup
validate-run sv cs token now x h =
    let (r, found, live, same) = validate-Backed sv (run sv empty_store cs) token now x h in
    bounded_life sv now x r (lookup (sv.hash_token token) (run sv empty_store cs).by_token_hash)
      found
      (run-Under sv (λ _. Unit) (sv.hash_token token) (IsBounded sv) empty_store cs
        (IsBounded-Lasting sv (sv.hash_token token)) (All-Draw cs) tt)
      live same
