-- ===== src/Sessions/Service.antt =====
-- The methods of sessions.Service. Each reading of the clock and each new identifier is an argument.
use bazusop.Base.{
  ◌+◌, String, not, none, Bool, Duration, Time, Result, Exec, pure, lift, reads, refuse, ◌>>=◌,
  ◌>>◌, is_some, after, ltb,
}
use bazusop.Sessions.{
  Error, session_revoked, session_expired, session_idle, user_inactive, Session, MemoryStore,
}
use bazusop.Sessions.Store.{
  create_session, session_by_token_hash, touch, revoke_session, revoke_all_for_user,
  revoke_all_for_organization,
}

-- The user check, the timeouts, and the digest that the program takes of a token (SHA-256 in hex).
pub record Service : Type 0 where
  pub user_active : String → Result Error Bool
  pub idle_timeout : Duration
  pub absolute_timeout : Duration
  pub hash_token : String → String

abbrev pub new_session : Service → String → String → String → String → Time → Session
new_session sv user organization id csrf now = record {
  id = id;
  user_id = user;
  organization_id = organization;
  csrf_token = csrf;
  created_at = now;
  last_seen_at = now;
  absolute_expires_at = now + sv.absolute_timeout;
  revoked_at = none;
}

-- The three texts that Create draws: the session's identifier, its token and its CSRF token.
pub record Draws : Type 0 where
  pub id : Result Error String
  pub token : Result Error String
  pub csrf : Result Error String

unfoldable pub create :
    Service → String → String → Draws → Time → Exec MemoryStore Error (Session × String × String)
create sv user organization draws now = do
  id ← lift draws.id
  token ← lift draws.token
  csrf ← lift draws.csrf
  let session = new_session sv user organization id csrf now
  (λ s. create_session s session (sv.hash_token token))
  pure (session, token, csrf)

-- What Validate does with the session that it found. `now.Sub(lastSeen) > idle` is written as a sum,
-- since a difference may be negative in Go.
unfoldable pub admit : Service → Time → Session → Exec MemoryStore Error Session
admit sv now session = do
  refuse (is_some session.revoked_at) session_revoked
  refuse (after now session.absolute_expires_at) session_expired
  refuse (ltb (session.last_seen_at + sv.idle_timeout) now) session_idle
  active ← lift (sv.user_active session.user_id)
  refuse (not active) user_inactive
  (λ s. touch s session.id now)
  pure (record session { last_seen_at = now })

unfoldable pub validate : Service → String → Time → Exec MemoryStore Error Session
unfolding admit
validate sv token now = do
  session ← reads (λ s. session_by_token_hash s (sv.hash_token token))
  admit sv now session

unfoldable pub rotate :
    Service
    → String
    → Draws
    → Time
    → Time
    → Time
    → Exec MemoryStore Error (Session × String × String)
unfolding validate create
rotate sv token draws now₁ now₂ now₃ = do
  session ← validate sv token now₁
  created ← create sv session.user_id session.organization_id draws now₂
  (λ s. revoke_session s session.id now₃)
  pure created

unfoldable pub revoke : Service → String → Time → Exec MemoryStore Error (Unit {0})
revoke sv token now = do
  session ← reads (λ s. session_by_token_hash s (sv.hash_token token))
  (λ s. revoke_session s session.id now)

unfoldable pub revoke_user : String → Time → Exec MemoryStore Error (Unit {0})
revoke_user user now s = revoke_all_for_user s user now

unfoldable pub revoke_organization : String → Time → Exec MemoryStore Error (Unit {0})
revoke_organization organization now s = revoke_all_for_organization s organization now
