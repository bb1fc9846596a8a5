-- ===== src/Sessions.antt =====
-- internal/sessions: the data of web sessions (sessions.go) and of their memory store (memorystore.go).
pub mod Store
pub mod Service
pub mod History
pub mod Lifetime
pub mod Revocation
pub mod Rotation
mod Examples
use bazusop.Base.{String, Option, Time}
use bazusop.Base.Assoc.{Map}

pub data Error : Type 0 where
  session_not_found session_revoked session_expired session_idle user_inactive : Error
  other : String → Error

pub record Session : Type 0 where
  pub id : String
  pub user_id : String
  pub organization_id : String
  pub csrf_token : String
  pub created_at : Time
  pub last_seen_at : Time
  pub absolute_expires_at : Time
  pub revoked_at : Option Time

pub record SessionRecord : Type 0 where
  pub session : Session
  pub token_hash : String

pub record MemoryStore : Type 0 where
  pub by_token_hash : Map String SessionRecord
  pub by_id : Map String String
