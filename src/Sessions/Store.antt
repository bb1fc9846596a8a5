-- ===== src/Sessions/Store.antt =====
-- The methods of sessions.MemoryStore.
use bazusop.Base.{
  String, Bool, ◌&&◌, not, [], Option, none, some, Time, Result, ok, err, is_some, ◌==◌,
  string_comparable, if◌then◌else◌,
}
use bazusop.Base.Assoc.{lookup, insert, map_values}
use bazusop.Sessions.{Error, session_not_found, Session, SessionRecord, MemoryStore}

abbrev pub empty_store : MemoryStore
empty_store = record { by_token_hash = []; by_id = [] }

unfoldable pub create_session :
    MemoryStore → Session → String → MemoryStore × Result Error (Unit {0})
create_session s session hash = (
  record {
    by_token_hash = insert hash (record { session = session; token_hash = hash }) s.by_token_hash;
    by_id = insert session.id hash s.by_id;
  },
  ok tt,
)

abbrev pub session_of : Option SessionRecord → Result Error Session
session_of none = err session_not_found
session_of (some r) = ok r.session

unfoldable pub session_by_token_hash : MemoryStore → String → Result Error Session
session_by_token_hash s hash = session_of (lookup hash s.by_token_hash)

-- What Go reads from a map that has no entry.
abbrev pub zero_record : SessionRecord
zero_record = record {
  session = record {
    id = "";
    user_id = "";
    organization_id = "";
    csrf_token = "";
    created_at = 0;
    last_seen_at = 0;
    absolute_expires_at = 0;
    revoked_at = none;
  };
  token_hash = "";
}

abbrev pub or_zero : Option SessionRecord → SessionRecord
or_zero none = zero_record
or_zero (some r) = r

-- Both writers below look the token's hash up by the session's identifier.
unfoldable pub update :
    (SessionRecord → SessionRecord)
    → MemoryStore
    → Option String
    → MemoryStore × Result Error (Unit {0})
update f s none = (s, err session_not_found)
update f s (some hash) = (
  record s {
    by_token_hash = insert hash (f (or_zero (lookup hash s.by_token_hash))) s.by_token_hash;
  },
  ok tt,
)

abbrev pub seen : Time → SessionRecord → SessionRecord
seen at r = record r { session = record (r.session) { last_seen_at = at } }

abbrev pub revoked : Time → SessionRecord → SessionRecord
revoked at r = record r { session = record (r.session) { revoked_at = some at } }

unfoldable pub touch : MemoryStore → String → Time → MemoryStore × Result Error (Unit {0})
unfolding update
touch s id at = update (seen at) s (lookup id s.by_id)

unfoldable pub revoke_session : MemoryStore → String → Time → MemoryStore × Result Error (Unit {0})
unfolding update
revoke_session s id at = update (revoked at) s (lookup id s.by_id)

-- The bodies of the two loops.
abbrev pub revoke_if : (Session → Bool) → Time → SessionRecord → SessionRecord
revoke_if chosen at r =
    if chosen r.session && not (is_some r.session.revoked_at) then revoked at r else r

unfoldable pub revoke_all_for_user :
    MemoryStore → String → Time → MemoryStore × Result Error (Unit {0})
revoke_all_for_user s user at = (
  record s { by_token_hash = map_values (revoke_if (λ x. x.user_id == user) at) s.by_token_hash },
  ok tt,
)

unfoldable pub revoke_all_for_organization :
    MemoryStore → String → Time → MemoryStore × Result Error (Unit {0})
revoke_all_for_organization s organization at = (
  record s {
    by_token_hash =
        map_values (revoke_if (λ x. x.organization_id == organization) at) s.by_token_hash;
  },
  ok tt,
)
