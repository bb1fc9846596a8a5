-- ===== src/Sessions/Rotation.antt =====
-- Rotate replaces a session by a new one.
use bazusop.Base.{
  ◌≡◌, ◌≢◌, refl, sym, ◌∙◌, String, Option, some, Time, ok, arith, string_comparable,
}
use bazusop.Base.Assoc.{lookup, insert, lookup-insert_other, lookup-insert_self}
use bazusop.Sessions.{SessionRecord, MemoryStore}
use bazusop.Sessions.Store.{
  session_by_token_hash, create_session, touch, update, seen, revoked, revoke_session,
}
use bazusop.Sessions.Service.{Service, Draws, admit, validate, create, rotate, new_session}
use bazusop.Sessions.Lifetime.{IsLive}
use bazusop.Sessions.Revocation.{IsRevoked}

abbrev pub drawn : String → String → String → Draws
drawn id token csrf = record { id = ok id; token = ok token; csrf = ok csrf }

-- The store once a linked session was seen.
abbrev seen_store : MemoryStore → String → SessionRecord → Time → MemoryStore
seen_store s hash r now = record s { by_token_hash = insert hash (seen now r) s.by_token_hash }

update_run :
    (f : SessionRecord → SessionRecord) (s : MemoryStore) (hash : String) (r : SessionRecord)
    (o : Option String)
    → o ≡ some hash
    → lookup hash s.by_token_hash ≡ some r
    → update f s o ≡ (record s { by_token_hash = insert hash (f r) s.by_token_hash }, ok tt)
unfolding update
update_run f s hash r o linked found = rw (linked, found) refl

admit_run :
    (sv : Service) (s : MemoryStore) (hash : String) (now : Time) (r : SessionRecord)
    → lookup hash s.by_token_hash ≡ some r
    → lookup r.session.id s.by_id ≡ some hash
    → IsLive sv now r.session
    → admit sv now r.session s
      ≡ (seen_store s hash r now, ok (record (r.session) { last_seen_at = now }))
unfolding admit touch
admit_run sv s hash now r found linked live =
    ground (arith, update_run (seen now) s hash r (lookup r.session.id s.by_id) linked found)

validate_run :
    (sv : Service) (s : MemoryStore) (token : String) (now : Time) (r : SessionRecord)
    → lookup (sv.hash_token token) s.by_token_hash ≡ some r
    → lookup r.session.id s.by_id ≡ some (sv.hash_token token)
    → IsLive sv now r.session
    → validate sv token now s
      ≡ (seen_store s (sv.hash_token token) r now, ok (record (r.session) { last_seen_at = now }))
unfolding validate session_by_token_hash
validate_run sv s token now r found linked live =
    rw found (admit_run sv s (sv.hash_token token) now r found linked live)

-- Rotate, given the token of a stored session that is not revoked, not past its absolute expiry, idle
-- for no longer than the idle timeout and of an active user, and whose identifier leads back to the
-- token, and drawing another identifier and a token of another hash, returns a new session of the same
-- user and organization with the drawn token. That session is then stored under the hash of its token,
-- its identifier leads to it, and the old session is revoked.
pub rotate-Revoked :
    (sv : Service) (s : MemoryStore) (token id new_token csrf : String) (r : SessionRecord)
    (now₁ now₂ now₃ : Time)
    → lookup (sv.hash_token token) s.by_token_hash ≡ some r
    → lookup r.session.id s.by_id ≡ some (sv.hash_token token)
    → IsLive sv now₁ r.session
    → id ≢ r.session.id
    → sv.hash_token new_token ≢ sv.hash_token token
    → let after_call = rotate sv token (drawn id new_token csrf) now₁ now₂ now₃ s in
      let made = new_session sv r.session.user_id r.session.organization_id id csrf now₂ in
      (after_call.1 ≡ ok (made, new_token, csrf))
      × (lookup (sv.hash_token new_token) after_call.0.by_token_hash
          ≡ some (record { session = made; token_hash = sv.hash_token new_token }))
      × (lookup id after_call.0.by_id ≡ some (sv.hash_token new_token))
      × IsRevoked (lookup (sv.hash_token token) after_call.0.by_token_hash)
unfolding rotate create create_session revoke_session
rotate-Revoked sv s token id new_token csrf r now₁ now₂ now₃ found linked live other_id other_hash =
    let made = new_session sv r.session.user_id r.session.organization_id id csrf now₂ in
    let seen_entries = insert (sv.hash_token token) (seen now₁ r) s.by_token_hash in
    let new_store : MemoryStore = record {
      by_token_hash =
          insert (sv.hash_token new_token)
            (record { session = made; token_hash = sv.hash_token new_token }) seen_entries;
      by_id = insert id (sv.hash_token new_token) s.by_id;
    } in
    rw
      (
        validate_run sv s token now₁ r found linked live,
        update_run (revoked now₃) (new_store) (sv.hash_token token) (seen now₁ r)
            (lookup r.session.id new_store.by_id)
            (lookup-insert_other s.by_id id (sv.hash_token new_token) r.session.id other_id
              ∙ linked)
            (lookup-insert_other seen_entries (sv.hash_token new_token)
                (record { session = made; token_hash = sv.hash_token new_token })
                (sv.hash_token token) other_hash
              ∙ lookup-insert_self (sv.hash_token token) (seen now₁ r) s.by_token_hash),
      )
      (
        refl,
        lookup-insert_other new_store.by_token_hash (sv.hash_token token)
              (revoked now₃ (seen now₁ r)) (sv.hash_token new_token) (λ e. other_hash (sym e))
            ∙ lookup-insert_self (sv.hash_token new_token)
                (record { session = made; token_hash = sv.hash_token new_token }) seen_entries,
        lookup-insert_self id (sv.hash_token new_token) s.by_id,
        rw
            (lookup-insert_self (sv.hash_token token) (revoked now₃ (seen now₁ r))
              new_store.by_token_hash)
            (λ e. cc),
      )
