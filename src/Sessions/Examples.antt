-- ===== src/Sessions/Examples.antt =====
-- Sessions of one user, tried out with a digest that is the identity.
use bazusop.Base.{
  eq_iff, ◌*◌, ◌≡◌, ◌≢◌, String, List, [], ◌∷◌, some, ok, err, refl, true, hour, minute, arith,
  string_comparable, ◌+◌, ◌≤◌,
}
use bazusop.Base.Assoc.{lookup, insert}
use bazusop.Sessions.{session_revoked, Session, SessionRecord, MemoryStore}
use bazusop.Sessions.Store.{empty_store, create_session, update, touch, session_by_token_hash}
use bazusop.Sessions.Service.{Service, create, admit, validate, rotate, revoke, new_session}
use bazusop.Sessions.History.{Call, creates, validates, serve, run}
use bazusop.Sessions.Lifetime.{validate-Backed, validate-accepts, validate-run, Backed}
use bazusop.Sessions.Revocation.{IsRevoked, revoke-run}
use bazusop.Sessions.Rotation.{rotate-Revoked, drawn}

abbrev toy : Service
toy = record {
  user_active = λ user. ok true;
  idle_timeout = 30 * minute;
  absolute_timeout = 8 * hour;
  hash_token = λ token. token;
}

abbrev alice : Session
alice = new_session toy "alice" "acme" "s1" "csrf" 5

abbrev entry : SessionRecord
entry = record { session = alice; token_hash = "t1" }

-- One session, as Create leaves it.
abbrev one : MemoryStore
one = record { by_token_hash = ("t1", entry) ∷ []; by_id = ("s1", "t1") ∷ [] }

create-one : run toy empty_store (creates "alice" "acme" (drawn "s1" "t1" "csrf") 5 ∷ []) ≡ one
unfolding run serve create create_session insert
create-one = refl

one-found : lookup "t1" one.by_token_hash ≡ some entry
unfolding lookup
one-found = refl

one-linked : lookup "s1" one.by_id ≡ some "t1"
unfolding lookup
one-linked = refl

abbrev later : List Call
later = creates "alice" "acme" (drawn "s2" "t2" "csrf") 9 ∷ validates "t1" 10 ∷ []

validate-one : (validate toy "t1" 7 one).1 ≡ ok (record alice { last_seen_at = 7 })
unfolding validate session_by_token_hash admit touch update lookup
validate-one = refl

validate-created :
    (validate toy "t1" 7
      (run toy empty_store (creates "alice" "acme" (drawn "s1" "t1" "csrf") 5 ∷ []))).1
    ≡ ok (record alice { last_seen_at = 7 })
validate-created = rw create-one validate-one

validate-Backed_example : Backed toy one "t1" 7 (record alice { last_seen_at = 7 })
validate-Backed_example =
    validate-Backed toy one "t1" 7 (record alice { last_seen_at = 7 }) validate-one

validate-accepts_example : (validate toy "t1" 7 one).1 ≡ ok (record alice { last_seen_at = 7 })
validate-accepts_example =
    validate-accepts toy one "t1" "t1" 7 entry one-found one-linked
      (refl, omega arith, omega arith, refl)

validate-run_example : 7 ≤ alice.created_at + toy.absolute_timeout
validate-run_example =
    validate-run toy (creates "alice" "acme" (drawn "s1" "t1" "csrf") 5 ∷ []) "t1" 7
      (record alice { last_seen_at = 7 }) validate-created

t2-other : ◌≢◌ {A = String} "t2" "t1"
t2-other = λ e. let t = (eq_iff "t2" "t1").1 e in cc

s2-other : ◌≢◌ {A = String} "s2" "s1"
s2-other = λ e. let t = (eq_iff "s2" "s1").1 e in cc

revoke-run_example :
    validate toy "t1" 20 (run toy (revoke toy "t1" 8 one).0 later)
    ≡ (run toy (revoke toy "t1" 8 one).0 later, err session_revoked)
revoke-run_example =
    revoke-run toy one "t1" entry 8 later 20 one-found one-linked (t2-other, (tt, tt))

rotate-Revoked_example :
    let after_call = rotate toy "t1" (drawn "s2" "t2" "csrf2") 7 8 9 one in
    let made = new_session toy "alice" "acme" "s2" "csrf2" 8 in
    (after_call.1 ≡ ok (made, "t2", "csrf2"))
    × (lookup "t2" after_call.0.by_token_hash ≡ some (record { session = made; token_hash = "t2" }))
    × (lookup "s2" after_call.0.by_id ≡ some "t2")
    × IsRevoked (lookup "t1" after_call.0.by_token_hash)
rotate-Revoked_example =
    rotate-Revoked toy one "t1" "s2" "t2" "csrf2" entry 7 8 9 one-found one-linked
      (refl, omega arith, omega arith, refl) s2-other t2-other
