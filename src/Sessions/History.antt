-- ===== src/Sessions/History.antt =====
-- What the hub can do to its sessions, in any order, and what can become of the entry under one hash.
use bazusop.Base.{
  ◌≡◌, String, List, [], ◌∷◌, Option, none, some, Time, Result, Exec, lift, ◌>>=◌, ◌==◌, ok, err,
  Bool, arith, All, inl, inr, ==_cases, string_comparable,
}
use bazusop.Base.Assoc.{option_map, lookup, lookup-insert, lookup-map_values}
use bazusop.Base.Keeps.{Keeps, keeps_rules}
use bazusop.Sessions.{Error, Session, SessionRecord, MemoryStore}
use bazusop.Sessions.Store.{
  create_session, update, touch, revoke_session, revoke_all_for_user, revoke_all_for_organization,
  revoke_if, or_zero, seen, revoked,
}
use bazusop.Sessions.Service.{
  Service, Draws, create, admit, validate, rotate, revoke, revoke_user, revoke_organization,
  new_session,
}

pub data Call : Type 0 where
  creates : String → String → Draws → Time → Call
  validates : String → Time → Call
  rotates : String → Draws → Time → Time → Time → Call
  revokes : String → Time → Call
  revokes_user : String → Time → Call
  revokes_organization : String → Time → Call

unfoldable pub serve : Service → MemoryStore → Call → MemoryStore
serve sv s (creates user organization draws now) = (create sv user organization draws now s).0
serve sv s (validates token now) = (validate sv token now s).0
serve sv s (rotates token draws now₁ now₂ now₃) = (rotate sv token draws now₁ now₂ now₃ s).0
serve sv s (revokes token now) = (revoke sv token now s).0
serve sv s (revokes_user user now) = (revoke_user user now s).0
serve sv s (revokes_organization organization now) = (revoke_organization organization now s).0

unfoldable pub run : Service → MemoryStore → List Call → MemoryStore
unfolding serve
run sv s [] = s
run sv s (c ∷ cs) = run sv (serve sv s c) cs

-- What is known of a text that may have failed to be drawn.
abbrev pub Drawn : (String → Type 0) → Result Error String → Type 0
Drawn D (ok token) = D token
Drawn D (err e) = Unit

-- The tokens that a call draws satisfy `D`.
abbrev pub Draw : (String → Type 0) → Call → Type 0
Draw D (creates user organization draws now) = Drawn D draws.token
Draw D (validates token now) = Unit
Draw D (rotates token draws now₁ now₂ now₃) = Drawn D draws.token
Draw D (revokes token now) = Unit
Draw D (revokes_user user now) = Unit
Draw D (revokes_organization organization now) = Unit

Keeps-draw :
    {A : Type 0} {P : MemoryStore → Type 0} (D : String → Type 0) (r : Result Error String)
    (next : String → Exec MemoryStore Error A)
    → Drawn D r
    → ((token : String) → D token → Keeps P (next token))
    → Keeps P (lift r >>= next)
Keeps-draw D (ok token) next d kept = record { at = λ s p. (kept token d).at s p }
Keeps-draw D (err e) next d kept = record { at = λ s p. p }

-- A property of what stands under the hash `h` that no write spoils. A creation writes there only
-- when the drawn token has that hash.
pub record Lasting (sv : Service) (D : String → Type 0) (h : String)
    (P : Option SessionRecord → Type 0) : Type 0 where
  pub at_seen : (o : Option SessionRecord) (at : Time) → P o → P (some (seen at (or_zero o)))
  pub at_revoked : (o : Option SessionRecord) (at : Time) → P o → P (some (revoked at (or_zero o)))
  pub at_created :
      (user organization id token csrf : String) (now : Time)
      → D token
      → sv.hash_token token ≡ h
      → P (some (record { session = new_session sv user organization id csrf now; token_hash = h }))

-- What is under the hash `h` has the property `P`.
abbrev pub Under : String → (Option SessionRecord → Type 0) → MemoryStore → Type 0
Under h P s = P (lookup h s.by_token_hash)

module _ (sv : Service) (D : String → Type 0) (h : String) (P : Option SessionRecord → Type 0) where
  update-Under :
      (f : SessionRecord → SessionRecord) (s : MemoryStore) (o : Option String)
      → ((x : Option SessionRecord) → P x → P (some (f (or_zero x))))
      → Under h P s
      → Under h P (update f s o).0
  unfolding update
  update-Under f s none step p = p
  update-Under f s (some k) step p = elim (==_cases k h) [
    | inl (t, e) ↦
        rw (lookup-insert s.by_token_hash k (f (or_zero (lookup k s.by_token_hash))) h, t, e)
          (step (lookup h s.by_token_hash) p)
    | inr (f', n) ↦
        rw (lookup-insert s.by_token_hash k (f (or_zero (lookup k s.by_token_hash))) h, f') p
  ]

  touch-Under :
      (id : String) (at : Time) → Lasting sv D h P → Keeps (Under h P) (λ s. touch s id at)
  unfolding touch
  touch-Under id at l = record {
    at = λ s p. update-Under (seen at) s (lookup id s.by_id) (λ x q. l.at_seen x at q) p;
  }

  revoke_session-Under :
      (id : String) (at : Time) → Lasting sv D h P → Keeps (Under h P) (λ s. revoke_session s id at)
  unfolding revoke_session
  revoke_session-Under id at l = record {
    at = λ s p. update-Under (revoked at) s (lookup id s.by_id) (λ x q. l.at_revoked x at q) p;
  }

  revoke_if-Under :
      (chosen : Session → Bool) (at : Time) (o : Option SessionRecord)
      → Lasting sv D h P
      → P o
      → P (option_map (revoke_if chosen at) o)
  revoke_if-Under chosen at none l p = p
  revoke_if-Under chosen at (some r) l p = ground (arith, l.at_revoked (some r) at p)

  revoke_user-Under :
      (user : String) (at : Time)
      → Lasting sv D h P
      → Keeps (Under h P) (λ s. revoke_all_for_user s user at)
  unfolding revoke_all_for_user
  revoke_user-Under user at l = record {
    at = λ s p.
        rw (lookup-map_values (revoke_if (λ x. x.user_id == user) at) h s.by_token_hash)
          (revoke_if-Under (λ x. x.user_id == user) at (lookup h s.by_token_hash) l p);
  }

  revoke_organization-Under :
      (organization : String) (at : Time)
      → Lasting sv D h P
      → Keeps (Under h P) (λ s. revoke_all_for_organization s organization at)
  unfolding revoke_all_for_organization
  revoke_organization-Under organization at l = record {
    at = λ s p.
        rw
          (lookup-map_values (revoke_if (λ x. x.organization_id == organization) at) h
            s.by_token_hash)
          (revoke_if-Under (λ x. x.organization_id == organization) at (lookup h s.by_token_hash) l
            p);
  }

  create_session-Under :
      (user organization id token csrf : String) (now : Time)
      → Lasting sv D h P
      → D token
      → Keeps (Under h P) (λ s.
        create_session s (new_session sv user organization id csrf now) (sv.hash_token token))
  unfolding create_session
  create_session-Under user organization id token csrf now l d = record {
    at = λ s p. elim (==_cases (sv.hash_token token) h) [
      | inl (t, e) ↦
          rw
            (
              lookup-insert s.by_token_hash (sv.hash_token token)
                  (record {
                    session = new_session sv user organization id csrf now;
                    token_hash = sv.hash_token token;
                  })
                  h,
              t,
              e,
            )
            (l.at_created user organization id token csrf now d e)
      | inr (f, n) ↦
          rw
            (
              lookup-insert s.by_token_hash (sv.hash_token token)
                  (record {
                    session = new_session sv user organization id csrf now;
                    token_hash = sv.hash_token token;
                  })
                  h,
              f,
            )
            p
    ];
  }

  create-Under :
      (user organization : String) (draws : Draws) (now : Time)
      → Lasting sv D h P
      → Drawn D draws.token
      → Keeps (Under h P) (create sv user organization draws now)
  unfolding create
  create-Under user organization draws now l d =
      search (keeps_rules, Keeps-draw D, create_session-Under) depth 12

  admit-Under :
      (now : Time) (session : Session) → Lasting sv D h P → Keeps (Under h P) (admit sv now session)
  unfolding admit
  admit-Under now session l = search (keeps_rules, touch-Under) depth 14

  validate-Under :
      (token : String) (now : Time) → Lasting sv D h P → Keeps (Under h P) (validate sv token now)
  unfolding validate
  validate-Under token now l = search (keeps_rules, admit-Under)

  rotate-Under :
      (token : String) (draws : Draws) (now₁ now₂ now₃ : Time)
      → Lasting sv D h P
      → Drawn D draws.token
      → Keeps (Under h P) (rotate sv token draws now₁ now₂ now₃)
  unfolding rotate
  rotate-Under token draws now₁ now₂ now₃ l d =
      search (keeps_rules, validate-Under, create-Under, revoke_session-Under) depth 12

  revoke-Under :
      (token : String) (now : Time) → Lasting sv D h P → Keeps (Under h P) (revoke sv token now)
  unfolding revoke
  revoke-Under token now l = search (keeps_rules, revoke_session-Under)

  serve-Under :
      (s : MemoryStore) (c : Call)
      → Lasting sv D h P
      → Draw D c
      → Under h P s
      → Under h P (serve sv s c)
  unfolding serve revoke_user revoke_organization
  serve-Under s (creates user organization draws now) l d =
      (create-Under user organization draws now l d).at s
  serve-Under s (validates token now) l d = (validate-Under token now l).at s
  serve-Under s (rotates token draws now₁ now₂ now₃) l d =
      (rotate-Under token draws now₁ now₂ now₃ l d).at s
  serve-Under s (revokes token now) l d = (revoke-Under token now l).at s
  serve-Under s (revokes_user user now) l d = (revoke_user-Under user now l).at s
  serve-Under s (revokes_organization organization now) l d =
      (revoke_organization-Under organization now l).at s

  -- What lasts under a hash is there after any calls.
  pub run-Under :
      (s : MemoryStore) (cs : List Call)
      → Lasting sv D h P
      → All (Draw D) cs
      → Under h P s
      → Under h P (run sv s cs)
  unfolding run
  run-Under s [] l d p = p
  run-Under s (c ∷ cs) l d p = run-Under (serve sv s c) cs l d.1 (serve-Under s c l d.0 p)
