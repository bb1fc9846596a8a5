-- ===== src/Identity/Closed.antt =====
-- A used code of a user with a confirmed second factor stays used.
use bazusop.Base.{
  not, subst, ◌≡◌, refl, sym, true, false, String, Bool, List, Option, none, some, is_some, Time,
  err, Bool-cases, inl, inr, ◌≢◌, ==_cases, ◌==◌, string_comparable,
}
use bazusop.Base.Assoc.{Map, lookup, insert, lookup-insert}
use bazusop.Base.Keeps.{Keeps, keeps_rules}
use bazusop.Identity.{
  Bytes, totp_already_confirmed, User, Invite, InviteRecord, OidcConfiguration, MemoryStore,
}
use bazusop.Identity.Random.{hash_token}
use bazusop.Identity.Store.{
  complete_bootstrap, enter_user, create_user, user_by_id, update_user, save_invite, consume_at,
  consume_invite, save_oidc_configuration, save_recovery_codes, consume_recovery_code, use_code,
  use_code_of,
}
use bazusop.Identity.Service.{Service, Draws, issue_codes, confirm_totp}
use bazusop.Identity.History.{Lasting}

-- The user is stored with a confirmed second factor.
abbrev pub IsConfirmed : String → MemoryStore → Type 0
IsConfirmed id s =
    (u : User) × (lookup id s.users_by_id ≡ some u) × (is_some u.totp_confirmed_at ≡ true)

-- The code with the hash is one of the user's, and was used.
abbrev pub IsUsed : String → String → MemoryStore → Type 0
IsUsed id h s =
    (m : Map String Bool) × (lookup id s.recovery_hashes ≡ some m) × (lookup h m ≡ some true)

abbrev pub Closed : String → String → MemoryStore → Type 0
Closed id h s = IsConfirmed id s × IsUsed id h s

confirmed-refused :
    (sv : Service) (s : MemoryStore) (user : String) (code : Bytes → String) (at : Time)
    (draws : Draws)
    → IsConfirmed user s
    → confirm_totp sv user code at draws s ≡ (s, err totp_already_confirmed)
unfolding confirm_totp user_by_id
confirmed-refused sv s user code at draws (u, stored, confirmed) = rw (stored, confirmed) refl

module _ (id h : String) where
  enter_user-Closed :
      (s : MemoryStore) (user : User)
      → user.id ≢ id
      → Closed id h s
      → Closed id h (enter_user user s)
  enter_user-Closed s user n ((u, stored, confirmed), used) = elim (==_cases user.id id) [
    | inl (t, same) ↦ absurd (n same)
    | inr (f, _) ↦
        ((u, rw (lookup-insert s.users_by_id user.id user id, f) stored, confirmed), used)
  ]

  bootstrap-Closed :
      (user : User) → user.id ≢ id → Keeps (Closed id h) (λ s. complete_bootstrap s user)
  unfolding complete_bootstrap
  bootstrap-Closed user n = record {
    at = λ s p. elim (Bool-cases s.bootstrapped) [
      | inl t ↦ rw t p
      | inr f ↦ rw f (enter_user-Closed (record s { bootstrapped = true }) user n p)
    ];
  }

  create_user-Closed : (user : User) → user.id ≢ id → Keeps (Closed id h) (λ s. create_user s user)
  unfolding create_user
  create_user-Closed user n = record {
    at = λ s p. elim (Bool-cases (not (user.oidc_subject == ""))) [
      | inl t ↦ rw t (enter_user-Closed s user n p)
      | inr f ↦ rw f (enter_user-Closed s user n p)
    ];
  }

  update_user-Closed :
      (user : User) (at : Time)
      → Keeps (Closed id h) (λ s. update_user s (record user { totp_confirmed_at = some at }))
  unfolding update_user
  update_user-Closed user at = record {
    at = λ s p.
        let updated : User = record user { totp_confirmed_at = some at } in
        elim (==_cases user.id id) [
          | inl (t, same) ↦
              ((updated, rw (lookup-insert s.users_by_id user.id updated id, t) refl, refl), p.1)
          | inr (f, _) ↦
              ((p.0.0, rw (lookup-insert s.users_by_id user.id updated id, f) p.0.1, p.0.2), p.1)
        ];
  }

  save_invite-Closed :
      (invite : Invite) (hash : String) → Keeps (Closed id h) (λ s. save_invite s invite hash)
  unfolding save_invite
  save_invite-Closed invite hash = record { at = λ s p. p }

  consume_invite-Closed :
      (hash : String) (at : Time) → Keeps (Closed id h) (λ s. consume_invite s hash at)
  unfolding consume_invite
  consume_invite-Closed hash at = record { at = λ s p. go s p (lookup hash s.invites) }
    where
      go :
          (s : MemoryStore)
          → Closed id h s
          → (o : Option InviteRecord) → Closed id h (consume_at s hash at o).0
      go s p none = p
      go s p (some r) = p

  oidc-Closed :
      (config : OidcConfiguration) → Keeps (Closed id h) (λ s. save_oidc_configuration s config)
  unfolding save_oidc_configuration
  oidc-Closed config = record { at = λ s p. p }

  codes-Closed :
      (user : String) (hashes : List String)
      → user ≢ id
      → Keeps (Closed id h) (λ s. save_recovery_codes s user hashes)
  unfolding save_recovery_codes
  codes-Closed user hashes n = record {
    at = λ s p. elim (==_cases user id) [
      | inl (t, same) ↦ absurd (n same)
      | inr (f, _) ↦ (p.0, (p.1.0, rw (lookup-insert s.recovery_hashes user _ id, f) p.1.1, p.1.2))
    ];
  }

  -- Another code of the user, or the code itself.
  use_code-Closed :
      (s : MemoryStore) (user hash : String) (m : Map String Bool) (o : Option Bool)
      → lookup user s.recovery_hashes ≡ some m
      → lookup hash m ≡ o
      → Closed id h s
      → Closed id h (use_code s user hash m o).0
  use_code-Closed s user hash m none e f p = p
  use_code-Closed s user hash m (some true) e f p = p
  use_code-Closed s user hash m (some false) e f (c, (k, found, used)) = elim (==_cases user id) [
    | inr (g, _) ↦
        (c, (k, rw (lookup-insert s.recovery_hashes user (insert hash true m) id, g) found, used))
    | inl (t, same) ↦ (
      c,
      (
        insert hash true m,
        rw (lookup-insert s.recovery_hashes user (insert hash true m) id, t) refl,
        still m hash k found used e same,
      ),
    )
  ]
    where
      still :
          (m : Map String Bool) (hash : String) (k : Map String Bool)
          → lookup id s.recovery_hashes ≡ some k
          → lookup h k ≡ some true
          → lookup user s.recovery_hashes ≡ some m
          → user ≡ id
          → lookup h (insert hash true m) ≡ some true
      still m hash k found used e same =
          let one : m ≡ k = cc in
          elim (==_cases hash h) [
            | inl (t, _) ↦ rw (lookup-insert m hash true h, t) refl
            | inr (g, _) ↦ rw (lookup-insert m hash true h, g, one) used
          ]

  code-Closed : (user hash : String) → Keeps (Closed id h) (λ s. consume_recovery_code s user hash)
  unfolding consume_recovery_code
  code-Closed user hash = record { at = λ s p. go s p (lookup user s.recovery_hashes) refl }
    where
      go :
          (s : MemoryStore)
          → Closed id h s
          → (o : Option (Map String Bool)) → lookup user s.recovery_hashes ≡ o
          → Closed id h (use_code_of s user hash o).0
      go s p none e = p
      go s p (some m) e = use_code-Closed s user hash m (lookup hash m) e refl p

  confirm-Closed :
      (sv : Service) (user : String) (code : Bytes → String) (at : Time) (draws : Draws)
      → Keeps (Closed id h) (confirm_totp sv user code at draws)
  unfolding confirm_totp issue_codes
  confirm-Closed sv user code at draws = elim (==_cases user id) [
    | inl (t, same) ↦ record {
      at = λ s p.
          rw
            (confirmed-refused sv s user code at draws
              (subst (λ x. IsConfirmed x s) (sym same) p.0))
            p;
    }
    | inr (f, n) ↦
        let saves = λ (hashes : List String). codes-Closed user hashes n in
        search (keeps_rules, update_user-Closed, saves) depth 20
  ]

  pub Closed-Lasting :
      (sv : Service) → Lasting sv (λ _. Unit {0}) (λ drawn. drawn ≢ id) (Closed id h)
  Closed-Lasting sv = record {
    at_bootstrap = bootstrap-Closed;
    at_user = create_user-Closed;
    at_invite = λ invite token _. save_invite-Closed invite (hash_token sv.crypto token);
    at_consumption = consume_invite-Closed;
    at_oidc = oidc-Closed;
    at_codes = codes-Closed;
    at_code = code-Closed;
    at_confirmation = confirm-Closed sv;
  }
