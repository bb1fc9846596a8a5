-- ===== src/Identity/Bootstrap.antt =====
-- The hub is bootstrapped once.
use bazusop.Base.{
  not, ◌≡◌, refl, true, false, String, Bool, List, [], ◌∷◌, Option, none, some, Time, Result, ok,
  err, Bool-cases, inl, inr, All, ◌==◌, string_comparable,
}
use bazusop.Base.Assoc.{Map, lookup}
use bazusop.Base.Keeps.{Keeps, Ends, Ends-bind, Ends-then, keeps_rules}
use bazusop.Identity.{
  Bytes, Error, already_bootstrapped, User, InviteRecord, MemoryStore, TotpEnrollment,
}
use bazusop.Identity.Store.{
  complete_bootstrap, create_user, update_user, save_invite, consume_at, consume_invite,
  save_oidc_configuration, save_recovery_codes, consume_recovery_code, use_code, use_code_of,
}
use bazusop.Identity.Service.{Service, Draws, issue_codes, bootstrap, confirm_totp}
use bazusop.Identity.Random.{new_id}
use bazusop.Identity.History.{
  Of, bootstraps, invites, redeems, confirms, logs_in, recovers, links, configures, Call, run, Draw,
  Lasting, run-Lasting,
}

abbrev IsBootstrapped : MemoryStore → Type 0
IsBootstrapped s = s.bootstrapped ≡ true

complete-IsBootstrapped : (user : User) → Keeps IsBootstrapped (λ s. complete_bootstrap s user)
unfolding complete_bootstrap
complete-IsBootstrapped user = record { at = λ s p. rw p refl }

complete-Ends : (user : User) → Ends IsBootstrapped (λ s. complete_bootstrap s user)
unfolding complete_bootstrap
complete-Ends user = record {
  at = λ s a e. elim (Bool-cases s.bootstrapped) [ inl t ↦ rw t refl | inr f ↦ rw f refl ];
}

create_user-IsBootstrapped : (user : User) → Keeps IsBootstrapped (λ s. create_user s user)
unfolding create_user
create_user-IsBootstrapped user = record {
  at = λ s p. elim (Bool-cases (not (user.oidc_subject == ""))) [ inl t ↦ rw t p | inr f ↦ rw f p ];
}

update_user-IsBootstrapped : (user : User) → Keeps IsBootstrapped (λ s. update_user s user)
unfolding update_user
update_user-IsBootstrapped user = record { at = λ s p. p }

codes-IsBootstrapped :
    (id : String) (hashes : List String)
    → Keeps IsBootstrapped (λ s. save_recovery_codes s id hashes)
unfolding save_recovery_codes
codes-IsBootstrapped id hashes = record { at = λ s p. p }

code-IsBootstrapped :
    (id hash : String) → Keeps IsBootstrapped (λ s. consume_recovery_code s id hash)
unfolding consume_recovery_code
code-IsBootstrapped id hash = record { at = λ s p. go s p (lookup id s.recovery_hashes) }
  where
    use_it :
        (s : MemoryStore)
        → IsBootstrapped s
        → (m : Map String Bool) (o : Option Bool) → IsBootstrapped (use_code s id hash m o).0
    use_it s p m none = p
    use_it s p m (some true) = p
    use_it s p m (some false) = p

    go :
        (s : MemoryStore)
        → IsBootstrapped s
        → (o : Option (Map String Bool)) → IsBootstrapped (use_code_of s id hash o).0
    go s p none = p
    go s p (some m) = use_it s p m (lookup hash m)

consume-IsBootstrapped :
    (hash : String) (at : Time) → Keeps IsBootstrapped (λ s. consume_invite s hash at)
unfolding consume_invite
consume-IsBootstrapped hash at = record { at = λ s p. go s p (lookup hash s.invites) }
  where
    go :
        (s : MemoryStore)
        → IsBootstrapped s
        → (o : Option InviteRecord) → IsBootstrapped (consume_at s hash at o).0
    go s p none = p
    go s p (some r) = p

confirm-IsBootstrapped :
    (sv : Service) (user : String) (code : Bytes → String) (at : Time) (draws : Draws)
    → Keeps IsBootstrapped (confirm_totp sv user code at draws)
unfolding confirm_totp issue_codes
confirm-IsBootstrapped sv user code at draws =
    search (keeps_rules, update_user-IsBootstrapped, codes-IsBootstrapped) depth 20

IsBootstrapped-Lasting : (sv : Service) → Lasting sv (λ _. Unit {0}) (λ _. Unit {0}) IsBootstrapped
unfolding save_invite save_oidc_configuration
IsBootstrapped-Lasting sv = record {
  at_bootstrap = λ user _. complete-IsBootstrapped user;
  at_user = λ user _. create_user-IsBootstrapped user;
  at_invite = λ invite token _. record { at = λ s p. p };
  at_consumption = consume-IsBootstrapped;
  at_oidc = λ config. record { at = λ s p. p };
  at_codes = λ id hashes _. codes-IsBootstrapped id hashes;
  at_code = code-IsBootstrapped;
  at_confirmation = confirm-IsBootstrapped sv;
}

bootstrap-Ends :
    (sv : Service) (organization email password : String) (draws : Draws) (now : Time)
    → Ends IsBootstrapped (bootstrap sv organization email password draws now)
unfolding bootstrap issue_codes
bootstrap-Ends sv organization email password draws now =
    search (Ends-bind, Ends-then, complete-Ends, codes-IsBootstrapped, keeps_rules) depth 30

All-drawn : (sv : Service) (cs : List Call) → All (Draw sv (λ _. Unit {0}) (λ _. Unit {0})) cs
All-drawn sv [] = tt
All-drawn sv (c ∷ cs) = (any_draw c, All-drawn sv cs)
  where
    any_drawn : (r : Result Error String) → Of (λ _. Unit {0}) r
    any_drawn (ok text) = tt
    any_drawn (err e) = tt

    any_draw : (c : Call) → Draw sv (λ _. Unit {0}) (λ _. Unit {0}) c
    any_draw (bootstraps organization email password draws now) =
        any_drawn (new_id sv.crypto draws.id)
    any_draw (invites by organization email role grants t draws now₁ now₂) =
        any_drawn (new_id sv.crypto draws.token)
    any_draw (redeems token password draws now₁ now₂ now₃) = any_drawn (new_id sv.crypto draws.id)
    any_draw (confirms user code at draws) = tt
    any_draw (logs_in organization email password code now) = tt
    any_draw (recovers organization email password code) = tt
    any_draw (links organization issuer subject email draws now₁ now₂ now₃) =
        any_drawn (new_id sv.crypto draws.id)
    any_draw (configures organization discovery issuer client secret redirect by draws now) = tt

-- The hub is bootstrapped once: after one bootstrap has returned, every other is refused and changes
-- nothing, whatever was called in between.
pub bootstrap-once :
    (sv : Service) (s : MemoryStore) (cs : List Call)
    (organization email password organization' email' password' : String) (first second : Draws)
    (now at : Time) (a : User × TotpEnrollment)
    → let (s', answer) = bootstrap sv organization email password first now s in
      answer ≡ ok a
      → bootstrap sv organization' email' password' second at (run sv s' cs)
        ≡ (run sv s' cs, err already_bootstrapped)
unfolding bootstrap
bootstrap-once sv s cs organization email password organization' email' password' first second now
      at a e =
    let s' = (bootstrap sv organization email password first now s).0 in
    let done =
      run-Lasting sv (λ _. Unit {0}) (λ _. Unit {0}) IsBootstrapped s' cs
        (IsBootstrapped-Lasting sv) (All-drawn sv cs)
        ((bootstrap-Ends sv organization email password first now).at s a e) in
    rw done refl
