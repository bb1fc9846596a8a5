-- ===== src/Identity/Recovery.antt =====
-- A recovery code logs a user in once.
use bazusop.Base.{
  not, subst, ◌≡◌, refl, sym, true, false, String, Bool, List, Option, none, some, Result, ok, err,
  refuse, pure, resume, ◌>>=◌, ◌>>◌, arith, All, ◌≢◌, string_comparable, ap,
}
use bazusop.Base.Assoc.{Map, lookup, insert, lookup-insert_self}
use bazusop.Identity.{Error, invalid_credentials, User, MemoryStore}
use bazusop.Identity.Random.{hash_recovery_code}
use bazusop.Identity.Store.{consume_recovery_code, use_code, use_code_of}
use bazusop.Identity.Service.{Service}
use bazusop.Identity.SignIn.{with_password, verify_credentials_with_recovery_code}
use bazusop.Identity.History.{with_password-Keeps, Call, run, Draw, run-Lasting}
use bazusop.Identity.Closed.{IsConfirmed, IsUsed, Closed, Closed-Lasting}

consume_recovery_code-IsUsed :
    (s : MemoryStore) (id h : String)
    → (consume_recovery_code s id h).1 ≡ ok true
    → IsUsed id h (consume_recovery_code s id h).0
unfolding consume_recovery_code
consume_recovery_code-IsUsed s id h e = go (lookup id s.recovery_hashes) e
  where
    use_it :
        (m : Map String Bool) (o : Option Bool)
        → (use_code s id h m o).1 ≡ ok true
        → IsUsed id h (use_code s id h m o).0
    use_it m none e = absurd (let b = e in cc)
    use_it m (some true) e = absurd (let b = e in cc)
    use_it m (some false) e = (
      insert h true m,
      lookup-insert_self id (insert h true m) s.recovery_hashes,
      lookup-insert_self h true m,
    )

    go :
        (o : Option (Map String Bool))
        → (use_code_of s id h o).1 ≡ ok true
        → IsUsed id h (use_code_of s id h o).0
    go none e = absurd (let b = e in cc)
    go (some m) e = use_it m (lookup h m) e

used-refused :
    (s : MemoryStore) (id h : String) → IsUsed id h s → consume_recovery_code s id h ≡ (s, ok false)
unfolding consume_recovery_code
used-refused s id h (m, found, used) = rw (found, used) refl

-- A login with a recovery code has used the code of the user that it returns.
recovers-uses :
    (sv : Service) (s : MemoryStore) (organization email password code : String) (u : User)
    → let (s', answer) =
        verify_credentials_with_recovery_code sv organization email password code s in
      answer ≡ ok u
      → ((consume_recovery_code s u.id (hash_recovery_code sv.crypto code)).1 ≡ ok true)
        × (s' ≡ (consume_recovery_code s u.id (hash_recovery_code sv.crypto code)).0)
unfolding verify_credentials_with_recovery_code
recovers-uses sv s organization email password code u e =
    first (with_password sv organization email password s).0
      (with_password sv organization email password s).1
      ((with_password-Keeps (λ x. x ≡ s) sv organization email password).at s refl) e
  where
    hash : String
    hash = hash_recovery_code sv.crypto code

    last :
        (user : User) (s₁ : MemoryStore) (r : Result Error Bool)
        → (resume r (λ used. refuse (not used) invalid_credentials >> pure user) s₁).1 ≡ ok u
        → (r ≡ ok true)
          × (user ≡ u)
          × ((resume r (λ used. refuse (not used) invalid_credentials >> pure user) s₁).0 ≡ s₁)
    last user s₁ (ok true) e = (refl, ground (arith, e), refl)
    last user s₁ (ok false) e = absurd (let b = e in cc)
    last user s₁ (err x) e = absurd (let b = e in cc)

    first :
        (s₁ : MemoryStore) (r : Result Error User)
        → s₁ ≡ s
        → (resume r
            (λ user. (λ t. consume_recovery_code t user.id hash) >>= λ used.
              refuse (not used) invalid_credentials >> pure user)
            s₁).1
          ≡ ok u
        → ((consume_recovery_code s u.id hash).1 ≡ ok true)
          × ((resume r
                (λ user. (λ t. consume_recovery_code t user.id hash) >>= λ used.
                  refuse (not used) invalid_credentials >> pure user)
                s₁).0
              ≡ (consume_recovery_code s u.id hash).0)
    first s₁ (ok user) p e =
        let call = consume_recovery_code s₁ user.id hash in
        let (used, same, final) = last user call.0 call.1 e in rw (sym p, sym same) (used, final)
    first s₁ (err x) p e = absurd (let b = e in cc)

-- A recovery code logs a user in once: after a login with it, if the user's second factor is confirmed,
-- no later login with the same code returns the user again, whatever was called in between, as long as
-- no new user draws the user's identifier.
pub recovery-once :
    (sv : Service) (s : MemoryStore) (cs : List Call)
    (organization email password organization' email' password' code : String) (u v : User)
    → let (s', answer) =
        verify_credentials_with_recovery_code sv organization email password code s in
      answer ≡ ok u
      → IsConfirmed u.id s'
      → All (Draw sv (λ _. Unit {0}) (λ drawn. drawn ≢ u.id)) cs
      → v.id ≡ u.id
      → (verify_credentials_with_recovery_code sv organization' email' password' code
          (run sv s' cs)).1
        ≢ ok v
recovery-once sv s cs organization email password organization' email' password' code u v e
      confirmed d same e' =
    let s' = (verify_credentials_with_recovery_code sv organization email password code s).0 in
    let h = hash_recovery_code sv.crypto code in
    let (used, after) = recovers-uses sv s organization email password code u e in
    let burnt : IsUsed u.id h s' =
      subst (IsUsed u.id h) (sym after) (consume_recovery_code-IsUsed s u.id h used) in
    let later =
      run-Lasting sv (λ _. Unit {0}) (λ drawn. drawn ≢ u.id) (Closed u.id h) s' cs
        (Closed-Lasting u.id h sv) d (confirmed, burnt) in
    let (again, _) = recovers-uses sv (run sv s' cs) organization' email' password' code v e' in
    let refusal = used-refused (run sv s' cs) u.id h later.1 in
    contradiction (consume_recovery_code (run sv s' cs) v.id h).1 again (
      subst (λ x. (consume_recovery_code (run sv s' cs) x h).1 ≡ ok false) (sym same)
        (ap (λ (p : MemoryStore × Result Error Bool). p.1) refusal))
  where
    contradiction : (r : Result Error Bool) → r ≡ ok true → r ≡ ok false → ⊥
    contradiction (ok true) a b = absurd (let c = b in cc)
    contradiction (ok false) a b = absurd (let c = a in cc)
    contradiction (err x) a b = absurd (let c = a in cc)
