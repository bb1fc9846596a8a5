-- ===== src/Enrollment/Once.antt =====
-- How often a bootstrap token enrolls.
use bazusop.Base.{
  ℕ, suc, ◌≤◌, ◌≡◌, refl, ◌∙◌, some, String, Bool, true, false, not, List, [], ◌∷◌, Option, Result,
  ok, err, Exec, pure, lift, resume, ◌>>=◌, ◌>>◌, Bool-cases, inl, inr, arith, if◌then◌else◌, ◌==◌,
  string_comparable, Time,
}
use bazusop.Enrollment.{Error, Request, Identity, Packages, Authority, TokenStore}
use bazusop.Enrollment.Service.{
  consume_enrollment_token, enroll_context, authenticate_context, renew_context, parse_csr,
  authenticate, renewable,
}

-- A request to the authority, with what is drawn for it.
pub data Call (Cert : Type 0) : Type 0 where
  enrolls : Request → Result Error String → Result Error ℕ → Time → Call Cert
  authenticates : Option Cert → Time → Call Cert
  renews : Option Cert → String → Result Error ℕ → Time → Time → Call Cert

abbrev pub is_ok : {A : Type 0} → Result Error A → Bool
is_ok (ok a) = true
is_ok (err e) = false

abbrev consumed_as : Bool → ℕ
consumed_as true = 0
consumed_as false = 1

most : {n : ℕ} (b : Bool) → n ≤ consumed_as b → n ≤ 1
most true h = omega (arith, h)
most false h = h

least : {n : ℕ} (b : Bool) → b ≡ true → n ≤ consumed_as b → n ≤ 0
least true t h = h
least false t h = cc

-- A call enrolls only with a token that was not consumed, and then it is; what is consumed stays so.
abbrev IsStep : TokenStore → TokenStore × Bool → Type 0
IsStep s (t, b) =
    ((b ≡ true) → (s.consumed ≡ false) × (t.consumed ≡ true))
    × ((s.consumed ≡ true) → t.consumed ≡ true)

module _ {Cert Csr Key : Type 0} (p : Packages Cert Csr Key) (authority : Authority Cert Key) where
  abbrev outcome : {A : Type 0} → TokenStore × Result Error A → TokenStore × Bool
  outcome (s, r) = (s, is_ok r)

  -- One call: the new store, and whether an agent was enrolled.
  unfoldable pub serve : Call Cert → TokenStore → TokenStore × Bool
  serve (enrolls request drawn serial now) s =
      outcome (enroll_context p authority request drawn serial now s)
  serve (authenticates peer now) s = ((authenticate_context p authority peer now s).0, false)
  serve (renews peer csr_pem serial now later) s =
      ((renew_context p authority peer csr_pem serial now later s).0, false)

  -- How many agents the calls enroll, one after the other.
  unfoldable pub enrolled : List (Call Cert) → TokenStore → ℕ
  enrolled [] s = 0
  enrolled (c ∷ cs) s =
      let rest = enrolled cs (serve c s).0 in if (serve c s).1 then suc rest else rest

  still : (s : TokenStore) → IsStep s (s, false)
  still s = ((λ e. cc), (λ e. e))

  consume-IsStep :
      (hash agent_id : String) (identity : Identity) (s : TokenStore)
      → IsStep s (outcome ((consume_enrollment_token hash agent_id >> pure identity) s))
  unfolding consume_enrollment_token
  consume-IsStep hash agent_id identity s = elim (Bool-cases (not (hash == s.bootstrap_hash))) [
    | inl t ↦ rw t (still s)
    | inr f ↦ elim (Bool-cases s.consumed) [
      | inl t ↦ rw (f, t) ((λ e. cc), (λ e. refl))
      | inr g ↦ rw (f, g) ((λ e. (refl, refl)), (λ e. refl))
    ]
  ]

  lift-IsStep :
      {B : Type 0} (r : Result Error B) (next : B → Exec TokenStore Error Identity) (s : TokenStore)
      → ((b : B) → IsStep s (outcome (next b s)))
      → IsStep s (outcome ((lift r >>= next) s))
  lift-IsStep (ok b) next s h = h b
  lift-IsStep (err e) next s h = still s

  enroll-IsStep :
      (request : Request) (drawn : Result Error String) (serial : Result Error ℕ) (now : Time)
      (s : TokenStore)
      → IsStep s (outcome (enroll_context p authority request drawn serial now s))
  unfolding enroll_context
  enroll-IsStep request drawn serial now s = search (lift-IsStep, consume-IsStep) depth 12

  abbrev Same : {A : Type 0} → Exec TokenStore Error A → Type 0
  Same m = (s : TokenStore) → (m s).0 ≡ s

  lift-Same :
      {A B : Type 0} (r : Result Error B) (next : B → Exec TokenStore Error A)
      → ((b : B) → Same (next b))
      → Same (lift r >>= next)
  lift-Same (ok b) next h s = h b s
  lift-Same (err e) next h s = refl

  then-Same :
      {A B : Type 0} (m : Exec TokenStore Error B) (next : B → Exec TokenStore Error A)
      → Same m
      → ((b : B) → Same (next b))
      → Same (m >>= next)
  then-Same {A} {B} m next first h s = go (m s).1 ∙ first s
    where
      go : (r : Result Error B) → (resume r next (m s).0).0 ≡ (m s).0
      go (ok b) = h b (m s).0
      go (err e) = refl

  authenticate-Same :
      (peer : Option Cert) (now : Time) → Same (authenticate_context p authority peer now)
  unfolding authenticate_context
  authenticate-Same peer now = lift-Same (authenticate p authority peer now) _ (λ agent_id s. refl)

  renew-Same :
      (peer : Option Cert) (csr_pem : String) (serial : Result Error ℕ) (now later : Time)
      → Same (renew_context p authority peer csr_pem serial now later)
  unfolding renew_context
  renew-Same peer csr_pem serial now later =
      lift-Same (renewable p authority (parse_csr p csr_pem) peer) _ (λ (csr, known).
        then-Same (authenticate_context p authority (some known) now) _
          (authenticate-Same (some known) now) (λ agent s. refl))

  serve-IsStep : (c : Call Cert) (s : TokenStore) → IsStep s (serve c s)
  unfolding serve
  serve-IsStep (enrolls request drawn serial now) s = enroll-IsStep request drawn serial now s
  serve-IsStep (authenticates peer now) s = rw (authenticate-Same peer now s) (still s)
  serve-IsStep (renews peer csr_pem serial now later) s =
      rw (renew-Same peer csr_pem serial now later s) (still s)

  enrolled-bound : (cs : List (Call Cert)) (s : TokenStore) → enrolled cs s ≤ consumed_as s.consumed
  unfolding enrolled
  enrolled-bound [] s = omega arith
  enrolled-bound (c ∷ cs) s = step (serve c s) (serve-IsStep c s) (enrolled-bound cs (serve c s).0)
    where
      step :
          (t : TokenStore × Bool)
          → IsStep s t
          → enrolled cs t.0 ≤ consumed_as t.0.consumed
          → (if t.1 then suc (enrolled cs t.0) else enrolled cs t.0) ≤ consumed_as s.consumed
      step (t, true) h rest =
          let (before, after) = h.0 refl in
          rw before (let last = least t.consumed after rest in omega (arith, last))
      step (t, false) h rest = elim (Bool-cases s.consumed) [
        | inl y ↦ rw y (least t.consumed (h.1 y) rest)
        | inr f ↦ rw f (most t.consumed rest)
      ]

  -- Whatever is asked of an authority, in whatever order, and whether its token is consumed at the start or
  -- not, it enrolls at most one agent.
  pub enrolled-once : (cs : List (Call Cert)) (s : TokenStore) → enrolled cs s ≤ 1
  enrolled-once cs s = let h = enrolled-bound cs s in most s.consumed h
