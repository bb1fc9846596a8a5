-- ===== src/Logstream/Bounds.antt =====
-- What a store keeps of an agent's logs after any uploads.
use bazusop.Base.{
  subst, ℕ, ◌≡◌, refl, ◌∙◌, String, Bool, true, false, not, List, [], ◌∷◌, ◌++◌, Result, ◌==◌,
  if◌then◌else◌, any, Bool-cases, ◌⊎◌, inl, inr, arith, ==_cases, All-append, string_comparable,
  nat_comparable,
}
use bazusop.Base.Keeps.{Keeps, keeps_rules}
use bazusop.Base.Assoc.{Map, lookup, insert, values, lookup-insert}
use bazusop.Tenancy.{Agent, agent_comparable}
use bazusop.Logstream.{Error, Entry, MemoryStore}
use bazusop.Logstream.Store.{
  agent_of, same_key, all_valid, concat, append_new, affected, settle, append_logs, empty_store,
}
use bazusop.Logstream.Service.{ingest}
use bazusop.Logstream.Kept.{of, Own, IsKept, has, settle-IsKept}

-- The agents of entries, the agent `k` among them or not.
abbrev for : Agent → List Entry → Bool
for k es = any (λ e. agent_of e == k) es

affected-has :
    (agents : List Agent) (es : List Entry) (k : Agent)
    → (has k agents ≡ true) ⊎ (for k es ≡ true)
    → has k (affected agents es) ≡ true
unfolding affected
affected-has agents [] k (inl t) = t
affected-has agents [] k (inr t) = cc
affected-has agents (e ∷ es) k h =
    affected-has (if has (agent_of e) agents then agents else agents ++ agent_of e ∷ []) es k
      (step h)
  where
    has_last : (agents : List Agent) (a : Agent) → (a == k) ≡ true → has k (agents ++ a ∷ []) ≡ true
    has_last [] a t = ground (arith, t)
    has_last (b ∷ agents) a t = ground (arith, has_last agents a t)

    has_more :
        (agents : List Agent) (a : Agent) → has k agents ≡ true → has k (agents ++ a ∷ []) ≡ true
    has_more [] a t = cc
    has_more (b ∷ agents) a t = ground (arith, has_more agents a)

    has_same :
        (agents : List Agent) (a : Agent)
        → has a agents ≡ true
        → (a == k) ≡ true
        → has k agents ≡ true
    has_same agents a t e = elim (==_cases a k) [
      | inl (_, same) ↦ subst (λ x. has x agents ≡ true) same t
      | inr (f, _) ↦ absurd (let b = e in cc)
    ]

    step :
        (has k agents ≡ true) ⊎ (for k (e ∷ es) ≡ true)
        → (has k (if has (agent_of e) agents then agents else agents ++ agent_of e ∷ []) ≡ true)
          ⊎ (for k es ≡ true)
    step h = elim (Bool-cases (has (agent_of e) agents)) [
      | inl y ↦ rw y (known y h)
      | inr n ↦ rw n (new h)
    ]
      where
        known :
            has (agent_of e) agents ≡ true
            → (has k agents ≡ true) ⊎ (for k (e ∷ es) ≡ true)
            → (has k agents ≡ true) ⊎ (for k es ≡ true)
        known y (inl t) = inl t
        known y (inr t) = elim (Bool-cases (agent_of e == k)) [
          | inl s ↦ inl (has_same agents (agent_of e) y s)
          | inr f ↦ inr (ground (arith, f, t))
        ]

        new :
            (has k agents ≡ true) ⊎ (for k (e ∷ es) ≡ true)
            → (has k (agents ++ agent_of e ∷ []) ≡ true) ⊎ (for k es ≡ true)
        new (inl t) = inl (has_more agents (agent_of e) t)
        new (inr t) = elim (Bool-cases (agent_of e == k)) [
          | inl s ↦ inl (has_last agents (agent_of e) s)
          | inr f ↦ inr (ground (arith, f, t))
        ]

-- What an agent has after the loop is its own, and is what it had unless something was stored for it.
abbrev Appended : Agent → Map Agent (List Entry) → Map Agent (List Entry) × List Entry → Type 0
Appended k m p = Own k (of k p.0) × ((for k p.1 ≡ true) ⊎ (of k p.0 ≡ of k m))

append_new-Appended :
    (m : Map Agent (List Entry)) (known es : List Entry) (k : Agent)
    → Own k (of k m)
    → Appended k m (append_new m known es)
unfolding append_new
append_new-Appended m known [] k own = (own, inr refl)
append_new-Appended m known (e ∷ es) k own = elim (Bool-cases (any (same_key e) known)) [
  | inl y ↦ rw y (append_new-Appended m known es k own)
  | inr n ↦ rw n (
      let m' = insert (agent_of e) (of (agent_of e) m ++ e ∷ []) m in
      elim (==_cases (agent_of e) k) [
        | inl (t, same) ↦
            let now : Own k (of k m') =
              rw (lookup-insert m (agent_of e) (of (agent_of e) m ++ e ∷ []) k, t, same)
                (All-append (λ (x : Entry). agent_of x ≡ k) (of k m) (e ∷ []) own (same, tt)) in
            ((append_new-Appended m' (e ∷ known) es k now).0, inl (ground (arith, t)))
        | inr (f, _) ↦
            let still : of k m' ≡ of k m =
              rw (lookup-insert m (agent_of e) (of (agent_of e) m ++ e ∷ []) k, f) refl in
            let (own', same) = append_new-Appended m' (e ∷ known) es k (rw still own) in
            (own', carry (append_new m' (e ∷ known) es).1 f still same)
      ])
]
  where
    carry :
        {x y z : List Entry} (stored : List Entry)
        → (agent_of e == k) ≡ false
        → y ≡ z
        → (for k stored ≡ true) ⊎ (x ≡ y)
        → (for k (e ∷ stored) ≡ true) ⊎ (x ≡ z)
    carry stored f s (inl t) = inl (ground (arith, f, t))
    carry stored f s (inr p) = inr (p ∙ s)

append_logs-IsKept :
    (k : Agent) (es : List Entry) → Keeps (λ s. IsKept k (of k s.entries)) (λ s. append_logs s es)
unfolding append_logs
append_logs-IsKept k es = record {
  at = λ s h. elim (Bool-cases (not (all_valid es))) [ inl t ↦ rw t h | inr f ↦ rw f (go s h) ];
}
  where
    go :
        (s : MemoryStore)
        → IsKept k (of k s.entries)
        → let (m, stored) = append_new s.entries (concat (values s.entries)) es in
          IsKept k (of k (settle m (affected [] stored)))
    go s h =
        let p = append_new s.entries (concat (values s.entries)) es in
        let (own, touched) = append_new-Appended s.entries (concat (values s.entries)) es k h.1 in
        settle-IsKept p.0 (affected [] p.1) k own (either p touched)
      where
        either :
            (p : Map Agent (List Entry) × List Entry)
            → (for k p.1 ≡ true) ⊎ (of k p.0 ≡ of k s.entries)
            → (has k (affected [] p.1) ≡ true) ⊎ IsKept k (of k p.0)
        either p (inl t) = inl (affected-has [] p.1 k (inr t))
        either p (inr e) = inr (rw e h)

pub record Upload : Type 0 where
  pub agent : Agent
  pub batch : List Entry
  pub drawn : ℕ → Result Error String

unfoldable pub ingest_all : (String → String) → MemoryStore → List Upload → MemoryStore
ingest_all to_lower s [] = s
ingest_all to_lower s (u ∷ us) =
    ingest_all to_lower (ingest to_lower u.agent u.batch u.drawn s).0 us

ingest-IsKept :
    (to_lower : String → String) (k a : Agent) (batch : List Entry)
    (drawn : ℕ → Result Error String)
    → Keeps (λ s. IsKept k (of k s.entries)) (ingest to_lower a batch drawn)
unfolding ingest
ingest-IsKept to_lower k a batch drawn = search (keeps_rules, append_logs-IsKept) depth 12

-- Whatever is uploaded to an empty store, in any order and by whichever agents, what it keeps for an agent
-- is the agent's own, stands oldest first, and is never more than ten thousand entries.
pub ingest_all-IsKept :
    (to_lower : String → String) (us : List Upload) (k : Agent)
    → IsKept k (of k (ingest_all to_lower empty_store us).entries)
unfolding ingest_all lookup
ingest_all-IsKept to_lower us k = go us empty_store start
  where
    start : IsKept k (of k empty_store.entries)
    start = (omega arith, tt, tt)

    go :
        (us : List Upload) (s : MemoryStore)
        → IsKept k (of k s.entries)
        → IsKept k (of k (ingest_all to_lower s us).entries)
    go [] s h = h
    go (u ∷ us) s h =
        go us (ingest to_lower u.agent u.batch u.drawn s).0
          ((ingest-IsKept to_lower k u.agent u.batch u.drawn).at s h)
