-- ===== src/Logstream/Kept.antt =====
-- What is kept of an agent's logs.
use bazusop.Base.{
  ℕ, ◌-◌, ◌≤◌, ◌≡◌, Bool, true, false, List, [], ◌∷◌, ◌==◌, ltb, All, any, length, Bool-cases, ◌⊎◌,
  inl, inr, arith, ==_cases, string_comparable, nat_comparable,
}
use bazusop.Base.Ordered.{
  All-sort_by, All-drop, length-drop, IsAscending, drop-IsAscending, sort_by-IsAscending,
}
use bazusop.Base.Sort.{sort_by}
use bazusop.Base.Assoc.{Map, lookup, insert, lookup-insert}
use bazusop.Tenancy.{Agent, agent_comparable}
use bazusop.Jobs.Store.{or_empty}
use bazusop.Logstream.{Entry}
use bazusop.Logstream.Store.{agent_of, earlier, latest, settle}

abbrev pub of : Agent → Map Agent (List Entry) → List Entry
of k m = or_empty (lookup k m)

-- The entries are the agent's.
abbrev pub Own : Agent → List Entry → Type 0
Own k es = All (λ (e : Entry). agent_of e ≡ k) es

pub ascends : (y x : Entry) → earlier y x ≡ true → y.occurred_at ≤ x.occurred_at
ascends y x h = ground arith

pub descends : (y x : Entry) → earlier y x ≡ false → x.occurred_at ≤ y.occurred_at
descends y x h = ground arith

-- No more than ten thousand entries, of the agent, the oldest first.
abbrev pub IsKept : Agent → List Entry → Type 0
IsKept k es = (length es ≤ 10000) × Own k es × IsAscending (λ (e : Entry). e.occurred_at) es

pub length-latest : (n : ℕ) (es : List Entry) → length (latest n es) ≤ n
length-latest n es = elim (Bool-cases (ltb n (length es))) [
  | inl t ↦ rw t (omega (arith, length-drop (length es - n) es, length-drop_le n (length es) t))
  | inr f ↦ rw f (ground arith)
]
  where
    length-drop_le : (n m : ℕ) → ltb n m ≡ true → m - (m - n) ≤ n
    length-drop_le n m h = ground arith

pub All-latest : (P : Entry → Type 0) (n : ℕ) (es : List Entry) → All P es → All P (latest n es)
All-latest P n es h = elim (Bool-cases (ltb n (length es))) [
  | inl t ↦ rw t (All-drop P (length es - n) es h)
  | inr f ↦ rw f h
]

pub latest-IsAscending :
    (n : ℕ) (es : List Entry)
    → IsAscending (λ (e : Entry). e.occurred_at) es
    → IsAscending (λ (e : Entry). e.occurred_at) (latest n es)
latest-IsAscending n es h = elim (Bool-cases (ltb n (length es))) [
  | inl t ↦ rw t (drop-IsAscending (λ (e : Entry). e.occurred_at) (length es - n) es h)
  | inr f ↦ rw f h
]

pub sorted : (es : List Entry) → IsAscending (λ (e : Entry). e.occurred_at) (sort_by earlier es)
sorted es = sort_by-IsAscending (λ (e : Entry). e.occurred_at) earlier ascends descends es

settled : (k : Agent) (es : List Entry) → Own k es → IsKept k (latest 10000 (sort_by earlier es))
settled k es own = (
  length-latest 10000 (sort_by earlier es),
  All-latest (λ (e : Entry). agent_of e ≡ k) 10000 (sort_by earlier es)
      (All-sort_by (λ (e : Entry). agent_of e ≡ k) earlier es own),
  latest-IsAscending 10000 (sort_by earlier es) (sorted es),
)

abbrev pub has : Agent → List Agent → Bool
has k agents = any (λ a. a == k) agents

pub settle-IsKept :
    (m : Map Agent (List Entry)) (agents : List Agent) (k : Agent)
    → Own k (of k m)
    → (has k agents ≡ true) ⊎ IsKept k (of k m)
    → IsKept k (of k (settle m agents))
unfolding settle
settle-IsKept m [] k own (inl t) = cc
settle-IsKept m [] k own (inr kept) = kept
settle-IsKept m (a ∷ agents) k own h =
    let fresh = latest 10000 (sort_by earlier (of a m)) in
    elim (==_cases a k) [
      | inl (t, same) ↦
          let now : IsKept k (of k (insert a fresh m)) =
            rw (lookup-insert m a fresh k, t, same) (settled k (of k m) own) in
          settle-IsKept (insert a fresh m) agents k now.1 (inr now)
      | inr (f, n) ↦
          settle-IsKept (insert a fresh m) agents k (rw (lookup-insert m a fresh k, f) own)
            (rw (lookup-insert m a fresh k, f) (later f h))
    ]
  where
    later :
        (a == k) ≡ false
        → (has k (a ∷ agents) ≡ true) ⊎ IsKept k (of k m)
        → (has k agents ≡ true) ⊎ IsKept k (of k m)
    later f (inl t) = inl (ground (arith, f, t))
    later f (inr kept) = inr kept
