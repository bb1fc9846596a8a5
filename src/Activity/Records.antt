-- ===== src/Activity/Records.antt =====
-- Which records the stores of jobs and of alerts answer the feed with.
use bazusop.Base.{
  ◌≡◌, ◌⊎◌, ◌↔◌, refl, ap, sym, subst, ==_refl, inl, inr, true, not, String, List, [], ◌∷◌, ◌++◌,
  Option, none, some, ok, map, Bool-cases, string_comparable, ◌==◌, ==_cases,
}
use bazusop.Base.Assoc.{Map, lookup}
use bazusop.Tenancy.{Scope, scope_valid, scope_comparable}
use bazusop.Jobs.{Job, Event, JobKey, MemoryStore, job_key_comparable}
use bazusop.Jobs.Store.{EventRecord, agent_of, all_events_from, all_events}

abbrev pub Has : {A : Type 0} → A → List A → Type 0
Has x [] = ⊥
Has x (y ∷ ys) = (y ≡ x) ⊎ Has x ys

module _ {A : Type 0} (x : A) where
  pub Has-left : (xs ys : List A) → Has x xs → Has x (xs ++ ys)
  Has-left (y ∷ xs) ys (inl e) = inl e
  Has-left (y ∷ xs) ys (inr h) = inr (Has-left xs ys h)
  Has-left [] ys h = absurd h

  pub Has-right : (xs ys : List A) → Has x ys → Has x (xs ++ ys)
  Has-right [] ys h = h
  Has-right (y ∷ xs) ys h = inr (Has-right xs ys h)

  pub append-Has : (xs ys : List A) → Has x (xs ++ ys) → Has x xs ⊎ Has x ys
  append-Has [] ys h = inr h
  append-Has (y ∷ xs) ys (inl e) = inl (inl e)
  append-Has (y ∷ xs) ys (inr h) = elim (append-Has xs ys h) [ inl l ↦ inl (inr l) | inr r ↦ inr r ]

-- The agent of a job that may be missing.
abbrev pub Named : Option Job → String → Type 0
Named none a = a ≡ ""
Named (some j) a = a ≡ j.agent_id

pub Has-map : {A B : Type 0} (f : A → B) (x : A) (xs : List A) → Has x xs → Has (f x) (map f xs)
Has-map f x [] h = absurd h
Has-map f x (y ∷ xs) (inl e) = inl (ap f e)
Has-map f x (y ∷ xs) (inr h) = inr (Has-map f x xs h)

pub map-Has :
    {A B : Type 0} (f : A → B) (z : B) (xs : List A)
    → Has z (map f xs)
    → (x : A) × Has x xs × (f x ≡ z)
map-Has f z [] h = absurd h
map-Has f z (y ∷ xs) (inl e) = (y, inl refl, e)
map-Has f z (y ∷ xs) (inr h) = let (x, there, e) = map-Has f z xs h in (x, inr there, e)

-- A log of the scope with the event stands among the logs, and the record names the agent of its job, or no
-- agent if there is no such job.
pub record IsOfJobs (jobs : Map JobKey Job) (logs : Map JobKey (List Event)) (scope : Scope)
    (r : EventRecord) : Type 0 where
  pub key : JobKey
  pub log : List Event
  pub stands : Has (key, log) logs
  pub in_scope : key.scope ≡ scope
  pub holds : Has r.event log
  pub agent : Named (lookup key jobs) r.agent_id

module _ (jobs : Map JobKey Job) (scope : Scope) where
  abbrev told : JobKey → Event → EventRecord
  told k e = record { event = e; agent_id = agent_of (lookup k jobs) }

  told-Named : (o : Option Job) → Named o (agent_of o)
  told-Named none = refl
  told-Named (some j) = refl

  Named-unique : (o : Option Job) (a : String) → Named o a → a ≡ agent_of o
  Named-unique none a h = h
  Named-unique (some j) a h = h

  later :
      (k : JobKey) (es : List Event) (m : Map JobKey (List Event)) (r : EventRecord)
      → IsOfJobs jobs m scope r
      → IsOfJobs jobs ((k, es) ∷ m) scope r
  later k es m r w = record {
    key = w.key;
    log = w.log;
    stands = inr w.stands;
    in_scope = w.in_scope;
    holds = w.holds;
    agent = w.agent;
  }

  told-IsOfJobs :
      (k : JobKey) (es : List Event) (m : Map JobKey (List Event)) (r : EventRecord)
      → k.scope ≡ scope
      → Has r (map (told k) es)
      → IsOfJobs jobs ((k, es) ∷ m) scope r
  told-IsOfJobs k es m r same h =
      let (e, there, made) = map-Has (told k) r es h in
      subst (IsOfJobs jobs ((k, es) ∷ m) scope) made (record {
        key = k;
        log = es;
        stands = inl refl;
        in_scope = same;
        holds = there;
        agent = told-Named (lookup k jobs);
      })

  only :
      (m : Map JobKey (List Event)) (r : EventRecord)
      → Has r (all_events_from jobs scope m)
      → IsOfJobs jobs m scope r
  unfolding all_events_from
  only [] r h = absurd h
  only ((k, es) ∷ m) r h = elim (==_cases k.scope scope) [
    | inl (t, same) ↦
        let h' = rw t at h in
        elim (append-Has r (map (told k) es) (all_events_from jobs scope m) h') [
          | inl l ↦ told-IsOfJobs k es m r same l
          | inr x ↦ later k es m r (only m r x)
        ]
    | inr (f, _) ↦ later k es m r (only m r (let b = rw f at h in b))
  ]

  each :
      (m : Map JobKey (List Event)) (k : JobKey) (es : List Event) (e : Event)
      → Has (k, es) m
      → k.scope ≡ scope
      → Has e es
      → Has (told k e) (all_events_from jobs scope m)
  unfolding all_events_from
  each [] k es e h same there = absurd h
  each ((j, ds) ∷ m) k es e (inl p) same there =
      let t : (j.scope == scope) ≡ true =
        rw (ap (λ (x : JobKey × List Event). x.0.scope) p, same) (==_refl scope) in
      let first = Has-map (told k) e es there in
      let moved : Has (told k e) (map (told j) ds) =
        subst (λ (x : JobKey × List Event). Has (told k e) (map (told x.0) x.1)) (sym p) first in
      rw t (Has-left (told k e) (map (told j) ds) (all_events_from jobs scope m) moved)
  each ((j, ds) ∷ m) k es e (inr h) same there =
      let rest = each m k es e h same there in
      elim (==_cases j.scope scope) [
        | inl (t, _) ↦
            rw t (Has-right (told k e) (map (told j) ds) (all_events_from jobs scope m) rest)
        | inr (f, _) ↦ rw f rest
      ]

  -- The loop of AllEvents collects the records of the logs of the scope, and no others.
  pub all_events_from-IsOfJobs :
      (m : Map JobKey (List Event)) (r : EventRecord)
      → Has r (all_events_from jobs scope m) ↔ IsOfJobs jobs m scope r
  all_events_from-IsOfJobs m r = (
    only m r,
    λ w.
        let found = each m w.key w.log r.event w.stands w.in_scope w.holds in
        let same : r.agent_id ≡ agent_of (lookup w.key jobs) =
          Named-unique (lookup w.key jobs) r.agent_id w.agent in
        subst (λ a. Has (record { event = r.event; agent_id = a }) (all_events_from jobs scope m))
          (sym same) found,
  )

pub all_events-IsOfJobs :
    (s : MemoryStore) (scope : Scope) (rs : List EventRecord) (r : EventRecord)
    → all_events s scope ≡ ok rs
    → Has r rs ↔ IsOfJobs s.jobs s.events scope r
unfolding all_events
all_events-IsOfJobs s scope rs r h = elim (Bool-cases (not (scope_valid scope))) [
  | inl t ↦ absurd (let b = rw t at h in cc)
  | inr f ↦
      let b = rw f at h in
      let same : all_events_from s.jobs scope s.events ≡ rs = cc in
      subst (λ xs. Has r xs ↔ IsOfJobs s.jobs s.events scope r) same
        (all_events_from-IsOfJobs s.jobs scope s.events r)
]
