-- ===== src/Logstream/Listing.antt =====
-- What a search of the logs shows.
use bazusop.Base.{
  ◌≤◌, ◌-◌, ℕ, ◌++◌, [], ◌∷◌, take, drop, All-map, ap, sym, ◌∙◌, if◌then◌else◌, ltb, ◌≡◌, refl,
  subst, true, false, not, String, List, ok, err, Result, arith, All, filter, filter_sound, length,
  Bool-cases, inl, inr, lift, reads, resume, ◌>>=◌, trim_space,
}
use bazusop.Base.Ordered.{All-sort_by, length-drop, IsAscending}
use bazusop.Base.Sort.{sort_by}
use bazusop.Base.Assoc.{lookup}
use bazusop.Base.Parts.{take-append-drop, filter-perm, sort_by-perm}
use mathlib.Core.List.{Perm}
use mathlib.Core.List.Perm
use bazusop.Logstream.Wanted.{Wanted, matches_iff}
use bazusop.Tenancy.{scope_valid, agent_comparable}
use bazusop.Jobs.Store.{or_empty}
use bazusop.Logstream.{Error, Entry, Query, MemoryStore}
use bazusop.Logstream.Store.{matches, earlier, latest, search_logs}
use bazusop.Logstream.Service.{
  normalize_collector, normalize_severity, trimmed, query_refused, if_given, search_entries,
}
use bazusop.Logstream.Kept.{sorted}

-- What the store has of the agent of a query.
abbrev pub logs_of : MemoryStore → Query → List Entry
logs_of s q = or_empty (
    lookup
      (record {
        id = q.agent_id;
        organization_id = q.scope.organization_id;
        site_id = q.scope.site_id;
      })
      s.entries)

-- The agent's stored entries are those of the answer, older ones that the query wants too, and others that
-- it does not want. Older ones and answer follow one another in time, and older ones are left out only
-- beyond the limit.
abbrev pub IsAnswer : (String → String) → MemoryStore → Query → List Entry → Type 0
IsAnswer to_lower s q es =
    (left_out : List Entry) × (others : List Entry) × Perm ((left_out ++ es) ++ others)
      (logs_of s q)
    × All (λ (e : Entry). Wanted to_lower q e) (left_out ++ es)
    × All (λ (e : Entry). ¬ Wanted to_lower q e) others
    × IsAscending (λ (e : Entry). e.occurred_at) (left_out ++ es)
    × (length es
        ≡ (if ltb q.limit (length (left_out ++ es)) then q.limit else length (left_out ++ es)))

length-drop_cut : (n m k : ℕ) → k ≡ m - (m - n) → k ≡ (if ltb n m then n else m)
length-drop_cut n m k e = ground arith

latest-IsAnswer :
    (to_lower : String → String) (s : MemoryStore) (q : Query)
    → IsAnswer to_lower s q
        (latest q.limit (sort_by earlier (filter (matches to_lower q) (logs_of s q))))
latest-IsAnswer to_lower s q =
    let all = logs_of s q in
    let found = filter (matches to_lower q) all in
    let others = filter (λ e. not (matches to_lower q e)) all in
    let ordered = sort_by earlier found in
    let n = length ordered - q.limit in
    let whole : take n ordered ++ latest q.limit ordered ≡ ordered =
      ap (λ es. take n ordered ++ es) (latest_drop q.limit ordered) ∙ take-append-drop n ordered in
    (
      take n ordered,
      others,
      rw whole (
          Perm.trans (Perm.append_right others (sort_by-perm earlier found))
            (filter-perm (matches to_lower q) all)),
      rw whole (
          All-sort_by (λ (e : Entry). Wanted to_lower q e) earlier found
            (All-map (λ e. (matches_iff to_lower q e).0) found
              (filter_sound (matches to_lower q) all))),
      All-map (unwanted) others (filter_sound (λ e. not (matches to_lower q e)) all),
      rw whole (sorted found),
      rw whole (
          length-drop_cut q.limit (length ordered) (length (latest q.limit ordered))
            (ap (λ es. length es) (latest_drop q.limit ordered) ∙ length-drop n ordered)),
    )
  where
    drop_zero : (es : List Entry) → drop 0 es ≡ es
    drop_zero [] = refl
    drop_zero (e ∷ es) = refl

    latest_drop : (n : ℕ) (es : List Entry) → latest n es ≡ drop (length es - n) es
    latest_drop n es = elim (Bool-cases (ltb n (length es))) [
      | inl t ↦ rw t refl
      | inr f ↦ rw f (let z : length es - n ≡ 0 = ground arith in rw z (sym (drop_zero es)))
    ]

    unwanted : (e : Entry) → not (matches to_lower q e) ≡ true → ¬ Wanted to_lower q e
    unwanted e h w = let t = (matches_iff to_lower q e).1 w in cc

search_logs-IsAnswer :
    (to_lower : String → String) (s : MemoryStore) (q : Query) (es : List Entry)
    → search_logs to_lower s q ≡ ok es
    → IsAnswer to_lower s q es
unfolding search_logs
search_logs-IsAnswer to_lower s q es h = elim (Bool-cases (not (scope_valid q.scope))) [
  | inl t ↦ absurd (let h' = rw t at h in cc)
  | inr f ↦
      let h' = rw f at h in
      let same : latest q.limit (sort_by earlier (filter (matches to_lower q) (logs_of s q))) ≡ es =
        cc in
      subst (IsAnswer to_lower s q) same (latest-IsAnswer to_lower s q)
]

-- The query that is answered: the one that was sent, trimmed, with its collector and its severity as
-- they are stored.
pub record IsAsked (to_lower : String → String) (query q : Query) : Type 0 where
  pub scope : q.scope ≡ query.scope
  pub agent : q.agent_id ≡ trim_space query.agent_id
  pub window : (q.from ≡ query.from) × (q.to ≡ query.to)
  pub texts : (q.source ≡ trim_space query.source) × (q.text ≡ trim_space query.text)
  pub collector :
      if_given query.collector (normalize_collector to_lower query.collector) ≡ ok q.collector
  pub severity :
      if_given query.severity (normalize_severity to_lower query.severity) ≡ ok q.severity
  pub limit : (q.limit ≡ query.limit) × (query.limit ≤ 500)

-- If a search answers, then it asked for at most 500 entries, and what is answered is the query that was
-- sent, trimmed and with the names of the collector and of the severity made plain. The answer has the
-- stored entries of the agent, in the scope of the query, that the query wants, from the oldest to the
-- newest: all of them, or, if they are more than were asked for, as many of the newest.
pub search_entries-IsAnswer :
    (to_lower : String → String) (s : MemoryStore) (query : Query) (es : List Entry)
    → (search_entries to_lower query s).1 ≡ ok es
    → (q : Query) × IsAsked to_lower query q × IsAnswer to_lower s q es
unfolding search_entries
search_entries-IsAnswer to_lower s query es h = elim (Bool-cases (not (scope_valid query.scope))) [
  | inl t ↦ absurd (let h' = rw t at h in cc)
  | inr f ↦ elim (Bool-cases (query_refused (trimmed query))) [
    | inl t ↦ absurd (let h' = rw (f, t) at h in cc)
    | inr g ↦
        let h' = rw (f, g) at h in
        collected g (if_given query.collector (normalize_collector to_lower query.collector)) refl
          h'
  ]
]
  where
    rated :
        query_refused (trimmed query) ≡ false
        → (collector : String)
        → if_given query.collector (normalize_collector to_lower query.collector) ≡ ok collector
        → (r : Result Error String)
        → if_given query.severity (normalize_severity to_lower query.severity) ≡ r
        → (resume r
            (λ severity. reads (λ t.
              search_logs to_lower t
                (record (trimmed query) { collector = collector; severity = severity })))
            s).1
          ≡ ok es
        → (q : Query) × IsAsked to_lower query q × IsAnswer to_lower s q es
    rated g collector c (ok severity) v h =
        let q : Query = record (trimmed query) { collector = collector; severity = severity } in
        (
          q,
          record {
            scope = refl;
            agent = refl;
            window = (refl, refl);
            texts = (refl, refl);
            collector = c;
            severity = v;
            limit = (refl, ground arith);
          },
          search_logs-IsAnswer to_lower s q es h,
        )
    rated g collector c (err e) v h = absurd (let b = h in cc)

    collected :
        query_refused (trimmed query) ≡ false
        → (r : Result Error String)
        → if_given query.collector (normalize_collector to_lower query.collector) ≡ r
        → (resume r
            (λ collector.
              lift (if_given query.severity (normalize_severity to_lower query.severity))
              >>= λ severity. reads (λ t.
                search_logs to_lower t
                  (record (trimmed query) { collector = collector; severity = severity })))
            s).1
          ≡ ok es
        → (q : Query) × IsAsked to_lower query q × IsAnswer to_lower s q es
    collected g (ok collector) c h =
        rated g collector c (if_given query.severity (normalize_severity to_lower query.severity))
          refl h
    collected g (err e) c h = absurd (let b = h in cc)
