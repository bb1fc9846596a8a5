-- ===== src/Logstream/Store.antt =====
-- The methods of logstream.MemoryStore. strings.ToLower is an argument.
use Prim.Native.Char.{code}
use bazusop.Base.{
  ℕ, ◌-◌, String, Bool, true, false, not, ◌&&◌, ◌||◌, List, [], ◌∷◌, ◌++◌, Result, ok, err, ◌==◌,
  string_comparable, nat_comparable, string_ltb, ltb, if◌then◌else◌, before, after, filter, any,
  length, drop,
}
use bazusop.Base.Assoc.{Map, lookup, insert, values}
use bazusop.Base.Sort.{sort_by}
use bazusop.Tenancy.{Scope, Agent, scope_valid, agent_valid, scope_comparable, agent_comparable}
use bazusop.Jobs.Store.{or_empty}
use bazusop.Logstream.{Error, invalid_scope, Entry, Query, MemoryStore}

abbrev pub empty_store : MemoryStore
empty_store = record { entries = [] }

abbrev pub agent_of : Entry → Agent
agent_of e = record { id = e.agent_id; organization_id = e.organization_id; site_id = e.site_id }

abbrev pub scope_of_entry : Entry → Scope
scope_of_entry e = record { organization_id = e.organization_id; site_id = e.site_id }

-- The keys of two entries are the same.
abbrev pub same_key : Entry → Entry → Bool
same_key e f =
    scope_of_entry e == scope_of_entry f && e.id == f.id && e.occurred_at == f.occurred_at

abbrev pub all_valid : List Entry → Bool
all_valid [] = true
all_valid (e ∷ es) = agent_valid (agent_of e) && all_valid es

-- All entries of the store, whose keys are known.
abbrev pub concat : List (List Entry) → List Entry
concat [] = []
concat (es ∷ rest) = es ++ concat rest

-- The loop over the new entries, with those whose keys are known.
unfoldable pub append_new :
    Map Agent (List Entry) → List Entry → List Entry → Map Agent (List Entry) × List Entry
append_new m known [] = (m, [])
append_new m known (e ∷ es) =
    let duplicate = any (same_key e) known in
    let (m', stored) =
      append_new
        (if duplicate
          then m
          else insert (agent_of e) (or_empty (lookup (agent_of e) m) ++ e ∷ []) m)
        (if duplicate then known else e ∷ known) es in
    (m', if duplicate then stored else e ∷ stored)

abbrev pub earlier : Entry → Entry → Bool
earlier l r =
    if l.occurred_at == r.occurred_at
    then string_ltb l.id r.id
    else before l.occurred_at r.occurred_at

-- The latest `n` of a list.
abbrev pub latest : ℕ → List Entry → List Entry
latest n es = if ltb n (length es) then drop (length es - n) es else es

-- The agents that entries were stored for, each once.
unfoldable pub affected : List Agent → List Entry → List Agent
affected agents [] = agents
affected agents (e ∷ es) =
    affected (if any (λ a. a == agent_of e) agents then agents else agents ++ agent_of e ∷ []) es

unfoldable pub settle : Map Agent (List Entry) → List Agent → Map Agent (List Entry)
settle m [] = m
settle m (a ∷ agents) =
    settle (insert a (latest 10000 (sort_by earlier (or_empty (lookup a m)))) m) agents

unfoldable pub append_logs : MemoryStore → List Entry → MemoryStore × Result Error (List Entry)
unfolding append_new affected settle
append_logs s es =
    let (m, stored) = append_new s.entries (concat (values s.entries)) es in
    if not (all_valid es)
    then (s, err invalid_scope)
    else (record s { entries = settle m (affected [] stored) }, ok stored)

abbrev pub has_prefix : String → String → Bool
has_prefix String.[] s = true
has_prefix (String.◌∷◌ c p) String.[] = false
has_prefix (String.◌∷◌ c p) (String.◌∷◌ d s) = code c == code d && has_prefix p s

-- strings.Contains(s, part).
unfoldable pub contains : String → String → Bool
contains String.[] part = has_prefix part String.[]
contains (String.◌∷◌ c s) part = has_prefix part (String.◌∷◌ c s) || contains s part

-- The tests of the loop of SearchLogs.
abbrev pub matches : (String → String) → Query → Entry → Bool
matches to_lower q e =
    not (before e.occurred_at q.from || after e.occurred_at q.to)
    && not (not (q.collector == "") && not (e.collector == q.collector))
    && not (not (q.severity == "") && not (e.severity == q.severity))
    && not (not (q.source == "") && not (contains (to_lower e.source) (to_lower q.source)))
    && not (not (q.text == "") && not (contains (to_lower e.message) (to_lower q.text)))

abbrev pub asked : Query → Agent
asked q = record {
  id = q.agent_id;
  organization_id = q.scope.organization_id;
  site_id = q.scope.site_id;
}

unfoldable pub search_logs : (String → String) → MemoryStore → Query → Result Error (List Entry)
unfolding contains
search_logs to_lower s q =
    if not (scope_valid q.scope)
    then err invalid_scope
    else ok (
        latest q.limit
          (sort_by earlier (filter (matches to_lower q) (or_empty (lookup (asked q) s.entries)))))
