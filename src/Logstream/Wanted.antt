-- ===== src/Logstream/Wanted.antt =====
-- Which entries a query wants.

use text.Mathlib.TextEquality.{Char-path}
use bazusop.Base.{
  ℕ, ◌≤◌, ◌≡◌, ◌⊎◌, ◌↔◌, refl, ap, inl, inr, true, String, Bool, ◌==◌, ◌&&◌, ◌||◌, not, arith,
  eq_iff, string_comparable, nat_comparable, Bool-cases, before, after,
}
use bazusop.Authorization.Store.{append}
use bazusop.Logstream.{Entry, Query}
use bazusop.Logstream.Store.{has_prefix, contains, matches}

-- The part stands in the text.
abbrev pub Within : String → String → Type 0
Within part s = (pre : String) × (post : String) × (s ≡ append pre (append part post))

has_prefix-append : (p s : String) → has_prefix p s ≡ true → (post : String) × (s ≡ append p post)
unfolding append
has_prefix-append String.[] s h = (s, refl)
has_prefix-append (String.◌∷◌ c p) String.[] h = cc
has_prefix-append (String.◌∷◌ c p) (String.◌∷◌ d s) h =
    let (post, e) = has_prefix-append p s (ground arith) in
    let same : c ≡ d = Char-path c d (ground arith) in (post, cc)

append-has_prefix : (p post : String) → has_prefix p (append p post) ≡ true
unfolding append
append-has_prefix String.[] post = refl
append-has_prefix (String.◌∷◌ c p) post = ground (arith, append-has_prefix p post)

contains-Within : (s part : String) → contains s part ≡ true → Within part s
unfolding contains append
contains-Within String.[] part h =
    let (post, e) = has_prefix-append part String.[] h in (String.[], post, e)
contains-Within (String.◌∷◌ c s) part h = elim (Bool-cases (has_prefix part (String.◌∷◌ c s))) [
  | inl t ↦ let (post, e) = has_prefix-append part (String.◌∷◌ c s) t in (String.[], post, e)
  | inr f ↦
      let (pre, post, e) = contains-Within s part (let b = rw f at h in b) in
      (String.◌∷◌ c pre, post, ap (λ x. String.◌∷◌ c x) e)
]

Within-contains : (pre part post : String) → contains (append pre (append part post)) part ≡ true
unfolding contains append
Within-contains String.[] String.[] String.[] = refl
Within-contains String.[] String.[] (String.◌∷◌ c post) = refl
Within-contains String.[] (String.◌∷◌ c part) post = ground (arith, append-has_prefix part post)
Within-contains (String.◌∷◌ c pre) part post = ground (arith, Within-contains pre part post)

contains_iff : (s part : String) → (contains s part ≡ true) ↔ Within part s
contains_iff s part =
    (contains-Within s part, λ (pre, post, e). rw e (Within-contains pre part post))

-- The entry is of the window, of the collector and of the severity that the query names, if it names one,
-- and has the texts of the query in its source and its message, whatever their case.
abbrev pub Wanted : (String → String) → Query → Entry → Type 0
Wanted to_lower q e =
    (q.from ≤ e.occurred_at)
    × (e.occurred_at ≤ q.to)
    × ((q.collector ≡ "") ⊎ (e.collector ≡ q.collector))
    × ((q.severity ≡ "") ⊎ (e.severity ≡ q.severity))
    × ((q.source ≡ "") ⊎ Within (to_lower q.source) (to_lower e.source))
    × ((q.text ≡ "") ⊎ Within (to_lower q.text) (to_lower e.message))

asks_name : (x y : String) → (not (not (x == "") && not (y == x)) ≡ true) ↔ ((x ≡ "") ⊎ (y ≡ x))
asks_name x y = ground (arith, eq_iff x "", eq_iff y x)

asks_part :
    (x part s : String)
    → (not (not (x == "") && not (contains s part)) ≡ true) ↔ ((x ≡ "") ⊎ Within part s)
asks_part x part s = (
  λ h. elim (Bool-cases (x == "")) [
    | inl t ↦ inl ((eq_iff x "").0 t)
    | inr f ↦ inr (contains-Within s part (let b = rw f at h in ground arith))
  ],
  λ h. elim h [
    | inl e ↦ let t = (eq_iff x "").1 e in ground arith
    | inr w ↦ let t = (contains_iff s part).1 w in ground arith
  ],
)

-- A chain of five tests.
all_of :
    {a b c d e : Bool}
    → ((a && b && c && d && e) ≡ true)
      ↔ ((a ≡ true) × (b ≡ true) × (c ≡ true) × (d ≡ true) × (e ≡ true))
all_of = ground arith

in_window : (t from to : ℕ) → (not (before t from || after t to) ≡ true) ↔ ((from ≤ t) × (t ≤ to))
in_window t from to = ground arith

pub matches_iff :
    (to_lower : String → String) (q : Query) (e : Entry)
    → (matches to_lower q e ≡ true) ↔ Wanted to_lower q e
matches_iff to_lower q e =
    let w = in_window e.occurred_at q.from q.to in
    let c = asks_name q.collector e.collector in
    let v = asks_name q.severity e.severity in
    let s = asks_part q.source (to_lower q.source) (to_lower e.source) in
    let t = asks_part q.text (to_lower q.text) (to_lower e.message) in
    (
      λ h.
          let (hw, hc, hv, hs, ht) = all_of.0 h in
          let (a, b) = w.0 hw in (a, b, c.0 hc, v.0 hv, s.0 hs, t.0 ht),
      λ (a, b, hc, hv, hs, ht). all_of.1 (w.1 (a, b), c.1 hc, v.1 hv, s.1 hs, t.1 ht),
    )
