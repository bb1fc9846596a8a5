-- ===== src/Base/Keeps.antt =====
-- Calls that keep a property of the store, whether they return or fail.

use mathlib.Core.Path.{◌≡◌, refl, subst}
use mathlib.Core.Bool.{Bool, true, false}
use bazusop.Base.Outcome.{Result, ok, err, Exec, pure, lift, reads, refuse, resume, ◌>>=◌}

pub record Keeps {S E A : Type 0} (P : S → Type 0) (m : Exec S E A) : Type 0 where
  pub at : (s : S) → P s → P (m s).0

module _ {S E : Type 0} {P : S → Type 0} where
  pub Keeps-pure : {A : Type 0} (a : A) → Keeps P (pure {E = E} a)
  Keeps-pure a = record { at = λ s h. h }

  pub Keeps-lift : {A : Type 0} (r : Result E A) → Keeps P (lift r)
  Keeps-lift r = record { at = λ s h. h }

  pub Keeps-reads : {A : Type 0} (f : S → Result E A) → Keeps P (reads f)
  Keeps-reads f = record { at = λ s h. h }

  pub Keeps-refuse : (b : Bool) (e : E) → Keeps P (refuse b e)
  Keeps-refuse true e = record { at = λ s h. h }
  Keeps-refuse false e = record { at = λ s h. h }

  -- What follows a call keeps `P` whatever the call returned.
  pub Keeps-bind :
      {A B : Type 0} (m : Exec S E A) (next : A → Exec S E B)
      → Keeps P m
      → ((a : A) → Keeps P (next a))
      → Keeps P (m >>= next)
  Keeps-bind {A} m next first then_next = record {
    at = λ s h. continue (m s).1 (m s).0 (first.at s h);
  }
    where
      continue : (r : Result E A) (s : S) → P s → P (resume r next s).0
      continue (ok a) s h = (then_next a).at s h
      continue (err e) s h = h

-- What follows a refusal may take it that the refusal did not happen.
pub Keeps-unless :
    {S E A : Type 0} {P : S → Type 0} (b : Bool) (e : E) (next : Unit {0} → Exec S E A)
    → (b ≡ false → Keeps P (next tt))
    → Keeps P (refuse b e >>= next)
Keeps-unless true e next kept = record { at = λ s h. h }
Keeps-unless false e next kept = record { at = λ s h. (kept refl).at s h }

pub ruleset keeps_rules = (Keeps-refuse, Keeps-lift, Keeps-reads, Keeps-pure, Keeps-bind)

-- A call that leads from one property of the store to another, whether it returns or fails.
pub record Leads {S E A : Type 0} (P Q : S → Type 0) (m : Exec S E A) : Type 0 where
  pub at : (s : S) → P s → Q (m s).0

module _ {S E A B : Type 0} {P Q : S → Type 0} where
  pub Leads-first :
      (m : Exec S E A) (next : A → Exec S E B)
      → Keeps P m
      → ((s : S) → P s → Q s)
      → ((a : A) → Leads P Q (next a))
      → Leads P Q (m >>= next)
  Leads-first m next first weaken then_next = record {
    at = λ s h. continue (m s).1 (m s).0 (first.at s h);
  }
    where
      continue : (r : Result E A) (s : S) → P s → Q (resume r next s).0
      continue (ok a) s h = (then_next a).at s h
      continue (err e) s h = weaken s h

  pub Leads-then :
      (m : Exec S E A) (next : A → Exec S E B)
      → Leads P Q m
      → ((a : A) → Keeps Q (next a))
      → Leads P Q (m >>= next)
  Leads-then m next first then_next = record { at = λ s h. continue (m s).1 (m s).0 (first.at s h) }
    where
      continue : (r : Result E A) (s : S) → Q s → Q (resume r next s).0
      continue (ok a) s h = (then_next a).at s h
      continue (err e) s h = h

-- A call that returns only with `Q` of the store.
pub record Ends {S E A : Type 0} (Q : S → Type 0) (m : Exec S E A) : Type 0 where
  pub at : (s : S) (a : A) → (m s).1 ≡ ok a → Q (m s).0

module _ {S E A B : Type 0} {Q : S → Type 0} where
  pub Ends-bind :
      (m : Exec S E A) (next : A → Exec S E B) → ((a : A) → Ends Q (next a)) → Ends Q (m >>= next)
  Ends-bind m next then_next = record { at = λ s b e. continue (m s).1 (m s).0 b e }
    where
      continue :
          (r : Result E A) (s : S) (b : B) → (resume r next s).1 ≡ ok b → Q (resume r next s).0
      continue (ok a) s b e = (then_next a).at s b e
      continue (err x) s b e = cc

  pub Ends-then :
      (m : Exec S E A) (next : A → Exec S E B)
      → Ends Q m
      → ((a : A) → Keeps Q (next a))
      → Ends Q (m >>= next)
  Ends-then m next first then_next = record {
    at = λ s b e. continue (m s).1 (m s).0 b (first.at s) e;
  }
    where
      continue :
          (r : Result E A) (s : S) (b : B)
          → ((a : A) → r ≡ ok a → Q s)
          → (resume r next s).1 ≡ ok b
          → Q (resume r next s).0
      continue (ok a) s b q e = (then_next a).at s (q a refl)
      continue (err x) s b q e = cc

ok_injective : {E A : Type 0} {a b : A} → ◌≡◌ {A = Result E A} (ok a) (ok b) → a ≡ b
ok_injective e = cc

-- A call that returns only what satisfies `Q`.
pub record Yields {S E A : Type 0} (Q : A → Type 0) (m : Exec S E A) : Type 0 where
  pub at : (s : S) (a : A) → (m s).1 ≡ ok a → Q a

module _ {S E A : Type 0} {Q : A → Type 0} where
  pub Yields-pure : (a : A) → Q a → Yields {S = S} {E = E} Q (pure a)
  Yields-pure a q = record { at = λ s b e. subst Q (ok_injective e) q }

  pub Yields-bind :
      {B : Type 0} (m : Exec S E B) (next : B → Exec S E A)
      → ((b : B) → Yields Q (next b))
      → Yields Q (m >>= next)
  Yields-bind {B} m next then_next = record { at = λ s a e. continue (m s).1 (m s).0 a e }
    where
      continue : (r : Result E B) (s : S) (a : A) → (resume r next s).1 ≡ ok a → Q a
      continue (ok b) s a e = (then_next b).at s a e
      continue (err x) s a e = cc

  pub Yields-unless :
      (b : Bool) (e : E) (next : Unit {0} → Exec S E A)
      → (b ≡ false → Yields Q (next tt))
      → Yields Q (refuse b e >>= next)
  Yields-unless true e next holds = record { at = λ s a h. cc }
  Yields-unless false e next holds = record { at = λ s a h. (holds refl).at s a h }

  pub Yields-lift :
      {B : Type 0} (r : Result E B) (next : B → Exec S E A)
      → ((b : B) → r ≡ ok b → Yields Q (next b))
      → Yields Q (lift r >>= next)
  Yields-lift (ok b) next holds = record { at = λ s a h. (holds b refl).at s a h }
  Yields-lift (err x) next holds = record { at = λ s a h. cc }
