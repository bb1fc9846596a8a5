-- ===== src/Base/Outcome.antt =====
-- Results that may be errors, and calls that change a store and may fail. The new store comes back
-- beside an error too, so that a failing call which has already written is told from one that has not.

use mathlib.Core.Bool.{Bool, true, false}

pub data Result (E A : Type 0) : Type 0 where
  ok : A → Result E A
  err : E → Result E A

abbrev pub Exec : Type 0 → Type 0 → Type 0 → Type 0
Exec S E A = S → S × Result E A

module _ {S E A : Type 0} where
  abbrev pub pure : A → Exec S E A
  pure a s = (s, ok a)

  abbrev pub fail : E → Exec S E A
  fail e s = (s, err e)

  -- A call that only reads the store.
  abbrev pub reads : (S → Result E A) → Exec S E A
  reads f s = (s, f s)

  abbrev pub lift : Result E A → Exec S E A
  lift r s = (s, r)

module _ {S E A B : Type 0} where
  -- `if err != nil { return err }` after a call.
  abbrev pub resume : Result E A → (A → Exec S E B) → Exec S E B
  resume (ok a) f s = f a s
  resume (err e) f s = (s, err e)

  infixl 5 ◌>>=◌ ◌>>◌
  abbrev pub ◌>>=◌ : Exec S E A → (A → Exec S E B) → Exec S E B
  ◌>>=◌ m f s = let (s', r) = m s in resume r f s'

  abbrev pub ◌>>◌ : Exec S E A → Exec S E B → Exec S E B
  m >> n = m >>= λ _. n

abbrev pub refuse : {S E : Type 0} → Bool → E → Exec S E (Unit {0})
refuse true e = fail e
refuse false e = pure tt
