-- ===== src/AuditTrail/Listing.antt =====
-- What a listing of the audit trail shows.
use bazusop.Base.{
  ℕ, ◌≤◌, Bool, true, ◌&&◌, ◌≡◌, List, [], ◌∷◌, All, length, after, string_comparable,
}
use bazusop.Tenancy.{Scope}
use bazusop.AuditTrail.{Event, Filter, is_in, passes}

-- The first event of a listing is no older than the others, and so on.
abbrev pub IsNewestFirst : List Event → Type 0
IsNewestFirst [] = Unit
IsNewestFirst (x ∷ xs) = All (λ (y : Event). y.occurred_at ≤ x.occurred_at) xs × IsNewestFirst xs

abbrev pub newer : Event → Event → Bool
newer x y = after x.occurred_at y.occurred_at

-- The shown events are of the scope, pass the filter, stand newest first, and are no more than asked for.
abbrev pub IsListing : Scope → Filter → ℕ → List Event → Type 0
IsListing scope f limit es =
    All (λ (event : Event). (is_in scope event && passes f event) ≡ true) es
    × IsNewestFirst es
    × (length es ≤ limit)
