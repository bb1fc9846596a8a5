-- ===== src/Tenancy.antt =====
-- internal/tenancy/tenancy.go: organizations, sites and the scope that every stored object carries.
pub mod Laws
use bazusop.Base.{
  String, len, Bool, true, false, not, ◌&&◌, ◌||◌, ◌≡◌, ◌↔◌, arith, ltb, Comparable, ◌==◌,
  string_comparable, eq_iff, trim_space, contains_nul,
}

pub record Scope : Type 0 where
  pub organization_id : String
  pub site_id : String

abbrev pub default_organization_id : String
default_organization_id = "org_default"

abbrev pub default_site_id : String
default_site_id = "site_default"

abbrev pub default_scope : Scope
default_scope = record { organization_id = default_organization_id; site_id = default_site_id }

-- Scope.Validate: whether it returns no error (its one error is ErrInvalidScope).
unfoldable pub scope_valid : Scope → Bool
scope_valid s = not (
    trim_space s.organization_id == ""
    || trim_space s.site_id == ""
    || ltb 128 (len s.organization_id)
    || ltb 128 (len s.site_id)
    || contains_nul s.organization_id
    || contains_nul s.site_id)

pub record Agent : Type 0 where
  pub id : String
  pub organization_id : String
  pub site_id : String

-- Agent.Scope.
abbrev pub scope_of : Agent → Scope
scope_of a = record { organization_id = a.organization_id; site_id = a.site_id }

-- Agent.Validate, in the same sense.
unfoldable pub agent_valid : Agent → Bool
unfolding scope_valid
agent_valid a =
    not (trim_space a.id == "" || ltb 128 (len a.id) || contains_nul a.id)
    && scope_valid (scope_of a)

-- `==` on the comparable structs.
abbrev pub scope_eqb : Scope → Scope → Bool
scope_eqb a b = a.organization_id == b.organization_id && a.site_id == b.site_id

pub scope_eqb_iff : (a b : Scope) → (scope_eqb a b ≡ true) ↔ (a ≡ b)
scope_eqb_iff a b =
    ground (arith, eq_iff a.organization_id b.organization_id, eq_iff a.site_id b.site_id)

instance abbrev pub scope_comparable : Comparable Scope
scope_comparable = record { same = scope_eqb; same_iff = scope_eqb_iff }

abbrev pub agent_eqb : Agent → Agent → Bool
agent_eqb a b = a.id == b.id && a.organization_id == b.organization_id && a.site_id == b.site_id

pub agent_eqb_iff : (a b : Agent) → (agent_eqb a b ≡ true) ↔ (a ≡ b)
agent_eqb_iff a b = ground (
  arith,
  eq_iff a.id b.id,
  eq_iff a.organization_id b.organization_id,
  eq_iff a.site_id b.site_id,
)

instance abbrev pub agent_comparable : Comparable Agent
agent_comparable = record { same = agent_eqb; same_iff = agent_eqb_iff }
