-- ===== src/Tenancy/Laws.antt =====
-- What Scope.Validate and Agent.Validate establish of the names that they accept.
use bazusop.Base.{
  String, len, ◌≤◌, ◌≡◌, true, false, arith, ◌≢◌, eq_iff, string_comparable, trim_space,
  contains_nul,
}
use bazusop.Tenancy.{Scope, Agent, scope_of, scope_valid, agent_valid}

-- A name that may be part of a composite key.
pub record IsName (s : String) : Type 0 where
  pub visible : trim_space s ≢ ""
  pub short : len s ≤ 128
  pub clean : contains_nul s ≡ false

pub scope_valid-IsName :
    (s : Scope) → scope_valid s ≡ true → IsName s.organization_id × IsName s.site_id
unfolding scope_valid
scope_valid-IsName s h =
    ground (arith, eq_iff (trim_space s.organization_id) "", eq_iff (trim_space s.site_id) "")

pub agent_valid-scope_valid : (a : Agent) → agent_valid a ≡ true → scope_valid (scope_of a) ≡ true
unfolding agent_valid
agent_valid-scope_valid a h = ground arith
