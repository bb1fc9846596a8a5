-- ===== src/Enrollment/Known.antt =====
-- Which certificates the authority accepts.
use bazusop.Base.{
  ◌≡◌, ◌↔◌, refl, subst, String, Bool, true, false, not, [], ◌∷◌, Option, none, some, ok, err, lift,
  reads, ◌>>=◌, Bool-cases, inl, inr, arith, if◌then◌else◌, ◌==◌, string_comparable, eq_iff,
  ==_refl, Time,
}
use bazusop.Base.Assoc.{lookup}
use bazusop.Tenancy.{Agent, agent_valid}
use bazusop.Enrollment.{invalid_identity, client_auth, Packages, Authority, TokenStore}
use bazusop.Enrollment.Service.{
  agent_id_from_certificate, authenticate, authenticate_context, resolve_agent, resolved,
  named_or_refused, found,
}

-- The certificate is verified for a client by the authority's own at this time, and names an agent that
-- the store knows by that name and that is valid.
pub record IsKnown {Cert Csr Key : Type 0} (p : Packages Cert Csr Key)
    (authority : Authority Cert Key) (s : TokenStore) (peer : Cert) (now : Time) (agent : Agent)
    : Type 0 where
  pub verified : p.verify peer authority.ca_certificate now (client_auth ∷ []) ≡ true
  pub names : agent_id_from_certificate p peer ≡ agent.id
  pub some_name : (agent.id == "") ≡ false
  pub stored : lookup agent.id s.agents ≡ some agent
  pub valid : agent_valid agent ≡ true

module _ {Cert Csr Key : Type 0} (p : Packages Cert Csr Key) (authority : Authority Cert Key) where
  known :
      (s : TokenStore) (peer : Cert) (now : Time) (agent : Agent)
      → (authenticate_context p authority (some peer) now s).1 ≡ ok agent
      → IsKnown p authority s peer now agent
  unfolding authenticate_context authenticate resolve_agent
  known s peer now agent h =
      verify (p.verify peer authority.ca_certificate now (client_auth ∷ [])) refl h
    where
      look :
          (name : String) (r : Option Agent)
          → p.verify peer authority.ca_certificate now (client_auth ∷ []) ≡ true
          → agent_id_from_certificate p peer ≡ name
          → (name == "") ≡ false
          → lookup name s.agents ≡ r
          → resolved p authority name (found r) ≡ ok agent
          → IsKnown p authority s peer now agent
      look name none v n e l h = cc
      look name (some a) v n e l h =
          let same : a ≡ agent = ground arith in
          let id : a.id ≡ name = ground (arith, eq_iff a.id name) in
          let id' : agent.id ≡ name = cc in
          record {
            verified = v;
            names = cc;
            some_name = cc;
            stored = cc;
            valid =
                let b : agent_valid a ≡ true = ground arith in
                subst (λ x. agent_valid x ≡ true) same b;
          }

      verify :
          (b : Bool)
          → p.verify peer authority.ca_certificate now (client_auth ∷ []) ≡ b
          → ((lift (
                  if not b
                  then err invalid_identity
                  else named_or_refused p authority (agent_id_from_certificate p peer))
                >>= λ name. reads (λ t. resolved p authority name (resolve_agent name t)))
              s).1
            ≡ ok agent
          → IsKnown p authority s peer now agent
      verify false v h = absurd (let b = h in cc)
      verify true v h = elim (Bool-cases (agent_id_from_certificate p peer == "")) [
        | inl t ↦ absurd (let b = rw t at h in cc)
        | inr f ↦
            let h' = rw f at h in
            look (agent_id_from_certificate p peer)
              (lookup (agent_id_from_certificate p peer) s.agents) v refl f refl h'
      ]

  accepts :
      (s : TokenStore) (peer : Cert) (now : Time) (agent : Agent)
      → IsKnown p authority s peer now agent
      → (authenticate_context p authority (some peer) now s).1 ≡ ok agent
  unfolding authenticate_context authenticate resolve_agent
  accepts s peer now agent k =
      let self : (agent.id == agent.id) ≡ true = ==_refl agent.id in
      rw (k.verified, k.names, k.some_name, k.stored, self, k.valid) refl

  -- The authority takes the owner of a certificate for an agent exactly if its own certificate verifies that
  -- certificate for a client at this time, the certificate names the agent, and the store knows the agent
  -- under that name as a valid one.
  pub authenticate_context-IsKnown :
      (s : TokenStore) (peer : Cert) (now : Time) (agent : Agent)
      → ((authenticate_context p authority (some peer) now s).1 ≡ ok agent)
        ↔ IsKnown p authority s peer now agent
  authenticate_context-IsKnown s peer now agent = (known s peer now agent, accepts s peer now agent)
