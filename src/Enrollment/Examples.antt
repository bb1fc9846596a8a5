-- ===== src/Enrollment/Examples.antt =====
-- The theorems on enrollment at a concrete authority, and runs of the code. A certificate is the list of
-- its URLs here, signed by whoever the text says.
use bazusop.Base.{
  ◌≤◌, ◌≡◌, ◌↔◌, refl, true, false, String, List, [], ◌∷◌, some, ok, ◌==◌, string_comparable,
  trim_space, trim_left, trim_right, contains_nul,
}
use bazusop.Base.Assoc.{lookup, insert}
use bazusop.Tenancy.{Agent, scope_valid, agent_valid}
use bazusop.Authorization.Store.{append}
use bazusop.Enrollment.{Request, Url, Packages, Authority, TokenStore}
use bazusop.Enrollment.Service.{
  new_tokens, enroll_context, issue, consume_enrollment_token, authenticate_context, authenticate,
  resolve_agent, agent_id_from_certificate, split_slash,
}
use bazusop.Enrollment.Once.{Call, enrolls, authenticates, serve, enrolled, enrolled-once}
use bazusop.Enrollment.Known.{IsKnown, authenticate_context-IsKnown}

abbrev Cert : Type 0
Cert = String × List Url

abbrev packages : Packages Cert String String
packages = record {
  pem_decode = λ text. some (record { kind = "CERTIFICATE REQUEST"; bytes = text });
  pem_encode = λ block. block.bytes;
  parse_certificate_request = some;
  check_signature = λ csr. true;
  create_certificate = λ wanted root csr key. some "der";
  verify = λ peer root now usages. peer.0 == root.0;
  uris = λ peer. peer.1;
  organizational_unit = λ peer. [];
  url_parse = λ text. some (record { scheme = "spiffe"; host = "bazusop"; path = text });
  sha256 = λ text. text;
  to_lower = λ text. text;
}

abbrev authority : Authority Cert String
authority = record { ca_certificate = ("ca", []); ca_private_key = "key"; ca_pem = "pem" }

abbrev start : TokenStore
start = record { bootstrap_hash = "secret"; consumed = false; agents = [] }

abbrev request : Request
request = record {
  bootstrap_token = "secret";
  name = "web";
  operating_system = "linux";
  csr_pem = "csr";
}

abbrev peer : Cert
peer = (
  "ca",
  record { scheme = "https"; host = "bazusop"; path = "/agent/a0" }
      ∷ record { scheme = "spiffe"; host = "bazusop"; path = "/agent/a1/" }
      ∷ [],
)

abbrev calls : List (Call Cert)
calls =
    enrolls request (ok "a1") (ok 7) 100000000000
    ∷ authenticates (some peer) 100000000000
    ∷ enrolls request (ok "a2") (ok 8) 100000000000
    ∷ []

started : new_tokens packages "secret" ≡ ok start
unfolding trim_space trim_left trim_right
started = refl

one_enrolled : enrolled packages authority calls start ≡ 1
unfolding enrolled serve enroll_context issue consume_enrollment_token authenticate_context
    authenticate resolve_agent agent_id_from_certificate split_slash lookup insert trim_space
    trim_left trim_right contains_nul scope_valid agent_valid append
one_enrolled = refl

enrolled-once_example : enrolled packages authority calls start ≤ 1
enrolled-once_example = enrolled-once packages authority calls start

abbrev store : TokenStore
store = (serve packages authority (enrolls request (ok "a1") (ok 7) 100000000000) start).0

abbrev agent : Agent
agent = record { id = "a1"; organization_id = "org_default"; site_id = "site_default" }

authenticated :
    (authenticate_context packages authority (some peer) 100000000000 store).1 ≡ ok agent
unfolding enrolled serve enroll_context issue consume_enrollment_token authenticate_context
    authenticate resolve_agent agent_id_from_certificate split_slash lookup insert trim_space
    trim_left trim_right contains_nul scope_valid agent_valid append
authenticated = refl

authenticate_context-IsKnown_example :
    ((authenticate_context packages authority (some peer) 100000000000 store).1 ≡ ok agent)
    ↔ IsKnown packages authority store peer 100000000000 agent
authenticate_context-IsKnown_example =
    authenticate_context-IsKnown packages authority store peer 100000000000 agent
