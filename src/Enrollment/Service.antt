-- ===== src/Enrollment/Service.antt =====
-- The methods of enrollment.Authority and of memoryTokenStore.
use Prim.Native.Char.{Char, code}
use bazusop.Base.{
  ℕ, ◌-◌, ◌+◌, String, Bool, true, false, not, ◌&&◌, ◌||◌, List, [], ◌∷◌, Option, none, some,
  Result, ok, err, Exec, pure, lift, reads, ◌>>=◌, ◌>>◌, ◌==◌, string_comparable, nat_comparable,
  if◌then◌else◌, Time, minute, trim_space,
}
use bazusop.Base.Assoc.{lookup, insert}
use bazusop.Tenancy.{Agent, agent_valid, default_scope}
use bazusop.Authorization.Store.{append}
use bazusop.Enrollment.{
  Error, invalid_token, token_consumed, invalid_request, invalid_identity, not_found, other,
  certificate_lifetime, Request, Identity, Url, Block, digital_signature, client_auth, Template,
  Packages, Authority, TokenStore,
}

-- validateBootstrapToken: whether it returns an error.
abbrev pub token_refused : String → Bool
token_refused token = trim_space token == ""

unfoldable pub consume_enrollment_token : String → String → Exec TokenStore Error Agent
consume_enrollment_token provided_hash agent_id s =
    let agent : Agent = record {
      id = agent_id;
      organization_id = default_scope.organization_id;
      site_id = default_scope.site_id;
    } in
    if not (provided_hash == s.bootstrap_hash)
    then (s, err invalid_token)
    else if s.consumed
    then (s, err token_consumed)
    else (record s { agents = insert agent_id agent s.agents; consumed = true }, ok agent)

abbrev pub found : Option Agent → Result Error Agent
found none = err not_found
found (some agent) = ok agent

unfoldable pub resolve_agent : String → TokenStore → Result Error Agent
resolve_agent agent_id s = found (lookup agent_id s.agents)

-- strings.Trim(s, "/").
abbrev pub is_slash : Char → Bool
is_slash c = code c == 47

abbrev pub trim_left_slash : String → String
trim_left_slash String.[] = String.[]
trim_left_slash (String.◌∷◌ c s) =
    let rest = trim_left_slash s in if is_slash c then rest else String.◌∷◌ c s

abbrev pub trim_right_slash : String → String
trim_right_slash String.[] = String.[]
trim_right_slash (String.◌∷◌ c s) =
    let rest = trim_right_slash s in
    if is_slash c && rest == "" then String.[] else String.◌∷◌ c rest

-- strings.Split(s, "/").
abbrev pub in_front : Char → List String → List String
in_front c [] = String.◌∷◌ c String.[] ∷ []
in_front c (part ∷ parts) = String.◌∷◌ c part ∷ parts

unfoldable pub split_slash : String → List String
split_slash String.[] = String.[] ∷ []
split_slash (String.◌∷◌ c s) =
    let rest = split_slash s in if is_slash c then String.[] ∷ rest else in_front c rest

-- The agent that the parts of a path name, and no text if they name none.
abbrev pub named : List String → String
named [] = ""
named (a ∷ []) = ""
named (a ∷ b ∷ []) = if a == "agent" then b else ""
named (a ∷ b ∷ c ∷ parts) = ""

abbrev pub agent_in : Url → String
agent_in u =
    if u.scheme == "spiffe" && u.host == "bazusop"
    then named (split_slash (trim_right_slash (trim_left_slash u.path)))
    else ""

abbrev pub first_agent : List Url → String
first_agent [] = ""
first_agent (u ∷ us) = let rest = first_agent us in if agent_in u == "" then rest else agent_in u

module _ {Cert Csr Key : Type 0} (p : Packages Cert Csr Key) where
  -- The store that NewAuthority makes.
  abbrev pub new_tokens : String → Result Error TokenStore
  new_tokens bootstrap_token =
      if token_refused bootstrap_token
      then err invalid_token
      else ok (record { bootstrap_hash = p.sha256 bootstrap_token; consumed = false; agents = [] })

  abbrev pub signed_request : Option Csr → Result Error Csr
  signed_request none = err invalid_request
  signed_request (some csr) = if not (p.check_signature csr) then err invalid_request else ok csr

  abbrev pub request_in : Option Block → Result Error Csr
  request_in none = err invalid_request
  request_in (some block) =
      if not (block.kind == "CERTIFICATE REQUEST")
      then err invalid_request
      else signed_request (p.parse_certificate_request block.bytes)

  abbrev pub parse_csr : String → Result Error Csr
  parse_csr csr_pem = request_in (p.pem_decode csr_pem)

  abbrev pub supported_os : String → Bool
  supported_os value =
      p.to_lower (trim_space value) == "linux" || p.to_lower (trim_space value) == "windows"

  abbrev pub encode_certificate : String → String
  encode_certificate der = p.pem_encode (record { kind = "CERTIFICATE"; bytes = der })

  unfoldable pub agent_id_from_certificate : Cert → String
  unfolding split_slash
  agent_id_from_certificate certificate = first_agent (p.uris certificate)

  abbrev pub template : String → String → Time → ℕ → Url → Template
  template agent_id operating_system now serial url = record {
    serial_number = serial;
    common_name = append "bazusop-agent-" agent_id;
    organization = "bazUSOP Agents" ∷ [];
    organizational_unit = operating_system ∷ [];
    uris = url ∷ [];
    not_before = now - minute;
    not_after = now + certificate_lifetime;
    key_usage = digital_signature;
    ext_key_usage = client_auth ∷ [];
  }

  module _ (authority : Authority Cert Key) where
    abbrev pub certified : String → Time → Option String → Result Error Identity
    certified agent_id not_after none = err (other "issue agent certificate")
    certified agent_id not_after (some der) = ok (record {
      agent_id = agent_id;
      certificate_pem = encode_certificate der;
      ca_certificate_pem = authority.ca_pem;
      expires_at = not_after;
    })

    abbrev pub issued_for : String → String → Csr → Time → ℕ → Option Url → Result Error Identity
    issued_for agent_id operating_system csr now serial none = err (other "build agent identity")
    issued_for agent_id operating_system csr now serial (some url) =
        let wanted = template agent_id operating_system now serial url in
        certified agent_id wanted.not_after
          (p.create_certificate wanted authority.ca_certificate csr authority.ca_private_key)

    -- issue, with the serial number that is drawn.
    unfoldable pub issue : String → String → Csr → Time → Result Error ℕ → Result Error Identity
    issue agent_id operating_system csr now (err e) = err e
    issue agent_id operating_system csr now (ok serial) =
        issued_for agent_id operating_system csr now serial
          (p.url_parse (append "spiffe://bazusop/agent/" agent_id))

    -- The request as EnrollContext takes it, whatever is wrong with it.
    abbrev pub requested : Request → Result Error Csr → Result Error Csr
    requested request (err e) = err invalid_request
    requested request (ok csr) =
        if trim_space request.name == "" || not (supported_os request.operating_system)
        then err invalid_request
        else ok csr

    unfoldable pub enroll_context :
        Request → Result Error String → Result Error ℕ → Time → Exec TokenStore Error Identity
    unfolding issue consume_enrollment_token
    enroll_context request drawn serial now = do
      csr ← lift (requested request (parse_csr request.csr_pem))
      agent_id ← lift drawn
      identity ← lift (issue agent_id (p.to_lower request.operating_system) csr now serial)
      consume_enrollment_token (p.sha256 request.bootstrap_token) agent_id
      pure identity

    abbrev pub named_or_refused : String → Result Error String
    named_or_refused agent_id = if agent_id == "" then err invalid_identity else ok agent_id

    unfoldable pub authenticate : Option Cert → Time → Result Error String
    unfolding agent_id_from_certificate
    authenticate none now = err invalid_identity
    authenticate (some peer) now =
        if not (p.verify peer authority.ca_certificate now (client_auth ∷ []))
        then err invalid_identity
        else named_or_refused (agent_id_from_certificate peer)

    abbrev pub resolved : String → Result Error Agent → Result Error Agent
    resolved agent_id (err e) = err invalid_identity
    resolved agent_id (ok agent) =
        if not (agent.id == agent_id) || not (agent_valid agent)
        then err invalid_identity
        else ok agent

    unfoldable pub authenticate_context : Option Cert → Time → Exec TokenStore Error Agent
    unfolding authenticate resolve_agent
    authenticate_context peer now = do
      agent_id ← lift (authenticate peer now)
      reads (λ s. resolved agent_id (resolve_agent agent_id s))

    abbrev pub renewable : Result Error Csr → Option Cert → Result Error (Csr × Cert)
    renewable (err e) peer = err invalid_identity
    renewable (ok csr) none = err invalid_identity
    renewable (ok csr) (some peer) = ok (csr, peer)

    abbrev pub system_of : List String → String
    system_of [] = "unknown"
    system_of (unit ∷ units) = unit

    unfoldable pub renew_context :
        Option Cert → String → Result Error ℕ → Time → Time → Exec TokenStore Error Identity
    unfolding authenticate_context issue
    renew_context peer csr_pem serial now later = do
      (csr, known) ← lift (renewable (parse_csr csr_pem) peer)
      agent ← authenticate_context (some known) now
      lift (issue agent.id (system_of (p.organizational_unit known)) csr later serial)
