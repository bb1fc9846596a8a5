-- ===== src/Enrollment.antt =====
-- internal/enrollment/authority.go: the data of enrollment. crypto/x509, encoding/pem, net/url, SHA-256
-- and strings.ToLower are parameters.

pub mod Service
pub mod Once
pub mod Known
mod Examples
use bazusop.Base.{ℕ, ◌*◌, String, Bool, List, Option, Time, Duration, hour}
use bazusop.Base.Assoc.{Map}
use bazusop.Tenancy.{Agent}

pub data Error : Type 0 where
  invalid_token token_consumed invalid_request invalid_identity not_found : Error
  other : String → Error

abbrev pub certificate_lifetime : Duration
certificate_lifetime = 24 * hour

pub record Request : Type 0 where
  pub bootstrap_token : String
  pub name : String
  pub operating_system : String
  pub csr_pem : String

pub record Identity : Type 0 where
  pub agent_id : String
  pub certificate_pem : String
  pub ca_certificate_pem : String
  pub expires_at : Time

-- net/url's URL and crypto/pem's Block, as far as they are read.
pub record Url : Type 0 where
  pub scheme : String
  pub host : String
  pub path : String

pub record Block : Type 0 where
  pub kind : String
  pub bytes : String

pub data Usage : Type 0 where
  digital_signature client_auth : Usage

pub record Template : Type 0 where
  pub serial_number : ℕ
  pub common_name : String
  pub organization : List String
  pub organizational_unit : List String
  pub uris : List Url
  pub not_before : Time
  pub not_after : Time
  pub key_usage : Usage
  pub ext_key_usage : List Usage

-- The packages that the authority calls; none where they return an error.
pub record Packages (Cert Csr Key : Type 0) : Type 0 where
  pub pem_decode : String → Option Block
  pub pem_encode : Block → String
  pub parse_certificate_request : String → Option Csr
  pub check_signature : Csr → Bool
  pub create_certificate : Template → Cert → Csr → Key → Option String
  -- root, time and usage of Verify
  pub verify : Cert → Cert → Time → List Usage → Bool
  pub uris : Cert → List Url
  pub organizational_unit : Cert → List String
  pub url_parse : String → Option Url
  pub sha256 : String → String
  pub to_lower : String → String

-- Without its store and its clock, which the methods are given.
pub record Authority (Cert Key : Type 0) : Type 0 where
  pub ca_certificate : Cert
  pub ca_private_key : Key
  pub ca_pem : String

pub record TokenStore : Type 0 where
  pub bootstrap_hash : String
  pub consumed : Bool
  pub agents : Map String Agent
