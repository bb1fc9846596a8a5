-- ===== src/Jobs/Signing.antt =====
-- The signature of a job: what is signed, and Verify. Ed25519, base64 and the JSON encoder are Go's
-- own packages; `Crypto` is what the program calls of them.
use bazusop.Base.{
  ℕ, String, Bool, true, false, not, ◌||◌, ◌≡◌, List, Option, none, some, ◌==◌, string_comparable,
  nat_comparable, if◌then◌else◌, Time, length,
}
use bazusop.Tenancy.{Scope, default_organization_id, default_site_id}
use bazusop.Jobs.{Action, Job}

abbrev pub Bytes : Type 0
Bytes = List ℕ

-- The anonymous structs that are marshalled; the first version has no scope.
pub record Payload : Type 0 where
  pub version : ℕ
  pub id : String
  pub scope : Option Scope
  pub agent_id : String
  pub action : Action
  pub target : String
  pub approved_by : String
  pub reason : String
  pub requested_at : Time

pub record Crypto : Type 0 where
  pub public_of : Bytes → Bytes
  pub sign : Bytes → Bytes → Bytes
  pub verify : Bytes → Bytes → Bytes → Bool
  pub encode_base64 : Bytes → String
  pub decode_base64 : String → Option Bytes
  pub marshal : Payload → Bytes

-- What the packages document: base64 decodes what it encodes, and a signature verifies under the
-- public half of the key that made it, which has the fixed size.
pub record IsSound (c : Crypto) : Type 0 where
  pub decodes : (b : Bytes) → c.decode_base64 (c.encode_base64 b) ≡ some b
  pub verifies :
      (key message : Bytes) → c.verify (c.public_of key) message (c.sign key message) ≡ true
  pub sized : (key : Bytes) → length (c.public_of key) ≡ 32

abbrev pub public_key_size : ℕ
public_key_size = 32

unfoldable pub signing_payload : Job → Payload
signing_payload j = record {
  version = 2;
  id = j.id;
  scope = some (record { organization_id = j.organization_id; site_id = j.site_id });
  agent_id = j.agent_id;
  action = j.action;
  target = j.target;
  approved_by = j.approved_by;
  reason = j.reason;
  requested_at = j.requested_at;
}

unfoldable pub signing_payload_v1 : Job → Payload
signing_payload_v1 j = record {
  version = 1;
  id = j.id;
  scope = none;
  agent_id = j.agent_id;
  action = j.action;
  target = j.target;
  approved_by = j.approved_by;
  reason = j.reason;
  requested_at = j.requested_at;
}

module _ (c : Crypto) where
  abbrev pub verify_signed : Job → Bytes → Option Bytes → Bool
  verify_signed j key none = false
  verify_signed j key (some signature) =
      if c.verify key (c.marshal (signing_payload j)) signature
      then true
      else if not (j.organization_id == default_organization_id)
          || not (j.site_id == default_site_id)
      then false
      else c.verify key (c.marshal (signing_payload_v1 j)) signature

  abbrev pub verify_keyed : Job → Option Bytes → Bool
  verify_keyed j none = false
  verify_keyed j (some key) =
      if not (length key == public_key_size)
      then false
      else verify_signed j key (c.decode_base64 j.signature)

  unfoldable pub verify : Job → Bool
  verify j = verify_keyed j (c.decode_base64 j.signing_public_key)
