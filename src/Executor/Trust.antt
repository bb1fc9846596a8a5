-- ===== src/Executor/Trust.antt =====
-- validateClaimedJob and enrollmentCAPublicKey: which claimed jobs the agent trusts. PEM and X.509 are
-- Go's own packages; `Certificates` is what the program calls of them.
use Prim.Native.Char.{code}
use bazusop.Base.{
  ℕ, ◌+◌, ◌-◌, String, Bool, true, false, not, ◌&&◌, ◌||◌, [], ◌∷◌, Option, none, some, Result, ok,
  err, ltb, leb, ◌==◌, string_comparable, nat_comparable, starts_with, if◌then◌else◌,
}
use bazusop.Jobs.{service_restart, host_reboot, Job, running, status_eqb}
use bazusop.Jobs.Signing.{Bytes, Crypto, verify}
use bazusop.Jobs.Service.{matches_target}
use bazusop.Executor.{Error, Identity}

-- A PEM block: its type and its contents.
abbrev pub Block : Type 0
Block = String × Bytes

pub record Certificates : Type 0 where
  pub decode_pem : Bytes → Option Block
  -- The Ed25519 key of a certificate that parses; none in `some none` is a key of another kind.
  pub parse_certificate : Bytes → Option (Option Bytes)

abbrev pub key_of : Option (Option Bytes) → Result Error Bytes
key_of none = err "pinned enrollment authority certificate is invalid"
key_of (some none) = err "pinned enrollment authority key is not Ed25519"
key_of (some (some key)) = ok key

abbrev pub key_in : Certificates → Option Block → Result Error Bytes
key_in certs none = err "pinned enrollment authority certificate is invalid"
key_in certs (some block) =
    if not (block.0 == "CERTIFICATE")
    then err "pinned enrollment authority certificate is invalid"
    else key_of (certs.parse_certificate block.1)

unfoldable pub enrollment_ca_public_key : Certificates → Bytes → Result Error Bytes
enrollment_ca_public_key certs pem = key_in certs (certs.decode_pem pem)

-- bytes.Equal.
unfoldable pub bytes_equal : Bytes → Bytes → Bool
bytes_equal [] [] = true
bytes_equal (a ∷ as') (b ∷ bs) = a == b && bytes_equal as' bs
bytes_equal _ _ = false

-- strings.EqualFold against a text in lower-case ASCII: beside the capitals, two letters outside ASCII
-- fold to one in it.
abbrev pub fold : ℕ → ℕ
fold c =
    if leb b'A' c && leb c b'Z'
    then c + 32
    else if c == 0x17f
    then b's'
    else if c == 0x212a
    then b'k'
    else c

unfoldable pub equal_fold : String → String → Bool
equal_fold String.[] String.[] = true
equal_fold (String.◌∷◌ c s) (String.◌∷◌ d t) = fold (code c) == code d && equal_fold s t
equal_fold _ _ = false

-- jobIDPattern, `^[a-f0-9]{32}$`.
abbrev pub is_hex_char : ℕ → Bool
is_hex_char c = (leb b'a' c && leb c b'f') || (leb b'0' c && leb c b'9')

unfoldable pub is_hex_of : ℕ → String → Bool
is_hex_of n String.[] = n == 0
is_hex_of n (String.◌∷◌ c s) =
    let rest = is_hex_of (n - 1) s in ltb 0 n && is_hex_char (code c) && rest

abbrev pub job_id_valid : String → Bool
job_id_valid id = is_hex_of 32 id

-- The switch on the action.
abbrev pub target_trusted : Job → Result Error (Unit {0})
target_trusted j =
    if j.action == service_restart
    then (if not (matches_target j.target)
          || starts_with j.target "-"
          || equal_fold j.target "bazusop-agent"
          || equal_fold j.target "bazusop-agent.service"
        then err "service restart target is invalid"
        else ok tt)
    else (if j.action == host_reboot
        then (if not (j.target == "") then err "host reboot target must be empty" else ok tt)
        else err "job action is not allowed")

abbrev pub signer_trusted : Job → Bytes → Option Bytes → Result Error (Unit {0})
signer_trusted j trusted none = err "job signer does not match pinned enrollment authority"
signer_trusted j trusted (some provided) =
    if not (bytes_equal provided trusted)
    then err "job signer does not match pinned enrollment authority"
    else target_trusted j

abbrev pub against_authority : Crypto → Job → Result Error Bytes → Result Error (Unit {0})
against_authority c j (err e) = err e
against_authority c j (ok trusted) = signer_trusted j trusted (c.decode_base64 j.signing_public_key)

unfoldable pub validate_claimed_job :
    Crypto → Certificates → Job → Identity → Result Error (Unit {0})
validate_claimed_job c certs j identity =
    if j.id == ""
      || not (j.agent_id == identity.agent_id)
      || not (status_eqb j.status running)
      || ltb j.last_sequence 1
    then err "claimed job identity or state is invalid"
    else if not (verify c j)
    then err "job signature verification failed"
    else against_authority c j (enrollment_ca_public_key certs identity.ca_certificate_pem)
