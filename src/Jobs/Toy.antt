-- ===== src/Jobs/Toy.antt =====
-- A stand-in for the cryptographic packages that meets what is assumed of them: bytes are written in
-- unary, and a signature is the message itself.
use Prim.Native.Char.{code}
use Prim.Native.String.{String}
use bazusop.Base.{
  ℕ, zero, suc, ◌+◌, ◌≡◌, refl, Bool, true, false, [], ◌∷◌, Option, some, arith, ◌==◌,
  nat_comparable, string_comparable, if◌then◌else◌, ◌&&◌,
}
use bazusop.Base.Assoc.{option_map}
use bazusop.Jobs.Signing.{Bytes, Crypto, IsSound}

unfoldable pub write_byte : ℕ → String → String
write_byte zero s = String.◌∷◌ "b" s
write_byte (suc n) s = String.◌∷◌ "a" (write_byte n s)

unfoldable pub encode : Bytes → String
unfolding write_byte
encode [] = ""
encode (n ∷ b) = write_byte n (encode b)

decode_from : ℕ → String → Option Bytes
decode_from n String.[] = some []
decode_from n (String.◌∷◌ c s) =
    let more = decode_from (suc n) s in
    let rest = option_map (λ b. n ∷ b) (decode_from 0 s) in if code c == b'a' then more else rest

unfoldable pub decode : String → Option Bytes
unfolding decode_from
decode s = decode_from 0 s

decode-write_byte :
    (m n : ℕ) (s : String) (b : Bytes)
    → decode_from 0 s ≡ some b
    → decode_from m (write_byte n s) ≡ some ((m + n) ∷ b)
unfolding decode_from write_byte
decode-write_byte m zero s b h = ground arith
decode-write_byte m (suc n) s b h = ground (arith, decode-write_byte (suc m) n s b h)

pub decode-encode : (b : Bytes) → decode (encode b) ≡ some b
unfolding decode encode
decode-encode [] = refl
decode-encode (n ∷ b) = ground (arith, decode-write_byte 0 n (encode b) b (decode-encode b))

unfoldable pub same_bytes : Bytes → Bytes → Bool
same_bytes [] [] = true
same_bytes (a ∷ as') (b ∷ bs) = a == b && same_bytes as' bs
same_bytes _ _ = false

same_bytes_refl : (b : Bytes) → same_bytes b b ≡ true
unfolding same_bytes
same_bytes_refl [] = refl
same_bytes_refl (n ∷ b) = ground (arith, same_bytes_refl b)

abbrev zeros : ℕ → Bytes
zeros zero = []
zeros (suc n) = 0 ∷ zeros n

abbrev pub toy : Crypto
toy = record {
  public_of = λ _. zeros 32;
  sign = λ _ message. message;
  verify = λ _ message signature. same_bytes message signature;
  encode_base64 = encode;
  decode_base64 = decode;
  marshal = λ p. p.version ∷ p.requested_at ∷ [];
}

pub toy-IsSound : IsSound toy
toy-IsSound = record {
  decodes = decode-encode;
  verifies = λ _ message. same_bytes_refl message;
  sized = λ _. refl;
}
