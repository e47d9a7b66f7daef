-- ===== src/Decision/Hash.antt =====
-- internal/decision/hash.go: the canonical encoding of a proposal that `RequestHash` hashes. SHA-256
-- with its hex encoding is the parameter `sha256_hex`, a function of the bytes.
pub mod Fields
use Prim.Native.Char.{code}
use sentry_gate_ai.Prelude.{
  String, ℕ, zero, suc, ◌+◌, ◌/◌, ◌%◌, ◌^◌, List, [], ◌∷◌, ◌++◌, ltb, if◌then◌else◌,
}
use sentry_gate_ai.Prelude.Lists.{length}
use sentry_gate_ai.Contracts.{AgentProposal}

-- The UTF-8 bytes of a code point.
unfoldable pub utf8_char : ℕ → List ℕ
utf8_char c =
    if ltb c 0x80
    then c ∷ []
    else if ltb c 0x800
    then (0xc0 + c / 0x40) ∷ (0x80 + c % 0x40) ∷ []
    else if ltb c 0x10000
    then (0xe0 + c / 0x1000) ∷ (0x80 + c / 0x40 % 0x40) ∷ (0x80 + c % 0x40) ∷ []
    else (0xf0 + c / 0x40000)
      ∷ (0x80 + c / 0x1000 % 0x40)
      ∷ (0x80 + c / 0x40 % 0x40)
      ∷ (0x80 + c % 0x40)
      ∷ []

-- `[]byte(s)`
unfoldable pub bytes : String → List ℕ
unfolding utf8_char
bytes String.[] = []
bytes (String.◌∷◌ c s) = utf8_char (code c) ++ bytes s

-- The `n` low bytes of `v`, most significant first.
unfoldable pub big_endian : ℕ → ℕ → List ℕ
big_endian zero v = []
big_endian (suc n) v = (v / 256 ^ n % 256) ∷ big_endian n v

-- `binary.BigEndian.PutUint64(n[:], uint64(v))`
unfoldable pub put_uint64 : ℕ → List ℕ
unfolding big_endian
put_uint64 v = big_endian 8 v

abbrev pub request_hash_domain : String
request_hash_domain = "sentrygate.request.v1"

-- The loop over the fields: each one's length, then its bytes.
unfoldable pub encode_fields : List String → List ℕ
unfolding bytes put_uint64
encode_fields [] = []
encode_fields (f ∷ fields) = put_uint64 (length (bytes f)) ++ (bytes f ++ encode_fields fields)

abbrev pub hashed_fields : AgentProposal → List String
hashed_fields p = p.id ∷ p.type ∷ p.target_id ∷ p.payload ∷ []

unfoldable pub request_encoding : AgentProposal → List ℕ
unfolding encode_fields
request_encoding p = bytes request_hash_domain ++ encode_fields (hashed_fields p)

-- `RequestHash`
unfoldable pub request_hash : (List ℕ → String) → AgentProposal → String
unfolding request_encoding
request_hash sha256_hex p = sha256_hex (request_encoding p)
