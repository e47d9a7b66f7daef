-- ===== src/Decision/Hash/Fields.antt =====
-- The encoding that `RequestHash` hashes determines the proposal: a length stands before each field,
-- so text cannot move from one field to another, and UTF-8 is injective.
use text.Mathlib.TextEquality.{Char-path}
use sentry_gate_ai.Prelude.{sym, ◌≢◌}
use Prim.Native.Char.{Char, code}
use sentry_gate_ai.Decision.Hash.{utf8_char}
use sentry_gate_ai.Contracts.{AgentProposal}
use sentry_gate_ai.Decision.Hash.{
  bytes, put_uint64, encode_fields, request_encoding, hashed_fields, request_hash_domain,
}
use sentry_gate_ai.Prelude.Lists.{length}
use sentry_gate_ai.Prelude.{String, ℕ, ◌<◌, List, [], ◌∷◌, ◌++◌, ◌≡◌, refl, arith, map}

abbrev pub word_limit : ℕ
word_limit = 18446744073709551616

put_uint64_inj : (v w : ℕ) → v < word_limit → w < word_limit → put_uint64 v ≡ put_uint64 w → v ≡ w
unfolding put_uint64
put_uint64_inj v w hv hw e = ground arith

-- Two equal lists split at the same place have equal parts.
append_inj {ℓ} :
    {A : Type ℓ} (xs ys r s : List A)
    → length xs ≡ length ys
    → xs ++ r ≡ ys ++ s
    → (xs ≡ ys) × (r ≡ s)
append_inj [] [] r s l e = (refl, e)
append_inj [] (y ∷ ys) r s l e = absurd (ground arith)
append_inj (x ∷ xs) [] r s l e = absurd (ground arith)
append_inj (x ∷ xs) (y ∷ ys) r s l e =
    let (tails, rest) = append_inj xs ys r s (ground arith) (ground arith) in
    (ground (arith, tails), rest)

-- Every field has fewer than 2^64 bytes, as every Go string has.
abbrev pub AllShort : List String → Type 0
AllShort [] = Unit {0}
AllShort (f ∷ fs) = (length (bytes f) < word_limit) × AllShort fs

put_uint64-length : (v w : ℕ) → length (put_uint64 v) ≡ length (put_uint64 w)
unfolding put_uint64
put_uint64-length v w = refl

-- The encoding of as many fields determines the bytes of each.
encode_fields_inj :
    (fs gs : List String)
    → length fs ≡ length gs
    → AllShort fs
    → AllShort gs
    → encode_fields fs ≡ encode_fields gs
    → map bytes fs ≡ map bytes gs
unfolding encode_fields
encode_fields_inj [] [] l hf hg e = refl
encode_fields_inj [] (g ∷ gs) l hf hg e = absurd (ground arith)
encode_fields_inj (f ∷ fs) [] l hf hg e = absurd (ground arith)
encode_fields_inj (f ∷ fs) (g ∷ gs) l (sf, hf) (sg, hg) e =
    let (words, body) =
      append_inj _ _ _ _ (put_uint64-length (length (bytes f)) (length (bytes g))) e in
    let lengths = put_uint64_inj (length (bytes f)) (length (bytes g)) sf sg words in
    let (field, rest) = append_inj (bytes f) (bytes g) _ _ lengths body in
    ground (arith, field, encode_fields_inj fs gs (ground arith) hf hg rest)

utf8_char_inj :
    (a b : ℕ) (r s : List ℕ)
    → a < 1114112
    → b < 1114112
    → utf8_char a ++ r ≡ utf8_char b ++ s
    → (a ≡ b) × (r ≡ s)
unfolding utf8_char
utf8_char_inj a b r s ha hb e = (ground arith, ground arith)

code_bound : (c : Char) → code c < 1114112
code_bound (Char.char n p) = ground arith

utf8_char-nonempty : (c : ℕ) (r : List ℕ) → [] ≢ utf8_char c ++ r
unfolding utf8_char
utf8_char-nonempty c r e = ground arith

-- UTF-8 is injective on texts.
bytes_inj : (s t : String) → bytes s ≡ bytes t → s ≡ t
unfolding bytes
bytes_inj String.[] String.[] e = refl
bytes_inj String.[] (String.◌∷◌ d t) e = absurd (utf8_char-nonempty (code d) (bytes t) e)
bytes_inj (String.◌∷◌ c s) String.[] e = absurd (utf8_char-nonempty (code c) (bytes s) (sym e))
bytes_inj (String.◌∷◌ c s) (String.◌∷◌ d t) e =
    let (codes, rest) =
      utf8_char_inj (code c) (code d) (bytes s) (bytes t) (code_bound c) (code_bound d) e in
    let chars = Char-path c d codes in let tails = bytes_inj s t rest in cc (chars, tails)

-- Proposals whose fields are shorter than 2^64 bytes have the same encoding only if they are the
-- same proposal: no change of a field, and no shift of text between fields, keeps what is hashed.
pub request_encoding_inj :
    (p q : AgentProposal)
    → AllShort (hashed_fields p)
    → AllShort (hashed_fields q)
    → request_encoding p ≡ request_encoding q
    → p ≡ q
unfolding request_encoding encode_fields
request_encoding_inj p q hp hq e =
    let domain = bytes request_hash_domain in
    let (_, body) = append_inj domain domain _ _ refl e in
    let same = encode_fields_inj (hashed_fields p) (hashed_fields q) refl hp hq body in
    let id = bytes_inj p.id q.id (ground (arith, same)) in
    let type = bytes_inj p.type q.type (ground (arith, same)) in
    let target = bytes_inj p.target_id q.target_id (ground (arith, same)) in
    let payload = bytes_inj p.payload q.payload (ground (arith, same)) in
    λ i. record { id = id i; type = type i; target_id = target i; payload = payload i }
