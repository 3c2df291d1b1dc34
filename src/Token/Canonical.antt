-- ===== src/Token/Canonical.antt =====
-- Decoding, then encoding: what an accepted text holds.
use Prim.Native.Nat.{bit_and}
use hip_object.Prelude.{
  ℕ, zero, suc, ◌+◌, ◌*◌, ◌/◌, ◌%◌, ◌^◌, ◌<◌, ◌≡◌, refl, subst, ap, ap₂, ◌∙◌, ◌&&◌, ◌||◌, not, true,
  some, List, [], ◌∷◌, ◌++◌, map, length, take, drop, take-append-drop, length-drop,
  length-take_of_le, All, All-take, All-drop, arith, leb, ltb, ◌==◌, ==_iff, if◌then◌else◌,
  Option-cases, inl, inr,
}
use hip_object.Prelude.Bits.{all_below, all_below_sound}
use hip_object.Parse.{char_value, parse_number}
use hip_object.Parse.Laws.{parse_number_iff, digit_or_36}
use hip_object.Gid.{IsByte, gid_len}
use hip_object.Token.{
  RdmaToken, IsRdmaToken, TransportType, dc, rc, le_bytes, get_uint, get_span, get_fields,
  get_token, transport_byte, transport_of_byte, hex_digit, to_hex, from_hex, encode_rdma_token,
  decode_rdma_token_hex, token_binary_len,
}
use hip_object.Token.Bytes.{get_uint_sound}
use hip_object.Token.RoundTrip.{binary, encode_rdma_token-binary}

-- ASCII lower case.
abbrev pub to_lower : ℕ → ℕ
to_lower c = if leb b'A' c && leb c b'Z' then c + 32 else c

digit-lt : (c : ℕ) → digit_or_36 c < 16 → c < 128
unfolding char_value
digit-lt c h = ground arith

lower_table :
    all_below 128 (λ c. not (ltb (digit_or_36 c) 16) || (hex_digit (digit_or_36 c) == to_lower c))
    ≡ true
unfolding all_below char_value
lower_table = refl

lower_digit : (c : ℕ) → digit_or_36 c < 16 → hex_digit (digit_or_36 c) ≡ to_lower c
lower_digit c h = ground (arith, all_below_sound 128 _ c lower_table (digit-lt c h))

nibble_table : all_below 256 (λ b. bit_and b 0x0f == b % 16) ≡ true
unfolding all_below
nibble_table = refl

low_nibble : (b : ℕ) → b < 256 → bit_and b 0x0f ≡ b % 16
low_nibble b h = (==_iff _ _).0 (all_below_sound 256 _ b nibble_table h)

pair-IsByte :
    (c d b : ℕ)
    → parse_number 0xff 16 (c ∷ d ∷ []) ≡ some b
    → IsByte b × (hex_digit (b / 2 ^ 4) ≡ to_lower c) × (hex_digit (bit_and b 0x0f) ≡ to_lower d)
pair-IsByte c d b h =
    let (_, _, _, digits, value, fits) = (parse_number_iff 0xff 16 (c ∷ d ∷ []) b).0 h in
    let hi : b / 2 ^ 4 ≡ digit_or_36 c = omega (arith, digits.0, digits.1.0) in
    let lo : bit_and b 0x0f ≡ digit_or_36 d =
      low_nibble b (omega arith) ∙ omega (arith, digits.0, digits.1.0) in
    (
      omega arith,
      ap hex_digit hi ∙ lower_digit c digits.0,
      ap hex_digit lo ∙ lower_digit d digits.1.0,
    )

empty : {buf : List ℕ} → some [] ≡ some buf → [] ≡ buf
empty h = cc

-- The bytes that `from_hex` reads spell, in lower case, the digits that it read.
pub from_hex_sound :
    (n : ℕ) (hex buf : List ℕ)
    → length hex ≡ n * 2
    → from_hex n hex ≡ some buf
    → (to_hex buf ≡ map to_lower hex) × (length buf ≡ n) × All IsByte buf
unfolding from_hex to_hex
from_hex_sound zero [] buf len h =
    subst (λ (x : List ℕ). (to_hex x ≡ []) × (length x ≡ 0) × All IsByte x) (empty h)
      (refl, refl, tt)
from_hex_sound zero (c ∷ hex) buf len h = absurd (omega arith)
from_hex_sound (suc n) [] buf len h = absurd (omega arith)
from_hex_sound (suc n) (c ∷ []) buf len h = absurd (omega arith)
from_hex_sound (suc n) (c ∷ d ∷ hex) buf len h =
    elim (Option-cases (parse_number 0xff 16 (c ∷ d ∷ []))) [
      | inl e ↦ absurd (ground (arith, e))
      | inr (b, e) ↦ elim (Option-cases (from_hex n hex)) [
        | inl f ↦ absurd (ground (arith, e, f))
        | inr (rest, f) ↦
            ground (arith, pair-IsByte c d b e, from_hex_sound n hex rest (omega arith) f)
      ]
    ]

transport_byte_of :
    (b : ℕ) (t : TransportType) → transport_of_byte b ≡ some t → transport_byte t ≡ b
transport_byte_of b dc h = ground arith
transport_byte_of b rc h = ground arith

-- One field taken off the front of the bytes that are left.
abbrev Field : ℕ → List ℕ → Type 0
Field size bytes =
    (le_bytes size 0 (get_uint size bytes).0 ≡ take size bytes)
    × ((get_uint size bytes).0 < 2 ^ (8 * size))
    × ((get_uint size bytes).1 ≡ drop size bytes)

field :
    (size n : ℕ) (bytes : List ℕ)
    → length bytes ≡ size + n
    → All IsByte bytes
    → Field size bytes × (length (drop size bytes) ≡ n) × All IsByte (drop size bytes)
unfolding get_uint
field size n bytes len all =
    let (w, f) = get_uint_sound size bytes all (omega arith) in
    ((w, f, refl), omega (arith, length-drop size bytes), All-drop IsByte size bytes all)

join :
    (n : ℕ) (bytes : List ℕ) {front rest : List ℕ}
    → front ≡ take n bytes
    → rest ≡ drop n bytes
    → front ++ rest ≡ bytes
join n bytes p q = ap₂ ◌++◌ p q ∙ take-append-drop n bytes

nil_of_length : (xs : List ℕ) → length xs ≡ 0 → [] ≡ xs
nil_of_length [] h = refl
nil_of_length (x ∷ xs) h = absurd (omega arith)

get_fields_sound :
    (transport : TransportType) (in1 : List ℕ)
    → length in1 ≡ 43
    → All IsByte in1
    → IsRdmaToken (get_fields transport in1)
      × (binary (get_fields transport in1) ≡ le_bytes 1 0 (transport_byte transport) ++ in1)
unfolding get_fields get_span binary get_uint
get_fields_sound transport in1 len all =
    let (qp_num, len2, all2) = field 4 39 in1 len all in
    let in2 = drop 4 in1 in
    let in3 = drop gid_len in2 in
    let len3 : length in3 ≡ 23 = omega (arith, length-drop gid_len in2) in
    let (rkey, len4, all4) = field 4 19 in3 len3 (All-drop IsByte gid_len in2 all2) in
    let in4 = drop 4 in3 in
    let (remote_addr, len5, all5) = field 8 11 in4 len4 all4 in
    let in5 = drop 8 in4 in
    let (size, len6, all6) = field 8 3 in5 len5 all5 in
    let in6 = drop 8 in5 in
    let (port_num, len7, all7) = field 1 2 in6 len6 all6 in
    let in7 = drop 1 in6 in
    let (lid, len8, all8) = field 2 0 in7 len7 all7 in
    (
      record {
        qp_num_fits = qp_num.1;
        gid_fits = (length-take_of_le gid_len in2 (omega arith), All-take IsByte gid_len in2 all2);
        rkey_fits = rkey.1;
        remote_addr_fits = remote_addr.1;
        len_fits = size.1;
        port_num_fits = port_num.1;
        lid_fits = lid.1;
      },
      ap (◌++◌ (le_bytes 1 0 (transport_byte transport))) (
          join 4 in1 qp_num.0 (
            join gid_len in2 refl (
              join 4 in3 rkey.0 (
                join 8 in4 remote_addr.0 (
                  join 8 in5 size.0
                    (join 1 in6 port_num.0 (join 2 in7 lid.0 (nil_of_length _ len8)))))))),
    )

get_token_sound :
    (buf : List ℕ) (t : RdmaToken)
    → length buf ≡ token_binary_len
    → All IsByte buf
    → get_token buf ≡ some t
    → IsRdmaToken t × (binary t ≡ buf)
unfolding get_token
get_token_sound buf t len all h = elim (Option-cases (transport_of_byte (get_uint 1 buf).0)) [
  | inl e ↦ absurd (ground (arith, e))
  | inr (tr, e) ↦
      let (read, len1, all1) = field 1 43 buf len all in
      let in1 = (get_uint 1 buf).1 in
      let (valid, spelt) = get_fields_sound tr in1 (rw (read.2) len1) (rw (read.2) all1) in
      let whole : binary (get_fields tr in1) ≡ buf =
        spelt ∙ join 1 buf (ap (le_bytes 1 0) (transport_byte_of _ tr e) ∙ read.0) read.2 in
      subst (λ (x : RdmaToken). IsRdmaToken x × (binary x ≡ buf)) (ground (arith, e)) (valid, whole)
]

-- An accepted text encodes, up to the case of its letters, the token that it decodes to, and the
-- token's fields fit their types.
pub encode-decode :
    (token_hex : List ℕ) (t : RdmaToken)
    → decode_rdma_token_hex token_hex ≡ some t
    → IsRdmaToken t × (encode_rdma_token t ≡ map to_lower token_hex)
unfolding decode_rdma_token_hex
encode-decode token_hex t h = elim (Option-cases (from_hex token_binary_len token_hex)) [
  | inl e ↦ absurd (ground (arith, e))
  | inr (buf, e) ↦
      let (spelt, len, all) = from_hex_sound 44 token_hex buf (ground (arith, e)) e in
      let (valid, whole) = get_token_sound buf t len all (ground (arith, e)) in
      (valid, encode_rdma_token-binary t valid ∙ ap to_hex whole ∙ spelt)
]
