-- ===== src/Token.antt =====
-- src/rdma/token.h and src/rdma/token.cpp: the RDMA token and its hex form. A string view, an array
-- and a span of bytes are lists of bytes.
pub mod Bytes
pub mod RoundTrip
pub mod Canonical
pub mod Reply
pub mod ClientNic
use Prim.Native.Nat.{bit_and, bit_or}
use hip_object.Prelude.{
  ℕ, zero, suc, ◌+◌, ◌*◌, ◌/◌, ◌%◌, ◌^◌, ◌<◌, ◌≡◌, Option, none, some, List, [], ◌∷◌, ◌++◌, length,
  get_or, take, drop, replicate, codes, ◌==◌, if◌then◌else◌, ◌>>=◌,
}
use hip_object.Parse.{parse_number}
use hip_object.Gid.{Gid, IsGid, gid_len}

-- `kRdmaTokenHexLen` and `kTokenBinaryLen`
abbrev pub rdma_token_hex_len : ℕ
rdma_token_hex_len = 88

abbrev pub token_binary_len : ℕ
token_binary_len = 1 + 4 + gid_len + 4 + 8 + 8 + 1 + 2

pub data TransportType : Type 0 where
  dc rc : TransportType

pub record RdmaToken : Type 0 where
  pub qp_num : ℕ
  pub gid : Gid
  pub rkey : ℕ
  pub remote_addr : ℕ
  pub len : ℕ
  pub transport : TransportType
  pub port_num : ℕ
  pub lid : ℕ

-- The ranges of the fields' types.
pub record IsRdmaToken (t : RdmaToken) : Type 0 where
  pub qp_num_fits : t.qp_num < 2 ^ 32
  pub gid_fits : IsGid t.gid
  pub rkey_fits : t.rkey < 2 ^ 32
  pub remote_addr_fits : t.remote_addr < 2 ^ 64
  pub len_fits : t.len < 2 ^ 64
  pub port_num_fits : t.port_num < 2 ^ 8
  pub lid_fits : t.lid < 2 ^ 16

-- What has been written of the buffer, and what is left of it (`rest_`).
pub record TokenWriter : Type 0 where
  pub written : List ℕ
  pub rest : List ℕ

-- The loop of `put(T)`, from byte `i` on, for `n` more bytes.
pub le_bytes : ℕ → ℕ → ℕ → List ℕ
le_bytes zero i value = []
le_bytes (suc n) i value = (value / 2 ^ (8 * i) % 2 ^ 8) ∷ le_bytes n (suc i) value

-- `put(T value)` for a `T` of `size` bytes
pub put_uint : ℕ → ℕ → TokenWriter → TokenWriter
put_uint size value w = record {
  written = w.written ++ le_bytes size 0 value;
  rest = drop size w.rest;
}

-- `put(std::span<const uint8_t> bytes)`
pub put_span : List ℕ → TokenWriter → TokenWriter
put_span bytes w = record { written = w.written ++ bytes; rest = drop (length bytes) w.rest }

-- The loop of `get<T>()`, from byte `i` on, for `n` more bytes; `width` is the number of bits of `T`.
pub read_le : ℕ → ℕ → ℕ → List ℕ → ℕ → ℕ
read_le width zero i bytes value = value
read_le width (suc n) i [] value = value
read_le width (suc n) i (b ∷ bytes) value =
    read_le width n (suc i) bytes (bit_or value (b * 2 ^ (8 * i)) % 2 ^ width)

-- `get<T>()` for a `T` of `size` bytes: the value, and `rest_` after it
pub get_uint : ℕ → List ℕ → ℕ × List ℕ
get_uint size rest = (read_le (8 * size) size 0 rest 0, drop size rest)

-- `get(std::span<uint8_t> bytes)` for a span of `size` bytes
pub get_span : ℕ → List ℕ → List ℕ × List ℕ
get_span size rest = (take size rest, drop size rest)

abbrev pub transport_byte : TransportType → ℕ
transport_byte dc = 0x00
transport_byte rc = 0x01

abbrev pub transport_of_byte : ℕ → Option TransportType
transport_of_byte b = if b == 0x00 then some dc else if b == 0x01 then some rc else none

pub put_token : RdmaToken → TokenWriter → TokenWriter
unfolding put_uint put_span
put_token token out0 =
    let out1 = put_uint 1 (transport_byte token.transport) out0 in
    let out2 = put_uint 4 token.qp_num out1 in
    let out3 = put_span token.gid out2 in
    let out4 = put_uint 4 token.rkey out3 in
    let out5 = put_uint 8 token.remote_addr out4 in
    let out6 = put_uint 8 token.len out5 in
    let out7 = put_uint 1 token.port_num out6 in put_uint 2 token.lid out7

abbrev pub hex_digits : List ℕ
hex_digits = codes "0123456789abcdef"

-- `kHexDigits[i]`, for an `i` below 16
abbrev pub hex_digit : ℕ → ℕ
hex_digit i = get_or hex_digits i 0

pub to_hex : List ℕ → List ℕ
to_hex [] = []
to_hex (b ∷ buf) = hex_digit (b / 2 ^ 4) ∷ hex_digit (bit_and b 0x0f) ∷ to_hex buf

-- The whole `RdmaTokenHex`, with its NUL.
unfoldable pub encode_rdma_token_hex : RdmaToken → List ℕ
unfolding put_token
encode_rdma_token_hex token =
    let buf = replicate token_binary_len 0 in
    let out = put_token token (record { written = []; rest = buf }) in
    to_hex (out.written ++ out.rest) ++ 0 ∷ []

unfoldable pub encode_rdma_token : RdmaToken → List ℕ
encode_rdma_token token = take rdma_token_hex_len (encode_rdma_token_hex token)

-- The bytes that the hex digits spell, two digits a byte.
pub from_hex : ℕ → List ℕ → Option (List ℕ)
from_hex zero hex = some []
from_hex (suc n) hex = do
  byte ← parse_number 0xff 16 (take 2 hex)
  buf ← from_hex n (drop 2 hex)
  some (byte ∷ buf)

-- The fields after the transport byte.
pub get_fields : TransportType → List ℕ → RdmaToken
get_fields transport in1 =
    let (qp_num, in2) = get_uint 4 in1 in
    let (gid, in3) = get_span gid_len in2 in
    let (rkey, in4) = get_uint 4 in3 in
    let (remote_addr, in5) = get_uint 8 in4 in
    let (len, in6) = get_uint 8 in5 in
    let (port_num, in7) = get_uint 1 in6 in
    let (lid, in8) = get_uint 2 in7 in
    record {
      qp_num = qp_num;
      gid = gid;
      rkey = rkey;
      remote_addr = remote_addr;
      len = len;
      transport = transport;
      port_num = port_num;
      lid = lid;
    }

pub get_token : List ℕ → Option RdmaToken
unfolding get_fields
get_token in0 = do
  let (byte, in1) = get_uint 1 in0
  transport ← transport_of_byte byte
  some (get_fields transport in1)

unfoldable pub decode_rdma_token_hex : List ℕ → Option RdmaToken
unfolding from_hex get_token
decode_rdma_token_hex token_hex =
    if length token_hex == rdma_token_hex_len
    then (do buf ← from_hex token_binary_len token_hex; get_token buf)
    else none
