-- ===== src/Token/RoundTrip.antt =====
-- Encoding and decoding a token, both ways.
use hip_object.Prelude.{
  ℕ, ◌^◌, ◌<◌, ◌≡◌, refl, ap, ◌∙◌, some, List, [], ◌∷◌, ◌++◌, length, All, arith, length-append,
  append_assoc, append-nil, take-append, drop-append, replicate, ap₂, All-append,
}
use hip_object.Gid.{IsByte}
use hip_object.Token.{
  RdmaToken, IsRdmaToken, TransportType, dc, rc, le_bytes, get_span, transport_byte,
  transport_of_byte, put_token, get_token, to_hex, from_hex, encode_rdma_token_hex,
  encode_rdma_token, decode_rdma_token_hex, token_binary_len, rdma_token_hex_len,
}
use hip_object.Token.Bytes.{
  get_uint-le_bytes, length-le_bytes, le_bytes-IsByte, length-to_hex, from_hex-to_hex,
}

-- The layout of the binary form, in order.
unfoldable pub binary : RdmaToken → List ℕ
binary t =
    le_bytes 1 0 (transport_byte t.transport)
    ++ (le_bytes 4 0 t.qp_num
        ++ (t.gid
            ++ (le_bytes 4 0 t.rkey
                ++ (le_bytes 8 0 t.remote_addr
                    ++ (le_bytes 8 0 t.len
                        ++ (le_bytes 1 0 t.port_num ++ (le_bytes 2 0 t.lid ++ [])))))))

ruleset lengths = (arith, length-append, length-le_bytes)

length-binary : (t : RdmaToken) → IsRdmaToken t → length (binary t) ≡ token_binary_len
unfolding binary
length-binary t h = simp (length-append, length-le_bytes) (omega (arith, h.gid_fits.0))

get_span-append : (n : ℕ) (xs ys : List ℕ) → length xs ≡ n → get_span n (xs ++ ys) ≡ (xs, ys)
unfolding get_span
get_span-append n xs ys e = rw (← e, take-append, drop-append)

transport-byte_fits : (t : TransportType) → transport_byte t < 2 ^ 8
transport-byte_fits dc = omega arith
transport-byte_fits rc = omega arith

transport-round_trip : (t : TransportType) → transport_of_byte (transport_byte t) ≡ some t
transport-round_trip dc = refl
transport-round_trip rc = refl

get_token-binary : (t : RdmaToken) → IsRdmaToken t → get_token (binary t) ≡ some t
unfolding get_token binary
get_token-binary t h = rw (
  get_uint-le_bytes 1 (transport_byte t.transport) _ (transport-byte_fits t.transport),
  get_uint-le_bytes 4 t.qp_num _ h.qp_num_fits,
  get_span-append 16 t.gid _ h.gid_fits.0,
  get_uint-le_bytes 4 t.rkey _ h.rkey_fits,
  get_uint-le_bytes 8 t.remote_addr _ h.remote_addr_fits,
  get_uint-le_bytes 8 t.len _ h.len_fits,
  get_uint-le_bytes 1 t.port_num _ h.port_num_fits,
  get_uint-le_bytes 2 t.lid _ h.lid_fits,
  transport-round_trip t.transport,
)

-- Writing fills the buffer to its end and no further.
put_token-binary :
    (t : RdmaToken)
    → IsRdmaToken t
    → let out = put_token t (record { written = []; rest = replicate token_binary_len 0 }) in
      (out.written ≡ binary t) × (out.rest ≡ [])
unfolding put_token binary
put_token-binary t h = (simp append_assoc (rw append-nil), rw (h.gid_fits.0))

pub binary-IsByte : (t : RdmaToken) → IsRdmaToken t → All IsByte (binary t)
unfolding binary
binary-IsByte t h =
    All-append IsByte (le_bytes 1 0 (transport_byte t.transport)) _ (le_bytes-IsByte 1 0 _) (
      All-append IsByte (le_bytes 4 0 t.qp_num) _ (le_bytes-IsByte 4 0 _) (
        All-append IsByte t.gid _ h.gid_fits.1 (
          All-append IsByte (le_bytes 4 0 t.rkey) _ (le_bytes-IsByte 4 0 _) (
            All-append IsByte (le_bytes 8 0 t.remote_addr) _ (le_bytes-IsByte 8 0 _) (
              All-append IsByte (le_bytes 8 0 t.len) _ (le_bytes-IsByte 8 0 _) (
                All-append IsByte (le_bytes 1 0 t.port_num) _ (le_bytes-IsByte 1 0 _)
                  (All-append IsByte (le_bytes 2 0 t.lid) [] (le_bytes-IsByte 2 0 _) tt)))))))

-- The whole array: the hex digits of the binary form, and the NUL.
pub encode-binary :
    (t : RdmaToken) → IsRdmaToken t → encode_rdma_token_hex t ≡ to_hex (binary t) ++ 0 ∷ []
unfolding encode_rdma_token_hex
encode-binary t h =
    let w = put_token-binary t h in
    ap (λ (x : List ℕ). to_hex x ++ 0 ∷ []) (ap₂ ◌++◌ w.0 w.1 ∙ append-nil (binary t))

length-hex : (t : RdmaToken) → IsRdmaToken t → length (to_hex (binary t)) ≡ rdma_token_hex_len
length-hex t h = omega (arith, length-to_hex (binary t), length-binary t h)

pub encode_rdma_token-binary :
    (t : RdmaToken) → IsRdmaToken t → encode_rdma_token t ≡ to_hex (binary t)
unfolding encode_rdma_token
encode_rdma_token-binary t h =
    rw (encode-binary t h, ← length-hex t h) (take-append (to_hex (binary t)) (0 ∷ []))

pub length-encode_rdma_token :
    (t : RdmaToken) → IsRdmaToken t → length (encode_rdma_token t) ≡ rdma_token_hex_len
length-encode_rdma_token t h = rw (encode_rdma_token-binary t h) (length-hex t h)

-- A token whose fields fit their types is encoded in exactly `rdma_token_hex_len` hex digits, and
-- decoding them gives back the same token.
pub decode-encode :
    (t : RdmaToken) → IsRdmaToken t → decode_rdma_token_hex (encode_rdma_token t) ≡ some t
unfolding decode_rdma_token_hex
decode-encode t h = rw (encode_rdma_token-binary t h, length-hex t h, buffer) (get_token-binary t h)
  where
    buffer : from_hex token_binary_len (to_hex (binary t)) ≡ some (binary t)
    buffer =
        rw (append-nil, length-binary t h) at (from_hex-to_hex (binary t) [] (binary-IsByte t h))
