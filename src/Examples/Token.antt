-- ===== src/Examples/Token.antt =====
-- The token and reply code of src/rdma/token.cpp at concrete inputs.
use hip_object.Prelude.{
  ℕ, ◌≡◌, ◌↔◌, refl, some, none, List, [], ◌∷◌, ◌++◌, map, replicate, arith, codes,
}
use hip_object.Prelude.Int.{pos}
use hip_object.Parse.{parse_number}
use hip_object.Parse.Laws.{Parses, parse_number_iff}
use hip_object.Token.{RdmaToken, IsRdmaToken, rc, encode_rdma_token, decode_rdma_token_hex}
use hip_object.Token.RoundTrip.{decode-encode}
use hip_object.Token.Canonical.{to_lower, encode-decode}
use hip_object.Token.Reply.{
  not_supported, parse_reply, decode_rdma_reply, to_string, encode_reply_with_peer_token,
}
use hip_object.Token.Reply.Laws.{
  IsReply, parse_reply-encode, parse_reply-to_string, parse_reply-IsReply,
}
use hip_object.Token.ClientNic.{parse_client_nic_from_token_hex}
use hip_object.Token.ClientNic.Laws.{WritesNic, client_nic_text}

-- A token of a peer at 10.0.0.7, with bytes above 127 and in each field.
abbrev token : RdmaToken
token = record {
  qp_num = 0x0012_ab34;
  gid = replicate 10 0 ++ 255 ∷ 255 ∷ 10 ∷ 0 ∷ 0 ∷ 7 ∷ [];
  rkey = 0xdead_beef;
  remote_addr = 0x7f00_1234_5678_9abc;
  len = 1_048_576;
  transport = rc;
  port_num = 1;
  lid = 0xfffe;
}

token-IsRdmaToken : IsRdmaToken token
token-IsRdmaToken = ground arith

decode-encode_example : decode_rdma_token_hex (encode_rdma_token token) ≡ some token
decode-encode_example = decode-encode token token-IsRdmaToken

encode-decode_example :
    IsRdmaToken token × (encode_rdma_token token ≡ map to_lower (encode_rdma_token token))
encode-decode_example =
    encode-decode (encode_rdma_token token) token (decode-encode token token-IsRdmaToken)

abbrev crlf : List ℕ
crlf = 13 ∷ 10 ∷ []

parse_reply-encode_example :
    parse_reply (encode_reply_with_peer_token (pos 200) token ++ crlf)
    ≡ some (record { http_code = pos 200; peer_token = some token })
parse_reply-encode_example = parse_reply-encode token crlf token-IsRdmaToken (refl, (refl, tt))

parse_reply-to_string_example :
    (parse_reply (to_string (pos 501) ++ crlf)
      ≡ some (record { http_code = pos 501; peer_token = none }))
    × (decode_rdma_reply (to_string (pos 501) ++ crlf) ≡ some not_supported)
parse_reply-to_string_example =
    parse_reply-to_string 501 crlf (ground arith) (ground arith) (refl, (refl, tt))

parse_reply-IsReply_example : IsReply (record { http_code = pos 200; peer_token = some token })
parse_reply-IsReply_example =
    parse_reply-IsReply (encode_reply_with_peer_token (pos 200) token ++ crlf)
      (record { http_code = pos 200; peer_token = some token })
      (parse_reply-encode token crlf token-IsRdmaToken (refl, (refl, tt)))

parse_number_iff_example :
    (parse_number 255 16 (codes "fF") ≡ some 255) ↔ Parses 255 16 (codes "fF") 255
parse_number_iff_example = parse_number_iff 255 16 (codes "fF") 255

-- A span of ten bytes: room for the address "10.0.0.7", its NUL and one byte more.
abbrev nic_ip : List ℕ
nic_ip = replicate 10 1

client_nic_text_example :
    WritesNic
      (decode_rdma_token_hex (encode_rdma_token token))
      nic_ip
      (parse_client_nic_from_token_hex (encode_rdma_token token) nic_ip)
client_nic_text_example = client_nic_text (encode_rdma_token token) nic_ip
