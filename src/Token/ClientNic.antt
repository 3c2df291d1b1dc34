-- ===== src/Token/ClientNic.antt =====
-- src/rdma/token.cpp: `parseClientNicFromTokenHex`, the IPv4 address in a token's GID as text.
pub mod Quad
pub mod Laws
use native.Mathlib.Numerals.{add-one}
use hip_object.Prelude.{
  ℕ, suc, ◌+◌, ◌-◌, ◌≤◌, ◌<◌, ◌≡◌, ◌≢◌, ◌⊎◌, ◌/◌, ◌%◌, ◌==◌, sym, subst, bytes_eq→eq,
  take-append-drop, append_assoc, refl, ap, ◌∙◌, Bool, true, false, Option, none, some, List, [],
  ◌∷◌, ◌++◌, length, length-append, take, drop, set, replicate, get_or, is_empty, leb, All, arith,
  if◌then◌else◌, inl, inr, Bool-cases, length-take-le, length-drop, All-drop, take_of_le,
  drop-replicate, take-suc-append,
}
use hip_object.Prelude.Int.{pos}
use hip_object.Parse.Laws.{IsDigit, number, parse_number_iff}
use hip_object.Gid.{Gid, IsByte, is_ipv4_mapped_gid, ipv4_of_gid}
use hip_object.Token.{RdmaToken, decode_rdma_token_hex}
use hip_object.Token.Canonical.{encode-decode}
use hip_object.Token.Reply.{emit_digits, to_string}
use hip_object.Token.Reply.Decimal.{parse_number-to_string}

abbrev pub inet_addrstrlen : ℕ
inet_addrstrlen = 16

-- "{}.{}.{}.{}" with the four bytes of the address
unfoldable pub dotted_quad : List ℕ → List ℕ
dotted_quad ipv4 =
    let byte = λ (i : ℕ). to_string (pos (get_or ipv4 i 0)) in
    byte 0 ++ b'.' ∷ (byte 1 ++ b'.' ∷ (byte 2 ++ b'.' ∷ byte 3))

-- `std::ranges::copy(bytes, out.begin())`
abbrev pub copy : List ℕ → List ℕ → List ℕ
copy bytes out = bytes ++ drop (length bytes) out

-- The zeroed buffer after `format_to_n` has written at most `inet_addrstrlen - 1` characters.
pub format_buffer : List ℕ → List ℕ
format_buffer text = copy (take (inet_addrstrlen - 1) text) (replicate inet_addrstrlen 0)

-- The part that writes the address of a mapped GID. The span after the call, and the result.
pub write_address : List ℕ → List ℕ → Bool × List ℕ
write_address ipv4 nic_ip =
    let text = dotted_quad ipv4 in
    let size = length text in
    if leb (length nic_ip) size
    then (false, nic_ip)
    else (true, copy (take (size + 1) (format_buffer text)) nic_ip)

-- The part after the token has been decoded.
pub client_nic_of : Option RdmaToken → List ℕ → Bool × List ℕ
client_nic_of none nic_ip = (false, nic_ip)
client_nic_of (some token) nic_ip =
    if is_ipv4_mapped_gid token.gid
    then write_address (ipv4_of_gid token.gid) nic_ip
    else (true, nic_ip)

unfoldable pub parse_client_nic_from_token_hex : List ℕ → List ℕ → Bool × List ℕ
unfolding client_nic_of
parse_client_nic_from_token_hex token_hex nic_ip =
    if is_empty nic_ip
    then (false, nic_ip)
    else client_nic_of (decode_rdma_token_hex token_hex) (set nic_ip 0 0)
