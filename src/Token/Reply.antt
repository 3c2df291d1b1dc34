-- ===== src/Token/Reply.antt =====
-- src/rdma/token.cpp: the x-amz-rdma-reply value, parsed and printed.
pub mod Decimal
pub mod Trim
pub mod Values
pub mod Laws
use hip_object.Prelude.{
  ℕ, zero, suc, ◌+◌, ◌/◌, ◌%◌, ◌^◌, Bool, true, false, not, ◌||◌, Option, none, some, List, [], ◌∷◌,
  ◌++◌, length, reverse, drop, codes, bytes_eq, ltb, ◌==◌, if◌then◌else◌, ◌>>=◌,
}
use hip_object.Prelude.Int.{ℤ, pos, negsuc}
use hip_object.Parse.{parse_number}
use hip_object.Token.{RdmaToken, encode_rdma_token_hex, decode_rdma_token_hex, rdma_token_hex_len}
use hip_object.Prelude.{take}

pub data RdmaReplyStatus : Type 0 where
  success failed not_supported : RdmaReplyStatus

pub record ParsedReply : Type 0 where
  pub http_code : ℤ
  pub peer_token : Option RdmaToken

-- NUL, LF and CR, which may follow a value.
abbrev pub is_trailing : ℕ → Bool
is_trailing c = c == 0 || c == 10 || c == 13

pub skip_trailing : List ℕ → List ℕ
skip_trailing [] = []
skip_trailing (c ∷ cs) = elim (is_trailing c) [ true ↦ skip_trailing cs | false ↦ c ∷ cs ]

-- The `remove_suffix` loop: the back of the view is the head of the reversed list.
unfoldable pub remove_trailing : List ℕ → List ℕ
unfolding skip_trailing
remove_trailing reply = reverse (skip_trailing (reverse reply))

-- `value.substr(0, value.find(':'))`: all of it if there is no colon
unfoldable pub before_colon : List ℕ → List ℕ
before_colon [] = []
before_colon (c ∷ cs) = if c == b':' then [] else c ∷ before_colon cs

abbrev pub http_status_min : ℕ
http_status_min = 100

abbrev pub http_status_max : ℕ
http_status_max = 599

-- `std::numeric_limits<unsigned>::max()`
abbrev pub unsigned_max : ℕ
unsigned_max = 0xffff_ffff

-- The part of `parseReply` after the status has been parsed as `code`.
pub reply_with_code : List ℕ → List ℕ → ℕ → Option ParsedReply
reply_with_code value status code =
    if length status == length value
    then some (record { http_code = pos code; peer_token = none })
    else if not (code == 200)
    then none
    else (do
      token ← decode_rdma_token_hex (drop (length status + 1) value)
      some (record { http_code = pos code; peer_token = some token }))

-- `parseReply` on a value whose trailing characters are gone.
pub parse_value : List ℕ → Option ParsedReply
unfolding reply_with_code
parse_value value =
    if bytes_eq value (codes "ok")
    then some (record { http_code = pos 200; peer_token = none })
    else if bytes_eq value (codes "err")
    then some (record { http_code = negsuc 0; peer_token = none })
    else let status = before_colon value in
      if not (length status == 3) then none else (do
        parsed ← parse_number unsigned_max 10 status
        if ltb parsed http_status_min || ltb http_status_max parsed
            then none
            else reply_with_code value status parsed)

unfoldable pub parse_reply : List ℕ → Option ParsedReply
unfolding parse_value
parse_reply reply = parse_value (remove_trailing reply)

unfoldable pub parse_rdma_reply_http_code : List ℕ → Option ℤ
parse_rdma_reply_http_code reply = do parsed ← parse_reply reply; some parsed.http_code

abbrev pub is_success_http_code : ℤ → Bool
is_success_http_code (pos n) = n == 200 || n == 204 || n == 206
is_success_http_code (negsuc n) = false

-- `HIPOBJ_RDMA_REPLY_NOT_IMPLEMENTED`
abbrev pub is_not_implemented : ℤ → Bool
is_not_implemented (pos n) = n == 501
is_not_implemented (negsuc n) = false

unfoldable pub decode_rdma_reply : List ℕ → Option RdmaReplyStatus
decode_rdma_reply reply = do
  http_code ← parse_rdma_reply_http_code reply
  some (
      if is_not_implemented http_code
      then not_supported
      else if is_success_http_code http_code
      then success
      else failed)

unfoldable pub parse_peer_token_from_reply : List ℕ → Option RdmaToken
parse_peer_token_from_reply reply = do parsed ← parse_reply reply; parsed.peer_token

-- The decimal digits of `n`, before `out`; `fuel` digits at most.
unfoldable pub emit_digits : ℕ → ℕ → List ℕ → List ℕ
emit_digits zero n out = out
emit_digits (suc fuel) n out =
    let out' = (b'0' + n % 10) ∷ out in
    let more = emit_digits fuel (n / 10) out' in if n / 10 == 0 then out' else more

-- `std::to_string(int)`: an `int` has ten digits at most.
unfoldable pub to_string : ℤ → List ℕ
unfolding emit_digits
to_string (pos n) = emit_digits 10 n []
to_string (negsuc n) = b'-' ∷ emit_digits 10 (suc n) []

unfoldable pub encode_reply_with_peer_token : ℤ → RdmaToken → List ℕ
encode_reply_with_peer_token http_code peer_token =
    let hex = encode_rdma_token_hex peer_token in
    to_string http_code ++ b':' ∷ take rdma_token_hex_len hex
