-- ===== src/Api/Plain.antt =====
-- src/hipobj.cpp: the public functions that need no instance. A null pointer is none.
use hip_object.Prelude.{
  ℕ, ◌+◌, Bool, Option, none, some, List, [], ◌∷◌, ◌==◌, if◌then◌else◌, take, is_empty,
}
use hip_object.Prelude.Int.{ℤ}
use hip_object.Token.{rdma_token_hex_len}
use hip_object.Token.Reply.{parse_rdma_reply_http_code}
use hip_object.Token.ClientNic.{parse_client_nic_from_token_hex}
use hip_object.Api.Errors.{OpError, HipObjError, make_error}

-- The text of a pointer to a string, before its first NUL.
unfoldable pub before_nul : List ℕ → List ℕ
before_nul [] = []
before_nul (c ∷ text) = let rest = before_nul text in if c == 0 then [] else c ∷ rest

-- `cStringView`: `strnlen` looks at no more than `max_len` characters.
unfoldable pub c_string_view : List ℕ → ℕ → List ℕ
unfolding before_nul
c_string_view text max_len = before_nul (take max_len text)

-- `hipObjParseRdmaReply`, with the number at `httpCode` before it and after it.
unfoldable pub hip_obj_parse_rdma_reply : Option (List ℕ) → Option ℤ → HipObjError × Option ℤ
unfolding parse_rdma_reply_http_code
hip_obj_parse_rdma_reply none out = (make_error OpError.invalid_value, out)
hip_obj_parse_rdma_reply (some reply) none = (make_error OpError.invalid_value, none)
hip_obj_parse_rdma_reply (some reply) (some before) = elim (parse_rdma_reply_http_code reply) [
  | none ↦ (make_error OpError.invalid_value, some before)
  | some code ↦ (make_error OpError.success, some code)
]

-- The end of `hipObjTokenClientNic`.
abbrev nic_result : Bool × List ℕ → HipObjError × Option (List ℕ)
nic_result (ok, buffer) =
    (make_error (if ok then OpError.success else OpError.invalid_value), some buffer)

-- `hipObjTokenClientNic`, with the buffer at `nicIp` before it and after it.
unfoldable pub hip_obj_token_client_nic :
    Option (List ℕ) → Option (List ℕ) → HipObjError × Option (List ℕ)
unfolding parse_client_nic_from_token_hex c_string_view
hip_obj_token_client_nic none out = (make_error OpError.invalid_value, out)
hip_obj_token_client_nic (some token) none = (make_error OpError.invalid_value, none)
hip_obj_token_client_nic (some token) (some buffer) =
    if is_empty buffer
    then (make_error OpError.invalid_value, some buffer)
    else nic_result
        (parse_client_nic_from_token_hex (c_string_view token (rdma_token_hex_len + 1)) buffer)

-- `hipObjPutRdmaToken`; it frees the text.
unfoldable pub hip_obj_put_rdma_token : Option (List ℕ) → HipObjError
hip_obj_put_rdma_token none = make_error OpError.invalid_value
hip_obj_put_rdma_token (some token) = make_error OpError.success

abbrev pub version_major : ℕ
version_major = 0

abbrev pub version_minor : ℕ
version_minor = 1

abbrev pub version_patch : ℕ
version_patch = 0

-- A number is written where the pointer to it is not null.
abbrev write_to : ℕ → Option ℕ → Option ℕ
write_to n none = none
write_to n (some before) = some n

-- `hipObjGetVersion`, with the numbers at its pointers before it and after it.
unfoldable pub hip_obj_get_version :
    Option ℕ → Option ℕ → Option ℕ → HipObjError × (Option ℕ × (Option ℕ × Option ℕ))
hip_obj_get_version major minor patch = (
  make_error OpError.success,
  (write_to version_major major, (write_to version_minor minor, write_to version_patch patch)),
)
