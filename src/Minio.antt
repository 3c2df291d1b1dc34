-- ===== src/Minio.antt =====
-- integrations/minio-cpp/src/rdma.cpp: transfers through an S3 client of minio-cpp, which is not part of
-- the repository: building a request's address, sending it, and trimming a text are parameters.
pub mod Laws
pub mod Stats
pub mod Session
pub mod Http
pub mod Objects
pub mod Ready
pub mod Linked
use hip_object.Prelude.{
  ℕ, zero, suc, ◌+◌, ◌-◌, ◌^◌, ◌≤◌, ◌<◌, ◌≡◌, refl, inl, inr, Bool, true, false, not, ◌&&◌, ◌||◌,
  Option, none, some, List, [], ◌∷◌, ◌==◌, ltb, leb, if◌then◌else◌, is_empty, arith, Bool-cases,
  Option-cases,
}
use hip_object.Prelude.Int.{ℤ, pos, negsuc}
use hip_object.Parse.{parse_number}
use hip_object.Api.Errors.{HipObjError, is_success}
use hip_object.Api.Instance.{Ending, gives, throws, pends, Platform, Instance}
use hip_object.Api.Calls.{hip_obj_get_rdma_token, hip_obj_buf_sync}
use hip_object.Api.Plain.{before_nul, hip_obj_parse_rdma_reply}

pub data RdmaStatus : Type 0 where
  ok failed not_supported : RdmaStatus

pub record RdmaResult : Type 0 where
  pub status : RdmaStatus
  pub bytes : ℕ

abbrev pub failure : RdmaResult
failure = record { status = failed; bytes = 0 }

-- `S3RdmaContext`, the members that are written, and those that name a part of an upload
pub record S3RdmaContext : Type 0 where
  pub upload_id : List ℕ
  pub part_number : ℕ
  pub checksum : List ℕ
  pub etag : List ℕ

-- `minio::http::Response`, as far as it is read. A header that is missing is empty, except for that
-- with the number of bytes.
pub record Response : Type 0 where
  pub error : List ℕ
  pub status_code : ℕ
  pub etag : List ℕ
  pub amz_rdma_reply : List ℕ
  pub checksum : List ℕ
  pub bytes_transferred : Option (List ℕ)

abbrev pub http_ok : ℕ
http_ok = 200

abbrev pub max_part_number : ℕ
max_part_number = 10000

abbrev pub rdma_reply_success : ℤ
rdma_reply_success = pos 200

abbrev rdma_reply_no_content : ℤ
rdma_reply_no_content = pos 204

abbrev pub rdma_reply_partial_content : ℤ
rdma_reply_partial_content = pos 206

abbrev pub rdma_reply_not_implemented : ℤ
rdma_reply_not_implemented = pos 501

abbrev same_code : ℤ → ℤ → Bool
same_code (pos m) (pos n) = m == n
same_code (pos m) (negsuc n) = false
same_code (negsuc m) (pos n) = false
same_code (negsuc m) (negsuc n) = m == n

abbrev pub is_code : ℤ → Option ℤ → Bool
is_code code none = false
is_code code (some n) = same_code n code

abbrev code_of : HipObjError × Option ℤ → Option ℤ
code_of (e, out) = if is_success e.op_error then out else none

-- `parseRdmaReply`
unfoldable pub reply_code_of : List ℕ → Option ℤ
unfolding hip_obj_parse_rdma_reply
reply_code_of rdma_reply =
    if is_empty rdma_reply
    then some rdma_reply_not_implemented
    else code_of (hip_obj_parse_rdma_reply (some rdma_reply) (some (pos 0)))

unfoldable pub parse_bytes_transferred : Option (List ℕ) → ℕ → Option ℕ
unfolding parse_number
parse_bytes_transferred none if_absent = some if_absent
parse_bytes_transferred (some value) if_absent = parse_number (2 ^ 64 - 1) 10 value

-- The part of `rdmaPut` after the response, with `trim` for `minio::utils::Trim` of quotes.
unfoldable pub put_result :
    (List ℕ → List ℕ) → S3RdmaContext → ℕ → Response → RdmaResult × S3RdmaContext
unfolding reply_code_of
put_result trim ctx size res =
    let done : RdmaResult = record { status = ok; bytes = size } in
    let code = reply_code_of res.amz_rdma_reply in
    let with_checksum =
      if is_empty res.checksum then ctx else record ctx { checksum = res.checksum } in
    if not (is_empty res.error)
    then (failure, ctx)
    else if res.status_code == http_ok && not (is_empty res.etag)
    then (done, record ctx { etag = trim res.etag })
    else if is_code rdma_reply_not_implemented code
    then (record { status = not_supported; bytes = 0 }, ctx)
    else if not (is_code rdma_reply_success code || is_code rdma_reply_no_content code)
    then (failure, ctx)
    else (done, record with_checksum { etag = trim res.etag })

-- The end of `rdmaGet`, with the number of bytes that the server says, if it is a number.
unfoldable pub bytes_result : ℕ → Option ℕ → RdmaResult
bytes_result size none = failure
bytes_result size (some bytes) =
    if ltb size bytes then failure else record { status = ok; bytes = bytes }

-- The part of `rdmaGet` after the response.
unfoldable pub get_result : ℕ → Response → RdmaResult
unfolding reply_code_of parse_bytes_transferred bytes_result
get_result size res =
    let code = reply_code_of res.amz_rdma_reply in
    if not (is_empty res.error)
    then failure
    else if is_code rdma_reply_not_implemented code
    then record { status = not_supported; bytes = 0 }
    else if not (is_code rdma_reply_success code || is_code rdma_reply_partial_content code)
    then failure
    else bytes_result size (parse_bytes_transferred res.bytes_transferred size)

-- Requests: what is sent is the text of a token, and none stands for an address that could not be
-- built. Other threads can change the instance meanwhile.
pub record Client : Type 0 where
  pub put : Option Instance → List ℕ → Option Response × Option Instance
  pub get : Option Instance → List ℕ → Option Response × Option Instance
  pub trim : List ℕ → List ℕ

-- What a transfer with retries gives: its ending, and the context and the instance after it.
abbrev pub Retried : Type 0
Retried = Ending RdmaResult × (S3RdmaContext × Option Instance)

-- The token that `hipObjGetRdmaToken` gave, when it succeeded.
abbrev pub given_token : Option Instance → Option (List ℕ)
given_token none = none
given_token (some i) = i.out_token

abbrev pub has_moved : RdmaResult → Bool
has_moved r = elim r.status [ ok ↦ ltb 0 r.bytes | failed ↦ false | not_supported ↦ false ]

abbrev pub is_refused : RdmaResult → Bool
is_refused r = elim r.status [ ok ↦ false | failed ↦ false | not_supported ↦ true ]

-- The turns of the loops: the result of the last request, and what is left of the loop after it.
abbrev pub or_again : RdmaResult → S3RdmaContext → Option Instance → Retried → Retried
or_again r ctx s rest = if has_moved r || is_refused r then (gives r, (ctx, s)) else rest

-- A step of a turn that has to succeed.
abbrev pub need : Ending HipObjError × Option Instance → S3RdmaContext → Retried → Retried
need (throws, s) ctx next = (throws, (ctx, s))
need (pends, s) ctx next = (pends, (ctx, s))
need (gives e, s) ctx next = if is_success e.op_error then next else (gives failure, (ctx, s))

-- `rdmaGet`, with the response or none.
abbrev pub got : ℕ → Option Response → RdmaResult
got size none = failure
got size (some res) = get_result size res

-- `rdmaPut`: the number of a part is checked before the address is built.
abbrev pub is_bad_part : S3RdmaContext → Bool
is_bad_part ctx =
    not (is_empty ctx.upload_id) && (ctx.part_number == 0 || ltb max_part_number ctx.part_number)

abbrev put_of : (List ℕ → List ℕ) → S3RdmaContext → ℕ → Option Response → RdmaResult × S3RdmaContext
put_of trim ctx size none = (failure, ctx)
put_of trim ctx size (some res) = put_result trim ctx size res

unfoldable pub rdma_put :
    Client
    → S3RdmaContext
    → ℕ
    → Option Instance
    → List ℕ
    → RdmaResult × (S3RdmaContext × Option Instance)
unfolding put_result
rdma_put client ctx size s token =
    let (res, t) = client.put s token in
    let (r, after) = put_of client.trim ctx size res in
    if is_bad_part ctx then (failure, (ctx, s)) else (r, (after, t))

module _ (platform : Platform) (client : Client) (buf size : ℕ) where
  -- The part of a turn of `rdmaGetWithRetry` after the response: the result `r`, and the loop after it.
  unfoldable pub after_get : S3RdmaContext → RdmaResult → Option Instance → Retried → Retried
  unfolding hip_obj_buf_sync
  after_get ctx r s rest =
      let synced = hip_obj_buf_sync platform buf size (pos 0) (pos 1) s in
      if has_moved r
      then need synced ctx (gives r, (ctx, synced.1))
      else if is_refused r
      then (gives r, (ctx, s))
      else rest

  -- `n` more turns of the loop, after one with the result `r`.
  unfoldable pub get_loop : ℕ → S3RdmaContext → RdmaResult → Option Instance → Retried
  unfolding after_get hip_obj_get_rdma_token
  get_loop zero ctx r s = (gives r, (ctx, s))
  get_loop (suc n) ctx r s =
      let asked = hip_obj_get_rdma_token platform buf size (pos 1) true s in
      let again = λ (r : RdmaResult) (t : Option Instance). get_loop n ctx r t in
      need asked ctx (elim (given_token asked.1) [
        | none ↦ (gives failure, (ctx, asked.1))
        | some token ↦
            let (res, t) = client.get asked.1 (before_nul token) in
            after_get ctx (got size res) t (again (got size res) t)
      ])

  -- `kRdmaMaxAttempts`
  unfoldable pub rdma_get_with_retry : S3RdmaContext → Option Instance → Retried
  unfolding get_loop
  rdma_get_with_retry ctx s = get_loop 2 ctx failure s

  unfoldable pub put_loop : ℕ → S3RdmaContext → RdmaResult → Option Instance → Retried
  unfolding rdma_put hip_obj_get_rdma_token hip_obj_buf_sync
  put_loop zero ctx r s = (gives r, (ctx, s))
  put_loop (suc n) ctx r s =
      let asked = hip_obj_get_rdma_token platform buf size (pos 0) true s in
      let synced = hip_obj_buf_sync platform buf size (pos 0) (pos 0) asked.1 in
      let again = λ (c : S3RdmaContext) (r : RdmaResult) (t : Option Instance). put_loop n c r t in
      need asked ctx (elim (given_token asked.1) [
        | none ↦ (gives failure, (ctx, asked.1))
        | some token ↦ need synced ctx (
            let (r, (c, t)) = rdma_put client ctx size synced.1 (before_nul token) in
            or_again r c t (again c r t))
      ])

  unfoldable pub rdma_put_with_retry : S3RdmaContext → Option Instance → Retried
  unfolding put_loop
  rdma_put_with_retry ctx s = put_loop 2 ctx failure s
