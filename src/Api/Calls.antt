-- ===== src/Api/Calls.antt =====
-- src/hipobj.cpp: the public functions. A null pointer is the address 0, or none.
use hip_object.Prelude.{
  ℕ, Bool, true, false, ◌&&◌, Option, none, some, ◌==◌, if◌then◌else◌, is_some,
}
use hip_object.Prelude.Int.{ℤ, pos, negsuc}
use hip_object.Token.{RdmaToken, encode_rdma_token_hex}
use hip_object.Buffer.{
  BufEntry, Registration, is_valid_device_range, register_buffer, register_host_buffer,
  deregister_buffer, find, drop_copy,
}
use hip_object.Api.Errors.{OpError, HipObjError, make_error, is_success}
use hip_object.Api.Checks.{
  check_registration_args, registration_error, deregistration_error, check_buffer_args,
}
use hip_object.Api.Instance.{Ending, gives, throws, pends, Platform, Instance, Step, seq}
use hip_object.Api.Staging.{check_no_abandoned_copy, stage_to_device, stage_to_host, reclaim_all}
use hip_object.Api.Transfer.{Ops, build_rdma_token, run_rdma_transfer}

-- `catch (...) { return kExceptionError; }`
abbrev pub caught : Ending HipObjError × Instance → Ending HipObjError × Instance
caught (gives e, i) = (gives e, i)
caught (throws, i) = (gives (make_error OpError.internal_error), i)
caught (pends, i) = (pends, i)

-- A public function that needs an instance.
abbrev pub entered : Step → Option Instance → Ending HipObjError × Option Instance
entered body none = (gives (make_error OpError.not_initialized), none)
entered body (some i) = let (ending, j) = caught (body i) in (ending, some j)

-- The end of the scope of what `find` returned.
abbrev pub let_buffer_go :
    ℕ → Option BufEntry → Ending HipObjError × Instance → Ending HipObjError × Instance
let_buffer_go dev_ptr none (ending, i) = (ending, i)
let_buffer_go dev_ptr (some buf) (gives e, i) =
    (gives e, record i { buffers = drop_copy dev_ptr i.buffers })
let_buffer_go dev_ptr (some buf) (throws, i) =
    (throws, record i { buffers = drop_copy dev_ptr i.buffers })
let_buffer_go dev_ptr (some buf) (pends, i) = (pends, i)

-- `checkBufferArgs` of what `find` returned, and then the rest of a function that uses the buffer.
unfoldable pub use_buffer : ℕ → ℕ → ℤ → (BufEntry → Step) → Option BufEntry → Step
unfolding check_buffer_args
use_buffer dev_ptr size offset body none i = (gives (check_buffer_args dev_ptr none size offset), i)
use_buffer dev_ptr size offset body (some buf) i =
    seq (gives (check_buffer_args dev_ptr (some buf) size offset), i) (body buf)

-- The part of such a function from `find` on.
unfoldable pub with_buffer : ℕ → ℕ → ℤ → (BufEntry → Step) → Step
unfolding use_buffer find
with_buffer dev_ptr size offset body i =
    let (buf, buffers) = find dev_ptr i.buffers in
    let_buffer_go dev_ptr buf
      (use_buffer dev_ptr size offset body buf (record i { buffers = buffers }))

-- A registration, whose arguments have been checked.
abbrev pub registers : HipObjError → Registration → Step
registers e (result, buffers, log) i =
    if is_success e.op_error
    then (gives (registration_error result), record i { buffers = buffers; buffers_log = log })
    else (gives e, i)

-- `ops == nullptr`, or one of its callbacks is null
abbrev pub has_callbacks : Option Ops → Option Ops
has_callbacks none = none
has_callbacks (some ops) =
    if is_some ops.send_request && is_some ops.recv_reply then some ops else none

-- The two numbers, 0 and 1, that `hipObjBufSync` takes for directions, and `hipObjGetRdmaToken` for
-- operations.
abbrev pub one_of_two : ℤ → Option Bool
one_of_two (negsuc n) = none
one_of_two (pos n) = if n == 0 then some false else if n == 1 then some true else none

-- The end of `hipObjGetRdmaToken`: the encoded token, with its NUL, is copied to the caller.
unfoldable pub give_token : Option RdmaToken → Step
give_token none i = (gives (make_error OpError.rdma_error), i)
give_token (some token) i = (
  gives (make_error OpError.success),
  record i { out_token = some (encode_rdma_token_hex token) },
)

-- The part of `hipObjBufDeregister` after `reclaim`.
unfoldable pub deregister_with : ℕ → Step
unfolding deregister_buffer deregistration_error
deregister_with dev_ptr i =
    let (result, buffers, log) = deregister_buffer dev_ptr i.buffers i.buffers_log in
    (gives (deregistration_error result), record i { buffers = buffers; buffers_log = log })

-- A function that uses a buffer through callbacks, which it needs.
unfoldable pub with_callbacks : Option Ops → (Ops → Step) → Step
with_callbacks ops body i = elim (has_callbacks ops) [
  | none ↦ (gives (make_error OpError.invalid_value), i)
  | some callbacks ↦ body callbacks i
]

-- A function whose number says which of two things it does.
unfoldable pub with_number : ℤ → (Bool → Step) → Step
with_number n body i = elim (one_of_two n) [
  | none ↦ (gives (make_error OpError.invalid_value), i)
  | some b ↦ body b i
]

module _ (platform : Platform) where
  -- The public functions, with the current instance.
  unfoldable pub register_body : ℕ → ℕ → Step
  unfolding register_buffer is_valid_device_range check_registration_args registration_error
  register_body dev_ptr size i =
      let checked = check_registration_args dev_ptr size in
      let e =
        if is_success checked.op_error
        then if is_valid_device_range platform.system dev_ptr size
          then checked
          else make_error OpError.invalid_value
        else checked in
      registers e
        (register_buffer platform.system platform.policy dev_ptr size i.buffers i.buffers
          i.buffers_log)
        i

  unfoldable pub register_host_body : ℕ → ℕ → Step
  unfolding register_host_buffer check_registration_args registration_error
  register_host_body host_ptr size i =
      registers (check_registration_args host_ptr size)
        (register_host_buffer platform.system host_ptr size i.buffers i.buffers i.buffers_log) i

  unfoldable pub deregister_body : ℕ → Step
  unfolding deregister_with reclaim_all
  deregister_body dev_ptr i =
      if dev_ptr == 0
      then (gives (make_error OpError.invalid_value), i)
      else deregister_with dev_ptr (reclaim_all platform i)

  -- The part of `hipObjGet` that uses the buffer.
  unfoldable pub get_with : Ops → ℕ → ℕ → ℤ → BufEntry → Step
  unfolding check_no_abandoned_copy run_rdma_transfer stage_to_device
  get_with ops dev_ptr size offset buf i =
      seq
        (seq (check_no_abandoned_copy platform dev_ptr buf i)
          (run_rdma_transfer platform ops buf size offset))
        (stage_to_device platform dev_ptr buf size offset)

  unfoldable pub get_body : ℕ → ℕ → ℤ → Option Ops → Step
  unfolding with_callbacks with_buffer get_with
  get_body dev_ptr size offset ops =
      with_callbacks ops
        (λ callbacks. with_buffer dev_ptr size offset (get_with callbacks dev_ptr size offset))

  -- The part of `hipObjPut` that uses the buffer.
  unfoldable pub put_with : Ops → ℕ → ℕ → ℤ → BufEntry → Step
  unfolding check_no_abandoned_copy run_rdma_transfer stage_to_host
  put_with ops dev_ptr size offset buf i =
      seq
        (seq (check_no_abandoned_copy platform dev_ptr buf i)
          (stage_to_host platform dev_ptr buf size offset))
        (run_rdma_transfer platform ops buf size offset)

  unfoldable pub put_body : ℕ → ℕ → ℤ → Option Ops → Step
  unfolding with_callbacks with_buffer put_with
  put_body dev_ptr size offset ops =
      with_callbacks ops
        (λ callbacks. with_buffer dev_ptr size offset (put_with callbacks dev_ptr size offset))

  -- The part of `hipObjBufSync` that uses the buffer.
  unfoldable pub sync_with : Bool → ℕ → ℕ → ℤ → BufEntry → Step
  unfolding check_no_abandoned_copy stage_to_device stage_to_host
  sync_with to_device dev_ptr size offset buf i =
      seq (check_no_abandoned_copy platform dev_ptr buf i) (
        if to_device
        then stage_to_device platform dev_ptr buf size offset
        else stage_to_host platform dev_ptr buf size offset)

  -- `HIPOBJ_SYNC_TO_HOST` is 0, and `HIPOBJ_SYNC_TO_DEVICE` is 1.
  unfoldable pub sync_body : ℕ → ℕ → ℤ → ℤ → Step
  unfolding with_number with_buffer sync_with
  sync_body dev_ptr size offset direction =
      with_number direction
        (λ to_device. with_buffer dev_ptr size offset (sync_with to_device dev_ptr size offset))

  -- The part of `hipObjGetRdmaToken` that uses the buffer.
  unfoldable pub token_with : ℕ → ℕ → BufEntry → Step
  unfolding check_no_abandoned_copy build_rdma_token give_token
  token_with dev_ptr size buf i =
      seq (check_no_abandoned_copy platform dev_ptr buf i)
        (λ j. give_token (build_rdma_token platform j.token_conn buf size (pos 0)) j)

  -- `HIPOBJ_RDMA_OP_PUT` is 0, and `HIPOBJ_RDMA_OP_GET` is 1.
  unfoldable pub token_body : ℕ → ℕ → ℤ → Bool → Step
  unfolding with_number with_buffer token_with
  token_body dev_ptr size op false i = (gives (make_error OpError.invalid_value), i)
  token_body dev_ptr size op true i =
      with_number op (λ is_get. with_buffer dev_ptr size (pos 0) (token_with dev_ptr size)) i

  unfoldable pub hip_obj_buf_register :
      ℕ → ℕ → Option Instance → Ending HipObjError × Option Instance
  unfolding register_body
  hip_obj_buf_register dev_ptr size = entered (register_body dev_ptr size)

  unfoldable pub hip_obj_buf_register_host :
      ℕ → ℕ → Option Instance → Ending HipObjError × Option Instance
  unfolding register_host_body
  hip_obj_buf_register_host host_ptr size = entered (register_host_body host_ptr size)

  unfoldable pub hip_obj_buf_deregister : ℕ → Option Instance → Ending HipObjError × Option Instance
  unfolding deregister_body
  hip_obj_buf_deregister dev_ptr = entered (deregister_body dev_ptr)

  unfoldable pub hip_obj_get :
      ℕ → ℕ → ℤ → Option Ops → Option Instance → Ending HipObjError × Option Instance
  unfolding get_body
  hip_obj_get dev_ptr size offset ops = entered (get_body dev_ptr size offset ops)

  unfoldable pub hip_obj_put :
      ℕ → ℕ → ℤ → Option Ops → Option Instance → Ending HipObjError × Option Instance
  unfolding put_body
  hip_obj_put dev_ptr size offset ops = entered (put_body dev_ptr size offset ops)

  unfoldable pub hip_obj_buf_sync :
      ℕ → ℕ → ℤ → ℤ → Option Instance → Ending HipObjError × Option Instance
  unfolding sync_body
  hip_obj_buf_sync dev_ptr size offset direction = entered (sync_body dev_ptr size offset direction)

  unfoldable pub hip_obj_get_rdma_token :
      ℕ → ℕ → ℤ → Bool → Option Instance → Ending HipObjError × Option Instance
  unfolding token_body
  hip_obj_get_rdma_token dev_ptr size op has_out_token =
      entered (token_body dev_ptr size op has_out_token)
