-- ===== src/Api/Checks.antt =====
-- src/hipobj.cpp: the checks of arguments, and the errors that results stand for.
use hip_object.Prelude.{
  ℕ, ◌+◌, ◌-◌, ◌^◌, ◌≤◌, ◌<◌, ◌≡◌, ◌↔◌, refl, ap, Bool, true, false, ◌||◌, Option, none, some, ◌==◌,
  ltb, leb, if◌then◌else◌, arith,
}
use hip_object.Prelude.Int.{ℤ, pos, negsuc, pos_part}
use hip_object.Buffer.{
  BufEntry, RegisterResult, registered, already_registered, failed, DeregisterResult, deregistered,
  not_registered, busy, max_mr_size,
}
use hip_object.Pool.{AcquireError}
use hip_object.Api.Errors.{OpError, HipObjError, make_error}

-- `size_t` and `uintptr_t` have 64 bits.
abbrev pub uintptr_max : ℕ
uintptr_max = 2 ^ 64 - 1

unfoldable pub range_in_registration : ℤ → ℕ → ℕ → Bool
range_in_registration (negsuc n) size reg_size = false
range_in_registration (pos offset) size reg_size =
    if ltb reg_size offset then false else leb size (reg_size - offset)

unfoldable pub check_registration_args : ℕ → ℕ → HipObjError
check_registration_args ptr size =
    if ptr == 0 || size == 0
    then make_error OpError.invalid_value
    else if ltb max_mr_size size
    then make_error OpError.size_too_large
    else if ltb (uintptr_max - ptr) size
    then make_error OpError.invalid_value
    else make_error OpError.success

unfoldable pub registration_error : RegisterResult → HipObjError
registration_error registered = make_error OpError.success
registration_error already_registered = make_error OpError.buf_already_registered
registration_error failed = make_error OpError.rdma_error

unfoldable pub deregistration_error : DeregisterResult → HipObjError
deregistration_error deregistered = make_error OpError.success
deregistration_error not_registered = make_error OpError.buf_not_registered
deregistration_error busy = make_error OpError.busy

unfoldable pub acquire_error : AcquireError → HipObjError
acquire_error AcquireError.closed = make_error OpError.not_initialized
acquire_error AcquireError.busy = make_error OpError.busy
acquire_error AcquireError.no_connections = make_error OpError.rdma_error

abbrev pub is_negative : ℤ → Bool
is_negative (pos n) = false
is_negative (negsuc n) = true

unfoldable pub check_buffer_args : ℕ → Option BufEntry → ℕ → ℤ → HipObjError
unfolding range_in_registration
check_buffer_args dev_ptr buf size offset =
    if dev_ptr == 0 || (size == 0 || is_negative offset)
    then make_error OpError.invalid_value
    else elim buf [
      | none ↦ make_error OpError.buf_not_registered
      | some entry ↦
          if range_in_registration offset size entry.size
          then make_error OpError.success
          else make_error OpError.invalid_value
    ]

-- A range lies in a registration exactly when its offset is not negative and its end is not past the
-- registration's: no sum can wrap around.
pub range_in_registration_iff :
    (offset : ℤ) (size reg_size : ℕ)
    → (range_in_registration offset size reg_size ≡ true)
      ↔ ((n : ℕ) × (offset ≡ pos n) × (n + size ≤ reg_size))
unfolding range_in_registration
range_in_registration_iff (negsuc n) size reg_size = ((λ h. cc), λ (m, e, le). cc)
range_in_registration_iff (pos offset) size reg_size =
    ((λ h. (offset, refl, ground arith)), λ (m, e, le). ground (arith, ap pos_part e))

-- The arguments of a registration pass exactly when the range is neither null nor empty, not longer
-- than the limit, and ends below 2^64.
check_registration_args_iff :
    (ptr size : ℕ)
    → ptr < 2 ^ 64
    → (check_registration_args ptr size ≡ make_error OpError.success)
      ↔ ((0 < ptr) × (0 < size) × (size ≤ max_mr_size) × (ptr + size < 2 ^ 64))
unfolding check_registration_args
check_registration_args_iff ptr size fits = ground arith
