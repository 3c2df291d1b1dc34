-- ===== src/Api/Errors.antt =====
-- include/hipobj.h and src/hipobj-private.h: the errors of the public functions.
use hip_object.Prelude.{ℕ, Bool, true, false, Option, none, some, List, codes}
use hip_object.Prelude.Int.{ℤ, pos}

pub data OpError : Type 0 where
  success invalid_value not_initialized already_initialized rdma_error s3_error : OpError
  buf_not_registered buf_already_registered nic_not_found dmabuf_not_supported : OpError
  size_too_large internal_error busy : OpError

pub record HipObjError : Type 0 where
  pub op_error : OpError
  pub hip_error : ℤ

abbrev pub make_error : OpError → HipObjError
make_error e = record { op_error = e; hip_error = pos 0 }

-- `err.opError == hipObjSuccess`
abbrev pub is_success : OpError → Bool
is_success success = true
is_success _ = false

-- `hipObjGetErrorString`; none is a number that no enumerator has.
unfoldable pub get_error_string : Option OpError → List ℕ
get_error_string none = codes "Unknown error"
get_error_string (some success) = codes "Success"
get_error_string (some invalid_value) = codes "Invalid value"
get_error_string (some not_initialized) = codes "Not initialized"
get_error_string (some already_initialized) = codes "Already initialized"
get_error_string (some rdma_error) = codes "RDMA error"
get_error_string (some s3_error) = codes "S3 error"
get_error_string (some buf_not_registered) = codes "Buffer not registered"
get_error_string (some buf_already_registered) = codes "Buffer already registered"
get_error_string (some nic_not_found) = codes "NIC not found"
get_error_string (some dmabuf_not_supported) = codes "dmabuf not supported"
get_error_string (some size_too_large) = codes "Size too large"
get_error_string (some internal_error) = codes "Internal error"
get_error_string (some busy) = codes "Busy"
