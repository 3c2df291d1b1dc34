-- ===== src/Examples/Minio.antt =====
-- The client of integrations/minio-cpp at concrete inputs.
use hip_object.Prelude.{ℕ, ◌+◌, ◌≡◌, refl, true, false, none, some, [], ◌∷◌, length, codes}
use hip_object.Api.Errors.{OpError, make_error}
use hip_object.Api.Instance.{gives}
use hip_object.Minio.{ok, RdmaResult}
use hip_object.Minio.Stats.{no_transfers, count_rdma_put}
use hip_object.Minio.Session.{
  BaseUrl, initialized, registered, deregistered, put_by_rdma, HipObjRuntime, Library, Session,
  shut_down_first, after_init, initialize, ensure_init,
}
use hip_object.Minio.Objects.{
  ObjectArgs, succeeds, S3Client, write_chunks, copy_received, after_register, with_registration,
  with_region, after_put, put_by, put_buffer, put_object, get_object,
}
use hip_object.Minio.Objects.Parts.{Ends}
use hip_object.Minio.Objects.Chunks.{write_chunks-copy_received}
use hip_object.Minio.Objects.Amounts.{IsCounted}
use hip_object.Minio.Objects.Counts.{fresh, then_put, Served-IsCounted}
use hip_object.Minio.Objects.Registrations.{IsReleased, transfers-IsReleased}
use hip_object.Minio.Objects.Device.{IsUntouched, transfers-IsUntouched}
use hip_object.Minio.Linked.{Process, library}
use hip_object.Examples.Api.{platform}
use hip_object.Examples.State.{world, options, client}

-- A server that takes every upload, and sends an object of five bytes in two chunks.
abbrev server : {S : Type 0} → S3Client S
server = record {
  validate_put = λ args. none;
  validate_get = λ args. none;
  put_as_given = λ args s. (gives (succeeds (codes "etag")), s);
  get_as_given = λ args s. (gives (succeeds (codes "etag")), s);
  put = λ request s. (gives (succeeds (codes "etag")), s);
  get = λ s. ((1 ∷ 2 ∷ []) ∷ (3 ∷ 4 ∷ 5 ∷ []) ∷ [], (gives (succeeds (codes "etag")), s));
  get_region = λ s. (gives (succeeds (codes "us-east-1")), s);
}

-- A library that moves every upload, and one that finds no NIC; the buffers are memory of a device.
abbrev works : Library ℕ
works = record {
  init = λ config s. (gives (make_error OpError.success), s);
  shutdown = λ s. s;
  buf_register = λ ptr size s. (gives (make_error OpError.success), s);
  buf_deregister = λ ptr s. s;
  put_with_retry = λ ctx buf size s. (gives (record { status = ok; bytes = size }), (ctx, s + 1));
  get_with_retry = λ ctx buf size s. (gives (record { status = ok; bytes = size }), (ctx, s + 1));
  is_device = λ ptr s. some true;
  load = λ ptr size s. 7 ∷ 8 ∷ [];
  store = λ ptr bytes s. s;
}

abbrev no_nic : Library ℕ
no_nic = record works { init = λ config s. (gives (make_error OpError.nic_not_found), s) }

abbrev url : BaseUrl
url = record { https = true; host = codes "s3"; region = codes "eu" }

abbrev unready : HipObjRuntime
unready = record { is_initialized = false; active_key = []; endpoint_storage = [] }

abbrev session : {S : Type 0} → S → Session S
session w = record { runtime = unready; stats = no_transfers; world = w; calls = [] }

abbrev two_bytes : ObjectArgs
two_bytes = record { buf = 4096; size = some 2 }

abbrev moved : RdmaResult
moved = record { status = ok; bytes = 2 }

abbrev uploaded : Session ℕ
uploaded = record {
  runtime = record {
    is_initialized = true;
    active_key = codes "s3:eu";
    endpoint_storage = codes "https://s3";
  };
  stats = record no_transfers { rdma_puts = 1; rdma_bytes = 2 };
  world = 1;
  calls = deregistered 4096 ∷ put_by_rdma moved ∷ registered 4096 true ∷ initialized true ∷ [];
}

uploads : put_object works server none url two_bytes (session 0) ≡ (gives (succeeds []), uploaded)
unfolding put_object put_buffer ensure_init shut_down_first initialize after_init with_registration
    after_register with_region put_by after_put count_rdma_put
uploads = refl

Served-IsCounted_example : IsCounted uploaded
Served-IsCounted_example =
    Served-IsCounted works server none url unready 0 uploaded
      (then_put two_bytes (succeeds []) fresh uploads)

write_chunks-copy_received_example :
    (write_chunks ((1 ∷ 2 ∷ []) ∷ (3 ∷ 4 ∷ 5 ∷ []) ∷ []) 0 (0 ∷ 0 ∷ 0 ∷ [])
      ≡ copy_received ((1 ∷ 2 ∷ []) ∷ (3 ∷ 4 ∷ 5 ∷ []) ∷ []) (0 ∷ 0 ∷ 0 ∷ []))
    × (length (write_chunks ((1 ∷ 2 ∷ []) ∷ (3 ∷ 4 ∷ 5 ∷ []) ∷ []) 0 (0 ∷ 0 ∷ 0 ∷ [])) ≡ 3)
write_chunks-copy_received_example =
    write_chunks-copy_received ((1 ∷ 2 ∷ []) ∷ (3 ∷ 4 ∷ 5 ∷ []) ∷ []) (0 ∷ 0 ∷ 0 ∷ [])

transfers-IsUntouched_example :
    Ends
      (IsUntouched (session 0))
      (IsUntouched (session 0))
      (put_object works server none url two_bytes (session 0))
    × Ends
        (IsUntouched (session 0))
        (IsUntouched (session 0))
        (get_object works server none url two_bytes (session 0))
transfers-IsUntouched_example =
    transfers-IsUntouched (session 0) works server none url two_bytes (λ w. refl)

-- The library as it is implemented, before it has been initialized.
abbrev linked : Library Process
linked = library world options platform client

abbrev process : Session Process
process = session (record { current = none; log = []; memory = λ a. 0 })

transfers-IsReleased_example :
    Ends
      (IsReleased process)
      (IsReleased process)
      (put_object linked server none url two_bytes process)
    × Ends
        (IsReleased process)
        (IsReleased process)
        (get_object linked server none url two_bytes process)
transfers-IsReleased_example = transfers-IsReleased process linked server none url two_bytes

-- A process that has an instance for another host.
abbrev elsewhere : Session Process
elsewhere = record process {
  runtime = record {
    is_initialized = true;
    active_key = codes "elsewhere";
    endpoint_storage = codes "http://elsewhere";
  };
}
