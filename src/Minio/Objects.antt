-- ===== src/Minio/Objects.antt =====
-- integrations/minio-cpp/src/client.cpp: `Client::PutObject` and `Client::GetObject`. minio-cpp's own
-- client is a parameter.
pub mod Chunks
pub mod Parts
pub mod Whole
pub mod Moves
pub mod Amounts
pub mod Counts
pub mod Registrations
pub mod Device
use hip_object.Prelude.{
  ℕ, ◌+◌, ◌-◌, ◌^◌, Bool, true, false, Option, none, some, List, [], ◌∷◌, ◌++◌, ◌==◌, ltb,
  if◌then◌else◌, length, take, drop, codes,
}
use hip_object.Api.Errors.{OpError, HipObjError, is_success, get_error_string}
use hip_object.Api.Instance.{Ending, gives, throws, pends}
use hip_object.Minio.{RdmaResult, RdmaStatus, ok, failed, not_supported, S3RdmaContext, has_moved}
use hip_object.Minio.Stats.{count_rdma_put, count_rdma_get, count_http_put, count_http_get}
pub use hip_object.Minio.Http.{
  ObjectArgs, ApiResponse, succeeds, fails, S3Client, max_long, describe_failure, new_context,
}
unfoldable pub use hip_object.Minio.Http.{copy_to, joined, copy_received, write_chunks}
use hip_object.Minio.Session.{
  BaseUrl, HttpPut, Call, registered, deregister, put_by_rdma, get_by_rdma, put_by_http,
  get_by_http, as_given, Library, Session, Part, and_then, noted, ran, ensure_init,
}

module _ {S : Type 0} (lib : Library S) (client : S3Client S) where
  -- `~BufRegistrationPtr`, if it owns a registration
  abbrev pub deregister_if : Bool → ℕ → Session S → Session S
  deregister_if false buf s = s
  deregister_if true buf s = deregister lib buf s

  -- The end of the scope of `registration`.
  abbrev pub scoped : Bool → ℕ → Ending ApiResponse × Session S → Ending ApiResponse × Session S
  scoped owned buf (gives r, s) = (gives r, deregister_if owned buf s)
  scoped owned buf (throws, s) = (throws, deregister_if owned buf s)
  scoped owned buf (pends, s) = (pends, s)

  -- `hipObjBufAlreadyRegistered`
  abbrev pub is_already_registered : OpError → Bool
  is_already_registered OpError.buf_already_registered = true
  is_already_registered _ = false

  -- The part after `hipObjBufRegister`, with what it returned.
  unfoldable pub after_register : ℕ → Part S ApiResponse → HipObjError → Part S ApiResponse
  unfolding get_error_string
  after_register buf body e s =
      if is_success e.op_error
      then scoped true buf (body s)
      else if is_already_registered e.op_error
      then scoped false buf (body s)
      else (
        gives (fails (codes "hipObjBufRegister failed: " ++ get_error_string (some e.op_error))),
        s,
      )

  unfoldable pub with_registration : ℕ → ℕ → Part S ApiResponse → Part S ApiResponse
  unfolding after_register
  with_registration buf size body s =
      and_then
        (noted (λ (e : HipObjError). registered buf (is_success e.op_error))
          (lib.buf_register buf size s.world) s)
        (after_register buf body)

  -- The part after `GetRegion`.
  abbrev pub if_region : Part S ApiResponse → ApiResponse → Part S ApiResponse
  if_region body (fails message) s = (gives (fails message), s)
  if_region body (succeeds region) s = body s

  unfoldable pub with_region : Part S ApiResponse → Part S ApiResponse
  with_region body s = and_then (ran (client.get_region s.world) s) (if_region body)

  -- `IsDevicePointer`
  abbrev pub is_device_pointer : ℕ → Session S → Bool
  is_device_pointer buf s = elim (lib.is_device buf s.world) [ none ↦ false | some b ↦ b ]

  -- The HTTP fallback of `PutObject`: the bytes of the buffer, which the host reads.
  unfoldable pub put_over_http : ℕ → ℕ → Part S ApiResponse
  unfolding count_http_put
  put_over_http buf size s =
      let request : HttpPut = record {
        content = lib.load buf size s.world;
        object_size = size;
        part_size = 0;
      } in
      let t = record s {
        stats = count_http_put size s.stats;
        calls = put_by_http request ∷ s.calls;
      } in
      ran (client.put request t.world) t

  -- `HttpGetIntoBuffer`
  abbrev pub copied_if :
      List (List ℕ) → ℕ → ℕ → ApiResponse → Session S → Ending ApiResponse × Session S
  copied_if chunks buf size (fails message) s =
      (gives (fails message), record s { stats = count_http_get size s.stats })
  copied_if chunks buf size (succeeds etag) s = (
    gives (succeeds etag),
    record s {
      world = lib.store buf (copy_received chunks (lib.load buf size s.world)) s.world;
      stats = count_http_get size s.stats;
    },
  )

  unfoldable pub http_get_into_buffer : ℕ → ℕ → Part S ApiResponse
  unfolding copy_received count_http_get
  http_get_into_buffer buf size s =
      let (chunks, answer) = client.get s.world in
      let t = record s { calls = get_by_http size ∷ s.calls } in
      and_then (ran answer t) (copied_if chunks buf size)

  -- The HTTP fallback at the end of `GetObject`.
  abbrev pub stream_to :
      ℕ → List ℕ → Ending ApiResponse × Session S → Ending ApiResponse × Session S
  stream_to buf bytes (a, s) = (a, record s { world = lib.store buf bytes s.world })

  unfoldable pub http_get_streaming : ℕ → ℕ → Part S ApiResponse
  unfolding write_chunks count_http_get
  http_get_streaming buf size s =
      let (chunks, answer) = client.get s.world in
      let bytes = write_chunks chunks 0 (lib.load buf size s.world) in
      let t = record s {
        stats = count_http_get size s.stats;
        calls = get_by_http size ∷ s.calls;
      } in
      stream_to buf bytes (ran answer t)

  -- The end of `PutObject`, after `rdmaPutWithRetry`.
  unfoldable pub after_put : ℕ → ℕ → RdmaResult → S3RdmaContext → Part S ApiResponse
  unfolding count_rdma_put put_over_http
  after_put buf size ret ctx s =
      if has_moved ret
      then (gives (succeeds ctx.etag), record s { stats = count_rdma_put ret.bytes s.stats })
      else if is_device_pointer buf s
      then (
        gives (
            fails (
              codes "RDMA PUT failed ("
              ++ (describe_failure ret
                  ++ codes ") and the payload is device memory; no HTTP fallback is possible"))),
        s,
      )
      else put_over_http buf size s

  -- The end of `GetObject`, after `rdmaGetWithRetry`.
  unfoldable pub after_get_object : ℕ → ℕ → RdmaResult → S3RdmaContext → Part S ApiResponse
  unfolding count_rdma_get http_get_streaming
  after_get_object buf size ret ctx s =
      if has_moved ret
      then (gives (succeeds ctx.etag), record s { stats = count_rdma_get ret.bytes s.stats })
      else if is_device_pointer buf s
      then (
        gives (
            fails (
              codes "RDMA GET failed ("
              ++ (describe_failure ret
                  ++ codes
                      ") and the destination is device memory; no HTTP fallback is possible"))),
        s,
      )
      else http_get_streaming buf size s

  -- What a transfer with retries gives, with its context.
  abbrev pub with_context :
      (S3RdmaContext → RdmaResult → Part S ApiResponse)
      → Ending RdmaResult × (S3RdmaContext × S)
      → (RdmaResult → Call)
      → Part S ApiResponse
  with_context body (gives r, (ctx, w)) note s =
      body ctx r (record s { world = w; calls = note r ∷ s.calls })
  with_context body (throws, (ctx, w)) note s = (throws, record s { world = w })
  with_context body (pends, (ctx, w)) note s = (pends, record s { world = w })

  unfoldable pub put_by : ℕ → ℕ → Part S ApiResponse
  unfolding after_put
  put_by buf size s =
      with_context (λ ctx r. after_put buf size r ctx)
        (lib.put_with_retry new_context buf size s.world) put_by_rdma s

  unfoldable pub get_by : ℕ → ℕ → Part S ApiResponse
  unfolding after_get_object
  get_by buf size s =
      with_context (λ ctx r. after_get_object buf size r ctx)
        (lib.get_with_retry new_context buf size s.world) get_by_rdma s

  module _ (nic_hint : Option (List ℕ)) (url : BaseUrl) where
    -- The part after `EnsureInit`: by RDMA, or else by HTTP.
    abbrev pub by_rdma_or :
        Part S ApiResponse → Part S ApiResponse → HipObjError → Part S ApiResponse
    by_rdma_or by_rdma otherwise e s = if is_success e.op_error then by_rdma s else otherwise s

    -- `PutObject` of a buffer with a size
    unfoldable pub put_buffer : ℕ → ℕ → Part S ApiResponse
    unfolding ensure_init with_registration with_region put_by put_over_http
    put_buffer buf size s =
        if ltb max_long size
        then (gives (fails (codes "object size is too large")), s)
        else and_then (ensure_init lib nic_hint url s) (
            by_rdma_or (with_registration buf size (with_region (put_by buf size)))
              (put_over_http buf size))

    unfoldable pub get_buffer : ℕ → ℕ → Part S ApiResponse
    unfolding ensure_init with_registration with_region get_by http_get_into_buffer
    get_buffer buf size s = and_then (ensure_init lib nic_hint url s) (
        by_rdma_or (with_registration buf size (with_region (get_by buf size)))
          (http_get_into_buffer buf size))

    abbrev pub sized : (ℕ → Part S ApiResponse) → Option ℕ → Part S ApiResponse
    sized body none s = (gives (fails (codes "size must be set when buf is set")), s)
    sized body (some n) s = body n s

    abbrev pub given_to : (S → Ending ApiResponse × S) → Part S ApiResponse
    given_to f s = ran (f s.world) (record s { calls = as_given ∷ s.calls })

    abbrev pub valid : Option (List ℕ) → Part S ApiResponse → Part S ApiResponse
    valid (some message) body s = (gives (fails message), s)
    valid none body s = body s

    unfoldable pub put_object : ObjectArgs → Part S ApiResponse
    unfolding put_buffer
    put_object args = valid (client.validate_put args) (λ s.
        if args.buf == 0
        then given_to (client.put_as_given args) s
        else sized (put_buffer args.buf) args.size s)

    unfoldable pub get_object : ObjectArgs → Part S ApiResponse
    unfolding get_buffer
    get_object args = valid (client.validate_get args) (λ s.
        if args.buf == 0
        then given_to (client.get_as_given args) s
        else sized (get_buffer args.buf) args.size s)
