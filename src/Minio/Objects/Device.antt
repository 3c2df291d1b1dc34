-- ===== src/Minio/Objects/Device.antt =====
-- integrations/minio-cpp/src/client.cpp: transfers of a device's memory, which the host cannot read.
use hip_object.Prelude.{
  ℕ, ◌+◌, ◌≤◌, ◌≡◌, refl, ap, ◌∙◌, Bool, true, false, Option, some, List, ◌∷◌, if◌then◌else◌, arith,
}
use hip_object.Prelude.Weigh.{weigh, weigh-cons}
use hip_object.Api.Instance.{Ending, gives, throws, pends}
use hip_object.Minio.Stats.{count_http_put}
use hip_object.Minio.Session.{
  BaseUrl, HttpPut, Call, initialized, shut_down, registered, deregistered, put_by_rdma,
  get_by_rdma, put_by_http, get_by_http, as_given, Library, Session, and_then, ran,
}
use hip_object.Minio.Objects.Parts.{IsOther, Rules, Ends, Ends-ran}
use hip_object.Minio.Objects.Whole.{put_object-Ends, get_object-Ends}
use hip_object.Minio.Objects.Moves.{put_by-Keeps, get_by-Keeps}
use hip_object.Minio.Objects.{
  ObjectArgs, ApiResponse, succeeds, fails, S3Client, put_over_http, copied_if,
  http_get_into_buffer, put_object, get_object,
}

-- The HTTP requests of the fallbacks, for which the host reads or writes the buffer.
abbrev requested : Call → ℕ
requested (put_by_http request) = 1
requested (get_by_http n) = 1
requested _ = 0

abbrev failed_init : Call → ℕ
failed_init (initialized b) = if b then 0 else 1
failed_init _ = 0

-- Since `s`, there were no more requests than initializations that failed.
abbrev pub IsUntouched : {S : Type 0} → Session S → Session S → Type 0
IsUntouched s t =
    weigh requested t.calls + weigh failed_init s.calls
    ≤ weigh requested s.calls + weigh failed_init t.calls

abbrev Untouched : {S : Type 0} → Session S → Bool → Session S → Type 0
Untouched s b t = IsUntouched s t

IsOther-requested : (c : Call) → IsOther c → requested c ≡ 0
IsOther-requested (initialized b) h = refl
IsOther-requested shut_down h = refl
IsOther-requested as_given h = refl
IsOther-requested (registered buf b) h = refl
IsOther-requested (deregistered buf) h = refl
IsOther-requested (put_by_rdma r) h = refl
IsOther-requested (get_by_rdma r) h = refl
IsOther-requested (put_by_http request) h = absurd h
IsOther-requested (get_by_http n) h = absurd h

module _ {S : Type 0} (s : Session S) where
  harmless :
      (c : Call) (t : Session S)
      → requested c ≡ 0
      → IsUntouched s t
      → IsUntouched s (record t { calls = c ∷ t.calls })
  harmless c t none_requested h =
      omega
        (arith, h, none_requested, weigh-cons requested c t.calls, weigh-cons failed_init c t.calls)

  device_rules : (buf : ℕ) → Rules buf (Untouched s) (Untouched s)
  device_rules buf = record {
    stays = λ b t rt w h. h;
    falls = λ b t w h. h;
    notes = λ b t c other h. harmless c t (IsOther-requested c other) h;
    registers = λ t h. harmless (registered buf true) t refl h;
    deregisters = λ t w h. harmless (deregistered buf) t refl h;
    deregisters_after = λ t w h. harmless (deregistered buf) t refl h;
  }

  -- A request after an initialization that failed.
  pays :
      (c : Call) (t u : Session S)
      → requested c ≡ 1
      → failed_init c ≡ 0
      → IsUntouched s u
      → t.calls ≡ initialized false ∷ u.calls
      → IsUntouched s (record t { calls = c ∷ t.calls })
  pays c t u one none_failed h e = omega (
    arith,
    h,
    one,
    none_failed,
    weigh-cons requested c t.calls,
    weigh-cons failed_init c t.calls,
    ap (weigh requested) e ∙ weigh-cons requested (initialized false) u.calls,
    ap (weigh failed_init) e ∙ weigh-cons failed_init (initialized false) u.calls,
  )

  module _ (lib : Library S) (client : S3Client S) where
    put_over_http-pays :
        (buf size : ℕ) (t u : Session S)
        → IsUntouched s u
        → t.calls ≡ initialized false ∷ u.calls
        → Ends (IsUntouched s) (IsUntouched s) (put_over_http lib client buf size t)
    unfolding put_over_http
    put_over_http-pays buf size t u h e =
        let request : HttpPut = record {
          content = lib.load buf size t.world;
          object_size = size;
          part_size = 0;
        } in
        Ends-ran (Untouched s) (Untouched s) (device_rules buf) false (client.put request t.world)
          (record t { stats = count_http_put size t.stats; calls = put_by_http request ∷ t.calls })
          (pays (put_by_http request) t u refl refl h e)

    http_get_into_buffer-pays :
        (buf size : ℕ) (t u : Session S)
        → IsUntouched s u
        → t.calls ≡ initialized false ∷ u.calls
        → Ends (IsUntouched s) (IsUntouched s) (http_get_into_buffer lib client buf size t)
    unfolding http_get_into_buffer
    http_get_into_buffer-pays buf size t u h e = go (client.get t.world).1
      where
        after : IsUntouched s (record t { calls = get_by_http size ∷ t.calls })
        after = pays (get_by_http size) t u refl refl h e

        go :
            (r : Ending ApiResponse × S)
            → Ends (IsUntouched s) (IsUntouched s) (
                and_then
                  (ran r (record t { calls = get_by_http size ∷ t.calls }))
                  (copied_if lib client (client.get t.world).0 buf size))
        go (gives (succeeds etag), w) = after
        go (gives (fails message), w) = after
        go (throws, w) = after
        go (pends, w) = tt

    module _ (nic_hint : Option (List ℕ)) (url : BaseUrl) where
      -- If the buffer is memory of a device throughout, then however an upload or a download of it
      -- ends, unless it still waits: the host reads or writes the buffer for an HTTP request at most
      -- as often as an initialization of the library has failed meanwhile; so once the library is
      -- ready, never, whatever the transfer by RDMA answers.
      pub transfers-IsUntouched :
          (args : ObjectArgs)
          → ((w : S) → lib.is_device args.buf w ≡ some true)
          → Ends (IsUntouched s) (IsUntouched s) (put_object lib client nic_hint url args s)
            × Ends (IsUntouched s) (IsUntouched s) (get_object lib client nic_hint url args s)
      transfers-IsUntouched args device = (
        put_object-Ends args (Untouched s) (Untouched s) (device_rules args.buf) lib client nic_hint
            url s
            (λ size.
              put_by-Keeps (Untouched s) (Untouched s) (device_rules args.buf) lib client args.buf
                size (λ b t r w m h. harmless (put_by_rdma r) t refl h)
                (λ b t r w e h. harmless (put_by_rdma r) t refl h)
                (λ b t host h. absurd (ground (arith, host, device t.world))))
            (λ size t (u, h, e) k. put_over_http-pays args.buf size t u h e) (omega arith),
        get_object-Ends args (Untouched s) (Untouched s) (device_rules args.buf) lib client nic_hint
            url s
            (λ size.
              get_by-Keeps (Untouched s) (Untouched s) (device_rules args.buf) lib client args.buf
                size (λ b t r w m h. harmless (get_by_rdma r) t refl h)
                (λ b t r w e h. harmless (get_by_rdma r) t refl h)
                (λ b t host h. absurd (ground (arith, host, device t.world))))
            (λ size t (u, h, e) k. http_get_into_buffer-pays args.buf size t u h e) (omega arith),
      )
