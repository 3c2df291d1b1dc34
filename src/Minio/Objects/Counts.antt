-- ===== src/Minio/Objects/Counts.antt =====
-- integrations/minio-cpp/src/client.cpp: the counters agree with the calls that were made.
use hip_object.Prelude.{ℕ, ◌%◌, ◌^◌, ◌≡◌, subst, Bool, true, false, Option, List, [], ◌∷◌}
use hip_object.Prelude.Weigh.{weigh}
use hip_object.Api.Instance.{Ending, gives, throws, pends}
use hip_object.Minio.Stats.{
  no_transfers, count_rdma_put, count_rdma_get, count_http_put, count_http_get,
}
use hip_object.Minio.Session.{
  BaseUrl, HttpPut, registered, deregistered, put_by_rdma, get_by_rdma, put_by_http, get_by_http,
  HipObjRuntime, Library, Session, and_then, ran,
}
use hip_object.Minio.Objects.Amounts.{
  Counter, counted, amount, IsCounted, counts, put_http_adds, get_http_adds, put_rdma_adds,
  get_rdma_adds, silent, IsOther-IsSilent, registered-IsSilent, deregistered-IsSilent,
  put_by_rdma-IsSilent, get_by_rdma-IsSilent, none_counted,
}
use hip_object.Minio.Objects.Parts.{Rules, Ends, Ends-ran}
use hip_object.Minio.Objects.Whole.{put_object-Ends, get_object-Ends}
use hip_object.Minio.Objects.Moves.{put_by-Keeps, get_by-Keeps}
use hip_object.Minio.Objects.{
  write_chunks, ObjectArgs, ApiResponse, succeeds, fails, S3Client, put_over_http, copied_if,
  http_get_into_buffer, stream_to, http_get_streaming, put_object, get_object,
}

-- The property for `Rules`: an exception may leave a request uncounted.
abbrev Counted : {S : Type 0} → Bool → Session S → Type 0
Counted b s = IsCounted s

abbrev Anything : {S : Type 0} → Bool → Session S → Type 0
Anything b s = Unit {0}

count_rules : {S : Type 0} (buf : ℕ) → Rules {S = S} buf Counted Anything
count_rules {S} buf = record {
  stays = λ b s rt w h. h;
  falls = λ b s w h. tt;
  notes = λ b s c other h. silent c s.stats s.calls (IsOther-IsSilent c other) h;
  registers = λ s h. silent (registered buf true) s.stats s.calls (registered-IsSilent buf) h;
  deregisters = λ s w h. silent (deregistered buf) s.stats s.calls (deregistered-IsSilent buf) h;
  deregisters_after = λ s w h. tt;
}

module _ {S : Type 0} (lib : Library S) (client : S3Client S) where
  put_over_http-IsCounted :
      (buf size : ℕ) (b : Bool) (s : Session S)
      → IsCounted s
      → Ends (Counted b) (Anything b) (put_over_http lib client buf size s)
  unfolding put_over_http
  put_over_http-IsCounted buf size b s h =
      let request : HttpPut = record {
        content = lib.load buf size s.world;
        object_size = size;
        part_size = 0;
      } in
      Ends-ran Counted Anything (count_rules buf) b (client.put request s.world)
        (record s { stats = count_http_put size s.stats; calls = put_by_http request ∷ s.calls })
        (counts (put_by_http request) s.stats (count_http_put size s.stats) s.calls
          (put_http_adds request s.stats) h)

  stream_to-IsCounted :
      (buf : ℕ) (bytes : List ℕ) (b : Bool) (m : Ending ApiResponse × Session S)
      → Ends (Counted b) (Anything b) m
      → Ends (Counted b) (Anything b) (stream_to lib client buf bytes m)
  stream_to-IsCounted buf bytes b (gives a, s) h = h
  stream_to-IsCounted buf bytes b (throws, s) h = tt
  stream_to-IsCounted buf bytes b (pends, s) h = tt

  http_get_streaming-IsCounted :
      (buf size : ℕ) (b : Bool) (s : Session S)
      → IsCounted s
      → Ends (Counted b) (Anything b) (http_get_streaming lib client buf size s)
  unfolding http_get_streaming
  http_get_streaming-IsCounted buf size b s h =
      let t : Session S = record s {
        stats = count_http_get size s.stats;
        calls = get_by_http size ∷ s.calls;
      } in
      stream_to-IsCounted buf (write_chunks (client.get s.world).0 0 (lib.load buf size s.world)) b
        (ran (client.get s.world).1 t)
        (Ends-ran Counted Anything (count_rules buf) b (client.get s.world).1 t (
          counts (get_by_http size) s.stats (count_http_get size s.stats) s.calls
            (get_http_adds size s.stats) h))

  -- The counter is changed when the response is there.
  http_get_into_buffer-IsCounted :
      (buf size : ℕ) (s : Session S)
      → IsCounted s
      → Ends (Counted false) (Anything false) (http_get_into_buffer lib client buf size s)
  unfolding http_get_into_buffer
  http_get_into_buffer-IsCounted buf size s h = go (client.get s.world).1
    where
      after :
          (k : Counter)
          → counted k (count_http_get size s.stats)
            ≡ weigh (amount k) (get_by_http size ∷ s.calls) % 2 ^ 64
      after =
          counts (get_by_http size) s.stats (count_http_get size s.stats) s.calls
            (get_http_adds size s.stats) h

      go :
          (r : Ending ApiResponse × S)
          → Ends (Counted false) (Anything false) (
              and_then
                (ran r (record s { calls = get_by_http size ∷ s.calls }))
                (copied_if lib client (client.get s.world).0 buf size))
      go (gives (succeeds etag), w) = after
      go (gives (fails message), w) = after
      go (throws, w) = tt
      go (pends, w) = tt

  module _ (nic_hint : Option (List ℕ)) (url : BaseUrl) where
    put_object-IsCounted :
        (args : ObjectArgs) (s : Session S)
        → IsCounted s
        → Ends IsCounted (λ t. Unit {0}) (put_object lib client nic_hint url args s)
    put_object-IsCounted args s h =
        put_object-Ends args Counted Anything (count_rules args.buf) lib client nic_hint url s
          (λ size.
            put_by-Keeps Counted Anything (count_rules args.buf) lib client args.buf size
              (λ b t r w m k.
                counts (put_by_rdma r) t.stats (count_rdma_put r.bytes t.stats) t.calls
                  (λ c. put_rdma_adds r t.stats c m) k)
              (λ b t r w e k. silent (put_by_rdma r) t.stats t.calls (put_by_rdma-IsSilent r e) k)
              (λ b t host k. put_over_http-IsCounted args.buf size b t k))
          (λ size t failed k. put_over_http-IsCounted args.buf size false t k) h

    get_object-IsCounted :
        (args : ObjectArgs) (s : Session S)
        → IsCounted s
        → Ends IsCounted (λ t. Unit {0}) (get_object lib client nic_hint url args s)
    get_object-IsCounted args s h =
        get_object-Ends args Counted Anything (count_rules args.buf) lib client nic_hint url s
          (λ size.
            get_by-Keeps Counted Anything (count_rules args.buf) lib client args.buf size
              (λ b t r w m k.
                counts (get_by_rdma r) t.stats (count_rdma_get r.bytes t.stats) t.calls
                  (λ c. get_rdma_adds r t.stats c m) k)
              (λ b t r w e k. silent (get_by_rdma r) t.stats t.calls (get_by_rdma-IsSilent r e) k)
              (λ b t host k. http_get_streaming-IsCounted args.buf size b t k))
          (λ size t failed k. http_get_into_buffer-IsCounted args.buf size t k) h

    -- Sessions that transfers have brought about, each of which gave a response.
    pub data Served (rt : HipObjRuntime) (w : S) : Session S → Type 0 where
      fresh : Served rt w (record { runtime = rt; stats = no_transfers; world = w; calls = [] })
      then_put :
          {s t : Session S} (args : ObjectArgs) (r : ApiResponse)
          → Served rt w s
          → put_object lib client nic_hint url args s ≡ (gives r, t)
          → Served rt w t
      then_get :
          {s t : Session S} (args : ObjectArgs) (r : ApiResponse)
          → Served rt w s
          → get_object lib client nic_hint url args s ≡ (gives r, t)
          → Served rt w t

    -- After any uploads and downloads, each of which gave a response, whatever the library and the
    -- server answered: the six counters agree, in 64 bits, with the calls that were made, where a
    -- transfer by RDMA counts, with its bytes, if it moved bytes, and an HTTP request of a fallback
    -- always counts, with the buffer's size.
    pub Served-IsCounted :
        (rt : HipObjRuntime) (w : S) (s : Session S) → Served rt w s → IsCounted s
    Served-IsCounted rt w s fresh = none_counted
    Served-IsCounted rt w t (then_put {s} args r served e) =
        subst (Ends IsCounted (λ t. Unit {0})) e
          (put_object-IsCounted args s (Served-IsCounted rt w s served))
    Served-IsCounted rt w t (then_get {s} args r served e) =
        subst (Ends IsCounted (λ t. Unit {0})) e
          (get_object-IsCounted args s (Served-IsCounted rt w s served))
