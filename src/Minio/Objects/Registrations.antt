-- ===== src/Minio/Objects/Registrations.antt =====
-- integrations/minio-cpp/src/client.cpp: a transfer's own registration of its buffer.
use hip_object.Prelude.{
  ℕ, ◌+◌, ◌≡◌, refl, Bool, true, false, ◌&&◌, ◌==◌, Option, List, ◌∷◌, if◌then◌else◌, arith,
}
use hip_object.Prelude.Weigh.{weigh, weigh-cons}
use hip_object.Api.Instance.{Ending, gives, throws, pends}
use hip_object.Minio.Stats.{count_http_put, count_http_get}
use hip_object.Minio.Session.{
  BaseUrl, HttpPut, Call, initialized, shut_down, registered, deregistered, put_by_rdma,
  get_by_rdma, put_by_http, get_by_http, as_given, Library, Session, and_then, ran,
}
use hip_object.Minio.Objects.Parts.{IsOther, Rules, Ends, Ends-ran, Ends-weaken}
use hip_object.Minio.Objects.Whole.{put_object-Ends, get_object-Ends}
use hip_object.Minio.Objects.Moves.{put_by-Keeps, get_by-Keeps}
use hip_object.Minio.Objects.{
  ObjectArgs, ApiResponse, succeeds, fails, S3Client, put_over_http, copied_if,
  http_get_into_buffer, stream_to, http_get_streaming, put_object, get_object, write_chunks,
}

-- Registrations of the memory at an address that were made, and calls to release one.
abbrev made : ℕ → Call → ℕ
made a (registered buf b) = if b && (buf == a) then 1 else 0
made a _ = 0

abbrev given_back : ℕ → Call → ℕ
given_back a (deregistered buf) = if buf == a then 1 else 0
given_back a _ = 0

abbrev as_number : Bool → ℕ
as_number b = if b then 1 else 0

-- A registration of `buf` more than at `s` is held, if `b`.
abbrev Holds : {S : Type 0} → Session S → ℕ → ℕ → Bool → Session S → Type 0
Holds s a buf b t =
    weigh (made a) t.calls + weigh (given_back a) s.calls
    ≡ weigh (made a) s.calls + (weigh (given_back a) t.calls + as_number (b && (buf == a)))

-- At every address, each registration made since `s` has its call to release it.
abbrev pub IsReleased : {S : Type 0} → Session S → Session S → Type 0
IsReleased s t =
    (a : ℕ)
    → weigh (made a) t.calls + weigh (given_back a) s.calls
      ≡ weigh (made a) s.calls + weigh (given_back a) t.calls

Ends-all :
    {S A : Type 0} (P : ℕ → Session S → Type 0) (m : Ending A × Session S)
    → ((a : ℕ) → Ends (P a) (P a) m)
    → Ends (λ t. (a : ℕ) → P a t) (λ t. (a : ℕ) → P a t) m
Ends-all P (gives r, t) h = h
Ends-all P (throws, t) h = h
Ends-all P (pends, t) h = tt

-- Calls that are no registration.
abbrev IsNeutral : Call → Type 0
IsNeutral c = (a : ℕ) → (made a c ≡ 0) × (given_back a c ≡ 0)

IsOther-IsNeutral : (c : Call) → IsOther c → IsNeutral c
IsOther-IsNeutral (initialized b) h a = (refl, refl)
IsOther-IsNeutral shut_down h a = (refl, refl)
IsOther-IsNeutral as_given h a = (refl, refl)
IsOther-IsNeutral (registered buf false) h a = (refl, refl)
IsOther-IsNeutral (registered buf true) h a = absurd h
IsOther-IsNeutral (deregistered buf) h a = absurd h
IsOther-IsNeutral (put_by_rdma r) h a = absurd h
IsOther-IsNeutral (get_by_rdma r) h a = absurd h
IsOther-IsNeutral (put_by_http request) h a = absurd h
IsOther-IsNeutral (get_by_http n) h a = absurd h

module _ {S : Type 0} (s : Session S) (a buf : ℕ) where
  neutral :
      (b : Bool) (c : Call) (t : Session S)
      → IsNeutral c
      → Holds s a buf b t
      → Holds s a buf b (record t { calls = c ∷ t.calls })
  neutral b c t none_made h =
      let (no_made, no_released) = none_made a in
      omega (
        arith,
        h,
        no_made,
        no_released,
        weigh-cons (made a) c t.calls,
        weigh-cons (given_back a) c t.calls,
      )

  registers_one :
      (t : Session S)
      → Holds s a buf false t
      → Holds s a buf true (record t { calls = registered buf true ∷ t.calls })
  registers_one t h = omega (
    arith,
    h,
    weigh-cons (made a) (registered buf true) t.calls,
    weigh-cons (given_back a) (registered buf true) t.calls,
  )

  deregisters_one :
      (t : Session S) (w : S)
      → Holds s a buf true t
      → Holds s a buf false (record t { world = w; calls = deregistered buf ∷ t.calls })
  deregisters_one t w h = omega (
    arith,
    h,
    weigh-cons (made a) (deregistered buf) t.calls,
    weigh-cons (given_back a) (deregistered buf) t.calls,
  )

  hold_rules : Rules buf (Holds s a buf) (Holds s a buf)
  hold_rules = record {
    stays = λ b t rt w h. h;
    falls = λ b t w h. h;
    notes = λ b t c other h. neutral b c t (IsOther-IsNeutral c other) h;
    registers = registers_one;
    deregisters = deregisters_one;
    deregisters_after = deregisters_one;
  }

  module _ (lib : Library S) (client : S3Client S) where
    put_over_http-Holds :
        (size : ℕ) (b : Bool) (t : Session S)
        → Holds s a buf b t
        → Ends (Holds s a buf b) (Holds s a buf b) (put_over_http lib client buf size t)
    unfolding put_over_http
    put_over_http-Holds size b t h =
        let request : HttpPut = record {
          content = lib.load buf size t.world;
          object_size = size;
          part_size = 0;
        } in
        Ends-ran (Holds s a buf) (Holds s a buf) hold_rules b (client.put request t.world)
          (record t { stats = count_http_put size t.stats; calls = put_by_http request ∷ t.calls })
          (neutral b (put_by_http request) t (λ x. (refl, refl)) h)

    stream_to-Holds :
        (bytes : List ℕ) (b : Bool) (m : Ending ApiResponse × Session S)
        → Ends (Holds s a buf b) (Holds s a buf b) m
        → Ends (Holds s a buf b) (Holds s a buf b) (stream_to lib client buf bytes m)
    stream_to-Holds bytes b (gives a, t) h = h
    stream_to-Holds bytes b (throws, t) h = h
    stream_to-Holds bytes b (pends, t) h = tt

    http_get_streaming-Holds :
        (size : ℕ) (b : Bool) (t : Session S)
        → Holds s a buf b t
        → Ends (Holds s a buf b) (Holds s a buf b) (http_get_streaming lib client buf size t)
    unfolding http_get_streaming
    http_get_streaming-Holds size b t h =
        let u : Session S = record t {
          stats = count_http_get size t.stats;
          calls = get_by_http size ∷ t.calls;
        } in
        stream_to-Holds (write_chunks (client.get t.world).0 0 (lib.load buf size t.world)) b
          (ran (client.get t.world).1 u)
          (Ends-ran (Holds s a buf) (Holds s a buf) hold_rules b (client.get t.world).1 u
            (neutral b (get_by_http size) t (λ x. (refl, refl)) h))

    http_get_into_buffer-Holds :
        (size : ℕ) (t : Session S)
        → Holds s a buf false t
        → Ends
            (Holds s a buf false)
            (Holds s a buf false)
            (http_get_into_buffer lib client buf size t)
    unfolding http_get_into_buffer
    http_get_into_buffer-Holds size t h = go (client.get t.world).1
      where
        after : Holds s a buf false (record t { calls = get_by_http size ∷ t.calls })
        after = neutral false (get_by_http size) t (λ x. (refl, refl)) h

        go :
            (r : Ending ApiResponse × S)
            → Ends (Holds s a buf false) (Holds s a buf false) (
                and_then
                  (ran r (record t { calls = get_by_http size ∷ t.calls }))
                  (copied_if lib client (client.get t.world).0 buf size))
        go (gives (succeeds etag), w) = after
        go (gives (fails message), w) = after
        go (throws, w) = after
        go (pends, w) = tt

-- A whole transfer, for the registrations of an address.
module _ {S : Type 0} (s : Session S) (lib : Library S) (client : S3Client S)
    (nic_hint : Option (List ℕ)) (url : BaseUrl) where
  put_object-Holds :
      (args : ObjectArgs) (a : ℕ)
      → Ends
          (Holds s a args.buf false)
          (Holds s a args.buf false)
          (put_object lib client nic_hint url args s)
  put_object-Holds args a =
      let P = Holds s a args.buf in
      let rules = hold_rules s a args.buf in
      put_object-Ends args P P rules lib client nic_hint url s
        (λ size.
          put_by-Keeps P P rules lib client args.buf size
            (λ b t r w m h. neutral s a args.buf b (put_by_rdma r) t (λ x. (refl, refl)) h)
            (λ b t r w e h. neutral s a args.buf b (put_by_rdma r) t (λ x. (refl, refl)) h)
            (λ b t host h. put_over_http-Holds s a args.buf lib client size b t h))
        (λ size t failed h. put_over_http-Holds s a args.buf lib client size false t h)
        (omega arith)

  get_object-Holds :
      (args : ObjectArgs) (a : ℕ)
      → Ends
          (Holds s a args.buf false)
          (Holds s a args.buf false)
          (get_object lib client nic_hint url args s)
  get_object-Holds args a =
      let P = Holds s a args.buf in
      let rules = hold_rules s a args.buf in
      get_object-Ends args P P rules lib client nic_hint url s
        (λ size.
          get_by-Keeps P P rules lib client args.buf size
            (λ b t r w m h. neutral s a args.buf b (get_by_rdma r) t (λ x. (refl, refl)) h)
            (λ b t r w e h. neutral s a args.buf b (get_by_rdma r) t (λ x. (refl, refl)) h)
            (λ b t host h. http_get_streaming-Holds s a args.buf lib client size b t h))
        (λ size t failed h. http_get_into_buffer-Holds s a args.buf lib client size t h)
        (omega arith)

  released :
      {A : Type 0} (buf : ℕ) (m : Ending A × Session S)
      → ((a : ℕ) → Ends (Holds s a buf false) (Holds s a buf false) m)
      → Ends (IsReleased s) (IsReleased s) m
  released buf m h =
      Ends-weaken (λ t. (a : ℕ) → Holds s a buf false t) (IsReleased s)
        (λ t k a. omega (arith, k a)) m (Ends-all (λ a. Holds s a buf false) m h)

  -- However an upload or a download ends, unless it still waits, and also by an exception: for every
  -- address, it has called `hipObjBufDeregister` as often as it has made a registration there.
  pub transfers-IsReleased :
      (args : ObjectArgs)
      → Ends (IsReleased s) (IsReleased s) (put_object lib client nic_hint url args s)
        × Ends (IsReleased s) (IsReleased s) (get_object lib client nic_hint url args s)
  transfers-IsReleased args = (
    released args.buf (put_object lib client nic_hint url args s) (put_object-Holds args),
    released args.buf (get_object lib client nic_hint url args s) (get_object-Holds args),
  )
