-- ===== src/Minio/Objects/Amounts.antt =====
-- integrations/minio-cpp/src/client.cpp: the counters, and what each call adds to them.
use hip_object.Prelude.{
  ℕ, ◌+◌, ◌%◌, ◌^◌, ◌≡◌, refl, true, false, List, [], ◌∷◌, if◌then◌else◌, arith,
}
use hip_object.Prelude.Weigh.{weigh, weigh-nil, weigh-cons}
use hip_object.Minio.{RdmaResult, has_moved}
use hip_object.Minio.Stats.{
  TransferStats, no_transfers, count_rdma_put, count_rdma_get, count_http_put, count_http_get,
}
use hip_object.Minio.Session.{
  HttpPut, Call, initialized, shut_down, registered, deregistered, put_by_rdma, get_by_rdma,
  put_by_http, get_by_http, as_given, Session,
}
use hip_object.Minio.Objects.Parts.{IsOther}

-- The six counters.
pub data Counter : Type 0 where
  rdma_put rdma_get http_put http_get rdma_byte http_byte : Counter

abbrev pub counted : Counter → TransferStats → ℕ
counted rdma_put s = s.rdma_puts
counted rdma_get s = s.rdma_gets
counted http_put s = s.http_puts
counted http_get s = s.http_gets
counted rdma_byte s = s.rdma_bytes
counted http_byte s = s.http_bytes

abbrev moved : RdmaResult → ℕ → ℕ
moved r n = if has_moved r then n else 0

-- What a call adds to a counter: an RDMA transfer counts when it moved bytes, an HTTP request of the
-- fallbacks always.
abbrev pub amount : Counter → Call → ℕ
amount rdma_put (put_by_rdma r) = moved r 1
amount rdma_byte (put_by_rdma r) = moved r r.bytes
amount rdma_get (get_by_rdma r) = moved r 1
amount rdma_byte (get_by_rdma r) = moved r r.bytes
amount http_put (put_by_http request) = 1
amount http_byte (put_by_http request) = request.object_size
amount http_get (get_by_http n) = 1
amount http_byte (get_by_http n) = n
amount _ _ = 0

-- Each counter is the sum over the calls that were made, in 64 bits.
abbrev pub IsCounted : {S : Type 0} → Session S → Type 0
IsCounted s = (k : Counter) → counted k s.stats ≡ weigh (amount k) s.calls % 2 ^ 64

-- One more call is counted.
pub counts :
    (c : Call) (st next : TransferStats) (calls : List Call)
    → ((k : Counter)
        → counted k st ≡ counted k st % 2 ^ 64
        → counted k next ≡ (counted k st + amount k c) % 2 ^ 64)
    → ((k : Counter) → counted k st ≡ weigh (amount k) calls % 2 ^ 64)
    → (k : Counter) → counted k next ≡ weigh (amount k) (c ∷ calls) % 2 ^ 64
counts c st next calls adds h k =
    omega (arith, adds k (omega (arith, h k)), h k, weigh-cons (amount k) c calls)

pub put_http_adds :
    (request : HttpPut) (st : TransferStats) (k : Counter)
    → counted k st ≡ counted k st % 2 ^ 64
    → counted k (count_http_put request.object_size st)
      ≡ (counted k st + amount k (put_by_http request)) % 2 ^ 64
unfolding count_http_put
put_http_adds request st rdma_put h = omega arith
put_http_adds request st _ h = omega arith

pub get_http_adds :
    (n : ℕ) (st : TransferStats) (k : Counter)
    → counted k st ≡ counted k st % 2 ^ 64
    → counted k (count_http_get n st) ≡ (counted k st + amount k (get_by_http n)) % 2 ^ 64
unfolding count_http_get
get_http_adds n st rdma_put h = omega arith
get_http_adds n st _ h = omega arith

pub put_rdma_adds :
    (r : RdmaResult) (st : TransferStats) (k : Counter)
    → has_moved r ≡ true
    → counted k st ≡ counted k st % 2 ^ 64
    → counted k (count_rdma_put r.bytes st) ≡ (counted k st + amount k (put_by_rdma r)) % 2 ^ 64
unfolding count_rdma_put
put_rdma_adds r st rdma_put m h = rw m (omega arith)
put_rdma_adds r st rdma_byte m h = rw m (omega arith)
put_rdma_adds r st _ m h = omega arith

pub get_rdma_adds :
    (r : RdmaResult) (st : TransferStats) (k : Counter)
    → has_moved r ≡ true
    → counted k st ≡ counted k st % 2 ^ 64
    → counted k (count_rdma_get r.bytes st) ≡ (counted k st + amount k (get_by_rdma r)) % 2 ^ 64
unfolding count_rdma_get
get_rdma_adds r st rdma_get m h = rw m (omega arith)
get_rdma_adds r st rdma_byte m h = rw m (omega arith)
get_rdma_adds r st _ m h = omega arith

-- A call that no counter counts.
abbrev pub IsSilent : Call → Type 0
IsSilent c = (k : Counter) → amount k c ≡ 0

pub silent :
    (c : Call) (st : TransferStats) (calls : List Call)
    → IsSilent c
    → ((k : Counter) → counted k st ≡ weigh (amount k) calls % 2 ^ 64)
    → (k : Counter) → counted k st ≡ weigh (amount k) (c ∷ calls) % 2 ^ 64
silent c st calls quiet h k = omega (arith, quiet k, h k, weigh-cons (amount k) c calls)

pub IsOther-IsSilent : (c : Call) → IsOther c → IsSilent c
IsOther-IsSilent (initialized b) h rdma_put = refl
IsOther-IsSilent (initialized b) h _ = refl
IsOther-IsSilent shut_down h rdma_put = refl
IsOther-IsSilent shut_down h _ = refl
IsOther-IsSilent as_given h rdma_put = refl
IsOther-IsSilent as_given h _ = refl
IsOther-IsSilent (registered buf false) h rdma_put = refl
IsOther-IsSilent (registered buf false) h _ = refl
IsOther-IsSilent (registered buf true) h k = absurd h
IsOther-IsSilent (deregistered buf) h k = absurd h
IsOther-IsSilent (put_by_rdma r) h k = absurd h
IsOther-IsSilent (get_by_rdma r) h k = absurd h
IsOther-IsSilent (put_by_http request) h k = absurd h
IsOther-IsSilent (get_by_http n) h k = absurd h

pub registered-IsSilent : (buf : ℕ) → IsSilent (registered buf true)
registered-IsSilent buf rdma_put = refl
registered-IsSilent buf _ = refl

pub deregistered-IsSilent : (buf : ℕ) → IsSilent (deregistered buf)
deregistered-IsSilent buf rdma_put = refl
deregistered-IsSilent buf _ = refl

pub put_by_rdma-IsSilent : (r : RdmaResult) → has_moved r ≡ false → IsSilent (put_by_rdma r)
put_by_rdma-IsSilent r e rdma_put = rw e refl
put_by_rdma-IsSilent r e rdma_byte = rw e refl
put_by_rdma-IsSilent r e _ = refl

pub get_by_rdma-IsSilent : (r : RdmaResult) → has_moved r ≡ false → IsSilent (get_by_rdma r)
get_by_rdma-IsSilent r e rdma_get = rw e refl
get_by_rdma-IsSilent r e rdma_byte = rw e refl
get_by_rdma-IsSilent r e _ = refl

pub none_counted : (k : Counter) → counted k no_transfers ≡ weigh (amount k) [] % 2 ^ 64
none_counted rdma_put = omega (arith, weigh-nil (amount rdma_put))
none_counted k = omega (arith, weigh-nil (amount k))
