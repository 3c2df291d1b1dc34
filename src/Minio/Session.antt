-- ===== src/Minio/Session.antt =====
-- integrations/minio-cpp/src/client.cpp: `HipObjRuntime`, and the world that a client's transfers
-- change.
use hip_object.Prelude.{
  ℕ, Bool, true, false, ◌&&◌, Option, none, some, List, ◌∷◌, ◌++◌, if◌then◌else◌, is_empty,
  bytes_eq, codes,
}
use hip_object.Prelude.Int.{negsuc}
use hip_object.Api.Errors.{OpError, HipObjError, make_error, is_success}
use hip_object.Api.Instance.{Ending, gives, throws, pends}
use hip_object.State.Init.{HipObjConfig}
use hip_object.Minio.{RdmaResult, S3RdmaContext}
use hip_object.Minio.Stats.{TransferStats}

-- `minio::s3::BaseUrl`, as far as it is read
pub record BaseUrl : Type 0 where
  pub https : Bool
  pub host : List ℕ
  pub region : List ℕ

-- An HTTP request that uploads bytes of the caller's buffer.
pub record HttpPut : Type 0 where
  pub content : List ℕ
  pub object_size : ℕ
  pub part_size : ℕ

-- A call of the library, of the RDMA transfers, or of the HTTP client.
pub data Call : Type 0 where
  initialized : Bool → Call
  shut_down : Call
  registered : ℕ → Bool → Call
  deregistered : ℕ → Call
  put_by_rdma get_by_rdma : RdmaResult → Call
  put_by_http : HttpPut → Call
  get_by_http : ℕ → Call
  as_given : Call

pub record HipObjRuntime : Type 0 where
  pub is_initialized : Bool
  pub active_key : List ℕ
  pub endpoint_storage : List ℕ

-- The library, the transfers of rdma.cpp, and the HIP runtime, over a state of any type, which has the
-- host's memory in it, too. A pointer is an address.
pub record Library (S : Type 0) : Type 0 where
  pub init : HipObjConfig → S → Ending HipObjError × S
  pub shutdown : S → S
  pub buf_register : ℕ → ℕ → S → Ending HipObjError × S
  pub buf_deregister : ℕ → S → S
  pub put_with_retry : S3RdmaContext → ℕ → ℕ → S → Ending RdmaResult × (S3RdmaContext × S)
  pub get_with_retry : S3RdmaContext → ℕ → ℕ → S → Ending RdmaResult × (S3RdmaContext × S)
  -- whether `hipPointerGetAttributes` says that it is memory of a device; none if it fails
  pub is_device : ℕ → S → Option Bool
  pub load : ℕ → ℕ → S → List ℕ
  pub store : ℕ → List ℕ → S → S

-- The state, and what the process keeps: the runtime, the counters, and the calls, the latest first.
pub record Session (S : Type 0) : Type 0 where
  pub runtime : HipObjRuntime
  pub stats : TransferStats
  pub world : S
  pub calls : List Call

-- A part of a transfer.
abbrev pub Part : Type 0 → Type 0 → Type 0
Part S A = Session S → Ending A × Session S

-- What follows a part that gives a value.
abbrev pub and_then :
    {S A B : Type 0} → Ending A × Session S → (A → Part S B) → Ending B × Session S
and_then (gives a, t) f = f a t
and_then (throws, t) f = (throws, t)
and_then (pends, t) f = (pends, t)

infixl 5 ◌>>=◌
abbrev pub ◌>>=◌ : {S A B : Type 0} → Part S A → (A → Part S B) → Part S B
(m >>= f) s = and_then (m s) f

abbrev pub answer : {S A : Type 0} → A → Part S A
answer a s = (gives a, s)

-- A call that changes the world, and what is noted of it when it has returned.
abbrev pub noted : {S A : Type 0} → (A → Call) → Ending A × S → Session S → Ending A × Session S
noted note (gives a, w) s = (gives a, record s { world = w; calls = note a ∷ s.calls })
noted note (throws, w) s = (throws, record s { world = w })
noted note (pends, w) s = (pends, record s { world = w })

-- A call that is noted elsewhere, or not at all.
abbrev pub ran : {S A : Type 0} → Ending A × S → Session S → Ending A × Session S
ran (gives a, w) s = (gives a, record s { world = w })
ran (throws, w) s = (throws, record s { world = w })
ran (pends, w) s = (pends, record s { world = w })

abbrev pub key_of : BaseUrl → List ℕ
key_of url = url.host ++ (codes ":" ++ url.region)

abbrev pub endpoint_of : BaseUrl → List ℕ
endpoint_of url = (if url.https then codes "https://" else codes "http://") ++ url.host

-- `cfg`: the environment variable counts only if it is not empty.
abbrev pub config_of : Option (List ℕ) → HipObjConfig
config_of none = record { flags = 0; gpu_device = negsuc 0; nic_hint = none }
config_of (some hint) = record {
  flags = 0;
  gpu_device = negsuc 0;
  nic_hint = if is_empty hint then none else some hint;
}

module _ {S : Type 0} (lib : Library S) (nic_hint : Option (List ℕ)) where
  -- An instance for another address is shut down first.
  unfoldable pub shut_down_first : Session S → Session S
  shut_down_first s =
      if s.runtime.is_initialized
      then record s {
        runtime = record s.runtime { is_initialized = false };
        world = lib.shutdown s.world;
        calls = shut_down ∷ s.calls;
      }
      else s

  -- The end of `EnsureInit`, with what `hipObjInit` returned.
  unfoldable pub after_init : BaseUrl → HipObjError → Part S HipObjError
  after_init url e s =
      if is_success e.op_error
      then (
        gives e,
        record s { runtime = record s.runtime { is_initialized = true; active_key = key_of url } },
      )
      else (gives e, s)

  unfoldable pub initialize : BaseUrl → Part S HipObjError
  unfolding after_init
  initialize url s =
      let t = record s { runtime = record s.runtime { endpoint_storage = endpoint_of url } } in
      and_then
        (noted (λ (e : HipObjError). initialized (is_success e.op_error))
          (lib.init (config_of nic_hint) t.world) t)
        (after_init url)

  -- `EnsureInit`
  unfoldable pub ensure_init : BaseUrl → Part S HipObjError
  unfolding initialize shut_down_first
  ensure_init url s =
      if s.runtime.is_initialized && bytes_eq (key_of url) s.runtime.active_key
      then (gives (make_error OpError.success), s)
      else initialize url (shut_down_first s)

-- A call of `hipObjBufDeregister`, which is noted; what it returns is not read.
abbrev pub deregister : {S : Type 0} → Library S → ℕ → Session S → Session S
deregister lib buf s = record s {
  world = lib.buf_deregister buf s.world;
  calls = deregistered buf ∷ s.calls;
}

-- `IsReady` and `Client::RdmaAvailable`
abbrev pub rdma_available : {S : Type 0} → Session S → Bool
rdma_available s = s.runtime.is_initialized
