-- ===== src/Minio/Ready.antt =====
-- integrations/minio-cpp/src/client.cpp: when the library is ready for a client.
use hip_object.Prelude.{ℕ, ◌≡◌, ◌≢◌, ◌⊎◌, true, false, Option, List}
use hip_object.Api.Errors.{OpError, HipObjError, make_error, is_success}
use hip_object.Api.Instance.{Ending, gives, throws, pends}
use hip_object.Minio.Session.{
  BaseUrl, Library, Session, ensure_init, key_of, config_of, rdma_available,
}

module _ {S : Type 0} (lib : Library S) (nic_hint : Option (List ℕ)) (url : BaseUrl) where
  -- The library is ready for the address, and another call does nothing.
  abbrev IsReady : Session S → Type 0
  IsReady t =
      (rdma_available t ≡ true)
      × (t.runtime.active_key ≡ key_of url)
      × (ensure_init lib nic_hint url t ≡ (gives (make_error OpError.success), t))

  -- Whether the library is ready after `EnsureInit`.
  abbrev pub Settles : Ending HipObjError × Session S → Type 0
  Settles (gives e, t) =
      (is_success e.op_error ≡ true → IsReady t)
      × (is_success e.op_error ≡ false → rdma_available t ≡ false)
  Settles (throws, t) = rdma_available t ≡ false
  Settles (pends, t) = Unit {0}

  -- A part ends as a call of the library did, in the state that the call left.
  abbrev pub EndsAs : Ending HipObjError × S → Ending HipObjError × Session S → Type 0
  EndsAs r a = (a.0 ≡ r.0) × (a.1.world ≡ r.1)

  -- What `EnsureInit`, called in `s`, has done with the library: nothing, if an instance for the
  -- client's host and region is there; if there is one for another key, it was shut down, and then the
  -- library initialized; and if there is none, the library was initialized. What the initialization
  -- leaves is the library's state, and how it ends is how `EnsureInit` ends.
  abbrev pub Restarts : Session S → Ending HipObjError × Session S → Type 0
  Restarts s a =
      ((s.runtime.is_initialized ≡ true)
        × (s.runtime.active_key ≡ key_of url)
        × (a ≡ (gives (make_error OpError.success), s)))
      ⊎ ((s.runtime.is_initialized ≡ true)
          × (s.runtime.active_key ≢ key_of url)
          × EndsAs (lib.init (config_of nic_hint) (lib.shutdown s.world)) a)
      ⊎ ((s.runtime.is_initialized ≡ false) × EndsAs (lib.init (config_of nic_hint) s.world) a)

  -- What `EnsureInit` has brought about.
  abbrev pub Prepares : Session S → Ending HipObjError × Session S → Type 0
  Prepares s a = Settles a × Restarts s a
