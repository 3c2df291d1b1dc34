-- ===== src/Minio/Objects/Whole.antt =====
-- integrations/minio-cpp/src/client.cpp: what `PutObject` and `GetObject` keep, if the transfers and
-- the fallbacks keep it.
use hip_object.Prelude.{
  ℕ, ◌≡◌, ap, subst, arith, inl, inr, Bool, true, false, ◌&&◌, Option, none, some, List, ◌∷◌, ◌==◌,
  ltb, bytes_eq, Bool-cases, if_elim,
}
use hip_object.Api.Errors.{HipObjError, is_success}
use hip_object.Api.Instance.{Ending, gives, throws, pends}
use hip_object.Minio.Session.{
  BaseUrl, initialized, shut_down, as_given, Library, Session, Part, and_then, noted,
  shut_down_first, after_init, initialize, ensure_init, key_of, config_of, endpoint_of,
}
use hip_object.Minio.Objects.{
  ObjectArgs, ApiResponse, S3Client, max_long, with_registration, with_region, put_over_http,
  http_get_into_buffer, put_by, get_by, by_rdma_or, put_buffer, get_buffer, sized, given_to, valid,
  put_object, get_object,
}
use hip_object.Minio.Objects.Parts.{
  Rules, Ends, Ends-and_then, Ends-ran, Ends-noted, Keeps, with_region-Keeps,
  with_registration-Ends,
}

module _ {S : Type 0} (args : ObjectArgs) (P Q : Bool → Session S → Type 0)
    (rules : Rules args.buf P Q) (lib : Library S) (client : S3Client S) where
  module _ (nic_hint : Option (List ℕ)) (url : BaseUrl) where
    shut_down_first-keeps : (s : Session S) → P false s → P false (shut_down_first lib nic_hint s)
    unfolding shut_down_first
    shut_down_first-keeps s h =
        if_elim (P false) s.runtime.is_initialized _ s
          (λ old.
            rules.notes false
              (record s {
                runtime = record s.runtime { is_initialized = false };
                world = lib.shutdown s.world;
              })
              shut_down tt
              (rules.stays false s (record s.runtime { is_initialized = false })
                (lib.shutdown s.world) h))
          (λ none_old. h)

    after_init-Ends :
        (e : HipObjError) (s : Session S)
        → P false s
        → Ends (P false) (Q false) (after_init lib nic_hint url e s)
    unfolding after_init
    after_init-Ends e s h = elim (Bool-cases (is_success e.op_error)) [
      | inl good ↦ rw good (
          rules.stays false s (record s.runtime { is_initialized = true; active_key = key_of url })
            s.world h)
      | inr bad ↦ rw bad h
    ]

    ensure_init-Ends :
        (s : Session S) → P false s → Ends (P false) (Q false) (ensure_init lib nic_hint url s)
    unfolding ensure_init initialize
    ensure_init-Ends s h =
        let ready = s.runtime.is_initialized && bytes_eq (key_of url) s.runtime.active_key in
        let old = shut_down_first lib nic_hint s in
        let t : Session S = record old {
          runtime = record old.runtime { endpoint_storage = endpoint_of url };
        } in
        elim (Bool-cases ready) [
          | inl was_ready ↦ rw (ensure_init, was_ready) h
          | inr stale ↦
              rw (ensure_init, stale)
                (Ends-and_then (P false) (Q false) _ (after_init lib nic_hint url)
                  (Ends-noted P Q rules false
                    (λ (e : HipObjError). initialized (is_success e.op_error))
                    (lib.init (config_of nic_hint) t.world) t (λ e. tt)
                    (rules.stays false old t.runtime t.world (shut_down_first-keeps s h)))
                  (λ e u eq k. after_init-Ends e u k))
        ]

    -- The initialization failed last; `u` is the session before.
    abbrev pub HasFailed : Session S → Type 0
    HasFailed t = (u : Session S) × P false u × (t.calls ≡ initialized false ∷ u.calls)

    abbrev IfFailed : Ending HipObjError × Session S → Type 0
    IfFailed (gives e, t) = is_success e.op_error ≡ false → HasFailed t
    IfFailed (throws, t) = Unit {0}
    IfFailed (pends, t) = Unit {0}

    after_init-IfFailed :
        (r : Ending HipObjError × S) (s : Session S)
        → P false s
        → IfFailed (
            and_then
              (noted (λ (e : HipObjError). initialized (is_success e.op_error)) r s)
              (after_init lib nic_hint url))
    unfolding after_init
    after_init-IfFailed (gives e, w) s h =
        if_elim IfFailed (is_success e.op_error) _ _
          (λ good bad. absurd (ground (arith, good, bad)))
          (λ wrong bad. (s, h, ap (λ (b : Bool). initialized b ∷ s.calls) wrong))
    after_init-IfFailed (throws, w) s h = tt
    after_init-IfFailed (pends, w) s h = tt

    ensure_init-IfFailed : (s : Session S) → P false s → IfFailed (ensure_init lib nic_hint url s)
    unfolding ensure_init initialize
    ensure_init-IfFailed s h =
        let old = shut_down_first lib nic_hint s in
        let t : Session S = record old {
          runtime = record old.runtime { endpoint_storage = endpoint_of url };
        } in
        if_elim IfFailed (s.runtime.is_initialized && bytes_eq (key_of url) s.runtime.active_key) _
          _ (λ ready bad. absurd (ground (arith, bad)))
          (λ stale.
            after_init-IfFailed (lib.init (config_of nic_hint) t.world) t
              (rules.stays false old t.runtime t.world (shut_down_first-keeps s h)))

    -- By RDMA, or else by HTTP.
    buffer-Ends :
        (by_rdma otherwise : Part S ApiResponse) (size : ℕ) (s : Session S)
        → Keeps P Q rules lib client by_rdma
        → ((t : Session S) → HasFailed t → P false t → Ends (P false) (Q false) (otherwise t))
        → P false s
        → Ends (P false) (Q false) (
            and_then (ensure_init lib nic_hint url s) (
              by_rdma_or lib client nic_hint url
                (with_registration lib client args.buf size (with_region lib client by_rdma))
                otherwise))
    buffer-Ends by_rdma otherwise size s keeps falls_back h =
        Ends-and_then (P false) (Q false) (ensure_init lib nic_hint url s) _ (ensure_init-Ends s h)
          (λ e t eq k. elim (Bool-cases (is_success e.op_error)) [
            | inl good ↦ rw good (
                with_registration-Ends P Q rules lib client size (with_region lib client by_rdma) t
                  (with_region-Keeps P Q rules lib client by_rdma keeps) k)
            | inr bad ↦ rw bad (falls_back t (subst IfFailed eq (ensure_init-IfFailed s h) bad) k)
          ])

    given_to-Ends :
        (f : S → Ending ApiResponse × S) (s : Session S)
        → P false s
        → Ends (P false) (Q false) (given_to lib client nic_hint url f s)
    given_to-Ends f s h =
        Ends-ran P Q rules false (f s.world) (record s { calls = as_given ∷ s.calls })
          (rules.notes false s as_given tt h)

    sized-Ends :
        (body : ℕ → Part S ApiResponse) (o : Option ℕ) (s : Session S)
        → ((n : ℕ) → Ends (P false) (Q false) (body n s))
        → P false s
        → Ends (P false) (Q false) (sized lib client nic_hint url body o s)
    sized-Ends body none s keeps h = h
    sized-Ends body (some n) s keeps h = keeps n

    valid-Ends :
        (o : Option (List ℕ)) (body : Part S ApiResponse) (s : Session S)
        → P false s
        → Ends (P false) (Q false) (body s)
        → Ends (P false) (Q false) (valid lib client nic_hint url o body s)
    valid-Ends none body s h k = k
    valid-Ends (some message) body s h k = h

    -- What holds of the end of a fallback, when it is taken.
    abbrev pub FallsBack : Part S ApiResponse → Type 0
    FallsBack body = (t : Session S) → HasFailed t → P false t → Ends (P false) (Q false) (body t)

    pub put_object-Ends :
        (s : Session S)
        → ((size : ℕ) → Keeps P Q rules lib client (put_by lib client args.buf size))
        → ((size : ℕ) → FallsBack (put_over_http lib client args.buf size))
        → P false s
        → Ends (P false) (Q false) (put_object lib client nic_hint url args s)
    unfolding put_object put_buffer
    put_object-Ends s keeps falls_back h = valid-Ends (client.validate_put args) _ s h (
        if_elim (Ends (P false) (Q false)) (args.buf == 0) _ _
          (λ null. given_to-Ends (client.put_as_given args) s h)
          (λ given.
            sized-Ends (put_buffer lib client nic_hint url args.buf) args.size s
              (λ n.
                if_elim (Ends (P false) (Q false)) (ltb max_long n) _ _ (λ large. h)
                  (λ fits.
                    buffer-Ends (put_by lib client args.buf n) (put_over_http lib client args.buf n)
                      n s (keeps n) (falls_back n) h))
              h))

    pub get_object-Ends :
        (s : Session S)
        → ((size : ℕ) → Keeps P Q rules lib client (get_by lib client args.buf size))
        → ((size : ℕ) → FallsBack (http_get_into_buffer lib client args.buf size))
        → P false s
        → Ends (P false) (Q false) (get_object lib client nic_hint url args s)
    unfolding get_object get_buffer
    get_object-Ends s keeps falls_back h = valid-Ends (client.validate_get args) _ s h (
        if_elim (Ends (P false) (Q false)) (args.buf == 0) _ _
          (λ null. given_to-Ends (client.get_as_given args) s h)
          (λ given.
            sized-Ends (get_buffer lib client nic_hint url args.buf) args.size s
              (λ n.
                buffer-Ends (get_by lib client args.buf n)
                  (http_get_into_buffer lib client args.buf n) n s (keeps n) (falls_back n) h)
              h))
