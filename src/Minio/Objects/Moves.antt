-- ===== src/Minio/Objects/Moves.antt =====
-- integrations/minio-cpp/src/client.cpp: what a transfer by RDMA keeps, with the fallback after it.
use hip_object.Prelude.{ℕ, ◌≡◌, inl, inr, Bool, true, false, ◌∷◌, Bool-cases}
use hip_object.Api.Instance.{Ending, gives, throws, pends}
use hip_object.Minio.{RdmaResult, S3RdmaContext, has_moved}
use hip_object.Minio.Stats.{count_rdma_put, count_rdma_get}
use hip_object.Minio.Session.{Call, put_by_rdma, get_by_rdma, Library, Session, Part}
use hip_object.Minio.Objects.{
  ApiResponse, S3Client, is_device_pointer, put_over_http, http_get_streaming, after_put,
  after_get_object, with_context, new_context, put_by, get_by,
}
use hip_object.Minio.Objects.Parts.{Rules, Ends, Keeps}

module _ {S : Type 0} {held : ℕ} (P Q : Bool → Session S → Type 0) (rules : Rules held P Q)
    (lib : Library S) (client : S3Client S) where
  -- A result of a transfer, noted.
  abbrev pub after_call : Call → S → Session S → Session S
  after_call c w s = record s { world = w; calls = c ∷ s.calls }

  with_context-Ends :
      (b : Bool) (body : S3RdmaContext → RdmaResult → Part S ApiResponse)
      (a : Ending RdmaResult × (S3RdmaContext × S)) (note : RdmaResult → Call) (s : Session S)
      → ((ctx : S3RdmaContext) (r : RdmaResult) (w : S)
          → Ends (P b) (Q b) (body ctx r (after_call (note r) w s)))
      → P b s
      → Ends (P b) (Q b) (with_context lib client body a note s)
  with_context-Ends b body (gives r, (ctx, w)) note s keeps h = keeps ctx r w
  with_context-Ends b body (throws, (ctx, w)) note s keeps h = rules.falls b s w h
  with_context-Ends b body (pends, (ctx, w)) note s keeps h = tt

  module _ (buf size : ℕ) where
    pub put_by-Keeps :
        ((b : Bool) (s : Session S) (r : RdmaResult) (w : S)
          → has_moved r ≡ true
          → P b s
          → P b (record s {
            world = w;
            calls = put_by_rdma r ∷ s.calls;
            stats = count_rdma_put r.bytes s.stats;
          }))
        → ((b : Bool) (s : Session S) (r : RdmaResult) (w : S)
            → has_moved r ≡ false
            → P b s
            → P b (after_call (put_by_rdma r) w s))
        → ((b : Bool) (s : Session S)
            → is_device_pointer lib client buf s ≡ false
            → P b s
            → Ends (P b) (Q b) (put_over_http lib client buf size s))
        → Keeps P Q rules lib client (put_by lib client buf size)
    unfolding put_by after_put
    put_by-Keeps moved idle falls_back b s h =
        with_context-Ends b (λ ctx r. after_put lib client buf size r ctx)
          (lib.put_with_retry new_context buf size s.world) put_by_rdma s
          (λ ctx r w.
            let t = after_call (put_by_rdma r) w s in
            elim (Bool-cases (has_moved r)) [
              | inl m ↦ rw (after_put, m) (moved b s r w m h)
              | inr e ↦ elim (Bool-cases (is_device_pointer lib client buf t)) [
                | inl device ↦ rw (after_put, e, device) (idle b s r w e h)
                | inr host ↦ rw (after_put, e, host) (falls_back b t host (idle b s r w e h))
              ]
            ])
          h

    pub get_by-Keeps :
        ((b : Bool) (s : Session S) (r : RdmaResult) (w : S)
          → has_moved r ≡ true
          → P b s
          → P b (record s {
            world = w;
            calls = get_by_rdma r ∷ s.calls;
            stats = count_rdma_get r.bytes s.stats;
          }))
        → ((b : Bool) (s : Session S) (r : RdmaResult) (w : S)
            → has_moved r ≡ false
            → P b s
            → P b (after_call (get_by_rdma r) w s))
        → ((b : Bool) (s : Session S)
            → is_device_pointer lib client buf s ≡ false
            → P b s
            → Ends (P b) (Q b) (http_get_streaming lib client buf size s))
        → Keeps P Q rules lib client (get_by lib client buf size)
    unfolding get_by after_get_object
    get_by-Keeps moved idle falls_back b s h =
        with_context-Ends b (λ ctx r. after_get_object lib client buf size r ctx)
          (lib.get_with_retry new_context buf size s.world) get_by_rdma s
          (λ ctx r w.
            let t = after_call (get_by_rdma r) w s in
            elim (Bool-cases (has_moved r)) [
              | inl m ↦ rw (after_get_object, m) (moved b s r w m h)
              | inr e ↦ elim (Bool-cases (is_device_pointer lib client buf t)) [
                | inl device ↦ rw (after_get_object, e, device) (idle b s r w e h)
                | inr host ↦ rw (after_get_object, e, host) (falls_back b t host (idle b s r w e h))
              ]
            ])
          h
