-- ===== src/Minio/Objects/Parts.antt =====
-- integrations/minio-cpp/src/client.cpp: what the parts of a transfer keep, whatever the library and
-- the server answer.
use hip_object.Prelude.{ℕ, ◌≡◌, refl, inl, inr, Bool, true, false, ◌∷◌, Bool-cases}
use hip_object.Api.Errors.{HipObjError, is_success}
use hip_object.Api.Instance.{Ending, gives, throws, pends}
use hip_object.Minio.Session.{
  Call, initialized, shut_down, registered, deregistered, as_given, HipObjRuntime, Library, Session,
  Part, and_then, noted, ran,
}
use hip_object.Minio.Objects.{
  ApiResponse, succeeds, fails, S3Client, scoped, is_already_registered, after_register,
  with_registration, if_region, with_region,
}

-- Calls that neither move an object of a buffer, nor register or release one.
abbrev pub IsOther : Call → Type 0
IsOther (initialized b) = Unit {0}
IsOther shut_down = Unit {0}
IsOther as_given = Unit {0}
IsOther (registered buf false) = Unit {0}
IsOther _ = ⊥

-- What holds of the session when a part has given a value, and when an exception has ended it.
abbrev pub Ends : {S A : Type 0} → (P Q : Session S → Type 0) → Ending A × Session S → Type 0
Ends P Q (gives a, s) = P s
Ends P Q (throws, s) = Q s
Ends P Q (pends, s) = Unit {0}

-- A property of sessions that the calls of the library keep; the Boolean says whether the transfer
-- holds a registration that it has made, which is of `buf`. `Q` is what is left of it after an
-- exception.
pub record Rules {S : Type 0} (buf : ℕ) (P Q : Bool → Session S → Type 0) : Type 0 where
  pub stays :
      (b : Bool) (s : Session S) (rt : HipObjRuntime) (w : S)
      → P b s
      → P b (record s { runtime = rt; world = w })
  pub falls : (b : Bool) (s : Session S) (w : S) → P b s → Q b (record s { world = w })
  pub notes :
      (b : Bool) (s : Session S) (c : Call)
      → IsOther c
      → P b s
      → P b (record s { calls = c ∷ s.calls })
  pub registers :
      (s : Session S) → P false s → P true (record s { calls = registered buf true ∷ s.calls })
  pub deregisters :
      (s : Session S) (w : S)
      → P true s
      → P false (record s { world = w; calls = deregistered buf ∷ s.calls })
  pub deregisters_after :
      (s : Session S) (w : S)
      → Q true s
      → Q false (record s { world = w; calls = deregistered buf ∷ s.calls })

pub Ends-and_then :
    {S A B : Type 0} (P Q : Session S → Type 0) (m : Ending A × Session S) (f : A → Part S B)
    → Ends P Q m
    → ((a : A) (t : Session S) → m ≡ (gives a, t) → P t → Ends P Q (f a t))
    → Ends P Q (and_then m f)
Ends-and_then P Q (gives a, t) f h keeps = keeps a t refl h
Ends-and_then P Q (throws, t) f h keeps = h
Ends-and_then P Q (pends, t) f h keeps = tt

pub Ends-weaken :
    {S A : Type 0} (P R : Session S → Type 0)
    → ((t : Session S) → P t → R t)
    → (m : Ending A × Session S) → Ends P P m
    → Ends R R m
Ends-weaken P R f (gives a, t) h = f t h
Ends-weaken P R f (throws, t) h = f t h
Ends-weaken P R f (pends, t) h = tt

module _ {S : Type 0} {buf : ℕ} (P Q : Bool → Session S → Type 0) (rules : Rules buf P Q) where
  pub Ends-ran :
      {A : Type 0} (b : Bool) (r : Ending A × S) (s : Session S)
      → P b s
      → Ends (P b) (Q b) (ran r s)
  Ends-ran b (gives a, w) s h = rules.stays b s s.runtime w h
  Ends-ran b (throws, w) s h = rules.falls b s w h
  Ends-ran b (pends, w) s h = tt

  -- A call that is noted when it has returned.
  pub Ends-noted :
      {A : Type 0} (b : Bool) (note : A → Call) (r : Ending A × S) (s : Session S)
      → ((a : A) → IsOther (note a))
      → P b s
      → Ends (P b) (Q b) (noted note r s)
  Ends-noted b note (gives a, w) s other h =
      rules.notes b (record s { world = w }) (note a) (other a) (rules.stays b s s.runtime w h)
  Ends-noted b note (throws, w) s other h = rules.falls b s w h
  Ends-noted b note (pends, w) s other h = tt

  module _ (lib : Library S) (client : S3Client S) where
    Ends-scoped :
        (m : Ending ApiResponse × Session S)
        → Ends (P true) (Q true) m
        → Ends (P false) (Q false) (scoped lib client true buf m)
    Ends-scoped (gives r, s) h = rules.deregisters s (lib.buf_deregister buf s.world) h
    Ends-scoped (throws, s) h = rules.deregisters_after s (lib.buf_deregister buf s.world) h
    Ends-scoped (pends, s) h = tt

    Ends-unscoped :
        (m : Ending ApiResponse × Session S)
        → Ends (P false) (Q false) m
        → Ends (P false) (Q false) (scoped lib client false buf m)
    Ends-unscoped (gives r, s) h = h
    Ends-unscoped (throws, s) h = h
    Ends-unscoped (pends, s) h = tt

    -- A body that keeps the property, with a registration and without.
    abbrev pub Keeps : Part S ApiResponse → Type 0
    Keeps body = (b : Bool) (s : Session S) → P b s → Ends (P b) (Q b) (body s)

    if_region-Keeps :
        (body : Part S ApiResponse) (a : ApiResponse)
        → Keeps body
        → Keeps (if_region lib client body a)
    if_region-Keeps body (fails message) keeps b s h = h
    if_region-Keeps body (succeeds region) keeps b s h = keeps b s h

    pub with_region-Keeps :
        (body : Part S ApiResponse) → Keeps body → Keeps (with_region lib client body)
    unfolding with_region
    with_region-Keeps body keeps b s h =
        Ends-and_then (P b) (Q b) (ran (client.get_region s.world) s) (if_region lib client body)
          (Ends-ran b (client.get_region s.world) s h)
          (λ a t e k. if_region-Keeps body a keeps b t k)

    -- `hipObjBufRegister` has returned `e`.
    after_register-Ends :
        (body : Part S ApiResponse) (e : HipObjError) (s : Session S) (w : S)
        → Keeps body
        → P false s
        → Ends (P false) (Q false) (
            after_register lib client buf body e
              (record s { world = w; calls = registered buf (is_success e.op_error) ∷ s.calls }))
    unfolding after_register
    after_register-Ends body e s w keeps h =
        let moved = rules.stays false s s.runtime w h in
        elim (Bool-cases (is_success e.op_error)) [
          | inl good ↦
              rw good
                (Ends-scoped _ (keeps true _ (rules.registers (record s { world = w }) moved)))
          | inr bad ↦
              let t : Session S = record s { world = w; calls = registered buf false ∷ s.calls } in
              let left : P false t =
                rules.notes false (record s { world = w }) (registered buf false) tt moved in
              elim (Bool-cases (is_already_registered lib client e.op_error)) [
                | inl old ↦ rw (bad, old) (Ends-unscoped (body t) (keeps false t left))
                | inr none_old ↦ rw (bad, none_old) left
              ]
        ]

    pub with_registration-Ends :
        (size : ℕ) (body : Part S ApiResponse) (s : Session S)
        → Keeps body
        → P false s
        → Ends (P false) (Q false) (with_registration lib client buf size body s)
    unfolding with_registration
    with_registration-Ends size body s keeps h = go (lib.buf_register buf size s.world)
      where
        go :
            (r : Ending HipObjError × S)
            → Ends (P false) (Q false) (
                and_then
                  (noted (λ (e : HipObjError). registered buf (is_success e.op_error)) r s)
                  (after_register lib client buf body))
        go (gives e, w) = after_register-Ends body e s w keeps h
        go (throws, w) = rules.falls false s w h
        go (pends, w) = tt
