-- ===== src/Api/Success/Calls.antt =====
-- src/hipobj.cpp: what `hipObjGet` and `hipObjPut` have done when they succeed.
use hip_object.Prelude.{ℕ, ◌+◌, ◌≡◌, ◌⊎◌, subst, true, false, Option, none, some}
use hip_object.Prelude.Int.{ℤ}
use hip_object.Buffer.{Item}
use hip_object.Api.Errors.{HipObjError}
use hip_object.Api.Instance.{Ending, Platform, Instance, seq}
use hip_object.Api.Staging.{check_no_abandoned_copy, is_running, stage_to_device, stage_to_host}
use hip_object.Api.Transfer.{Ops, run_rdma_transfer}
use hip_object.Api.Calls.{
  with_buffer, get_with, get_body, hip_obj_get, put_with, put_body, hip_obj_put,
}
use hip_object.Api.Success.{succeeded}
use hip_object.Api.Success.Staging.{
  IsStaged, checked_success, stage_to_device_success, stage_to_host_success,
}
use hip_object.Api.Success.Transfer.{IsTransferred, run_rdma_transfer-IsTransferred}
use hip_object.Api.Success.Parts.{
  seq_success, entered_success, IsUsable, taken, with_buffer_success, callbacks_success,
}

-- What `hipObjGet` has done when it succeeds: with an instance, callbacks, and a registration that has
-- the range and no abandoned copy that runs, it made the transfer, and then copied the range from the
-- staging buffer, if there is one, to the same place of the caller's memory, which starts at `key`.
abbrev pub IsGot : Platform → ℕ → ℕ → ℤ → Option Ops → Option Instance → Type 0
IsGot platform key size offset ops s =
    (i : Instance) × (item : Item) × (callbacks : Ops) × (s ≡ some i)
    × (ops ≡ some callbacks)
    × IsUsable key size offset i item
    × ((item.entry.host_buf ≡ none) ⊎ ((is_running platform key (taken key i)).0 ≡ false))
    × (let checked = (check_no_abandoned_copy platform key item.entry (taken key i)).1 in
        IsTransferred platform callbacks item.entry size offset checked
        × IsStaged platform
            (λ host start. record {
              dst = key + start;
              src = host + start;
              size = size;
              to_device = true;
            })
            item.entry offset
            (run_rdma_transfer platform callbacks item.entry size offset checked).1.hip_log)

-- And `hipObjPut`: it copied the range to the staging buffer, if there is one, and then made the
-- transfer.
abbrev pub IsPut : Platform → ℕ → ℕ → ℤ → Option Ops → Option Instance → Type 0
IsPut platform key size offset ops s =
    (i : Instance) × (item : Item) × (callbacks : Ops) × (s ≡ some i)
    × (ops ≡ some callbacks)
    × IsUsable key size offset i item
    × ((item.entry.host_buf ≡ none) ⊎ ((is_running platform key (taken key i)).0 ≡ false))
    × (let checked = (check_no_abandoned_copy platform key item.entry (taken key i)).1 in
        IsStaged platform
          (λ host start. record {
            dst = host + start;
            src = key + start;
            size = size;
            to_device = false;
          })
          item.entry offset checked.hip_log
        × IsTransferred platform callbacks item.entry size offset
            (stage_to_host platform key item.entry size offset checked).1)

module _ (platform : Platform) where
  -- When `hipObjGet` succeeds, whatever the callbacks did: there was an instance, and a registration
  -- that has the range, which is not empty; no abandoned copy used its staging buffer; the transfer of
  -- exactly that range succeeded; and then the range was copied from the staging buffer, if there is
  -- one, and that copy was over.
  pub hip_obj_get-IsGot :
      (key size : ℕ) (offset : ℤ) (ops : Option Ops) (s : Option Instance)
      → succeeded (hip_obj_get platform key size offset ops s).0 ≡ true
      → IsGot platform key size offset ops s
  unfolding hip_obj_get get_body get_with
  hip_obj_get-IsGot key size offset ops s h =
      let (i, is_there, body) = entered_success (get_body platform key size offset ops) s h in
      let (callbacks, given, got) =
        callbacks_success ops
          (λ callbacks. with_buffer key size offset (get_with platform callbacks key size offset)) i
          body in
      let (item, usable, used) =
        with_buffer_success key size offset (get_with platform callbacks key size offset) i got in
      let checking = check_no_abandoned_copy platform key item.entry (taken key i) in
      let transfer = run_rdma_transfer platform callbacks item.entry size offset in
      let (before, staged, last) =
        seq_success (seq checking transfer) (stage_to_device platform key item.entry size offset)
          used in
      let (checked, transferred, same) = seq_success checking transfer before in
      (
        i,
        item,
        callbacks,
        is_there,
        given,
        usable,
        checked_success platform key item.entry (taken key i) checked,
        (
          run_rdma_transfer-IsTransferred platform callbacks item.entry size offset checking.1
              transferred,
          stage_to_device_success platform key item.entry size offset (transfer checking.1).1 (
              subst
                (λ (r : Ending HipObjError × Instance).
                  succeeded (stage_to_device platform key item.entry size offset r.1).0 ≡ true)
                same staged),
        ),
      )

  -- When `hipObjPut` succeeds, whatever the callbacks did: there was an instance, and a registration
  -- that has the range, which is not empty; no abandoned copy used its staging buffer; the range was
  -- copied to the staging buffer, if there is one, and that copy was over; and then the transfer of
  -- exactly that range succeeded.
  pub hip_obj_put-IsPut :
      (key size : ℕ) (offset : ℤ) (ops : Option Ops) (s : Option Instance)
      → succeeded (hip_obj_put platform key size offset ops s).0 ≡ true
      → IsPut platform key size offset ops s
  unfolding hip_obj_put put_body put_with
  hip_obj_put-IsPut key size offset ops s h =
      let (i, is_there, body) = entered_success (put_body platform key size offset ops) s h in
      let (callbacks, given, put) =
        callbacks_success ops
          (λ callbacks. with_buffer key size offset (put_with platform callbacks key size offset)) i
          body in
      let (item, usable, used) =
        with_buffer_success key size offset (put_with platform callbacks key size offset) i put in
      let checking = check_no_abandoned_copy platform key item.entry (taken key i) in
      let staging = stage_to_host platform key item.entry size offset in
      let (before, transferred, last) =
        seq_success (seq checking staging)
          (run_rdma_transfer platform callbacks item.entry size offset) used in
      let (checked, staged, same) = seq_success checking staging before in
      (
        i,
        item,
        callbacks,
        is_there,
        given,
        usable,
        checked_success platform key item.entry (taken key i) checked,
        (
          stage_to_host_success platform key item.entry size offset checking.1 staged,
          run_rdma_transfer-IsTransferred platform callbacks item.entry size offset
              (staging checking.1).1
              (subst
                (λ (r : Ending HipObjError × Instance).
                  succeeded (run_rdma_transfer platform callbacks item.entry size offset r.1).0
                  ≡ true)
                same transferred),
        ),
      )
