-- ===== src/Api/Holders/Calls.antt =====
-- src/hipobj.cpp: what the public functions do to the holders of registrations.
use hip_object.Prelude.{ℕ, inl, inr, Bool, true, false, Option, ◌==◌, Bool-cases}
use hip_object.Prelude.Int.{ℤ, pos}
use hip_object.Buffer.{BufEntry, register_buffer, register_host_buffer}
use hip_object.Api.Instance.{Platform, Step, seq}
use hip_object.Api.Staging.{reclaim_all, check_no_abandoned_copy, stage_to_device, stage_to_host}
use hip_object.Api.Transfer.{Ops, build_rdma_token, run_rdma_transfer}
use hip_object.Api.Calls.{
  register_body, register_host_body, deregister_body, get_body, put_body, sync_body, token_body,
  with_buffer, get_with, put_with, sync_with, token_with, give_token,
}
use hip_object.Api.Holders.Register.{register_buffer-LosesNone, register_host_buffer-LosesNone}
use hip_object.Api.Holders.Staging.{
  check_no_abandoned_copy_keeps, stage_to_device_keeps, stage_to_host_keeps, reclaim_all_keeps,
}
use hip_object.Api.Holders.Transfer.{CallbacksKeep, run_rdma_transfer_keeps}
use hip_object.Api.Holders.Parts.{
  KeepsAt, seq_keeps, with_buffer_keeps, give_token_keeps, registers_keeps, deregister_with_keeps,
  Keeps, AllCallbacksKeep, with_number-Keeps, with_callbacks-Keeps,
}

module _ (platform : Platform) where
  checked_keeps :
      (dev_ptr : ℕ) (buf : BufEntry) (next : Step)
      → KeepsAt dev_ptr next
      → KeepsAt dev_ptr (λ i. seq (check_no_abandoned_copy platform dev_ptr buf i) next)
  checked_keeps dev_ptr buf next keep = λ d i p h.
      seq_keeps (check_no_abandoned_copy platform dev_ptr buf i) next d (λ j. keep d j p)
        (check_no_abandoned_copy_keeps platform dev_ptr buf d i h)

  get_with_keeps :
      (ops : Ops) (dev_ptr size : ℕ) (offset : ℤ) (buf : BufEntry)
      → CallbacksKeep ops
      → KeepsAt dev_ptr (get_with platform ops dev_ptr size offset buf)
  unfolding get_with
  get_with_keeps ops dev_ptr size offset buf keep = λ d i p h.
      let transfer = run_rdma_transfer platform ops buf size offset in
      seq_keeps (seq (check_no_abandoned_copy platform dev_ptr buf i) transfer)
        (stage_to_device platform dev_ptr buf size offset) d
        (λ j. stage_to_device_keeps platform dev_ptr buf size offset d j p)
        (checked_keeps dev_ptr buf transfer
          (λ e j q. run_rdma_transfer_keeps platform ops buf size offset e j keep) d i p h)

  put_with_keeps :
      (ops : Ops) (dev_ptr size : ℕ) (offset : ℤ) (buf : BufEntry)
      → CallbacksKeep ops
      → KeepsAt dev_ptr (put_with platform ops dev_ptr size offset buf)
  unfolding put_with
  put_with_keeps ops dev_ptr size offset buf keep = λ d i p h.
      let staged = stage_to_host platform dev_ptr buf size offset in
      seq_keeps (seq (check_no_abandoned_copy platform dev_ptr buf i) staged)
        (run_rdma_transfer platform ops buf size offset) d
        (λ j. run_rdma_transfer_keeps platform ops buf size offset d j keep)
        (checked_keeps dev_ptr buf staged (stage_to_host_keeps platform dev_ptr buf size offset) d i
          p h)

  sync_with_keeps :
      (to_device : Bool) (dev_ptr size : ℕ) (offset : ℤ) (buf : BufEntry)
      → KeepsAt dev_ptr (sync_with platform to_device dev_ptr size offset buf)
  unfolding sync_with
  sync_with_keeps true dev_ptr size offset buf =
      checked_keeps dev_ptr buf (stage_to_device platform dev_ptr buf size offset)
        (stage_to_device_keeps platform dev_ptr buf size offset)
  sync_with_keeps false dev_ptr size offset buf =
      checked_keeps dev_ptr buf (stage_to_host platform dev_ptr buf size offset)
        (stage_to_host_keeps platform dev_ptr buf size offset)

  token_with_keeps :
      (dev_ptr size : ℕ) (buf : BufEntry) → KeepsAt dev_ptr (token_with platform dev_ptr size buf)
  unfolding token_with
  token_with_keeps dev_ptr size buf =
      checked_keeps dev_ptr buf
        (λ j. give_token (build_rdma_token platform j.token_conn buf size (pos 0)) j)
        (λ d j p h. give_token_keeps _ d j h)

  pub register_body-Keeps : (dev_ptr size : ℕ) → Keeps (register_body platform dev_ptr size)
  unfolding register_body
  register_body-Keeps dev_ptr size d i h =
      registers_keeps _
        (register_buffer platform.system platform.policy dev_ptr size i.buffers i.buffers
          i.buffers_log)
        d i
        (register_buffer-LosesNone platform.system platform.policy dev_ptr size i.buffers
          i.buffers_log)
        h

  pub register_host_body-Keeps :
      (host_ptr size : ℕ) → Keeps (register_host_body platform host_ptr size)
  unfolding register_host_body
  register_host_body-Keeps host_ptr size d i h =
      registers_keeps _
        (register_host_buffer platform.system host_ptr size i.buffers i.buffers i.buffers_log) d i
        (register_host_buffer-LosesNone platform.system host_ptr size i.buffers i.buffers_log) h

  pub deregister_body-Keeps : (dev_ptr : ℕ) → Keeps (deregister_body platform dev_ptr)
  unfolding deregister_body
  deregister_body-Keeps dev_ptr d i h = elim (Bool-cases (dev_ptr == 0)) [
    | inl null ↦ rw null h
    | inr other ↦ rw other (
        deregister_with_keeps dev_ptr d (reclaim_all platform i) (reclaim_all_keeps platform d i h))
  ]

  pub get_body-Keeps :
      (dev_ptr size : ℕ) (offset : ℤ) (ops : Option Ops)
      → AllCallbacksKeep ops
      → Keeps (get_body platform dev_ptr size offset ops)
  unfolding get_body
  get_body-Keeps dev_ptr size offset ops c = with_callbacks-Keeps ops _ c (λ callbacks keep d i.
      with_buffer_keeps dev_ptr size offset (get_with platform callbacks dev_ptr size offset) d i
        (λ buf. get_with_keeps callbacks dev_ptr size offset buf keep))

  pub put_body-Keeps :
      (dev_ptr size : ℕ) (offset : ℤ) (ops : Option Ops)
      → AllCallbacksKeep ops
      → Keeps (put_body platform dev_ptr size offset ops)
  unfolding put_body
  put_body-Keeps dev_ptr size offset ops c = with_callbacks-Keeps ops _ c (λ callbacks keep d i.
      with_buffer_keeps dev_ptr size offset (put_with platform callbacks dev_ptr size offset) d i
        (λ buf. put_with_keeps callbacks dev_ptr size offset buf keep))

  pub sync_body-Keeps :
      (dev_ptr size : ℕ) (offset direction : ℤ)
      → Keeps (sync_body platform dev_ptr size offset direction)
  unfolding sync_body
  sync_body-Keeps dev_ptr size offset direction = with_number-Keeps direction _ (λ to_device d i.
      with_buffer_keeps dev_ptr size offset (sync_with platform to_device dev_ptr size offset) d i
        (sync_with_keeps to_device dev_ptr size offset))

  pub token_body-Keeps :
      (dev_ptr size : ℕ) (op : ℤ) (has_out_token : Bool)
      → Keeps (token_body platform dev_ptr size op has_out_token)
  unfolding token_body
  token_body-Keeps dev_ptr size op false d i h = h
  token_body-Keeps dev_ptr size op true d i h =
      with_number-Keeps op
        (λ is_get. with_buffer dev_ptr size (pos 0) (token_with platform dev_ptr size))
        (λ is_get e j.
          with_buffer_keeps dev_ptr size (pos 0) (token_with platform dev_ptr size) e j
            (token_with_keeps dev_ptr size))
        d i h
