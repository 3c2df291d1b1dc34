-- ===== src/Minio/Laws.antt =====
-- integrations/minio-cpp/src/rdma.cpp: what a download with retries gives.
use hip_object.Prelude.{
  ℕ, zero, suc, ◌≤◌, ◌≡◌, refl, inl, inr, true, false, not, ◌||◌, Option, none, some, ltb, is_empty,
  arith, Bool-cases, Option-cases,
}
use hip_object.Prelude.Int.{pos}
use hip_object.Api.Errors.{HipObjError, is_success}
use hip_object.Api.Instance.{Ending, gives, throws, pends, Platform, Instance}
use hip_object.Api.Calls.{hip_obj_get_rdma_token, hip_obj_buf_sync}
use hip_object.Api.Plain.{before_nul}
use hip_object.Api.Success.{succeeded}
use hip_object.Minio.{
  RdmaResult, failure, S3RdmaContext, Response, Client, Retried, bytes_result, get_result, got,
  has_moved, is_refused, given_token, need, after_get, get_loop, rdma_get_with_retry, is_code,
  reply_code_of, rdma_reply_not_implemented, rdma_reply_success, rdma_reply_partial_content,
}

bytes_result_bounds : (size : ℕ) (o : Option ℕ) → (bytes_result size o).bytes ≤ size
unfolding bytes_result
bytes_result_bounds size none = omega arith
bytes_result_bounds size (some bytes) = elim (Bool-cases (ltb size bytes)) [
  | inl above ↦ rw (bytes_result, above) (omega arith)
  | inr within ↦ rw (bytes_result, within) (ground (arith, within))
]

get_result_bounds : (size : ℕ) (res : Response) → (get_result size res).bytes ≤ size
unfolding get_result
get_result_bounds size res =
    let code = reply_code_of res.amz_rdma_reply in
    elim (Bool-cases (not (is_empty res.error))) [
      | inl wrong ↦ rw (get_result, wrong) (omega arith)
      | inr sent ↦ elim (Bool-cases (is_code rdma_reply_not_implemented code)) [
        | inl refused ↦ rw (get_result, sent, refused) (omega arith)
        | inr known ↦
            elim (Bool-cases
              (not (is_code rdma_reply_success code || is_code rdma_reply_partial_content code))) [
                | inl bad ↦ rw (get_result, sent, known, bad) (omega arith)
                | inr good ↦ rw (get_result, sent, known, good) (bytes_result_bounds size _)
              ]
      ]
    ]

got_bounds : (size : ℕ) (o : Option Response) → (got size o).bytes ≤ size
got_bounds size none = omega arith
got_bounds size (some res) = get_result_bounds size res

module _ (platform : Platform) (client : Client) (buf size : ℕ) where
  -- A download's result: never more bytes than the buffer has; and when bytes were moved, the last
  -- thing that was done is a synchronization of the whole buffer to the device, which succeeded.
  abbrev pub IsDownload : Retried → Type 0
  IsDownload (throws, rest) = Unit {0}
  IsDownload (pends, rest) = Unit {0}
  IsDownload (gives r, (ctx, t)) =
      (r.bytes ≤ size)
      × (has_moved r ≡ true
          → (s : Option Instance) × (succeeded
                (hip_obj_buf_sync platform buf size (pos 0) (pos 1) s).0
              ≡ true)
            × (t ≡ (hip_obj_buf_sync platform buf size (pos 0) (pos 1) s).1))

  need-IsDownload :
      (a : Ending HipObjError × Option Instance) (ctx : S3RdmaContext) (next : Retried)
      → (succeeded a.0 ≡ true → IsDownload next)
      → IsDownload (need a ctx next)
  need-IsDownload (throws, s) ctx next h = tt
  need-IsDownload (pends, s) ctx next h = tt
  need-IsDownload (gives e, s) ctx next h = elim (Bool-cases (is_success e.op_error)) [
    | inl good ↦ rw good (h good)
    | inr bad ↦ rw bad (omega arith, λ m. absurd (ground (arith, m)))
  ]

  after_get-IsDownload :
      (ctx : S3RdmaContext) (r : RdmaResult) (s : Option Instance) (rest : Retried)
      → r.bytes ≤ size
      → (has_moved r ≡ false → IsDownload rest)
      → IsDownload (after_get platform client buf size ctx r s rest)
  unfolding after_get
  after_get-IsDownload ctx r s rest le h = elim (Bool-cases (has_moved r)) [
    | inl moved ↦
        rw (after_get, moved)
          (need-IsDownload (hip_obj_buf_sync platform buf size (pos 0) (pos 1) s) ctx _
            (λ synced. (le, λ m. (s, synced, refl))))
    | inr none_moved ↦ elim (Bool-cases (is_refused r)) [
      | inl refused ↦
          rw (after_get, none_moved, refused) (le, λ m. absurd (ground (arith, m, none_moved)))
      | inr again ↦ rw (after_get, none_moved, again) (h none_moved)
    ]
  ]

  get_loop-IsDownload :
      (n : ℕ) (ctx : S3RdmaContext) (r : RdmaResult) (s : Option Instance)
      → r.bytes ≤ size
      → has_moved r ≡ false
      → IsDownload (get_loop platform client buf size n ctx r s)
  unfolding get_loop
  get_loop-IsDownload zero ctx r s le idle = (le, λ m. absurd (ground (arith, m, idle)))
  get_loop-IsDownload (suc n) ctx r s le idle =
      let asked = hip_obj_get_rdma_token platform buf size (pos 1) true s in
      need-IsDownload asked ctx _ (λ ok_asked. elim (Option-cases (given_token asked.1)) [
        | inl lacking ↦ rw lacking (omega arith, λ m. absurd (ground (arith, m)))
        | inr (token, e) ↦
            let answer = client.get asked.1 (before_nul token) in
            rw e (
              after_get-IsDownload ctx (got size answer.0) answer.1
                (get_loop platform client buf size n ctx (got size answer.0) answer.1)
                (got_bounds size answer.0)
                (get_loop-IsDownload n ctx (got size answer.0) answer.1 (got_bounds size answer.0)))
      ])

  -- Whatever the server and the library answer, a download with retries never gives more bytes than
  -- the buffer has; and when it moved bytes, the last call was a synchronization of the whole buffer
  -- to the device, and succeeded.
  pub rdma_get_with_retry-IsDownload :
      (ctx : S3RdmaContext) (s : Option Instance)
      → IsDownload (rdma_get_with_retry platform client buf size ctx s)
  unfolding rdma_get_with_retry
  rdma_get_with_retry-IsDownload ctx s = get_loop-IsDownload 2 ctx failure s (omega arith) refl
