-- ===== src/Api/Holders/Transfer.antt =====
-- src/hipobj.cpp: a transfer changes who holds a registration only through its callbacks.
use hip_object.Prelude.{
  ℕ, ◌≡◌, inl, inr, Bool, true, false, Option, none, some, List, ◌==◌, Bool-cases, Option-cases,
}
use hip_object.Prelude.Int.{ℤ}
use hip_object.Token.Reply.{
  RdmaReplyStatus, success, failed, not_supported, parse_peer_token_from_reply,
}
use hip_object.Transport.Verbs.{Outcome, returned, threw}
use hip_object.Transport.Connection.{RcConnection, Answer}
use hip_object.Buffer.{BufEntry}
use hip_object.Pool.{Acquired, waits, fails, leases, acquire}
use hip_object.Pool.System.{slot}
use hip_object.Api.Instance.{Ending, gives, throws, pends, Platform, Instance}
use hip_object.Api.Errors.{HipObjError}
use hip_object.Api.Transfer.{
  Ops, Received, sent, received, RdmaReply, reply_buf_len, build_rdma_token, inject_rdma_token,
  receive_rdma_reply_raw, after_poll, wait_for_completion, after_connect,
  finish_transfer_after_reply, after_status, after_reply, after_send, with_lease, return_lease,
  end_lease, after_acquire, run_rdma_transfer,
}
use hip_object.Api.Holders.{InstanceIsHeld}

-- The callbacks, and what other threads do meanwhile, take away no holder that the calls of this
-- thread or the abandoned copies need.
pub record CallbacksKeep (ops : Ops) : Type 0 where
  pub send_keeps :
      (send : Instance → List ℕ → Outcome ℤ × Instance)
      → ops.send_request ≡ some send
      → (d : ℕ → ℕ) (i : Instance) (token : List ℕ) → InstanceIsHeld d i
      → InstanceIsHeld d (send i token).1
  pub recv_keeps :
      (recv : Instance → ℕ → Outcome Received × Instance)
      → ops.recv_reply ≡ some recv
      → (d : ℕ → ℕ) (i : Instance) (size : ℕ) → InstanceIsHeld d i
      → InstanceIsHeld d (recv i size).1

sent_keeps :
    (r : Outcome ℤ × Instance) (d : ℕ → ℕ) → InstanceIsHeld d r.1 → InstanceIsHeld d (sent r).1
sent_keeps (returned code, i) d h = h
sent_keeps (threw, i) d h = h

received_keeps :
    (size : ℕ) (r : Outcome Received × Instance) (d : ℕ → ℕ)
    → InstanceIsHeld d r.1
    → InstanceIsHeld d (received size r).1
received_keeps size (returned reply, i) d h = h
received_keeps size (threw, i) d h = h

inject_keeps :
    (ops : Ops) (token : List ℕ) (d : ℕ → ℕ) (i : Instance)
    → CallbacksKeep ops
    → InstanceIsHeld d i
    → InstanceIsHeld d (inject_rdma_token ops token i).1
unfolding inject_rdma_token
inject_keeps ops token d i keep h = elim (Option-cases ops.send_request) [
  | inl e ↦ rw e h
  | inr (send, e) ↦ rw e (sent_keeps (send i token) d (keep.send_keeps send e d i token h))
]

receive_keeps :
    (ops : Ops) (size : ℕ) (d : ℕ → ℕ) (i : Instance)
    → CallbacksKeep ops
    → InstanceIsHeld d i
    → InstanceIsHeld d (receive_rdma_reply_raw ops size i).1
unfolding receive_rdma_reply_raw
receive_keeps ops size d i keep h = elim (Option-cases ops.recv_reply) [
  | inl e ↦ rw e h
  | inr (recv, e) ↦ elim (Bool-cases (size == 0)) [
    | inl empty ↦ rw (e, empty) h
    | inr room ↦
        rw (e, room) (received_keeps size (recv i size) d (keep.recv_keeps recv e d i size h))
  ]
]

module _ (platform : Platform) where
  after_poll_keeps :
      (is_dmabuf connected : Bool) (o : Option Bool) (d : ℕ → ℕ) (i : Instance)
      → InstanceIsHeld d i
      → InstanceIsHeld d (after_poll platform is_dmabuf connected o i).after
  unfolding after_poll
  after_poll_keeps is_dmabuf connected none d i h = h
  after_poll_keeps is_dmabuf connected (some false) d i h = h
  after_poll_keeps false connected (some true) d i h = h
  after_poll_keeps true connected (some true) d i h = h

  wait_keeps :
      (is_dmabuf connected : Bool) (d : ℕ → ℕ) (i : Instance)
      → InstanceIsHeld d i
      → InstanceIsHeld d (wait_for_completion platform is_dmabuf connected i).after
  unfolding wait_for_completion
  wait_keeps is_dmabuf connected d i h = after_poll_keeps is_dmabuf connected _ d i h

  after_connect_keeps :
      (is_dmabuf : Bool) (a : Answer Bool) (d : ℕ → ℕ) (i : Instance)
      → InstanceIsHeld d i
      → InstanceIsHeld d (after_connect platform is_dmabuf a i).after
  unfolding after_connect
  after_connect_keeps is_dmabuf (returned true, log) d i h = wait_keeps is_dmabuf true d _ h
  after_connect_keeps is_dmabuf (returned false, log) d i h = h
  after_connect_keeps is_dmabuf (threw, log) d i h = h

  finish_keeps :
      (conn : RcConnection) (reply : List ℕ) (is_dmabuf : Bool) (d : ℕ → ℕ) (i : Instance)
      → InstanceIsHeld d i
      → InstanceIsHeld d (finish_transfer_after_reply platform conn reply is_dmabuf i).after
  unfolding finish_transfer_after_reply
  finish_keeps conn reply is_dmabuf d i h =
      elim (Option-cases (parse_peer_token_from_reply reply)) [
        | inl e ↦ rw (finish_transfer_after_reply, e) (wait_keeps is_dmabuf false d i h)
        | inr (peer, e) ↦
            rw (finish_transfer_after_reply, e) (after_connect_keeps is_dmabuf _ d i h)
      ]

  after_status_keeps :
      (conn : RcConnection) (is_dmabuf : Bool) (status : RdmaReplyStatus) (text : List ℕ)
      (d : ℕ → ℕ) (i : Instance)
      → InstanceIsHeld d i
      → InstanceIsHeld d (after_status platform conn is_dmabuf status text i).after
  unfolding after_status
  after_status_keeps conn is_dmabuf success text d i h = finish_keeps conn text is_dmabuf d i h
  after_status_keeps conn is_dmabuf failed text d i h = h
  after_status_keeps conn is_dmabuf not_supported text d i h = h

  after_reply_keeps :
      (conn : RcConnection) (is_dmabuf : Bool) (r : Outcome (Option RdmaReply) × Instance)
      (d : ℕ → ℕ)
      → InstanceIsHeld d r.1
      → InstanceIsHeld d (after_reply platform conn is_dmabuf r).after
  unfolding after_reply
  after_reply_keeps conn is_dmabuf (threw, i) d h = h
  after_reply_keeps conn is_dmabuf (returned none, i) d h = h
  after_reply_keeps conn is_dmabuf (returned (some reply), i) d h =
      after_status_keeps conn is_dmabuf reply.status reply.text d i h

  after_send_keeps :
      (ops : Ops) (conn : RcConnection) (is_dmabuf : Bool) (r : Outcome Bool × Instance) (d : ℕ → ℕ)
      → CallbacksKeep ops
      → InstanceIsHeld d r.1
      → InstanceIsHeld d (after_send platform ops conn is_dmabuf r).after
  unfolding after_send
  after_send_keeps ops conn is_dmabuf (threw, i) d keep h = h
  after_send_keeps ops conn is_dmabuf (returned false, i) d keep h = h
  after_send_keeps ops conn is_dmabuf (returned true, i) d keep h =
      after_reply_keeps conn is_dmabuf _ d (receive_keeps ops reply_buf_len d i keep h)

  with_lease_keeps :
      (ops : Ops) (conn : RcConnection) (buf : BufEntry) (size : ℕ) (offset : ℤ) (d : ℕ → ℕ)
      (i : Instance)
      → CallbacksKeep ops
      → InstanceIsHeld d i
      → InstanceIsHeld d (with_lease platform ops conn buf size offset i).after
  unfolding with_lease
  with_lease_keeps ops conn buf size offset d i keep h =
      elim (Option-cases (build_rdma_token platform conn buf size offset)) [
        | inl e ↦ rw (with_lease, e) h
        | inr (token, e) ↦
            rw (with_lease, e)
              (after_send_keeps ops conn buf.is_dmabuf _ d keep (inject_keeps ops _ d i keep h))
      ]

  end_lease_keeps :
      (index : ℕ) (ending : Ending HipObjError) (connected : Bool) (d : ℕ → ℕ) (i : Instance)
      → InstanceIsHeld d i
      → InstanceIsHeld d (end_lease platform index ending connected i).1
  unfolding end_lease return_lease
  end_lease_keeps index pends connected d i h = h
  end_lease_keeps index throws connected d i h = h
  end_lease_keeps index (gives e) connected d i h = h

  after_acquire_keeps :
      (ops : Ops) (buf : BufEntry) (size : ℕ) (offset : ℤ) (a : Acquired) (d : ℕ → ℕ) (i : Instance)
      → CallbacksKeep ops
      → InstanceIsHeld d i
      → InstanceIsHeld d (after_acquire platform ops buf size offset a i).1
  unfolding after_acquire
  after_acquire_keeps ops buf size offset waits d i keep h = h
  after_acquire_keeps ops buf size offset (fails e) d i keep h = h
  after_acquire_keeps ops buf size offset (leases index pool) d i keep h =
      elim (Option-cases (slot pool index)) [
        | inl e ↦ rw (after_acquire, e) h
        | inr (conn, e) ↦
            rw (after_acquire, e)
              (end_lease_keeps index _ _ d _ (with_lease_keeps ops conn buf size offset d _ keep h))
      ]

  pub run_rdma_transfer_keeps :
      (ops : Ops) (buf : BufEntry) (size : ℕ) (offset : ℤ) (d : ℕ → ℕ) (i : Instance)
      → CallbacksKeep ops
      → InstanceIsHeld d i
      → InstanceIsHeld d (run_rdma_transfer platform ops buf size offset i).1
  unfolding run_rdma_transfer
  run_rdma_transfer_keeps ops buf size offset d i keep h =
      after_acquire_keeps ops buf size offset (acquire i.held i.pool) d i keep h
