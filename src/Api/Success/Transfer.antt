-- ===== src/Api/Success/Transfer.antt =====
-- src/hipobj.cpp: what a transfer that succeeds has done.
use hip_object.Prelude.{
  ℕ, ◌+◌, ◌%◌, ◌^◌, ◌≤◌, ◌≡◌, refl, ap, sym, subst, inl, inr, Bool, true, Option, none, some, List,
  arith, Bool-cases, Option-cases, take,
}
use hip_object.Prelude.Int.{ℤ, pos, pos_part}
use hip_object.Gid.{to_gid}
use hip_object.Token.{RdmaToken, rc, rdma_token_hex_len, encode_rdma_token_hex}
use hip_object.Transport.Verbs as TV
use hip_object.Transport.Verbs.{Outcome, returned, threw}
use hip_object.Transport.Connection.{RcConnection}
use hip_object.Buffer.{BufEntry}
use hip_object.Pool.{Pool, AcquireError, Acquired, waits, fails, leases, acquire}
use hip_object.Pool.System.{slot}
use hip_object.Api.Errors.{HipObjError}
use hip_object.Api.Checks.{range_in_registration, range_in_registration_iff, acquire_error}
use hip_object.Api.Instance.{Ending, gives, throws, pends, Platform, Instance}
use hip_object.Api.Transfer.{
  Ops, reply_buf_len, build_rdma_token, inject_rdma_token, receive_rdma_reply_raw, with_lease,
  end_lease, after_acquire, run_rdma_transfer,
}
use hip_object.Api.Success.{
  succeeded, IsConnected, IsCompleted, IsReplied, IsSent, after_send_success, after_reply_success,
  inject_success, receive_success,
}

-- What has been done when a transfer of a range of a registration succeeds. A connection was leased;
-- the text of a token of exactly that range, on the connection's queue pair, was sent; a reply that
-- says success was received; the peer that it names, if any, was connected to; and the wait for a
-- completion has found no failure.
pub record IsTransferred (platform : Platform) (ops : Ops) (buf : BufEntry) (size : ℕ) (offset : ℤ)
    (i : Instance) : Type 0 where
  pub index : ℕ
  pub pool : Pool
  pub conn : RcConnection
  pub start : ℕ
  pub is_leased : acquire i.held i.pool ≡ leases index pool
  pub is_there : slot pool index ≡ some conn
  pub is_start : offset ≡ pos start
  pub fits : start + size ≤ buf.size
  pub token : RdmaToken
  pub is_token : token ≡ record {
    qp_num = platform.qp_num conn.qp;
    gid = to_gid platform.device.local_gid;
    rkey = platform.rkey buf.mr;
    remote_addr = (buf.remote_addr + start) % 2 ^ 64;
    len = size;
    transport = rc;
    port_num = platform.device.port_num;
    lid = 0;
  }
  pub after_send : Instance
  pub is_sent :
      IsSent ops
        (record i { pool = pool; held = i.held + 1 })
        (take rdma_token_hex_len (encode_rdma_token_hex token))
        after_send
  pub text : List ℕ
  pub after_reply : Instance
  pub is_replied : IsReplied ops after_send text after_reply
  pub log : TV.Log
  pub is_connected : IsConnected platform conn text after_reply.verbs_log log
  pub is_completed : IsCompleted platform buf.is_dmabuf after_reply log

built :
    (platform : Platform) (conn : RcConnection) (buf : BufEntry) (size : ℕ) (offset : ℤ)
    (token : RdmaToken)
    → build_rdma_token platform conn buf size offset ≡ some token
    → (start : ℕ) × (offset ≡ pos start)
      × (start + size ≤ buf.size)
      × (token ≡ record {
        qp_num = platform.qp_num conn.qp;
        gid = to_gid platform.device.local_gid;
        rkey = platform.rkey buf.mr;
        remote_addr = (buf.remote_addr + start) % 2 ^ 64;
        len = size;
        transport = rc;
        port_num = platform.device.port_num;
        lid = 0;
      })
unfolding build_rdma_token
built platform conn buf size offset token h =
    elim (Bool-cases (range_in_registration offset size buf.size)) [
      | inr out ↦ absurd (ground (arith, h, out))
      | inl inside ↦
          let (start, is_start, fits) = (range_in_registration_iff offset size buf.size).0 inside in
          (
            start,
            is_start,
            fits,
            sym (
                subst
                  (λ n.
                    record {
                      qp_num = platform.qp_num conn.qp;
                      gid = to_gid platform.device.local_gid;
                      rkey = platform.rkey buf.mr;
                      remote_addr = (buf.remote_addr + n) % 2 ^ 64;
                      len = size;
                      transport = rc;
                      port_num = platform.device.port_num;
                      lid = 0;
                    }
                    ≡ token)
                  (ap pos_part is_start)
                  (ap (λ (o : Option RdmaToken). elim o [ none ↦ token | some x ↦ x ])
                    (rw (build_rdma_token, inside) at h))),
          )
    ]

end_lease_success :
    (platform : Platform) (index : ℕ) (ending : Ending HipObjError) (connected : Bool)
    (i : Instance)
    → succeeded (end_lease platform index ending connected i).0 ≡ true
    → succeeded ending ≡ true
unfolding end_lease
end_lease_success platform index pends connected i h = h
end_lease_success platform index throws connected i h = h
end_lease_success platform index (gives e) connected i h = h

with_lease_success :
    (platform : Platform) (ops : Ops) (buf : BufEntry) (size : ℕ) (offset : ℤ) (i : Instance)
    (index : ℕ) (pool : Pool) (conn : RcConnection)
    → acquire i.held i.pool ≡ leases index pool
    → slot pool index ≡ some conn
    → succeeded
        (with_lease platform ops conn buf size offset
          (record i { pool = pool; held = i.held + 1 })).ending
      ≡ true
    → IsTransferred platform ops buf size offset i
unfolding with_lease
with_lease_success platform ops buf size offset i index pool conn leased there h =
    let j = record i { pool = pool; held = i.held + 1 } in
    elim (Option-cases (build_rdma_token platform conn buf size offset)) [
      | inl e ↦ absurd (ground (arith, rw (with_lease, e) at h))
      | inr (token, e) ↦
          let (start, is_start, fits, is_token) = built platform conn buf size offset token e in
          let text = take rdma_token_hex_len (encode_rdma_token_hex token) in
          let r = inject_rdma_token ops text j in
          let (agreed, later) =
            after_send_success platform ops conn buf.is_dmabuf r (rw (with_lease, e) at h) in
          let q = receive_rdma_reply_raw ops reply_buf_len r.1 in
          let (reply, got, says, (log, connects, completes)) =
            after_reply_success platform conn buf.is_dmabuf q later in
          record {
            index = index;
            pool = pool;
            conn = conn;
            start = start;
            is_leased = leased;
            is_there = there;
            is_start = is_start;
            fits = fits;
            token = token;
            is_token = is_token;
            after_send = r.1;
            is_sent = inject_success ops text j agreed;
            text = reply.text;
            after_reply = q.1;
            is_replied = receive_success ops r.1 reply got says;
            log = log;
            is_connected = connects;
            is_completed = completes;
          }
    ]

after_acquire_success :
    (platform : Platform) (ops : Ops) (buf : BufEntry) (size : ℕ) (offset : ℤ) (a : Acquired)
    (i : Instance)
    → acquire i.held i.pool ≡ a
    → succeeded (after_acquire platform ops buf size offset a i).0 ≡ true
    → IsTransferred platform ops buf size offset i
unfolding after_acquire acquire_error
after_acquire_success platform ops buf size offset waits i e h = absurd (ground (arith, h))
after_acquire_success platform ops buf size offset (fails AcquireError.closed) i e h =
    absurd (ground (arith, h))
after_acquire_success platform ops buf size offset (fails AcquireError.busy) i e h =
    absurd (ground (arith, h))
after_acquire_success platform ops buf size offset (fails AcquireError.no_connections) i e h =
    absurd (ground (arith, h))
after_acquire_success platform ops buf size offset (leases index pool) i e h =
    elim (Option-cases (slot pool index)) [
      | inl absent ↦ absurd (ground (arith, rw (after_acquire, absent) at h))
      | inr (conn, there) ↦
          let j = record i { pool = pool; held = i.held + 1 } in
          let l = with_lease platform ops conn buf size offset j in
          with_lease_success platform ops buf size offset i index pool conn e there (
            end_lease_success platform index l.ending l.connected l.after
              (rw (after_acquire, there) at h))
    ]

pub run_rdma_transfer-IsTransferred :
    (platform : Platform) (ops : Ops) (buf : BufEntry) (size : ℕ) (offset : ℤ) (i : Instance)
    → succeeded (run_rdma_transfer platform ops buf size offset i).0 ≡ true
    → IsTransferred platform ops buf size offset i
unfolding run_rdma_transfer
run_rdma_transfer-IsTransferred platform ops buf size offset i h =
    after_acquire_success platform ops buf size offset (acquire i.held i.pool) i refl h
