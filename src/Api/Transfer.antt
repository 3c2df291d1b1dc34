-- ===== src/Api/Transfer.antt =====
-- src/hipobj.cpp and src/s3/control.cpp: one RDMA transfer, with the callbacks that send the token and
-- receive the reply.
use hip_object.Prelude.{
  ℕ, ◌+◌, ◌-◌, ◌%◌, ◌^◌, Bool, true, false, not, Option, none, some, List, ◌∷◌, ◌++◌, ◌==◌, ltb,
  if◌then◌else◌, take, replicate, set,
}
use hip_object.Prelude.Int.{ℤ, pos, negsuc, pos_part}
use hip_object.Gid.{to_gid}
use hip_object.Token.{RdmaToken, rc, encode_rdma_token_hex, rdma_token_hex_len}
use hip_object.Token.Reply.{
  RdmaReplyStatus, success, failed, not_supported, decode_rdma_reply, parse_peer_token_from_reply,
}
use hip_object.Transport.Verbs.{Outcome, returned, threw}
use hip_object.Transport.Connection.{RcConnection, Answer, connect_rc_peer}
use hip_object.Transport.Poll.{poll_completion}
use hip_object.Buffer.{BufEntry}
use hip_object.Pool.{Acquired, waits, fails, leases, acquire, put_back, restore_if}
use hip_object.Pool.System.{slot}
use hip_object.Api.Errors.{OpError, HipObjError, make_error}
use hip_object.Api.Checks.{range_in_registration, acquire_error}
use hip_object.Api.Instance.{Ending, gives, throws, pends, synchronized, Platform, Instance, Step}

-- What `recvReply` leaves: its result, the bytes that it wrote to the start of the buffer, and the
-- length that it reports.
pub record Received : Type 0 where
  pub code : ℤ
  pub written : List ℕ
  pub reply_len : ℕ

-- `hipObjOps_t`, with its context: none for a null pointer. A callback can call any public function,
-- and run while other threads do, so it can change the instance; it returns or throws.
pub record Ops : Type 0 where
  pub send_request : Option (Instance → List ℕ → Outcome ℤ × Instance)
  pub recv_reply : Option (Instance → ℕ → Outcome Received × Instance)

abbrev pub reply_buf_len : ℕ
reply_buf_len = 512

abbrev pub is_zero : ℤ → Bool
is_zero (pos n) = n == 0
is_zero (negsuc n) = false

-- The token of a range of a registration; the region of an entry is never null.
unfoldable pub build_rdma_token : Platform → RcConnection → BufEntry → ℕ → ℤ → Option RdmaToken
unfolding range_in_registration
build_rdma_token platform conn buf size offset =
    if range_in_registration offset size buf.size
    then some (record {
      qp_num = platform.qp_num conn.qp;
      gid = to_gid platform.device.local_gid;
      rkey = platform.rkey buf.mr;
      remote_addr = (buf.remote_addr + pos_part offset) % 2 ^ 64;
      len = size;
      transport = rc;
      port_num = platform.device.port_num;
      lid = 0;
    })
    else none

abbrev pub sent : Outcome ℤ × Instance → Outcome Bool × Instance
sent (returned code, i) = (returned (is_zero code), i)
sent (threw, i) = (threw, i)

unfoldable pub inject_rdma_token : Ops → List ℕ → Instance → Outcome Bool × Instance
inject_rdma_token ops token i = elim ops.send_request [
  | none ↦ (returned false, i)
  | some send ↦ sent (send i token)
]

pub record RdmaReply : Type 0 where
  pub text : List ℕ
  pub status : RdmaReplyStatus

-- The part of `receiveRdmaReplyRaw` after the callback. The buffer was zeroed.
unfoldable pub reply_of : ℕ → Received → Option RdmaReply
reply_of size r =
    let buffer = take size (r.written ++ replicate size 0) in
    let text = take r.reply_len buffer in
    if not (is_zero r.code)
    then none
    else if ltb size r.reply_len
    then none
    else elim (decode_rdma_reply text) [
      | none ↦ none
      | some status ↦ some (record { text = text; status = status })
    ]

abbrev pub received : ℕ → Outcome Received × Instance → Outcome (Option RdmaReply) × Instance
received size (returned r, i) = (returned (reply_of size r), i)
received size (threw, i) = (threw, i)

unfoldable pub receive_rdma_reply_raw : Ops → ℕ → Instance → Outcome (Option RdmaReply) × Instance
unfolding reply_of
receive_rdma_reply_raw ops size i = elim ops.recv_reply [
  | none ↦ (returned none, i)
  | some recv ↦ if size == 0 then (returned none, i) else received size (recv i size)
]

-- Where a transfer with a lease stands: its ending, and whether `connect` was called.
pub record Leased : Type 0 where
  pub ending : Ending HipObjError
  pub connected : Bool
  pub after : Instance

abbrev pub leased_with : OpError → Bool → Instance → Leased
leased_with e connected i = record {
  ending = gives (make_error e);
  connected = connected;
  after = i;
}

module _ (platform : Platform) where
  -- The part of `finishTransferAfterReply` after the wait for a completion.
  unfoldable pub after_poll : Bool → Bool → Option Bool → Instance → Leased
  after_poll is_dmabuf connected none i = record {
    ending = pends;
    connected = connected;
    after = i;
  }
  after_poll is_dmabuf connected (some false) i = leased_with OpError.rdma_error connected i
  after_poll false connected (some true) i = leased_with OpError.success connected i
  after_poll true connected (some true) i =
      let ok = platform.hip.device_synchronize i.hip_log in
      leased_with (if ok then OpError.success else OpError.rdma_error) connected
        (record i { hip_log = synchronized ok ∷ i.hip_log })

  unfoldable pub wait_for_completion : Bool → Bool → Instance → Leased
  unfolding after_poll
  wait_for_completion is_dmabuf connected i =
      after_poll is_dmabuf connected
        (poll_completion none platform.poll_timeout (platform.poll_start i.verbs_log)
          (platform.poll_rounds i.verbs_log))
        i

  -- The part of `finishTransferAfterReply` after `connect`.
  unfoldable pub after_connect : Bool → Answer Bool → Instance → Leased
  unfolding wait_for_completion
  after_connect is_dmabuf (returned true, log) i =
      wait_for_completion is_dmabuf true (record i { verbs_log = log })
  after_connect is_dmabuf (returned false, log) i =
      leased_with OpError.rdma_error true (record i { verbs_log = log })
  after_connect is_dmabuf (threw, log) i = record {
    ending = throws;
    connected = true;
    after = record i { verbs_log = log };
  }

  unfoldable pub finish_transfer_after_reply : RcConnection → List ℕ → Bool → Instance → Leased
  unfolding after_connect
  finish_transfer_after_reply conn reply is_dmabuf i = elim (parse_peer_token_from_reply reply) [
    | none ↦ wait_for_completion is_dmabuf false i
    | some peer ↦
        after_connect is_dmabuf
          (connect_rc_peer platform.verbs platform.build platform.device conn peer i.verbs_log) i
  ]

  -- The part of `runRdmaTransfer` after a reply with this status.
  unfoldable pub after_status : RcConnection → Bool → RdmaReplyStatus → List ℕ → Instance → Leased
  unfolding finish_transfer_after_reply
  after_status conn is_dmabuf success text i = finish_transfer_after_reply conn text is_dmabuf i
  after_status conn is_dmabuf failed text i = leased_with OpError.s3_error false i
  after_status conn is_dmabuf not_supported text i = leased_with OpError.s3_error false i

  -- The part of `runRdmaTransfer` after the reply.
  unfoldable pub after_reply : RcConnection → Bool → Outcome (Option RdmaReply) × Instance → Leased
  unfolding after_status
  after_reply conn is_dmabuf (threw, i) = record { ending = throws; connected = false; after = i }
  after_reply conn is_dmabuf (returned none, i) = leased_with OpError.s3_error false i
  after_reply conn is_dmabuf (returned (some reply), i) =
      after_status conn is_dmabuf reply.status reply.text i

  -- The part of `runRdmaTransfer` after the token has been sent.
  unfoldable pub after_send : Ops → RcConnection → Bool → Outcome Bool × Instance → Leased
  unfolding after_reply receive_rdma_reply_raw
  after_send ops conn is_dmabuf (threw, i) = record {
    ending = throws;
    connected = false;
    after = i;
  }
  after_send ops conn is_dmabuf (returned false, i) = leased_with OpError.s3_error false i
  after_send ops conn is_dmabuf (returned true, i) =
      after_reply conn is_dmabuf (receive_rdma_reply_raw ops reply_buf_len i)

  -- The part of `runRdmaTransfer` with the lease, whose connection is `conn`.
  unfoldable pub with_lease : Ops → RcConnection → BufEntry → ℕ → ℤ → Instance → Leased
  unfolding after_send build_rdma_token inject_rdma_token
  with_lease ops conn buf size offset i = elim (build_rdma_token platform conn buf size offset) [
    | none ↦ leased_with OpError.rdma_error false i
    | some token ↦
        after_send ops conn buf.is_dmabuf
          (inject_rdma_token ops (take rdma_token_hex_len (encode_rdma_token_hex token)) i)
  ]

  -- The destructor of the lease: what `release` does to the slot and to the pool.
  unfoldable pub return_lease : ℕ → Bool → Instance → Instance
  unfolding restore_if put_back
  return_lease index connected i =
      let r =
        restore_if platform.verbs platform.build platform.device connected (slot i.pool index)
          i.verbs_log in
      let pool = record i.pool { slots = set i.pool.slots index r.slot } in
      record i { pool = put_back index r.usable pool; verbs_log = r.log; held = i.held - 1 }

  -- The end of the lease, unless the call still waits.
  unfoldable pub end_lease :
      ℕ → Ending HipObjError → Bool → Instance → Ending HipObjError × Instance
  unfolding return_lease
  end_lease index pends connected i = (pends, i)
  end_lease index throws connected i = (throws, return_lease index connected i)
  end_lease index (gives e) connected i = (gives e, return_lease index connected i)

  -- The part of `runRdmaTransfer` after `acquire`. A lease of an empty slot, which
  -- `Reachable-IsExclusive` excludes, has no connection, and ends here.
  unfoldable pub after_acquire : Ops → BufEntry → ℕ → ℤ → Acquired → Step
  unfolding with_lease end_lease
  after_acquire ops buf size offset waits i = (pends, i)
  after_acquire ops buf size offset (fails e) i = (gives (acquire_error e), i)
  after_acquire ops buf size offset (leases index pool) i =
      let j = record i { pool = pool; held = i.held + 1 } in
      elim (slot pool index) [
        | none ↦ (pends, j)
        | some conn ↦
            let l = with_lease ops conn buf size offset j in
            end_lease index l.ending l.connected l.after
      ]

  unfoldable pub run_rdma_transfer : Ops → BufEntry → ℕ → ℤ → Step
  unfolding after_acquire acquire
  run_rdma_transfer ops buf size offset i =
      after_acquire ops buf size offset (acquire i.held i.pool) i
