-- ===== src/Api/Success.antt =====
-- src/hipobj.cpp and src/s3/control.cpp: what has been done when a transfer succeeds.
pub mod Transfer
pub mod Staging
pub mod Parts
pub mod Calls
use hip_object.Prelude.{
  ℕ, ◌+◌, ◌%◌, ◌^◌, ◌≤◌, ◌<◌, ◌≡◌, ◌⊎◌, refl, ap, sym, subst, inl, inr, Bool, true, false, not,
  Option, none, some, List, ◌==◌, leb, ltb, arith, Bool-cases, Option-cases, take, if◌then◌else◌,
  ◌++◌, replicate,
}
use hip_object.Prelude.Int.{ℤ, pos, pos_part}
use hip_object.Gid.{to_gid}
use hip_object.Token.{RdmaToken, rc, rdma_token_hex_len, encode_rdma_token_hex, encode_rdma_token}
use hip_object.Token.Reply.{
  RdmaReplyStatus, success, failed, not_supported, decode_rdma_reply, parse_peer_token_from_reply,
}
use hip_object.Transport.Verbs as TV
use hip_object.Transport.Verbs.{Outcome, returned, threw}
use hip_object.Transport.Connection.{RcConnection, Answer, connect_rc_peer}
use hip_object.Transport.Poll.{poll_completion}
use hip_object.Buffer.{BufEntry}
use hip_object.Pool.{Pool, Acquired, waits, fails, leases, acquire}
use hip_object.Pool.System.{slot}
use hip_object.Api.Errors.{OpError, HipObjError, is_success}
use hip_object.Api.Checks.{range_in_registration, range_in_registration_iff, acquire_error}
use hip_object.Api.Instance.{Ending, gives, throws, pends, Platform, Instance}
use hip_object.Api.Transfer.{
  Ops, Received, RdmaReply, reply_of, Leased, reply_buf_len, build_rdma_token, inject_rdma_token,
  receive_rdma_reply_raw, after_poll, wait_for_completion, after_connect,
  finish_transfer_after_reply, after_status, after_reply, after_send, with_lease, end_lease,
  after_acquire, run_rdma_transfer, sent, received, is_zero,
}

-- The call returned, and without an error.
abbrev pub succeeded : Ending HipObjError → Bool
succeeded (gives e) = is_success e.op_error
succeeded throws = false
succeeded pends = false

-- The peer of a reply, if it names one, is connected to, which leaves this log.
abbrev pub IsConnected : Platform → RcConnection → List ℕ → TV.Log → TV.Log → Type 0
IsConnected platform conn text before log =
    ((parse_peer_token_from_reply text ≡ none) × (log ≡ before))
    ⊎ ((peer : RdmaToken) × (parse_peer_token_from_reply text ≡ some peer)
        × (connect_rc_peer platform.verbs platform.build platform.device conn peer before
            ≡ (returned true, log)))

-- The wait for a completion has found one, or no evidence of failure; memory that the NIC wrote itself
-- has been synchronized.
abbrev pub IsCompleted : Platform → Bool → Instance → TV.Log → Type 0
IsCompleted platform is_dmabuf i log =
    (poll_completion none platform.poll_timeout (platform.poll_start log) (platform.poll_rounds log)
      ≡ some true)
    × (is_dmabuf ≡ true → platform.hip.device_synchronize i.hip_log ≡ true)

-- `recvReply` has been called, and left a reply that fits the buffer and says success.
abbrev pub IsReplied : Ops → Instance → List ℕ → Instance → Type 0
IsReplied ops i text j =
    (recv : (Instance → ℕ → Outcome Received × Instance)) × (r : Received) × (ops.recv_reply
      ≡ some recv)
    × ((recv i reply_buf_len).0 ≡ returned r)
    × (j ≡ (recv i reply_buf_len).1)
    × (is_zero r.code ≡ true)
    × (r.reply_len ≤ reply_buf_len)
    × (text ≡ take r.reply_len (take reply_buf_len (r.written ++ replicate reply_buf_len 0)))
    × (decode_rdma_reply text ≡ some success)

-- `sendRequest` has been called with the text, and answered 0.
abbrev pub IsSent : Ops → Instance → List ℕ → Instance → Type 0
IsSent ops i text j =
    (send : (Instance → List ℕ → Outcome ℤ × Instance)) × (code : ℤ) × (ops.send_request
      ≡ some send)
    × ((send i text).0 ≡ returned code)
    × (j ≡ (send i text).1)
    × (is_zero code ≡ true)

-- The answers of the parts that use the callbacks, without what was thrown.
abbrev pub said_yes : Outcome Bool → Bool
said_yes (returned b) = b
said_yes threw = false

abbrev pub reply_in : Outcome (Option RdmaReply) → Option RdmaReply
reply_in (returned o) = o
reply_in threw = none

module _ (platform : Platform) where
  after_poll_success :
      (is_dmabuf connected : Bool) (o : Option Bool) (i : Instance)
      → succeeded (after_poll platform is_dmabuf connected o i).ending ≡ true
      → (o ≡ some true) × (is_dmabuf ≡ true → platform.hip.device_synchronize i.hip_log ≡ true)
  unfolding after_poll
  after_poll_success is_dmabuf connected none i h = absurd (ground (arith, h))
  after_poll_success is_dmabuf connected (some false) i h = absurd (ground (arith, h))
  after_poll_success false connected (some true) i h = (refl, λ e. absurd (ground (arith, e)))
  after_poll_success true connected (some true) i h = (
    refl,
    λ e. elim (Bool-cases (platform.hip.device_synchronize i.hip_log)) [
      | inl ok ↦ ok
      | inr bad ↦ absurd (ground (arith, h, bad))
    ],
  )

  wait_success :
      (is_dmabuf connected : Bool) (i : Instance)
      → succeeded (wait_for_completion platform is_dmabuf connected i).ending ≡ true
      → IsCompleted platform is_dmabuf i i.verbs_log
  unfolding wait_for_completion
  wait_success is_dmabuf connected i h = after_poll_success is_dmabuf connected _ i h

  after_connect_success :
      (is_dmabuf : Bool) (a : Answer Bool) (i : Instance)
      → succeeded (after_connect platform is_dmabuf a i).ending ≡ true
      → (log : TV.Log) × (a ≡ (returned true, log)) × IsCompleted platform is_dmabuf i log
  unfolding after_connect
  after_connect_success is_dmabuf (returned true, log) i h =
      (log, refl, wait_success is_dmabuf true (record i { verbs_log = log }) h)
  after_connect_success is_dmabuf (returned false, log) i h = absurd (ground (arith, h))
  after_connect_success is_dmabuf (threw, log) i h = absurd (ground (arith, h))

  finish_success :
      (conn : RcConnection) (text : List ℕ) (is_dmabuf : Bool) (i : Instance)
      → succeeded (finish_transfer_after_reply platform conn text is_dmabuf i).ending ≡ true
      → (log : TV.Log) × IsConnected platform conn text i.verbs_log log
        × IsCompleted platform is_dmabuf i log
  unfolding finish_transfer_after_reply
  finish_success conn text is_dmabuf i h = elim (Option-cases (parse_peer_token_from_reply text)) [
    | inl e ↦ (
      i.verbs_log,
      inl (e, refl),
      wait_success is_dmabuf false i (rw (finish_transfer_after_reply, e) at h),
    )
    | inr (peer, e) ↦
        let (log, connects, completes) =
          after_connect_success is_dmabuf
            (connect_rc_peer platform.verbs platform.build platform.device conn peer i.verbs_log) i
            (rw (finish_transfer_after_reply, e) at h) in
        (log, inr (peer, e, connects), completes)
  ]

  after_status_success :
      (conn : RcConnection) (is_dmabuf : Bool) (status : RdmaReplyStatus) (text : List ℕ)
      (i : Instance)
      → succeeded (after_status platform conn is_dmabuf status text i).ending ≡ true
      → (status ≡ success)
        × ((log : TV.Log) × IsConnected platform conn text i.verbs_log log
            × IsCompleted platform is_dmabuf i log)
  unfolding after_status
  after_status_success conn is_dmabuf success text i h =
      (refl, finish_success conn text is_dmabuf i h)
  after_status_success conn is_dmabuf failed text i h = absurd (ground (arith, h))
  after_status_success conn is_dmabuf not_supported text i h = absurd (ground (arith, h))

  pub after_reply_success :
      (conn : RcConnection) (is_dmabuf : Bool) (r : Outcome (Option RdmaReply) × Instance)
      → succeeded (after_reply platform conn is_dmabuf r).ending ≡ true
      → (reply : RdmaReply) × (reply_in r.0 ≡ some reply)
        × (reply.status ≡ success)
        × ((log : TV.Log) × IsConnected platform conn reply.text r.1.verbs_log log
            × IsCompleted platform is_dmabuf r.1 log)
  unfolding after_reply
  after_reply_success conn is_dmabuf (threw, i) h = absurd (ground (arith, h))
  after_reply_success conn is_dmabuf (returned none, i) h = absurd (ground (arith, h))
  after_reply_success conn is_dmabuf (returned (some reply), i) h =
      let (e, rest) = after_status_success conn is_dmabuf reply.status reply.text i h in
      (reply, refl, e, rest)

  pub after_send_success :
      (ops : Ops) (conn : RcConnection) (is_dmabuf : Bool) (r : Outcome Bool × Instance)
      → succeeded (after_send platform ops conn is_dmabuf r).ending ≡ true
      → (said_yes r.0 ≡ true)
        × (succeeded
              (after_reply platform conn is_dmabuf
                (receive_rdma_reply_raw ops reply_buf_len r.1)).ending
            ≡ true)
  unfolding after_send
  after_send_success ops conn is_dmabuf (threw, i) h = absurd (ground (arith, h))
  after_send_success ops conn is_dmabuf (returned false, i) h = absurd (ground (arith, h))
  after_send_success ops conn is_dmabuf (returned true, i) h = (refl, h)

sent_success :
    (r : Outcome ℤ × Instance)
    → said_yes (sent r).0 ≡ true
    → (code : ℤ) × (r.0 ≡ returned code) × ((sent r).1 ≡ r.1) × (is_zero code ≡ true)
sent_success (threw, i) h = absurd (ground (arith, h))
sent_success (returned code, i) h = (code, refl, refl, h)

pub inject_success :
    (ops : Ops) (token : List ℕ) (i : Instance)
    → said_yes (inject_rdma_token ops token i).0 ≡ true
    → IsSent ops i token (inject_rdma_token ops token i).1
unfolding inject_rdma_token
inject_success ops token i h = elim (Option-cases ops.send_request) [
  | inl e ↦ absurd (ground (arith, e, h))
  | inr (send, e) ↦
      let (code, r, kept, ok) = sent_success (send i token) (rw (inject_rdma_token, e) at h) in
      (send, code, e, r, rw (inject_rdma_token, e) kept, ok)
]

some_same : {x : RdmaReply} (reply : RdmaReply) → some x ≡ some reply → x ≡ reply
some_same {x} reply h = ap (λ (o : Option RdmaReply). elim o [ none ↦ x | some y ↦ y ]) h

reply_of_success :
    (size : ℕ) (r : Received) (reply : RdmaReply)
    → reply_of size r ≡ some reply
    → (is_zero r.code ≡ true)
      × (r.reply_len ≤ size)
      × (reply.text ≡ take r.reply_len (take size (r.written ++ replicate size 0)))
      × (decode_rdma_reply reply.text ≡ some reply.status)
unfolding reply_of
reply_of_success size r reply h =
    let text = take r.reply_len (take size (r.written ++ replicate size 0)) in
    elim (Bool-cases (is_zero r.code)) [
      | inr bad ↦ absurd (ground (arith, h, bad))
      | inl ok ↦ elim (Bool-cases (ltb size r.reply_len)) [
        | inl long ↦ absurd (ground (arith, h, ok, long))
        | inr fits ↦ elim (Option-cases (decode_rdma_reply text)) [
          | inl none_there ↦ absurd (ground (arith, h, ok, fits, none_there))
          | inr (status, e) ↦
              let found = some_same reply (rw (reply_of, ok, fits, e) at h) in
              (
                ok,
                ground (arith, fits),
                sym (ap (λ (x : RdmaReply). x.text) found),
                subst (λ (x : RdmaReply). decode_rdma_reply x.text ≡ some x.status) found e,
              )
        ]
      ]
    ]

received_success :
    (size : ℕ) (r : Outcome Received × Instance) (reply : RdmaReply)
    → reply_in (received size r).0 ≡ some reply
    → (x : Received) × (r.0 ≡ returned x)
      × ((received size r).1 ≡ r.1)
      × (reply_of size x ≡ some reply)
received_success size (threw, i) reply h = absurd (ground (arith, h))
received_success size (returned x, i) reply h = (x, refl, refl, h)

pub receive_success :
    (ops : Ops) (i : Instance) (reply : RdmaReply)
    → reply_in (receive_rdma_reply_raw ops reply_buf_len i).0 ≡ some reply
    → reply.status ≡ success
    → IsReplied ops i reply.text (receive_rdma_reply_raw ops reply_buf_len i).1
unfolding receive_rdma_reply_raw
receive_success ops i reply h is_ok = elim (Option-cases ops.recv_reply) [
  | inl e ↦ absurd (ground (arith, e, h))
  | inr (recv, e) ↦
      let (r, gave, kept, made) =
        received_success reply_buf_len (recv i reply_buf_len) reply
          (rw (receive_rdma_reply_raw, e) at h) in
      let (ok, fits, text, decodes) = reply_of_success reply_buf_len r reply made in
      (
        recv,
        r,
        e,
        gave,
        rw (receive_rdma_reply_raw, e) kept,
        ok,
        fits,
        text,
        subst (λ status. decode_rdma_reply reply.text ≡ some status) is_ok decodes,
      )
]
