-- ===== src/Transport/Connection.antt =====
-- src/rdma/transport.cpp: creating, connecting and resetting a connection.
use hip_object.Prelude.{ℕ, zero, suc, Bool, true, false, Option, none, some, List, [], ◌∷◌, ◌==◌}
use hip_object.Gid.{Gid, to_ibv_gid}
use hip_object.Token.{RdmaToken, dc, rc}
use hip_object.Transport.Verbs.{
  Outcome, returned, threw, QpAttr, QpAttrMask, QpInitAttr, Cq, failed, empty, one, created_cq,
  created_qp, modified_qp, polled_cq, destroyed_qp, destroyed_cq, Log, Verbs,
}
use hip_object.Transport.Attrs.{
  RdmaDevice, Build, init_attr, init_mask, in_uint8, rtr_attr, rtr_mask, rts_attr, rts_mask,
  reset_attr,
}

-- The CQ and QP that a connection owns; its device is an argument of the operations.
pub record RcConnection : Type 0 where
  pub cq : Cq
  pub qp : ℕ

-- A call's outcome, and the log after it.
abbrev pub Answer : Type 0 → Type 0
Answer A = Outcome A × Log

-- The connection's destructor: its QP is destroyed before its CQ.
abbrev pub destroy_connection : RcConnection → Log → Log
destroy_connection conn log = destroyed_cq conn.cq.id ∷ destroyed_qp conn.qp ∷ log

-- `status == 0`
abbrev pub succeeded : Outcome ℕ → Outcome Bool
succeeded (returned status) = returned (status == 0)
succeeded threw = threw

-- Goes on if the step before returned true; it returns false or throws as that did.
abbrev pub and_then : Answer Bool → (Log → Answer Bool) → Answer Bool
and_then (returned true, log) next = next log
and_then (returned false, log) next = (returned false, log)
and_then (threw, log) next = (threw, log)

module _ (verbs : Verbs) (build : Build) (device : RdmaDevice) where
  -- `verbs.modify_qp(qp, &attr, mask) == 0`
  unfoldable pub modify : ℕ → QpAttr → List QpAttrMask → Log → Answer Bool
  modify qp attr mask log =
      let status = verbs.modify_qp log qp attr mask in
      (succeeded status, modified_qp qp attr mask status ∷ log)

  unfoldable pub transition_qp_to_init : ℕ → Log → Answer Bool
  unfolding modify
  transition_qp_to_init qp log = modify qp (init_attr device) init_mask log

  -- What is left of `createRcConnection` after the transition: a connection that could not be
  -- moved to INIT is destroyed.
  unfoldable pub created : RcConnection → Answer Bool → Answer (Option RcConnection)
  created conn (returned true, log) = (returned (some conn), log)
  created conn (returned false, log) = (returned none, destroy_connection conn log)
  created conn (threw, log) = (threw, destroy_connection conn log)

  -- What is left of `createRcConnection` after `create_qp`: without a QP the CQ is destroyed.
  unfoldable pub with_qp : Cq → Outcome (Option ℕ) → Log → Answer (Option RcConnection)
  unfolding created
  with_qp cq (returned (some qp)) log =
      created (record { cq = cq; qp = qp }) (transition_qp_to_init qp log)
  with_qp cq (returned none) log = (returned none, destroyed_cq cq.id ∷ log)
  with_qp cq threw log = (threw, destroyed_cq cq.id ∷ log)

  -- What is left of `createRcConnection` after `create_cq`.
  unfoldable pub with_cq : ℕ → ℕ → Outcome (Option Cq) → Log → Answer (Option RcConnection)
  unfolding with_qp
  with_cq max_send_wr max_recv_wr (returned (some cq)) log =
      let init_attr : QpInitAttr = record {
        cq = cq.id;
        max_send_wr = max_send_wr;
        max_recv_wr = max_recv_wr;
        max_send_sge = 1;
        max_recv_sge = 1;
      } in
      let qp = verbs.create_qp log init_attr in with_qp cq qp (created_qp init_attr qp ∷ log)
  with_cq max_send_wr max_recv_wr (returned none) log = (returned none, log)
  with_cq max_send_wr max_recv_wr threw log = (threw, log)

  unfoldable pub create_rc_connection : ℕ → ℕ → ℕ → Log → Answer (Option RcConnection)
  unfolding with_cq
  create_rc_connection cq_size max_send_wr max_recv_wr log =
      let cq = verbs.create_cq log cq_size in
      with_cq max_send_wr max_recv_wr cq (created_cq cq_size cq ∷ log)

  unfoldable pub transition_qp_to_rtr : RcConnection → ℕ → ℕ → Gid → Log → Answer Bool
  transition_qp_to_rtr conn dest_qp_num dest_lid dest_gid log = elim (in_uint8 device.gid_index) [
    | none ↦ (returned false, log)
    | some gid_index ↦
        modify conn.qp (rtr_attr build device gid_index dest_qp_num dest_lid dest_gid) rtr_mask log
  ]

  unfoldable pub transition_qp_to_rts : RcConnection → Log → Answer Bool
  transition_qp_to_rts conn log = modify conn.qp (rts_attr build device) rts_mask log

  unfoldable pub connect_rc_peer : RcConnection → RdmaToken → Log → Answer Bool
  connect_rc_peer conn peer_token log = elim peer_token.transport [
    | dc ↦ (returned false, log)
    | rc ↦
        and_then
          (transition_qp_to_rtr conn peer_token.qp_num peer_token.lid (to_ibv_gid peer_token.gid)
            log)
          (transition_qp_to_rts conn)
  ]

  unfoldable pub transition_qp_to_reset : RcConnection → Log → Answer Bool
  transition_qp_to_reset conn log = modify conn.qp reset_attr (QpAttrMask.state ∷ []) log

  -- The loop of `drainCompletions`, with `left` polls to go.
  unfoldable pub drain : ℕ → ℕ → Log → Answer Bool
  drain cq zero log = (returned true, log)
  drain cq (suc left) log =
      let poll = verbs.poll_cq log cq in
      let log' = polled_cq cq poll ∷ log in
      elim poll [
        | threw ↦ (threw, log')
        | returned failed ↦ (returned false, log')
        | returned empty ↦ (returned true, log')
        | returned (one wc) ↦ drain cq left log'
      ]

  unfoldable pub drain_completions : RcConnection → Log → Answer Bool
  drain_completions conn log = drain conn.cq.id conn.cq.cqe log

  unfoldable pub reset_rc_connection : RcConnection → Log → Answer Bool
  reset_rc_connection conn log =
      and_then (and_then (transition_qp_to_reset conn log) (drain_completions conn))
        (transition_qp_to_init conn.qp)
