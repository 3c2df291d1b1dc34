-- ===== src/Transport/Verbs.antt =====
-- src/common/ibv-wrapper.h: the interface `Verbs`, as far as connections use it. What stands behind
-- it is a parameter: any function of the calls made so far.
use hip_object.Prelude.{ℕ, Bool, false, Option, none, some, List, [], ◌∷◌, ◌==◌, if◌then◌else◌}
use hip_object.Gid.{Gid}

-- A C++ call returns or throws.
pub data Outcome {ℓ} (A : Type ℓ) : Type ℓ where
  returned : A → Outcome A
  threw : Outcome A

-- `ibv_qp_state`, the states that are used
pub data QpState : Type 0 where
  reset init rtr rts : QpState

-- `ibv_qp_attr_mask`, the members that are used
pub data QpAttrMask : Type 0 where
  state pkey_index port access_flags av path_mtu dest_qpn rq_psn max_dest_rd_atomic : QpAttrMask
  min_rnr_timer timeout retry_cnt rnr_retry sq_psn max_qp_rd_atomic : QpAttrMask

-- `ibv_qp_attr`, the members that are used, with `ah_attr` and its `grh` flattened
pub record QpAttr : Type 0 where
  pub qp_state : QpState
  pub path_mtu : ℕ
  pub qp_access_flags : ℕ
  pub pkey_index : ℕ
  pub port_num : ℕ
  pub dest_qp_num : ℕ
  pub rq_psn : ℕ
  pub sq_psn : ℕ
  pub max_rd_atomic : ℕ
  pub max_dest_rd_atomic : ℕ
  pub min_rnr_timer : ℕ
  pub timeout : ℕ
  pub retry_cnt : ℕ
  pub rnr_retry : ℕ
  pub is_global : ℕ
  pub dlid : ℕ
  pub sl : ℕ
  pub src_path_bits : ℕ
  pub ah_port_num : ℕ
  pub dgid : Gid
  pub flow_label : ℕ
  pub hop_limit : ℕ
  pub sgid_index : ℕ
  pub traffic_class : ℕ

-- `ibv_qp_init_attr`, the members that are used; both CQs are the connection's one.
pub record QpInitAttr : Type 0 where
  pub cq : ℕ
  pub max_send_wr : ℕ
  pub max_recv_wr : ℕ
  pub max_send_sge : ℕ
  pub max_recv_sge : ℕ

-- `ibv_cq`: which one it is, and how many completions it holds
pub record Cq : Type 0 where
  pub id : ℕ
  pub cqe : ℕ

-- `ibv_wc`; the status 0 is `IBV_WC_SUCCESS`.
pub record WorkCompletion : Type 0 where
  pub status : ℕ
  pub opcode : ℕ

-- What `poll_cq` for one completion returns: a negative number, 0, or 1 and the completion.
pub data Polled : Type 0 where
  failed : Polled
  empty : Polled
  one : WorkCompletion → Polled

-- A call, with its outcome.
pub data Event : Type 0 where
  created_cq : ℕ → Outcome (Option Cq) → Event
  created_qp : QpInitAttr → Outcome (Option ℕ) → Event
  modified_qp : ℕ → QpAttr → List QpAttrMask → Outcome ℕ → Event
  polled_cq : ℕ → Outcome Polled → Event
  destroyed_qp : ℕ → Event
  destroyed_cq : ℕ → Event

-- The calls made so far, the latest first.
abbrev pub Log : Type 0
Log = List Event

-- `modify_qp` returns 0, or the error's number.
pub record Verbs : Type 0 where
  pub create_cq : Log → ℕ → Outcome (Option Cq)
  pub create_qp : Log → QpInitAttr → Outcome (Option ℕ)
  pub modify_qp : Log → ℕ → QpAttr → List QpAttrMask → Outcome ℕ
  pub poll_cq : Log → ℕ → Outcome Polled

-- A CQ or a QP that has been created and not destroyed.
pub data Object : Type 0 where
  cq qp : ℕ → Object

abbrev same_object : Object → Object → Bool
same_object (cq a) (cq b) = a == b
same_object (cq a) (qp b) = false
same_object (qp a) (cq b) = false
same_object (qp a) (qp b) = a == b

abbrev pub remove_object : Object → List Object → List Object
remove_object o [] = []
remove_object o (x ∷ xs) = if same_object o x then xs else x ∷ remove_object o xs

-- The objects that the calls of a log leave alive, the youngest first.
abbrev pub alive : Log → List Object
alive [] = []
alive (created_cq n (returned (some c)) ∷ log) = cq c.id ∷ alive log
alive (created_qp a (returned (some q)) ∷ log) = qp q ∷ alive log
alive (destroyed_qp q ∷ log) = remove_object (qp q) (alive log)
alive (destroyed_cq c ∷ log) = remove_object (cq c) (alive log)
alive (e ∷ log) = alive log

-- The state that the latest `modify_qp` of a QP put it in; `none` when that call failed, which can
-- leave the QP in any state.
abbrev pub known_state : ℕ → Log → Option QpState
known_state q [] = none
known_state q (modified_qp p a m (returned n) ∷ log) =
    if p == q then (if n == 0 then some a.qp_state else none) else known_state q log
known_state q (modified_qp p a m threw ∷ log) = if p == q then none else known_state q log
known_state q (e ∷ log) = known_state q log
