-- ===== src/Transport/Attrs.antt =====
-- src/rdma/transport.cpp: the attributes of the transitions, and the vendors' changes to them.
use hip_object.Prelude.{
  ℕ, ◌+◌, Bool, ◌&&◌, Option, none, some, List, [], ◌∷◌, ◌==◌, if◌then◌else◌, leb, replicate,
}
use hip_object.Prelude.Int.{ℤ, pos, negsuc}
use hip_object.Gid.{Gid, gid_len}
use hip_object.Transport.Verbs.{QpAttr, QpAttrMask, QpState}

-- An open device, as far as connections read it. `vendor_id` is none if it could not be queried.
pub record RdmaDevice : Type 0 where
  pub port_num : ℕ
  pub gid_index : ℤ
  pub local_gid : Gid
  pub vendor_id : Option ℕ

-- Which of `HIPOBJ_BNXT` and `HIPOBJ_IONIC` the build sets.
pub record Build : Type 0 where
  pub bnxt : Bool
  pub ionic : Bool

abbrev pub ibv_mtu_4096 : ℕ
ibv_mtu_4096 = 5

-- `IBV_ACCESS_REMOTE_READ | IBV_ACCESS_REMOTE_WRITE`
abbrev pub remote_access : ℕ
remote_access = 4 + 2

abbrev pub vendor_id_broadcom : ℕ
vendor_id_broadcom = 0x14e4

abbrev pub vendor_id_pensando : ℕ
vendor_id_pensando = 0x1dd8

abbrev pub qp_timeout : ℕ
qp_timeout = 14

abbrev pub qp_retry_count : ℕ
qp_retry_count = 7

abbrev pub qp_rnr_retry : ℕ
qp_rnr_retry = 7

abbrev pub min_rnr_timer : ℕ
min_rnr_timer = 12

abbrev pub hop_limit : ℕ
hop_limit = 64

-- `zeroedObject<ibv_qp_attr>()`; the state 0 is `IBV_QPS_RESET`.
abbrev pub zeroed_attr : QpAttr
zeroed_attr = record {
  qp_state = QpState.reset;
  path_mtu = 0;
  qp_access_flags = 0;
  pkey_index = 0;
  port_num = 0;
  dest_qp_num = 0;
  rq_psn = 0;
  sq_psn = 0;
  max_rd_atomic = 0;
  max_dest_rd_atomic = 0;
  min_rnr_timer = 0;
  timeout = 0;
  retry_cnt = 0;
  rnr_retry = 0;
  is_global = 0;
  dlid = 0;
  sl = 0;
  src_path_bits = 0;
  ah_port_num = 0;
  dgid = replicate gid_len 0;
  flow_label = 0;
  hop_limit = 0;
  sgid_index = 0;
  traffic_class = 0;
}

-- `configureBnxtQp`
abbrev pub configure_bnxt_qp : QpAttr → QpAttr
configure_bnxt_qp attr = record attr {
  path_mtu = ibv_mtu_4096;
  timeout = qp_timeout;
  retry_cnt = qp_retry_count;
  rnr_retry = qp_rnr_retry;
}

-- `configureIonicQp`
abbrev pub configure_ionic_qp : QpAttr → QpAttr
configure_ionic_qp attr = record attr {
  path_mtu = ibv_mtu_4096;
  timeout = qp_timeout;
  retry_cnt = qp_retry_count;
  rnr_retry = qp_rnr_retry;
}

abbrev pub is_bnxt_device : ℕ → Bool
is_bnxt_device vendor_id = vendor_id == vendor_id_broadcom

abbrev pub is_ionic_device : ℕ → Bool
is_ionic_device vendor_id = vendor_id == vendor_id_pensando

unfoldable pub apply_vendor_qp_attrs : Build → RdmaDevice → QpAttr → QpAttr
apply_vendor_qp_attrs build device attr = elim device.vendor_id [
  | none ↦ attr
  | some vendor_id ↦
      let attr1 = if build.bnxt && is_bnxt_device vendor_id then configure_bnxt_qp attr else attr in
      if build.ionic && is_ionic_device vendor_id then configure_ionic_qp attr1 else attr1
]

unfoldable pub init_attr : RdmaDevice → QpAttr
init_attr device = record zeroed_attr {
  qp_state = QpState.init;
  pkey_index = 0;
  port_num = device.port_num;
  qp_access_flags = remote_access;
}

abbrev pub init_mask : List QpAttrMask
init_mask =
    QpAttrMask.state ∷ QpAttrMask.pkey_index ∷ QpAttrMask.port ∷ QpAttrMask.access_flags ∷ []

-- `std::in_range<uint8_t>`, with the value where it holds
abbrev pub in_uint8 : ℤ → Option ℕ
in_uint8 (pos n) = if leb n 255 then some n else none
in_uint8 (negsuc n) = none

-- The attributes of the transition to RTR, for a GID index that fits a `uint8_t`.
unfoldable pub rtr_attr : Build → RdmaDevice → ℕ → ℕ → ℕ → Gid → QpAttr
rtr_attr build device gid_index dest_qp_num dest_lid dest_gid =
    let attr0 = record zeroed_attr { qp_state = QpState.rtr; path_mtu = ibv_mtu_4096 } in
    let attr1 = apply_vendor_qp_attrs build device attr0 in
    record attr1 {
      dest_qp_num = dest_qp_num;
      rq_psn = 0;
      max_dest_rd_atomic = 1;
      min_rnr_timer = min_rnr_timer;
      is_global = 1;
      dlid = dest_lid;
      sl = 0;
      src_path_bits = 0;
      ah_port_num = device.port_num;
      dgid = dest_gid;
      flow_label = 0;
      hop_limit = hop_limit;
      sgid_index = gid_index;
      traffic_class = 0;
    }

abbrev pub rtr_mask : List QpAttrMask
rtr_mask =
    QpAttrMask.state ∷ QpAttrMask.av ∷ QpAttrMask.path_mtu ∷ QpAttrMask.dest_qpn ∷ QpAttrMask.rq_psn
    ∷ QpAttrMask.max_dest_rd_atomic ∷ QpAttrMask.min_rnr_timer ∷ []

unfoldable pub rts_attr : Build → RdmaDevice → QpAttr
rts_attr build device =
    let attr0 = record zeroed_attr { qp_state = QpState.rts } in
    let attr1 = apply_vendor_qp_attrs build device attr0 in
    record attr1 {
      timeout = qp_timeout;
      retry_cnt = qp_retry_count;
      rnr_retry = qp_rnr_retry;
      sq_psn = 0;
      max_rd_atomic = 1;
    }

abbrev pub rts_mask : List QpAttrMask
rts_mask =
    QpAttrMask.state ∷ QpAttrMask.timeout ∷ QpAttrMask.retry_cnt ∷ QpAttrMask.rnr_retry
    ∷ QpAttrMask.sq_psn ∷ QpAttrMask.max_qp_rd_atomic ∷ []

abbrev pub reset_attr : QpAttr
reset_attr = record zeroed_attr { qp_state = QpState.reset }
