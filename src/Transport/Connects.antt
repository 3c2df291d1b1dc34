-- ===== src/Transport/Connects.antt =====
-- src/rdma/transport.cpp: what a connect to a peer has done.
use hip_object.Prelude.{
  ℕ, zero, suc, ◌≤◌, ◌≡◌, ◌&&◌, leb, if_elim, [], Bool-cases, refl, ap, Bool, true, false, Option,
  none, some, List, ◌∷◌, ◌⊎◌, inl, inr, arith, Option-cases,
}
use hip_object.Prelude.Int.{ℤ, pos, negsuc}
use hip_object.Token.{RdmaToken, TransportType, dc, rc}
use hip_object.Transport.Verbs.{
  Outcome, returned, threw, QpState, QpAttr, QpAttrMask, modified_qp, Log, Verbs,
}
use hip_object.Transport.Attrs.{
  RdmaDevice, Build, in_uint8, rtr_attr, rtr_mask, rts_attr, rts_mask, zeroed_attr,
  apply_vendor_qp_attrs, is_ionic_device, is_bnxt_device, configure_ionic_qp,
}
use hip_object.Transport.Connection.{
  RcConnection, Answer, modify, succeeded, and_then, transition_qp_to_rtr, transition_qp_to_rts,
  connect_rc_peer,
}

transport_cases : (t : TransportType) → (t ≡ dc) ⊎ (t ≡ rc)
transport_cases dc = inl refl
transport_cases rc = inr refl

second_call :
    (q : ℕ) (a : QpAttr) (m : List QpAttrMask) (log log' : Log) (o : Outcome ℕ)
    → ◌≡◌ {A = Answer Bool} (succeeded o, modified_qp q a m o ∷ log) (returned true, log')
    → log' ≡ modified_qp q a m (returned 0) ∷ log
second_call q a m log log' (returned zero) h = ground arith
second_call q a m log log' (returned (suc n)) h = absurd (ground arith)
second_call q a m log log' threw h = absurd (ground arith)

-- Two calls of `modify_qp` in a row that return true have both returned 0.
two_calls :
    (q : ℕ) (a1 a2 : QpAttr) (m1 m2 : List QpAttrMask) (log log' : Log) (o : Outcome ℕ)
    (answer : Log → Outcome ℕ)
    → and_then
        (succeeded o, modified_qp q a1 m1 o ∷ log)
        (λ l. (succeeded (answer l), modified_qp q a2 m2 (answer l) ∷ l))
      ≡ (returned true, log')
    → log' ≡ modified_qp q a2 m2 (returned 0) ∷ modified_qp q a1 m1 (returned 0) ∷ log
two_calls q a1 a2 m1 m2 log log' (returned zero) answer h = second_call q a2 m2 _ log' (answer _) h
two_calls q a1 a2 m1 m2 log log' (returned (suc n)) answer h = absurd (ground arith)
two_calls q a1 a2 m1 m2 log log' threw answer h = absurd (ground arith)

module _ (verbs : Verbs) (build : Build) (device : RdmaDevice) where
  -- The attributes of a transition to RTR, with the path to a peer, from the GID with index `g`.
  abbrev pub LeadsTo : RdmaToken → ℕ → QpAttr → Type 0
  LeadsTo peer g attr =
      (attr.qp_state ≡ QpState.rtr)
      × (attr.dest_qp_num ≡ peer.qp_num)
      × (attr.dlid ≡ peer.lid)
      × (attr.dgid ≡ peer.gid)
      × (attr.sgid_index ≡ g)
      × (attr.is_global ≡ 1)
      × (attr.ah_port_num ≡ device.port_num)
      × (attr.path_mtu ≡ 5)

  -- The two calls that connect to a peer, on a device whose GID index is `g`, which fits a byte.
  abbrev pub Connects : RcConnection → RdmaToken → Log → Log → ℕ → Type 0
  Connects conn peer log log' g =
      (peer.transport ≡ rc)
      × (device.gid_index ≡ pos g)
      × (g ≤ 255)
      × ((rtr rts : QpAttr) × LeadsTo peer g rtr
          × (rts.qp_state ≡ QpState.rts)
          × (log'
              ≡ modified_qp conn.qp rts
                  (QpAttrMask.state ∷ QpAttrMask.timeout ∷ QpAttrMask.retry_cnt
                    ∷ QpAttrMask.rnr_retry ∷ QpAttrMask.sq_psn ∷ QpAttrMask.max_qp_rd_atomic ∷ [])
                  (returned 0)
                ∷ modified_qp conn.qp rtr
                    (QpAttrMask.state ∷ QpAttrMask.av ∷ QpAttrMask.path_mtu ∷ QpAttrMask.dest_qpn
                      ∷ QpAttrMask.rq_psn ∷ QpAttrMask.max_dest_rd_atomic ∷ QpAttrMask.min_rnr_timer
                      ∷ [])
                    (returned 0)
                ∷ log))

  -- The vendors' changes keep the state and a path MTU of 4096 bytes.
  apply_vendor_keeps :
      (attr : QpAttr)
      → ((apply_vendor_qp_attrs build device attr).qp_state ≡ attr.qp_state)
        × (attr.path_mtu ≡ 5 → (apply_vendor_qp_attrs build device attr).path_mtu ≡ 5)
  unfolding apply_vendor_qp_attrs
  apply_vendor_keeps attr = go device.vendor_id refl
    where
      Keeping : QpAttr → Type 0
      Keeping a = (a.qp_state ≡ attr.qp_state) × (attr.path_mtu ≡ 5 → a.path_mtu ≡ 5)

      go :
          (o : Option ℕ)
          → device.vendor_id ≡ o
          → ((apply_vendor_qp_attrs build device attr).qp_state ≡ attr.qp_state)
            × (attr.path_mtu ≡ 5 → (apply_vendor_qp_attrs build device attr).path_mtu ≡ 5)
      go none e = rw (apply_vendor_qp_attrs, e) (refl, λ m. m)
      go (some v) e =
          rw (apply_vendor_qp_attrs, e)
            (if_elim Keeping (build.ionic && is_ionic_device v) _ _
              (λ c.
                if_elim (λ (a : QpAttr). Keeping (configure_ionic_qp a))
                  (build.bnxt && is_bnxt_device v) _ _ (λ d. (refl, λ m. refl))
                  (λ d. (refl, λ m. refl)))
              (λ c.
                if_elim Keeping (build.bnxt && is_bnxt_device v) _ _ (λ d. (refl, λ m. refl))
                  (λ d. (refl, λ m. m))))

  rtr_attr-LeadsTo :
      (peer : RdmaToken) (g : ℕ)
      → LeadsTo peer g (rtr_attr build device g peer.qp_num peer.lid peer.gid)
  unfolding rtr_attr
  rtr_attr-LeadsTo peer g =
      let (same, wide) =
        apply_vendor_keeps (record zeroed_attr { qp_state = QpState.rtr; path_mtu = 5 }) in
      (same, refl, refl, refl, refl, refl, refl, wide refl)

  rts_attr-qp_state : (rts_attr build device).qp_state ≡ QpState.rts
  unfolding rts_attr
  rts_attr-qp_state = (apply_vendor_keeps (record zeroed_attr { qp_state = QpState.rts })).0

  in_uint8-some : (z : ℤ) (g : ℕ) → in_uint8 z ≡ some g → (z ≡ pos g) × (g ≤ 255)
  in_uint8-some (pos n) g h = elim (Bool-cases (leb n 255)) [
    | inl fits ↦ (ap pos (ground (arith, h, fits)), ground (arith, h, fits))
    | inr large ↦ absurd (ground (arith, h, large))
  ]
  in_uint8-some (negsuc n) g h = absurd (ground (arith, h))

  connect_rc-Connects :
      (conn : RcConnection) (peer : RdmaToken) (log log' : Log) (g : ℕ)
      → peer.transport ≡ rc
      → in_uint8 device.gid_index ≡ some g
      → connect_rc_peer verbs build device conn peer log ≡ (returned true, log')
      → Connects conn peer log log' g
  unfolding connect_rc_peer transition_qp_to_rtr transition_qp_to_rts modify
  connect_rc-Connects conn peer log log' g t e h = (
    t,
    (in_uint8-some device.gid_index g e).0,
    (in_uint8-some device.gid_index g e).1,
    (
      rtr_attr build device g peer.qp_num peer.lid peer.gid,
      rts_attr build device,
      rtr_attr-LeadsTo peer g,
      rts_attr-qp_state,
      two_calls conn.qp (rtr_attr build device g peer.qp_num peer.lid peer.gid)
          (rts_attr build device) rtr_mask rts_mask log log'
          (verbs.modify_qp log conn.qp (rtr_attr build device g peer.qp_num peer.lid peer.gid)
            rtr_mask)
          (λ l. verbs.modify_qp l conn.qp (rts_attr build device) rts_mask)
          (rw (t, e, connect_rc_peer, transition_qp_to_rtr) at h),
    ),
  )

  -- A peer that is not reached by a reliable connection, or a GID index that does not fit a
  -- `uint8_t`, is refused with no call of the verbs.
  connect_rc_peer_refused :
      (conn : RcConnection) (peer : RdmaToken) (log : Log)
      → (peer.transport ≡ dc) ⊎ (in_uint8 device.gid_index ≡ none)
      → connect_rc_peer verbs build device conn peer log ≡ (returned false, log)
  unfolding connect_rc_peer transition_qp_to_rtr
  connect_rc_peer_refused conn peer log (inl e) = rw (e, connect_rc_peer)
  connect_rc_peer_refused conn peer log (inr e) = ground (arith, e)

  -- A connect that returns true has made exactly two calls, both successful and with the masks that
  -- their transitions need: to RTR, with the peer's QP number, LID and GID and the device's own port
  -- and GID index, which fits a byte, and then to RTS.
  pub connect_rc_peer-Connects :
      (conn : RcConnection) (peer : RdmaToken) (log log' : Log)
      → connect_rc_peer verbs build device conn peer log ≡ (returned true, log')
      → (g : ℕ) × Connects conn peer log log' g
  connect_rc_peer-Connects conn peer log log' h = elim (transport_cases peer.transport) [
    | inl e ↦ absurd (ground (arith, connect_rc_peer_refused conn peer log (inl e)))
    | inr t ↦ elim (Option-cases (in_uint8 device.gid_index)) [
      | inl e ↦ absurd (ground (arith, connect_rc_peer_refused conn peer log (inr e)))
      | inr (g, e) ↦ (g, connect_rc-Connects conn peer log log' g t e h)
    ]
  ]
