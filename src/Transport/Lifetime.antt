-- ===== src/Transport/Lifetime.antt =====
-- What creating and resetting a connection leave behind: which objects live, and the QP's state.
use hip_object.Prelude.{
  ℕ, zero, suc, ◌≡◌, refl, ap, ◌∙◌, Bool, true, false, Option, none, some, ◌∷◌, arith,
}
use hip_object.Transport.Verbs.{
  Outcome, returned, threw, QpState, QpInitAttr, Cq, Polled, failed, empty, one, created_cq,
  created_qp, polled_cq, Log, Verbs, cq, qp, alive, known_state,
}
use hip_object.Transport.Attrs.{RdmaDevice, Build, init_attr}
use hip_object.Transport.Connection.{
  RcConnection, Answer, modify, transition_qp_to_init, created, with_qp, with_cq,
  create_rc_connection, and_then, transition_qp_to_reset, drain, drain_completions,
  reset_rc_connection,
}

-- What a call of `create_rc_connection` leaves alive.
abbrev pub Creates : Log → Answer (Option RcConnection) → Type 0
Creates log (returned (some conn), log') =
    (alive log' ≡ qp conn.qp ∷ cq conn.cq.id ∷ alive log)
    × (known_state conn.qp log' ≡ some QpState.init)
Creates log (returned none, log') = alive log' ≡ alive log
Creates log (threw, log') = alive log' ≡ alive log

-- A step leaves the objects alone and, if it returns true, the QP in a state.
abbrev pub Transits : ℕ → QpState → Log → Answer Bool → Type 0
Transits q s log (o, log') =
    (alive log' ≡ alive log) × (o ≡ returned true → known_state q log' ≡ some s)

-- A step leaves the objects alone.
abbrev pub Keeps : Log → Answer Bool → Type 0
Keeps log (o, log') = alive log' ≡ alive log

and_then-Transits :
    (q : ℕ) (s : QpState) (log : Log) (a : Answer Bool) (next : Log → Answer Bool)
    → Keeps log a
    → ((l : Log) → Transits q s l (next l))
    → Transits q s log (and_then a next)
and_then-Transits q s log (returned true, l) next h k = ((k l).0 ∙ h, (k l).1)
and_then-Transits q s log (returned false, l) next h k = (h, λ e. cc)
and_then-Transits q s log (threw, l) next h k = (h, λ e. cc)

and_then-Keeps :
    (log : Log) (a : Answer Bool) (next : Log → Answer Bool)
    → Keeps log a
    → ((l : Log) → Keeps l (next l))
    → Keeps log (and_then a next)
and_then-Keeps log (returned true, l) next h k = k l ∙ h
and_then-Keeps log (returned false, l) next h k = h
and_then-Keeps log (threw, l) next h k = h

module _ (verbs : Verbs) (build : Build) (device : RdmaDevice) where
  to_init-Transits :
      (q : ℕ) (log : Log)
      → Transits q QpState.init log (transition_qp_to_init verbs build device q log)
  unfolding transition_qp_to_init init_attr
  to_init-Transits q log = (refl, λ e. ground arith)

  created-Creates :
      (conn : RcConnection) (log0 : Log) (a : Answer Bool)
      → alive a.1 ≡ qp conn.qp ∷ cq conn.cq.id ∷ alive log0
      → (a.0 ≡ returned true → known_state conn.qp a.1 ≡ some QpState.init)
      → Creates log0 (created verbs build device conn a)
  unfolding created
  created-Creates conn log0 (returned true, log) h k = (h, k refl)
  created-Creates conn log0 (returned false, log) h k = rw h (ground arith)
  created-Creates conn log0 (threw, log) h k = rw h (ground arith)

  with_qp-Creates :
      (c : Cq) (o : Outcome (Option ℕ)) (a : QpInitAttr) (log0 log : Log)
      → alive log ≡ cq c.id ∷ alive log0
      → Creates log0 (with_qp verbs build device c o (created_qp a o ∷ log))
  unfolding with_qp
  with_qp-Creates c (returned (some q)) a log0 log h =
      let log1 = created_qp a (returned (some q)) ∷ log in
      let (kept, known) = to_init-Transits q log1 in
      created-Creates (record { cq = c; qp = q }) log0
        (transition_qp_to_init verbs build device q log1) (kept ∙ ap (◌∷◌ (qp q)) h) known
  with_qp-Creates c (returned none) a log0 log h = rw h (ground arith)
  with_qp-Creates c threw a log0 log h = rw h (ground arith)

  with_cq-Creates :
      (s r n : ℕ) (o : Outcome (Option Cq)) (log : Log)
      → Creates log (with_cq verbs build device s r o (created_cq n o ∷ log))
  unfolding with_cq
  with_cq-Creates s r n (returned (some c)) log =
      with_qp-Creates c _ _ log (created_cq n (returned (some c)) ∷ log) refl
  with_cq-Creates s r n (returned none) log = refl
  with_cq-Creates s r n threw log = refl

  -- Whatever the verbs answer: a connection that is returned adds exactly its QP and its CQ to the
  -- live objects, with the QP in INIT, and a call that returns none or throws leaves none behind.
  pub create_rc_connection-Creates :
      (cq_size max_send_wr max_recv_wr : ℕ) (log : Log)
      → Creates log (create_rc_connection verbs build device cq_size max_send_wr max_recv_wr log)
  unfolding create_rc_connection
  create_rc_connection-Creates cq_size max_send_wr max_recv_wr log =
      with_cq-Creates max_send_wr max_recv_wr cq_size (verbs.create_cq log cq_size) log

  drain-Keeps : (c left : ℕ) (log : Log) → Keeps log (drain verbs build device c left log)
  unfolding drain
  drain-Keeps c zero log = refl
  drain-Keeps c (suc left) log =
      let log1 = polled_cq c (verbs.poll_cq log c) ∷ log in
      go (verbs.poll_cq log c) log1 (drain verbs build device c left log1) (drain-Keeps c left log1)
        refl
    where
      go :
          (p : Outcome Polled) (log1 : Log) (rest : Answer Bool)
          → Keeps log1 rest
          → alive log1 ≡ alive log
          → Keeps log (elim p [
            | threw ↦ (threw, log1)
            | returned failed ↦ (returned false, log1)
            | returned empty ↦ (returned true, log1)
            | returned (one wc) ↦ rest
          ])
      go threw log1 rest h k = k
      go (returned failed) log1 rest h k = k
      go (returned empty) log1 rest h k = k
      go (returned (one wc)) log1 rest h k = h ∙ k

  -- Whatever the verbs answer, a reset leaves the same objects alive, and one that returns true
  -- leaves the QP in INIT.
  pub reset_rc_connection-Transits :
      (conn : RcConnection) (log : Log)
      → Transits conn.qp QpState.init log (reset_rc_connection verbs build device conn log)
  unfolding reset_rc_connection transition_qp_to_reset modify drain_completions
  reset_rc_connection-Transits conn log =
      let reset = transition_qp_to_reset verbs build device conn log in
      let drained = drain_completions verbs build device conn in
      and_then-Transits conn.qp QpState.init log (and_then reset drained)
        (transition_qp_to_init verbs build device conn.qp)
        (and_then-Keeps log reset drained refl (drain-Keeps conn.cq.id conn.cq.cqe))
        (to_init-Transits conn.qp)
