-- ===== src/Examples/Transport.antt =====
-- The connection code of src/rdma/transport.cpp and src/rdma/connection-pool.cpp at concrete inputs.
use hip_object.Prelude.{
  ℕ, ◌+◌, ◌≡◌, ◌↔◌, refl, Bool, true, false, some, List, [], ◌∷◌, ◌++◌, arith, length, replicate,
}
use hip_object.Prelude.Int.{pos}
use hip_object.Token.{RdmaToken, rc}
use hip_object.Transport.Verbs.{
  returned, threw, Verbs, Log, empty, one, failed, Object, qp, cq, created_cq, created_qp,
  QpInitAttr,
}
use hip_object.Transport.Attrs.{RdmaDevice, Build}
use hip_object.Transport.Connection.{
  RcConnection, create_rc_connection, connect_rc_peer, transition_qp_to_rtr, transition_qp_to_rts,
  modify,
}
use hip_object.Transport.Lifetime.{Creates, create_rc_connection-Creates}
use hip_object.Transport.Connects.{Connects, connect_rc_peer-Connects}
use hip_object.Transport.Poll.{
  Round, poll_completion, Completes, poll_completion_iff, poll_completion_ends,
}
use hip_object.Pool.{restore}
use hip_object.Pool.Restore.{IsRestored, restore-IsRestored}

-- Verbs that succeed, and name each object by the number of calls before it.
abbrev pub verbs : Verbs
verbs = record {
  create_cq = λ log n. returned (some (record { id = length log; cqe = n }));
  create_qp = λ log attr. returned (some (length log));
  modify_qp = λ log qp attr mask. returned 0;
  poll_cq = λ log cq. returned empty;
}

-- Verbs that can create a CQ and no QP, and change no QP.
abbrev broken : Verbs
broken = record {
  create_cq = λ log n. returned (some (record { id = length log; cqe = n }));
  create_qp = λ log attr. threw;
  modify_qp = λ log qp attr mask. returned 22;
  poll_cq = λ log cq. returned failed;
}

abbrev pub build : Build
build = record { bnxt = true; ionic = false }

abbrev pub device : RdmaDevice
device = record {
  port_num = 1;
  gid_index = pos 3;
  local_gid = replicate 16 0;
  vendor_id = some 0x14e4;
}

abbrev conn : RcConnection
conn = record { cq = record { id = 5; cqe = 16 }; qp = 6 }

abbrev peer : RdmaToken
peer = record {
  qp_num = 77;
  gid = replicate 16 1;
  rkey = 0;
  remote_addr = 0;
  len = 0;
  transport = rc;
  port_num = 1;
  lid = 0;
}

create_rc_connection-Creates_example :
    Creates [] (create_rc_connection broken build device 16 8 8 [])
create_rc_connection-Creates_example = create_rc_connection-Creates broken build device 16 8 8 []

connects :
    connect_rc_peer verbs build device conn peer []
    ≡ (returned true, (connect_rc_peer verbs build device conn peer []).1)
unfolding connect_rc_peer transition_qp_to_rtr modify transition_qp_to_rts
connects = refl

connect_rc_peer-Connects_example :
    (g : ℕ) × Connects verbs build device conn peer []
      (connect_rc_peer verbs build device conn peer []).1
      g
connect_rc_peer-Connects_example =
    connect_rc_peer-Connects verbs build device conn peer []
      (connect_rc_peer verbs build device conn peer []).1 connects

-- A poll that finds nothing, a completion of another kind, the awaited one, and a late one.
abbrev rounds : List Round
rounds =
    record { now = 100; poll = empty }
    ∷ record { now = 101; poll = one (record { status = 0; opcode = 2 }) }
    ∷ record { now = 102; poll = one (record { status = 0; opcode = 1 }) }
    ∷ []

poll_completion_iff_example :
    (poll_completion (some 1) 5 100 rounds ≡ some true) ↔ Completes (some 1) (100 + 5) rounds
poll_completion_iff_example = poll_completion_iff (some 1) 5 100 rounds

poll_completion_ends_example :
    (b : Bool) × (poll_completion (some 9) 5 100 (rounds ++ record { now = 105; poll = empty } ∷ [])
      ≡ some b)
poll_completion_ends_example =
    poll_completion_ends (some 9) 5 100 rounds (record { now = 105; poll = empty }) []
      (ground arith)

-- Another connection lives beside the one that is restored.
abbrev others : List Object
others = qp 4 ∷ cq 3 ∷ []

abbrev init : QpInitAttr
init = record { cq = 5; max_send_wr = 8; max_recv_wr = 8; max_send_sge = 1; max_recv_sge = 1 }

abbrev log : Log
log =
    created_qp init (returned (some 6))
    ∷ created_cq 16 (returned (some (record { id = 5; cqe = 16 })))
    ∷ created_qp init (returned (some 4))
    ∷ created_cq 16 (returned (some (record { id = 3; cqe = 16 })))
    ∷ []

restore-IsRestored_example : IsRestored others (restore broken build device (some conn) log)
restore-IsRestored_example = restore-IsRestored broken build device (some conn) log others refl
