-- ===== src/Examples/Api.antt =====
-- The public functions of src/hipobj.cpp at concrete inputs.
use hip_object.Prelude.{
  ℕ, ◌+◌, ◌≤◌, ◌≡◌, refl, ap, subst, ◌==◌, if◌then◌else◌, Bool-cases, inl, inr, true, false, Option,
  none, some, List, [], ◌∷◌, arith, length, codes,
}
use hip_object.Prelude.Weigh.{weigh-nil, weigh-cons, hits}
use hip_object.Prelude.Int.{pos}
use hip_object.Transport.Verbs.{returned, one}
use hip_object.Transport.Poll.{Round}
use hip_object.Buffer as B
use hip_object.Buffer.{BufEntry, Item, max_mr_size}
use hip_object.Abandoned.{Copy}
use hip_object.Api.Errors.{OpError, make_error}
use hip_object.Api.Instance.{Copying, Hip, finished, not_ready, Platform, Instance, gives}
use hip_object.Api.Staging.{stage_copy_with_deadline, reclaim_all}
use hip_object.Api.Transfer.{Ops}
use hip_object.Api.Calls.{hip_obj_get, hip_obj_put, hip_obj_buf_deregister}
use hip_object.Api.Holders.{InstanceIsHeld, copies_at, holders}
use hip_object.Api.Holders.Transfer.{CallbacksKeep}
use hip_object.Api.Holders.Reach.{
  StateIsHeld, no_calls, one_more, gets, deregisters, Calls-StateIsHeld,
  hip_obj_buf_deregister-running,
}
use hip_object.Api.Balance.{StagesOnce, stage_copy_with_deadline-StagesOnce}
use hip_object.Api.Ends.{HasEnded, ClockAdvances, stage_copy_with_deadline-HasEnded}
use hip_object.Api.Success.{succeeded}
use hip_object.Api.Success.Calls.{IsGot, IsPut, hip_obj_get-IsGot, hip_obj_put-IsPut}
use hip_object.Examples.Transport.{verbs, build, device}

-- A runtime whose copies are over after one turn, and on which the copy with the event 77 still runs.
abbrev hip : Hip
hip = record {
  event_create = λ log. some (length log);
  memcpy_async = λ log copying. true;
  event_record = λ log done. true;
  device_synchronize = λ log. true;
  stage_start = λ log. 100;
  stage_rounds = λ log done.
      record { query = not_ready; now = 101 } ∷ record { query = finished; now = 102 } ∷ [];
  is_over = λ log copy. false;
}

abbrev system : B.System
system = record {
  supports_dmabuf = false;
  export_dmabuf = λ log addr len. none;
  reg_dmabuf_mr = λ log offset len iova fd. none;
  reg_mr = λ log addr len. some (length log);
  host_malloc = λ log len. some 9000;
  pointer_is_device = λ ptr. some false;
  mem_get_address_range = λ ptr. none;
}

abbrev pub platform : Platform
platform = record {
  verbs = verbs;
  build = build;
  device = device;
  hip = hip;
  system = system;
  policy = record { enabled = false; require_gpu_direct = false };
  rkey = λ mr. mr + 1000;
  qp_num = λ qp. qp + 100;
  poll_start = λ log. 0;
  poll_rounds = λ log. record { now = 1; poll = one (record { status = 0; opcode = 0 }) } ∷ [];
  allocate = λ n. n;
  stage_timeout = 30000;
  poll_timeout = 5000;
}

-- A registration with a staging buffer, and one that the NIC reaches itself.
abbrev items : List Item
items =
    record {
      key = 4096;
      entry = record {
        host_buf = some 9000;
        mr = 1;
        size = 256;
        is_dmabuf = false;
        remote_addr = 9000;
      };
      copies = 0;
    }
    ∷ record {
      key = 8192;
      entry = record { host_buf = none; mr = 2; size = 512; is_dmabuf = true; remote_addr = 8192 };
      copies = 0;
    }
    ∷ []

abbrev instance_with : List Item → List Copy → Instance
instance_with buffers copies = record {
  token_conn = record { cq = record { id = 1; cqe = 16 }; qp = 2 };
  pool = record {
    slots = some (record { cq = record { id = 3; cqe = 16 }; qp = 4 }) ∷ [];
    free = 0 ∷ [];
    live = 1;
    closed = false;
  };
  buffers = buffers;
  abandoned = record { copies = copies; capacity = 4; reserved = 0 };
  held = 0;
  verbs_log = [];
  hip_log = [];
  buffers_log = [];
  out_token = none;
}

-- Callbacks that change nothing, and answer "200".
abbrev ops : Ops
ops = record {
  send_request = some (λ i token. (returned (pos 0), i));
  recv_reply =
      some
        (λ i size. (returned (record { code = pos 0; written = codes "200"; reply_len = 3 }), i));
}

abbrev pub state : Option Instance
state = some (instance_with items [])

got : succeeded (hip_obj_get platform 4096 64 (pos 16) (some ops) state).0 ≡ true
unfolding hip_obj_get hip_object.Token.Reply.decode_rdma_reply
    hip_object.Token.Reply.parse_rdma_reply_http_code hip_object.Token.Reply.parse_reply
    hip_object.Token.Reply.remove_trailing hip_object.Token.Reply.before_colon
    hip_object.Parse.parse_number hip_object.Parse.digit hip_object.Parse.scan
    hip_object.Token.Reply.parse_peer_token_from_reply hip_object.Transport.Poll.poll_completion
got = refl

hip_obj_get-IsGot_example : IsGot platform 4096 64 (pos 16) (some ops) state
hip_obj_get-IsGot_example = hip_obj_get-IsGot platform 4096 64 (pos 16) (some ops) state got

put : succeeded (hip_obj_put platform 8192 512 (pos 0) (some ops) state).0 ≡ true
unfolding hip_obj_put hip_object.Token.Reply.decode_rdma_reply
    hip_object.Token.Reply.parse_rdma_reply_http_code hip_object.Token.Reply.parse_reply
    hip_object.Token.Reply.remove_trailing hip_object.Token.Reply.before_colon
    hip_object.Parse.parse_number hip_object.Parse.digit hip_object.Parse.scan
    hip_object.Token.Reply.parse_peer_token_from_reply hip_object.Transport.Poll.poll_completion
put = refl

hip_obj_put-IsPut_example : IsPut platform 8192 512 (pos 0) (some ops) state
hip_obj_put-IsPut_example = hip_obj_put-IsPut platform 8192 512 (pos 0) (some ops) state put

abbrev staged : BufEntry
staged = record { host_buf = some 9000; mr = 1; size = 256; is_dmabuf = false; remote_addr = 9000 }

-- A runtime whose copies are never over.
abbrev slow : Platform
slow = record platform {
  hip = record hip { stage_rounds = λ log done. record { query = not_ready; now = 40000 } ∷ [] };
}

ops-CallbacksKeep : CallbacksKeep ops
ops-CallbacksKeep = record {
  send_keeps = λ send e d i token h. subst (λ f. InstanceIsHeld d (f i token).1) (some_inj e) h;
  recv_keeps = λ recv e d i size h. subst (λ f. InstanceIsHeld d (f i size).1) (some_inj e) h;
}
  where
    some_inj : {A : Type 0} {x y : A} → some x ≡ some y → x ≡ y
    some_inj {A} {x} e = ap (λ (o : Option A). elim o [ none ↦ x | some z ↦ z ]) e

at_first : (k : ℕ) → copies_at k [] + 0 ≤ holders k items
at_first k = omega (arith, weigh-nil (hits (λ (c : Copy). c.entry) k))

-- A download whose staging copy times out, and then a deregistration, which is refused.
abbrev after_get : Option Instance
after_get = (hip_obj_get slow 4096 64 (pos 16) (some ops) state).1

Calls-StateIsHeld_example : StateIsHeld (λ k. 0) (hip_obj_buf_deregister slow 4096 after_get).1
Calls-StateIsHeld_example =
    Calls-StateIsHeld slow (λ k. 0) state (hip_obj_buf_deregister slow 4096 after_get).1
      (one_more (one_more no_calls (gets 4096 64 (pos 16) (some ops) ops-CallbacksKeep))
        (deregisters 4096))
      at_first

refused : (hip_obj_buf_deregister slow 4096 after_get).0 ≡ gives (make_error OpError.busy)
unfolding hip_obj_get hip_obj_buf_deregister hip_object.Token.Reply.decode_rdma_reply
    hip_object.Token.Reply.parse_rdma_reply_http_code hip_object.Token.Reply.parse_reply
    hip_object.Token.Reply.remove_trailing hip_object.Token.Reply.before_colon
    hip_object.Parse.parse_number hip_object.Parse.digit hip_object.Parse.scan
    hip_object.Token.Reply.parse_peer_token_from_reply hip_object.Transport.Poll.poll_completion
    hip_object.Abandoned.add B.drop_copy
refused = refl

abbrev held_items : List Item
held_items = record { key = 4096; entry = staged; copies = 1 } ∷ []

abbrev abandoned_copy : Copy
abandoned_copy = record { entry = 4096; done = 7 }

held_once : (k : ℕ) → copies_at k (abandoned_copy ∷ []) + 0 ≤ holders k held_items
held_once k = elim (Bool-cases (4096 == k)) [
  | inl same ↦ rw same (omega (arith, one, rw same at cons))
  | inr other ↦ rw other (omega (arith, one, rw other at cons))
]
  where
    one : copies_at k [] ≡ 0
    one = weigh-nil (hits (λ (c : Copy). c.entry) k)

    cons : copies_at k (abandoned_copy ∷ []) ≡ (if 4096 == k then 1 else 0) + copies_at k []
    cons = weigh-cons (hits (λ (c : Copy). c.entry) k) abandoned_copy []

abbrev held_instance : Instance
held_instance = instance_with held_items (abandoned_copy ∷ [])

hip_obj_buf_deregister-running_example :
    hip_obj_buf_deregister platform 4096 (some held_instance)
    ≡ (gives (make_error OpError.busy), some (reclaim_all platform held_instance))
hip_obj_buf_deregister-running_example =
    hip_obj_buf_deregister-running platform held_instance [] [] abandoned_copy held_once refl
      (ground arith) refl

abbrev copying : Copying
copying = record { dst = 4096; src = 9000; size = 64; to_device = true }

stage_copy_with_deadline-StagesOnce_example :
    StagesOnce slow copying 4096
      (instance_with items [])
      (stage_copy_with_deadline slow 4096 copying (instance_with items []))
stage_copy_with_deadline-StagesOnce_example =
    stage_copy_with_deadline-StagesOnce slow 4096 copying (instance_with items [])

slow_clock : ClockAdvances slow
slow_clock log done = inl (ground arith)

stage_copy_with_deadline-HasEnded_example :
    HasEnded (stage_copy_with_deadline slow 4096 copying (instance_with items [])).0
stage_copy_with_deadline-HasEnded_example =
    stage_copy_with_deadline-HasEnded slow 4096 copying (instance_with items []) slow_clock
