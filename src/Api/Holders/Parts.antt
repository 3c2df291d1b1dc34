-- ===== src/Api/Holders/Parts.antt =====
-- src/hipobj.cpp: what the parts of a call do to the holders of registrations.
use hip_object.Prelude.{
  ℕ, ◌+◌, ◌<◌, refl, inl, inr, Bool, ◌&&◌, Option, none, some, ==_iff, if◌then◌else◌, arith,
  Bool-cases, Option-cases, is_some,
}
use hip_object.Prelude.Int.{ℤ}
use hip_object.Buffer.{BufEntry, Registration, lookup, find, drop_copy}
use hip_object.Token.{RdmaToken}
use hip_object.Api.Checks.{check_buffer_args}
use hip_object.Api.Errors.{HipObjError, is_success}
use hip_object.Api.Instance.{Ending, gives, throws, pends, Instance, Step, seq}
use hip_object.Api.Transfer.{Ops}
use hip_object.Api.Calls.{
  registers, with_number, with_callbacks, one_of_two, let_buffer_go, use_buffer, with_buffer,
  give_token, deregister_with,
}
use hip_object.Api.Holders.{InstanceIsHeld, one_at, holders_more, holders_less, deregister_keeps}
use hip_object.Api.Holders.Register.{LosesNone}
use hip_object.Api.Holders.Transfer.{CallbacksKeep}

-- What a part of a call does that holds the registration at `key`.
abbrev pub KeepsAt : ℕ → Step → Type 0
KeepsAt key step =
    (d : ℕ → ℕ) (i : Instance) → 0 < d key → InstanceIsHeld d i → InstanceIsHeld d (step i).1

pub seq_keeps :
    (r : Ending HipObjError × Instance) (next : Step) (d : ℕ → ℕ)
    → ((j : Instance) → InstanceIsHeld d j → InstanceIsHeld d (next j).1)
    → InstanceIsHeld d r.1
    → InstanceIsHeld d (seq r next).1
seq_keeps (throws, i) next d keep h = h
seq_keeps (pends, i) next d keep h = h
seq_keeps (gives e, i) next d keep h = elim (Bool-cases (is_success e.op_error)) [
  | inl ok ↦ rw ok (keep i h)
  | inr bad ↦ rw bad h
]

let_go_keeps :
    (key : ℕ) (buf : Option BufEntry) (r : Ending HipObjError × Instance) (d : ℕ → ℕ)
    → InstanceIsHeld (λ k. d k + (if is_some buf then one_at key k else 0)) r.1
    → InstanceIsHeld d (let_buffer_go key buf r).1
unfolding drop_copy
let_go_keeps key none (e, i) d h = λ k. omega (arith, h k)
let_go_keeps key (some buf) (gives e, i) d h = λ k. omega (arith, h k, holders_less key k i.buffers)
let_go_keeps key (some buf) (throws, i) d h = λ k. omega (arith, h k, holders_less key k i.buffers)
let_go_keeps key (some buf) (pends, i) d h = λ k. omega (arith, h k)

use_buffer_keeps :
    (key size : ℕ) (offset : ℤ) (body : BufEntry → Step) (buf : BufEntry) (d : ℕ → ℕ) (i : Instance)
    → KeepsAt key (body buf)
    → 0 < d key
    → InstanceIsHeld d i
    → InstanceIsHeld d (use_buffer key size offset body (some buf) i).1
unfolding use_buffer
use_buffer_keeps key size offset body buf d i keep p h =
    seq_keeps (gives (check_buffer_args key (some buf) size offset), i) (body buf) d
      (λ j. keep d j p) h

pub with_buffer_keeps :
    (key size : ℕ) (offset : ℤ) (body : BufEntry → Step) (d : ℕ → ℕ) (i : Instance)
    → ((buf : BufEntry) → KeepsAt key (body buf))
    → InstanceIsHeld d i
    → InstanceIsHeld d (with_buffer key size offset body i).1
unfolding with_buffer find use_buffer
with_buffer_keeps key size offset body d i keep h = elim (Option-cases (lookup key i.buffers)) [
  | inl absent ↦
      rw (with_buffer, find, absent)
        (let_go_keeps key none (gives (check_buffer_args key none size offset), i) d
          (λ k. omega (arith, h k)))
  | inr (item, there) ↦
      rw (with_buffer, find, there)
        (let_go_keeps key (some item.entry) _ d (
          use_buffer_keeps key size offset body item.entry (λ k. d k + one_at key k) _
            (keep item.entry) (rw ((==_iff key key).1 refl) (omega arith))
            (λ k. omega (arith, h k, holders_more key k i.buffers (rw there refl)))))
]

pub give_token_keeps :
    (o : Option RdmaToken) (d : ℕ → ℕ) (i : Instance)
    → InstanceIsHeld d i
    → InstanceIsHeld d (give_token o i).1
unfolding give_token
give_token_keeps none d i h = h
give_token_keeps (some token) d i h = h

pub registers_keeps :
    (e : HipObjError) (r : Registration) (d : ℕ → ℕ) (i : Instance)
    → LosesNone i.buffers r.1
    → InstanceIsHeld d i
    → InstanceIsHeld d (registers e r i).1
registers_keeps e (result, items, log) d i loses h = elim (Bool-cases (is_success e.op_error)) [
  | inl ok ↦ rw ok (λ k. omega (arith, h k, loses k))
  | inr bad ↦ rw bad h
]

pub deregister_with_keeps :
    (dev_ptr : ℕ) (d : ℕ → ℕ) (i : Instance)
    → InstanceIsHeld d i
    → InstanceIsHeld d (deregister_with dev_ptr i).1
unfolding deregister_with
deregister_with_keeps dev_ptr d i h k =
    omega (arith, h k, deregister_keeps dev_ptr k i.buffers i.buffers_log)

-- What a part of a call does that holds no registration yet.
abbrev pub Keeps : Step → Type 0
Keeps step = (d : ℕ → ℕ) (i : Instance) → InstanceIsHeld d i → InstanceIsHeld d (step i).1

-- The callbacks of a call, unless it has none.
abbrev pub AllCallbacksKeep : Option Ops → Type 0
AllCallbacksKeep none = Unit {0}
AllCallbacksKeep (some ops) = CallbacksKeep ops

pub with_number-Keeps :
    (n : ℤ) (body : Bool → Step) → ((b : Bool) → Keeps (body b)) → Keeps (with_number n body)
unfolding with_number
with_number-Keeps n body keep d i h = elim (Option-cases (one_of_two n)) [
  | inl e ↦ rw (with_number, e) h
  | inr (b, e) ↦ rw (with_number, e) (keep b d i h)
]

pub with_callbacks-Keeps :
    (ops : Option Ops) (body : Ops → Step)
    → AllCallbacksKeep ops
    → ((callbacks : Ops) → CallbacksKeep callbacks → Keeps (body callbacks))
    → Keeps (with_callbacks ops body)
unfolding with_callbacks
with_callbacks-Keeps none body c keep d i h = h
with_callbacks-Keeps (some ops) body c keep d i h =
    elim (Bool-cases (is_some ops.send_request && is_some ops.recv_reply)) [
      | inl both ↦ rw (with_callbacks, both) (keep ops c d i h)
      | inr lacking ↦ rw (with_callbacks, lacking) h
    ]
