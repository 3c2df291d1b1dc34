-- ===== src/Api/Success/Parts.antt =====
-- src/hipobj.cpp: the parts of a public function that succeeds.
use hip_object.Prelude.{
  ℕ, ◌+◌, ◌≤◌, ◌<◌, ◌≡◌, refl, inl, inr, true, ◌&&◌, ◌||◌, Option, none, some, ◌==◌, arith,
  Bool-cases, Option-cases, is_some,
}
use hip_object.Prelude.Int.{ℤ, pos}
use hip_object.Buffer.{BufEntry, Item, lookup, find, recount}
use hip_object.Api.Errors.{HipObjError, is_success}
use hip_object.Api.Checks.{
  check_buffer_args, range_in_registration, range_in_registration_iff, is_negative,
}
use hip_object.Api.Instance.{Ending, gives, throws, pends, Instance, Step, seq}
use hip_object.Api.Transfer.{Ops}
use hip_object.Api.Calls.{caught, entered, let_buffer_go, use_buffer, with_buffer, with_callbacks}
use hip_object.Api.Success.{succeeded}

-- The first of two parts has succeeded, and then the second.
pub seq_success :
    (r : Ending HipObjError × Instance) (next : Step)
    → succeeded (seq r next).0 ≡ true
    → (succeeded r.0 ≡ true) × (succeeded (next r.1).0 ≡ true) × (seq r next ≡ next r.1)
seq_success (throws, i) next h = absurd (ground (arith, h))
seq_success (pends, i) next h = absurd (ground (arith, h))
seq_success (gives e, i) next h = elim (Bool-cases (is_success e.op_error)) [
  | inl ok ↦ (ok, (rw ok at h), rw ok refl)
  | inr bad ↦ absurd (ground (arith, bad, rw bad at h))
]

caught_success :
    (r : Ending HipObjError × Instance) → succeeded (caught r).0 ≡ true → succeeded r.0 ≡ true
caught_success (gives e, i) h = h
caught_success (throws, i) h = absurd (ground (arith, h))
caught_success (pends, i) h = h

pub entered_success :
    (body : Step) (s : Option Instance)
    → succeeded (entered body s).0 ≡ true
    → (i : Instance) × (s ≡ some i) × (succeeded (body i).0 ≡ true)
entered_success body none h = absurd (ground (arith, h))
entered_success body (some i) h = (i, refl, caught_success (body i) h)

let_go_success :
    (key : ℕ) (buf : Option BufEntry) (r : Ending HipObjError × Instance)
    → succeeded (let_buffer_go key buf r).0 ≡ true
    → succeeded r.0 ≡ true
let_go_success key none (e, i) h = h
let_go_success key (some buf) (gives e, i) h = h
let_go_success key (some buf) (throws, i) h = h
let_go_success key (some buf) (pends, i) h = h

args_success :
    (key : ℕ) (buf : BufEntry) (size : ℕ) (offset : ℤ)
    → is_success (check_buffer_args key (some buf) size offset).op_error ≡ true
    → (0 < key) × (0 < size) × ((start : ℕ) × (offset ≡ pos start) × (start + size ≤ buf.size))
unfolding check_buffer_args
args_success key buf size offset h =
    elim (Bool-cases (key == 0 || (size == 0 || is_negative offset))) [
      | inl bad ↦ absurd (ground (arith, rw bad at h))
      | inr good ↦ elim (Bool-cases (range_in_registration offset size buf.size)) [
        | inl inside ↦ (
          ground (arith, good),
          ground (arith, good),
          (range_in_registration_iff offset size buf.size).0 inside,
        )
        | inr out ↦ absurd (ground (arith, rw (good, out) at h))
      ]
    ]

-- The registration that a call uses, with one more holder; its range is in it, and not empty.
abbrev pub IsUsable : ℕ → ℕ → ℤ → Instance → Item → Type 0
IsUsable key size offset i item =
    (lookup key i.buffers ≡ some item)
    × (0 < key)
    × (0 < size)
    × ((start : ℕ) × (offset ≡ pos start) × (start + size ≤ item.entry.size))

abbrev pub taken : ℕ → Instance → Instance
taken key i = record i { buffers = recount (λ n. n + 1) key i.buffers }

use_buffer_success :
    (key size : ℕ) (offset : ℤ) (body : BufEntry → Step) (buf : BufEntry) (i : Instance)
    → succeeded (use_buffer key size offset body (some buf) i).0 ≡ true
    → (is_success (check_buffer_args key (some buf) size offset).op_error ≡ true)
      × (succeeded (body buf i).0 ≡ true)
unfolding use_buffer
use_buffer_success key size offset body buf i h =
    let (checked, rest, same) =
      seq_success (gives (check_buffer_args key (some buf) size offset), i) (body buf) h in
    (checked, rest)

absent_fails :
    (key size : ℕ) (offset : ℤ)
    → is_success (check_buffer_args key none size offset).op_error ≡ true
    → ⊥
unfolding check_buffer_args
absent_fails key size offset h = elim (Bool-cases (key == 0 || (size == 0 || is_negative offset))) [
  | inl bad ↦ ground (arith, rw bad at h)
  | inr good ↦ ground (arith, rw good at h)
]

pub with_buffer_success :
    (key size : ℕ) (offset : ℤ) (body : BufEntry → Step) (i : Instance)
    → succeeded (with_buffer key size offset body i).0 ≡ true
    → (item : Item) × IsUsable key size offset i item
      × (succeeded (body item.entry (taken key i)).0 ≡ true)
unfolding with_buffer find use_buffer
with_buffer_success key size offset body i h = elim (Option-cases (lookup key i.buffers)) [
  | inl absent ↦ absurd (absent_fails key size offset (rw (with_buffer, find, absent) at h))
  | inr (item, there) ↦
      let used =
        let_go_success key (some item.entry)
          (use_buffer key size offset body (some item.entry) (taken key i))
          (rw (with_buffer, find, there) at h) in
      let (checked, rest) = use_buffer_success key size offset body item.entry (taken key i) used in
      let (not_null, not_empty, inside) = args_success key item.entry size offset checked in
      (item, (there, not_null, not_empty, inside), rest)
]

pub callbacks_success :
    (ops : Option Ops) (body : Ops → Step) (i : Instance)
    → succeeded (with_callbacks ops body i).0 ≡ true
    → (callbacks : Ops) × (ops ≡ some callbacks) × (succeeded (body callbacks i).0 ≡ true)
unfolding with_callbacks
callbacks_success none body i h = absurd (ground (arith, h))
callbacks_success (some ops) body i h =
    elim (Bool-cases (is_some ops.send_request && is_some ops.recv_reply)) [
      | inl both ↦ (ops, refl, rw (with_callbacks, both) at h)
      | inr lacking ↦ absurd (ground (arith, rw (with_callbacks, lacking) at h))
    ]
