-- ===== src/Abandoned/Room.antt =====
-- The room that is set aside: taking over a copy that timed out never allocates.
use hip_object.Prelude.{
  ℕ, suc, ◌+◌, ◌/◌, ◌≤◌, ◌<◌, ◌≡◌, refl, inl, inr, Bool, Option, List, [], ◌∷◌, ltb, length,
  length-append, arith, Bool-cases,
}
use hip_object.Abandoned.{
  Copy, AbandonedCopies, max, reserve, add, give_back, is_other, release_copies, release,
}

-- What happens to the list while `slots` slots of it are alive and unused.
pub data Step (allocate : ℕ → ℕ) (list : AbandonedCopies) : ℕ → AbandonedCopies → ℕ → Type 0 where
  reserves : (slots : ℕ) → Step allocate list slots (reserve allocate list) (suc slots)
  adds : (slots : ℕ) (copy : Copy) → Step allocate list (suc slots) (add copy list) slots
  gives_back : (slots : ℕ) → Step allocate list (suc slots) (give_back list) slots
  releases :
      (slots : ℕ) (is_over : Copy → Bool) (entry : Option ℕ)
      → Step allocate list slots (release is_over entry list).1 slots

pub data Reached (allocate : ℕ → ℕ) : AbandonedCopies → ℕ → Type 0 where
  at_first : Reached allocate (record { copies = []; capacity = 0; reserved = 0 }) 0
  after :
      {list list' : AbandonedCopies} {slots slots' : ℕ}
      → Reached allocate list slots
      → Step allocate list slots list' slots'
      → Reached allocate list' slots'

-- The capacity is at least the size plus the slots set aside, which `reserved` counts.
abbrev pub HasRoom : AbandonedCopies → ℕ → Type 0
HasRoom list slots = (list.reserved ≡ slots) × (length list.copies + list.reserved ≤ list.capacity)

length-kept :
    (is_over : Copy → Bool) (entry : Option ℕ) (copies : List Copy)
    → length (release_copies is_over entry copies).kept ≤ length copies
unfolding release_copies
length-kept is_over entry [] = omega arith
length-kept is_over entry (copy ∷ copies) =
    let rest = length-kept is_over entry copies in
    elim (Bool-cases (is_other entry copy)) [
      | inl e ↦ rw e (omega (arith, rest))
      | inr e ↦ elim (Bool-cases (is_over copy)) [
        | inl f ↦ rw (e, f) (omega (arith, rest))
        | inr f ↦ rw (e, f) (omega (arith, rest))
      ]
    ]

max-le : (a b : ℕ) → a ≤ max a b
max-le a b = ground arith

reserve-HasRoom :
    (allocate : ℕ → ℕ) (list : AbandonedCopies) (slots : ℕ)
    → ((n : ℕ) → n ≤ allocate n)
    → HasRoom list slots
    → HasRoom (reserve allocate list) (suc slots)
unfolding reserve
reserve-HasRoom allocate list slots big (e, room) =
    let needed = length list.copies + list.reserved + 1 in
    let half = list.capacity + list.capacity / 2 in
    elim (Bool-cases (ltb list.capacity needed)) [
      | inr fits ↦ rw fits (omega (arith, e), ground (arith, fits))
      | inl full ↦
          rw full (omega (arith, e), omega (arith, big (max needed half), max-le needed half))
    ]

step-HasRoom :
    (allocate : ℕ → ℕ) (list list' : AbandonedCopies) (slots slots' : ℕ)
    → ((n : ℕ) → n ≤ allocate n)
    → Step allocate list slots list' slots'
    → HasRoom list slots
    → HasRoom list' slots'
unfolding add give_back release
step-HasRoom allocate list list' slots slots' big (reserves n) h =
    reserve-HasRoom allocate list n big h
step-HasRoom allocate list list' slots slots' big (adds n copy) (e, room) =
    (omega (arith, e), omega (arith, e, room, length-append list.copies (copy ∷ [])))
step-HasRoom allocate list list' slots slots' big (gives_back n) (e, room) =
    (omega (arith, e), omega (arith, e, room))
step-HasRoom allocate list list' slots slots' big (releases n is_over entry) (e, room) =
    (e, omega (arith, room, length-kept is_over entry list.copies))

Reached-HasRoom :
    (allocate : ℕ → ℕ) (list : AbandonedCopies) (slots : ℕ)
    → ((n : ℕ) → n ≤ allocate n)
    → Reached allocate list slots
    → HasRoom list slots
Reached-HasRoom allocate list slots big at_first = (refl, omega arith)
Reached-HasRoom allocate list' slots' big (after {list} {slots = slots} r step) =
    step-HasRoom allocate list list' slots slots' big step
      (Reached-HasRoom allocate list slots big r)

-- Whatever was done with the list, by any number of threads, as long as growing a vector gives at
-- least the capacity that is asked for: while a slot is alive and unused, the vector has room for one
-- more copy, so `add` does not allocate.
pub Reached-length :
    (allocate : ℕ → ℕ) (list : AbandonedCopies) (slots : ℕ)
    → ((n : ℕ) → n ≤ allocate n)
    → Reached allocate list (suc slots)
    → length list.copies < list.capacity
Reached-length allocate list slots big r =
    let (e, room) = Reached-HasRoom allocate list (suc slots) big r in omega (arith, e, room)
