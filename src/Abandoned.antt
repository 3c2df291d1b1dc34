-- ===== src/Abandoned.antt =====
-- src/abandoned-copies.h and src/abandoned-copies.cpp: staging copies that timed out, and the room that
-- is set aside for them.
pub mod Room
pub mod Release
use hip_object.Prelude.{
  ℕ, ◌+◌, ◌-◌, ◌/◌, ◌≤◌, ◌<◌, ◌≡◌, Bool, true, false, not, ◌&&◌, Option, none, some, List, [], ◌∷◌,
  ◌++◌, ◌==◌, if◌then◌else◌, ltb, length,
}

-- The registration, by which `BufEntry` it is, and the event that tracks the copy.
pub record Copy : Type 0 where
  pub entry : ℕ
  pub done : ℕ

-- The members that the mutex guards; `capacity` is that of the vector `copies_`.
pub record AbandonedCopies : Type 0 where
  pub copies : List Copy
  pub capacity : ℕ
  pub reserved : ℕ

abbrev pub max : ℕ → ℕ → ℕ
max a b = if ltb a b then b else a

-- `allocate n` is the capacity that `std::vector::reserve(n)` leaves, when it has to grow.
unfoldable pub reserve : (ℕ → ℕ) → AbandonedCopies → AbandonedCopies
reserve allocate list =
    let needed = length list.copies + list.reserved + 1 in
    let grown = allocate (max needed (list.capacity + list.capacity / 2)) in
    if ltb list.capacity needed
    then record list { capacity = grown; reserved = list.reserved + 1 }
    else record list { reserved = list.reserved + 1 }

-- `push_back` does not reallocate while the size is below the capacity, which `Room` shows.
unfoldable pub add : Copy → AbandonedCopies → AbandonedCopies
add copy list = record list { copies = list.copies ++ copy ∷ []; reserved = list.reserved - 1 }

-- The destructor of a slot that has not been used.
unfoldable pub give_back : AbandonedCopies → AbandonedCopies
give_back list = record list { reserved = list.reserved - 1 }

-- The copies that stay, those that are over, and whether one of the registration's still runs.
pub record Released : Type 0 where
  pub kept : List Copy
  pub gone : List Copy
  pub still_running : Bool

-- `entry != nullptr && it->entry.get() != entry`
abbrev pub is_other : Option ℕ → Copy → Bool
is_other none copy = false
is_other (some entry) copy = not (copy.entry == entry)

-- The loop of `release`; `is_over` is what the runtime answers for each event.
unfoldable pub release_copies : (Copy → Bool) → Option ℕ → List Copy → Released
release_copies is_over entry [] = record { kept = []; gone = []; still_running = false }
release_copies is_over entry (copy ∷ copies) =
    let rest = release_copies is_over entry copies in
    if is_other entry copy
    then record rest { kept = copy ∷ rest.kept }
    else if is_over copy
    then record rest { gone = copy ∷ rest.gone }
    else record rest { kept = copy ∷ rest.kept; still_running = true }

unfoldable pub release : (Copy → Bool) → Option ℕ → AbandonedCopies → Bool × AbandonedCopies
unfolding release_copies
release is_over entry list =
    let released = release_copies is_over entry list.copies in
    (released.still_running, record list { copies = released.kept })

unfoldable pub reclaim : (Copy → Bool) → AbandonedCopies → AbandonedCopies
unfolding release
reclaim is_over list = (release is_over none list).1

unfoldable pub running : (Copy → Bool) → ℕ → AbandonedCopies → Bool × AbandonedCopies
unfolding release
running is_over entry list = release is_over (some entry) list

-- `AbandonedCopies::size`
abbrev pub size : AbandonedCopies → ℕ
size list = length list.copies
