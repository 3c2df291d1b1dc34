-- ===== src/Abandoned/Release.antt =====
-- `running`: what it says of the copies of a registration.
use hip_object.Prelude.{
  ℕ, ◌+◌, ◌≡◌, inl, inr, Bool, true, false, some, List, [], ◌∷◌, ◌==◌, All, arith, Bool-cases,
}
use hip_object.Prelude.Weigh.{weigh, weigh-nil, weigh-cons}
use hip_object.Abandoned.{Copy, AbandonedCopies, Released, release_copies, release, running}

-- No copy of `entry` is left.
abbrev pub IsClear : ℕ → List Copy → Type 0
IsClear entry = All (λ c. (c.entry == entry) ≡ false)

-- Each copy is kept or gone; what is gone is over and of `entry`; what is kept of `entry` still runs,
-- and nothing of it is kept unless the result says so.
abbrev pub IsReleased : (Copy → Bool) → ℕ → List Copy → Released → Type 0
IsReleased is_over entry copies r =
    ((w : Copy → ℕ) → weigh w copies ≡ weigh w r.kept + weigh w r.gone)
    × All (λ c. ((c.entry == entry) ≡ true) × (is_over c ≡ true)) r.gone
    × All (λ c. (c.entry == entry) ≡ true → is_over c ≡ false) r.kept
    × (r.still_running ≡ false → IsClear entry r.kept)

release_copies-IsReleased :
    (is_over : Copy → Bool) (entry : ℕ) (copies : List Copy)
    → IsReleased is_over entry copies (release_copies is_over (some entry) copies)
unfolding release_copies
release_copies-IsReleased is_over entry [] = ((λ w. omega (arith, weigh-nil w)), tt, tt, λ e. tt)
release_copies-IsReleased is_over entry (copy ∷ copies) =
    let (all, gone, kept, clear) = release_copies-IsReleased is_over entry copies in
    let r = release_copies is_over (some entry) copies in
    let sum = λ (w : Copy → ℕ). weigh-cons w copy copies in
    let keeps = λ (w : Copy → ℕ). weigh-cons w copy r.kept in
    let goes = λ (w : Copy → ℕ). weigh-cons w copy r.gone in
    elim (Bool-cases (copy.entry == entry)) [
      | inr other ↦ rw other (
        (λ w. omega (arith, all w, sum w, keeps w)),
        gone,
        ((λ h. absurd (ground (arith, h, other))), kept),
        λ e. (other, clear e),
      )
      | inl own ↦ elim (Bool-cases (is_over copy)) [
        | inl over ↦
            rw (own, over)
              ((λ w. omega (arith, all w, sum w, goes w)), ((own, over), gone), kept, clear)
        | inr runs ↦
            rw (own, runs)
              (
                (λ w. omega (arith, all w, sum w, keeps w)),
                gone,
                ((λ h. runs), kept),
                λ e. absurd (ground arith),
              )
      ]
    ]

-- When `running` says that no copy of a registration runs, the list holds none of them, so its staging
-- buffer can be used; whatever it says, every copy that it took from the list was one of that
-- registration's and is over, those of it that stay are not, and no other copy is lost.
pub running-IsReleased :
    (is_over : Copy → Bool) (entry : ℕ) (list : AbandonedCopies)
    → (gone : List Copy) × IsReleased is_over entry list.copies (record {
      kept = (running is_over entry list).1.copies;
      gone = gone;
      still_running = (running is_over entry list).0;
    })
unfolding running release
running-IsReleased is_over entry list = (
  (release_copies is_over (some entry) list.copies).gone,
  release_copies-IsReleased is_over entry list.copies,
)
