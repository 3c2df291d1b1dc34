-- ===== src/Api/Waits.antt =====
-- src/hipobj.cpp, `stageCopyWithDeadline`: how the wait for a copy ends, said of the answers that the
-- runtime gave in its turns.
use hip_object.Prelude.{
  ℕ, ◌≤◌, ◌<◌, ◌≡◌, refl, inl, inr, true, false, some, List, [], ◌∷◌, leb, arith, Bool-cases,
}
use hip_object.Api.Instance.{Query, finished, not_ready, wrong, StageRound}
use hip_object.Api.Staging.{copied, timed_out, stage_wait}

-- The copy was found to be over, after turns before the deadline that found it running.
pub data Finishes (deadline : ℕ) : List StageRound → Type 0 where
  now :
      (r : StageRound) (rounds : List StageRound)
      → r.query ≡ finished
      → Finishes deadline (r ∷ rounds)
  later :
      (r : StageRound) (rounds : List StageRound)
      → r.now < deadline
      → r.query ≡ not_ready
      → Finishes deadline rounds
      → Finishes deadline (r ∷ rounds)

-- The copy was found to run at the deadline or later, after turns before the deadline that found it
-- running, too.
pub data TimesOut (deadline : ℕ) : List StageRound → Type 0 where
  late :
      (r : StageRound) (rounds : List StageRound)
      → deadline ≤ r.now
      → r.query ≡ not_ready
      → TimesOut deadline (r ∷ rounds)
  early :
      (r : StageRound) (rounds : List StageRound)
      → r.now < deadline
      → r.query ≡ not_ready
      → TimesOut deadline rounds
      → TimesOut deadline (r ∷ rounds)

leb-true : (a b : ℕ) → a ≤ b → leb a b ≡ true
leb-true a b h = ground (arith, h)

leb-false : (a b : ℕ) → b < a → leb a b ≡ false
leb-false a b h = ground (arith, h)

pub wait-Finishes :
    (deadline : ℕ) (rounds : List StageRound)
    → stage_wait deadline rounds ≡ some copied
    → Finishes deadline rounds
unfolding stage_wait
wait-Finishes deadline [] h = absurd (ground (arith, h))
wait-Finishes deadline (r ∷ rounds) h = go (λ k. wait-Finishes deadline rounds k) r.query refl
  where
    go :
        (stage_wait deadline rounds ≡ some copied → Finishes deadline rounds)
        → (q : Query) → r.query ≡ q
        → Finishes deadline (r ∷ rounds)
    go rest finished e = now r rounds e
    go rest wrong e = absurd (ground (arith, rw (stage_wait, e) at h))
    go rest not_ready e = elim (Bool-cases (leb deadline r.now)) [
      | inl past ↦ absurd (ground (arith, rw (stage_wait, e, past) at h))
      | inr before ↦
          later r rounds (ground (arith, before)) e (rest (rw (stage_wait, e, before) at h))
    ]

pub wait-TimesOut :
    (deadline : ℕ) (rounds : List StageRound)
    → stage_wait deadline rounds ≡ some timed_out
    → TimesOut deadline rounds
unfolding stage_wait
wait-TimesOut deadline [] h = absurd (ground (arith, h))
wait-TimesOut deadline (r ∷ rounds) h = go (λ k. wait-TimesOut deadline rounds k) r.query refl
  where
    go :
        (stage_wait deadline rounds ≡ some timed_out → TimesOut deadline rounds)
        → (q : Query) → r.query ≡ q
        → TimesOut deadline (r ∷ rounds)
    go rest finished e = absurd (ground (arith, rw (stage_wait, e) at h))
    go rest wrong e = absurd (ground (arith, rw (stage_wait, e) at h))
    go rest not_ready e = elim (Bool-cases (leb deadline r.now)) [
      | inl past ↦ late r rounds (ground (arith, past)) e
      | inr before ↦
          early r rounds (ground (arith, before)) e (rest (rw (stage_wait, e, before) at h))
    ]

pub TimesOut-wait :
    (deadline : ℕ) {rounds : List StageRound}
    → TimesOut deadline rounds
    → stage_wait deadline rounds ≡ some timed_out
unfolding stage_wait
TimesOut-wait deadline (late r rounds past e) =
    rw (stage_wait, e, leb-true deadline r.now past) refl
TimesOut-wait deadline (early r rounds before e t) =
    rw (stage_wait, e, leb-false deadline r.now before) (TimesOut-wait deadline t)
