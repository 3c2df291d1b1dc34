-- ===== src/Api/Ends.antt =====
-- src/hipobj.cpp, `stageCopyWithDeadline`: that the wait for a copy ends.
use hip_object.Prelude.{
  ℕ, ◌+◌, ◌≤◌, ◌≡◌, ◌⊎◌, refl, inl, inr, Bool, true, false, Option, none, some, List, [], ◌∷◌, leb,
  arith, Option-cases,
}
use hip_object.Api.Errors.{HipObjError}
use hip_object.Api.Instance.{
  Ending, gives, throws, pends, Copying, HipLog, Query, finished, not_ready, wrong, StageRound,
  Platform, Instance,
}
use hip_object.Api.Staging.{
  StageEnd, copied, copy_failed, timed_out, decide_stage, stage_wait, after_wait, await, recorded,
  with_event, stage_copy_with_deadline,
}

-- The turns of a wait, of which one comes at the deadline or later.
abbrev pub Reaches : ℕ → List StageRound → Type 0
Reaches deadline [] = ⊥
Reaches deadline (r ∷ rounds) = (deadline ≤ r.now) ⊎ Reaches deadline rounds

decided :
    (deadline t : ℕ) (q : Query)
    → deadline ≤ t
    → (e : StageEnd) × (decide_stage deadline t q ≡ some e)
decided deadline t finished h = (copied, refl)
decided deadline t wrong h = (copy_failed, refl)
decided deadline t not_ready h = (timed_out, rw leb_true refl)
  where
    leb_true : leb deadline t ≡ true
    leb_true = ground (arith, h)

-- A wait whose clock reaches the deadline ends.
stage_wait_ends :
    (deadline : ℕ) (rounds : List StageRound)
    → Reaches deadline rounds
    → (e : StageEnd) × (stage_wait deadline rounds ≡ some e)
unfolding stage_wait
stage_wait_ends deadline [] h = absurd h
stage_wait_ends deadline (r ∷ rounds) (inl late) =
    let (e, q) = decided deadline r.now r.query late in (e, rw (stage_wait, q) refl)
stage_wait_ends deadline (r ∷ rounds) (inr later) =
    let (e, q) = stage_wait_ends deadline rounds later in
    elim (Option-cases (decide_stage deadline r.now r.query)) [
      | inl goes_on ↦ (e, rw (stage_wait, goes_on) q)
      | inr (f, ends) ↦ (f, rw (stage_wait, ends) refl)
    ]

-- Not still waiting.
abbrev pub HasEnded : Ending HipObjError → Type 0
HasEnded (gives e) = Unit {0}
HasEnded throws = Unit {0}
HasEnded pends = ⊥

module _ (platform : Platform) where
  after_wait_ends :
      (key done : ℕ) (e : StageEnd) (i : Instance) → HasEnded (after_wait key done (some e) i).0
  unfolding after_wait
  after_wait_ends key done copied i = tt
  after_wait_ends key done copy_failed i = tt
  after_wait_ends key done timed_out i = tt

  -- The clock of every wait for a copy reaches its deadline.
  abbrev pub ClockAdvances : Type 0
  ClockAdvances =
      (log : HipLog) (done : ℕ)
      → Reaches (platform.hip.stage_start log + platform.stage_timeout)
          (platform.hip.stage_rounds log done)

  await_ends :
      (key done : ℕ) (ok : Bool) (i : Instance)
      → ClockAdvances
      → HasEnded (await platform key done ok i).0
  unfolding await
  await_ends key done false i clock = tt
  await_ends key done true i clock =
      let (e, q) = stage_wait_ends _ _ (clock i.hip_log done) in
      rw (await, q) (after_wait_ends key done e i)

  recorded_ends :
      (key done : ℕ) (ok : Bool) (i : Instance)
      → ClockAdvances
      → HasEnded (recorded platform key done ok i).0
  unfolding recorded
  recorded_ends key done false i clock = tt
  recorded_ends key done true i clock = await_ends key done _ _ clock

  with_event_ends :
      (key : ℕ) (copying : Copying) (o : Option ℕ) (i : Instance)
      → ClockAdvances
      → HasEnded (with_event platform key copying o i).0
  unfolding with_event
  with_event_ends key copying none i clock = tt
  with_event_ends key copying (some done) i clock = recorded_ends key done _ _ clock

  -- If the clock of every wait for a copy reaches its deadline, then a copy that stages a
  -- registration ends, however the runtime answers.
  pub stage_copy_with_deadline-HasEnded :
      (key : ℕ) (copying : Copying) (i : Instance)
      → ClockAdvances
      → HasEnded (stage_copy_with_deadline platform key copying i).0
  unfolding stage_copy_with_deadline
  stage_copy_with_deadline-HasEnded key copying i clock =
      with_event_ends key copying (platform.hip.event_create i.hip_log) _ clock
