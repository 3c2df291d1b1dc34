-- ===== src/Api/Balance.antt =====
-- src/hipobj.cpp, `stageCopyWithDeadline`: the slot that is set aside for a copy, and when the copy is
-- handed over.
use hip_object.Prelude.{
  ℕ, ◌+◌, ◌-◌, ◌≡◌, ◌⊎◌, refl, inl, inr, Bool, true, false, Option, none, some, [], ◌∷◌, ◌++◌, ltb,
  length, arith, ap, ◌∙◌, sym, subst, Bool-cases,
}
use hip_object.Buffer.{recount}
use hip_object.Abandoned.{AbandonedCopies, reserve, add, give_back}
use hip_object.Api.Errors.{OpError, HipObjError, make_error}
use hip_object.Api.Instance.{
  Ending, gives, throws, pends, Copying, HipLog, event_created, copy_started, event_recorded,
  Platform, Instance,
}
use hip_object.Api.Staging.{
  StageEnd, copied, copy_failed, timed_out, after_wait, await, recorded, with_event,
  stage_copy_with_deadline,
}
use hip_object.Api.Waits.{TimesOut, wait-TimesOut, TimesOut-wait}

-- What a copy that began in `i`, with its slot set aside by then, leaves, where `Late` says of which
-- event the wait has timed out.
abbrev pub Balanced : (ℕ → Type 0) → ℕ → Instance → Ending HipObjError × Instance → Type 0
Balanced Late key i (pends, k) =
    (k.abandoned.reserved ≡ i.abandoned.reserved)
    × (k.abandoned.copies ≡ i.abandoned.copies)
    × (k.buffers ≡ i.buffers)
Balanced Late key i (throws, k) = ⊥
Balanced Late key i (gives e, k) =
    (k.abandoned.reserved ≡ i.abandoned.reserved - 1)
    × (((k.abandoned.copies ≡ i.abandoned.copies)
          × (k.buffers ≡ i.buffers)
          × ((done : ℕ) → ¬ Late done))
        ⊎ ((e ≡ make_error OpError.internal_error)
            × ((done : ℕ) × Late done
                × (k.abandoned.copies
                    ≡ i.abandoned.copies ++ record { entry = key; done = done } ∷ [])
                × (k.buffers ≡ recount (λ n. n + 1) key i.buffers))))

Balanced-iff :
    {Late Late' : ℕ → Type 0} (key : ℕ) (i : Instance) (r : Ending HipObjError × Instance)
    → ((done : ℕ) → Late done → Late' done)
    → ((done : ℕ) → Late' done → Late done)
    → Balanced Late key i r
    → Balanced Late' key i r
Balanced-iff key i (pends, k) to from b = b
Balanced-iff key i (throws, k) to from b = b
Balanced-iff key i (gives e, k) to from (x, inl (y, z, never)) =
    (x, inl (y, z, λ done l. never done (from done l)))
Balanced-iff key i (gives e, k) to from (x, inr (bad, (done, l, y, z))) =
    (x, inr (bad, (done, to done l, y, z)))

after_wait-Balanced :
    (key done : ℕ) (o : Option StageEnd) (i : Instance)
    → Balanced (λ d. (d ≡ done) × (o ≡ some timed_out)) key i (after_wait key done o i)
unfolding after_wait give_back add
after_wait-Balanced key done none i = (refl, refl, refl)
after_wait-Balanced key done (some copied) i =
    (refl, inl (refl, refl, λ d (x, y). absurd (ground (arith, y))))
after_wait-Balanced key done (some copy_failed) i =
    (refl, inl (refl, refl, λ d (x, y). absurd (ground (arith, y))))
after_wait-Balanced key done (some timed_out) i =
    (refl, inr (refl, (done, (refl, refl), refl, refl)))

-- A copy that was started from this log, with the event behind it, was still found to run at the
-- deadline of its wait.
abbrev pub IsLate : Platform → Copying → HipLog → ℕ → Type 0
IsLate platform copying log done =
    (platform.hip.event_create log ≡ some done)
    × (platform.hip.memcpy_async (event_created (some done) ∷ log) copying ≡ true)
    × (platform.hip.event_record (copy_started copying true ∷ event_created (some done) ∷ log) done
        ≡ true)
    × (let after =
          event_recorded done true ∷ copy_started copying true ∷ event_created (some done) ∷ log in
        TimesOut (platform.hip.stage_start after + platform.stage_timeout)
          (platform.hip.stage_rounds after done))

-- What a whole copy, which sets its slot aside itself, does to the instance that it begins in. While it
-- still waits, its slot is set aside. When it ends, its slot has been given back or used, never lost:
-- either the copy is not late, and no copy was handed over, and no holder changed, or it is late, and
-- failed, and exactly this copy was handed over, with one more holder of its registration. It does not
-- throw.
abbrev pub StagesOnce : Platform → Copying → ℕ → Instance → Ending HipObjError × Instance → Type 0
StagesOnce platform copying key i (pends, k) =
    (k.abandoned.reserved ≡ i.abandoned.reserved + 1)
    × (k.abandoned.copies ≡ i.abandoned.copies)
    × (k.buffers ≡ i.buffers)
StagesOnce platform copying key i (throws, k) = ⊥
StagesOnce platform copying key i (gives e, k) =
    (k.abandoned.reserved ≡ i.abandoned.reserved)
    × (((k.abandoned.copies ≡ i.abandoned.copies)
          × (k.buffers ≡ i.buffers)
          × ((done : ℕ) → ¬ IsLate platform copying i.hip_log done))
        ⊎ ((e ≡ make_error OpError.internal_error)
            × ((done : ℕ) × IsLate platform copying i.hip_log done
                × (k.abandoned.copies
                    ≡ i.abandoned.copies ++ record { entry = key; done = done } ∷ [])
                × (k.buffers ≡ recount (λ n. n + 1) key i.buffers))))

reserve_adds :
    (allocate : ℕ → ℕ) (a : AbandonedCopies)
    → ((reserve allocate a).reserved ≡ a.reserved + 1) × ((reserve allocate a).copies ≡ a.copies)
unfolding reserve
reserve_adds allocate a = elim (Bool-cases (ltb a.capacity (length a.copies + a.reserved + 1))) [
  | inl grows ↦ rw (reserve, grows) (refl, refl)
  | inr room ↦ rw (reserve, room) (refl, refl)
]

with_slot :
    (platform : Platform) (copying : Copying) (key : ℕ) (i : Instance) (a : AbandonedCopies)
    (r : Ending HipObjError × Instance)
    → a.reserved ≡ i.abandoned.reserved + 1
    → a.copies ≡ i.abandoned.copies
    → Balanced (IsLate platform copying i.hip_log) key (record i { abandoned = a }) r
    → StagesOnce platform copying key i r
with_slot platform copying key i a (pends, k) p q (x, y, z) = (x ∙ p, y ∙ q, z)
with_slot platform copying key i a (throws, k) p q b = b
with_slot platform copying key i a (gives e, k) p q (x, inl (y, z, never)) =
    (omega (arith, x, p), inl (y ∙ q, z, never))
with_slot platform copying key i a (gives e, k) p q (x, inr (bad, (done, l, y, z))) = (
  omega (arith, x, p),
  inr (bad, (done, l, y ∙ ap (λ cs. cs ++ record { entry = key; done = done } ∷ []) q, z)),
)

module _ (platform : Platform) where
  -- The wait for an event times out, when the log is this one.
  abbrev IsLateWait : HipLog → ℕ → Type 0
  IsLateWait log done =
      TimesOut (platform.hip.stage_start log + platform.stage_timeout)
        (platform.hip.stage_rounds log done)

  abbrev IsLateRecorded : HipLog → ℕ → Type 0
  IsLateRecorded log done =
      (platform.hip.event_record log done ≡ true) × IsLateWait (event_recorded done true ∷ log) done

  abbrev IsLateStarted : Copying → HipLog → ℕ → Type 0
  IsLateStarted copying log done =
      (platform.hip.memcpy_async log copying ≡ true)
      × IsLateRecorded (copy_started copying true ∷ log) done

  await-Balanced :
      (key done : ℕ) (ok : Bool) (i : Instance)
      → Balanced
          (λ d. (d ≡ done) × (ok ≡ true) × IsLateWait i.hip_log done)
          key
          i
          (await platform key done ok i)
  unfolding await give_back
  await-Balanced key done false i =
      (refl, inl (refl, refl, λ d (x, y, z). absurd (ground (arith, y))))
  await-Balanced key done true i =
      Balanced-iff key i (await platform key done true i)
        (λ d (x, y). (x, refl, wait-TimesOut _ _ y)) (λ d (x, y, z). (x, TimesOut-wait _ z))
        (after_wait-Balanced key done _ i)

  recorded-Balanced :
      (key done : ℕ) (ok : Bool) (i : Instance)
      → Balanced
          (λ d. (d ≡ done) × (ok ≡ true) × IsLateRecorded i.hip_log done)
          key
          i
          (recorded platform key done ok i)
  unfolding recorded give_back
  recorded-Balanced key done false i =
      (refl, inl (refl, refl, λ d (x, y, z). absurd (ground (arith, y))))
  recorded-Balanced key done true i =
      let ok = platform.hip.event_record i.hip_log done in
      Balanced-iff key i (recorded platform key done true i)
        (λ d (x, y, z).
          (x, refl, (y, subst (λ b. IsLateWait (event_recorded done b ∷ i.hip_log) done) y z)))
        (λ d (x, y, (u, z)).
          (x, u, subst (λ b. IsLateWait (event_recorded done b ∷ i.hip_log) done) (sym u) z))
        (await-Balanced key done ok (record i { hip_log = event_recorded done ok ∷ i.hip_log }))

  with_event-Balanced :
      (key : ℕ) (copying : Copying) (o : Option ℕ) (i : Instance)
      → Balanced
          (λ d. (o ≡ some d) × IsLateStarted copying i.hip_log d)
          key
          i
          (with_event platform key copying o i)
  unfolding with_event give_back
  with_event-Balanced key copying none i =
      (refl, inl (refl, refl, λ d (x, y). absurd (ground (arith, x))))
  with_event-Balanced key copying (some done) i =
      let ok = platform.hip.memcpy_async i.hip_log copying in
      let P = λ (b : Bool) (d : ℕ). IsLateRecorded (copy_started copying b ∷ i.hip_log) d in
      Balanced-iff key i (with_event platform key copying (some done) i)
        (λ d (x, y, z). (ap some (sym x), (y, subst (P true) (sym x) (subst (λ b. P b done) y z))))
        (λ d (x, (y, z)).
          let same : d ≡ done = ground (arith, x) in
          (same, y, subst (λ b. P b done) (sym y) (subst (P true) same z)))
        (recorded-Balanced key done ok (record i { hip_log = copy_started copying ok ∷ i.hip_log }))

  -- However the runtime answers, a copy that stages a registration loses neither its slot nor a copy:
  -- when it ends, it has handed its copy over, with its event, exactly if the copy was started and
  -- recorded and was still found to run at the deadline of its wait, and it has failed then.
  pub stage_copy_with_deadline-StagesOnce :
      (key : ℕ) (copying : Copying) (i : Instance)
      → StagesOnce platform copying key i (stage_copy_with_deadline platform key copying i)
  unfolding stage_copy_with_deadline
  stage_copy_with_deadline-StagesOnce key copying i =
      let event = platform.hip.event_create i.hip_log in
      let a = reserve platform.allocate i.abandoned in
      let j = record i { abandoned = a } in
      let (more, same) = reserve_adds platform.allocate i.abandoned in
      let P = λ (o : Option ℕ) (d : ℕ). IsLateStarted copying (event_created o ∷ i.hip_log) d in
      with_slot platform copying key i a (stage_copy_with_deadline platform key copying i) more same
        (Balanced-iff key j (stage_copy_with_deadline platform key copying i)
          (λ d (x, y). let (a, (b, c)) = subst (λ o. P o d) x y in (x, a, b, c))
          (λ d (x, a, b, c). (x, subst (λ o. P o d) (sym x) (a, (b, c))))
          (with_event-Balanced key copying event
            (record j { hip_log = event_created event ∷ i.hip_log })))
