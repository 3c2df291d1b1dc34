-- ===== src/Api/Success/Staging.antt =====
-- src/hipobj.cpp: what a staging copy that succeeds has done.
use hip_object.Prelude.{
  ℕ, ◌+◌, ◌≡◌, ◌⊎◌, refl, inl, inr, Bool, true, false, Option, none, some, ◌∷◌, arith, Bool-cases,
  Option-cases,
}
use hip_object.Prelude.Int.{ℤ, pos_part}
use hip_object.Buffer.{BufEntry}
use hip_object.Abandoned.{reserve}
use hip_object.Api.Checks.{range_in_registration}
use hip_object.Api.Instance.{
  Copying, HipLog, event_created, copy_started, event_recorded, Platform, Instance,
}
use hip_object.Api.Staging.{
  StageEnd, copied, copy_failed, timed_out, stage_wait, after_wait, await, recorded, with_event,
  stage_copy_with_deadline, is_running, check_no_abandoned_copy, stage, onto_device, onto_host,
  stage_to_device, stage_to_host,
}
use hip_object.Api.Waits.{Finishes, wait-Finishes}
use hip_object.Api.Success.{succeeded}

-- A copy was started with an event behind it, and the wait found the event to be over, having found it
-- not to be before that only ahead of the deadline.
abbrev pub IsCopied : Platform → Copying → HipLog → Type 0
IsCopied platform copying log =
    (done : ℕ) × (platform.hip.event_create log ≡ some done)
    × (platform.hip.memcpy_async (event_created (some done) ∷ log) copying ≡ true)
    × (platform.hip.event_record (copy_started copying true ∷ event_created (some done) ∷ log) done
        ≡ true)
    × (let after =
          event_recorded done true ∷ copy_started copying true ∷ event_created (some done) ∷ log in
        Finishes (platform.hip.stage_start after + platform.stage_timeout)
          (platform.hip.stage_rounds after done))

-- A range of a registration that has a staging buffer has been copied.
abbrev pub IsStaged : Platform → (ℕ → ℕ → Copying) → BufEntry → ℤ → HipLog → Type 0
IsStaged platform copying buf offset log =
    (buf.host_buf ≡ none)
    ⊎ ((host : ℕ) × (buf.host_buf ≡ some host)
        × IsCopied platform (copying host (pos_part offset)) log)

after_wait_success :
    (key done : ℕ) (o : Option StageEnd) (i : Instance)
    → succeeded (after_wait key done o i).0 ≡ true
    → o ≡ some copied
unfolding after_wait
after_wait_success key done none i h = absurd (ground (arith, h))
after_wait_success key done (some copied) i h = refl
after_wait_success key done (some copy_failed) i h = absurd (ground (arith, h))
after_wait_success key done (some timed_out) i h = absurd (ground (arith, h))

module _ (platform : Platform) where
  await_success :
      (key done : ℕ) (ok : Bool) (i : Instance)
      → succeeded (await platform key done ok i).0 ≡ true
      → (ok ≡ true)
        × (stage_wait
              (platform.hip.stage_start i.hip_log + platform.stage_timeout)
              (platform.hip.stage_rounds i.hip_log done)
            ≡ some copied)
  unfolding await
  await_success key done false i h = absurd (ground (arith, h))
  await_success key done true i h = (refl, after_wait_success key done _ i h)

  recorded_success :
      (key done : ℕ) (ok : Bool) (i : Instance)
      → succeeded (recorded platform key done ok i).0 ≡ true
      → (ok ≡ true)
        × (platform.hip.event_record i.hip_log done ≡ true)
        × (stage_wait
              (platform.hip.stage_start (event_recorded done true ∷ i.hip_log)
                + platform.stage_timeout)
              (platform.hip.stage_rounds (event_recorded done true ∷ i.hip_log) done)
            ≡ some copied)
  unfolding recorded
  recorded_success key done false i h = absurd (ground (arith, h))
  recorded_success key done true i h =
      let ok = platform.hip.event_record i.hip_log done in
      let (yes_recorded, waited) =
        await_success key done ok (record i { hip_log = event_recorded done ok ∷ i.hip_log }) h in
      (refl, yes_recorded, rw yes_recorded at waited)

  with_event_success :
      (key : ℕ) (copying : Copying) (o : Option ℕ) (i : Instance)
      → succeeded (with_event platform key copying o i).0 ≡ true
      → (done : ℕ) × (o ≡ some done)
        × (platform.hip.memcpy_async i.hip_log copying ≡ true)
        × (platform.hip.event_record (copy_started copying true ∷ i.hip_log) done ≡ true)
        × (let after = event_recorded done true ∷ copy_started copying true ∷ i.hip_log in
            stage_wait
              (platform.hip.stage_start after + platform.stage_timeout)
              (platform.hip.stage_rounds after done)
            ≡ some copied)
  unfolding with_event
  with_event_success key copying none i h = absurd (ground (arith, h))
  with_event_success key copying (some done) i h =
      let ok = platform.hip.memcpy_async i.hip_log copying in
      let (started, was_recorded, waited) =
        recorded_success key done ok (record i { hip_log = copy_started copying ok ∷ i.hip_log })
          h in
      (done, refl, started, rw started at was_recorded, rw started at waited)

  stage_copy_success :
      (key : ℕ) (copying : Copying) (i : Instance)
      → succeeded (stage_copy_with_deadline platform key copying i).0 ≡ true
      → IsCopied platform copying i.hip_log
  unfolding stage_copy_with_deadline
  stage_copy_success key copying i h =
      let event = platform.hip.event_create i.hip_log in
      let (done, made, started, was_recorded, waited) =
        with_event_success key copying event
          (record i {
            abandoned = reserve platform.allocate i.abandoned;
            hip_log = event_created event ∷ i.hip_log;
          })
          h in
      (
        done,
        made,
        rw made at started,
        rw made at was_recorded,
        wait-Finishes _ _ (rw made at waited),
      )

  stage_success :
      (copying : ℕ → ℕ → Copying) (key : ℕ) (buf : BufEntry) (size : ℕ) (offset : ℤ) (i : Instance)
      → succeeded (stage platform copying key buf size offset i).0 ≡ true
      → IsStaged platform copying buf offset i.hip_log
  unfolding stage
  stage_success copying key buf size offset i h = elim (Option-cases buf.host_buf) [
    | inl direct ↦ inl direct
    | inr (host, staged) ↦ elim (Bool-cases (range_in_registration offset size buf.size)) [
      | inl inside ↦ inr (
        host,
        staged,
        stage_copy_success key (copying host (pos_part offset)) i (rw (stage, staged, inside) at h),
      )
      | inr out ↦ absurd (ground (arith, rw (stage, staged, out) at h))
    ]
  ]

  pub stage_to_device_success :
      (key : ℕ) (buf : BufEntry) (size : ℕ) (offset : ℤ) (i : Instance)
      → succeeded (stage_to_device platform key buf size offset i).0 ≡ true
      → IsStaged platform (onto_device key size) buf offset i.hip_log
  unfolding stage_to_device
  stage_to_device_success key buf size offset i h =
      stage_success (onto_device key size) key buf size offset i h

  pub stage_to_host_success :
      (key : ℕ) (buf : BufEntry) (size : ℕ) (offset : ℤ) (i : Instance)
      → succeeded (stage_to_host platform key buf size offset i).0 ≡ true
      → IsStaged platform (onto_host key size) buf offset i.hip_log
  unfolding stage_to_host
  stage_to_host_success key buf size offset i h =
      stage_success (onto_host key size) key buf size offset i h

  -- No copy that was abandoned uses the staging buffer.
  pub checked_success :
      (key : ℕ) (buf : BufEntry) (i : Instance)
      → succeeded (check_no_abandoned_copy platform key buf i).0 ≡ true
      → (buf.host_buf ≡ none) ⊎ ((is_running platform key i).0 ≡ false)
  unfolding check_no_abandoned_copy
  checked_success key buf i h = elim (Option-cases buf.host_buf) [
    | inl direct ↦ inl direct
    | inr (host, staged) ↦ elim (Bool-cases (is_running platform key i).0) [
      | inl runs ↦ absurd (ground (arith, rw (check_no_abandoned_copy, staged, runs) at h))
      | inr over ↦ inr over
    ]
  ]
