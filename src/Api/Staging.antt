-- ===== src/Api/Staging.antt =====
-- src/hipobj.cpp: copies between a registration's staging buffer and the caller's memory. An abandoned
-- copy names its registration by the key that it is registered at.
use hip_object.Prelude.{
  ℕ, ◌+◌, ◌-◌, Bool, true, false, Option, none, some, List, [], ◌∷◌, leb, if◌then◌else◌,
}
use hip_object.Prelude.Int.{ℤ, pos_part}
use hip_object.Buffer.{BufEntry, recount}
use hip_object.Abandoned.{Copy, reserve, add, give_back, release_copies, running, reclaim}
use hip_object.Api.Errors.{OpError, HipObjError, make_error}
use hip_object.Api.Checks.{range_in_registration}
use hip_object.Api.Instance.{
  Ending, gives, pends, Copying, event_created, copy_started, event_recorded, event_destroyed,
  Query, finished, not_ready, wrong, StageRound, Platform, Instance, Step,
}

-- How the wait for a copy ends.
pub data StageEnd : Type 0 where
  copied copy_failed timed_out : StageEnd

-- What one turn of the wait decides, if it is the last.
abbrev pub decide_stage : ℕ → ℕ → Query → Option StageEnd
decide_stage deadline now finished = some copied
decide_stage deadline now wrong = some copy_failed
decide_stage deadline now not_ready = if leb deadline now then some timed_out else none

-- The loop of `stageCopyWithDeadline`; none if the turns end before the loop does.
unfoldable pub stage_wait : ℕ → List StageRound → Option StageEnd
stage_wait deadline [] = none
stage_wait deadline (r ∷ rounds) =
    let more = stage_wait deadline rounds in
    elim (decide_stage deadline r.now r.query) [ some e ↦ some e | none ↦ more ]

abbrev pub fails_with : OpError → Instance → Ending HipObjError × Instance
fails_with e i = (gives (make_error e), i)

-- The slot that was not used is given back.
abbrev pub without_slot : Instance → Instance
without_slot i = record i { abandoned = give_back i.abandoned }

-- The event is destroyed, and then the slot given back.
abbrev pub without_event : ℕ → Instance → Instance
without_event done i = without_slot (record i { hip_log = event_destroyed done ∷ i.hip_log })

-- The copy is handed to the abandoned copies, with a copy of the registration's `shared_ptr`.
abbrev pub abandon : ℕ → ℕ → Instance → Instance
abandon key done i = record i {
  abandoned = add (record { entry = key; done = done }) i.abandoned;
  buffers = recount (λ n. n + 1) key i.buffers;
}

-- The end of `stageCopyWithDeadline`.
unfoldable pub after_wait : ℕ → ℕ → Option StageEnd → Step
after_wait key done none i = (pends, i)
after_wait key done (some copied) i = fails_with OpError.success (without_event done i)
after_wait key done (some copy_failed) i = fails_with OpError.internal_error (without_event done i)
after_wait key done (some timed_out) i = fails_with OpError.internal_error (abandon key done i)

-- The copies that are over are released: their events are destroyed, and their registrations let go.
unfoldable pub let_go : List Copy → Instance → Instance
let_go [] i = i
let_go (copy ∷ gone) i = let_go gone (record i {
  hip_log = event_destroyed copy.done ∷ i.hip_log;
  buffers = recount (λ n. n - 1) copy.entry i.buffers;
})

-- The copies that `stageToDevice` and `stageToHost` make, of the range from `start`.
abbrev pub onto_device : ℕ → ℕ → ℕ → ℕ → Copying
onto_device dev_ptr size host start = record {
  dst = dev_ptr + start;
  src = host + start;
  size = size;
  to_device = true;
}

abbrev pub onto_host : ℕ → ℕ → ℕ → ℕ → Copying
onto_host dev_ptr size host start = record {
  dst = host + start;
  src = dev_ptr + start;
  size = size;
  to_device = false;
}

module _ (platform : Platform) where
  -- The part after the copy has been started and recorded, or not.
  unfoldable pub await : ℕ → ℕ → Bool → Step
  unfolding after_wait stage_wait
  await key done false i = fails_with OpError.internal_error (without_event done i)
  await key done true i =
      let start = platform.hip.stage_start i.hip_log in
      after_wait key done
        (stage_wait (start + platform.stage_timeout) (platform.hip.stage_rounds i.hip_log done)) i

  -- The part after the copy has been started, or not.
  unfoldable pub recorded : ℕ → ℕ → Bool → Step
  unfolding await
  recorded key done false i = fails_with OpError.internal_error (without_event done i)
  recorded key done true i =
      let ok = platform.hip.event_record i.hip_log done in
      await key done ok (record i { hip_log = event_recorded done ok ∷ i.hip_log })

  -- The part after the event has been created, or not.
  unfoldable pub with_event : ℕ → Copying → Option ℕ → Step
  unfolding recorded
  with_event key copying none i = fails_with OpError.internal_error (without_slot i)
  with_event key copying (some done) i =
      let ok = platform.hip.memcpy_async i.hip_log copying in
      recorded key done ok (record i { hip_log = copy_started copying ok ∷ i.hip_log })

  unfoldable pub stage_copy_with_deadline : ℕ → Copying → Step
  unfolding with_event reserve
  stage_copy_with_deadline key copying i =
      let done = platform.hip.event_create i.hip_log in
      with_event key copying done (record i {
        abandoned = reserve platform.allocate i.abandoned;
        hip_log = event_created done ∷ i.hip_log;
      })

  -- `Instance::abandoned.running(buf)`
  unfoldable pub is_running : ℕ → Instance → Bool × Instance
  unfolding let_go running
  is_running key i =
      let is_over = platform.hip.is_over i.hip_log in
      let (still_running, abandoned) = running is_over key i.abandoned in
      let gone = (release_copies is_over (some key) i.abandoned.copies).gone in
      (still_running, let_go gone (record i { abandoned = abandoned }))

  -- `Instance::abandoned.reclaim()`
  unfoldable pub reclaim_all : Instance → Instance
  unfolding let_go reclaim
  reclaim_all i =
      let is_over = platform.hip.is_over i.hip_log in
      let gone = (release_copies is_over none i.abandoned.copies).gone in
      let_go gone (record i { abandoned = reclaim is_over i.abandoned })

  unfoldable pub check_no_abandoned_copy : ℕ → BufEntry → Step
  unfolding is_running
  check_no_abandoned_copy key buf i = elim buf.host_buf [
    | none ↦ fails_with OpError.success i
    | some host ↦
        let (still_running, j) = is_running key i in
        fails_with (if still_running then OpError.busy else OpError.success) j
  ]

  -- The checks of `stageToDevice` and `stageToHost`, which then make the copy that `copying` says for
  -- the staging buffer and the start of the range.
  unfoldable pub stage : (ℕ → ℕ → Copying) → ℕ → BufEntry → ℕ → ℤ → Step
  unfolding stage_copy_with_deadline
  stage copying key buf size offset i = elim buf.host_buf [
    | none ↦ fails_with OpError.success i
    | some host ↦
        if range_in_registration offset size buf.size
        then stage_copy_with_deadline key (copying host (pos_part offset)) i
        else fails_with OpError.invalid_value i
  ]

  unfoldable pub stage_to_device : ℕ → BufEntry → ℕ → ℤ → Step
  unfolding stage
  stage_to_device dev_ptr buf size offset = stage (onto_device dev_ptr size) dev_ptr buf size offset

  unfoldable pub stage_to_host : ℕ → BufEntry → ℕ → ℤ → Step
  unfolding stage
  stage_to_host dev_ptr buf size offset = stage (onto_host dev_ptr size) dev_ptr buf size offset
