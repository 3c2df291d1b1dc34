-- ===== src/Api/Holders/Staging.antt =====
-- src/hipobj.cpp: the staging copies leave each abandoned copy a holder of its registration.
use hip_object.Prelude.{
  ℕ, ◌+◌, ◌-◌, ◌≤◌, ◌<◌, ◌≡◌, refl, ap, inl, inr, Bool, true, false, Option, none, some, List, [],
  ◌∷◌, arith, Bool-cases, Option-cases,
}
use hip_object.Prelude.Int.{ℤ}
use hip_object.Prelude.Weigh.{weigh, weigh-nil, weigh-cons, weigh-append, hits}
use hip_object.Buffer.{BufEntry, recount}
use hip_object.Abandoned.{
  Copy, AbandonedCopies, release_copies, is_other, add, reserve, give_back, running, release,
  reclaim,
}
use hip_object.Api.Checks.{range_in_registration}
use hip_object.Api.Instance.{Copying, event_destroyed, Platform, Instance}
use hip_object.Api.Staging.{
  StageEnd, copied, copy_failed, timed_out, after_wait, await, recorded, with_event,
  stage_copy_with_deadline, let_go, is_running, reclaim_all, check_no_abandoned_copy, stage,
  stage_to_device, stage_to_host, onto_device, onto_host,
}
use hip_object.Api.Holders.{
  copies_at, holders, InstanceIsHeld, holders_more, holders_less, held_there,
}

release_copies_sum :
    (is_over : Copy → Bool) (entry : Option ℕ) (w : Copy → ℕ) (copies : List Copy)
    → weigh w copies
      ≡ weigh w (release_copies is_over entry copies).kept
        + weigh w (release_copies is_over entry copies).gone
unfolding release_copies
release_copies_sum is_over entry w [] = omega (arith, weigh-nil w)
release_copies_sum is_over entry w (copy ∷ copies) =
    let rest = release_copies is_over entry copies in
    let sum = release_copies_sum is_over entry w copies in
    let all = weigh-cons w copy copies in
    let keeps = weigh-cons w copy rest.kept in
    let goes = weigh-cons w copy rest.gone in
    elim (Bool-cases (is_other entry copy)) [
      | inl other ↦ rw other (omega (arith, sum, all, keeps))
      | inr own ↦ elim (Bool-cases (is_over copy)) [
        | inl over ↦ rw (own, over) (omega (arith, sum, all, goes))
        | inr runs ↦ rw (own, runs) (omega (arith, sum, all, keeps))
      ]
    ]

less_and_less : (a b c m n s : ℕ) → b ≤ c + n → a ≤ b + m → s ≡ m + n → a ≤ c + s
less_and_less a b c m n s p q e = omega (arith, p, q, e)

holders-let_go :
    (gone : List Copy) (i : Instance) (k : ℕ)
    → holders k i.buffers ≤ holders k (let_go gone i).buffers + copies_at k gone
unfolding let_go
holders-let_go [] i k = omega arith
holders-let_go (copy ∷ gone) i k =
    let j = record i {
      hip_log = event_destroyed copy.done ∷ i.hip_log;
      buffers = recount (λ n. n - 1) copy.entry i.buffers;
    } in
    less_and_less _ _ _ _ _ _ (holders-let_go gone j k) (holders_less copy.entry k i.buffers)
      (weigh-cons (hits (λ (c : Copy). c.entry) k) copy gone)

let_go_abandoned : (gone : List Copy) (i : Instance) → (let_go gone i).abandoned ≡ i.abandoned
unfolding let_go
let_go_abandoned [] i = refl
let_go_abandoned (copy ∷ gone) i = let_go_abandoned gone _

-- Copies that are over are released, and let their registrations go.
released_keeps :
    (is_over : Copy → Bool) (entry : Option ℕ) (d : ℕ → ℕ) (i : Instance)
    → InstanceIsHeld d i
    → let r = release_copies is_over entry i.abandoned.copies in
      InstanceIsHeld d
        (let_go r.gone (record i { abandoned = record i.abandoned { copies = r.kept } }))
released_keeps is_over entry d i h k =
    let r = release_copies is_over entry i.abandoned.copies in
    let j = record i { abandoned = record i.abandoned { copies = r.kept } } in
    rw (let_go_abandoned r.gone j) (
      omega (
        arith,
        h k,
        release_copies_sum is_over entry (hits (λ (c : Copy). c.entry) k) i.abandoned.copies,
        holders-let_go r.gone j k,
      ))

-- The part after the wait, for a registration that the call holds.
after_wait_keeps :
    (key done : ℕ) (o : Option StageEnd) (d : ℕ → ℕ) (i : Instance)
    → 0 < d key
    → InstanceIsHeld d i
    → InstanceIsHeld d (after_wait key done o i).1
unfolding after_wait add give_back
after_wait_keeps key done none d i p h = h
after_wait_keeps key done (some copied) d i p h = h
after_wait_keeps key done (some copy_failed) d i p h = h
after_wait_keeps key done (some timed_out) d i p h = λ k.
    let copy : Copy = record { entry = key; done = done } in
    let at = hits (λ (c : Copy). c.entry) k in
    omega (
      arith,
      h k,
      holders_more key k i.buffers (held_there key i.buffers (ground (arith, h key, p))),
      weigh-append at i.abandoned.copies (copy ∷ []),
      weigh-cons at copy [],
      weigh-nil at,
    )

module _ (platform : Platform) where
  await_keeps :
      (key done : ℕ) (ok : Bool) (d : ℕ → ℕ) (i : Instance)
      → 0 < d key
      → InstanceIsHeld d i
      → InstanceIsHeld d (await platform key done ok i).1
  unfolding await give_back
  await_keeps key done false d i p h = h
  await_keeps key done true d i p h = after_wait_keeps key done _ d i p h

  recorded_keeps :
      (key done : ℕ) (ok : Bool) (d : ℕ → ℕ) (i : Instance)
      → 0 < d key
      → InstanceIsHeld d i
      → InstanceIsHeld d (recorded platform key done ok i).1
  unfolding recorded give_back
  recorded_keeps key done false d i p h = h
  recorded_keeps key done true d i p h = await_keeps key done _ d _ p h

  with_event_keeps :
      (key : ℕ) (copying : Copying) (o : Option ℕ) (d : ℕ → ℕ) (i : Instance)
      → 0 < d key
      → InstanceIsHeld d i
      → InstanceIsHeld d (with_event platform key copying o i).1
  unfolding with_event give_back
  with_event_keeps key copying none d i p h = h
  with_event_keeps key copying (some done) d i p h = recorded_keeps key done _ d _ p h

  -- A copy between a staging buffer and the caller's memory, for a registration that the call holds.
  pub stage_copy_keeps :
      (key : ℕ) (copying : Copying) (d : ℕ → ℕ) (i : Instance)
      → 0 < d key
      → InstanceIsHeld d i
      → InstanceIsHeld d (stage_copy_with_deadline platform key copying i).1
  unfolding stage_copy_with_deadline reserve
  stage_copy_keeps key copying d i p h =
      with_event_keeps key copying _ d _ p (λ k. ground (arith, h k))

  -- `running` and `reclaim` let go what the copies held that are over.
  pub is_running_keeps :
      (key : ℕ) (d : ℕ → ℕ) (i : Instance)
      → InstanceIsHeld d i
      → InstanceIsHeld d (is_running platform key i).1
  unfolding is_running running release
  is_running_keeps key d i h = released_keeps (platform.hip.is_over i.hip_log) (some key) d i h

  pub reclaim_all_keeps :
      (d : ℕ → ℕ) (i : Instance) → InstanceIsHeld d i → InstanceIsHeld d (reclaim_all platform i)
  unfolding reclaim_all reclaim release
  reclaim_all_keeps d i h = released_keeps (platform.hip.is_over i.hip_log) none d i h

  pub reclaim_all_copies :
      (i : Instance)
      → (reclaim_all platform i).abandoned.copies
        ≡ (release_copies (platform.hip.is_over i.hip_log) none i.abandoned.copies).kept
  unfolding reclaim_all reclaim release
  reclaim_all_copies i =
      let is_over = platform.hip.is_over i.hip_log in
      ap (λ (a : AbandonedCopies). a.copies)
        (let_go_abandoned (release_copies is_over none i.abandoned.copies).gone
          (record i { abandoned = reclaim is_over i.abandoned }))

  pub check_no_abandoned_copy_keeps :
      (key : ℕ) (buf : BufEntry) (d : ℕ → ℕ) (i : Instance)
      → InstanceIsHeld d i
      → InstanceIsHeld d (check_no_abandoned_copy platform key buf i).1
  unfolding check_no_abandoned_copy
  check_no_abandoned_copy_keeps key buf d i h = elim (Option-cases buf.host_buf) [
    | inl e ↦ rw e h
    | inr (host, e) ↦ rw e (is_running_keeps key d i h)
  ]

  stage_keeps :
      (copying : ℕ → ℕ → Copying) (key : ℕ) (buf : BufEntry) (size : ℕ) (offset : ℤ) (d : ℕ → ℕ)
      (i : Instance)
      → 0 < d key
      → InstanceIsHeld d i
      → InstanceIsHeld d (stage platform copying key buf size offset i).1
  unfolding stage
  stage_keeps copying key buf size offset d i p h = elim (Option-cases buf.host_buf) [
    | inl e ↦ rw e h
    | inr (host, e) ↦ elim (Bool-cases (range_in_registration offset size buf.size)) [
      | inl fits ↦ rw (e, fits) (stage_copy_keeps key _ d i p h)
      | inr out ↦ rw (e, out) h
    ]
  ]

  pub stage_to_device_keeps :
      (key : ℕ) (buf : BufEntry) (size : ℕ) (offset : ℤ) (d : ℕ → ℕ) (i : Instance)
      → 0 < d key
      → InstanceIsHeld d i
      → InstanceIsHeld d (stage_to_device platform key buf size offset i).1
  unfolding stage_to_device
  stage_to_device_keeps key buf size offset d i p h =
      stage_keeps (onto_device key size) key buf size offset d i p h

  pub stage_to_host_keeps :
      (key : ℕ) (buf : BufEntry) (size : ℕ) (offset : ℤ) (d : ℕ → ℕ) (i : Instance)
      → 0 < d key
      → InstanceIsHeld d i
      → InstanceIsHeld d (stage_to_host platform key buf size offset i).1
  unfolding stage_to_host
  stage_to_host_keeps key buf size offset d i p h =
      stage_keeps (onto_host key size) key buf size offset d i p h
