-- ===== src/Api/Holders/Reach.antt =====
-- src/hipobj.cpp: the holders of registrations, after any calls of the public functions.
use hip_object.Prelude.{
  ℕ, ◌<◌, ◌≡◌, refl, ap, subst, sym, inl, inr, Bool, false, Option, none, some, List, [], ◌∷◌, ◌++◌,
  ◌==◌, arith, Bool-cases, Option-cases, lt→ltb,
}
use hip_object.Prelude.Int.{ℤ}
use hip_object.Prelude.Weigh.{weigh-cons, hits, hits_same}
use hip_object.Buffer as B
use hip_object.Buffer.{Item, lookup, deregister_buffer, remove_found, busy}
use hip_object.Abandoned.{Copy, release_copies}
use hip_object.Api.Errors.{OpError, HipObjError, make_error}
use hip_object.Api.Checks.{deregistration_error}
use hip_object.Api.Instance.{Ending, gives, throws, pends, Platform, Instance, Step}
use hip_object.Api.Staging.{reclaim_all}
use hip_object.Api.Transfer.{Ops}
use hip_object.Api.Calls.{
  caught, entered, deregister_with, deregister_body, hip_obj_buf_register,
  hip_obj_buf_register_host, hip_obj_buf_deregister, hip_obj_get, hip_obj_put, hip_obj_buf_sync,
  hip_obj_get_rdma_token,
}
use hip_object.Api.Holders.{InstanceIsHeld, copies_at, holders, holders_of}
use hip_object.Api.Holders.Staging.{reclaim_all_keeps, reclaim_all_copies}
use hip_object.Api.Holders.Parts.{Keeps, AllCallbacksKeep}
use hip_object.Api.Holders.Calls.{
  register_body-Keeps, register_host_body-Keeps, deregister_body-Keeps, get_body-Keeps,
  put_body-Keeps, sync_body-Keeps, token_body-Keeps,
}

-- What holds of the current instance, if there is one.
abbrev pub StateIsHeld : (ℕ → ℕ) → Option Instance → Type 0
StateIsHeld d none = Unit {0}
StateIsHeld d (some i) = InstanceIsHeld d i

caught_keeps :
    (r : Ending HipObjError × Instance) (d : ℕ → ℕ)
    → InstanceIsHeld d r.1
    → InstanceIsHeld d (caught r).1
caught_keeps (gives e, i) d h = h
caught_keeps (throws, i) d h = h
caught_keeps (pends, i) d h = h

entered-Keeps :
    (body : Step) (d : ℕ → ℕ) (s : Option Instance)
    → Keeps body
    → StateIsHeld d s
    → StateIsHeld d (entered body s).1
entered-Keeps body d none keep h = tt
entered-Keeps body d (some i) keep h = caught_keeps (body i) d (keep d i h)

module _ (platform : Platform) where
  -- A call of a public function, with any arguments; what its callbacks do keeps the holders that
  -- are needed.
  pub data Called (s : Option Instance) : Option Instance → Type 0 where
    registers : (dev_ptr size : ℕ) → Called s (hip_obj_buf_register platform dev_ptr size s).1
    registers_host :
        (host_ptr size : ℕ) → Called s (hip_obj_buf_register_host platform host_ptr size s).1
    deregisters : (dev_ptr : ℕ) → Called s (hip_obj_buf_deregister platform dev_ptr s).1
    gets :
        (dev_ptr size : ℕ) (offset : ℤ) (ops : Option Ops)
        → AllCallbacksKeep ops
        → Called s (hip_obj_get platform dev_ptr size offset ops s).1
    puts :
        (dev_ptr size : ℕ) (offset : ℤ) (ops : Option Ops)
        → AllCallbacksKeep ops
        → Called s (hip_obj_put platform dev_ptr size offset ops s).1
    syncs :
        (dev_ptr size : ℕ) (offset direction : ℤ)
        → Called s (hip_obj_buf_sync platform dev_ptr size offset direction s).1
    gets_token :
        (dev_ptr size : ℕ) (op : ℤ) (has_out_token : Bool)
        → Called s (hip_obj_get_rdma_token platform dev_ptr size op has_out_token s).1

  -- Calls one after the other, whether they end, throw, or still wait.
  pub data Calls (s : Option Instance) : Option Instance → Type 0 where
    no_calls : Calls s s
    one_more : {t u : Option Instance} → Calls s t → Called t u → Calls s u

  Called_keeps :
      (d : ℕ → ℕ) (s t : Option Instance) → Called s t → StateIsHeld d s → StateIsHeld d t
  unfolding hip_obj_buf_register hip_obj_buf_register_host hip_obj_buf_deregister hip_obj_get
      hip_obj_put hip_obj_buf_sync hip_obj_get_rdma_token
  Called_keeps d s t (registers dev_ptr size) h =
      entered-Keeps _ d s (register_body-Keeps platform dev_ptr size) h
  Called_keeps d s t (registers_host host_ptr size) h =
      entered-Keeps _ d s (register_host_body-Keeps platform host_ptr size) h
  Called_keeps d s t (deregisters dev_ptr) h =
      entered-Keeps _ d s (deregister_body-Keeps platform dev_ptr) h
  Called_keeps d s t (gets dev_ptr size offset ops c) h =
      entered-Keeps _ d s (get_body-Keeps platform dev_ptr size offset ops c) h
  Called_keeps d s t (puts dev_ptr size offset ops c) h =
      entered-Keeps _ d s (put_body-Keeps platform dev_ptr size offset ops c) h
  Called_keeps d s t (syncs dev_ptr size offset direction) h =
      entered-Keeps _ d s (sync_body-Keeps platform dev_ptr size offset direction) h
  Called_keeps d s t (gets_token dev_ptr size op has_out_token) h =
      entered-Keeps _ d s (token_body-Keeps platform dev_ptr size op has_out_token) h

  -- Whatever calls of the public functions are made, with callbacks that keep the holders that are
  -- needed, and however they end: if each registration had at least as many holders as abandoned
  -- copies before, and as the calls that already ran needed, then it still has.
  pub Calls-StateIsHeld :
      (d : ℕ → ℕ) (s t : Option Instance) → Calls s t → StateIsHeld d s → StateIsHeld d t
  Calls-StateIsHeld d s t no_calls h = h
  Calls-StateIsHeld d s u (one_more {t} cs c) h =
      Called_keeps d t u c (Calls-StateIsHeld d s t cs h)

-- A copy that is not over stays, whatever else is released.
kept_running :
    (is_over : Copy → Bool) (xs ys : List Copy) (copy : Copy)
    → is_over copy ≡ false
    → 0 < copies_at copy.entry (release_copies is_over none (xs ++ copy ∷ ys)).kept
unfolding release_copies
kept_running is_over [] ys copy runs = rw runs (
    omega (
      arith,
      weigh-cons (hits (λ (c : Copy). c.entry) copy.entry) copy
          (release_copies is_over none ys).kept,
      hits_same (λ (c : Copy). c.entry) copy,
    ))
kept_running is_over (x ∷ xs) ys copy runs =
    let rest = kept_running is_over xs ys copy runs in
    elim (Bool-cases (is_over x)) [
      | inl over ↦ rw over rest
      | inr also ↦ rw also (
          omega (
            arith,
            rest,
            weigh-cons (hits (λ (c : Copy). c.entry) copy.entry) x
                (release_copies is_over none (xs ++ copy ∷ ys)).kept,
          ))
    ]

held_busy :
    (key : ℕ) (items : List Item) (log : B.Log)
    → 0 < holders key items
    → deregister_buffer key items log ≡ (busy, items, log)
unfolding deregister_buffer remove_found
held_busy key items log h = elim (Option-cases (lookup key items)) [
  | inl absent ↦ absurd (ground (arith, absent, h))
  | inr (item, there) ↦
      let held : 0 < item.copies = subst (λ o. 0 < holders_of o) there h in
      rw (there, lt→ltb 0 item.copies held) refl
]

-- If each registration has at least as many holders as abandoned copies, and one of a registration at
-- an address that is not null is not over, then `hipObjBufDeregister` of it answers busy, whatever
-- the runtime says of the other copies, and does nothing but release those that are over.
pub hip_obj_buf_deregister-running :
    (platform : Platform) (i : Instance) (xs ys : List Copy) (copy : Copy)
    → InstanceIsHeld (λ k. 0) i
    → i.abandoned.copies ≡ xs ++ copy ∷ ys
    → 0 < copy.entry
    → platform.hip.is_over i.hip_log copy ≡ false
    → hip_obj_buf_deregister platform copy.entry (some i)
      ≡ (gives (make_error OpError.busy), some (reclaim_all platform i))
unfolding hip_obj_buf_deregister deregister_body deregister_with deregistration_error
hip_obj_buf_deregister-running platform i xs ys copy h e p runs =
    let j = reclaim_all platform i in
    let held : 0 < holders copy.entry j.buffers = omega (
      arith,
      reclaim_all_keeps platform (λ k. 0) i h copy.entry,
      ap (λ cs. copies_at copy.entry cs) (reclaim_all_copies platform i),
      subst
          (λ cs.
            0 < copies_at copy.entry (release_copies (platform.hip.is_over i.hip_log) none cs).kept)
          (sym e) (kept_running (platform.hip.is_over i.hip_log) xs ys copy runs),
    ) in
    let other : (copy.entry == 0) ≡ false = ground (arith, p) in
    rw (other, held_busy copy.entry j.buffers j.buffers_log held) refl
