-- ===== src/Pool/System/Waiting.antt =====
-- src/rdma/connection-pool.cpp: threads that wait in `acquire`, and whom `release` and `close`
-- notify.
pub mod Acquire
use hip_object.Prelude.{
  ℕ, ◌+◌, ◌-◌, ◌≤◌, ◌≡◌, ◌⊎◌, refl, sym, ap, subst, ◌∙◌, inl, inr, Bool, true, false, not, ◌&&◌,
  Option, List, [], ◌∷◌, ◌++◌, ◌==◌, is_empty, arith, Bool-cases,
}
use hip_object.Prelude.Weigh.{weigh, weigh-nil, weigh-cons, weigh_split, size}
use hip_object.Transport.Verbs.{returned, Outcome, Log, Verbs}
use hip_object.Transport.Attrs.{RdmaDevice, Build}
use hip_object.Transport.Connection.{RcConnection}
use hip_object.Pool.{
  Pool, AcquireError, waits, fails, leases, take_free, acquire, close, put_back, Notify, nobody,
  one_waiter, all_waiters, notification, new_pool,
}
use hip_object.Pool.Create.{Built, new_pool-Built}
use hip_object.Pool.System.{
  Returning, Notifying, System, released, Step, lease, wait, wake, retry_lease, retry_wait,
  retry_fail, connect, restore, put, notify_nobody, notify_one, notify_one_idle, notify_all,
  close_pool, close_notify, Reachable, here, next,
}
use hip_object.Pool.System.Waiting.Acquire.{
  IsAwaited, Leases, acquire_leases, acquire_waits, acquire_fails,
}
use hip_object.Pool.System.Reach.{Reachable-IsOwned}

-- The notifications of one waiter, and of all, that are still to come.
abbrev is_one : Notify → ℕ
is_one nobody = 0
is_one one_waiter = 1
is_one all_waiters = 0

abbrev is_all : Notify → ℕ
is_all nobody = 0
is_all one_waiter = 0
is_all all_waiters = 1

abbrev ones : List Notifying → ℕ
ones = weigh (λ n. is_one n.whom)

abbrev alls : List Notifying → ℕ
alls = weigh (λ n. is_all n.whom)

-- Nothing is in progress in `s`: no thread looks again, no notification is still to come.
abbrev pub IsQuiet : System → Type 0
IsQuiet s = (s.woken ≡ []) × (s.notifying ≡ []) × (s.closers ≡ 0)

-- The pool of `s` is open and none of its connections is free, and a thread holds one of them.
abbrev pub IsBusy : System → Type 0
IsBusy s = (s.pool.closed ≡ false) × (size s.pool.free ≡ 0) × (1 ≤ size s.leased + size s.returning)

-- Why no thread that waits is forgotten: there is none, or all will be notified, or the pool is
-- awaited.
abbrev IsMinded : System → Type 0
IsMinded s =
    (s.waiting ≡ [])
    ⊎ ((1 ≤ alls s.notifying + s.closers) ⊎ IsAwaited s.pool (size s.woken + ones s.notifying))

-- One element taken out of a list that is not empty.
not_nil : (before after : List ℕ) (t : ℕ) → before ++ t ∷ after ≡ [] → ⊥
not_nil [] after t h = ground (arith, h)
not_nil (x ∷ before) after t h = ground (arith, h)

-- What the change of a system keeps minded.
keep-IsMinded :
    (s t : System)
    → t.waiting ≡ s.waiting
    → alls s.notifying + s.closers ≤ alls t.notifying + t.closers
    → (IsAwaited s.pool (size s.woken + ones s.notifying)
        → (1 ≤ alls t.notifying + t.closers) ⊎ IsAwaited t.pool (size t.woken + ones t.notifying))
    → IsMinded s
    → IsMinded t
keep-IsMinded s t e le next_awaited (inl idle) = inl (e ∙ idle)
keep-IsMinded s t e le next_awaited (inr (inl due)) = inr (inl (omega (arith, due, le)))
keep-IsMinded s t e le next_awaited (inr (inr awaited)) = inr (next_awaited awaited)

-- A lease that is granted, by a system that differs from `s` in whom it has woken.
granted-IsAwaited :
    (p q : Pool) (coming coming' : ℕ)
    → Leases p q
    → coming ≤ coming' + 1
    → IsAwaited p coming
    → IsAwaited q coming'
granted-IsAwaited p q coming coming' (free, live, shut) le (is_open, some_live, enough) =
    (shut ∙ is_open, omega (arith, live, some_live), omega (arith, free, enough, le))

-- Whom the thread notifies that has put its connection back, or dropped it.
abbrev told : ℕ → ℕ → Bool → System → Notifying
told t i usable s = record {
  thread = t;
  whom = notification usable (put_back i usable s.pool).live;
}

put-IsMinded :
    (s : System) (before after : List Returning) (t i : ℕ) (usable : Bool)
    → IsMinded s
    → IsMinded (released s before (record { thread = t; index = i; usable = usable }) after)
unfolding put_back notification
put-IsMinded s before after t i true =
    keep-IsMinded s (released s before (record { thread = t; index = i; usable = true }) after) refl
      (omega (arith, weigh-cons (λ (n : Notifying). is_all n.whom) (told t i true s) s.notifying))
      (λ (is_open, some_live, enough). inr (
        is_open,
        some_live,
        omega (
          arith,
          enough,
          weigh-cons (λ (n : ℕ). 1) i s.pool.free,
          weigh-cons (λ (n : Notifying). is_one n.whom) (told t i true s) s.notifying,
        ),
      ))
put-IsMinded s before after t i false =
    let to_all = weigh-cons (λ (n : Notifying). is_all n.whom) (told t i false s) s.notifying in
    let to_one = weigh-cons (λ (n : Notifying). is_one n.whom) (told t i false s) s.notifying in
    elim (Bool-cases (s.pool.live - 1 == 0)) [
      | inl none_left ↦
          let all : is_all (told t i false s).whom ≡ 1 = rw none_left refl in
          λ m. inr (inl (omega (arith, all, to_all)))
      | inr some_left ↦
          keep-IsMinded s
            (released s before (record { thread = t; index = i; usable = false }) after) refl
            (omega (arith, to_all))
            (λ (is_open, some_live, enough).
              inr (is_open, ground (arith, some_left, some_live), omega (arith, enough, to_one)))
    ]

module _ (verbs : Verbs) (build : Build) (device : RdmaDevice) where
  step-IsMinded : (s t : System) → Step verbs build device s t → IsMinded s → IsMinded t
  unfolding close
  step-IsMinded s t (lease u i p awake e) = keep-IsMinded s t refl (omega arith) (λ a.
      inr (granted-IsAwaited s.pool p _ _ (acquire_leases (s.held u) s.pool i p e) (omega arith) a))
  step-IsMinded s t (wait u awake e) = λ m. inr (inr (acquire_waits (s.held u) s.pool _ e))
  step-IsMinded s t (wake before after u e) = λ m. elim m [
    | inl idle ↦ absurd (not_nil before after u (sym e ∙ idle))
    | inr (inl due) ↦ inr (inl due)
    | inr (inr (is_open, some_live, enough)) ↦
        inr (inr (is_open, some_live, omega (arith, enough, weigh-cons (λ (n : ℕ). 1) u s.woken)))
  ]
  step-IsMinded s t (retry_lease before after u i p e a) =
      let gone = ap size e ∙ weigh_split (λ (n : ℕ). 1) before after u in
      keep-IsMinded s t refl (omega arith) (λ m. inr (
        granted-IsAwaited s.pool p _ _ (acquire_leases (s.held u) s.pool i p a)
          (omega (arith, gone)) m))
  step-IsMinded s t (retry_wait before after u e a) =
      λ m. inr (inr (acquire_waits (s.held u) s.pool _ a))
  step-IsMinded s t (retry_fail before after u err e a) =
      keep-IsMinded s t refl (omega arith) (λ m. inr (acquire_fails (s.held u) s.pool err _ _ a m))
  step-IsMinded s t (connect before after l conn peer e there) =
      keep-IsMinded s t refl (omega arith) (λ a. inr a)
  step-IsMinded s t (restore before after l e) = keep-IsMinded s t refl (omega arith) (λ a. inr a)
  step-IsMinded s t (put before after r e) = put-IsMinded s before after r.thread r.index r.usable
  step-IsMinded s t (notify_nobody before after n e w) =
      let all = ap alls e ∙ weigh_split (λ (n : Notifying). is_all n.whom) before after n in
      let one = ap ones e ∙ weigh_split (λ (n : Notifying). is_one n.whom) before after n in
      let no_all : is_all n.whom ≡ 0 = rw w refl in
      let no_one : is_one n.whom ≡ 0 = rw w refl in
      keep-IsMinded s t refl (omega (arith, all, no_all)) (λ (is_open, some_live, enough).
        inr (is_open, some_live, omega (arith, enough, one, no_one)))
  step-IsMinded s t (notify_one before after n front back u e w q) =
      let all = ap alls e ∙ weigh_split (λ (n : Notifying). is_all n.whom) before after n in
      let one = ap ones e ∙ weigh_split (λ (n : Notifying). is_one n.whom) before after n in
      let no_all : is_all n.whom ≡ 0 = rw w refl in
      let one_one : is_one n.whom ≡ 1 = rw w refl in
      λ m. elim m [
        | inl idle ↦ absurd (not_nil front back u (sym q ∙ idle))
        | inr (inl due) ↦ inr (inl (omega (arith, due, all, no_all)))
        | inr (inr (is_open, some_live, enough)) ↦ inr (
            inr (
              is_open,
              some_live,
              omega (arith, enough, one, one_one, weigh-cons (λ (x : ℕ). 1) u s.woken),
            ))
      ]
  step-IsMinded s t (notify_one_idle before after n e w idle) = λ m. inl idle
  step-IsMinded s t (notify_all before after n e w) = λ m. inl refl
  step-IsMinded s t close_pool = λ m. inr (inl (omega arith))
  step-IsMinded s t (close_notify n e) = λ m. inl refl

  Reachable-IsMinded :
      (p : Pool) (log : Log) (s : System) → Reachable verbs build device p log s → IsMinded s
  Reachable-IsMinded p log s here = inl refl
  Reachable-IsMinded p log t (next {s} r step) =
      step-IsMinded s t step (Reachable-IsMinded p log s r)

  -- From a new pool, whatever the threads do and whatever the verbs answer: if a thread waits
  -- while no thread looks again and no notification is still to come, then the pool is open, none
  -- of its connections is free, and a thread holds one of them, or is in `release` with it.
  pub Reachable-IsBusy :
      (n : ℕ) (log0 log : Log) (p : Pool) (s : System) (t : ℕ) (others : List ℕ)
      → new_pool verbs build device n log0 ≡ (returned p, log)
      → Reachable verbs build device p log s
      → s.waiting ≡ t ∷ others
      → IsQuiet s
      → IsBusy s
  Reachable-IsBusy n log0 log p s t others e r waits_t (no_woken, no_notifying, no_closers) =
      let built =
        subst (Built n) (ap (λ (a : Outcome Pool × Log). a.0) e)
          (new_pool-Built verbs build device n log0) in
      let (alone, (full, total)) = Reachable-IsOwned verbs build device p log s (built.0 log) r in
      let woken = ap size no_woken ∙ weigh-nil (λ (u : ℕ). 1) in
      let one = ap ones no_notifying ∙ weigh-nil (λ (m : Notifying). is_one m.whom) in
      let all = ap alls no_notifying ∙ weigh-nil (λ (m : Notifying). is_all m.whom) in
      elim (Reachable-IsMinded p log s r) [
        | inl idle ↦ absurd (not_nil [] others t (sym waits_t ∙ idle))
        | inr (inl due) ↦ absurd (omega (arith, due, all, no_closers))
        | inr (inr (is_open, some_live, enough)) ↦ (
          is_open,
          omega (arith, enough, woken, one),
          omega (arith, enough, woken, one, total, some_live),
        )
      ]
