-- ===== src/Pool/System/Spec.antt =====
-- src/rdma/connection-pool.cpp: what a pool promises, whatever its threads do: a number of permits, each
-- free or taken, that never grows, and of which none is taken once the pool is closed.
use hip_object.Prelude.{
  ℕ, suc, ◌+◌, ◌≤◌, ◌≡◌, refl, ap, ◌∙◌, inl, inr, Bool, true, false, List, ◌∷◌, ◌++◌, arith,
  Bool-cases,
}
use hip_object.Prelude.Weigh.{weigh-nil, weigh-cons, weigh_split, size}
use hip_object.Transport.Verbs.{Log, Verbs}
use hip_object.Transport.Attrs.{RdmaDevice, Build}
use hip_object.Pool.{Pool, leases, acquire, close, put_back}
use hip_object.Pool.System.{
  Lease, Returning, System, returned_by, granted, released, start, Step, lease, wait, wake,
  retry_lease, retry_wait, retry_fail, connect, restore, put, notify_nobody, notify_one,
  notify_one_idle, notify_all, close_pool, close_notify, Reachable, here, next,
}
use hip_object.Pool.System.Waiting.Acquire.{acquire_leases}

-- The permits of an abstract pool.
pub record Permits : Type 0 where
  pub free : ℕ
  pub taken : ℕ
  pub is_closed : Bool

pub data Serves (a b : Permits) : Type 0 where
  take :
      a.is_closed ≡ false
      → a.free ≡ suc b.free
      → b.taken ≡ suc a.taken
      → b.is_closed ≡ false
      → Serves a b
  give : b.free ≡ suc a.free → a.taken ≡ suc b.taken → b.is_closed ≡ a.is_closed → Serves a b
  lose : b.free ≡ a.free → a.taken ≡ suc b.taken → b.is_closed ≡ a.is_closed → Serves a b
  shut : b.free ≡ a.free → b.taken ≡ a.taken → b.is_closed ≡ true → Serves a b
  idle : b.free ≡ a.free → b.taken ≡ a.taken → b.is_closed ≡ a.is_closed → Serves a b

pub data Served (a : Permits) : Permits → Type 0 where
  begin : Served a a
  more : {b c : Permits} → Served a b → Serves b c → Served a c

-- The abstract pool never has more permits than at first.
Serves-le : (a b : Permits) → Serves a b → b.free + b.taken ≤ a.free + a.taken
Serves-le a b (take is_open free taken closed) = omega (arith, free, taken)
Serves-le a b (give free taken closed) = omega (arith, free, taken)
Serves-le a b (lose free taken closed) = omega (arith, free, taken)
Serves-le a b (shut free taken closed) = omega (arith, free, taken)
Serves-le a b (idle free taken closed) = omega (arith, free, taken)

Served-le : (a b : Permits) → Served a b → b.free + b.taken ≤ a.free + a.taken
Served-le a b begin = omega arith
Served-le a c (more {b} served step) = omega (arith, Served-le a b served, Serves-le b c step)

-- What the abstract pool sees of the system.
abbrev pub permits : System → Permits
permits s = record {
  free = size s.pool.free;
  taken = size s.leased + size s.returning;
  is_closed = s.pool.closed;
}

-- Only an open pool leases.
acquire_open :
    (held : ℕ) (p : Pool) (i : ℕ) (q : Pool) → acquire held p ≡ leases i q → p.closed ≡ false
unfolding acquire
acquire_open held p i q h = elim (Bool-cases p.closed) [
  | inl was_shut ↦ absurd (ground (arith, was_shut))
  | inr is_open ↦ is_open
]

granted-Serves :
    (s : System) (t held i : ℕ) (q : Pool)
    → acquire held s.pool ≡ leases i q
    → Serves (permits s) (permits (granted s t i q))
granted-Serves s t held i q e =
    let (free, live, same) = acquire_leases held s.pool i q e in
    let is_open = acquire_open held s.pool i q e in
    take is_open (omega (arith, free))
      (omega (
        arith,
        weigh-cons (λ (l : Lease). 1) (record { thread = t; index = i; connected = false })
            s.leased,
      ))
      (same ∙ is_open)

put-Serves :
    (s : System) (before after : List Returning) (t i : ℕ) (usable : Bool)
    → s.returning ≡ before ++ record { thread = t; index = i; usable = usable } ∷ after
    → Serves
        (permits s)
        (permits (released s before (record { thread = t; index = i; usable = usable }) after))
unfolding put_back
put-Serves s before after t i true e =
    let r : Returning = record { thread = t; index = i; usable = true } in
    give (weigh-cons (λ (n : ℕ). 1) i s.pool.free ∙ omega arith)
      (omega (arith, ap size e ∙ weigh_split (λ (r : Returning). 1) before after r)) refl
put-Serves s before after t i false e =
    let r : Returning = record { thread = t; index = i; usable = false } in
    lose refl (omega (arith, ap size e ∙ weigh_split (λ (r : Returning). 1) before after r)) refl

module _ (verbs : Verbs) (build : Build) (device : RdmaDevice) where
  step-Serves : (s t : System) → Step verbs build device s t → Serves (permits s) (permits t)
  unfolding close
  step-Serves s t (lease u i p awake e) = granted-Serves s u (s.held u) i p e
  step-Serves s t (wait u awake e) = idle refl refl refl
  step-Serves s t (wake before after u e) = idle refl refl refl
  step-Serves s t (retry_lease before after u i p e a) =
      granted-Serves (record s { woken = before ++ after }) u (s.held u) i p a
  step-Serves s t (retry_wait before after u e a) = idle refl refl refl
  step-Serves s t (retry_fail before after u err e a) = idle refl refl refl
  step-Serves s t (connect before after l conn peer e there) =
      idle refl
        (omega (
          arith,
          ap size e ∙ weigh_split (λ (l : Lease). 1) before after l,
          weigh_split (λ (l : Lease). 1) before after (record l { connected = true }),
        ))
        refl
  step-Serves s t (restore before after l e) =
      idle refl
        (omega (
          arith,
          ap size e ∙ weigh_split (λ (l : Lease). 1) before after l,
          weigh-cons (λ (r : Returning). 1) (returned_by verbs build device s l) s.returning,
        ))
        refl
  step-Serves s t (put before after r e) = put-Serves s before after r.thread r.index r.usable e
  step-Serves s t (notify_nobody before after n e w) = idle refl refl refl
  step-Serves s t (notify_one before after n front back u e w q) = idle refl refl refl
  step-Serves s t (notify_one_idle before after n e w none_wait) = idle refl refl refl
  step-Serves s t (notify_all before after n e w) = idle refl refl refl
  step-Serves s t close_pool = shut refl refl refl
  step-Serves s t (close_notify n e) = idle refl refl refl

  Reachable-Served :
      (p : Pool) (log : Log) (s : System)
      → Reachable verbs build device p log s
      → Served (permits (start p log)) (permits s)
  Reachable-Served p log s here = begin
  Reachable-Served p log t (next {s} r step) =
      more (Reachable-Served p log s r) (step-Serves s t step)

  -- Whatever the threads of a pool do and whatever the verbs answer, the system refines the abstract
  -- pool: each of its steps is one of the abstract pool's, which takes a free permit only while it is
  -- open; so there are never more connections, free or taken, than the pool had at first.
  pub Reachable-Serves :
      (p : Pool) (log : Log) (s : System)
      → Reachable verbs build device p log s
      → Served (permits (start p log)) (permits s)
        × ((t : System) → Step verbs build device s t → Serves (permits s) (permits t))
        × (size s.pool.free + (size s.leased + size s.returning) ≤ size p.free)
  Reachable-Serves p log s r =
      let served = Reachable-Served p log s r in
      (
        served,
        λ t step. step-Serves s t step,
        omega (
          arith,
          Served-le (permits (start p log)) (permits s) served,
          weigh-nil (λ (l : Lease). 1),
          weigh-nil (λ (r : Returning). 1),
        ),
      )
