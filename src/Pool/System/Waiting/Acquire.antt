-- ===== src/Pool/System/Waiting/Acquire.antt =====
-- `ConnectionPool::acquire` of src/rdma/connection-pool.cpp, for threads that wait.
use hip_object.Prelude.{
  ℕ, ◌+◌, ◌≤◌, ◌≡◌, sym, ap, ◌∙◌, inl, inr, Bool, true, false, not, ◌&&◌, Option, List, [], ◌∷◌,
  ◌==◌, is_empty, arith, Bool-cases,
}
use hip_object.Prelude.Weigh.{weigh-nil, weigh-cons, size}
use hip_object.Transport.Connection.{RcConnection}
use hip_object.Pool.{Pool, AcquireError, waits, fails, leases, take_free, acquire}
use hip_object.Pool.System.Owners.{pool_of, acquire-TookBack}

-- An open pool, which threads can wait for: each free connection has a thread that will look again,
-- or a notification that will wake one.
abbrev pub IsAwaited : Pool → ℕ → Type 0
IsAwaited p coming = (p.closed ≡ false) × (1 ≤ p.live) × (size p.free ≤ coming)

-- What `acquire` does when it leases, waits, and fails.
abbrev pub Leases : Pool → Pool → Type 0
Leases p q = (size p.free ≡ 1 + size q.free) × (q.live ≡ p.live) × (q.closed ≡ p.closed)

took_closed :
    (slots : List (Option RcConnection)) (free : List ℕ) (live : ℕ) (shut : Bool) (i : ℕ) (q : Pool)
    → take_free (record { slots = slots; free = free; live = live; closed = shut }) ≡ leases i q
    → q.closed ≡ shut
unfolding take_free
took_closed slots [] live shut i q h = absurd (ground arith)
took_closed slots (x ∷ rest) live shut i q h = sym (ap Pool.closed (ap (pool_of q) h))

none_free :
    (slots : List (Option RcConnection)) (free : List ℕ) (live : ℕ) (shut : Bool) (e : AcquireError)
    → take_free (record { slots = slots; free = free; live = live; closed = shut }) ≡ fails e
    → size free ≡ 0
unfolding take_free
none_free slots [] live shut e h = weigh-nil (λ (n : ℕ). 1)
none_free slots (x ∷ rest) live shut e h = absurd (ground arith)

never_waits :
    (slots : List (Option RcConnection)) (free : List ℕ) (live : ℕ) (shut : Bool)
    → take_free (record { slots = slots; free = free; live = live; closed = shut }) ≡ waits
    → ⊥
unfolding take_free
never_waits slots [] live shut h = ground arith
never_waits slots (x ∷ rest) live shut h = ground arith

empty_size : (xs : List ℕ) → is_empty xs ≡ true → size xs ≡ 0
empty_size [] h = weigh-nil (λ (n : ℕ). 1)
empty_size (x ∷ xs) h = absurd (ground (arith, h))

pub acquire_leases :
    (held : ℕ) (p : Pool) (i : ℕ) (q : Pool) → acquire held p ≡ leases i q → Leases p q
unfolding acquire
acquire_leases held p i q h =
    let (free, (slots, live)) = acquire-TookBack held i p q h in
    (
      ap size free ∙ weigh-cons (λ (n : ℕ). 1) i q.free,
      live,
      elim (Bool-cases p.closed) [
        | inl shut ↦ absurd (ground (arith, shut))
        | inr is_open ↦
            elim (Bool-cases
              (held == 0 && (not p.closed && is_empty p.free && not (p.live == 0)))) [
                | inl e ↦ absurd (ground (arith, e))
                | inr e ↦
                    took_closed p.slots p.free p.live p.closed i q (ground (arith, is_open, e))
              ]
      ],
    )

pub acquire_waits : (held : ℕ) (p : Pool) (coming : ℕ) → acquire held p ≡ waits → IsAwaited p coming
unfolding acquire
acquire_waits held p coming h =
    elim (Bool-cases (held == 0 && (not p.closed && is_empty p.free && not (p.live == 0)))) [
      | inl e ↦
          let empty : is_empty p.free ≡ true = ground (arith, e) in
          (ground (arith, e), ground (arith, e), omega (arith, empty_size p.free empty))
      | inr e ↦ elim (Bool-cases p.closed) [
        | inl shut ↦ absurd (ground (arith, shut, e))
        | inr is_open ↦
            absurd (never_waits p.slots p.free p.live p.closed (ground (arith, is_open, e)))
      ]
    ]

pub acquire_fails :
    (held : ℕ) (p : Pool) (e : AcquireError) (m n : ℕ)
    → acquire held p ≡ fails e
    → IsAwaited p m
    → IsAwaited p n
unfolding acquire
acquire_fails held p e m n h (is_open, some_live, enough) =
    elim (Bool-cases (held == 0 && (not p.closed && is_empty p.free && not (p.live == 0)))) [
      | inl c ↦ absurd (ground (arith, c))
      | inr c ↦ (
        is_open,
        some_live,
        omega (arith, none_free p.slots p.free p.live p.closed e (ground (arith, is_open, c))),
      )
    ]
