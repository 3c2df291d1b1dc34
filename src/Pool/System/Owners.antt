-- ===== src/Pool/System/Owners.antt =====
-- Who owns a connection of the pool: the free list, a lease, or a thread in `release`; and what
-- `acquire` and the locked part of `release` do to it.
use hip_object.Prelude.{
  ℕ, ◌+◌, ◌≤◌, ◌≡◌, refl, sym, ap, ap₂, ◌∙◌, inl, inr, Bool, true, false, not, ◌&&◌, Option, none,
  some, List, [], ◌∷◌, ◌++◌, ◌==◌, if◌then◌else◌, is_empty, arith, Bool-cases, ==_iff,
}
use hip_object.Prelude.Weigh.{weigh, weigh-cons, weigh_split, hits, count, size}
use hip_object.Transport.Connection.{RcConnection}
use hip_object.Pool.{Pool, Acquired, waits, fails, leases, acquire, take_free, put_back}
use hip_object.Pool.System.{Lease, Returning, System, slot, granted, released}

-- 1 if the slot holds a connection, else 0
abbrev pub filled : Option RcConnection → ℕ
filled none = 0
filled (some conn) = 1

-- 1 if the thread returns the connection at `i` to the free list
abbrev pub gives : ℕ → Returning → ℕ
gives i r = if r.usable then hits (λ (r : Returning). r.index) i r else 0

-- The owners of the connection at `i`
abbrev pub owners : System → ℕ → ℕ
owners s i =
    count i s.pool.free
    + (weigh (hits (λ (l : Lease). l.index) i) s.leased
        + weigh (hits (λ (r : Returning). r.index) i) s.returning)

-- The owners of the connection at `i` that need it: all but those that drop it
abbrev pub users : System → ℕ → ℕ
users s i =
    count i s.pool.free
    + (weigh (hits (λ (l : Lease). l.index) i) s.leased + weigh (gives i) s.returning)

-- At each index there is one owner at most, the slot of an owner that needs it is not empty, and
-- `live_` counts the owners at all indices.
abbrev pub IsOwned : System → Type 0
IsOwned s =
    ((i : ℕ) → owners s i ≤ 1)
    × (((i : ℕ) → users s i ≤ filled (slot s.pool i))
        × (s.pool.live ≡ size s.pool.free + (size s.leased + size s.returning)))

-- What `acquire` does when it leases: it takes the back of the free list.
abbrev pub TookBack : Pool → ℕ → Pool → Type 0
TookBack p i q = (p.free ≡ i ∷ q.free) × ((q.slots ≡ p.slots) × (q.live ≡ p.live))

-- The index and the pool of a lease, and of anything else those given.
abbrev index_of : ℕ → Acquired → ℕ
index_of d waits = d
index_of d (fails e) = d
index_of d (leases i p) = i

abbrev pub pool_of : Pool → Acquired → Pool
pool_of d waits = d
pool_of d (fails e) = d
pool_of d (leases i p) = p

take_free-TookBack :
    (slots : List (Option RcConnection)) (free : List ℕ) (live : ℕ) (shut : Bool) (i : ℕ) (q : Pool)
    → take_free (record { slots = slots; free = free; live = live; closed = shut }) ≡ leases i q
    → TookBack (record { slots = slots; free = free; live = live; closed = shut }) i q
unfolding take_free
take_free-TookBack slots [] live shut i q h = absurd (ground arith)
take_free-TookBack slots (x ∷ rest) live shut i q h =
    let e = ap (pool_of q) h in
    (ap₂ ◌∷◌ (ap (index_of i) h) (ap Pool.free e), (sym (ap Pool.slots e), sym (ap Pool.live e)))

pub acquire-TookBack : (held i : ℕ) (p q : Pool) → acquire held p ≡ leases i q → TookBack p i q
unfolding acquire
acquire-TookBack held i p q h = elim (Bool-cases p.closed) [
  | inl shut ↦ absurd (ground (arith, shut))
  | inr is_open ↦
      elim (Bool-cases (held == 0 && (not p.closed && is_empty p.free && not (p.live == 0)))) [
        | inl e ↦ absurd (ground (arith, e))
        | inr e ↦ take_free-TookBack p.slots p.free p.live p.closed i q (ground (arith, is_open, e))
      ]
]

pub granted-IsOwned :
    (s : System) (t i : ℕ) (q : Pool) → TookBack s.pool i q → IsOwned s → IsOwned (granted s t i q)
granted-IsOwned s t i q (e, (slots, live)) (alone, (full, total)) =
    let l : Lease = record { thread = t; index = i; connected = false } in
    let taken = λ (j : ℕ). ap (count j) e ∙ weigh-cons (hits (λ (n : ℕ). n) j) i q.free in
    let added = λ (j : ℕ). weigh-cons (hits (λ (l : Lease). l.index) j) l s.leased in
    (
      λ j. omega (arith, alone j, taken j, added j),
      (
        λ j. rw slots (omega (arith, full j, taken j, added j)),
        omega (
          arith,
          live,
          total,
          ap size e ∙ weigh-cons (λ (n : ℕ). 1) i q.free,
          weigh-cons (λ (l : Lease). 1) l s.leased,
        ),
      ),
    )

abbrev pub as_number : Bool → ℕ
as_number b = if b then 1 else 0

-- What a thread in `release` weighs
gives-usable :
    (j : ℕ) (r : Returning) → r.usable ≡ true → gives j r ≡ hits (λ (r : Returning). r.index) j r
gives-usable j r u = rw u refl

gives-dropped : (j : ℕ) (r : Returning) → r.usable ≡ false → gives j r ≡ 0
gives-dropped j r u = rw u refl

pub gives-le : (j : ℕ) (r : Returning) → gives j r ≤ hits (λ (r : Returning). r.index) j r
gives-le j r = elim (Bool-cases r.usable) [
  | inl u ↦ omega (arith, gives-usable j r u)
  | inr u ↦ omega (arith, gives-dropped j r u)
]

pub gives_own : (r : Returning) → gives r.index r ≤ as_number r.usable
gives_own r = elim (Bool-cases r.usable) [
  | inl u ↦ rw (u, (==_iff r.index r.index).1 refl) (omega arith)
  | inr u ↦ omega (arith, gives-dropped r.index r u)
]

pub released-IsOwned :
    (s : System) (before after : List Returning) (r : Returning)
    → s.returning ≡ before ++ r ∷ after
    → IsOwned s
    → IsOwned (released s before r after)
unfolding put_back
released-IsOwned s before after r e (alone, (full, total)) =
    let gone = λ (w : Returning → ℕ). ap (weigh w) e ∙ weigh_split w before after r in
    let back = λ (j : ℕ). weigh-cons (hits (λ (n : ℕ). n) j) r.index s.pool.free in
    elim (Bool-cases r.usable) [
      | inl u ↦ rw u (
        λ j. omega (arith, alone j, gone (hits (λ (r : Returning). r.index) j), back j),
        (
          λ j. omega (arith, full j, gone (gives j), gives-usable j r u, back j),
          omega (
            arith,
            total,
            gone (λ (r : Returning). 1),
            weigh-cons (λ (n : ℕ). 1) r.index s.pool.free,
          ),
        ),
      )
      | inr u ↦ rw u (
        λ j. omega (arith, alone j, gone (hits (λ (r : Returning). r.index) j)),
        (
          λ j. omega (arith, full j, gone (gives j)),
          omega (arith, total, gone (λ (r : Returning). 1)),
        ),
      )
    ]
