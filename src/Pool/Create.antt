-- ===== src/Pool/Create.antt =====
-- The constructor of `ConnectionPool`: what a new pool holds.
use hip_object.Prelude.{
  ℕ, zero, suc, ◌+◌, ◌≤◌, ◌≡◌, refl, subst, ◌⊎◌, inl, inr, Bool, false, Option, none, some, List,
  [], ◌∷◌, ◌++◌, ◌==◌, if◌then◌else◌, get_or, length, length-append, arith,
}
use hip_object.Prelude.Weigh.{weigh-cons, weigh-nil, hits, count, size}
use hip_object.Transport.Verbs.{Outcome, returned, threw, Log, Verbs}
use hip_object.Transport.Attrs.{RdmaDevice, Build}
use hip_object.Transport.Connection.{RcConnection, create_rc_connection}
use hip_object.Pool.{Pool, fill, new_pool, count_live, cq_size, max_send_wr, max_recv_wr}
use hip_object.Pool.System.{Lease, Returning, slot, start}
use hip_object.Pool.System.Owners.{filled, gives, IsOwned}

-- The pool while the constructor's loop runs: each index is free once, and its slot is not empty.
abbrev pub IsFilled : Pool → Type 0
IsFilled p = ((j : ℕ) → count j p.free ≤ filled (slot p j)) × (size p.free ≡ length p.slots)

filled-le : (x : Option RcConnection) → filled x ≤ 1
filled-le none = omega arith
filled-le (some conn) = omega arith

get_or-snoc :
    (xs : List (Option RcConnection)) (j : ℕ) (c : RcConnection)
    → filled (get_or (xs ++ some c ∷ []) j none)
      ≡ filled (get_or xs j none) + (if length xs == j then 1 else 0)
get_or-snoc [] zero c = refl
get_or-snoc [] (suc j) c = ground arith
get_or-snoc (x ∷ xs) zero c = ground arith
get_or-snoc (x ∷ xs) (suc j) c = ground (arith, get_or-snoc xs j c)

-- The three ends of a call of `createRcConnection`.
answer_cases :
    (o : Outcome (Option RcConnection))
    → (o ≡ threw) ⊎ ((o ≡ returned none) ⊎ ((c : RcConnection) × (o ≡ returned (some c))))
answer_cases threw = inl refl
answer_cases (returned none) = inr (inl refl)
answer_cases (returned (some c)) = inr (inr (c, refl))

one_more :
    (p : Pool) (c : RcConnection)
    → IsFilled p
    → IsFilled (record p { slots = p.slots ++ some c ∷ []; free = length p.slots ∷ p.free })
one_more p c (full, total) = (
  λ j. omega (
    arith,
    full j,
    get_or-snoc p.slots j c,
    weigh-cons (hits (λ (n : ℕ). n) j) (length p.slots) p.free,
  ),
  omega (
    arith,
    total,
    length-append p.slots (some c ∷ []),
    weigh-cons (λ (n : ℕ). 1) (length p.slots) p.free,
  ),
)

-- What `fill` returns, when it returns.
abbrev Fills : ℕ → Bool → Outcome Pool → Type 0
Fills bound shut threw = Unit {0}
Fills bound shut (returned p) = IsFilled p × ((length p.slots ≤ bound) × (p.closed ≡ shut))

module _ (verbs : Verbs) (build : Build) (device : RdmaDevice) where
  fill-Fills :
      (n i : ℕ) (p : Pool) (log : Log)
      → i ≡ length p.slots
      → IsFilled p
      → Fills (n + i) p.closed (fill verbs build device n i p log).0
  unfolding fill
  fill-Fills zero i p log e f = (f, (omega (arith, e), refl))
  fill-Fills (suc n) i p log e f =
      let answer = create_rc_connection verbs build device cq_size max_send_wr max_recv_wr log in
      elim (answer_cases answer.0) [
        | inl t ↦ rw (t, Fills) tt
        | inr (inl t) ↦ rw (t, Fills) (f, (omega (arith, e), refl))
        | inr (inr (c, t)) ↦
            rw (t, Fills)
              (subst
                (λ (b : ℕ).
                  Fills b p.closed
                    (fill verbs build device n (i + 1)
                      (record p { slots = p.slots ++ some c ∷ []; free = i ∷ p.free }) answer.1).0)
                (omega arith)
                (fill-Fills n (i + 1)
                  (record p { slots = p.slots ++ some c ∷ []; free = i ∷ p.free }) answer.1
                  (omega (arith, e, length-append p.slots (some c ∷ []))) (rw e (one_more p c f))))
      ]

-- What `new_pool` returns, when it returns: an open pool of at most `n` connections, that count
-- as live, at whose start nobody owns a connection twice and no slot in use is empty.
abbrev pub Built : ℕ → Outcome Pool → Type 0
Built n threw = Unit {0}
Built n (returned p) =
    ((log : Log) → IsOwned (start p log))
    × ((length p.slots ≤ n) × ((p.live ≡ length p.slots) × (p.closed ≡ false)))

filled-Built : (n : ℕ) (a : Outcome Pool × Log) → Fills (n + 0) false a.0 → Built n (count_live a).0
filled-Built n (threw, log) h = tt
filled-Built n (returned p, log) ((full, total), (bound, shut)) =
    let leased = λ (j : ℕ). weigh-nil (hits (λ (l : Lease). l.index) j) in
    let returning = λ (j : ℕ). weigh-nil (hits (λ (r : Returning). r.index) j) in
    (
      λ _. (
        λ j. omega (arith, full j, filled-le (slot p j), leased j, returning j),
        (
          λ j. omega (arith, full j, leased j, weigh-nil (gives j)),
          omega (arith, total, weigh-nil (λ (l : Lease). 1), weigh-nil (λ (r : Returning). 1)),
        ),
      ),
      (omega (arith, bound), (refl, shut)),
    )

-- A new pool is open, has at most `n` connections, and counts them all as live; each is free,
-- at one place of the free list, and its slot is not empty.
pub new_pool-Built :
    (verbs : Verbs) (build : Build) (device : RdmaDevice) (n : ℕ) (log : Log)
    → Built n (new_pool verbs build device n log).0
unfolding new_pool
new_pool-Built verbs build device n log = filled-Built n _ (
    fill-Fills verbs build device n 0 _ log refl
      (λ j. omega (arith, weigh-nil (hits (λ (i : ℕ). i) j)), weigh-nil (λ (i : ℕ). 1)))
