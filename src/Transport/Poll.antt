-- ===== src/Transport/Poll.antt =====
-- src/rdma/transport.cpp: `pollCompletion`. The steady clock and the completion queue are a list of
-- rounds: what the clock reads before a poll, and what the poll returns.
use hip_object.Prelude.{
  ℕ, ◌+◌, ◌≤◌, ◌<◌, ◌≡◌, ◌≢◌, refl, inl, inr, Bool, true, false, not, Option, none, some, List, [],
  ◌∷◌, ◌++◌, arith, ltb, ◌==◌, if◌then◌else◌, Bool-cases, Option-cases, ap, ◌∙◌, ◌↔◌, ltb→lt,
  lt→ltb,
}
use hip_object.Transport.Verbs.{Polled, failed, empty, one, WorkCompletion}

pub record Round : Type 0 where
  pub now : ℕ
  pub poll : Polled

-- `!expectedOpcode || wc.opcode == *expectedOpcode`
abbrev pub awaited : Option ℕ → WorkCompletion → Bool
awaited none wc = true
awaited (some opcode) wc = wc.opcode == opcode

-- The result for one poll, or none if the loop goes on.
abbrev pub decide_poll : Option ℕ → Polled → Option Bool
decide_poll expected failed = some false
decide_poll expected empty = none
decide_poll expected (one wc) =
    if not (wc.status == 0) then some false else if awaited expected wc then some true else none

-- The loop; none if the rounds end before the loop does.
pub poll_rounds : Option ℕ → ℕ → List Round → Option Bool
poll_rounds expected deadline [] = none
poll_rounds expected deadline (r ∷ rounds) =
    let more = poll_rounds expected deadline rounds in
    if ltb r.now deadline
    then elim (decide_poll expected r.poll) [ some b ↦ some b | none ↦ more ]
    else some false

-- `start` is what the clock reads on entry, `timeout` a number of its ticks.
unfoldable pub poll_completion : Option ℕ → ℕ → ℕ → List Round → Option Bool
unfolding poll_rounds
poll_completion expected timeout start rounds = poll_rounds expected (start + timeout) rounds

-- The opcode of a completion is one that the caller waits for: any, if none is given.
abbrev pub IsAwaited : Option ℕ → WorkCompletion → Type 0
IsAwaited none wc = Unit {0}
IsAwaited (some opcode) wc = wc.opcode ≡ opcode

-- A poll that decides nothing: the queue was empty, or it held a good completion, where an opcode is
-- given, of another one.
abbrev pub IsIdle : Option ℕ → Polled → Type 0
IsIdle expected failed = ⊥
IsIdle expected empty = Unit {0}
IsIdle none (one wc) = ⊥
IsIdle (some opcode) (one wc) = (wc.status ≡ 0) × (wc.opcode ≢ opcode)

-- A good completion of the awaited kind that is polled before the deadline, after polls before the
-- deadline that decided nothing.
pub data Completes (expected : Option ℕ) (deadline : ℕ) : List Round → Type 0 where
  now :
      (r : Round) (wc : WorkCompletion) (rounds : List Round)
      → r.now < deadline
      → r.poll ≡ one wc
      → wc.status ≡ 0
      → IsAwaited expected wc
      → Completes expected deadline (r ∷ rounds)
  later :
      (r : Round) (rounds : List Round)
      → r.now < deadline
      → IsIdle expected r.poll
      → Completes expected deadline rounds
      → Completes expected deadline (r ∷ rounds)

decide-IsIdle :
    (expected : Option ℕ) (p : Polled) → decide_poll expected p ≡ none → IsIdle expected p
decide-IsIdle expected failed h = absurd (ground (arith, h))
decide-IsIdle expected empty h = tt
decide-IsIdle none (one wc) h = absurd (ground (arith, h))
decide-IsIdle (some opcode) (one wc) h = (ground (arith, h), λ e. absurd (ground (arith, h, e)))

IsIdle-decide :
    (expected : Option ℕ) (p : Polled) → IsIdle expected p → decide_poll expected p ≡ none
IsIdle-decide expected failed h = absurd h
IsIdle-decide expected empty h = refl
IsIdle-decide none (one wc) h = absurd h
IsIdle-decide (some opcode) (one wc) (good, other) = elim (Bool-cases (wc.opcode == opcode)) [
  | inl same ↦ absurd (other (ground (arith, same)))
  | inr differs ↦ rw (good, differs) refl
]

awaited-IsAwaited :
    (expected : Option ℕ) (wc : WorkCompletion) → awaited expected wc ≡ true → IsAwaited expected wc
awaited-IsAwaited none wc h = tt
awaited-IsAwaited (some opcode) wc h = ground (arith, h)

IsAwaited-awaited :
    (expected : Option ℕ) (wc : WorkCompletion) → IsAwaited expected wc → awaited expected wc ≡ true
IsAwaited-awaited none wc h = refl
IsAwaited-awaited (some opcode) wc h = ground (arith, h)

decide_true :
    (expected : Option ℕ) (deadline : ℕ) (r : Round) (rounds : List Round) (p : Polled)
    → r.poll ≡ p
    → r.now < deadline
    → decide_poll expected p ≡ some true
    → Completes expected deadline (r ∷ rounds)
decide_true expected deadline r rounds failed e lt h = absurd (ground arith)
decide_true expected deadline r rounds empty e lt h = absurd (ground arith)
decide_true expected deadline r rounds (one wc) e lt h =
    now r wc rounds lt e (ground arith) (awaited-IsAwaited expected wc (ground arith))

poll_rounds_sound :
    (expected : Option ℕ) (deadline : ℕ) (rounds : List Round)
    → poll_rounds expected deadline rounds ≡ some true
    → Completes expected deadline rounds
unfolding poll_rounds
poll_rounds_sound expected deadline [] h = absurd (ground arith)
poll_rounds_sound expected deadline (r ∷ rounds) h = elim (Bool-cases (ltb r.now deadline)) [
  | inr late ↦ absurd (ground (arith, late))
  | inl early ↦ elim (Option-cases (decide_poll expected r.poll)) [
    | inl e ↦
        later r rounds (ltb→lt _ _ early) (decide-IsIdle expected r.poll e)
          (poll_rounds_sound expected deadline rounds (ground (arith, early, e)))
    | inr (b, e) ↦
        decide_true expected deadline r rounds r.poll refl (ltb→lt _ _ early)
          (e ∙ ap some (ground (arith, early, e)))
  ]
]

poll_rounds_complete :
    (expected : Option ℕ) (deadline : ℕ) {rounds : List Round}
    → Completes expected deadline rounds
    → poll_rounds expected deadline rounds ≡ some true
unfolding poll_rounds
poll_rounds_complete expected deadline (now r wc rounds lt e s a) =
    rw (lt→ltb _ _ lt, e, IsAwaited-awaited expected wc a, s)
poll_rounds_complete expected deadline (later r rounds lt g c) =
    rw (lt→ltb _ _ lt, IsIdle-decide expected r.poll g) (poll_rounds_complete expected deadline c)

-- The wait reports success exactly when a completion with a good status and the awaited opcode (any
-- opcode, if none is given) is polled before the deadline and every poll before it found either
-- nothing or a good completion of another opcode.
pub poll_completion_iff :
    (expected : Option ℕ) (timeout start : ℕ) (rounds : List Round)
    → (poll_completion expected timeout start rounds ≡ some true)
      ↔ Completes expected (start + timeout) rounds
unfolding poll_completion
poll_completion_iff expected timeout start rounds = (
  poll_rounds_sound expected (start + timeout) rounds,
  λ c. poll_rounds_complete expected (start + timeout) c,
)

poll_rounds-append :
    (expected : Option ℕ) (deadline : ℕ) (before : List Round) (r : Round) (after : List Round)
    → deadline ≤ r.now
    → (b : Bool) × (poll_rounds expected deadline (before ++ r ∷ after) ≡ some b)
unfolding poll_rounds
poll_rounds-append expected deadline [] r after h = (false, ground arith)
poll_rounds-append expected deadline (x ∷ before) r after h =
    let (b, e) = poll_rounds-append expected deadline before r after h in
    elim (Bool-cases (ltb x.now deadline)) [
      | inr late ↦ (false, ground (arith, late))
      | inl early ↦ elim (Option-cases (decide_poll expected x.poll)) [
        | inl d ↦ (b, ground (arith, early, d, e))
        | inr (c, d) ↦ (c, ground (arith, early, d, e))
      ]
    ]

-- The wait ends: once the clock reads the deadline or later, it has returned true or false.
pub poll_completion_ends :
    (expected : Option ℕ) (timeout start : ℕ) (before : List Round) (r : Round) (after : List Round)
    → start + timeout ≤ r.now
    → (b : Bool) × (poll_completion expected timeout start (before ++ r ∷ after) ≡ some b)
unfolding poll_completion
poll_completion_ends expected timeout start before r after h =
    poll_rounds-append expected (start + timeout) before r after h
