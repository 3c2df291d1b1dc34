-- ===== src/Api/Holders.antt =====
-- src/hipobj.cpp, with src/buffer.cpp and src/abandoned-copies.cpp: who holds a registration. A copy of
-- its `shared_ptr` is held by each of its abandoned copies, and by each call that uses it.
pub mod Staging
pub mod Register
pub mod Transfer
pub mod Parts
pub mod Calls
pub mod Reach
use hip_object.Prelude.{
  ℕ, ◌+◌, ◌-◌, ◌≤◌, ◌<◌, ◌≡◌, refl, inl, inr, Bool, true, false, Option, none, some, List, [], ◌∷◌,
  ◌==◌, ==_iff, if◌then◌else◌, arith, Bool-cases, Option-cases, subst, is_some, ltb,
}
use hip_object.Prelude.Weigh.{weigh, weigh-nil, weigh-cons, weigh-append, hits}
use hip_object.Buffer.{
  Item, BufEntry, Log, RegisterResult, lookup, erase, recount, refusal, insert, insert_unless,
  deregister_buffer, remove_found, find, drop_copy,
}
use hip_object.Abandoned.{Copy, Released, release_copies}
use hip_object.Api.Instance.{Instance}

abbrev holders_of : Option Item → ℕ
holders_of none = 0
holders_of (some item) = item.copies

-- How many others hold the registration at a key, and how many abandoned copies it has.
abbrev pub holders : ℕ → List Item → ℕ
holders key items = holders_of (lookup key items)

abbrev pub copies_at : ℕ → List Copy → ℕ
copies_at key = weigh (hits (λ (c : Copy). c.entry) key)

abbrev pub one_at : ℕ → ℕ → ℕ
one_at key k = if key == k then 1 else 0

-- Each abandoned copy holds its registration, and `d` is how often the calls that run hold each.
abbrev pub IsHeld : (ℕ → ℕ) → List Copy → List Item → Type 0
IsHeld d copies items = (k : ℕ) → copies_at k copies + d k ≤ holders k items

abbrev pub InstanceIsHeld : (ℕ → ℕ) → Instance → Type 0
InstanceIsHeld d i = IsHeld d i.abandoned.copies i.buffers

recount_other :
    (f : ℕ → ℕ) (key k : ℕ) (items : List Item)
    → (key == k) ≡ false
    → lookup k (recount f key items) ≡ lookup k items
recount_other f key k [] h = refl
recount_other f key k (item ∷ items) h = elim (Bool-cases (item.key == key)) [
  | inl e ↦ let ne : (item.key == k) ≡ false = ground (arith, e, h) in rw (e, ne) refl
  | inr e ↦ elim (Bool-cases (item.key == k)) [
    | inl q ↦ rw (e, q) refl
    | inr q ↦ rw (e, q) (recount_other f key k items h)
  ]
]

recount_same :
    (f : ℕ → ℕ) (key : ℕ) (items : List Item)
    → is_some (lookup key items) ≡ true
    → holders key (recount f key items) ≡ f (holders key items)
recount_same f key [] h = absurd (ground (arith, h))
recount_same f key (item ∷ items) h = elim (Bool-cases (item.key == key)) [
  | inl e ↦ rw (e, e) refl
  | inr e ↦ rw (e, e) (recount_same f key items (ground (arith, e, h)))
]

-- A count at `key` is a count at `k`, if they are equal.
at_same : (P : ℕ → ℕ → Type 0) (key k : ℕ) → (key == k) ≡ true → P key 1 → P k (one_at key k)
at_same P key k e p =
    subst (λ n. P n (one_at key n)) ((==_iff key k).0 e) (rw ((==_iff key key).1 refl) p)

-- One more holder of a registration, which is there.
pub holders_more :
    (key k : ℕ) (items : List Item)
    → is_some (lookup key items) ≡ true
    → holders k (recount (λ n. n + 1) key items) ≡ holders k items + one_at key k
holders_more key k items h = elim (Bool-cases (key == k)) [
  | inl e ↦
      at_same (λ n m. holders n (recount (λ n. n + 1) key items) ≡ holders n items + m) key k e
        (recount_same (λ n. n + 1) key items h)
  | inr e ↦ rw (e, recount_other (λ n. n + 1) key k items e) (omega arith)
]

-- One holder less.
pub holders_less :
    (key k : ℕ) (items : List Item)
    → holders k items ≤ holders k (recount (λ n. n - 1) key items) + one_at key k
holders_less key k items = elim (Bool-cases (key == k)) [
  | inl e ↦
      at_same (λ n m. holders n items ≤ holders n (recount (λ n. n - 1) key items) + m) key k e
        (elim (Option-cases (lookup key items)) [
          | inl absent ↦ rw absent (omega arith)
          | inr (item, there) ↦ omega (arith, recount_same (λ n. n - 1) key items (rw there refl))
        ])
  | inr e ↦ rw (e, recount_other (λ n. n - 1) key k items e) (omega arith)
]

-- A registration that is held is there.
pub held_there :
    (key : ℕ) (items : List Item) → 0 < holders key items → is_some (lookup key items) ≡ true
held_there key items h = elim (Option-cases (lookup key items)) [
  | inl absent ↦ absurd (ground (arith, absent, h))
  | inr (item, there) ↦ rw there refl
]

erase_other :
    (key k : ℕ) (items : List Item)
    → (key == k) ≡ false
    → lookup k (erase key items) ≡ lookup k items
erase_other key k [] h = refl
erase_other key k (item ∷ items) h = elim (Bool-cases (item.key == key)) [
  | inl e ↦ let ne : (item.key == k) ≡ false = ground (arith, e, h) in rw (e, ne) refl
  | inr e ↦ elim (Bool-cases (item.key == k)) [
    | inl q ↦ rw (e, q) refl
    | inr q ↦ rw (e, q) (erase_other key k items h)
  ]
]

-- Removing a registration that nobody holds takes no holder away.
holders-erase :
    (key k : ℕ) (items : List Item)
    → holders key items ≡ 0
    → holders k items ≤ holders k (erase key items)
holders-erase key k items h = elim (Bool-cases (key == k)) [
  | inl e ↦
      subst (λ n. holders n items ≤ holders n (erase key items)) ((==_iff key k).0 e)
        (omega (arith, h))
  | inr e ↦ rw (erase_other key k items e) (omega arith)
]

remove_found_keeps :
    (o : Option Item) (key k : ℕ) (items : List Item) (log : Log)
    → lookup key items ≡ o
    → holders k items ≤ holders k (remove_found o key items log).1
unfolding remove_found
remove_found_keeps none key k items log e = omega arith
remove_found_keeps (some item) key k items log e = elim (Bool-cases (ltb 0 item.copies)) [
  | inl held ↦ rw held (omega arith)
  | inr free ↦ rw free (holders-erase key k items (rw e (ground (arith, free))))
]

-- A deregistration takes no holder away, whatever it answers.
pub deregister_keeps :
    (key k : ℕ) (items : List Item) (log : Log)
    → holders k items ≤ holders k (deregister_buffer key items log).1
unfolding deregister_buffer
deregister_keeps key k items log = remove_found_keeps (lookup key items) key k items log refl

insert_unless_keeps :
    (o : Option RegisterResult) (key k : ℕ) (e : BufEntry) (items : List Item) (log : Log)
    → refusal key items ≡ o
    → holders k items ≤ holders k (insert_unless o key e items log).1
unfolding insert_unless refusal
insert_unless_keeps (some r) key k e items log h = omega arith
insert_unless_keeps none key k e items log h = elim (Option-cases (lookup key items)) [
  | inl absent ↦ elim (Bool-cases (key == k)) [
    | inl same ↦
        subst (λ n. holders n items ≤ holders n ((insert_unless none key e items log).1))
          ((==_iff key k).0 same) (rw absent (omega arith))
    | inr other ↦ rw other (omega arith)
  ]
  | inr (item, there) ↦ absurd (ground (arith, there, h))
]

-- Nor does an insertion.
pub insert_keeps :
    (key k : ℕ) (e : BufEntry) (items : List Item) (log : Log)
    → holders k items ≤ holders k (insert key e items log).1
unfolding insert
insert_keeps key k e items log = insert_unless_keeps (refusal key items) key k e items log refl
