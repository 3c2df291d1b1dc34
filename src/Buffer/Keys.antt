-- ===== src/Buffer/Keys.antt =====
-- src/buffer.cpp: lists of registrations by their keys.
use hip_object.Prelude.{
  ℕ, suc, ◌≤◌, ◌≡◌, refl, ap, ◌∙◌, inl, inr, false, Option, none, some, List, [], ◌∷◌, ◌==◌, ==_iff,
  is_some, length, arith, Bool-cases,
}
use hip_object.Prelude.Weigh.{weigh, weigh-nil, weigh-cons, hits_le, hits_other, hits}
use hip_object.Buffer.{
  Log, BufEntry, Item, RegisterResult, max_entries, lookup, erase, refusal, insert_unless, recount,
}

abbrev pub key_of : Item → ℕ
key_of item = item.key

-- No key stands twice, and the limit is kept.
abbrev pub IsMap : List Item → Type 0
IsMap entries = ((key : ℕ) → weigh (hits key_of key) entries ≤ 1) × (length entries ≤ max_entries)

absent :
    (key : ℕ) (entries : List Item)
    → lookup key entries ≡ none
    → weigh (hits key_of key) entries ≡ 0
absent key [] h = weigh-nil _
absent key (item ∷ entries) h = elim (Bool-cases (item.key == key)) [
  | inl e ↦ absurd (ground (arith, e))
  | inr e ↦
      weigh-cons (hits key_of key) item entries
      ∙ rw e (omega (arith, absent key entries (ground (arith, e))))
]

absent_lookup :
    (key : ℕ) (entries : List Item)
    → weigh (hits key_of key) entries ≡ 0
    → lookup key entries ≡ none
absent_lookup key [] h = refl
absent_lookup key (item ∷ entries) h = elim (Bool-cases (item.key == key)) [
  | inl e ↦ absurd (ground (arith, e, h, weigh-cons (hits key_of key) item entries))
  | inr e ↦
      rw e (
        absent_lookup key entries (ground (arith, e, h, weigh-cons (hits key_of key) item entries)))
]

pub weigh-erase :
    (key k : ℕ) (entries : List Item)
    → weigh (hits key_of k) (erase key entries) ≤ weigh (hits key_of k) entries
weigh-erase key k [] = omega arith
weigh-erase key k (item ∷ entries) = elim (Bool-cases (item.key == key)) [
  | inl e ↦ rw e (omega (arith, weigh-cons (hits key_of k) item entries))
  | inr e ↦ rw e (
      omega (
        arith,
        weigh-erase key k entries,
        weigh-cons (hits key_of k) item entries,
        weigh-cons (hits key_of k) item (erase key entries),
      ))
]

pub length-erase : (key : ℕ) (entries : List Item) → length (erase key entries) ≤ length entries
length-erase key [] = omega arith
length-erase key (item ∷ entries) = elim (Bool-cases (item.key == key)) [
  | inl e ↦ rw e (omega arith)
  | inr e ↦ rw e (omega (arith, length-erase key entries))
]

pub weigh-recount :
    (f : ℕ → ℕ) (key k : ℕ) (entries : List Item)
    → weigh (hits key_of k) (recount f key entries) ≡ weigh (hits key_of k) entries
weigh-recount f key k [] = refl
weigh-recount f key k (item ∷ entries) = elim (Bool-cases (item.key == key)) [
  | inl e ↦ rw e (
      omega (
        arith,
        weigh-cons (hits key_of k) item entries,
        weigh-cons (hits key_of k) (record item { copies = f item.copies }) entries,
      ))
  | inr e ↦ rw e (
      omega (
        arith,
        weigh-recount f key k entries,
        weigh-cons (hits key_of k) item entries,
        weigh-cons (hits key_of k) item (recount f key entries),
      ))
]

pub length-recount :
    (f : ℕ → ℕ) (key : ℕ) (entries : List Item) → length (recount f key entries) ≡ length entries
length-recount f key [] = refl
length-recount f key (item ∷ entries) = elim (Bool-cases (item.key == key)) [
  | inl e ↦ rw e
  | inr e ↦ rw e (ap suc (length-recount f key entries))
]

pub lookup-erase_same :
    (key : ℕ) (entries : List Item)
    → weigh (hits key_of key) entries ≤ 1
    → lookup key (erase key entries) ≡ none
lookup-erase_same key [] h = refl
lookup-erase_same key (item ∷ entries) h = elim (Bool-cases (item.key == key)) [
  | inl e ↦
      rw e (
        absent_lookup key entries (ground (arith, e, h, weigh-cons (hits key_of key) item entries)))
  | inr e ↦
      rw (e, e)
        (lookup-erase_same key entries
          (ground (arith, e, h, weigh-cons (hits key_of key) item entries)))
]

pub lookup-erase_other :
    (key k : ℕ) (entries : List Item)
    → (key == k) ≡ false
    → lookup k (erase key entries) ≡ lookup k entries
lookup-erase_other key k [] h = refl
lookup-erase_other key k (item ∷ entries) h = elim (Bool-cases (item.key == key)) [
  | inl e ↦ let ne : (item.key == k) ≡ false = ground (arith, e, h) in rw (e, ne) refl
  | inr e ↦ elim (Bool-cases (item.key == k)) [
    | inl q ↦ rw (e, q) refl
    | inr q ↦ rw (e, q) (lookup-erase_other key k entries h)
  ]
]

none_of : (o : Option Item) → is_some o ≡ false → o ≡ none
none_of none h = refl
none_of (some item) h = absurd (ground arith)

pub insert_unless-IsMap :
    (o : Option RegisterResult) (key : ℕ) (e : BufEntry) (entries : List Item) (log : Log)
    → refusal key entries ≡ o
    → IsMap entries
    → IsMap (insert_unless o key e entries log).1
unfolding insert_unless refusal
insert_unless-IsMap (some r) key e entries log q m = m
insert_unless-IsMap none key e entries log q (once, room) =
    let item : Item = record { key = key; entry = e; copies = 0 } in
    let new = absent key entries (none_of (lookup key entries) (ground arith)) in
    (
      λ k. elim (Bool-cases (key == k)) [
        | inl same ↦ omega (
          arith,
          weigh-cons (hits key_of k) item entries,
          hits_le key_of k item,
          new,
          ap (λ (n : ℕ). weigh (hits key_of n) entries) ((==_iff key k).0 same),
        )
        | inr other ↦
            omega (
              arith,
              once k,
              weigh-cons (hits key_of k) item entries,
              hits_other key_of k item other,
            )
      ],
      ground arith,
    )
