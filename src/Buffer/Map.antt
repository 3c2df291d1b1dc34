-- ===== src/Buffer/Map.antt =====
-- The map of registrations: its keys, its limit, and removals.
use hip_object.Prelude.{
  ℕ, ◌+◌, ◌-◌, ◌<◌, ◌≡◌, refl, subst, inl, inr, Bool, true, false, Option, none, some, List, [],
  ◌==◌, if◌then◌else◌, ltb, ltb→lt, arith, Option-cases,
}
use hip_object.Prelude.Weigh.{weigh-nil, hits}
use hip_object.Buffer.{
  Log, BufEntry, Item, DeregisterResult, deregistered, not_registered, busy, lookup, erase, refusal,
  insert, destroy_entry, deregister_buffer, remove_found, recount, find, drop_copy,
}
use hip_object.Buffer.Keys.{
  key_of, IsMap, weigh-erase, length-erase, weigh-recount, length-recount, lookup-erase_same,
  lookup-erase_other, insert_unless-IsMap,
}

-- The map's operations, each with what another thread can have done before it.
pub data Change (entries : List Item) : List Item → Type 0 where
  inserts : (key : ℕ) (e : BufEntry) (log : Log) → Change entries (insert key e entries log).1
  removes : (key : ℕ) (log : Log) → Change entries (deregister_buffer key entries log).1
  finds : (key : ℕ) → Change entries (find key entries).1
  drops : (key : ℕ) → Change entries (drop_copy key entries)

-- A map that operations have brought about, in any order, from an empty one.
pub data Reached : List Item → Type 0 where
  at_first : Reached []
  changed :
      {entries entries' : List Item} → Reached entries → Change entries entries' → Reached entries'

recount-IsMap :
    (f : ℕ → ℕ) (key : ℕ) (entries : List Item) → IsMap entries → IsMap (recount f key entries)
recount-IsMap f key entries (once, room) = (
  λ k. omega (arith, once k, weigh-recount f key k entries),
  omega (arith, room, length-recount f key entries),
)

find-IsMap : (key : ℕ) (entries : List Item) → IsMap entries → IsMap (find key entries).1
unfolding find
find-IsMap key entries m = elim (Option-cases (lookup key entries)) [
  | inl e ↦ subst IsMap (ground (arith, e)) m
  | inr (item, e) ↦ subst IsMap (ground (arith, e)) (recount-IsMap (λ n. n + 1) key entries m)
]

-- What a deregistration does.
abbrev pub Deregisters : ℕ → List Item → Log → DeregisterResult × List Item × Log → Type 0
Deregisters key entries log (deregistered, entries', log') =
    (item : Item) × (lookup key entries ≡ some item)
    × (item.copies ≡ 0)
    × (log' ≡ destroy_entry item.entry log)
    × (lookup key entries' ≡ none)
    × ((k : ℕ) → (key == k) ≡ false → lookup k entries' ≡ lookup k entries)
Deregisters key entries log (busy, entries', log') =
    (item : Item) × (lookup key entries ≡ some item)
    × (0 < item.copies)
    × (entries' ≡ entries)
    × (log' ≡ log)
Deregisters key entries log (not_registered, entries', log') =
    (lookup key entries ≡ none) × (entries' ≡ entries) × (log' ≡ log)

item_cases :
    (held : Bool) (key : ℕ) (item : Item) (entries : List Item) (log : Log)
    → ltb 0 item.copies ≡ held
    → lookup key entries ≡ some item
    → IsMap entries
    → let after : DeregisterResult × List Item × Log =
        if held
        then (busy, entries, log)
        else (deregistered, erase key entries, destroy_entry item.entry log) in
      Deregisters key entries log after × IsMap after.1
item_cases true key item entries log h e m = ((item, e, ltb→lt _ _ h, refl, refl), m)
item_cases false key item entries log h e m = (
  (
    item,
    e,
    ground arith,
    refl,
    lookup-erase_same key entries (m.0 key),
    λ k ne. lookup-erase_other key k entries ne,
  ),
  (
    (λ k. omega (arith, m.0 k, weigh-erase key k entries)),
    omega (arith, m.1, length-erase key entries),
  ),
)

found_cases :
    (o : Option Item) (key : ℕ) (entries : List Item) (log : Log)
    → lookup key entries ≡ o
    → IsMap entries
    → Deregisters key entries log (remove_found o key entries log)
      × IsMap (remove_found o key entries log).1
unfolding remove_found
found_cases none key entries log e m = ((e, refl, refl), m)
found_cases (some item) key entries log e m =
    item_cases (ltb 0 item.copies) key item entries log refl e m

Change-IsMap :
    (entries entries' : List Item) → Change entries entries' → IsMap entries → IsMap entries'
unfolding insert deregister_buffer drop_copy
Change-IsMap entries entries' (inserts key e log) m =
    insert_unless-IsMap (refusal key entries) key e entries log refl m
Change-IsMap entries entries' (removes key log) m =
    (found_cases (lookup key entries) key entries log refl m).1
Change-IsMap entries entries' (finds key) m = find-IsMap key entries m
Change-IsMap entries entries' (drops key) m = recount-IsMap (λ n. n - 1) key entries m

-- Whatever operations brought a map about, no key stands twice in it and it has at most
-- `max_entries` items.
pub Reached-IsMap : (entries : List Item) → Reached entries → IsMap entries
Reached-IsMap [] at_first = ((λ k. omega (arith, weigh-nil (hits key_of k))), omega arith)
Reached-IsMap entries' (changed {entries} r c) =
    Change-IsMap entries entries' c (Reached-IsMap entries r)

-- On a map that operations brought about: a deregistration that succeeds had found an item that
-- nobody else held, destroys exactly its entry, removes its key and keeps all the others; one that
-- finds a held item, or none, changes nothing.
pub deregister_buffer-Deregisters :
    (key : ℕ) (entries : List Item) (log : Log)
    → Reached entries
    → Deregisters key entries log (deregister_buffer key entries log)
unfolding deregister_buffer
deregister_buffer-Deregisters key entries log r =
    (found_cases (lookup key entries) key entries log refl (Reached-IsMap entries r)).0
