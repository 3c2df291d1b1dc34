-- ===== src/Topology/Distance.antt =====
-- src/common/rdma-topology.cpp: the distance of two PCIe bus ids, and the list of device names that
-- selects NICs. Bus ids are short enough that the sum of two lengths fits an `int`.
use hip_object.Prelude.{
  ℕ, ◌+◌, ◌-◌, ◌^◌, ◌≡◌, ◌↔◌, refl, ap₂, inl, inr, true, false, ◌||◌, Option, none, some, List, [],
  ◌∷◌, ◌==◌, ==_iff, if◌then◌else◌, is_empty, length, bytes_eq, bytes_eq→eq, arith, Bool-cases,
}

abbrev pub int_max : ℕ
int_max = 2 ^ 31 - 1

-- `substr(0, rfind(':'))`, if there is a colon
abbrev before_last_colon : List ℕ → Option (List ℕ)
before_last_colon [] = none
before_last_colon (c ∷ cs) = elim (before_last_colon cs) [
  | some front ↦ some (c ∷ front)
  | none ↦ if c == b':' then some [] else none
]

abbrev pub extract_bus_number : List ℕ → List ℕ
extract_bus_number pcie_bus_id = elim (before_last_colon pcie_bus_id) [
  | some front ↦ front
  | none ↦ pcie_bus_id
]

-- The loop of `GetBusIdDistance`, and the sum after it: what is left of the two past their common
-- start.
unfoldable pub apart : List ℕ → List ℕ → ℕ
apart [] b = length b
apart (x ∷ a) [] = length (x ∷ a)
apart (x ∷ a) (y ∷ b) =
    let rest = apart a b in if x == y then rest else length (x ∷ a) + length (y ∷ b)

unfoldable pub get_bus_id_distance : List ℕ → List ℕ → ℕ
unfolding apart
get_bus_id_distance bus_a bus_b =
    if is_empty bus_a || is_empty bus_b
    then int_max
    else if bytes_eq (extract_bus_number bus_a) (extract_bus_number bus_b)
    then 0
    else apart (extract_bus_number bus_a) (extract_bus_number bus_b)

apart-eq : (a b : List ℕ) → apart a b ≡ 0 → a ≡ b
unfolding apart
apart-eq [] [] h = refl
apart-eq [] (y ∷ b) h = absurd (omega (arith, h))
apart-eq (x ∷ a) [] h = absurd (omega (arith, h))
apart-eq (x ∷ a) (y ∷ b) h = elim (Bool-cases (x == y)) [
  | inl e ↦ ap₂ ◌∷◌ ((==_iff x y).0 e) (apart-eq a b (rw e at h))
  | inr e ↦ absurd (ground (arith, e, h))
]

bytes_eq_same : (a : List ℕ) → bytes_eq a a ≡ true
bytes_eq_same [] = refl
bytes_eq_same (x ∷ a) = ground (arith, bytes_eq_same a, (==_iff x x).1 refl)

-- The distance of two ids that are not empty is 0 exactly when they name the same bus: they agree up
-- to their last colons.
distance_zero_iff :
    (bus_a bus_b : List ℕ)
    → is_empty bus_a ≡ false
    → is_empty bus_b ≡ false
    → (get_bus_id_distance bus_a bus_b ≡ 0) ↔ (extract_bus_number bus_a ≡ extract_bus_number bus_b)
unfolding get_bus_id_distance
distance_zero_iff bus_a bus_b ea eb =
    let a = extract_bus_number bus_a in
    let b = extract_bus_number bus_b in
    (
      (λ h. elim (Bool-cases (bytes_eq a b)) [
        | inl e ↦ bytes_eq→eq a b e
        | inr e ↦ apart-eq a b (rw (ea, eb, e) at h)
      ]),
      λ e. rw (ea, eb, e, bytes_eq_same b) refl,
    )
