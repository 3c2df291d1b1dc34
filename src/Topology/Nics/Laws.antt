-- ===== src/Topology/Nics/Laws.antt =====
-- src/common/rdma-topology.cpp: which NIC is the closest.
use hip_object.Prelude.{
  ℕ, ◌+◌, ◌≤◌, ◌<◌, ◌≡◌, refl, sym, ap, subst, ◌∙◌, inl, inr, false, Option, none, some, List, [],
  ◌∷◌, ◌++◌, ◌==◌, ltb, length, All, All-append, append_assoc, append-nil, ltb→lt, length-append,
  arith, Bool-cases,
}
use hip_object.Topology.Distance.{get_bus_id_distance, int_max}
use hip_object.Topology.Nics.{NicInfo, RdmaNic, min_element, closest_of}

-- The element at an index is the first of those with the least distance.
pub record IsFirstLeast (distance : NicInfo → ℕ) (nics : List NicInfo) (r : NicInfo × ℕ)
    : Type 0 where
  pub before : List NicInfo
  pub behind : List NicInfo
  pub is_there : nics ≡ before ++ r.0 ∷ behind
  pub is_index : length before ≡ r.1
  pub is_less : All (λ n. distance r.0 < distance n) before
  pub is_least : All (λ n. distance r.0 ≤ distance n) behind

All-map :
    {A : Type 0} {P Q : A → Type 0} (xs : List A) → ((x : A) → P x → Q x) → All P xs → All Q xs
All-map [] h a = tt
All-map (x ∷ xs) h (p, ps) = (h x p, All-map xs h ps)

-- One more element: it is the new best, or it is not.
better :
    (distance : NicInfo → ℕ) (seen : List NicInfo) (nic best : NicInfo) (index i : ℕ)
    → length seen ≡ i
    → distance nic < distance best
    → IsFirstLeast distance seen (best, index)
    → IsFirstLeast distance (seen ++ nic ∷ []) (nic, i)
better distance seen nic best index i len lt f = record {
  before = seen;
  behind = [];
  is_there = refl;
  is_index = len;
  is_less = subst (All (λ n. distance nic < distance n)) (sym f.is_there) (
      All-append _ f.before (best ∷ f.behind)
        (All-map f.before (λ n h. omega (arith, h, lt)) f.is_less)
        (lt, All-map f.behind (λ n h. omega (arith, h, lt)) f.is_least));
  is_least = tt;
}

no_better :
    (distance : NicInfo → ℕ) (seen : List NicInfo) (nic best : NicInfo) (index : ℕ)
    → distance best ≤ distance nic
    → IsFirstLeast distance seen (best, index)
    → IsFirstLeast distance (seen ++ nic ∷ []) (best, index)
no_better distance seen nic best index le f = record {
  before = f.before;
  behind = f.behind ++ nic ∷ [];
  is_there =
      ap (λ xs. xs ++ nic ∷ []) f.is_there ∙ append_assoc f.before (best ∷ f.behind) (nic ∷ []);
  is_index = f.is_index;
  is_less = f.is_less;
  is_least = All-append _ f.behind (nic ∷ []) f.is_least (le, tt);
}

min_element_first :
    (distance : NicInfo → ℕ) (nics all seen : List NicInfo) (i : ℕ) (best : NicInfo) (index : ℕ)
    → all ≡ seen ++ nics
    → length seen ≡ i
    → IsFirstLeast distance seen (best, index)
    → IsFirstLeast distance all (min_element distance nics i best index)
unfolding min_element
min_element_first distance [] all seen i best index e len f =
    subst (λ xs. IsFirstLeast distance xs (best, index)) (sym (e ∙ append-nil seen)) f
min_element_first distance (nic ∷ nics) all seen i best index e len f =
    let e' = e ∙ sym (append_assoc seen (nic ∷ []) nics) in
    let len' : length (seen ++ nic ∷ []) ≡ i + 1 =
      omega (arith, length-append seen (nic ∷ []), len) in
    elim (Bool-cases (ltb (distance nic) (distance best))) [
      | inl lt ↦
          rw (min_element, lt)
            (min_element_first distance nics all (seen ++ nic ∷ []) (i + 1) nic i e' len'
              (better distance seen nic best index i len (ltb→lt _ _ lt) f))
      | inr ge ↦
          rw (min_element, ge)
            (min_element_first distance nics all (seen ++ nic ∷ []) (i + 1) best index e' len'
              (no_better distance seen nic best index (ground (arith, ge)) f))
    ]

-- A NIC that is chosen is the first of those whose bus ids are the closest to the GPU's, and its
-- distance is not the one of an unknown bus id.
pub closest_of-IsFirstLeast :
    (gpu_bus : List ℕ) (nics : List NicInfo) (r : RdmaNic)
    → closest_of gpu_bus nics ≡ some r
    → (best : NicInfo) × (r.name ≡ best.dev_name)
      × ((get_bus_id_distance best.pcie_bus_id gpu_bus == int_max) ≡ false)
      × IsFirstLeast (λ n. get_bus_id_distance n.pcie_bus_id gpu_bus) nics (best, r.index)
unfolding closest_of
closest_of-IsFirstLeast gpu_bus [] r h = absurd (ground (arith, h))
closest_of-IsFirstLeast gpu_bus (nic ∷ nics) r h =
    let distance = λ (n : NicInfo). get_bus_id_distance n.pcie_bus_id gpu_bus in
    let found = min_element distance nics 1 nic 0 in
    let first : IsFirstLeast distance (nic ∷ []) (nic, 0) = record {
      before = [];
      behind = [];
      is_there = refl;
      is_index = refl;
      is_less = tt;
      is_least = tt;
    } in
    let least = min_element_first distance nics (nic ∷ nics) (nic ∷ []) 1 nic 0 refl refl first in
    elim (Bool-cases (distance found.0 == int_max)) [
      | inl unknown ↦ absurd (ground (arith, rw (closest_of, unknown) at h))
      | inr known ↦
          let e =
            ap (λ (o : Option RdmaNic). elim o [ none ↦ r | some x ↦ x ])
              (rw (closest_of, known) at h) in
          (
            found.0,
            sym (ap (λ (x : RdmaNic). x.name) e),
            known,
            subst (λ n. IsFirstLeast distance (nic ∷ nics) (found.0, n))
                (ap (λ (x : RdmaNic). x.index) e) least,
          )
    ]
