-- ===== src/Examples/Topology.antt =====
-- The choice of a GID of src/common/rdma-topology.cpp at concrete inputs.
use hip_object.Prelude.{ℕ, zero, suc, ◌≡◌, refl, Option, some, none, List, [], ◌∷◌, ◌++◌, replicate}
use hip_object.Gid.{Gid, is_ipv4_mapped_gid}
use hip_object.Topology.{
  RoceVersion, v1, v2, GidCandidate, pick_best_gid, gather, pick, select_best_gid,
}
use hip_object.Topology.Gids.{Picked, pick_best_gid-Picked}
use hip_object.Topology.Table.{IsSelected, select_best_gid-IsSelected}

abbrev mapped : Gid
mapped = replicate 10 0 ++ 255 ∷ 255 ∷ 10 ∷ 0 ∷ 0 ∷ 7 ∷ []

abbrev link_local : Gid
link_local = 0xfe ∷ 0x80 ∷ replicate 14 1

-- A link-local entry, one that cannot be read, and two entries of one IPv4 address.
abbrev query_gid : ℕ → Option Gid
query_gid zero = some link_local
query_gid (suc zero) = none
query_gid i = some mapped

abbrev roce_version : ℕ → RoceVersion
roce_version (suc (suc zero)) = v1
roce_version i = v2

abbrev candidates : List GidCandidate
candidates =
    record { index = 0; gid = link_local; roce_version = v2 }
    ∷ record { index = 3; gid = mapped; roce_version = v2 }
    ∷ []

pick_best_gid-Picked_example : (s : ℕ) × Picked candidates (pick_best_gid candidates) s
pick_best_gid-Picked_example = pick_best_gid-Picked candidates

selects_three : select_best_gid (some 4) query_gid roce_version ≡ some 3
unfolding select_best_gid gather pick_best_gid pick is_ipv4_mapped_gid
selects_three = refl

select_best_gid-IsSelected_example : IsSelected query_gid roce_version 4 3
select_best_gid-IsSelected_example =
    select_best_gid-IsSelected query_gid roce_version 4 3 selects_three
