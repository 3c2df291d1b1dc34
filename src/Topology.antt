-- ===== src/Topology.antt =====
-- src/common/rdma-topology.h, rdma-topology.cpp and nic-seam.h: which GID a connection uses, and
-- how far a NIC is from a GPU.
pub mod Gids
pub mod Table
pub mod Distance
pub mod Nics
use hip_object.Prelude.{
  ℕ, zero, suc, ◌+◌, ◌-◌, Bool, true, false, not, ◌&&◌, ◌||◌, Option, none, some, List, [], ◌∷◌,
  ◌==◌, if◌then◌else◌, ltb, is_empty, is_some, length, take, drop, replicate, bytes_eq, codes,
}
use hip_object.Gid.{Gid, gid_len, is_ipv4_mapped_gid}

pub data RoceVersion : Type 0 where
  unknown v1 v2 : RoceVersion

-- `line.find(needle) != npos`
abbrev starts_with : List ℕ → List ℕ → Bool
starts_with [] line = true
starts_with (x ∷ needle) [] = false
starts_with (x ∷ needle) (y ∷ line) = x == y && starts_with needle line

abbrev contains : List ℕ → List ℕ → Bool
contains needle [] = is_empty needle
contains needle (c ∷ line) = starts_with needle (c ∷ line) || contains needle line

-- `SysfsTopology::roceVersion`, from the first line of the entry's file; none if there is no file or
-- no line.
unfoldable pub roce_version_of : Option (List ℕ) → RoceVersion
roce_version_of none = RoceVersion.unknown
roce_version_of (some line) =
    if contains (codes "RoCE v2") line
    then v2
    else if contains (codes "IB/RoCE v1") line || contains (codes "RoCE v1") line
    then v1
    else RoceVersion.unknown

pub data GidPriority : Type 0 where
  unknown roce_v1_link_local roce_v1_global roce_v2_link_local roce_v2_global roce_v2_ipv4 :
      GidPriority

-- The value of an enumerator, plus one.
abbrev pub rank : GidPriority → ℕ
rank GidPriority.unknown = 0
rank roce_v1_link_local = 1
rank roce_v1_global = 2
rank roce_v2_link_local = 3
rank roce_v2_global = 4
rank roce_v2_ipv4 = 6

-- `index` counts the table's entries from 0.
pub record GidCandidate : Type 0 where
  pub index : ℕ
  pub gid : Gid
  pub roce_version : RoceVersion

abbrev pub is_configured_gid : Gid → Bool
is_configured_gid gid = not (bytes_eq gid (replicate gid_len 0))

abbrev pub link_local_gid : Gid → Bool
link_local_gid gid = bytes_eq (take 2 gid) (0xfe ∷ 0x80 ∷ [])

abbrev pub classify_gid : Gid → RoceVersion → GidPriority
classify_gid gid v2 =
    if is_ipv4_mapped_gid gid
    then roce_v2_ipv4
    else if link_local_gid gid
    then roce_v2_link_local
    else roce_v2_global
classify_gid gid v1 = if link_local_gid gid then roce_v1_link_local else roce_v1_global
classify_gid gid RoceVersion.unknown = GidPriority.unknown

-- Whether a candidate of the priority `prio` takes the place of the best so far.
abbrev pub is_better : GidPriority → Option ℕ → GidPriority → Bool
is_better prio best_idx best_prio =
    not (rank prio == 0) && (not (is_some best_idx) || ltb (rank best_prio) (rank prio))

-- The loop of `PickBestGid`.
unfoldable pub pick : List GidCandidate → Option ℕ → GidPriority → Option ℕ
pick [] best_idx best_prio = best_idx
pick (c ∷ candidates) best_idx best_prio =
    let prio = classify_gid c.gid c.roce_version in
    let rest = pick candidates in
    if is_configured_gid c.gid && is_better prio best_idx best_prio
    then rest (some c.index) prio
    else rest best_idx best_prio

unfoldable pub pick_best_gid : List GidCandidate → Option ℕ
pick_best_gid candidates = pick candidates none GidPriority.unknown

-- The loop of `AutoSelectGidIndex` over the port's table, from entry `i` on, for `n` more entries.
-- `query_gid` is none where the verbs report an error.
unfoldable pub gather : (ℕ → Option Gid) → (ℕ → RoceVersion) → ℕ → ℕ → List GidCandidate
gather query_gid roce_version zero i = []
gather query_gid roce_version (suc n) i =
    let rest = gather query_gid roce_version n (i + 1) in
    elim (query_gid i) [
      | none ↦ rest
      | some gid ↦
          if is_configured_gid gid
          then record { index = i; gid = gid; roce_version = roce_version i } ∷ rest
          else rest
    ]

-- `gid_tbl_len` is none if the port could not be queried.
unfoldable pub select_best_gid : Option ℕ → (ℕ → Option Gid) → (ℕ → RoceVersion) → Option ℕ
unfolding gather pick_best_gid
select_best_gid none query_gid roce_version = none
select_best_gid (some gid_tbl_len) query_gid roce_version =
    pick_best_gid (gather query_gid roce_version gid_tbl_len 0)
