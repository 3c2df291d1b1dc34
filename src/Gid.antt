-- ===== src/Gid.antt =====
-- src/common/gid.h and ibv-gid.h: GIDs, and those that hold an IPv4 address.
use hip_object.Prelude.{ℕ, ◌<◌, ◌≡◌, Bool, List, [], ◌∷◌, take, drop, length, All, bytes_eq}

-- A `Gid`: 16 bytes (see `IsGid`).
abbrev pub Gid : Type 0
Gid = List ℕ

abbrev pub gid_len : ℕ
gid_len = 16

abbrev pub IsByte : ℕ → Type 0
IsByte b = b < 256

abbrev pub IsGid : Gid → Type 0
IsGid gid = (length gid ≡ gid_len) × All IsByte gid

abbrev pub ipv4_mapped_prefix : List ℕ
ipv4_mapped_prefix = 0 ∷ 0 ∷ 0 ∷ 0 ∷ 0 ∷ 0 ∷ 0 ∷ 0 ∷ 0 ∷ 0 ∷ 0xff ∷ 0xff ∷ []

unfoldable pub is_ipv4_mapped_gid : Gid → Bool
is_ipv4_mapped_gid gid = bytes_eq (take 12 gid) ipv4_mapped_prefix

unfoldable pub ipv4_of_gid : Gid → List ℕ
ipv4_of_gid gid = drop 12 gid

-- `toGid` and `toIbvGid` copy the bytes between a `Gid` and libibverbs' union of the same 16 bytes.
abbrev pub to_gid : Gid → Gid
to_gid gid = gid

abbrev pub to_ibv_gid : Gid → Gid
to_ibv_gid gid = gid
