-- ===== src/Topology/Nics.antt =====
-- src/common/rdma-topology.cpp: the NICs of the host, and the one that is closest to a GPU.
pub mod Laws
pub mod Names
use hip_object.Prelude.{
  ℕ, zero, suc, ◌+◌, ◌-◌, ◌^◌, ◌≤◌, ◌<◌, ◌≡◌, refl, inl, inr, Bool, true, false, not, ◌&&◌, ◌||◌,
  Option, none, some, List, [], ◌∷◌, ◌++◌, ◌==◌, ltb, leb, if◌then◌else◌, is_empty, length,
  bytes_eq, arith, Bool-cases, Option-cases,
}
use hip_object.Prelude.Int.{ℤ, pos, negsuc}
use hip_object.Gid.{Gid}
use hip_object.Topology.Distance.{get_bus_id_distance, int_max}

pub record NicInfo : Type 0 where
  pub dev_name : List ℕ
  pub pcie_bus_id : List ℕ
  pub numa_node : ℤ
  pub port_num : ℕ

pub record RdmaNic : Type 0 where
  pub index : ℕ
  pub name : List ℕ

-- `ibv_port_attr` and `ibv_device_attr`, the members that are used
pub record PortAttr : Type 0 where
  pub is_active : Bool
  pub gid_tbl_len : ℕ

pub record DeviceAttr : Type 0 where
  pub vendor_id : ℕ
  pub phys_port_cnt : ℕ

-- The calls of libibverbs that find and open devices, and the files under /sys/class/infiniband. A
-- device, a context and a protection domain are numbers; none is a null pointer or an error. They do
-- not change while the library is initialized. `is_active` stands for `IBV_PORT_ACTIVE` and
-- `IBV_PORT_ACTIVE_DEFER`.
pub record Devices : Type 0 where
  pub get_device_list : Option (List (Option ℕ))
  pub get_device_name : ℕ → Option (List ℕ)
  pub open_device : ℕ → Option ℕ
  pub alloc_pd : ℕ → Option ℕ
  pub query_device : ℕ → Option DeviceAttr
  pub query_port : ℕ → ℕ → Option PortAttr
  pub query_gid : ℕ → ℕ → ℕ → Option Gid
  pub context_name : ℕ → List ℕ
  pub bus_id_of : List ℕ → Option (List ℕ)
  pub numa_node_of : List ℕ → Option ℤ
  pub roce_line_of : List ℕ → ℕ → ℕ → Option (List ℕ)

-- `find_first_not_of(" \t")` and `remove_prefix`; what has only such characters is left as it is.
abbrev pub skip_blanks : List ℕ → Option (List ℕ)
skip_blanks [] = none
skip_blanks (c ∷ cs) = if c == b' ' || c == 9 then skip_blanks cs else some (c ∷ cs)

abbrev pub without_blanks : List ℕ → List ℕ
without_blanks hca = elim (skip_blanks hca) [ none ↦ hca | some rest ↦ rest ]

-- The part of the list before its first comma, and what follows the comma.
unfoldable pub split_comma : List ℕ → List ℕ × Option (List ℕ)
split_comma [] = ([], none)
split_comma (c ∷ cs) =
    let rest = split_comma cs in if c == b',' then ([], some cs) else (c ∷ rest.0, rest.1)

-- The loop of `HcaListIncludes`, which takes a comma off at each turn; none if the turns run out first.
unfoldable pub hca_list_loop : ℕ → List ℕ → List ℕ → Option Bool
unfolding split_comma
hca_list_loop zero hca_list dev_name = none
hca_list_loop (suc turns) hca_list dev_name =
    let (hca, rest) = split_comma hca_list in
    let later = λ (more : List ℕ). hca_list_loop turns more dev_name in
    if bytes_eq (without_blanks hca) dev_name
    then some true
    else elim rest [ none ↦ some false | some more ↦ later more ]

unfoldable pub hca_list_includes : List ℕ → List ℕ → Bool
unfolding hca_list_loop
hca_list_includes hca_list dev_name = elim (hca_list_loop (length hca_list + 1) hca_list dev_name) [
  | none ↦ false
  | some found ↦ found
]

-- What the loop over a device's ports finds; the port number is a `uint8_t`.
pub data PortSearch : Type 0 where
  found : ℕ → PortSearch
  no_port : PortSearch
  never_ends : PortSearch

abbrev is_active_port : (ℕ → Option PortAttr) → ℕ → Bool
is_active_port query_port p = elim (query_port p) [ none ↦ false | some attr ↦ attr.is_active ]

-- The first active port of the `n` from `p` on.
unfoldable pub first_active : (ℕ → Option PortAttr) → ℕ → ℕ → Option ℕ
first_active query_port zero p = none
first_active query_port (suc n) p =
    let rest = first_active query_port n (p + 1) in
    if is_active_port query_port p then some p else rest

-- With 255 ports the condition of the loop always holds: after port 255 comes 0, and then 1 again.
unfoldable pub find_port : (ℕ → Option PortAttr) → ℕ → PortSearch
unfolding first_active
find_port query_port phys_port_cnt = elim (first_active query_port phys_port_cnt 1) [
  | some p ↦ found p
  | none ↦
      if ltb phys_port_cnt 255
      then no_port
      else if is_active_port query_port 0
      then found 0
      else never_ends
]

abbrev at_least_zero : ℤ → ℤ
at_least_zero (pos n) = pos n
at_least_zero (negsuc n) = pos 0

abbrev pub text_of : Option (List ℕ) → List ℕ
text_of none = []
text_of (some text) = text

module _ (devices : Devices) where
  abbrev nic_info : List ℕ → ℕ → NicInfo
  nic_info dev_name port_num = record {
    dev_name = dev_name;
    pcie_bus_id = text_of (devices.bus_id_of dev_name);
    numa_node = elim (devices.numa_node_of dev_name) [ none ↦ negsuc 0 | some n ↦ at_least_zero n ];
    port_num = port_num;
  }

  -- What one device adds to the result; none if the loop over its ports never ends.
  unfoldable pub nics_of : List ℕ → ℕ → Option (List NicInfo)
  unfolding hca_list_includes find_port
  nics_of hca_list dev = elim (devices.get_device_name dev) [
    | none ↦ some []
    | some dev_name ↦
        if not (is_empty hca_list) && not (hca_list_includes hca_list dev_name)
        then some []
        else elim (devices.open_device dev) [
          | none ↦ some []
          | some ctx ↦ elim (devices.query_device ctx) [
            | none ↦ some []
            | some attr ↦ elim (find_port (devices.query_port ctx) attr.phys_port_cnt) [
              | found p ↦ some (nic_info dev_name p ∷ [])
              | no_port ↦ some []
              | never_ends ↦ none
            ]
          ]
        ]
  ]

  -- The loop of `SysfsTopology::enumerate`, which ends at a null device.
  unfoldable pub enumerate_list : List ℕ → List (Option ℕ) → Option (List NicInfo)
  unfolding nics_of
  enumerate_list hca_list [] = some []
  enumerate_list hca_list (none ∷ devs) = some []
  enumerate_list hca_list (some dev ∷ devs) =
      let rest = enumerate_list hca_list devs in
      elim (nics_of hca_list dev) [
        | none ↦ none
        | some nics ↦ elim rest [ none ↦ none | some more ↦ some (nics ++ more) ]
      ]

  unfoldable pub enumerate : List ℕ → Option (List NicInfo)
  unfolding enumerate_list
  enumerate hca_list = elim devices.get_device_list [
    | none ↦ some []
    | some devs ↦ enumerate_list hca_list devs
  ]

-- `std::ranges::min_element`: the best NIC so far, its index and its distance, and then the others,
-- from index `i` on.
unfoldable pub min_element : (NicInfo → ℕ) → List NicInfo → ℕ → NicInfo → ℕ → NicInfo × ℕ
min_element distance [] i best index = (best, index)
min_element distance (nic ∷ nics) i best index =
    let next = min_element distance nics (i + 1) in
    if ltb (distance nic) (distance best) then next nic i else next best index

-- The part of `GetClosestNicToGpu` after the bus id and the devices are known.
unfoldable pub closest_of : List ℕ → List NicInfo → Option RdmaNic
unfolding min_element get_bus_id_distance
closest_of gpu_bus [] = none
closest_of gpu_bus (nic ∷ nics) =
    let distance = λ (n : NicInfo). get_bus_id_distance n.pcie_bus_id gpu_bus in
    let (best, index) = min_element distance nics 1 nic 0 in
    if distance best == int_max then none else some (record { index = index; name = best.dev_name })
