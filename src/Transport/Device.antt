-- ===== src/Transport/Device.antt =====
-- src/rdma/transport.cpp: opening a device. What its handles are closed for is not modelled.
use hip_object.Prelude.{
  ℕ, zero, suc, ◌+◌, Option, none, some, List, [], ◌∷◌, if◌then◌else◌, is_empty, bytes_eq,
}
use hip_object.Prelude.Int.{pos}
use hip_object.Topology.{select_best_gid, roce_version_of}
use hip_object.Topology.Nics.{Devices, PortAttr}
use hip_object.Transport.Attrs.{RdmaDevice}

abbrev port_number : ℕ
port_number = 1

-- `deviceSpan(devList, numDevs)[nicIndex]`, if `nicIndex < numDevs`
abbrev device_at : List (Option ℕ) → ℕ → Option ℕ
device_at [] n = none
device_at (dev ∷ devs) zero = dev
device_at (dev ∷ devs) (suc n) = device_at devs n

-- The index of the first device with the name, from index `i` on.
unfoldable pub find_named : (ℕ → Option (List ℕ)) → List ℕ → List (Option ℕ) → ℕ → Option ℕ
find_named get_device_name dev_name [] i = none
find_named get_device_name dev_name (dev ∷ devs) i =
    let rest = find_named get_device_name dev_name devs (i + 1) in
    elim dev [
      | none ↦ rest
      | some d ↦ elim (get_device_name d) [
        | none ↦ rest
        | some name ↦ if bytes_eq name dev_name then some i else rest
      ]
    ]

abbrev or_zero : Option ℕ → ℕ
or_zero none = 0
or_zero (some n) = n

module _ (devices : Devices) where
  -- `SelectBestGid`
  unfoldable pub best_gid_of : ℕ → PortAttr → Option ℕ
  unfolding select_best_gid
  best_gid_of ctx attr =
      select_best_gid (some attr.gid_tbl_len) (devices.query_gid ctx port_number) (λ index.
        roce_version_of (devices.roce_line_of (devices.context_name ctx) port_number index))

  -- The part of `openRdmaDevice` with an open device.
  unfoldable pub with_context : ℕ → Option RdmaDevice
  unfolding best_gid_of
  with_context ctx = elim (devices.alloc_pd ctx) [
    | none ↦ none
    | some pd ↦ elim (devices.query_port ctx port_number) [
      | none ↦ none
      | some attr ↦
          let gid_index = or_zero (best_gid_of ctx attr) in
          elim (devices.query_gid ctx port_number gid_index) [
            | none ↦ none
            | some gid ↦ some (record {
              port_num = port_number;
              gid_index = pos gid_index;
              local_gid = gid;
              vendor_id = elim (devices.query_device ctx) [
                | none ↦ none
                | some attr ↦ some attr.vendor_id
              ];
            })
          ]
    ]
  ]

  unfoldable pub open_rdma_device : ℕ → Option RdmaDevice
  unfolding with_context
  open_rdma_device nic_index = elim devices.get_device_list [
    | none ↦ none
    | some devs ↦ elim (device_at devs nic_index) [
      | none ↦ none
      | some dev ↦ elim (devices.open_device dev) [ none ↦ none | some ctx ↦ with_context ctx ]
    ]
  ]

  unfoldable pub open_rdma_device_by_name : List ℕ → Option RdmaDevice
  unfolding find_named open_rdma_device
  open_rdma_device_by_name dev_name =
      if is_empty dev_name then none else elim devices.get_device_list [
        | none ↦ none
        | some devs ↦ elim (find_named devices.get_device_name dev_name devs 0) [
          | none ↦ none
          | some nic_index ↦ open_rdma_device nic_index
        ]
      ]
