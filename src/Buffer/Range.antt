-- ===== src/Buffer/Range.antt =====
-- `isValidDeviceRange`: the ranges of device memory that it accepts.
use hip_object.Prelude.{ℕ, ◌+◌, ◌≤◌, ◌<◌, ◌≡◌, ◌↔◌, true, some, arith}
use hip_object.Buffer.{System, is_valid_device_range}

-- A range of device memory in an allocation is accepted exactly when it starts inside of it and ends
-- no later: the check cannot wrap around, since it adds nothing to the address.
is_valid_device_range_iff :
    (system : System) (ptr size base alloc_size : ℕ)
    → system.pointer_is_device ptr ≡ some true
    → system.mem_get_address_range ptr ≡ some (base, alloc_size)
    → (is_valid_device_range system ptr size ≡ true)
      ↔ ((base ≤ ptr) × ((ptr < base + alloc_size) × (ptr + size ≤ base + alloc_size)))
unfolding is_valid_device_range
is_valid_device_range_iff system ptr size base alloc_size e f = ground (arith, e, f)
