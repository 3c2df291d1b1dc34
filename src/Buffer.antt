-- ===== src/Buffer.antt =====
-- src/buffer.h and src/buffer.cpp: registrations with the NIC, and the map that holds them. An
-- address is a number. Of the memory allocations, only that of the staging buffer can fail.
pub mod Range
pub mod Resources
pub mod Register
pub mod Keys
pub mod Map
use hip_object.Prelude.{
  ℕ, ◌+◌, ◌-◌, ◌*◌, ◌^◌, Bool, true, false, not, ◌&&◌, ◌||◌, Option, none, some, List, [], ◌∷◌,
  ◌==◌, if◌then◌else◌, is_some, ltb, leb, length,
}

-- A memory region, a staging buffer in host memory, or an exported dma-buf's descriptor.
pub data Object : Type 0 where
  mr host_buf fd : ℕ → Object

pub data Event : Type 0 where
  acquired : Object → Event
  dropped : Object → Event
  declined : Event

-- The calls made so far, the latest first: what each acquired or gave back, or that it declined.
abbrev pub Log : Type 0
Log = List Event

-- The calls of the HIP runtime and of libibverbs, each a function of the calls before it. They are
-- none where the call fails. `pointer_is_device` is none if the runtime cannot tell.
pub record System : Type 0 where
  pub supports_dmabuf : Bool
  pub export_dmabuf : Log → ℕ → ℕ → Option (ℕ × ℕ)
  pub reg_dmabuf_mr : Log → ℕ → ℕ → ℕ → ℕ → Option ℕ
  pub reg_mr : Log → ℕ → ℕ → Option ℕ
  pub host_malloc : Log → ℕ → Option ℕ
  pub pointer_is_device : ℕ → Option Bool
  pub mem_get_address_range : ℕ → Option (ℕ × ℕ)

abbrev pub max_mr_size : ℕ
max_mr_size = 2 ^ 32

abbrev pub max_entries : ℕ
max_entries = 256

-- `DmabufPolicy::enabled`, and `requireGpuDirect_`
pub record Policy : Type 0 where
  pub enabled : Bool
  pub require_gpu_direct : Bool

pub record BufEntry : Type 0 where
  pub host_buf : Option ℕ
  pub mr : ℕ
  pub size : ℕ
  pub is_dmabuf : Bool
  pub remote_addr : ℕ

-- An element of `entries_`; `copies` counts the other holders of the `shared_ptr`.
pub record Item : Type 0 where
  pub key : ℕ
  pub entry : BufEntry
  pub copies : ℕ

pub data RegisterResult : Type 0 where
  registered already_registered failed : RegisterResult

pub data DeregisterResult : Type 0 where
  deregistered not_registered busy : DeregisterResult

abbrev pub log_of : Option ℕ → (ℕ → Object) → Log → Log
log_of none make log = declined ∷ log
log_of (some n) make log = acquired (make n) ∷ log

-- `entries_.find(key)`
abbrev pub lookup : ℕ → List Item → Option Item
lookup key [] = none
lookup key (item ∷ items) = if item.key == key then some item else lookup key items

-- `entries_.erase(it)`
abbrev pub erase : ℕ → List Item → List Item
erase key [] = []
erase key (item ∷ items) = if item.key == key then items else item ∷ erase key items

unfoldable pub refusal : ℕ → List Item → Option RegisterResult
refusal key entries =
    if is_some (lookup key entries)
    then some already_registered
    else if leb max_entries (length entries)
    then some failed
    else none

-- An entry's destructor: its members are destroyed in reverse order. `leakHostBuf` is not set, as
-- only the destructor of `AbandonedCopies` sets it.
abbrev pub free_host : Option ℕ → Log → Log
free_host none log = log
free_host (some a) log = dropped (host_buf a) ∷ log

abbrev pub destroy_entry : BufEntry → Log → Log
destroy_entry e log = free_host e.host_buf (dropped (mr e.mr) ∷ log)

-- A result, the map and the log after a registration.
abbrev pub Registration : Type 0
Registration = RegisterResult × List Item × Log

-- What is left of `insert` once it is known whether the entry is refused; then it is destroyed.
unfoldable pub insert_unless : Option RegisterResult → ℕ → BufEntry → List Item → Log → Registration
insert_unless (some refused) key entry entries log = (refused, entries, destroy_entry entry log)
insert_unless none key entry entries log =
    (registered, record { key = key; entry = entry; copies = 0 } ∷ entries, log)

-- `insert`, with the map's lock held.
unfoldable pub insert : ℕ → BufEntry → List Item → Log → Registration
unfolding insert_unless
insert key entry entries log = insert_unless (refusal key entries) key entry entries log

-- The checks before a registration: of the size, and the precheck.
unfoldable pub unless_refused :
    ℕ → Option RegisterResult → Registration → List Item → Log → Registration
unless_refused size (some refused) registration entries log =
    if ltb max_mr_size size then (failed, entries, log) else (refused, entries, log)
unless_refused size none registration entries log =
    if ltb max_mr_size size then (failed, entries, log) else registration

module _ (system : System) where
  abbrev pub is_device_pointer : ℕ → Bool
  is_device_pointer ptr = elim (system.pointer_is_device ptr) [ some b ↦ b | none ↦ false ]

  unfoldable pub is_valid_device_range : ℕ → ℕ → Bool
  is_valid_device_range ptr size =
      if not (is_device_pointer ptr) then true else elim (system.mem_get_address_range ptr) [
        | none ↦ false
        | some (base, alloc_size) ↦
            if ltb ptr base || leb alloc_size (ptr - base)
            then false
            else leb size (alloc_size - (ptr - base))
      ]

  -- The last statement of `registerDeviceMemory`.
  unfoldable pub plain : ℕ → ℕ → Log → Option ℕ × Log
  plain addr len log = let m = system.reg_mr log addr len in (m, log_of m mr log)

  -- What is left of `registerDeviceMemory` after the dma-buf has been registered, or not.
  unfoldable pub or_plain : ℕ → ℕ → Option ℕ → Log → Option ℕ × Log
  unfolding plain
  or_plain addr len (some m) log = (some m, log)
  or_plain addr len none log = plain addr len log

  -- The part after a dma-buf has been exported: its descriptor is closed whatever the verbs answer.
  unfoldable pub with_dmabuf : ℕ → ℕ → ℕ × ℕ → Log → Option ℕ × Log
  unfolding or_plain
  with_dmabuf addr len (fd_number, offset) log =
      let m = system.reg_dmabuf_mr log offset len addr fd_number in
      or_plain addr len m (dropped (fd fd_number) ∷ log_of m mr log)

  -- The part of `registerBuffer` after the staging buffer has been registered, or not.
  unfoldable pub with_staging_mr : ℕ → ℕ → ℕ → Option ℕ → List Item → Log → Registration
  with_staging_mr key size a (some m) entries log =
      let entry : BufEntry = record {
        host_buf = some a;
        mr = m;
        size = size;
        is_dmabuf = false;
        remote_addr = a;
      } in
      insert key entry entries log
  with_staging_mr key size a none entries log = (failed, entries, dropped (host_buf a) ∷ log)

  -- The part of `registerBuffer` after the staging buffer has been allocated, or not.
  unfoldable pub with_host_buf : ℕ → ℕ → Option ℕ → List Item → Log → Registration
  unfolding with_staging_mr
  with_host_buf key size (some a) entries log =
      let m = system.reg_mr log a size in with_staging_mr key size a m entries (log_of m mr log)
  with_host_buf key size none entries log = (failed, entries, log)

  -- The part of `registerHostBuffer` after the memory has been registered, or not.
  unfoldable pub with_host_mr : ℕ → ℕ → List Item → Option ℕ × Log → Registration
  with_host_mr key size entries (none, log) = (failed, entries, log)
  with_host_mr key size entries (some m, log) =
      let entry : BufEntry = record {
        host_buf = none;
        mr = m;
        size = size;
        is_dmabuf = false;
        remote_addr = key;
      } in
      insert key entry entries log

  unfoldable pub register_host_buffer : ℕ → ℕ → List Item → List Item → Log → Registration
  unfolding with_host_mr plain unless_refused
  register_host_buffer host_ptr size before entries log =
      unless_refused size (refusal host_ptr before)
        (with_host_mr host_ptr size entries (plain host_ptr size log)) entries log

module _ (system : System) (policy : Policy) where
  unfoldable pub register_device_memory : ℕ → ℕ → Log → Option ℕ × Log
  unfolding with_dmabuf plain
  register_device_memory addr len log =
      if policy.enabled && system.supports_dmabuf
      then elim (system.export_dmabuf log addr len) [
        | none ↦ plain system addr len (declined ∷ log)
        | some dmabuf ↦ with_dmabuf system addr len dmabuf (acquired (fd dmabuf.0) ∷ log)
      ]
      else plain system addr len log

  -- The part of `registerBuffer` after the memory itself has been registered, or not.
  unfoldable pub with_mr : ℕ → ℕ → List Item → Option ℕ × Log → Registration
  unfolding with_host_buf
  with_mr key size entries (some m, log) =
      let entry : BufEntry = record {
        host_buf = none;
        mr = m;
        size = size;
        is_dmabuf = true;
        remote_addr = key;
      } in
      insert key entry entries log
  with_mr key size entries (none, log) =
      if is_device_pointer system key && policy.require_gpu_direct
      then (failed, entries, log)
      else let a = system.host_malloc log size in
        with_host_buf system key size a entries (log_of a host_buf log)

  -- `before` is the map at the precheck and `entries` the map at the insertion: other threads can
  -- change it in between, as the lock is not held.
  unfoldable pub register_buffer : ℕ → ℕ → List Item → List Item → Log → Registration
  unfolding with_mr register_device_memory unless_refused
  register_buffer dev_ptr size before entries log =
      unless_refused size (refusal dev_ptr before)
        (with_mr dev_ptr size entries (register_device_memory dev_ptr size log)) entries log

-- What is left of `deregisterBuffer` once the item has been looked up.
unfoldable pub remove_found : Option Item → ℕ → List Item → Log → DeregisterResult × List Item × Log
remove_found none dev_ptr entries log = (not_registered, entries, log)
remove_found (some item) dev_ptr entries log =
    if ltb 0 item.copies
    then (busy, entries, log)
    else (deregistered, erase dev_ptr entries, destroy_entry item.entry log)

unfoldable pub deregister_buffer : ℕ → List Item → Log → DeregisterResult × List Item × Log
unfolding remove_found
deregister_buffer dev_ptr entries log = remove_found (lookup dev_ptr entries) dev_ptr entries log

-- `copies` of the item at a key, changed.
abbrev pub recount : (ℕ → ℕ) → ℕ → List Item → List Item
recount f key [] = []
recount f key (item ∷ items) =
    if item.key == key
    then record item { copies = f item.copies } ∷ items
    else item ∷ recount f key items

-- `find`: the caller holds a copy of what it returns.
unfoldable pub find : ℕ → List Item → Option BufEntry × List Item
find dev_ptr entries = elim (lookup dev_ptr entries) [
  | none ↦ (none, entries)
  | some item ↦ (some item.entry, recount (λ n. n + 1) dev_ptr entries)
]

-- The destructor of a copy that `find` returned, while others remain.
unfoldable pub drop_copy : ℕ → List Item → List Item
drop_copy key entries = recount (λ n. n - 1) key entries
