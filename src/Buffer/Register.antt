-- ===== src/Buffer/Register.antt =====
-- `registerBuffer` and `registerHostBuffer`: what each result means.
use hip_object.Prelude.{
  ℕ, ◌<◌, ◌≡◌, refl, ap, inl, inr, Bool, true, false, ◌&&◌, Option, none, some, List, ◌∷◌,
  if◌then◌else◌, ltb, lt→ltb, arith, Bool-cases, Option-cases,
}
use hip_object.Buffer.{
  mr, host_buf, fd, acquired, declined, Log, System, Policy, Item, RegisterResult, failed,
  max_mr_size, log_of, refusal, Registration, unless_refused, plain, with_dmabuf, is_device_pointer,
  register_device_memory, with_staging_mr, with_host_buf, with_mr, register_buffer, with_host_mr,
  register_host_buffer,
}
use hip_object.Buffer.Resources.{
  alive, Registers, Acquires, refused-Registers, insert-Registers, plain-Acquires,
  or_plain-Acquires,
}

-- A registration of more than `max_mr_size` bytes fails before anything else is tried.
abbrev pub Limits : ℕ → List Item → Log → Registration → Type 0
Limits size entries log r = max_mr_size < size → r ≡ (failed, entries, log)

if_Registers :
    (key size : ℕ) (large : Bool) (entries : List Item) (r : Registration) (log : Log)
    → Registers key size entries log r
    → Registers key size entries log (if large then (failed, entries, log) else r)
if_Registers key size true entries r log h = (refl, refl)
if_Registers key size false entries r log h = h

unless_refused-Registers :
    (key size : ℕ) (before entries : List Item) (o : Option RegisterResult) (r : Registration)
    (log : Log)
    → refusal key before ≡ o
    → Registers key size entries log r
    → Registers key size entries log (unless_refused size o r entries log)
unfolding unless_refused
unless_refused-Registers key size before entries none r log q h =
    if_Registers key size (ltb max_mr_size size) entries r log h
unless_refused-Registers key size before entries (some refused) r log q h =
    if_Registers key size (ltb max_mr_size size) entries (refused, entries, log) log
      (refused-Registers key size before entries refused log log q refl)

unless_refused-Limits :
    (size : ℕ) (o : Option RegisterResult) (r : Registration) (entries : List Item) (log : Log)
    → Limits size entries log (unless_refused size o r entries log)
unfolding unless_refused
unless_refused-Limits size none r entries log h = rw (lt→ltb _ _ h)
unless_refused-Limits size (some refused) r entries log h = rw (lt→ltb _ _ h)

module _ (system : System) where
  with_staging_mr-Registers :
      (key size a : ℕ) (m : Option ℕ) (entries : List Item) (log0 log : Log)
      → alive log ≡ host_buf a ∷ alive log0
      → Registers key size entries log0
          (with_staging_mr system key size a m entries (log_of m mr log))
  unfolding with_staging_mr
  with_staging_mr-Registers key size a (some m) entries log0 log h =
      insert-Registers key size _ entries log0 (log_of (some m) mr log) refl ((λ e. cc), λ b e. cc)
        (ap (◌∷◌ (mr m)) h)
  with_staging_mr-Registers key size a none entries log0 log h = (refl, rw h (ground arith))

  with_host_buf-Registers :
      (key size : ℕ) (a : Option ℕ) (entries : List Item) (log0 log : Log)
      → alive log ≡ alive log0
      → Registers key size entries log0
          (with_host_buf system key size a entries (log_of a host_buf log))
  unfolding with_host_buf
  with_host_buf-Registers key size (some a) entries log0 log h =
      with_staging_mr-Registers key size a _ entries log0 (log_of (some a) host_buf log)
        (ap (◌∷◌ (host_buf a)) h)
  with_host_buf-Registers key size none entries log0 log h = (refl, h)

  with_host_mr-Registers :
      (key size : ℕ) (entries : List Item) (log : Log) (r : Option ℕ × Log)
      → Acquires log r
      → Registers key size entries log (with_host_mr system key size entries r)
  unfolding with_host_mr
  with_host_mr-Registers key size entries log (some m, log') h =
      insert-Registers key size _ entries log log' refl ((λ e. refl), λ b e. cc) h
  with_host_mr-Registers key size entries log (none, log') h = (refl, h)

module _ (system : System) (policy : Policy) where
  register_device_memory-Acquires :
      (addr len : ℕ) (log : Log) → Acquires log (register_device_memory system policy addr len log)
  unfolding register_device_memory with_dmabuf
  register_device_memory-Acquires addr len log =
      elim (Bool-cases (policy.enabled && system.supports_dmabuf)) [
        | inr e ↦ rw (e, Acquires) (plain-Acquires system addr len log)
        | inl e ↦ elim (Option-cases (system.export_dmabuf log addr len)) [
          | inl f ↦ rw (e, f, Acquires) (plain-Acquires system addr len (declined ∷ log))
          | inr ((d, offset), f) ↦
              rw (e, f, Acquires)
                (or_plain-Acquires system addr len d
                  (system.reg_dmabuf_mr (acquired (fd d) ∷ log) offset len addr d)
                  (acquired (fd d) ∷ log) log refl)
        ]
      ]

  with_mr-Registers :
      (key size : ℕ) (entries : List Item) (log : Log) (r : Option ℕ × Log)
      → Acquires log r
      → Registers key size entries log (with_mr system policy key size entries r)
  unfolding with_mr
  with_mr-Registers key size entries log (some m, log') h =
      insert-Registers key size _ entries log log' refl ((λ e. refl), λ b e. cc) h
  with_mr-Registers key size entries log (none, log') h =
      let rest =
        with_host_buf-Registers system key size (system.host_malloc log' size) entries log log' h in
      elim (Bool-cases (is_device_pointer system key && policy.require_gpu_direct)) [
        | inl e ↦ rw (e, Registers) (refl, h)
        | inr e ↦ rw (e, Registers) rest
      ]

  -- Whatever the runtime and the verbs answer, and however the map changed while its lock was not
  -- held: a buffer that is registered adds one item to the map, at a key that was not in it and below
  -- its limit, and exactly that item's region and staging buffer to what is alive; any other result
  -- leaves the map as it was and nothing behind. More than `max_mr_size` bytes always fail.
  pub register_buffer-Registers :
      (dev_ptr size : ℕ) (before entries : List Item) (log : Log)
      → Registers dev_ptr size entries log
          (register_buffer system policy dev_ptr size before entries log)
        × Limits size entries log (register_buffer system policy dev_ptr size before entries log)
  unfolding register_buffer
  register_buffer-Registers dev_ptr size before entries log =
      let device = register_device_memory system policy dev_ptr size log in
      let r = with_mr system policy dev_ptr size entries device in
      (
        unless_refused-Registers dev_ptr size before entries (refusal dev_ptr before) r log refl (
            with_mr-Registers dev_ptr size entries log device
              (register_device_memory-Acquires dev_ptr size log)),
        unless_refused-Limits size (refusal dev_ptr before) r entries log,
      )

-- The same of a host buffer: a registration adds its item and its region, and any other result leaves
-- the map as it was and nothing behind. More than `max_mr_size` bytes always fail.
register_host_buffer-Registers :
    (system : System) (host_ptr size : ℕ) (before entries : List Item) (log : Log)
    → Registers host_ptr size entries log
        (register_host_buffer system host_ptr size before entries log)
      × Limits size entries log (register_host_buffer system host_ptr size before entries log)
unfolding register_host_buffer
register_host_buffer-Registers system host_ptr size before entries log =
    let r = with_host_mr system host_ptr size entries (plain system host_ptr size log) in
    (
      unless_refused-Registers host_ptr size before entries (refusal host_ptr before) r log refl (
          with_host_mr-Registers system host_ptr size entries log (plain system host_ptr size log)
            (plain-Acquires system host_ptr size log)),
      unless_refused-Limits size (refusal host_ptr before) r entries log,
    )
