-- ===== src/State/Init.antt =====
-- src/state.cpp, and `hipObjInit` and `hipObjShutdown` in src/hipobj.cpp. Their locks make them run one
-- at a time. What the handles of a device are closed for is not modelled.
pub mod Laws
use hip_object.Prelude.{
  ℕ, ◌+◌, ◌-◌, ◌≤◌, ◌<◌, ◌≡◌, ◌⊎◌, refl, ap, subst, inl, inr, Bool, true, false, not, ◌&&◌, ◌||◌,
  Option, none, some, List, [], ◌∷◌, ◌==◌, ==_iff, ltb, leb, if◌then◌else◌, is_empty, is_some,
  length, take, arith, Bool-cases, Option-cases,
}
use hip_object.Prelude.Int.{ℤ, pos, negsuc}
use hip_object.Prelude.Weigh.{weigh-nil, hits}
use hip_object.Topology.Nics.{Devices, RdmaNic, enumerate, closest_of, text_of}
use hip_object.Transport.Verbs.{Outcome, returned, threw, Log, Verbs}
use hip_object.Transport.Attrs.{RdmaDevice, Build}
use hip_object.Transport.Connection.{RcConnection, Answer, destroy_connection, create_rc_connection}
use hip_object.Transport.Device.{open_rdma_device_by_name}
use hip_object.Pool.{Pool, cq_size, max_send_wr, max_recv_wr, new_pool, destroy_slots, close}
use hip_object.Pool as P
use hip_object.Api.Errors.{OpError, HipObjError, make_error, is_success}
use hip_object.Api.Instance.{Ending, gives, throws, pends, Instance}
use hip_object.Api.Plain.{before_nul}
use hip_object.State.Options.{Options}

-- What a call of the HIP runtime answers: a value, or the number of its error.
pub data HipAnswer {ℓ} (A : Type ℓ) : Type ℓ where
  answers : A → HipAnswer A
  errs : ℕ → HipAnswer A

-- `hipErrorNoDevice`
abbrev pub no_device : ℕ
no_device = 100

-- The calls of the HIP runtime that choose a GPU; `device_get_pci_bus_id` is none if it fails, and
-- otherwise what it wrote to the buffer.
pub record Runtime : Type 0 where
  pub get_device : HipAnswer ℤ
  pub get_device_count : HipAnswer ℤ
  pub device_get_pci_bus_id : ℤ → Option (List ℕ)

-- `Platform`, as far as the library's state is built from it.
pub record World : Type 0 where
  pub devices : Devices
  pub runtime : Runtime
  pub verbs : Verbs
  pub build : Build

-- `hipObjConfig_t`, the members that are used
pub record HipObjConfig : Type 0 where
  pub flags : ℕ
  pub gpu_device : ℤ
  pub nic_hint : Option (List ℕ)

pub record ResolvedConfig : Type 0 where
  pub gpu_device : ℤ
  pub nic_hint : List ℕ
  pub nic_index : ℕ

-- The current instance: what changes, and what is set once.
pub record Current : Type 0 where
  pub options : Options
  pub config : ResolvedConfig
  pub device : RdmaDevice
  pub instance : Instance

-- The GPU that is chosen, or the error.
pub data Chosen {ℓ} (A : Type ℓ) : Type ℓ where
  chooses : A → Chosen A
  refuses : HipObjError → Chosen A
  searches : Chosen A

abbrev rdma_failure : ℕ → HipObjError
rdma_failure code = record { op_error = OpError.rdma_error; hip_error = pos code }

-- The current device, for a negative index.
unfoldable pub current_gpu : Bool → HipAnswer ℤ → Chosen ℤ
current_gpu have_nic_hint (answers gpu) = chooses gpu
current_gpu have_nic_hint (errs code) =
    if not (code == no_device) || not have_nic_hint
    then refuses (rdma_failure code)
    else chooses (negsuc 0)

-- An index that is given has to be one of a device.
abbrev pub is_below : ℕ → ℤ → Bool
is_below n (pos count) = ltb n count
is_below n (negsuc m) = false

unfoldable pub given_gpu : ℕ → HipAnswer ℤ → Chosen ℤ
given_gpu gpu (answers count) =
    if is_below gpu count then chooses (pos gpu) else refuses (make_error OpError.invalid_value)
given_gpu gpu (errs code) =
    if code == no_device
    then refuses (make_error OpError.invalid_value)
    else refuses (rdma_failure code)

unfoldable pub choose_gpu : Runtime → Bool → ℤ → Chosen ℤ
unfolding current_gpu given_gpu
choose_gpu runtime have_nic_hint (negsuc n) = current_gpu have_nic_hint runtime.get_device
choose_gpu runtime have_nic_hint (pos gpu) = given_gpu gpu runtime.get_device_count

-- `GetClosestNicToGpu`: it searches without end if `enumerate` does.
unfoldable pub get_closest_nic_to_gpu : World → ℤ → List ℕ → Chosen (Option RdmaNic)
unfolding enumerate closest_of before_nul
get_closest_nic_to_gpu world gpu hca_list = elim (world.runtime.device_get_pci_bus_id gpu) [
  | none ↦ chooses none
  | some text ↦ elim (enumerate world.devices hca_list) [
    | none ↦ searches
    | some nics ↦ chooses (closest_of (before_nul (take 32 text)) nics)
  ]
]

-- The NIC that the hint names, if no other was chosen.
unfoldable pub or_hint : List ℕ → Option RdmaNic → Chosen RdmaNic
or_hint nic_hint (some nic) = chooses nic
or_hint nic_hint none =
    if is_empty nic_hint
    then refuses (make_error OpError.nic_not_found)
    else chooses (record { index = 0; name = nic_hint })

abbrev pub and_then_choose {ℓ κ} : {A : Type ℓ} {B : Type κ} → Chosen A → (A → Chosen B) → Chosen B
and_then_choose (chooses a) f = f a
and_then_choose (refuses e) f = refuses e
and_then_choose searches f = searches

abbrev pub closest_or_none : World → ℤ → List ℕ → Chosen (Option RdmaNic)
closest_or_none world (pos gpu) nic_hint = get_closest_nic_to_gpu world (pos gpu) nic_hint
closest_or_none world (negsuc n) nic_hint = chooses none

unfoldable pub choose_nic : World → ℤ → List ℕ → Chosen RdmaNic
unfolding or_hint get_closest_nic_to_gpu
choose_nic world gpu nic_hint =
    and_then_choose (closest_or_none world gpu nic_hint) (or_hint nic_hint)

-- What an initialization gives: its ending, the current instance, and the log.
abbrev pub Initialization : Type 0
Initialization = Ending HipObjError × (Option Current × Log)

-- The instance that is published.
abbrev new_instance : RcConnection → Pool → Log → Instance
new_instance conn pool log = record {
  token_conn = conn;
  pool = pool;
  buffers = [];
  abandoned = record { copies = []; capacity = 0; reserved = 0 };
  held = 0;
  verbs_log = log;
  hip_log = [];
  buffers_log = [];
  out_token = none;
}

-- The part of `initWith` after the pool's constructor. The locals that it leaves release what they
-- hold.
unfoldable pub with_pool :
    Options → ResolvedConfig → RdmaDevice → RcConnection → Answer Pool → Initialization
with_pool options config device conn (threw, log) = (throws, (none, destroy_connection conn log))
with_pool options config device conn (returned pool, log) =
    if P.size pool == options.max_transfers
    then (
      gives (make_error OpError.success),
      (
        some (record {
          options = options;
          config = config;
          device = device;
          instance = new_instance conn pool log;
        }),
        log,
      ),
    )
    else (
      gives (make_error OpError.rdma_error),
      (none, destroy_connection conn (destroy_slots pool.slots log)),
    )

module _ (world : World) (options : Options) where
  -- The part of `initWith` after the token connection.
  unfoldable pub with_token_conn :
      ResolvedConfig → RdmaDevice → Answer (Option RcConnection) → Initialization
  unfolding with_pool new_pool
  with_token_conn config device (threw, log) = (throws, (none, log))
  with_token_conn config device (returned none, log) =
      (gives (make_error OpError.rdma_error), (none, log))
  with_token_conn config device (returned (some conn), log) =
      with_pool options config device conn
        (new_pool world.verbs world.build device options.max_transfers log)

  -- The part of `initWith` after the device has been opened, or not.
  unfoldable pub with_device : ResolvedConfig → Option RdmaDevice → Log → Initialization
  unfolding with_token_conn
  with_device config none log = (gives (make_error OpError.rdma_error), (none, log))
  with_device config (some device) log =
      with_token_conn config device
        (create_rc_connection world.verbs world.build device cq_size max_send_wr max_recv_wr log)

  -- The part of `initWith` after a NIC has been chosen, or not.
  unfoldable pub with_nic : ℤ → List ℕ → Chosen RdmaNic → Log → Initialization
  unfolding with_device open_rdma_device_by_name
  with_nic gpu nic_hint searches log = (pends, (none, log))
  with_nic gpu nic_hint (refuses e) log = (gives e, (none, log))
  with_nic gpu nic_hint (chooses nic) log =
      with_device (record { gpu_device = gpu; nic_hint = nic_hint; nic_index = nic.index })
        (open_rdma_device_by_name world.devices nic.name) log

  -- The part of `initWith` after a GPU has been chosen, or not.
  unfoldable pub with_gpu : List ℕ → Chosen ℤ → Log → Initialization
  unfolding with_nic choose_nic
  with_gpu nic_hint searches log = (pends, (none, log))
  with_gpu nic_hint (refuses e) log = (gives e, (none, log))
  with_gpu nic_hint (chooses gpu) log = with_nic gpu nic_hint (choose_nic world gpu nic_hint) log

  unfoldable pub init_with : HipObjConfig → Option Current → Log → Initialization
  unfolding with_gpu choose_gpu
  init_with config (some current) log =
      (gives (make_error OpError.already_initialized), (some current, log))
  init_with config none log =
      let nic_hint = text_of config.nic_hint in
      with_gpu nic_hint (choose_gpu world.runtime (not (is_empty nic_hint)) config.gpu_device) log

-- `catch (...) { return kExceptionError; }`
abbrev pub caught_init : Initialization → Initialization
caught_init (gives e, rest) = (gives e, rest)
caught_init (throws, rest) = (gives (make_error OpError.internal_error), rest)
caught_init (pends, rest) = (pends, rest)

-- -1 is the only negative index.
abbrev pub below_minus_one : ℤ → Bool
below_minus_one (pos n) = false
below_minus_one (negsuc n) = ltb 0 n

-- The checks of `hipObjInit`; the platform is none if libibverbs cannot be loaded.
unfoldable pub hip_obj_init :
    Option World → Options → Option HipObjConfig → Option Current → Log → Initialization
unfolding init_with
hip_obj_init platform options none s log = (gives (make_error OpError.invalid_value), (s, log))
hip_obj_init platform options (some config) s log =
    if not (config.flags == 0) || below_minus_one config.gpu_device
    then (gives (make_error OpError.invalid_value), (s, log))
    else if is_some s
    then (gives (make_error OpError.already_initialized), (s, log))
    else elim platform [
      | none ↦ (gives (make_error OpError.rdma_error), (s, log))
      | some world ↦ caught_init (init_with world options config s log)
    ]

-- `hipObjShutdown`: no instance is current, and the one that was, for the calls that still hold it,
-- has its pool closed.
unfoldable pub hip_obj_shutdown : Option Current → HipObjError × (Option Current × Option Current)
unfolding close
hip_obj_shutdown none = (make_error OpError.success, (none, none))
hip_obj_shutdown (some current) = (
  make_error OpError.success,
  (
    none,
    some (record current {
      instance = record current.instance { pool = close current.instance.pool };
    }),
  ),
)
