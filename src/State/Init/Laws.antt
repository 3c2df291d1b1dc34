-- ===== src/State/Init/Laws.antt =====
-- src/state.cpp: what `initWith` and `hipObjInit` leave.
use hip_object.Prelude.{
  ℕ, ◌≡◌, ◌⊎◌, refl, inl, inr, Bool, true, false, not, ◌||◌, Option, none, some, List, ◌==◌, ==_iff,
  length, arith, Bool-cases, Option-cases, is_some, is_empty, ◌∙◌, sym,
}
use hip_object.Prelude.Int.{ℤ, pos, negsuc}
use hip_object.Prelude.Weigh.{weigh-nil, hits}
use hip_object.Topology.Nics.{RdmaNic, enumerate, text_of}
use hip_object.Transport.Verbs.{returned, threw, Log}
use hip_object.Transport.Attrs.{RdmaDevice}
use hip_object.Transport.Connection.{RcConnection, Answer}
use hip_object.Pool as P
use hip_object.Pool.{Pool, new_pool}
use hip_object.Pool.Create.{Built, new_pool-Built}
use hip_object.Pool.System.{start}
use hip_object.Pool.System.Owners.{IsOwned}
use hip_object.Abandoned.{Copy}
use hip_object.Api.Errors.{is_success}
use hip_object.Api.Instance.{gives, throws, pends}
use hip_object.Api.Holders.{InstanceIsHeld}
use hip_object.State.Options.{Options}
use hip_object.State.Init.{
  World, Runtime, HipAnswer, answers, errs, no_device, is_below, or_hint, and_then_choose,
  closest_or_none, get_closest_nic_to_gpu, choose_nic, caught_init, below_minus_one, HipObjConfig,
  ResolvedConfig, Current, Chosen, chooses, refuses, searches, Initialization, current_gpu,
  given_gpu, choose_gpu, with_pool, with_token_conn, with_device, with_nic, with_gpu, init_with,
  hip_obj_init,
}

-- A current instance that is ready: its pool is open, and has as many connections as the options say,
-- each of which is free, once, and in a slot that is not empty; nothing is registered or abandoned.
abbrev pub IsReady : Options → Current → Type 0
IsReady options c =
    (P.size c.instance.pool ≡ options.max_transfers)
    × (length c.instance.pool.slots ≡ options.max_transfers)
    × (c.instance.pool.closed ≡ false)
    × ((log : Log) → IsOwned (start c.instance.pool log))
    × InstanceIsHeld (λ k. 0) c.instance

-- What an initialization leaves: if it succeeds, there was no instance, and there is one that is
-- ready; if not, or if it throws or never ends, the current instance is what it was.
abbrev pub Initializes : Options → Option Current → Initialization → Type 0
Initializes options s (gives e, (t, log)) =
    ((is_success e.op_error ≡ true)
      × (s ≡ none)
      × ((c : Current) × (t ≡ some c) × IsReady options c))
    ⊎ ((is_success e.op_error ≡ false) × (t ≡ s))
Initializes options s (throws, (t, log)) = t ≡ s
Initializes options s (pends, (t, log)) = t ≡ s

with_pool-Initializes :
    (options : Options) (config : ResolvedConfig) (device : RdmaDevice) (conn : RcConnection)
    (a : Answer Pool)
    → Built options.max_transfers a.0
    → Initializes options none (with_pool options config device conn a)
unfolding with_pool
with_pool-Initializes options config device conn (threw, log) b = refl
with_pool-Initializes options config device conn (returned p, log) (owned, (bound, (live, shut))) =
    elim (Bool-cases (P.size p == options.max_transfers)) [
      | inr few ↦ rw (with_pool, few) (inr (refl, refl))
      | inl full ↦
          let e = (==_iff _ _).0 full in
          rw (with_pool, full)
            (inl (
              refl,
              refl,
              (
                _,
                refl,
                (
                  e,
                  sym live ∙ e,
                  shut,
                  owned,
                  λ k. omega (arith, weigh-nil (hits (λ (c : Copy). c.entry) k)),
                ),
              ),
            ))
    ]

-- A choice that is refused is refused with an error.
abbrev IsRefusal {ℓ} : {A : Type ℓ} → Chosen A → Type 0
IsRefusal (chooses a) = Unit {0}
IsRefusal (refuses e) = is_success e.op_error ≡ false
IsRefusal searches = Unit {0}

current_gpu-IsRefusal : (hint : Bool) (a : HipAnswer ℤ) → IsRefusal (current_gpu hint a)
unfolding current_gpu
current_gpu-IsRefusal hint (answers gpu) = tt
current_gpu-IsRefusal hint (errs code) = elim (Bool-cases (not (code == no_device) || not hint)) [
  | inl fatal ↦ rw (current_gpu, fatal) refl
  | inr fine ↦ rw (current_gpu, fine) tt
]

given_gpu-IsRefusal : (gpu : ℕ) (a : HipAnswer ℤ) → IsRefusal (given_gpu gpu a)
unfolding given_gpu
given_gpu-IsRefusal gpu (answers count) = elim (Bool-cases (is_below gpu count)) [
  | inl below ↦ rw (given_gpu, below) tt
  | inr above ↦ rw (given_gpu, above) refl
]
given_gpu-IsRefusal gpu (errs code) = elim (Bool-cases (code == no_device)) [
  | inl lacking ↦ rw (given_gpu, lacking) refl
  | inr other ↦ rw (given_gpu, other) refl
]

choose_gpu-IsRefusal :
    (runtime : Runtime) (hint : Bool) (gpu : ℤ) → IsRefusal (choose_gpu runtime hint gpu)
unfolding choose_gpu
choose_gpu-IsRefusal runtime hint (negsuc n) = current_gpu-IsRefusal hint runtime.get_device
choose_gpu-IsRefusal runtime hint (pos gpu) = given_gpu-IsRefusal gpu runtime.get_device_count

or_hint-IsRefusal : (hint : List ℕ) (o : Option RdmaNic) → IsRefusal (or_hint hint o)
unfolding or_hint
or_hint-IsRefusal hint (some nic) = tt
or_hint-IsRefusal hint none = elim (Bool-cases (is_empty hint)) [
  | inl lacking ↦ rw (or_hint, lacking) refl
  | inr given ↦ rw (or_hint, given) tt
]

chained-IsRefusal :
    (a : Chosen (Option RdmaNic)) (hint : List ℕ)
    → IsRefusal a
    → IsRefusal (and_then_choose a (or_hint hint))
chained-IsRefusal (chooses o) hint h = or_hint-IsRefusal hint o
chained-IsRefusal (refuses e) hint h = h
chained-IsRefusal searches hint h = tt

closest-IsRefusal :
    (world : World) (gpu : ℤ) (hint : List ℕ) → IsRefusal (closest_or_none world gpu hint)
unfolding get_closest_nic_to_gpu
closest-IsRefusal world (negsuc n) hint = tt
closest-IsRefusal world (pos gpu) hint =
    elim (Option-cases (world.runtime.device_get_pci_bus_id (pos gpu))) [
      | inl lacking ↦ rw (get_closest_nic_to_gpu, lacking) tt
      | inr (text, e) ↦ elim (Option-cases (enumerate world.devices hint)) [
        | inl forever ↦ rw (get_closest_nic_to_gpu, e, forever) tt
        | inr (nics, q) ↦ rw (get_closest_nic_to_gpu, e, q) tt
      ]
    ]

choose_nic-IsRefusal :
    (world : World) (gpu : ℤ) (hint : List ℕ) → IsRefusal (choose_nic world gpu hint)
unfolding choose_nic
choose_nic-IsRefusal world gpu hint =
    chained-IsRefusal (closest_or_none world gpu hint) hint (closest-IsRefusal world gpu hint)

module _ (world : World) (options : Options) where
  with_token_conn-Initializes :
      (config : ResolvedConfig) (device : RdmaDevice) (a : Answer (Option RcConnection))
      → Initializes options none (with_token_conn world options config device a)
  unfolding with_token_conn
  with_token_conn-Initializes config device (threw, log) = refl
  with_token_conn-Initializes config device (returned none, log) = inr (refl, refl)
  with_token_conn-Initializes config device (returned (some conn), log) =
      with_pool-Initializes options config device conn
        (new_pool world.verbs world.build device options.max_transfers log)
        (new_pool-Built world.verbs world.build device options.max_transfers log)

  with_device-Initializes :
      (config : ResolvedConfig) (o : Option RdmaDevice) (log : Log)
      → Initializes options none (with_device world options config o log)
  unfolding with_device
  with_device-Initializes config none log = inr (refl, refl)
  with_device-Initializes config (some device) log = with_token_conn-Initializes config device _

  with_nic-Initializes :
      (gpu : ℤ) (hint : List ℕ) (c : Chosen RdmaNic) (log : Log)
      → IsRefusal c
      → Initializes options none (with_nic world options gpu hint c log)
  unfolding with_nic
  with_nic-Initializes gpu hint searches log h = refl
  with_nic-Initializes gpu hint (refuses e) log h = inr (h, refl)
  with_nic-Initializes gpu hint (chooses nic) log h = with_device-Initializes _ _ log

  with_gpu-Initializes :
      (hint : List ℕ) (c : Chosen ℤ) (log : Log)
      → IsRefusal c
      → Initializes options none (with_gpu world options hint c log)
  unfolding with_gpu
  with_gpu-Initializes hint searches log h = refl
  with_gpu-Initializes hint (refuses e) log h = inr (h, refl)
  with_gpu-Initializes hint (chooses gpu) log h =
      with_nic-Initializes gpu hint (choose_nic world gpu hint) log
        (choose_nic-IsRefusal world gpu hint)

  init_with-Initializes :
      (config : HipObjConfig) (s : Option Current) (log : Log)
      → Initializes options s (init_with world options config s log)
  unfolding init_with
  init_with-Initializes config (some current) log = inr (refl, refl)
  init_with-Initializes config none log =
      let nic_hint = text_of config.nic_hint in
      with_gpu-Initializes nic_hint
        (choose_gpu world.runtime (not (is_empty nic_hint)) config.gpu_device) log
        (choose_gpu-IsRefusal world.runtime (not (is_empty nic_hint)) config.gpu_device)

caught_init-Initializes :
    (options : Options) (s : Option Current) (r : Initialization)
    → Initializes options s r
    → Initializes options s (caught_init r)
caught_init-Initializes options s (gives e, (t, log)) h = h
caught_init-Initializes options s (throws, (t, log)) h = inr (refl, h)
caught_init-Initializes options s (pends, (t, log)) h = h

-- Whatever the configuration, the HIP runtime, the devices and the verbs are: `hipObjInit` succeeds
-- only if there was no instance, and then there is one that is ready, with an open pool of exactly
-- as many connections as the options say, each free once; if it fails, or an exception ends it, or it
-- never ends, the current instance is what it was.
pub hip_obj_init-Initializes :
    (platform : Option World) (options : Options) (config : Option HipObjConfig)
    (s : Option Current) (log : Log)
    → Initializes options s (hip_obj_init platform options config s log)
unfolding hip_obj_init
hip_obj_init-Initializes platform options none s log = inr (refl, refl)
hip_obj_init-Initializes platform options (some config) s log =
    elim (Bool-cases (not (config.flags == 0) || below_minus_one config.gpu_device)) [
      | inl bad ↦ rw (hip_obj_init, bad) (inr (refl, refl))
      | inr good ↦ elim (Bool-cases (is_some s)) [
        | inl there ↦ rw (hip_obj_init, good, there) (inr (refl, refl))
        | inr new ↦ elim (Option-cases platform) [
          | inl lacking ↦ rw (hip_obj_init, good, new, lacking) (inr (refl, refl))
          | inr (world, e) ↦
              rw (hip_obj_init, good, new, e)
                (caught_init-Initializes options s (init_with world options config s log)
                  (init_with-Initializes world options config s log))
        ]
      ]
    ]
