-- ===== src/State/Options.antt =====
-- src/state.h and src/state.cpp: the options that the environment sets.
use hip_object.Prelude.{
  ℕ, ◌-◌, ◌*◌, ◌^◌, ◌≤◌, ◌<◌, Bool, true, false, not, ◌&&◌, ◌||◌, Option, none, some, List, [], ◌∷◌,
  ◌==◌, ltb, leb, if◌then◌else◌, codes, is_empty, arith,
}
use hip_object.Prelude.Int.{ℤ, pos, negsuc}
use hip_object.Parse.{parse_number, parse_signed}

-- In milliseconds. `poll_timeout` is not read from the environment.
pub record Options : Type 0 where
  pub stage_timeout : ℕ
  pub poll_timeout : ℕ
  pub max_transfers : ℕ
  pub require_gpu_direct : Bool
  pub dmabuf_enabled : Bool
  pub dmabuf_debug : Bool

-- `kMaxStageTimeout`: 24 hours
abbrev pub max_stage_timeout : ℕ
max_stage_timeout = 24 * 60 * 60 * 1000

-- `kMaxTransfers`
abbrev pub most_transfers : ℕ
most_transfers = 1024

abbrev pub default_options : Options
default_options = record {
  stage_timeout = 30000;
  poll_timeout = 5000;
  max_transfers = 16;
  require_gpu_direct = false;
  dmabuf_enabled = true;
  dmabuf_debug = false;
}

-- The environment: the value of a variable, if it is set.
abbrev pub EnvLookup : Type 0
EnvLookup = List ℕ → Option (List ℕ)

abbrev pub lookup_value : EnvLookup → List ℕ → List ℕ
lookup_value lookup name = elim (lookup name) [ none ↦ [] | some value ↦ value ]

abbrev pub includes : ℕ → List ℕ → Bool
includes c [] = false
includes c (x ∷ chars) = c == x || includes c chars

abbrev pub starts_with_one_of : List ℕ → List ℕ → Bool
starts_with_one_of [] chars = false
starts_with_one_of (c ∷ value) chars = includes c chars

-- The timeout that a variable's number sets, over the one before.
abbrev pub set_stage_timeout : Option ℤ → ℕ → ℕ
set_stage_timeout none before = before
set_stage_timeout (some (negsuc n)) before = before
set_stage_timeout (some (pos n)) before = if ltb 0 n && leb n max_stage_timeout then n else before

abbrev pub set_max_transfers : Option ℕ → ℕ → ℕ
set_max_transfers none before = before
set_max_transfers (some n) before = if ltb 0 n && leb n most_transfers then n else before

unfoldable pub parse_options : EnvLookup → Options
unfolding parse_number parse_signed
parse_options lookup =
    let value = λ (name : List ℕ). lookup_value lookup name in
    let require_gpu_direct = value (codes "HIPOBJ_REQUIRE_GPU_DIRECT") in
    let debug = value (codes "HIPOBJ_RDMA_DEBUG") in
    record {
      stage_timeout =
          set_stage_timeout (parse_signed (2 ^ 63 - 1) (value (codes "HIPOBJ_STAGE_TIMEOUT_MS")))
            default_options.stage_timeout;
      poll_timeout = default_options.poll_timeout;
      max_transfers =
          set_max_transfers (parse_number (2 ^ 64 - 1) 10 (value (codes "HIPOBJ_MAX_TRANSFERS")))
            default_options.max_transfers;
      require_gpu_direct =
          not (is_empty require_gpu_direct)
          && not (starts_with_one_of require_gpu_direct (codes "0nN"));
      dmabuf_enabled = not (starts_with_one_of (value (codes "HIPOBJ_DMABUF")) (codes "0nN"));
      dmabuf_debug = not (is_empty debug) && not (starts_with_one_of debug (codes "0"));
    }

set_stage_timeout_bounds :
    (o : Option ℤ)
    → (0 < set_stage_timeout o 30000) × (set_stage_timeout o 30000 ≤ max_stage_timeout)
set_stage_timeout_bounds none = (omega arith, omega arith)
set_stage_timeout_bounds (some (negsuc n)) = (omega arith, omega arith)
set_stage_timeout_bounds (some (pos n)) = (ground arith, ground arith)

set_max_transfers_bounds :
    (o : Option ℕ) → (0 < set_max_transfers o 16) × (set_max_transfers o 16 ≤ most_transfers)
set_max_transfers_bounds none = (omega arith, omega arith)
set_max_transfers_bounds (some n) = (ground arith, ground arith)

-- Whatever the environment holds, the timeout of a staging copy is at least a millisecond and at most
-- 24 hours, and the number of connections for transfers is from 1 to 1024.
pub parse_options_bounds :
    (lookup : EnvLookup)
    → ((0 < (parse_options lookup).stage_timeout)
        × ((parse_options lookup).stage_timeout ≤ max_stage_timeout))
      × ((0 < (parse_options lookup).max_transfers)
          × ((parse_options lookup).max_transfers ≤ most_transfers))
unfolding parse_options
parse_options_bounds lookup = (
  set_stage_timeout_bounds
      (parse_signed (2 ^ 63 - 1) (lookup_value lookup (codes "HIPOBJ_STAGE_TIMEOUT_MS"))),
  set_max_transfers_bounds
      (parse_number (2 ^ 64 - 1) 10 (lookup_value lookup (codes "HIPOBJ_MAX_TRANSFERS"))),
)
