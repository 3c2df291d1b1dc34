-- ===== src/Api/Instance.antt =====
-- src/state.h and src/hipobj.cpp: the state that the public functions work on, and the world that they
-- call.
use hip_object.Prelude.{ℕ, Bool, Option, List, if◌then◌else◌}
use hip_object.Transport.Verbs as TV
use hip_object.Transport.Verbs.{Verbs}
use hip_object.Transport.Attrs.{RdmaDevice, Build}
use hip_object.Transport.Connection.{RcConnection}
use hip_object.Transport.Poll.{Round}
use hip_object.Buffer as B
use hip_object.Buffer.{Item, BufEntry, lookup, recount}
use hip_object.Abandoned.{AbandonedCopies, Copy}
use hip_object.Pool.{Pool}
use hip_object.Api.Errors.{HipObjError, is_success}

-- A call gives a result, throws, or is still waiting for another thread or for the clock.
pub data Ending {ℓ} (A : Type ℓ) : Type ℓ where
  gives : A → Ending A
  throws : Ending A
  pends : Ending A

-- A staging copy: its addresses, its size, and whether it goes to the device.
pub record Copying : Type 0 where
  pub dst : ℕ
  pub src : ℕ
  pub size : ℕ
  pub to_device : Bool

pub data HipEvent : Type 0 where
  event_created : Option ℕ → HipEvent
  copy_started : Copying → Bool → HipEvent
  event_recorded : ℕ → Bool → HipEvent
  event_destroyed : ℕ → HipEvent
  synchronized : Bool → HipEvent

-- The calls of the HIP runtime made so far, the latest first.
abbrev pub HipLog : Type 0
HipLog = List HipEvent

-- What `hipEventQuery` returns: `hipSuccess`, `hipErrorNotReady`, or another error.
pub data Query : Type 0 where
  finished not_ready wrong : Query

-- One turn of the wait for a staging copy: the query, and the clock after it.
pub record StageRound : Type 0 where
  pub query : Query
  pub now : ℕ

-- The HIP runtime, as functions of the calls before. A Boolean says whether a call returned
-- `hipSuccess`.
pub record Hip : Type 0 where
  pub event_create : HipLog → Option ℕ
  pub memcpy_async : HipLog → Copying → Bool
  pub event_record : HipLog → ℕ → Bool
  pub device_synchronize : HipLog → Bool
  -- what the clock reads when the wait for an event begins, and the turns of that wait
  pub stage_start : HipLog → ℕ
  pub stage_rounds : HipLog → ℕ → List StageRound
  -- whether an abandoned copy is over
  pub is_over : HipLog → Copy → Bool

-- The outside world, and what an instance never changes. `rkey` and `qp_num` read the library's
-- structures; `poll_start` and `poll_rounds` are the clock and the queue of a wait for a completion;
-- `allocate` is what a vector allocates.
pub record Platform : Type 0 where
  pub verbs : Verbs
  pub build : Build
  pub device : RdmaDevice
  pub hip : Hip
  pub system : B.System
  pub policy : B.Policy
  pub rkey : ℕ → ℕ
  pub qp_num : ℕ → ℕ
  pub poll_start : TV.Log → ℕ
  pub poll_rounds : TV.Log → List Round
  pub allocate : ℕ → ℕ
  pub stage_timeout : ℕ
  pub poll_timeout : ℕ

-- An `Instance`, the logs of the calls made on its behalf, the calling thread's `t_leasesHeld`, and the
-- text that a call has written to its `outToken`.
pub record Instance : Type 0 where
  pub token_conn : RcConnection
  pub pool : Pool
  pub buffers : List Item
  pub abandoned : AbandonedCopies
  pub held : ℕ
  pub verbs_log : TV.Log
  pub hip_log : HipLog
  pub buffers_log : B.Log
  pub out_token : Option (List ℕ)

-- A part of a call.
abbrev pub Step : Type 0
Step = Instance → Ending HipObjError × Instance

-- `if (err.opError != hipObjSuccess) return err;`, and then the next part.
abbrev pub seq : Ending HipObjError × Instance → Step → Ending HipObjError × Instance
seq (gives e, i) next = if is_success e.op_error then next i else (gives e, i)
seq (throws, i) next = (throws, i)
seq (pends, i) next = (pends, i)
