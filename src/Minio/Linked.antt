-- ===== src/Minio/Linked.antt =====
-- integrations/minio-cpp: the library that a client is linked with, as src/hipobj.cpp and rdma.cpp
-- implement it. What an instance releases when it is shut down is not modelled.
use hip_object.Prelude.{
  ℕ, zero, suc, ◌+◌, ◌-◌, ◌&&◌, Option, none, some, List, [], ◌∷◌, ltb, leb, if◌then◌else◌, length,
  get_or,
}
use hip_object.Transport.Verbs.{Log}
use hip_object.Api.Instance.{Ending, Platform, Instance}
use hip_object.Api.Calls.{hip_obj_buf_register, hip_obj_buf_deregister}
use hip_object.State.Options.{Options}
use hip_object.State.Init.{World, Current, hip_obj_init, hip_obj_shutdown}
use hip_object.Minio.{
  RdmaResult, S3RdmaContext, Client, Retried, rdma_put_with_retry, rdma_get_with_retry,
}
use hip_object.Minio.Session.{Library}

-- The library's state in a process: the current instance, the calls of the verbs made before it, and
-- the host's memory.
pub record Process : Type 0 where
  pub current : Option Current
  pub log : Log
  pub memory : ℕ → ℕ

-- The platform of an instance: its device, and its options.
abbrev pub platform_of : Platform → Current → Platform
platform_of platform c = record platform {
  device = c.device;
  policy = record {
    enabled = c.options.dmabuf_enabled;
    require_gpu_direct = c.options.require_gpu_direct;
  };
  stage_timeout = c.options.stage_timeout;
  poll_timeout = c.options.poll_timeout;
}

-- The instance that a call has left.
abbrev pub left : Option Current → Option Instance → Option Current
left none i = none
left (some c) none = none
left (some c) (some i) = some (record c { instance = i })

abbrev pub instance_of : Option Current → Option Instance
instance_of none = none
instance_of (some c) = some c.instance

abbrev pub platform_now : Platform → Option Current → Platform
platform_now platform none = platform
platform_now platform (some c) = platform_of platform c

-- A call of the current instance.
abbrev pub on_current :
    {A : Type 0}
    → Platform
    → (Platform → Option Instance → A × Option Instance)
    → Process
    → A × Process
on_current platform f p =
    let (a, i) = f (platform_now platform p.current) (instance_of p.current) in
    (a, record p { current = left p.current i })

abbrev pub transferred : Process → Retried → Ending RdmaResult × (S3RdmaContext × Process)
transferred p (a, (ctx, i)) = (a, (ctx, record p { current = left p.current i }))

abbrev pub bytes_at : (ℕ → ℕ) → ℕ → ℕ → List ℕ
bytes_at memory ptr zero = []
bytes_at memory ptr (suc n) = memory ptr ∷ bytes_at memory (ptr + 1) n

abbrev pub with_bytes : (ℕ → ℕ) → ℕ → List ℕ → ℕ → ℕ
with_bytes memory ptr bytes a =
    if leb ptr a && ltb a (ptr + length bytes) then get_or bytes (a - ptr) 0 else memory a

-- The instance that is gone leaves the log of its calls.
abbrev pub log_after : Log → Option Current → Log
log_after log none = log
log_after log (some c) = c.instance.verbs_log

unfoldable pub library : World → Options → Platform → Client → Library Process
unfolding hip_obj_init hip_obj_shutdown hip_obj_buf_register hip_obj_buf_deregister
    rdma_put_with_retry rdma_get_with_retry
library world options platform client = record {
  init = λ config p.
      let (a, (current, log)) = hip_obj_init (some world) options (some config) p.current p.log in
      (a, record p { current = current; log = log });
  shutdown = λ p.
      let (e, (current, gone)) = hip_obj_shutdown p.current in
      record p { current = current; log = log_after p.log gone };
  buf_register = λ ptr size. on_current platform (λ pf. hip_obj_buf_register pf ptr size);
  buf_deregister = λ ptr p. (on_current platform (λ pf. hip_obj_buf_deregister pf ptr) p).1;
  put_with_retry = λ ctx buf size p. transferred p (
      rdma_put_with_retry (platform_now platform p.current) client buf size ctx
        (instance_of p.current));
  get_with_retry = λ ctx buf size p. transferred p (
      rdma_get_with_retry (platform_now platform p.current) client buf size ctx
        (instance_of p.current));
  is_device = λ ptr p. platform.system.pointer_is_device ptr;
  load = λ ptr size p. bytes_at p.memory ptr size;
  store = λ ptr bytes p. record p { memory = with_bytes p.memory ptr bytes };
}
