-- ===== src/Api/Holders/Register.antt =====
-- src/buffer.cpp: a registration takes no holder of another one away.
use hip_object.Prelude.{ℕ, ◌≤◌, inl, inr, ◌&&◌, Option, none, some, List, arith, Bool-cases, ltb}
use hip_object.Buffer.{
  BufEntry, Item, Log, System, Policy, Registration, RegisterResult, insert, unless_refused,
  max_mr_size, with_host_mr, with_staging_mr, with_host_buf, with_mr, is_device_pointer,
  register_buffer, register_host_buffer,
}
use hip_object.Api.Holders.{holders, insert_keeps}

-- No registration loses a holder.
abbrev pub LosesNone : List Item → List Item → Type 0
LosesNone items after = (k : ℕ) → holders k items ≤ holders k after

insert-LosesNone :
    (key : ℕ) (e : BufEntry) (items : List Item) (log : Log)
    → LosesNone items (insert key e items log).1
insert-LosesNone key e items log k = insert_keeps key k e items log

unless_refused-LosesNone :
    (size : ℕ) (o : Option RegisterResult) (r : Registration) (items : List Item) (log : Log)
    → LosesNone items r.1
    → LosesNone items (unless_refused size o r items log).1
unfolding unless_refused
unless_refused-LosesNone size (some refused) r items log h k =
    elim (Bool-cases (ltb max_mr_size size)) [
      | inl large ↦ rw large (omega arith)
      | inr fits ↦ rw fits (omega arith)
    ]
unless_refused-LosesNone size none r items log h k = elim (Bool-cases (ltb max_mr_size size)) [
  | inl large ↦ rw large (omega arith)
  | inr fits ↦ rw fits (h k)
]

module _ (system : System) where
  with_host_mr-LosesNone :
      (key size : ℕ) (items : List Item) (r : Option ℕ × Log)
      → LosesNone items (with_host_mr system key size items r).1
  unfolding with_host_mr
  with_host_mr-LosesNone key size items (none, log) = λ k. omega arith
  with_host_mr-LosesNone key size items (some m, log) = insert-LosesNone key _ items log

  with_staging_mr-LosesNone :
      (key size a : ℕ) (o : Option ℕ) (items : List Item) (log : Log)
      → LosesNone items (with_staging_mr system key size a o items log).1
  unfolding with_staging_mr
  with_staging_mr-LosesNone key size a none items log = λ k. omega arith
  with_staging_mr-LosesNone key size a (some m) items log = insert-LosesNone key _ items log

  with_host_buf-LosesNone :
      (key size : ℕ) (o : Option ℕ) (items : List Item) (log : Log)
      → LosesNone items (with_host_buf system key size o items log).1
  unfolding with_host_buf
  with_host_buf-LosesNone key size none items log = λ k. omega arith
  with_host_buf-LosesNone key size (some a) items log =
      with_staging_mr-LosesNone key size a _ items _

  with_mr-LosesNone :
      (policy : Policy) (key size : ℕ) (items : List Item) (r : Option ℕ × Log)
      → LosesNone items (with_mr system policy key size items r).1
  unfolding with_mr
  with_mr-LosesNone policy key size items (some m, log) = insert-LosesNone key _ items log
  with_mr-LosesNone policy key size items (none, log) =
      elim (Bool-cases (is_device_pointer system key && policy.require_gpu_direct)) [
        | inl strict ↦ rw (with_mr, strict) (λ k. omega arith)
        | inr loose ↦ rw (with_mr, loose) (with_host_buf-LosesNone key size _ items _)
      ]

  pub register_host_buffer-LosesNone :
      (host_ptr size : ℕ) (items : List Item) (log : Log)
      → LosesNone items (register_host_buffer system host_ptr size items items log).1
  unfolding register_host_buffer
  register_host_buffer-LosesNone host_ptr size items log =
      unless_refused-LosesNone size _ _ items log (with_host_mr-LosesNone host_ptr size items _)

  pub register_buffer-LosesNone :
      (policy : Policy) (dev_ptr size : ℕ) (items : List Item) (log : Log)
      → LosesNone items (register_buffer system policy dev_ptr size items items log).1
  unfolding register_buffer
  register_buffer-LosesNone policy dev_ptr size items log =
      unless_refused-LosesNone size _ _ items log (with_mr-LosesNone policy dev_ptr size items _)
