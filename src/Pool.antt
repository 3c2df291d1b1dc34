-- ===== src/Pool.antt =====
-- src/rdma/connection-pool.h and src/rdma/connection-pool.cpp: connections that transfers lease.
pub mod Restore
pub mod System
pub mod Create
use hip_object.Prelude.{
  ℕ, zero, suc, ◌+◌, ◌-◌, Bool, true, false, not, ◌&&◌, ◌||◌, Option, none, some, List, [], ◌∷◌,
  ◌++◌, ◌==◌, if◌then◌else◌, is_empty, length,
}
use hip_object.Transport.Verbs.{Outcome, returned, threw, Log, Verbs}
use hip_object.Transport.Attrs.{RdmaDevice, Build}
use hip_object.Transport.Connection.{
  RcConnection, Answer, destroy_connection, create_rc_connection, reset_rc_connection,
}

-- `kCqSize`, `kMaxSendWr` and `kMaxRecvWr`
abbrev pub cq_size : ℕ
cq_size = 16

abbrev pub max_send_wr : ℕ
max_send_wr = 8

abbrev pub max_recv_wr : ℕ
max_recv_wr = 8

-- The members of a `ConnectionPool` that change. The head of `free` is the back of `free_`.
pub record Pool : Type 0 where
  pub slots : List (Option RcConnection)
  pub free : List ℕ
  pub live : ℕ
  pub closed : Bool

pub data AcquireError : Type 0 where
  closed no_connections busy : AcquireError

-- What one round of `acquire` does with the lock held: it waits, fails, or leases a connection.
pub data Acquired : Type 0 where
  waits : Acquired
  fails : AcquireError → Acquired
  leases : ℕ → Pool → Acquired

-- The part of `acquire` after the loop.
unfoldable pub take_free : Pool → Acquired
take_free p = elim p.free [
  | [] ↦ fails (if p.live == 0 then no_connections else busy)
  | index ∷ rest ↦ leases index (record p { free = rest })
]

-- `leases_held` is the calling thread's `t_leasesHeld`.
unfoldable pub acquire : ℕ → Pool → Acquired
unfolding take_free
acquire leases_held p =
    if leases_held == 0 && (not p.closed && is_empty p.free && not (p.live == 0))
    then waits
    else if p.closed
    then fails closed
    else take_free p

-- The locked part of `close`.
unfoldable pub close : Pool → Pool
close p = record p { closed = true }

-- The locked part of `release`.
unfoldable pub put_back : ℕ → Bool → Pool → Pool
put_back index usable p =
    if usable then record p { free = index ∷ p.free } else record p { live = p.live - 1 }

-- `ConnectionPool::size` and `available`
abbrev pub size : Pool → ℕ
size p = p.live

abbrev pub available : Pool → ℕ
available p = length p.free

-- Whom `release` notifies once the lock is free.
pub data Notify : Type 0 where
  nobody one_waiter all_waiters : Notify

unfoldable pub notification : Bool → ℕ → Notify
notification usable left = if usable then one_waiter else if left == 0 then all_waiters else nobody

-- A slot after `restore`, whether it is usable, and the log.
pub record Restored : Type 0 where
  pub usable : Bool
  pub slot : Option RcConnection
  pub log : Log

-- `conn.reset()`
abbrev pub clear : Option RcConnection → Log → Log
clear none log = log
clear (some conn) log = destroy_connection conn log

-- The destructors of the elements of `slots_`.
unfoldable pub destroy_slots : List (Option RcConnection) → Log → Log
destroy_slots [] log = log
destroy_slots (slot ∷ slots) log = destroy_slots slots (clear slot log)

-- The constructor's last statement.
abbrev pub count_live : Outcome Pool × Log → Outcome Pool × Log
count_live (returned p, log) = (returned (record p { live = length p.slots }), log)
count_live (threw, log) = (threw, log)

module _ (verbs : Verbs) (build : Build) (device : RdmaDevice) where
  -- What is left of `restore` once the replacement has been created, or not.
  unfoldable pub replaced : Answer (Option RcConnection) → Restored
  replaced (returned (some fresh), log) = record { usable = true; slot = some fresh; log = log }
  replaced (returned none, log) = record { usable = false; slot = none; log = log }
  replaced (threw, log) = record { usable = false; slot = none; log = log }

  -- The part of `restore` after the reset: `conn` has been emptied by then.
  unfoldable pub replace : Log → Restored
  unfolding replaced
  replace log =
      replaced (create_rc_connection verbs build device cq_size max_send_wr max_recv_wr log)

  unfoldable pub after_reset : RcConnection → Answer Bool → Restored
  unfolding replace
  after_reset conn (returned true, log) = record { usable = true; slot = some conn; log = log }
  after_reset conn (returned false, log) = replace (clear (some conn) log)
  after_reset conn (threw, log) = record {
    usable = false;
    slot = none;
    log = clear (some conn) log;
  }

  unfoldable pub restore : Option RcConnection → Log → Restored
  unfolding after_reset
  restore none log = replace log
  restore (some conn) log = after_reset conn (reset_rc_connection verbs build device conn log)

  -- The unlocked part of `release`: a slot that was connected is restored.
  unfoldable pub restore_if : Bool → Option RcConnection → Log → Restored
  restore_if connected slot log =
      if connected then restore slot log else record { usable = true; slot = slot; log = log }

  -- The constructor's loop, with `n` connections to go, the next one at index `i`. If a call
  -- throws, the connections created so far are destroyed with the member `slots_`.
  unfoldable pub fill : ℕ → ℕ → Pool → Log → Outcome Pool × Log
  unfolding destroy_slots
  fill zero i p log = (returned p, log)
  fill (suc n) i p log =
      let (conn, log') =
        create_rc_connection verbs build device cq_size max_send_wr max_recv_wr log in
      elim conn [
        | threw ↦ (threw, destroy_slots p.slots log')
        | returned none ↦ (returned p, log')
        | returned (some c) ↦
            fill n (i + 1) (record p { slots = p.slots ++ some c ∷ []; free = i ∷ p.free }) log'
      ]

  unfoldable pub new_pool : ℕ → Log → Outcome Pool × Log
  new_pool count log =
      count_live (fill count 0 (record { slots = []; free = []; live = 0; closed = false }) log)
