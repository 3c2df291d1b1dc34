-- ===== src/Pool/System.antt =====
-- src/rdma/connection-pool.cpp: any number of threads that use one pool, a locked section, a
-- notification or an unlocked part of an operation at a time, in any order.
pub mod Owners
pub mod Ownership
pub mod Reach
pub mod Waiting
pub mod Spec
use hip_object.Prelude.{
  ℕ, zero, suc, ◌+◌, ◌-◌, ◌≡◌, Bool, true, false, Option, none, some, List, [], ◌∷◌, ◌++◌, ◌==◌,
  if◌then◌else◌, get_or, set,
}
use hip_object.Prelude.Weigh.{count}
use hip_object.Token.{RdmaToken}
use hip_object.Transport.Verbs.{Log, Verbs}
use hip_object.Transport.Attrs.{RdmaDevice, Build}
use hip_object.Transport.Connection.{RcConnection, connect_rc_peer}
use hip_object.Pool.{
  Pool, AcquireError, waits, fails, leases, acquire, close, put_back, Notify, nobody, one_waiter,
  all_waiters, notification, Restored, restore_if,
}

-- A lease that a thread holds (`pool_` is not null).
pub record Lease : Type 0 where
  pub thread : ℕ
  pub index : ℕ
  pub connected : Bool

-- A thread in `release`, between `restore` and the locked section.
pub record Returning : Type 0 where
  pub thread : ℕ
  pub index : ℕ
  pub usable : Bool

-- A thread at the end of `~Lease`: it has still to notify, and to count its lease off.
pub record Notifying : Type 0 where
  pub thread : ℕ
  pub whom : Notify

-- `waiting` are the threads that wait for `returned_`, `woken` those that have been woken and have
-- still to look again; `closers` counts the threads in `close` that have still to notify. `held` is
-- each thread's `t_leasesHeld`.
pub record System : Type 0 where
  pub pool : Pool
  pub log : Log
  pub leased : List Lease
  pub returning : List Returning
  pub notifying : List Notifying
  pub waiting : List ℕ
  pub woken : List ℕ
  pub closers : ℕ
  pub held : ℕ → ℕ

abbrev pub slot : Pool → ℕ → Option RcConnection
slot p i = get_or p.slots i none

-- `++t_leasesHeld` and `--t_leasesHeld` of one thread
abbrev pub count_on : (ℕ → ℕ) → ℕ → ℕ → ℕ
count_on held t u = if t == u then suc (held u) else held u

abbrev pub count_off : (ℕ → ℕ) → ℕ → ℕ → ℕ
count_off held t u = if t == u then held u - 1 else held u

-- A thread that waits, or is about to look again, makes no other call.
abbrev pub IsAwake : System → ℕ → Type 0
IsAwake s t = (count t s.waiting ≡ 0) × (count t s.woken ≡ 0)

abbrev pub granted : System → ℕ → ℕ → Pool → System
granted s t i p = record s {
  pool = p;
  leased = record { thread = t; index = i; connected = false } ∷ s.leased;
  held = count_on s.held t;
}

-- The thread of `r` has put its slot back, or dropped it, and has still to notify.
abbrev pub released : System → List Returning → Returning → List Returning → System
released s before r after = record s {
  pool = put_back r.index r.usable s.pool;
  returning = before ++ after;
  notifying =
      record {
        thread = r.thread;
        whom = notification r.usable (put_back r.index r.usable s.pool).live;
      }
      ∷ s.notifying;
}

-- A system whose pool has just been built.
abbrev pub start : Pool → Log → System
start p log = record {
  pool = p;
  log = log;
  leased = [];
  returning = [];
  notifying = [];
  waiting = [];
  woken = [];
  closers = 0;
  held = λ _. 0;
}

module _ (verbs : Verbs) (build : Build) (device : RdmaDevice) where
  -- The slot of a lease that ends.
  abbrev pub restored : System → Lease → Restored
  restored s l = restore_if verbs build device l.connected (slot s.pool l.index) s.log

  abbrev pub returned_by : System → Lease → Returning
  returned_by s l = record { thread = l.thread; index = l.index; usable = (restored s l).usable }

  -- The thread of `l` has done the unlocked part of `release`.
  abbrev pub ended : System → List Lease → Lease → List Lease → System
  ended s before l after = record s {
    pool = record s.pool { slots = set s.pool.slots l.index (restored s l).slot };
    log = (restored s l).log;
    leased = before ++ after;
    returning = returned_by s l ∷ s.returning;
  }

  pub data Step (s : System) : System → Type 0 where
    -- `acquire` by a thread that finds a free connection, or has to wait
    lease :
        (t i : ℕ) (p : Pool)
        → IsAwake s t
        → acquire (s.held t) s.pool ≡ leases i p
        → Step s (granted s t i p)
    wait :
        (t : ℕ)
        → IsAwake s t
        → acquire (s.held t) s.pool ≡ waits
        → Step s (record s { waiting = t ∷ s.waiting })
    -- `wait` returns for no reason
    wake :
        (before after : List ℕ) (t : ℕ)
        → s.waiting ≡ before ++ t ∷ after
        → Step s (record s { waiting = before ++ after; woken = t ∷ s.woken })
    -- a woken thread looks again
    retry_lease :
        (before after : List ℕ) (t i : ℕ) (p : Pool)
        → s.woken ≡ before ++ t ∷ after
        → acquire (s.held t) s.pool ≡ leases i p
        → Step s (granted (record s { woken = before ++ after }) t i p)
    retry_wait :
        (before after : List ℕ) (t : ℕ)
        → s.woken ≡ before ++ t ∷ after
        → acquire (s.held t) s.pool ≡ waits
        → Step s (record s { woken = before ++ after; waiting = t ∷ s.waiting })
    retry_fail :
        (before after : List ℕ) (t : ℕ) (e : AcquireError)
        → s.woken ≡ before ++ t ∷ after
        → acquire (s.held t) s.pool ≡ fails e
        → Step s (record s { woken = before ++ after })
    -- `Lease::connect`
    connect :
        (before after : List Lease) (l : Lease) (conn : RcConnection) (peer : RdmaToken)
        → s.leased ≡ before ++ l ∷ after
        → slot s.pool l.index ≡ some conn
        → Step s (record s {
          leased = before ++ record l { connected = true } ∷ after;
          log = (connect_rc_peer verbs build device conn peer s.log).1;
        })
    -- the unlocked part of `release`
    restore :
        (before after : List Lease) (l : Lease)
        → s.leased ≡ before ++ l ∷ after
        → Step s (ended s before l after)
    -- the locked part of `release`
    put :
        (before after : List Returning) (r : Returning)
        → s.returning ≡ before ++ r ∷ after
        → Step s (released s before r after)
    -- the end of `release` and of `~Lease`
    notify_nobody :
        (before after : List Notifying) (n : Notifying)
        → s.notifying ≡ before ++ n ∷ after
        → n.whom ≡ nobody
        → Step s (record s { notifying = before ++ after; held = count_off s.held n.thread })
    notify_one :
        (before after : List Notifying) (n : Notifying) (front back : List ℕ) (t : ℕ)
        → s.notifying ≡ before ++ n ∷ after
        → n.whom ≡ one_waiter
        → s.waiting ≡ front ++ t ∷ back
        → Step s (record s {
          notifying = before ++ after;
          held = count_off s.held n.thread;
          waiting = front ++ back;
          woken = t ∷ s.woken;
        })
    notify_one_idle :
        (before after : List Notifying) (n : Notifying)
        → s.notifying ≡ before ++ n ∷ after
        → n.whom ≡ one_waiter
        → s.waiting ≡ []
        → Step s (record s { notifying = before ++ after; held = count_off s.held n.thread })
    notify_all :
        (before after : List Notifying) (n : Notifying)
        → s.notifying ≡ before ++ n ∷ after
        → n.whom ≡ all_waiters
        → Step s (record s {
          notifying = before ++ after;
          held = count_off s.held n.thread;
          waiting = [];
          woken = s.waiting ++ s.woken;
        })
    -- the two parts of `close`
    close_pool : Step s (record s { pool = close s.pool; closers = suc s.closers })
    close_notify :
        (n : ℕ)
        → s.closers ≡ suc n
        → Step s (record s { closers = n; waiting = []; woken = s.waiting ++ s.woken })

  pub data Reachable (p : Pool) (log : Log) : System → Type 0 where
    here : Reachable p log (start p log)
    next : {s t : System} → Reachable p log s → Step s t → Reachable p log t
