-- ===== src/Examples/Pool.antt =====
-- The pool of src/rdma/connection-pool.cpp at concrete inputs.
use hip_object.Prelude.{ℕ, ◌+◌, ◌≤◌, ◌≡◌, refl, false, some, [], ◌∷◌}
use hip_object.Prelude.Weigh.{weigh-nil, hits, size}
use hip_object.Transport.Verbs.{returned, Log}
use hip_object.Transport.Connection.{
  RcConnection, create_rc_connection, with_cq, with_qp, created, transition_qp_to_init, modify,
}
use hip_object.Pool.{Pool, new_pool, fill, acquire, take_free, leases, waits}
use hip_object.Pool.Create.{Built, new_pool-Built}
use hip_object.Pool.System.{System, Step, start, granted, Reachable, here, next, lease, wait}
use hip_object.Pool.System.Reach.{IsExclusive, Reachable-IsExclusive}
use hip_object.Pool.System.Waiting.{IsBusy, Reachable-IsBusy}
use hip_object.Pool.System.Spec.{Serves, Served, permits, Reachable-Serves}
use hip_object.Examples.Transport.{verbs, build, device}

new_pool-Built_example : Built 2 (new_pool verbs build device 2 []).0
new_pool-Built_example = new_pool-Built verbs build device 2 []

-- A pool of two connections, and the pool after one has been leased.
abbrev connection : ℕ → ℕ → RcConnection
connection cq qp = record { cq = record { id = cq; cqe = 16 }; qp = qp }

abbrev two : Pool
two = record {
  slots = some (connection 0 1) ∷ some (connection 3 4) ∷ [];
  free = 1 ∷ 0 ∷ [];
  live = 2;
  closed = false;
}

abbrev log : Log
log = (new_pool verbs build device 2 []).1

builds_two : new_pool verbs build device 2 [] ≡ (returned two, log)
unfolding new_pool fill create_rc_connection with_cq with_qp created transition_qp_to_init modify
builds_two = refl

abbrev leased_one : Pool
leased_one = record two { free = 0 ∷ [] }

takes_one : acquire 0 two ≡ leases 1 leased_one
unfolding acquire take_free
takes_one = refl

one_lease : Reachable verbs build device two log (granted (start two log) 7 1 leased_one)
one_lease = next here (
    lease 7 1 leased_one (weigh-nil (hits (λ (n : ℕ). n) 7), weigh-nil (hits (λ (n : ℕ). n) 7))
      takes_one)

Reachable-IsExclusive_example :
    IsExclusive
      (granted (start two log) 7 1 leased_one)
      (record { thread = 7; index = 1; connected = false })
      []
Reachable-IsExclusive_example =
    Reachable-IsExclusive verbs build device 2 [] log two (granted (start two log) 7 1 leased_one)
      [] [] (record { thread = 7; index = 1; connected = false }) builds_two one_lease refl

-- Threads 7 and 8 have leased both connections, and thread 9 waits for one.
abbrev leased_two : Pool
leased_two = record two { free = [] }

takes_two : acquire 0 leased_one ≡ leases 0 leased_two
unfolding acquire take_free
takes_two = refl

has_to_wait : acquire 0 leased_two ≡ waits
unfolding acquire
has_to_wait = refl

abbrev all_leased : System
all_leased = granted (granted (start two log) 7 1 leased_one) 8 0 leased_two

abbrev one_waits : System
one_waits = record all_leased { waiting = 9 ∷ [] }

waits_for_one : Reachable verbs build device two log one_waits
waits_for_one =
    next
      (next one_lease (
        lease 8 0 leased_two (weigh-nil (hits (λ (n : ℕ). n) 8), weigh-nil (hits (λ (n : ℕ). n) 8))
          takes_two))
      (wait 9 (weigh-nil (hits (λ (n : ℕ). n) 9), weigh-nil (hits (λ (n : ℕ). n) 9)) has_to_wait)

Reachable-IsBusy_example : IsBusy one_waits
Reachable-IsBusy_example =
    Reachable-IsBusy verbs build device 2 [] log two one_waits 9 [] builds_two waits_for_one refl
      (refl, refl, refl)

Reachable-Serves_example :
    Served (permits (start two log)) (permits one_waits)
    × ((t : System) → Step verbs build device one_waits t → Serves (permits one_waits) (permits t))
    × (size one_waits.pool.free + (size one_waits.leased + size one_waits.returning)
        ≤ size two.free)
Reachable-Serves_example = Reachable-Serves verbs build device two log one_waits waits_for_one
