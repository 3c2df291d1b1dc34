-- ===== src/Pool/System/Ownership.antt =====
-- Who owns a connection of the pool: what ends a lease, and each step of the system.
use hip_object.Prelude.{
  ℕ, zero, suc, ◌≤◌, ◌≡◌, refl, ap, subst, ◌∙◌, inl, inr, Bool, true, false, Option, none, some,
  List, [], ◌∷◌, ◌++◌, ◌==◌, get_or, set, arith, Bool-cases, ==_iff,
}
use hip_object.Prelude.Weigh.{
  weigh, weigh-cons, weigh_split, weigh-le, hits, hits_same, hits_other, size,
}
use hip_object.Transport.Verbs.{returned, threw, Log, Verbs}
use hip_object.Transport.Attrs.{RdmaDevice, Build}
use hip_object.Transport.Connection.{RcConnection, Answer, connect_rc_peer}
use hip_object.Pool.{close, replaced, replace, after_reset, restore, restore_if}
use hip_object.Pool.System.{
  Lease, Returning, System, slot, restored, ended, returned_by, Step, lease, wait, wake,
  retry_lease, retry_wait, retry_fail, connect, restore as end_lease, put, notify_nobody,
  notify_one, notify_one_idle, notify_all, close_pool, close_notify,
}
use hip_object.Pool.System.Owners.{
  filled, gives, users, IsOwned, acquire-TookBack, granted-IsOwned, as_number, gives-le, gives_own,
  released-IsOwned,
}

-- Slots and their restoring
get_or-set_same :
    (xs : List (Option RcConnection)) (i : ℕ) (v : Option RcConnection)
    → 1 ≤ filled (get_or xs i none)
    → get_or (set xs i v) i none ≡ v
get_or-set_same [] i v h = absurd (omega arith)
get_or-set_same (x ∷ xs) zero v h = refl
get_or-set_same (x ∷ xs) (suc i) v h = get_or-set_same xs i v h

get_or-set_other :
    (xs : List (Option RcConnection)) (i j : ℕ) (v : Option RcConnection)
    → (i == j) ≡ false
    → get_or (set xs i v) j none ≡ get_or xs j none
get_or-set_other [] i j v h = refl
get_or-set_other (x ∷ xs) zero zero v h = absurd (ground arith)
get_or-set_other (x ∷ xs) zero (suc j) v h = refl
get_or-set_other (x ∷ xs) (suc i) zero v h = refl
get_or-set_other (x ∷ xs) (suc i) (suc j) v h = get_or-set_other xs i j v (ground arith)

module _ (verbs : Verbs) (build : Build) (device : RdmaDevice) where
  replaced-filled :
      (a : Answer (Option RcConnection))
      → as_number (replaced verbs build device a).usable
        ≤ filled (replaced verbs build device a).slot
  unfolding replaced
  replaced-filled (returned (some c), log) = omega arith
  replaced-filled (returned none, log) = omega arith
  replaced-filled (threw, log) = omega arith

  after_reset-filled :
      (conn : RcConnection) (a : Answer Bool)
      → as_number (after_reset verbs build device conn a).usable
        ≤ filled (after_reset verbs build device conn a).slot
  unfolding after_reset replace
  after_reset-filled conn (returned true, log) = omega arith
  after_reset-filled conn (returned false, log) = replaced-filled _
  after_reset-filled conn (threw, log) = omega arith

  restore-filled :
      (x : Option RcConnection) (log : Log)
      → as_number (restore verbs build device x log).usable
        ≤ filled (restore verbs build device x log).slot
  unfolding restore replace
  restore-filled none log = replaced-filled _
  restore-filled (some conn) log = after_reset-filled conn _

  restore_if-filled :
      (connected : Bool) (x : Option RcConnection) (log : Log)
      → 1 ≤ filled x
      → as_number (restore_if verbs build device connected x log).usable
        ≤ filled (restore_if verbs build device connected x log).slot
  unfolding restore_if
  restore_if-filled true x log h = restore-filled x log
  restore_if-filled false x log h = h

  -- The slot of a lease after its end.
  restore-slot :
      (s : System) (l : Lease)
      → 1 ≤ filled (slot s.pool l.index)
      → as_number (restored verbs build device s l).usable
        ≤ filled
            (get_or (set s.pool.slots l.index (restored verbs build device s l).slot) l.index none)
  restore-slot s l h =
      rw (get_or-set_same s.pool.slots l.index (restored verbs build device s l).slot h)
        (restore_if-filled l.connected (slot s.pool l.index) s.log h)

  -- The end of a lease, at its own index and at the others
  ended_same :
      (s : System) (before after : List Lease) (l : Lease)
      → s.leased ≡ before ++ l ∷ after
      → IsOwned s
      → users (ended verbs build device s before l after) l.index
        ≤ filled (slot (ended verbs build device s before l after).pool l.index)
  ended_same s before after l e (alone, (full, total)) =
      let r = returned_by verbs build device s l in
      let index = λ (l : Lease). l.index in
      let gone =
        ap (weigh (hits index l.index)) e ∙ weigh_split (hits index l.index) before after l in
      let used = hits_same index l in
      omega (
        arith,
        alone l.index,
        gone,
        used,
        restore-slot s l (omega (arith, full l.index, gone, used)),
        weigh-le (gives l.index) (hits (λ (r : Returning). r.index) l.index) s.returning
            (gives-le l.index),
        weigh-cons (gives l.index) r s.returning,
        gives_own r,
      )

  ended_other :
      (s : System) (before after : List Lease) (l : Lease) (j : ℕ)
      → s.leased ≡ before ++ l ∷ after
      → (l.index == j) ≡ false
      → IsOwned s
      → users (ended verbs build device s before l after) j
        ≤ filled (slot (ended verbs build device s before l after).pool j)
  ended_other s before after l j e ne (alone, (full, total)) =
      let r = returned_by verbs build device s l in
      let index = λ (l : Lease). l.index in
      rw (get_or-set_other s.pool.slots l.index j (restored verbs build device s l).slot ne) (
        omega (
          arith,
          full j,
          ap (weigh (hits index j)) e ∙ weigh_split (hits index j) before after l,
          weigh-cons (gives j) r s.returning,
          gives-le j r,
          hits_other (λ (r : Returning). r.index) j r ne,
        ))

  ended-IsOwned :
      (s : System) (before after : List Lease) (l : Lease)
      → s.leased ≡ before ++ l ∷ after
      → IsOwned s
      → IsOwned (ended verbs build device s before l after)
  ended-IsOwned s before after l e o =
      let r = returned_by verbs build device s l in
      let index = λ (l : Lease). l.index in
      let entry = λ (r : Returning). r.index in
      (
        λ j. omega (
          arith,
          o.0 j,
          ap (weigh (hits index j)) e ∙ weigh_split (hits index j) before after l,
          weigh-cons (hits entry j) r s.returning,
        ),
        (
          λ j. elim (Bool-cases (l.index == j)) [
            | inl q ↦
                subst
                  (λ (n : ℕ).
                    users (ended verbs build device s before l after) n
                    ≤ filled (slot (ended verbs build device s before l after).pool n))
                  ((==_iff l.index j).0 q) (ended_same s before after l e o)
            | inr q ↦ ended_other s before after l j e q o
          ],
          omega (
            arith,
            o.1.1,
            ap size e ∙ weigh_split (λ (l : Lease). 1) before after l,
            weigh-cons (λ (r : Returning). 1) r s.returning,
          ),
        ),
      )

  -- `connect` keeps the number of leases at each index.
  connected-IsOwned :
      (s : System) (before after : List Lease) (l : Lease) (log : Log)
      → s.leased ≡ before ++ l ∷ after
      → IsOwned s
      → IsOwned (record s { leased = before ++ record l { connected = true } ∷ after; log = log })
  connected-IsOwned s before after l log e (alone, (full, total)) =
      let index = λ (l : Lease). l.index in
      let l' = record l { connected = true } in
      let same = λ (w : Lease → ℕ). ap (weigh w) e ∙ weigh_split w before after l in
      (
        λ j.
            omega (arith, alone j, same (hits index j), weigh_split (hits index j) before after l'),
        (
          λ j.
              omega
                (arith, full j, same (hits index j), weigh_split (hits index j) before after l'),
          omega (
            arith,
            total,
            same (λ (l : Lease). 1),
            weigh_split (λ (l : Lease). 1) before after l',
          ),
        ),
      )

  -- Every step of every thread keeps the connections of the pool owned.
  pub step-IsOwned : (s t : System) → Step verbs build device s t → IsOwned s → IsOwned t
  unfolding close
  step-IsOwned s t (lease u i p awake e) o = granted-IsOwned s u i p (acquire-TookBack _ i _ p e) o
  step-IsOwned s t (wait u awake e) o = o
  step-IsOwned s t (wake before after u e) o = o
  step-IsOwned s t (retry_lease before after u i p w e) o =
      granted-IsOwned (record s { woken = before ++ after }) u i p (acquire-TookBack _ i _ p e) o
  step-IsOwned s t (retry_wait before after u w e) o = o
  step-IsOwned s t (retry_fail before after u err w e) o = o
  step-IsOwned s t (connect before after l conn peer e c) o =
      connected-IsOwned s before after l (connect_rc_peer verbs build device conn peer s.log).1 e o
  step-IsOwned s t (end_lease before after l e) o = ended-IsOwned s before after l e o
  step-IsOwned s t (put before after r e) o = released-IsOwned s before after r e o
  step-IsOwned s t (notify_nobody before after n e w) o = o
  step-IsOwned s t (notify_one before after n front back u e w q) o = o
  step-IsOwned s t (notify_one_idle before after n e w q) o = o
  step-IsOwned s t (notify_all before after n e w) o = o
  step-IsOwned s t close_pool o = o
  step-IsOwned s t (close_notify n e) o = o
