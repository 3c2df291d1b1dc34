-- ===== src/Pool/System/Reach.antt =====
-- Whatever the threads of a pool do: what holds of each lease.
use hip_object.Prelude.{
  ℕ, ◌≤◌, ◌≡◌, refl, ap, subst, ◌∙◌, Option, none, some, List, ◌∷◌, ◌++◌, arith,
}
use hip_object.Prelude.Weigh.{weigh, weigh_split, hits_same, hits, count}
use hip_object.Transport.Verbs.{Outcome, returned, Log, Verbs}
use hip_object.Transport.Attrs.{RdmaDevice, Build}
use hip_object.Transport.Connection.{RcConnection}
use hip_object.Pool.{Pool, new_pool}
use hip_object.Pool.System.{Lease, Returning, System, slot, start, Reachable, here, next}
use hip_object.Pool.System.Owners.{filled, IsOwned}
use hip_object.Pool.System.Ownership.{step-IsOwned}
use hip_object.Pool.Create.{Built, new_pool-Built}

-- The slot of `l` holds a connection; and no index of the free list, no other lease (`others`) and
-- no thread in `release` is the lease's.
abbrev pub IsExclusive : System → Lease → List Lease → Type 0
IsExclusive s l others =
    ((conn : RcConnection) × (slot s.pool l.index ≡ some conn))
    × ((count l.index s.pool.free ≡ 0)
        × ((weigh (hits (λ (l : Lease). l.index) l.index) others ≡ 0)
            × (weigh (hits (λ (r : Returning). r.index) l.index) s.returning ≡ 0)))

filled→some : (x : Option RcConnection) → 1 ≤ filled x → (conn : RcConnection) × (x ≡ some conn)
filled→some none h = absurd (omega arith)
filled→some (some conn) h = (conn, refl)

IsOwned→IsExclusive :
    (s : System) (before after : List Lease) (l : Lease)
    → s.leased ≡ before ++ l ∷ after
    → IsOwned s
    → IsExclusive s l (before ++ after)
IsOwned→IsExclusive s before after l e (alone, (full, total)) =
    let index = λ (l : Lease). l.index in
    let gone =
      ap (weigh (hits index l.index)) e ∙ weigh_split (hits index l.index) before after l in
    let own = hits_same index l in
    (
      filled→some _ (omega (arith, full l.index, gone, own)),
      (
        omega (arith, alone l.index, gone, own),
        (omega (arith, alone l.index, gone, own), omega (arith, alone l.index, gone, own)),
      ),
    )

module _ (verbs : Verbs) (build : Build) (device : RdmaDevice) where
  pub Reachable-IsOwned :
      (p : Pool) (log : Log) (s : System)
      → IsOwned (start p log)
      → Reachable verbs build device p log s
      → IsOwned s
  Reachable-IsOwned p log s o here = o
  Reachable-IsOwned p log t o (next {s} r step) =
      step-IsOwned verbs build device s t step (Reachable-IsOwned p log s o r)

  -- From a new pool, whatever the threads do and whatever the verbs answer: a lease's slot holds a
  -- connection, and the lease is its only owner.
  pub Reachable-IsExclusive :
      (n : ℕ) (log0 log : Log) (p : Pool) (s : System) (before after : List Lease) (l : Lease)
      → new_pool verbs build device n log0 ≡ (returned p, log)
      → Reachable verbs build device p log s
      → s.leased ≡ before ++ l ∷ after
      → IsExclusive s l (before ++ after)
  Reachable-IsExclusive n log0 log p s before after l e r h =
      let built =
        subst (Built n) (ap (λ (a : Outcome Pool × Log). a.0) e)
          (new_pool-Built verbs build device n log0) in
      IsOwned→IsExclusive s before after l h (Reachable-IsOwned p log s (built.0 log) r)
