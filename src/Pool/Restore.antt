-- ===== src/Pool/Restore.antt =====
-- `restore`: what happens to a slot whose lease ends.
use hip_object.Prelude.{
  ◌≡◌, refl, subst, ◌∙◌, Bool, true, false, Option, none, some, List, [], ◌∷◌, ◌++◌, arith,
}
use hip_object.Transport.Verbs.{
  returned, threw, QpState, Log, Verbs, Object, cq, qp, alive, known_state,
}
use hip_object.Transport.Attrs.{RdmaDevice, Build}
use hip_object.Transport.Connection.{RcConnection, Answer, destroy_connection}
use hip_object.Transport.Lifetime.{
  Creates, create_rc_connection-Creates, Transits, reset_rc_connection-Transits,
}
use hip_object.Pool.{
  Restored, cq_size, max_send_wr, max_recv_wr, replaced, replace, after_reset, restore,
}

-- The objects that a slot keeps alive.
abbrev pub objects : Option RcConnection → List Object
objects none = []
objects (some conn) = qp conn.qp ∷ cq conn.cq.id ∷ []

-- A usable slot holds a connection with its QP in INIT; one that is not usable is empty.
abbrev pub Fits : Bool → Option RcConnection → Log → Type 0
Fits true (some conn) log = known_state conn.qp log ≡ some QpState.init
Fits true none log = ⊥
Fits false (some conn) log = ⊥
Fits false none log = Unit {0}

-- A restored slot is usable exactly when it is not empty, its QP is in INIT, and the objects alive are
-- the slot's and those that were alive beside it.
abbrev pub IsRestored : List Object → Restored → Type 0
IsRestored others r = (alive r.log ≡ objects r.slot ++ others) × Fits r.usable r.slot r.log

module _ (verbs : Verbs) (build : Build) (device : RdmaDevice) where
  replaced-IsRestored :
      (log0 : Log) (a : Answer (Option RcConnection))
      → Creates log0 a
      → IsRestored (alive log0) (replaced verbs build device a)
  unfolding replaced
  replaced-IsRestored log0 (returned (some c), log) (a, k) = (a, k)
  replaced-IsRestored log0 (returned none, log) a = (a, tt)
  replaced-IsRestored log0 (threw, log) a = (a, tt)

  replace-IsRestored : (log : Log) → IsRestored (alive log) (replace verbs build device log)
  unfolding replace
  replace-IsRestored log =
      replaced-IsRestored log _
        (create_rc_connection-Creates verbs build device cq_size max_send_wr max_recv_wr log)

  cleared :
      (conn : RcConnection) (log : Log) (others : List Object)
      → alive log ≡ objects (some conn) ++ others
      → alive (destroy_connection conn log) ≡ others
  cleared conn log others h = rw h (ground arith)

  after_reset-IsRestored :
      (conn : RcConnection) (log : Log) (a : Answer Bool) (others : List Object)
      → alive log ≡ objects (some conn) ++ others
      → Transits conn.qp QpState.init log a
      → IsRestored others (after_reset verbs build device conn a)
  unfolding after_reset
  after_reset-IsRestored conn log (returned true, l) others h (kept, known) = (kept ∙ h, known refl)
  after_reset-IsRestored conn log (returned false, l) others h (kept, known) =
      subst
        (λ (o : List Object). IsRestored o (replace verbs build device (destroy_connection conn l)))
        (cleared conn l others (kept ∙ h)) (replace-IsRestored (destroy_connection conn l))
  after_reset-IsRestored conn log (threw, l) others h (kept, known) =
      (cleared conn l others (kept ∙ h), tt)

  -- Whatever the verbs answer: `restore` ends with a usable connection in INIT or an empty slot, and
  -- of the objects that lived before, only those of the slot's old connection can be gone, and only
  -- those of the new one added.
  pub restore-IsRestored :
      (slot : Option RcConnection) (log : Log) (others : List Object)
      → alive log ≡ objects slot ++ others
      → IsRestored others (restore verbs build device slot log)
  unfolding restore
  restore-IsRestored none log others h =
      subst (λ (o : List Object). IsRestored o (replace verbs build device log)) h
        (replace-IsRestored log)
  restore-IsRestored (some conn) log others h =
      after_reset-IsRestored conn log _ others h
        (reset_rc_connection-Transits verbs build device conn log)
