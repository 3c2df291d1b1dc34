-- ===== src/Topology/Table.antt =====
-- `SelectBestGid`: the entry of a port's GID table that it selects.
use hip_object.Prelude.{
  ℕ, zero, suc, ◌+◌, ◌≤◌, ◌<◌, ◌≡◌, refl, sym, ap, subst, ◌∙◌, inl, inr, true, ◌==◌, ==_iff, Option,
  some, List, [], ◌∷◌, ◌++◌, All, All-append, arith, Bool-cases, Option-cases,
}
use hip_object.Gid.{Gid}
use hip_object.Topology.{RoceVersion, GidCandidate, is_configured_gid, gather, select_best_gid}
use hip_object.Topology.Gids.{score, IsBest, Picked, All-map, pick_best_gid-Picked}

All_middle {ℓ κ} :
    {A : Type ℓ} (P : A → Type κ) (xs : List A) (x : A) (ys : List A) → All P (xs ++ x ∷ ys) → P x
All_middle P [] x ys h = h.0
All_middle P (y ∷ xs) x ys h = All_middle P xs x ys h.1

module _ (query_gid : ℕ → Option Gid) (roce_version : ℕ → RoceVersion) where
  -- Entry `i` of the table, with the GID `gid`.
  abbrev pub entry : ℕ → Gid → GidCandidate
  entry i gid = record { index = i; gid = gid; roce_version = roce_version i }

  -- A candidate is an entry of the table below `bound`.
  abbrev IsEntry : ℕ → GidCandidate → Type 0
  IsEntry bound c =
      (c.index < bound) × ((query_gid c.index ≡ some c.gid) × (c ≡ entry c.index c.gid))

  gather-IsEntry : (n i : ℕ) → All (IsEntry (i + n)) (gather query_gid roce_version n i)
  unfolding gather
  gather-IsEntry zero i = tt
  gather-IsEntry (suc n) i =
      let rest : All (IsEntry (i + suc n)) (gather query_gid roce_version n (i + 1)) =
        subst (λ (b : ℕ). All (IsEntry b) (gather query_gid roce_version n (i + 1))) (omega arith)
          (gather-IsEntry n (i + 1)) in
      elim (Option-cases (query_gid i)) [
        | inl e ↦ rw (e, All) rest
        | inr (gid, e) ↦ elim (Bool-cases (is_configured_gid gid)) [
          | inl f ↦ rw (e, f, All) ((omega arith, (e, refl)), rest)
          | inr f ↦ rw (e, f, All) rest
        ]
      ]

  gather_tail :
      (P : GidCandidate → Type 0) (n i : ℕ)
      → All P (gather query_gid roce_version (suc n) i)
      → All P (gather query_gid roce_version n (i + 1))
  unfolding gather
  gather_tail P n i all = elim (Option-cases (query_gid i)) [
    | inl e ↦ rw (e, All) at all
    | inr (gid, e) ↦ elim (Bool-cases (is_configured_gid gid)) [
      | inl f ↦ (rw (e, f, All) at all).1
      | inr f ↦ rw (e, f, All) at all
    ]
  ]

  gather_head :
      (P : GidCandidate → Type 0) (n i : ℕ) (gid : Gid)
      → All P (gather query_gid roce_version (suc n) i)
      → query_gid i ≡ some gid
      → is_configured_gid gid ≡ true
      → P (entry i gid)
  unfolding gather
  gather_head P n i gid all e f = (rw (e, f, All) at all).0

  gather_complete :
      (P : GidCandidate → Type 0) (n i j : ℕ) (gid : Gid)
      → All P (gather query_gid roce_version n i)
      → i ≤ j
      → j < i + n
      → query_gid j ≡ some gid
      → is_configured_gid gid ≡ true
      → P (entry j gid)
  gather_complete P zero i j gid all lo hi e f = absurd (omega arith)
  gather_complete P (suc n) i j gid all lo hi e f = elim (Bool-cases (i == j)) [
    | inl q ↦
        let same = (==_iff i j).0 q in
        subst (λ (k : ℕ). P (entry k gid)) same
          (gather_head P n i gid all (ap query_gid same ∙ e) f)
    | inr q ↦
        gather_complete P n (i + 1) j gid (gather_tail P n i all) (ground (arith, q)) (omega arith)
          e f
  ]

  -- The selected entry is in the table and qualifies, and no entry of the table is preferred to it.
  pub record IsSelected (gid_tbl_len index : ℕ) : Type 0 where
    pub gid : Gid
    pub in_table : index < gid_tbl_len
    pub is_entry : query_gid index ≡ some gid
    pub qualifies : 0 < score (entry index gid)
    pub is_best :
        (j : ℕ) (other : Gid)
        → j < gid_tbl_len
        → query_gid j ≡ some other
        → score (entry j other) ≤ score (entry index gid)

  best-IsSelected :
      (n index s : ℕ) → IsBest (gather query_gid roce_version n 0) index s → IsSelected n index
  best-IsSelected n index s b =
      let all = subst (All (IsEntry (0 + n))) b.split (gather-IsEntry n 0) in
      let (lt, (e, same)) = All_middle (IsEntry (0 + n)) b.before b.best b.after all in
      let whole = subst (All (λ c. score c ≤ score b.best)) (sym b.split) (
        All-append (λ c. score c ≤ score b.best) b.before (b.best ∷ b.after)
          (All-map (λ c. score c < score b.best) (λ c. score c ≤ score b.best) b.before
            (λ x h. omega (arith, h)) b.beats_before)
          (omega arith, b.beats_after)) in
      let t : score b.best ≡ score (entry index b.best.gid) =
        ap score same ∙ ap (λ (k : ℕ). score (entry k b.best.gid)) b.is_index in
      record {
        gid = b.best.gid;
        in_table = omega (arith, lt, b.is_index);
        is_entry = ap query_gid (sym b.is_index) ∙ e;
        qualifies = omega (arith, t, b.qualifies);
        is_best = λ j other lo q. elim (Bool-cases (is_configured_gid other)) [
          | inl f ↦
              subst (λ (m : ℕ). score (entry j other) ≤ m) t
                (gather_complete (λ c. score c ≤ score b.best) n 0 j other whole (omega arith)
                  (omega (arith, lo)) q f)
          | inr f ↦ rw f (omega arith)
        ];
      }

  -- If an entry of a port's GID table is selected, it is in the table, its GID is configured and its
  -- RoCE version known, and no entry of the table has a higher priority.
  pub select_best_gid-IsSelected :
      (gid_tbl_len index : ℕ)
      → select_best_gid (some gid_tbl_len) query_gid roce_version ≡ some index
      → IsSelected gid_tbl_len index
  unfolding select_best_gid
  select_best_gid-IsSelected gid_tbl_len index h =
      let (s, picked) = pick_best_gid-Picked (gather query_gid roce_version gid_tbl_len 0) in
      best-IsSelected gid_tbl_len index s (
        subst (λ (o : Option ℕ). Picked (gather query_gid roce_version gid_tbl_len 0) o s) h picked)
