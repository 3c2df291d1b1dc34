-- ===== src/Topology/Gids.antt =====
-- `PickBestGid`: the candidate that it picks.
use hip_object.Prelude.{
  ℕ, ◌≤◌, ◌<◌, ◌≡◌, refl, sym, ap, subst, ◌∙◌, inl, inr, ◌&&◌, Option, none, some, List, [], ◌∷◌,
  ◌++◌, append_assoc, append-nil, ltb, ltb→lt, if◌then◌else◌, All, All-append, arith, Bool-cases,
}
use hip_object.Topology.{
  GidPriority, GidCandidate, rank, is_configured_gid, classify_gid, is_better, pick, pick_best_gid,
}

-- How much a candidate is preferred; 0 if it does not qualify.
abbrev pub score : GidCandidate → ℕ
score c = if is_configured_gid c.gid then rank (classify_gid c.gid c.roce_version) else 0

-- The first of the candidates with the highest score, which is not 0.
pub record IsBest (candidates : List GidCandidate) (index score_of : ℕ) : Type 0 where
  pub before : List GidCandidate
  pub best : GidCandidate
  pub after : List GidCandidate
  pub split : candidates ≡ before ++ best ∷ after
  pub is_index : best.index ≡ index
  pub is_score : score best ≡ score_of
  pub qualifies : 0 < score best
  pub beats_before : All (λ c. score c < score best) before
  pub beats_after : All (λ c. score c ≤ score best) after

abbrev pub Picked : List GidCandidate → Option ℕ → ℕ → Type 0
Picked candidates none s = (s ≡ 0) × All (λ c. score c ≡ 0) candidates
Picked candidates (some index) s = IsBest candidates index s

pub All-map {ℓ κ} :
    {A : Type ℓ} (P Q : A → Type κ) (xs : List A) → ((x : A) → P x → Q x) → All P xs → All Q xs
All-map P Q [] f h = tt
All-map P Q (x ∷ xs) f (p, h) = (f x p, All-map P Q xs f h)

is_better-score :
    (c : GidCandidate) (best_idx : Option ℕ) (best_prio : GidPriority)
    → (best_idx ≡ none → rank best_prio ≡ 0)
    → (is_configured_gid c.gid && is_better (classify_gid c.gid c.roce_version) best_idx best_prio)
      ≡ ltb (rank best_prio) (score c)
is_better-score c none best_prio h = elim (Bool-cases (is_configured_gid c.gid)) [
  | inl e ↦ ground (arith, e, h refl)
  | inr e ↦ ground (arith, e, h refl)
]
is_better-score c (some i) best_prio h = elim (Bool-cases (is_configured_gid c.gid)) [
  | inl e ↦ ground (arith, e)
  | inr e ↦ ground (arith, e)
]

take_over :
    (seen : List GidCandidate) (c : GidCandidate) (best_idx : Option ℕ) (s : ℕ)
    → Picked seen best_idx s
    → s < score c
    → Picked (seen ++ c ∷ []) (some c.index) (score c)
take_over seen c none s (e, all) lt = record {
  before = seen;
  best = c;
  after = [];
  split = refl;
  is_index = refl;
  is_score = refl;
  qualifies = omega (arith, lt);
  beats_before =
      All-map (λ x. score x ≡ 0) (λ x. score x < score c) seen (λ x h. omega (arith, h, lt)) all;
  beats_after = tt;
}
take_over seen c (some i) s b lt = record {
  before = seen;
  best = c;
  after = [];
  split = refl;
  is_index = refl;
  is_score = refl;
  qualifies = omega (arith, lt);
  beats_before = subst (All (λ x. score x < score c)) (sym b.split) (
      All-append (λ x. score x < score c) b.before (b.best ∷ b.after)
        (All-map (λ x. score x < score b.best) (λ x. score x < score c) b.before
          (λ x h. omega (arith, h, lt, b.is_score)) b.beats_before)
        (
          omega (arith, lt, b.is_score),
          All-map (λ x. score x ≤ score b.best) (λ x. score x < score c) b.after
              (λ x h. omega (arith, h, lt, b.is_score)) b.beats_after,
        ));
  beats_after = tt;
}

stay :
    (seen : List GidCandidate) (c : GidCandidate) (best_idx : Option ℕ) (s : ℕ)
    → Picked seen best_idx s
    → score c ≤ s
    → Picked (seen ++ c ∷ []) best_idx s
stay seen c none s (e, all) le =
    (e, All-append (λ x. score x ≡ 0) seen (c ∷ []) all (omega (arith, e, le), tt))
stay seen c (some i) s b le = record {
  before = b.before;
  best = b.best;
  after = b.after ++ c ∷ [];
  split =
      ap (λ (xs : List GidCandidate). xs ++ c ∷ []) b.split
      ∙ append_assoc b.before (b.best ∷ b.after) (c ∷ []);
  is_index = b.is_index;
  is_score = b.is_score;
  qualifies = b.qualifies;
  beats_before = b.beats_before;
  beats_after =
      All-append (λ x. score x ≤ score b.best) b.after (c ∷ []) b.beats_after
        (omega (arith, le, b.is_score), tt);
}

none_rank :
    (seen : List GidCandidate) (best_idx : Option ℕ) (s : ℕ)
    → Picked seen best_idx s
    → best_idx ≡ none
    → s ≡ 0
none_rank seen none s (e, all) h = e
none_rank seen (some i) s b h = absurd (ground arith)

score_better :
    (c : GidCandidate) (best : ℕ)
    → best < score c
    → score c ≡ rank (classify_gid c.gid c.roce_version)
score_better c best h = elim (Bool-cases (is_configured_gid c.gid)) [
  | inl e ↦ ground (arith, e)
  | inr e ↦ ground (arith, e)
]

pick-Picked :
    (seen rest : List GidCandidate) (best_idx : Option ℕ) (best_prio : GidPriority)
    → Picked seen best_idx (rank best_prio)
    → (s : ℕ) × Picked (seen ++ rest) (pick rest best_idx best_prio) s
unfolding pick
pick-Picked seen [] best_idx best_prio p = (
  rank best_prio,
  subst (λ (xs : List GidCandidate). Picked xs best_idx (rank best_prio)) (sym (append-nil seen)) p,
)
pick-Picked seen (c ∷ rest) best_idx best_prio p =
    let prio = classify_gid c.gid c.roce_version in
    let better = is_better-score c best_idx best_prio (none_rank seen best_idx _ p) in
    elim (Bool-cases (ltb (rank best_prio) (score c))) [
      | inl e ↦
          rw (better, e)
            (let lt = ltb→lt _ _ e in
              let q = take_over seen c best_idx (rank best_prio) p lt in
              let (s, r) =
                pick-Picked (seen ++ c ∷ []) rest (some c.index) prio
                  (subst (Picked (seen ++ c ∷ []) (some c.index)) (score_better c _ lt) q) in
              (
                s,
                subst (λ (xs : List GidCandidate). Picked xs (pick rest (some c.index) prio) s)
                    (append_assoc seen (c ∷ []) rest) r,
              ))
      | inr e ↦
          rw (better, e)
            (let (s, r) =
                pick-Picked (seen ++ c ∷ []) rest best_idx best_prio
                  (stay seen c best_idx (rank best_prio) p (ground (arith, e))) in
              (
                s,
                subst (λ (xs : List GidCandidate). Picked xs (pick rest best_idx best_prio) s)
                    (append_assoc seen (c ∷ []) rest) r,
              ))
    ]

-- A GID that is picked is the index of the first candidate of the highest priority among those that
-- qualify (its GID is configured and its RoCE version known), and none is picked exactly when none of
-- them qualifies.
pub pick_best_gid-Picked :
    (candidates : List GidCandidate) → (s : ℕ) × Picked candidates (pick_best_gid candidates) s
unfolding pick_best_gid
pick_best_gid-Picked candidates = pick-Picked [] candidates none GidPriority.unknown (refl, tt)
