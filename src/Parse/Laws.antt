-- ===== src/Parse/Laws.antt =====
-- What `parse_number` accepts, and with which value.
use hip_object.Prelude.{
  ℕ, ◌+◌, ◌*◌, ◌≤◌, ◌<◌, ◌≡◌, refl, ◌≢◌, ◌↔◌, inl, inr, none, some, List, [], ◌∷◌, All, arith,
  Option-cases, Bool-cases, true, is_empty,
}
use hip_object.Parse.{char_value, digit, scan, finish, parse_number}

-- The value of a digit in any base up to 36, 36 for what is no digit.
abbrev pub digit_or_36 : ℕ → ℕ
digit_or_36 c = elim (char_value c) [ none ↦ 36 | some d ↦ d ]

-- A digit of the base.
abbrev pub IsDigit : ℕ → ℕ → Type 0
IsDigit base c = digit_or_36 c < base

-- The number that digits spell behind `acc`, with no bound.
abbrev pub number : ℕ → ℕ → List ℕ → ℕ
number base acc [] = acc
number base acc (c ∷ cs) = number base (acc * base + digit_or_36 c) cs

digit-some : (base c d : ℕ) → digit base c ≡ some d → IsDigit base c × (d ≡ digit_or_36 c)
unfolding digit
digit-some base c d h = ground arith

digit-IsDigit : (base c : ℕ) → base ≤ 36 → IsDigit base c → digit base c ≡ some (digit_or_36 c)
unfolding digit
digit-IsDigit base c r h = ground arith

scan_sound :
    (base : ℕ) (cs : List ℕ) (acc v : ℕ)
    → scan base cs acc ≡ (v, [])
    → All (IsDigit base) cs × (v ≡ number base acc cs)
unfolding scan
scan_sound base [] acc v h = (tt, ground arith)
scan_sound base (c ∷ cs) acc v h = elim (Option-cases (digit base c)) [
  | inl e ↦ absurd (ground (arith, e))
  | inr (d, e) ↦
      ground (arith, digit-some base c d e, scan_sound base cs (acc * base + digit_or_36 c) v)
]

scan_complete :
    (base : ℕ) (cs : List ℕ) (acc : ℕ)
    → base ≤ 36
    → All (IsDigit base) cs
    → scan base cs acc ≡ (number base acc cs, [])
unfolding scan
scan_complete base [] acc r h = refl
scan_complete base (c ∷ cs) acc r h =
    ground
      (arith, digit-IsDigit base c r h.0, scan_complete base cs (acc * base + digit_or_36 c) r h.1)

-- What `parse_number` accepts, and what it returns.
abbrev pub Parses : ℕ → ℕ → List ℕ → ℕ → Type 0
Parses max base text v =
    (2 ≤ base)
    × (base ≤ 36)
    × (text ≢ [])
    × All (IsDigit base) text
    × (v ≡ number base 0 text)
    × (v ≤ max)

Σ_path_nil : (r : ℕ × List ℕ) → is_empty r.1 ≡ true → r ≡ (r.0, [])
Σ_path_nil (v, []) h = refl
Σ_path_nil (v, c ∷ cs) h = cc

parse_number_sound :
    (max base : ℕ) (text : List ℕ) (v : ℕ)
    → parse_number max base text ≡ some v
    → Parses max base text v
unfolding parse_number finish
parse_number_sound max base [] v h = ground arith
parse_number_sound max base (c ∷ cs) v h = elim (Option-cases (digit base c)) [
  | inl e ↦ absurd (ground (arith, e))
  | inr (d, e) ↦ elim (Bool-cases (is_empty (scan base cs d).1)) [
    | inl whole ↦ ground (
      arith,
      digit-some base c d e,
      scan_sound base cs d (scan base cs d).0 (Σ_path_nil (scan base cs d) whole),
    )
    | inr more ↦ absurd (ground arith)
  ]
]

parse_number_complete :
    (max base : ℕ) (text : List ℕ) (v : ℕ)
    → Parses max base text v
    → parse_number max base text ≡ some v
unfolding parse_number finish
parse_number_complete max base [] v (_, _, ne, _, _, _) = absurd (ne refl)
parse_number_complete max base (c ∷ cs) v (lo, hi, ne, all, e, fits) =
    ground (arith, digit-IsDigit base c hi all.0, scan_complete base cs (digit_or_36 c) hi all.1)

-- `parse_number` accepts exactly the texts of one or more digits of a base from 2 to 36 whose value
-- is at most `max`, and returns that value: nothing wraps around, clamps or stops early.
pub parse_number_iff :
    (max base : ℕ) (text : List ℕ) (v : ℕ)
    → (parse_number max base text ≡ some v) ↔ Parses max base text v
parse_number_iff max base text v =
    (parse_number_sound max base text v, parse_number_complete max base text v)
