-- ===== src/Token/Reply/Decimal.antt =====
-- `std::to_string` prints digits that `parse_number` reads back.
use hip_object.Prelude.{
  ℕ, zero, suc, ◌+◌, ◌/◌, ◌%◌, ◌^◌, ◌≤◌, ◌<◌, ◌≡◌, ◌≢◌, sym, ap, ◌∙◌, inl, inr, some, List, [], ◌∷◌,
  All, arith, Bool-cases, ◌==◌,
}
use native.Mathlib.Nat.{pow-suc}
use hip_object.Prelude.Int.{pos}
use hip_object.Parse.{char_value, parse_number}
use hip_object.Parse.Laws.{IsDigit, number, digit_or_36, parse_number_iff}
use hip_object.Token.Reply.{emit_digits, to_string}

digit_char : (d : ℕ) → d < 10 → digit_or_36 (b'0' + d) ≡ d
unfolding char_value
digit_char d h = ground arith

-- With fuel for all its digits, `n` is printed in full.
emit_digits-number :
    (fuel n : ℕ) (out : List ℕ)
    → n < 10 ^ fuel
    → number 10 0 (emit_digits fuel n out) ≡ number 10 n out
unfolding emit_digits
emit_digits-number zero n out h = ap (λ (t : ℕ). number 10 t out) (omega arith)
emit_digits-number (suc fuel) n out h = elim (Bool-cases (n / 10 == 0)) [
  | inl e ↦ rw e (ap (λ (t : ℕ). number 10 t out) (ground (arith, digit_char (n % 10))))
  | inr e ↦ rw e (
      emit_digits-number fuel (n / 10) ((b'0' + n % 10) ∷ out) (omega (arith, pow-suc 10 fuel))
      ∙ ap (λ (t : ℕ). number 10 t out) (ground (arith, digit_char (n % 10))))
]

emit_digits-IsDigit :
    (fuel n : ℕ) (out : List ℕ) → All (IsDigit 10) out → All (IsDigit 10) (emit_digits fuel n out)
unfolding emit_digits
emit_digits-IsDigit zero n out h = h
emit_digits-IsDigit (suc fuel) n out h =
    let last : IsDigit 10 (b'0' + n % 10) = ground (arith, digit_char (n % 10)) in
    elim (Bool-cases (n / 10 == 0)) [
      | inl e ↦ rw e (last, h)
      | inr e ↦ rw e (emit_digits-IsDigit fuel (n / 10) ((b'0' + n % 10) ∷ out) (last, h))
    ]

emit_digits-ne-nil : (fuel n c : ℕ) (out : List ℕ) → emit_digits fuel n (c ∷ out) ≢ []
unfolding emit_digits
emit_digits-ne-nil zero n c out = λ e. cc
emit_digits-ne-nil (suc fuel) n c out = elim (Bool-cases (n / 10 == 0)) [
  | inl e ↦ rw e (λ q. cc)
  | inr e ↦ rw e (emit_digits-ne-nil fuel (n / 10) (b'0' + n % 10) (c ∷ out))
]

to_string-ne-nil : (n : ℕ) → to_string (pos n) ≢ []
unfolding to_string
to_string-ne-nil n = elim (Bool-cases (n / 10 == 0)) [
  | inl e ↦ rw e (λ q. cc)
  | inr e ↦ rw e (emit_digits-ne-nil 9 (n / 10) (b'0' + n % 10) [])
]

pub to_string-IsDigit : (n : ℕ) → All (IsDigit 10) (to_string (pos n))
unfolding to_string
to_string-IsDigit n = emit_digits-IsDigit 10 n [] tt

-- A number of up to ten digits is read back from its decimal print.
pub parse_number-to_string :
    (max n : ℕ) → n < 10 ^ 10 → n ≤ max → parse_number max 10 (to_string (pos n)) ≡ some n
parse_number-to_string max n h fits = (parse_number_iff max 10 (to_string (pos n)) n).1 (
  omega arith,
  omega arith,
  to_string-ne-nil n,
  to_string-IsDigit n,
  unfold to_string in sym (emit_digits-number 10 n [] h),
  fits,
)
