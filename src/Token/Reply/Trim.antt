-- ===== src/Token/Reply/Trim.antt =====
-- The trailing characters of a value, and its part before the colon.
use mathlib.Core.List.{reverse-append, reverse-reverse, reverse-cons}
use native.Mathlib.Numerals.{add-one}
use hip_object.Prelude.{
  ℕ, suc, ◌+◌, ◌≡◌, refl, ap, ◌∙◌, true, false, List, [], ◌∷◌, ◌++◌, length, reverse, All,
  All-append, drop, ◌==◌,
}
use hip_object.Token.Reply.{is_trailing, skip_trailing, remove_trailing, before_colon}

abbrev pub IsTrailing : ℕ → Type 0
IsTrailing c = is_trailing c ≡ true

abbrev pub IsText : ℕ → Type 0
IsText c = is_trailing c ≡ false

All-reverse {κ} : (P : ℕ → Type κ) (xs : List ℕ) → All P xs → All P (reverse xs)
All-reverse P [] h = tt
All-reverse P (x ∷ xs) h =
    rw reverse-cons (All-append P (reverse xs) (x ∷ []) (All-reverse P xs h.1) (h.0, tt))

skip_trailing-append :
    (xs ys : List ℕ) → All IsTrailing xs → skip_trailing (xs ++ ys) ≡ skip_trailing ys
unfolding skip_trailing
skip_trailing-append [] ys h = refl
skip_trailing-append (x ∷ xs) ys h = rw (h.0, skip_trailing) (skip_trailing-append xs ys h.1)

skip_trailing_text : (xs : List ℕ) → All IsText xs → skip_trailing xs ≡ xs
unfolding skip_trailing
skip_trailing_text [] h = refl
skip_trailing_text (x ∷ xs) h = rw (h.0, skip_trailing)

-- Any run of trailing characters after a text is removed, and no more.
pub remove_trailing-append :
    (xs tail : List ℕ) → All IsText xs → All IsTrailing tail → remove_trailing (xs ++ tail) ≡ xs
unfolding remove_trailing
remove_trailing-append xs tail text trailing =
    ap reverse (
      ap skip_trailing (reverse-append xs tail)
      ∙ skip_trailing-append (reverse tail) (reverse xs) (All-reverse IsTrailing tail trailing)
      ∙ skip_trailing_text (reverse xs) (All-reverse IsText xs text))
    ∙ reverse-reverse xs

pub before_colon-append :
    (xs ys : List ℕ) → All (λ c. (c == b':') ≡ false) xs → before_colon (xs ++ b':' ∷ ys) ≡ xs
unfolding before_colon
before_colon-append [] ys h = refl
before_colon-append (x ∷ xs) ys h = rw (h.0) (ap (◌∷◌ x) (before_colon-append xs ys h.1))

pub before_colon_none : (xs : List ℕ) → All (λ c. (c == b':') ≡ false) xs → before_colon xs ≡ xs
unfolding before_colon
before_colon_none [] h = refl
before_colon_none (x ∷ xs) h = rw (h.0) (ap (◌∷◌ x) (before_colon_none xs h.1))

drop_behind : (xs ys : List ℕ) (c : ℕ) → drop (suc (length xs)) (xs ++ c ∷ ys) ≡ ys
drop_behind [] ys c = refl
drop_behind (x ∷ xs) ys c = drop_behind xs ys c

pub drop-append_suc : (xs ys : List ℕ) (c : ℕ) → drop (length xs + 1) (xs ++ c ∷ ys) ≡ ys
drop-append_suc xs ys c = rw add-one (drop_behind xs ys c)
