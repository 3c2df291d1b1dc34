-- ===== src/Prelude/Weigh.antt =====
-- Sums of weights over a list: counts of all kinds.
use Prim.Native.Nat.{ℕ, ◌+◌, ◌≤◌}
use mathlib.Core.Path.{◌≡◌, refl}
use mathlib.Core.List.{List, [], ◌∷◌, ◌++◌}
use mathlib.Core.Bool.{false}
use mathlib.Core.Logic.{inl, inr}
use native.Mathlib.Omega.{arith}
use hip_object.Prelude.Tests.{◌==◌, ==_iff, if◌then◌else◌, Bool-cases}

module _ {ℓ} {A : Type ℓ} where
  pub weigh : (A → ℕ) → List A → ℕ
  weigh w [] = 0
  weigh w (x ∷ xs) = w x + weigh w xs

  pub weigh-nil : (w : A → ℕ) → weigh w [] ≡ 0
  unfolding weigh
  weigh-nil w = refl

  pub weigh-cons : (w : A → ℕ) (x : A) (xs : List A) → weigh w (x ∷ xs) ≡ w x + weigh w xs
  unfolding weigh
  weigh-cons w x xs = refl

  pub weigh-append : (w : A → ℕ) (xs ys : List A) → weigh w (xs ++ ys) ≡ weigh w xs + weigh w ys
  unfolding weigh
  weigh-append w [] ys = omega arith
  weigh-append w (x ∷ xs) ys = omega (arith, weigh-append w xs ys)

  -- Taking one element out of the middle.
  pub weigh_split :
      (w : A → ℕ) (xs ys : List A) (x : A) → weigh w (xs ++ x ∷ ys) ≡ weigh w (xs ++ ys) + w x
  weigh_split w xs ys x =
      omega (arith, weigh-append w xs (x ∷ ys), weigh-append w xs ys, weigh-cons w x ys)

  pub weigh-le : (w v : A → ℕ) (xs : List A) → ((x : A) → w x ≤ v x) → weigh w xs ≤ weigh v xs
  unfolding weigh
  weigh-le w v [] h = omega arith
  weigh-le w v (x ∷ xs) h = omega (arith, h x, weigh-le w v xs h)

-- How often `n` stands under `f`.
abbrev pub hits {ℓ} : {A : Type ℓ} → (A → ℕ) → ℕ → A → ℕ
hits f n x = if f x == n then 1 else 0

abbrev pub count : ℕ → List ℕ → ℕ
count n = weigh (hits (λ x. x) n)

abbrev pub size {ℓ} : {A : Type ℓ} → List A → ℕ
size = weigh (λ _. 1)

pub hits_same {ℓ} : {A : Type ℓ} (f : A → ℕ) (x : A) → hits f (f x) x ≡ 1
hits_same f x = rw ((==_iff (f x) (f x)).1 refl) refl

pub hits_other {ℓ} : {A : Type ℓ} (f : A → ℕ) (n : ℕ) (x : A) → (f x == n) ≡ false → hits f n x ≡ 0
hits_other f n x h = rw h refl

pub hits_le {ℓ} : {A : Type ℓ} (f : A → ℕ) (n : ℕ) (x : A) → hits f n x ≤ 1
hits_le f n x = elim (Bool-cases (f x == n)) [
  | inl e ↦ rw e (omega arith)
  | inr e ↦ rw e (omega arith)
]
