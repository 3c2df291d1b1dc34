-- ===== src/Token/ClientNic/Quad.antt =====
-- src/rdma/token.cpp: the address that `parseClientNicFromTokenHex` prints.
use hip_object.Prelude.{
  ℕ, ◌+◌, ◌≡◌, ◌≢◌, ◌⊎◌, ◌/◌, ◌%◌, ◌==◌, sym, refl, true, List, [], ◌∷◌, ◌++◌, replicate, All,
  arith, inl, inr, Bool-cases,
}
use hip_object.Prelude.Int.{pos}
use hip_object.Parse.Laws.{IsDigit, number, parse_number_iff}
use hip_object.Gid.{Gid, IsByte}
use hip_object.Token.Reply.{emit_digits, to_string}
use hip_object.Token.Reply.Decimal.{parse_number-to_string}
use hip_object.Token.ClientNic.{dotted_quad}

-- A decimal number without needless zeros: its digits, the first of which is 0 only if it is alone.
abbrev pub IsDecimal : ℕ → List ℕ → Type 0
IsDecimal n text =
    All (IsDigit 10) text
    × (number 10 0 text ≡ n)
    × ((text ≡ b'0' ∷ []) ⊎ ((c : ℕ) × (cs : List ℕ) × (text ≡ c ∷ cs) × (c ≢ b'0')))

-- A dotted quad of four numbers, in this order.
abbrev pub IsQuad : ℕ → ℕ → ℕ → ℕ → List ℕ → Type 0
IsQuad a b c d text =
    (w x y z : List ℕ) × IsDecimal a w
    × IsDecimal b x
    × IsDecimal c y
    × IsDecimal d z
    × (text ≡ w ++ b'.' ∷ (x ++ b'.' ∷ (y ++ b'.' ∷ z)))

-- An IPv4-mapped GID: ten zeros, two bytes 255, and the address.
abbrev pub IsMapped : Gid → ℕ → ℕ → ℕ → ℕ → Type 0
IsMapped gid a b c d = gid ≡ replicate 10 0 ++ 255 ∷ 255 ∷ a ∷ b ∷ c ∷ d ∷ []

byte_starts :
    (n : ℕ)
    → IsByte n
    → (to_string (pos n) ≡ b'0' ∷ [])
      ⊎ ((c : ℕ) × (cs : List ℕ) × (to_string (pos n) ≡ c ∷ cs) × (c ≢ b'0'))
unfolding to_string emit_digits
byte_starts n h = elim (Bool-cases (n / 10 == 0)) [
  | inl one ↦ elim (Bool-cases (n == 0)) [
    | inl null ↦ inl (ground (arith, one, null))
    | inr pos_n ↦ inr (b'0' + n % 10, [], rw one refl, λ e. absurd (ground (arith, one, pos_n, e)))
  ]
  | inr more ↦ elim (Bool-cases (n / 10 / 10 == 0)) [
    | inl two ↦ inr (
      b'0' + n / 10 % 10,
      (b'0' + n % 10) ∷ [],
      rw (more, two) refl,
      λ e. absurd (ground (arith, more, two, e)),
    )
    | inr three ↦
        let small : (n / 10 / 10 / 10 == 0) ≡ true = ground (arith, h) in
        inr (
          b'0' + n / 10 / 10 % 10,
          (b'0' + n / 10 % 10) ∷ (b'0' + n % 10) ∷ [],
          rw (more, three, small) refl,
          λ e. absurd (ground (arith, three, small, e)),
        )
  ]
]

-- The print of a byte is decimal.
byte-IsDecimal : (n : ℕ) → IsByte n → IsDecimal n (to_string (pos n))
byte-IsDecimal n h =
    let (_, _, _, all, value, _) =
      (parse_number_iff 255 10 (to_string (pos n)) n).0
        (parse_number-to_string 255 n (omega (arith, h)) (omega (arith, h))) in
    (all, sym value, byte_starts n h)

pub dotted_quad-IsQuad :
    (a b c d : ℕ)
    → IsByte a
    → IsByte b
    → IsByte c
    → IsByte d
    → IsQuad a b c d (dotted_quad (a ∷ b ∷ c ∷ d ∷ []))
unfolding dotted_quad
dotted_quad-IsQuad a b c d ha hb hc hd = (
  to_string (pos a),
  to_string (pos b),
  to_string (pos c),
  to_string (pos d),
  byte-IsDecimal a ha,
  byte-IsDecimal b hb,
  byte-IsDecimal c hc,
  byte-IsDecimal d hd,
  refl,
)
