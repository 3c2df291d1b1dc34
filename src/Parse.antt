-- ===== src/Parse.antt =====
-- shared/hipobj-parse.h: `parseNumber` for an unsigned type whose largest value is `max`, and for a signed one, over
-- `std::from_chars` as the C++ standard describes it.
pub mod Laws
use hip_object.Prelude.{
  ℕ, zero, suc, ◌+◌, ◌-◌, ◌*◌, Bool, ◌&&◌, ◌||◌, Option, none, some, List, [], ◌∷◌, ◌==◌, ltb, leb,
  is_empty, if◌then◌else◌, ◌>>=◌,
}
use hip_object.Prelude.Int.{ℤ, pos, negsuc}

abbrev negated : ℕ → ℤ
negated zero = pos 0
negated (suc n) = negsuc n

-- The value of a digit or a letter of either case.
unfoldable pub char_value : ℕ → Option ℕ
char_value c =
    if leb b'0' c && leb c b'9'
    then some (c - b'0')
    else if leb b'a' c && leb c b'z'
    then some (c - b'a' + 10)
    else if leb b'A' c && leb c b'Z'
    then some (c - b'A' + 10)
    else none

-- The value of a digit of the base.
unfoldable pub digit : ℕ → ℕ → Option ℕ
unfolding char_value
digit base c = char_value c >>= λ d. if ltb d base then some d else none

-- The longest run of digits at the front: its value, and what follows it.
unfoldable pub scan : ℕ → List ℕ → ℕ → ℕ × List ℕ
scan base [] acc = (acc, [])
scan base (c ∷ cs) acc = elim (digit base c) [
  | none ↦ (acc, c ∷ cs)
  | some d ↦ scan base cs (acc * base + d)
]

pub data Errc : Type 0 where
  ok invalid_argument result_out_of_range : Errc

-- `ptr` is what `from_chars` did not read. `value` is written on success only.
pub record FromChars : Type 0 where
  pub value : ℕ
  pub ptr : List ℕ
  pub ec : Errc

-- The outcome for a run of digits with the value `v`.
unfoldable pub finish : ℕ → ℕ × List ℕ → FromChars
finish max (v, rest) =
    if ltb max v
    then record { value = 0; ptr = rest; ec = result_out_of_range }
    else record { value = v; ptr = rest; ec = ok }

pub from_chars : ℕ → ℕ → List ℕ → FromChars
unfolding finish
from_chars max base [] = record { value = 0; ptr = []; ec = invalid_argument }
from_chars max base (c ∷ cs) = elim (digit base c) [
  | none ↦ record { value = 0; ptr = c ∷ cs; ec = invalid_argument }
  | some d ↦ finish max (scan base cs d)
]

pub is_ok : Errc → Bool
is_ok ok = Bool.true
is_ok invalid_argument = Bool.false
is_ok result_out_of_range = Bool.false

-- `parseNumber<T>(text, base)` for the unsigned `T` whose largest value is `max`.
unfoldable pub parse_number : ℕ → ℕ → List ℕ → Option ℕ
unfolding from_chars is_ok
parse_number max base text =
    if is_empty text || ltb base 2 || ltb 36 base
    then none
    else let r = from_chars max base text in
      if is_ok r.ec && is_empty r.ptr then some r.value else none

-- `parseNumber<T>(text)` for the signed `T` from `-(max + 1)` to `max`, in base 10: `from_chars` takes
-- one minus sign at the front.
unfoldable pub parse_signed : ℕ → List ℕ → Option ℤ
unfolding parse_number
parse_signed max [] = none
parse_signed max (c ∷ cs) =
    if c == b'-'
    then parse_number (max + 1) 10 cs >>= (λ n. some (negated n))
    else parse_number max 10 (c ∷ cs) >>= (λ n. some (pos n))
