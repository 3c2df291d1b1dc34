-- ===== src/Token/Bytes.antt =====
-- Little-endian integers and hex digits, written and read back.
use Prim.Native.Nat.{bit_and, bit_or}
use native.Mathlib.Nat.{
  one-le-pow, pow-le-pow_right, mod-eq_of_lt, mod-lt, mod-add-div', add-mul-mod_self_right, mod-one,
  le_trans, zero-add, mul-div_cancel,
}
use native.Mathlib.Numerals.{towards_suc}
use hip_object.Prelude.{
  ℕ, zero, suc, ◌+◌, ◌*◌, ◌/◌, ◌%◌, ◌^◌, ◌≤◌, ◌<◌, ◌≡◌, refl, sym, subst, ap, ap₂, ◌∙◌, Bool, true,
  false, Option, some, none, List, [], ◌∷◌, ◌++◌, length, take, drop, All, arith, ◌==◌,
}
use hip_object.Prelude.Bits.{all_below, all_below_sound, bit_or-shift}
use hip_object.Parse.{parse_number, digit, scan, finish}
use hip_object.Gid.{IsByte}
use hip_object.Token.{le_bytes, read_le, get_uint, hex_digit, to_hex, from_hex}

mod_split : (v m : ℕ) → 0 < m → v % (m * 256) ≡ v % m + v / m % 256 * m
mod_split v m h =
    let x : ℕ = v % m + v / m % 256 * m in
    let whole : v ≡ x + v / m / 256 * (m * 256) =
      omega (arith, mod-add-div' v m, ap (λ (t : ℕ). t * m) (mod-add-div' (v / m) 256)) in
    let small : x < m * 256 = grind (arith, mod-lt v h) in
    ap (λ (t : ℕ). t % (m * 256)) whole
    ∙ add-mul-mod_self_right x (v / m / 256) (m * 256)
    ∙ mod-eq_of_lt small

pow_shift : (s : ℕ) → 2 ^ (s + 8) ≡ 256 * 2 ^ s
pow_shift s = simp towards_suc (omega arith)

eight-suc : (i : ℕ) → 8 * suc i ≡ 8 * i + 8
eight-suc i = omega arith

pow_byte : (i : ℕ) → 2 ^ (8 * suc i) ≡ 2 ^ (8 * i) * 256
pow_byte i = ap (λ (t : ℕ). 2 ^ t) (eight-suc i) ∙ omega (arith, pow_shift (8 * i))

pow_pos : (k : ℕ) → 0 < 2 ^ k
pow_pos k = one-le-pow k 2 (omega arith)

-- One more byte of `v` completes the value read so far.
or_byte :
    (width i v : ℕ)
    → 8 * suc i ≤ width
    → bit_or (v % 2 ^ (8 * i)) (v / 2 ^ (8 * i) % 2 ^ 8 * 2 ^ (8 * i)) % 2 ^ width
      ≡ v % 2 ^ (8 * suc i)
or_byte width i v h =
    let m : ℕ = 2 ^ (8 * i) in
    let joined : bit_or (v % m) (v / m % 256 * m) ≡ v % 2 ^ (8 * suc i) =
      bit_or-shift (8 * i) (v % m) (v / m % 256) (mod-lt v (pow_pos (8 * i)))
      ∙ sym (mod_split v m (pow_pos (8 * i)))
      ∙ ap (λ (t : ℕ). v % t) (sym (pow_byte i)) in
    let small : v % 2 ^ (8 * suc i) < 2 ^ width =
      le_trans (mod-lt v (pow_pos (8 * suc i))) (pow-le-pow_right (omega arith) h) in
    ap (λ (t : ℕ). t % 2 ^ width) joined ∙ mod-eq_of_lt small

read_le-le_bytes :
    (width n i v : ℕ) (rest : List ℕ)
    → 8 * (i + n) ≤ width
    → read_le width n i (le_bytes n i v ++ rest) (v % 2 ^ (8 * i)) ≡ v % 2 ^ (8 * (i + n))
unfolding read_le le_bytes
read_le-le_bytes width zero i v rest h = ap (λ (t : ℕ). v % 2 ^ (8 * t)) (omega arith)
read_le-le_bytes width (suc n) i v rest h =
    ap (read_le width n (suc i) (le_bytes n (suc i) v ++ rest)) (or_byte width i v (omega arith))
    ∙ read_le-le_bytes width n (suc i) v rest (omega arith)
    ∙ ap (λ (t : ℕ). v % 2 ^ (8 * t)) (omega arith)

pub length-le_bytes : (n i v : ℕ) → length (le_bytes n i v) ≡ n
unfolding le_bytes
length-le_bytes zero i v = refl
length-le_bytes (suc n) i v = ap suc (length-le_bytes n (suc i) v)

drop-le_bytes : (n i v : ℕ) (rest : List ℕ) → drop n (le_bytes n i v ++ rest) ≡ rest
unfolding le_bytes
drop-le_bytes zero i v rest = refl
drop-le_bytes (suc n) i v rest = drop-le_bytes n (suc i) v rest

-- An integer that fits its size is read back, and what follows it is left.
pub get_uint-le_bytes :
    (size v : ℕ) (rest : List ℕ)
    → v < 2 ^ (8 * size)
    → get_uint size (le_bytes size 0 v ++ rest) ≡ (v, rest)
unfolding get_uint
get_uint-le_bytes size v rest h =
    ap₂ (λ (a : ℕ) (b : List ℕ). (a, b)) value (drop-le_bytes size 0 v rest)
  where
    value : read_le (8 * size) size 0 (le_bytes size 0 v ++ rest) 0 ≡ v
    value =
        ap (read_le (8 * size) size 0 (le_bytes size 0 v ++ rest)) (sym (mod-one v))
        ∙ read_le-le_bytes (8 * size) size 0 v rest (omega arith)
        ∙ mod-eq_of_lt (rw zero-add h)

pub le_bytes-IsByte : (n i v : ℕ) → All IsByte (le_bytes n i v)
unfolding le_bytes
le_bytes-IsByte zero i v = tt
le_bytes-IsByte (suc n) i v = (omega arith, le_bytes-IsByte n (suc i) v)

abbrev is_byte : Option ℕ → ℕ → Bool
is_byte none b = false
is_byte (some a) b = a == b

is_byte→eq : (o : Option ℕ) (b : ℕ) → is_byte o b ≡ true → o ≡ some b
is_byte→eq none b h = cc
is_byte→eq (some a) b h = ground arith

hex_table :
    all_below 256 (λ b.
      is_byte (parse_number 0xff 16 (hex_digit (b / 2 ^ 4) ∷ hex_digit (bit_and b 0x0f) ∷ [])) b)
    ≡ true
unfolding all_below parse_number scan digit finish
hex_table = refl

parse_number-hex_digit :
    (b : ℕ)
    → IsByte b
    → parse_number 0xff 16 (hex_digit (b / 2 ^ 4) ∷ hex_digit (bit_and b 0x0f) ∷ []) ≡ some b
parse_number-hex_digit b h = is_byte→eq _ b (all_below_sound 256 _ b hex_table h)

pub length-to_hex : (buf : List ℕ) → length (to_hex buf) ≡ 2 * length buf
unfolding to_hex
length-to_hex [] = refl
length-to_hex (b ∷ buf) = omega (arith, length-to_hex buf)

-- Hex digits are read back, whatever follows them.
pub from_hex-to_hex :
    (buf rest : List ℕ) → All IsByte buf → from_hex (length buf) (to_hex buf ++ rest) ≡ some buf
unfolding to_hex from_hex
from_hex-to_hex [] rest h = refl
from_hex-to_hex (b ∷ buf) rest h = rw (parse_number-hex_digit b h.0, from_hex-to_hex buf rest h.1)

-- The two parts of a number below `m * 256` are determined by the number.
split_unique :
    (m y x b : ℕ) → 0 < m → x < m → y % (m * 256) ≡ x + b * m → (y % m ≡ x) × (y / m % 256 ≡ b)
split_unique m y x b pos small e = (
  low,
  sym (mul-div_cancel (y / m % 256) pos)
      ∙ ap (λ (t : ℕ). t / m) (omega (arith, whole, low))
      ∙ mul-div_cancel b pos,
)
  where
    whole : y % m + y / m % 256 * m ≡ x + b * m
    whole = sym (mod_split y m pos) ∙ e

    low : y % m ≡ x
    low =
        sym (mod-eq_of_lt (mod-lt y pos))
        ∙ sym (add-mul-mod_self_right (y % m) (y / m % 256) m)
        ∙ ap (λ (t : ℕ). t % m) whole
        ∙ add-mul-mod_self_right x b m
        ∙ mod-eq_of_lt small

-- What `read_le` has read is, byte by byte, what it read from.
abbrev Reads : ℕ → ℕ → List ℕ → ℕ → ℕ → Type 0
Reads n i bytes x y =
    (y % 2 ^ (8 * i) ≡ x) × (le_bytes n i y ≡ take n bytes) × (y < 2 ^ (8 * (i + n)))

read_le_sound :
    (width n i : ℕ) (bytes : List ℕ) (x : ℕ)
    → All IsByte bytes
    → n ≤ length bytes
    → x < 2 ^ (8 * i)
    → 8 * (i + n) ≤ width
    → Reads n i bytes x (read_le width n i bytes x)
unfolding read_le le_bytes
read_le_sound width zero i bytes x all enough small fits =
    (mod-eq_of_lt small, refl, subst (λ (t : ℕ). x < 2 ^ (8 * t)) (omega arith) small)
read_le_sound width (suc n) i [] x all enough small fits = absurd (omega arith)
read_le_sound width (suc n) i (b ∷ bytes) x all enough small fits =
    let m : ℕ = 2 ^ (8 * i) in
    let next : ℕ = bit_or x (b * m) % 2 ^ width in
    let below : x + b * m < 2 ^ (8 * suc i) = rw (pow_byte i) (grind (arith, all.0)) in
    let step : next ≡ x + b * m =
      ap (λ (t : ℕ). t % 2 ^ width) (bit_or-shift (8 * i) x b small)
      ∙ mod-eq_of_lt (le_trans below (pow-le-pow_right (omega arith) (omega arith))) in
    let y : ℕ = read_le width n (suc i) bytes next in
    let (high, tail, range) =
      read_le_sound width n (suc i) bytes next all.1 (omega arith) (rw step below) (omega arith) in
    let (low, byte) =
      split_unique m y x b (pow_pos (8 * i)) small
        (ap (λ (t : ℕ). y % t) (sym (pow_byte i)) ∙ high ∙ step) in
    (
      low,
      ap₂ (λ (a : ℕ) (r : List ℕ). a ∷ r) byte tail,
      subst (λ (t : ℕ). y < 2 ^ (8 * t)) (omega arith) range,
    )

-- The integer that `get_uint` reads fits its size, and is written back as the bytes it came from.
pub get_uint_sound :
    (size : ℕ) (bytes : List ℕ)
    → All IsByte bytes
    → size ≤ length bytes
    → (le_bytes size 0 (get_uint size bytes).0 ≡ take size bytes)
      × ((get_uint size bytes).0 < 2 ^ (8 * size))
unfolding get_uint
get_uint_sound size bytes all enough =
    let (_, written, fits) =
      read_le_sound (8 * size) size 0 bytes 0 all enough (omega arith) (omega arith) in
    (written, rw zero-add at fits)
