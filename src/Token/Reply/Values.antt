-- ===== src/Token/Reply/Values.antt =====
-- The values of replies that the server prints, and what the parser makes of them.
use Prim.Native.Nat.{bit_and}
use hip_object.Prelude.{
  ℕ, ◌/◌, ◌^◌, ◌≤◌, ◌≡◌, refl, ◌∙◌, true, false, not, ◌&&◌, some, List, [], ◌∷◌, ◌++◌, length, All,
  All-append, arith, ◌==◌, bytes_eq, codes, length-append,
}
use hip_object.Prelude.Int.{ℤ, pos}
use hip_object.Prelude.Bits.{all_below, all_below_sound}
use hip_object.Parse.{char_value, parse_number}
use hip_object.Parse.Laws.{IsDigit}
use hip_object.Gid.{IsByte}
use hip_object.Token.{RdmaToken, IsRdmaToken, hex_digit, to_hex, encode_rdma_token}
use hip_object.Token.RoundTrip.{binary, binary-IsByte, encode_rdma_token-binary, decode-encode}
use hip_object.Token.Reply.{
  is_trailing, before_colon, reply_with_code, parse_value, to_string, encode_reply_with_peer_token,
}
use hip_object.Token.Reply.Decimal.{to_string-IsDigit, parse_number-to_string}
use hip_object.Token.Reply.Trim.{IsText, before_colon-append, drop-append_suc}

text_table :
    all_below 256 (λ b.
      not (is_trailing (hex_digit (b / 2 ^ 4))) && not (is_trailing (hex_digit (bit_and b 0x0f))))
    ≡ true
unfolding all_below
text_table = refl

to_hex-IsText : (buf : List ℕ) → All IsByte buf → All IsText (to_hex buf)
unfolding to_hex
to_hex-IsText [] h = tt
to_hex-IsText (b ∷ buf) h =
    let row = all_below_sound 256 _ b text_table h.0 in
    (ground (arith, row), (ground (arith, row), to_hex-IsText buf h.1))

digit-IsText : (c : ℕ) → IsDigit 10 c → IsText c × ((c == b':') ≡ false)
unfolding char_value
digit-IsText c h = ground arith

pub digits-IsText :
    (cs : List ℕ) → All (IsDigit 10) cs → All IsText cs × All (λ c. (c == b':') ≡ false) cs
digits-IsText [] h = (tt, tt)
digits-IsText (c ∷ cs) h =
    let (text, plain) = digit-IsText c h.0 in
    let (texts, plains) = digits-IsText cs h.1 in ((text, texts), (plain, plains))

encode_rdma_token-IsText : (t : RdmaToken) → IsRdmaToken t → All IsText (encode_rdma_token t)
encode_rdma_token-IsText t h =
    rw (encode_rdma_token-binary t h) (to_hex-IsText (binary t) (binary-IsByte t h))

pub encode_reply_split :
    (code : ℤ) (t : RdmaToken)
    → encode_reply_with_peer_token code t ≡ to_string code ++ b':' ∷ encode_rdma_token t
unfolding encode_reply_with_peer_token encode_rdma_token
encode_reply_split code t = refl

-- A value that begins with a digit is neither "ok" nor "err".
pub digit_word :
    (c : ℕ) (cs : List ℕ)
    → IsDigit 10 c
    → (bytes_eq (c ∷ cs) (codes "ok") ≡ false) × (bytes_eq (c ∷ cs) (codes "err") ≡ false)
unfolding char_value
digit_word c cs h = ground arith

-- A value whose part before the colon is a status in range.
pub parse_value_status :
    (s rest : List ℕ) (n : ℕ)
    → All (IsDigit 10) s
    → before_colon (s ++ rest) ≡ s
    → length s ≡ 3
    → parse_number 0xffff_ffff 10 s ≡ some n
    → 100 ≤ n
    → n ≤ 599
    → parse_value (s ++ rest) ≡ reply_with_code (s ++ rest) s n
unfolding parse_value
parse_value_status [] rest n all colon len e lo hi = absurd (omega arith)
parse_value_status (c ∷ cs) rest n all colon len e lo hi =
    ground (arith, digit_word c (cs ++ rest) all.0, colon, e)

pub length-to_string_status : (n : ℕ) → 100 ≤ n → n ≤ 599 → length (to_string (pos n)) ≡ 3
unfolding to_string
length-to_string_status n lo hi = ground arith

pub value-IsText :
    (n : ℕ) (t : RdmaToken)
    → IsRdmaToken t
    → All IsText (to_string (pos n) ++ b':' ∷ encode_rdma_token t)
value-IsText n t h =
    All-append IsText (to_string (pos n)) (b':' ∷ encode_rdma_token t)
      (digits-IsText (to_string (pos n)) (to_string-IsDigit n)).0
      (refl, encode_rdma_token-IsText t h)

-- The value "200:" and a token, after its trailing characters are gone.
pub value_200 :
    (t : RdmaToken)
    → IsRdmaToken t
    → parse_value (to_string (pos 200) ++ b':' ∷ encode_rdma_token t)
      ≡ some (record { http_code = pos 200; peer_token = some t })
value_200 t h =
    let s = to_string (pos 200) in
    let rest = b':' ∷ encode_rdma_token t in
    let digits = to_string-IsDigit 200 in
    parse_value_status s rest 200 digits
      (before_colon-append s (encode_rdma_token t) (digits-IsText s digits).1)
      (length-to_string_status 200 (omega arith) (omega arith))
      (parse_number-to_string 0xffff_ffff 200 (omega arith) (omega arith)) (omega arith)
      (omega arith)
    ∙ unfold reply_with_code in
      rw (length-append s rest, drop-append_suc s (encode_rdma_token t) b':', decode-encode t h)
        (ground arith)
