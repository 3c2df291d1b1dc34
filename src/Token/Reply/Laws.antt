-- ===== src/Token/Reply/Laws.antt =====
-- What a reply means: round trips, what is accepted, and how a status is classified.
use hip_object.Prelude.{
  ℕ, ◌+◌, ◌^◌, ◌≤◌, ◌<◌, ◌≡◌, ◌≢◌, ◌⊎◌, refl, sym, ap, ◌∙◌, subst, ◌>>=◌, inl, inr, ◌||◌, Option,
  none, some, List, [], ◌∷◌, ◌++◌, length, drop, All, arith, Bool-cases, Option-cases, ◌==◌, ltb,
  bytes_eq, codes, length-append, append-nil, if◌then◌else◌,
}
use hip_object.Prelude.Int.{pos, negsuc}
use hip_object.Parse.{parse_number}
use hip_object.Parse.Laws.{IsDigit, parse_number_iff}
use hip_object.Token.{RdmaToken, IsRdmaToken, encode_rdma_token, decode_rdma_token_hex}
use hip_object.Token.Canonical.{encode-decode}
use hip_object.Token.Reply.{
  ParsedReply, RdmaReplyStatus, success, failed, not_supported, remove_trailing, before_colon,
  reply_with_code, parse_value, parse_reply, parse_rdma_reply_http_code, decode_rdma_reply,
  to_string, encode_reply_with_peer_token,
}
use hip_object.Token.Reply.Decimal.{to_string-IsDigit, parse_number-to_string}
use hip_object.Token.Reply.Trim.{
  IsTrailing, remove_trailing-append, before_colon-append, before_colon_none,
}
use hip_object.Token.Reply.Values.{
  digits-IsText, encode_reply_split, digit_word, parse_value_status, length-to_string_status,
  value-IsText, value_200,
}

-- A "200:" reply with a token, whatever trailing characters follow it, is parsed as the status 200
-- and that token.
pub parse_reply-encode :
    (t : RdmaToken) (tail : List ℕ)
    → IsRdmaToken t
    → All IsTrailing tail
    → parse_reply (encode_reply_with_peer_token (pos 200) t ++ tail)
      ≡ some (record { http_code = pos 200; peer_token = some t })
unfolding parse_reply
parse_reply-encode t tail h trailing =
    rw
      (
        encode_reply_split (pos 200) t,
        remove_trailing-append _ tail (value-IsText 200 t h) trailing,
      )
      (value_200 t h)

status_colon : (n : ℕ) → before_colon (to_string (pos n) ++ []) ≡ to_string (pos n)
status_colon n =
    ap before_colon (append-nil _)
    ∙ before_colon_none (to_string (pos n)) (digits-IsText _ (to_string-IsDigit n)).1

value_status :
    (n : ℕ)
    → 100 ≤ n
    → n ≤ 599
    → parse_value (to_string (pos n)) ≡ some (record { http_code = pos n; peer_token = none })
value_status n lo hi =
    let s = to_string (pos n) in
    ap parse_value (sym (append-nil s))
    ∙ parse_value_status s [] n (to_string-IsDigit n) (status_colon n)
        (length-to_string_status n lo hi)
        (parse_number-to_string 0xffff_ffff n (omega arith) (omega arith)) lo hi
    ∙ unfold reply_with_code in rw append-nil (ground arith)

-- The status that a reply stands for, by its number.
abbrev pub status_of : ℕ → RdmaReplyStatus
status_of n =
    if n == 501 then not_supported else if n == 200 || n == 204 || n == 206 then success else failed

-- A reply that is a bare status from 100 to 599, whatever trailing characters follow it, is parsed as
-- that status with no token, and stands for success exactly at 200, 204 and 206, and for a server
-- without RDMA exactly at 501.
pub parse_reply-to_string :
    (n : ℕ) (tail : List ℕ)
    → 100 ≤ n
    → n ≤ 599
    → All IsTrailing tail
    → let reply = to_string (pos n) ++ tail in
      (parse_reply reply ≡ some (record { http_code = pos n; peer_token = none }))
      × (decode_rdma_reply reply ≡ some (status_of n))
unfolding decode_rdma_reply parse_rdma_reply_http_code
parse_reply-to_string n tail lo hi trailing = (parsed, rw parsed)
  where
    parsed :
        parse_reply (to_string (pos n) ++ tail)
        ≡ some (record { http_code = pos n; peer_token = none })
    parsed =
        unfold parse_reply in
        rw
          (remove_trailing-append (to_string (pos n)) tail (digits-IsText _ (to_string-IsDigit n)).0
            trailing)
          (value_status n lo hi)

digits_not_200 :
    (s hex : List ℕ) (n : ℕ)
    → All (IsDigit 10) s
    → parse_number 0xffff_ffff 10 s ≡ some n
    → n ≢ 200
    → parse_value (s ++ b':' ∷ hex) ≡ none
unfolding parse_value reply_with_code
digits_not_200 [] hex n all e ne = absurd (((parse_number_iff 0xffff_ffff 10 [] n).0 e).2 refl)
digits_not_200 (c ∷ cs) hex n all e ne = ground (
  arith,
  digit_word c (cs ++ b':' ∷ hex) all.0,
  before_colon-append (c ∷ cs) hex (digits-IsText (c ∷ cs) all).1,
  e,
  length-append (c ∷ cs) (b':' ∷ hex),
)

value_not_200 :
    (n : ℕ) (t : RdmaToken)
    → n < 2 ^ 31
    → n ≢ 200
    → parse_value (to_string (pos n) ++ b':' ∷ encode_rdma_token t) ≡ none
value_not_200 n t fits ne =
    digits_not_200 (to_string (pos n)) (encode_rdma_token t) n (to_string-IsDigit n)
      (parse_number-to_string 0xffff_ffff n (omega arith) (omega arith)) ne

-- A reply with a token and any other status than 200 is rejected.
parse_reply-encode_not_200 :
    (n : ℕ) (t : RdmaToken) (tail : List ℕ)
    → n < 2 ^ 31
    → n ≢ 200
    → IsRdmaToken t
    → All IsTrailing tail
    → parse_reply (encode_reply_with_peer_token (pos n) t ++ tail) ≡ none
unfolding parse_reply
parse_reply-encode_not_200 n t tail fits ne h trailing =
    rw (encode_reply_split (pos n) t, remove_trailing-append _ tail (value-IsText n t h) trailing)
      (value_not_200 n t fits ne)

-- What an accepted reply can be.
pub record IsReply (p : ParsedReply) : Type 0 where
  pub code_in_range :
      (p.http_code ≡ negsuc 0) ⊎ ((n : ℕ) × (p.http_code ≡ pos n) × (100 ≤ n) × (n ≤ 599))
  pub token_with_200 :
      (t : RdmaToken) → p.peer_token ≡ some t → (p.http_code ≡ pos 200) × IsRdmaToken t

bare-IsReply :
    (n : ℕ) → 100 ≤ n → n ≤ 599 → IsReply (record { http_code = pos n; peer_token = none })
bare-IsReply n lo hi = record { code_in_range = inr (n, refl, lo, hi); token_with_200 = λ t e. cc }

err-IsReply : IsReply (record { http_code = negsuc 0; peer_token = none })
err-IsReply = record { code_in_range = inl refl; token_with_200 = λ t e. cc }

with_token-IsReply :
    (t : RdmaToken) → IsRdmaToken t → IsReply (record { http_code = pos 200; peer_token = some t })
with_token-IsReply t h = record {
  code_in_range = inr (200, refl, omega arith, omega arith);
  token_with_200 = λ u e. (refl, subst IsRdmaToken (same e) h);
}
  where
    same : {u : RdmaToken} → some t ≡ some u → t ≡ u
    same e = cc

reply_with_code_sound :
    (value status : List ℕ) (n : ℕ) (p : ParsedReply)
    → 100 ≤ n
    → n ≤ 599
    → reply_with_code value status n ≡ some p
    → IsReply p
unfolding reply_with_code
reply_with_code_sound value status n p lo hi h = elim (Bool-cases (length status == length value)) [
  | inl e ↦ subst IsReply (ground (arith, e)) (bare-IsReply n lo hi)
  | inr e ↦ elim (Bool-cases (n == 200)) [
    | inr f ↦ absurd (ground (arith, e, f))
    | inl f ↦ elim (Option-cases (decode_rdma_token_hex (drop (length status + 1) value))) [
      | inl g ↦ absurd (ground (arith, e, f, g))
      | inr (t, g) ↦
          subst IsReply (ground (arith, e, f, g)) (with_token-IsReply t (encode-decode _ t g).0)
    ]
  ]
]

parse_status_sound :
    (value : List ℕ) (p : ParsedReply) (o : Option ℕ)
    → (o >>= λ n.
        if ltb n 100 || ltb 599 n then none else reply_with_code value (before_colon value) n)
      ≡ some p
    → IsReply p
parse_status_sound value p none h = cc
parse_status_sound value p (some n) h = elim (Bool-cases (ltb n 100 || ltb 599 n)) [
  | inl e ↦ absurd (ground (arith, e))
  | inr e ↦
      reply_with_code_sound value (before_colon value) n p (ground (arith, e)) (ground (arith, e))
        (rw e at h)
]

parse_value_sound : (value : List ℕ) (p : ParsedReply) → parse_value value ≡ some p → IsReply p
unfolding parse_value
parse_value_sound value p h = elim (Bool-cases (bytes_eq value (codes "ok"))) [
  | inl e ↦ subst IsReply (ground (arith, e)) (bare-IsReply 200 (omega arith) (omega arith))
  | inr e ↦ elim (Bool-cases (bytes_eq value (codes "err"))) [
    | inl f ↦ subst IsReply (ground (arith, e, f)) err-IsReply
    | inr f ↦ elim (Bool-cases (length (before_colon value) == 3)) [
      | inr g ↦ absurd (ground (arith, e, f, g))
      | inl g ↦
          parse_status_sound value p (parse_number 0xffff_ffff 10 (before_colon value))
            (rw (e, f, g) at h)
    ]
  ]
]

-- Every accepted reply has the status -1 ("err") or one from 100 to 599, and only the status 200
-- comes with a token, whose fields fit their types.
pub parse_reply-IsReply :
    (reply : List ℕ) (p : ParsedReply) → parse_reply reply ≡ some p → IsReply p
unfolding parse_reply
parse_reply-IsReply reply p h = parse_value_sound (remove_trailing reply) p h
