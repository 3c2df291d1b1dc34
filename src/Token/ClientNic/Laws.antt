-- ===== src/Token/ClientNic/Laws.antt =====
-- src/rdma/token.cpp: what `parseClientNicFromTokenHex` writes and returns.
use native.Mathlib.Numerals.{add-one}
use hip_object.Prelude.{
  ℕ, suc, ◌+◌, ◌-◌, ◌≤◌, ◌<◌, ◌≡◌, ◌⊎◌, sym, subst, bytes_eq→eq, take-append-drop, append_assoc,
  refl, ap, ◌∙◌, Bool, true, false, Option, none, some, List, [], ◌∷◌, ◌++◌, length, length-append,
  take, drop, set, replicate, leb, All, arith, if◌then◌else◌, inl, inr, Bool-cases, length-take-le,
  length-drop, All-drop, take_of_le, drop-replicate, take-suc-append,
}
use hip_object.Prelude.Int.{pos}
use hip_object.Gid.{Gid, IsByte, is_ipv4_mapped_gid, ipv4_of_gid}
use hip_object.Token.{RdmaToken, decode_rdma_token_hex}
use hip_object.Token.Canonical.{encode-decode}
use hip_object.Token.Reply.{to_string}
use hip_object.Token.ClientNic.{
  dotted_quad, copy, format_buffer, write_address, client_nic_of, parse_client_nic_from_token_hex,
}
use hip_object.Token.ClientNic.Quad.{IsQuad, IsMapped, dotted_quad-IsQuad}

length-to_string_byte :
    (b : ℕ) → IsByte b → (1 ≤ length (to_string (pos b))) × (length (to_string (pos b)) ≤ 3)
unfolding to_string
length-to_string_byte b h = ground arith

length-dotted_quad :
    (a b c d : ℕ)
    → IsByte a
    → IsByte b
    → IsByte c
    → IsByte d
    → length (dotted_quad (a ∷ b ∷ c ∷ d ∷ [])) ≤ 15
unfolding dotted_quad
length-dotted_quad a b c d ha hb hc hd = simp length-append (
    omega (
      arith,
      length-to_string_byte a ha,
      length-to_string_byte b hb,
      length-to_string_byte c hc,
      length-to_string_byte d hd,
    ))

length-dotted_quad_le :
    (ipv4 : List ℕ) → length ipv4 ≡ 4 → All IsByte ipv4 → length (dotted_quad ipv4) ≤ 15
length-dotted_quad_le [] len all = absurd (omega arith)
length-dotted_quad_le (a ∷ []) len all = absurd (omega arith)
length-dotted_quad_le (a ∷ b ∷ []) len all = absurd (omega arith)
length-dotted_quad_le (a ∷ b ∷ c ∷ []) len all = absurd (omega arith)
length-dotted_quad_le (a ∷ b ∷ c ∷ d ∷ []) len (ha, (hb, (hc, (hd, _)))) =
    length-dotted_quad a b c d ha hb hc hd
length-dotted_quad_le (a ∷ b ∷ c ∷ d ∷ e ∷ xs) len all = absurd (omega arith)

length-token_text :
    (token_hex : List ℕ) (t : RdmaToken)
    → decode_rdma_token_hex token_hex ≡ some t
    → length (dotted_quad (ipv4_of_gid t.gid)) ≤ 15
unfolding ipv4_of_gid
length-token_text token_hex t h =
    let (len, all) = (encode-decode token_hex t h).0.gid_fits in
    length-dotted_quad_le (drop 12 t.gid) (omega (arith, length-drop 12 t.gid))
      (All-drop IsByte 12 t.gid all)

-- What the copy takes from the buffer: the text and one NUL.
take-format_buffer :
    (text : List ℕ)
    → length text ≤ 15
    → take (length text + 1) (format_buffer text) ≡ text ++ 0 ∷ []
unfolding format_buffer
take-format_buffer text h =
    let k = 15 - length text in
    let size : 16 ≡ length text + suc k = omega arith in
    let zeros : drop (length text) (replicate 16 0) ≡ 0 ∷ replicate k 0 =
      ap (λ (n : ℕ). drop {A = ℕ} (length text) (replicate n 0)) size
      ∙ drop-replicate (length text) (suc k) 0 in
    rw (take_of_le 15 text h, zeros, add-one) (take-suc-append text (replicate k 0) 0)

copy_text :
    (text : List ℕ) (c d : ℕ) (rest : List ℕ)
    → length text ≤ 15
    → copy (take (length text + 1) (format_buffer text)) (c ∷ rest)
      ≡ (text ++ 0 ∷ []) ++ drop (length text + 1) (d ∷ rest)
copy_text text c d rest h = rw (take-format_buffer text h, length-append text (0 ∷ []), add-one)

length-copy :
    (bytes out : List ℕ) → length bytes ≤ length out → length (copy bytes out) ≡ length out
length-copy bytes out h =
    omega (arith, length-append bytes (drop (length bytes) out), length-drop (length bytes) out)

length-write_address : (ipv4 nic_ip : List ℕ) → length (write_address ipv4 nic_ip).1 ≡ length nic_ip
unfolding write_address
length-write_address ipv4 nic_ip =
    let text = dotted_quad ipv4 in
    let bytes = take (length text + 1) (format_buffer text) in
    elim (Bool-cases (leb (length nic_ip) (length text))) [
      | inl e ↦ rw e
      | inr e ↦ rw e (
          length-copy bytes nic_ip
            (ground (arith, length-take-le (length text + 1) (format_buffer text))))
    ]

length-client_nic_of :
    (o : Option RdmaToken) (nic_ip : List ℕ) → length (client_nic_of o nic_ip).1 ≡ length nic_ip
unfolding client_nic_of
length-client_nic_of none nic_ip = refl
length-client_nic_of (some t) nic_ip = elim (Bool-cases (is_ipv4_mapped_gid t.gid)) [
  | inl e ↦ rw e (length-write_address (ipv4_of_gid t.gid) nic_ip)
  | inr e ↦ rw e
]

-- What a call leaves in the span, and returns, for the token that the text decodes to.
abbrev pub WritesNic : Option RdmaToken → List ℕ → Bool × List ℕ → Type 0
WritesNic o [] r = r ≡ (false, [])
WritesNic none (c ∷ rest) r = r ≡ (false, 0 ∷ rest)
WritesNic (some t) (c ∷ rest) r =
    (((p q u v : ℕ) → ¬ IsMapped t.gid p q u v) × (r ≡ (true, 0 ∷ rest)))
    ⊎ ((p q u v : ℕ) × (text : List ℕ) × IsMapped t.gid p q u v
        × IsQuad p q u v text
        × (((length rest < length text) × (r ≡ (false, 0 ∷ rest)))
            ⊎ ((length text ≤ length rest) × (r ≡ (true, text ++ 0 ∷ drop (length text) rest)))))

IsMapped-IsQuad :
    (gid ipv4 : List ℕ)
    → gid ≡ replicate 10 0 ++ 255 ∷ 255 ∷ ipv4
    → length gid ≡ 16
    → All IsByte gid
    → (p q u v : ℕ) × IsMapped gid p q u v × IsQuad p q u v (dotted_quad ipv4)
IsMapped-IsQuad gid ipv4 e len all = go ipv4 e
  where
    go :
        (xs : List ℕ)
        → gid ≡ replicate 10 0 ++ 255 ∷ 255 ∷ xs
        → (p q u v : ℕ) × IsMapped gid p q u v × IsQuad p q u v (dotted_quad xs)
    go [] f = absurd (omega (arith, len, ap length f))
    go (a ∷ []) f = absurd (omega (arith, len, ap length f))
    go (a ∷ b ∷ []) f = absurd (omega (arith, len, ap length f))
    go (a ∷ b ∷ c ∷ []) f = absurd (omega (arith, len, ap length f))
    go (a ∷ b ∷ c ∷ d ∷ []) f =
        let (ha, (hb, (hc, (hd, _)))) =
          subst (λ g. All IsByte (drop 12 g)) f (All-drop IsByte 12 gid all) in
        (a, b, c, d, f, dotted_quad-IsQuad a b c d ha hb hc hd)
    go (a ∷ b ∷ c ∷ d ∷ e ∷ xs) f = absurd (omega (arith, len, ap length f))

mapped_gid :
    (gid : Gid)
    → is_ipv4_mapped_gid gid ≡ true
    → gid ≡ replicate 10 0 ++ 255 ∷ 255 ∷ ipv4_of_gid gid
unfolding is_ipv4_mapped_gid ipv4_of_gid
mapped_gid gid h = sym (take-append-drop 12 gid) ∙ ap (λ xs. xs ++ drop 12 gid) (bytes_eq→eq _ _ h)

-- A mapped GID's address, printed in the span.
mapped_text :
    (token_hex nic_ip : List ℕ) (t : RdmaToken)
    → decode_rdma_token_hex token_hex ≡ some t
    → is_ipv4_mapped_gid t.gid ≡ true
    → 0 < length nic_ip
    → let text = dotted_quad (ipv4_of_gid t.gid) in
      parse_client_nic_from_token_hex token_hex nic_ip ≡ (
        if leb (length nic_ip) (length text)
        then (false, set nic_ip 0 0)
        else (true, (text ++ 0 ∷ []) ++ drop (length text + 1) nic_ip))
unfolding parse_client_nic_from_token_hex write_address
mapped_text token_hex [] t h mapped room = absurd (omega arith)
mapped_text token_hex (c ∷ rest) t h mapped room =
    rw (h, mapped, copy_text _ 0 c rest (length-token_text token_hex t h))

is_mapped : (gid : Gid) (p q u v : ℕ) → IsMapped gid p q u v → is_ipv4_mapped_gid gid ≡ true
unfolding is_ipv4_mapped_gid
is_mapped gid p q u v m = ap is_ipv4_mapped_gid m

text_and_nul :
    (text : List ℕ) (c : ℕ) (rest : List ℕ)
    → (text ++ 0 ∷ []) ++ drop (length text + 1) (c ∷ rest) ≡ text ++ 0 ∷ drop (length text) rest
text_and_nul text c rest = rw (append_assoc text (0 ∷ []), add-one) refl

mapped-WritesNic :
    (token_hex : List ℕ) (c : ℕ) (rest : List ℕ) (t : RdmaToken)
    → decode_rdma_token_hex token_hex ≡ some t
    → is_ipv4_mapped_gid t.gid ≡ true
    → WritesNic (some t) (c ∷ rest) (parse_client_nic_from_token_hex token_hex (c ∷ rest))
mapped-WritesNic token_hex c rest t h mapped =
    let text = dotted_quad (ipv4_of_gid t.gid) in
    let (len, all) = (encode-decode token_hex t h).0.gid_fits in
    let (p, q, u, v, m, quad) =
      IsMapped-IsQuad t.gid (ipv4_of_gid t.gid) (mapped_gid t.gid mapped) len all in
    let written = mapped_text token_hex (c ∷ rest) t h mapped (omega arith) in
    inr (
      p,
      q,
      u,
      v,
      text,
      m,
      quad,
      elim (Bool-cases (leb (suc (length rest)) (length text))) [
        | inl short ↦ inl (ground (arith, short), rw short at written)
        | inr room ↦ inr (
          ground (arith, room),
          (rw room at written) ∙ ap (λ xs. (true, xs)) (text_and_nul text c rest),
        )
      ],
    )

-- With an empty span the call fails. Otherwise it sets the first byte to NUL; it fails if the token is
-- malformed; it succeeds with no more written if the token's GID is not IPv4-mapped; and else, if the
-- span has room for the address of the GID as a dotted decimal quad and a NUL, it writes both and
-- succeeds, and what follows them is left, and it fails if there is no room.
pub client_nic_text :
    (token_hex nic_ip : List ℕ)
    → WritesNic
        (decode_rdma_token_hex token_hex)
        nic_ip
        (parse_client_nic_from_token_hex token_hex nic_ip)
unfolding parse_client_nic_from_token_hex
client_nic_text token_hex [] = refl
client_nic_text token_hex (c ∷ rest) = go (decode_rdma_token_hex token_hex) refl
  where
    go :
        (o : Option RdmaToken)
        → decode_rdma_token_hex token_hex ≡ o
        → WritesNic o (c ∷ rest) (parse_client_nic_from_token_hex token_hex (c ∷ rest))
    go none e = rw (parse_client_nic_from_token_hex, e) refl
    go (some t) e = elim (Bool-cases (is_ipv4_mapped_gid t.gid)) [
      | inl mapped ↦ mapped-WritesNic token_hex c rest t e mapped
      | inr other ↦ inl (
        (λ p q u v m. absurd (ground (arith, other, is_mapped t.gid p q u v m))),
        rw (parse_client_nic_from_token_hex, e, other) refl,
      )
    ]

-- The call never changes the length of the span: it writes nothing outside of it.
length-client_nic :
    (token_hex nic_ip : List ℕ)
    → length (parse_client_nic_from_token_hex token_hex nic_ip).1 ≡ length nic_ip
unfolding parse_client_nic_from_token_hex
length-client_nic token_hex [] = refl
length-client_nic token_hex (c ∷ rest) =
    length-client_nic_of (decode_rdma_token_hex token_hex) (0 ∷ rest)
