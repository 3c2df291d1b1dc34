-- ===== src/Topology/Nics/Names.antt =====
-- src/common/rdma-topology.cpp: which names a list includes.
use hip_object.Prelude.{
  ℕ, zero, suc, ◌+◌, ◌≤◌, ◌<◌, ◌≡◌, refl, sym, ap, ◌∙◌, inl, inr, Bool, false, ◌||◌, ◌⊎◌, Option,
  none, some, true, ◌↔◌, if_elim, bytes_eq→eq, bytes_eq_refl, List, [], ◌∷◌, ◌++◌, ◌==◌,
  if◌then◌else◌, length, bytes_eq, All, arith, Bool-cases, Option-cases,
}
use hip_object.Topology.Nics.{
  skip_blanks, without_blanks, split_comma, hca_list_loop, hca_list_includes,
}

-- The parts of a list between its commas.
abbrev with_first : ℕ → List (List ℕ) → List (List ℕ)
with_first c [] = (c ∷ []) ∷ []
with_first c (part ∷ parts) = (c ∷ part) ∷ parts

abbrev pub comma_parts : List ℕ → List (List ℕ)
comma_parts [] = [] ∷ []
comma_parts (c ∷ cs) = if c == b',' then [] ∷ comma_parts cs else with_first c (comma_parts cs)

-- A part names a device: it is blanks, which are spaces and tabs, and then a name that does not begin
-- with one; or it has only blanks, and those are the name.
abbrev pub IsBlank : ℕ → Type 0
IsBlank c = (c ≡ 32) ⊎ (c ≡ 9)

abbrev pub Names : List ℕ → List ℕ → Type 0
Names dev_name part =
    ((blanks : List ℕ) × (c : ℕ) × (cs : List ℕ) × All IsBlank blanks
      × (¬ IsBlank c)
      × (dev_name ≡ c ∷ cs)
      × (part ≡ blanks ++ dev_name))
    ⊎ (All IsBlank part × (part ≡ dev_name))

abbrev pub AnyNames : List ℕ → List (List ℕ) → Type 0
AnyNames dev_name [] = ⊥
AnyNames dev_name (part ∷ parts) = Names dev_name part ⊎ AnyNames dev_name parts

-- The same, as the source tests it.
abbrev any_is : List ℕ → List (List ℕ) → Bool
any_is dev_name [] = false
any_is dev_name (part ∷ parts) = bytes_eq (without_blanks part) dev_name || any_is dev_name parts

abbrev parts_of : Option (List ℕ) → List (List ℕ)
parts_of none = []
parts_of (some more) = comma_parts more

split_comma_parts :
    (cs : List ℕ) → comma_parts cs ≡ (split_comma cs).0 ∷ parts_of (split_comma cs).1
unfolding split_comma
split_comma_parts [] = refl
split_comma_parts (c ∷ cs) = elim (Bool-cases (c == b',')) [
  | inl comma ↦ rw (comma, split_comma) refl
  | inr other ↦ rw (other, split_comma) (ap (with_first c) (split_comma_parts cs))
]

abbrev rest_length : Option (List ℕ) → ℕ
rest_length none = 0
rest_length (some more) = suc (length more)

split_comma_shorter : (cs : List ℕ) → rest_length (split_comma cs).1 ≤ length cs
unfolding split_comma
split_comma_shorter [] = omega arith
split_comma_shorter (c ∷ cs) = elim (Bool-cases (c == b',')) [
  | inl comma ↦ rw (comma, split_comma) (omega arith)
  | inr other ↦ rw (other, split_comma) (omega (arith, split_comma_shorter cs))
]

-- What `skip_blanks` finds.
abbrev Skips : List ℕ → Option (List ℕ) → Type 0
Skips part none = All IsBlank part
Skips part (some rest) =
    (blanks : List ℕ) × (c : ℕ) × (cs : List ℕ) × All IsBlank blanks
    × (¬ IsBlank c)
    × (rest ≡ c ∷ cs)
    × (part ≡ blanks ++ rest)

IsBlank-cases : (c : ℕ) → ((c == b' ' || c == 9) ≡ true) ↔ IsBlank c
IsBlank-cases c = (λ h. ground (arith, h), λ h. ground (arith, h))

skip_more : (c : ℕ) (cs : List ℕ) (o : Option (List ℕ)) → IsBlank c → Skips cs o → Skips (c ∷ cs) o
skip_more c cs none b all = (b, all)
skip_more c cs (some rest) b (blanks, d, ds, all, other, is_rest, is_part) =
    (c ∷ blanks, d, ds, (b, all), other, is_rest, ap (◌∷◌ c) is_part)

skip_blanks-Skips : (part : List ℕ) → Skips part (skip_blanks part)
skip_blanks-Skips [] = tt
skip_blanks-Skips (c ∷ cs) =
    if_elim (Skips (c ∷ cs)) (c == b' ' || c == 9) _ _
      (λ e. skip_more c cs (skip_blanks cs) ((IsBlank-cases c).0 e) (skip_blanks-Skips cs))
      (λ e. ([], c, cs, tt, (λ b. absurd (ground (arith, e, (IsBlank-cases c).1 b))), refl, refl))

named_by :
    (dev_name part : List ℕ) (o : Option (List ℕ))
    → Skips part o
    → elim o [ none ↦ part | some rest ↦ rest ] ≡ dev_name
    → Names dev_name part
named_by dev_name part none all h = inr (all, h)
named_by dev_name part (some rest) (blanks, c, cs, all, other, is_rest, is_part) h =
    inl (blanks, c, cs, all, other, sym h ∙ is_rest, is_part ∙ ap (◌++◌ blanks) h)

skip_blanks-blanks : (part : List ℕ) → All IsBlank part → skip_blanks part ≡ none
skip_blanks-blanks [] all = refl
skip_blanks-blanks (c ∷ cs) (b, all) = rw ((IsBlank-cases c).1 b) (skip_blanks-blanks cs all)

skip_blanks-append :
    (blanks : List ℕ) (c : ℕ) (cs : List ℕ)
    → All IsBlank blanks
    → ¬ IsBlank c
    → skip_blanks (blanks ++ c ∷ cs) ≡ some (c ∷ cs)
skip_blanks-append [] c cs all other = elim (Bool-cases (c == b' ' || c == 9)) [
  | inl e ↦ absurd (other ((IsBlank-cases c).0 e))
  | inr e ↦ rw e refl
]
skip_blanks-append (d ∷ blanks) c cs (b, all) other =
    rw ((IsBlank-cases d).1 b) (skip_blanks-append blanks c cs all other)

without_blanks-Names :
    (dev_name part : List ℕ) → Names dev_name part → without_blanks part ≡ dev_name
without_blanks-Names dev_name part (inr (all, e)) =
    ap (λ o. elim o [ none ↦ part | some rest ↦ rest ]) (skip_blanks-blanks part all) ∙ e
without_blanks-Names dev_name part (inl (blanks, c, cs, all, other, is_name, is_part)) =
    ap (λ o. elim o [ none ↦ part | some rest ↦ rest ])
      (ap skip_blanks (is_part ∙ ap (◌++◌ blanks) is_name)
        ∙ skip_blanks-append blanks c cs all other)
    ∙ sym is_name

is_named :
    (dev_name part : List ℕ)
    → (bytes_eq (without_blanks part) dev_name ≡ true) ↔ Names dev_name part
is_named dev_name part = (
  λ h. named_by dev_name part (skip_blanks part) (skip_blanks-Skips part) (bytes_eq→eq _ _ h),
  λ n.
      ap (bytes_eq (without_blanks part)) (sym (without_blanks-Names dev_name part n))
      ∙ bytes_eq_refl (without_blanks part),
)

any_is-AnyNames :
    (dev_name : List ℕ) (parts : List (List ℕ))
    → (any_is dev_name parts ≡ true) ↔ AnyNames dev_name parts
any_is-AnyNames dev_name [] = (λ h. absurd (ground (arith, h)), λ h. absurd h)
any_is-AnyNames dev_name (part ∷ parts) =
    elim (Bool-cases (bytes_eq (without_blanks part) dev_name)) [
      | inl e ↦ (λ h. inl ((is_named dev_name part).0 e), λ n. rw e refl)
      | inr e ↦ (
        λ h. inr ((any_is-AnyNames dev_name parts).0 (rw e at h)),
        λ (n : AnyNames dev_name (part ∷ parts)). rw e (elim n [
          | inl here ↦ absurd (ground (arith, e, (is_named dev_name part).1 here))
          | inr there ↦ (any_is-AnyNames dev_name parts).1 there
        ]),
      )
    ]

loop_any :
    (turns : ℕ) (hca_list dev_name : List ℕ)
    → length hca_list < turns
    → hca_list_loop turns hca_list dev_name ≡ some (any_is dev_name (comma_parts hca_list))
unfolding hca_list_loop
loop_any zero hca_list dev_name h = absurd (ground (arith, h))
loop_any (suc turns) hca_list dev_name h =
    let short = split_comma_shorter hca_list in
    rw split_comma_parts
      (elim (Bool-cases (bytes_eq (without_blanks (split_comma hca_list).0) dev_name)) [
        | inl same ↦ rw (hca_list_loop, same) refl
        | inr other ↦ elim (Option-cases (split_comma hca_list).1) [
          | inl last ↦ rw (hca_list_loop, other, last) refl
          | inr (more, e) ↦
              rw (hca_list_loop, other, e)
                (loop_any turns more dev_name (omega (arith, h, short, ap rest_length e)))
        ]
      ])

-- The loop over a list of names, which takes one name off at each turn, ends for every list, with the
-- answer whether one of the parts between the commas is the device's name, after spaces and tabs.
pub hca_list_includes-AnyNames :
    (hca_list dev_name : List ℕ)
    → (hca_list_loop (length hca_list + 1) hca_list dev_name
        ≡ some (hca_list_includes hca_list dev_name))
      × ((hca_list_includes hca_list dev_name ≡ true) ↔ AnyNames dev_name (comma_parts hca_list))
unfolding hca_list_includes
hca_list_includes-AnyNames hca_list dev_name =
    let ends = loop_any (length hca_list + 1) hca_list dev_name (omega arith) in
    rw (hca_list_includes, ends) (refl, any_is-AnyNames dev_name (comma_parts hca_list))
