-- ===== src/Bridge/Contracts/Parts.antt =====
-- When `part in code` holds.
use trustlines_blockchain.Prelude.{
  ◌≡◌, refl, ap, sym, true, [], ◌∷◌, ◌++◌, nat_eqb_iff, ◌↔◌, inl, inr, Bool-cases, arith,
}
use trustlines_blockchain.Prelude.Classes.{Bytes, string_eq}
use trustlines_blockchain.Bridge.Contracts.{is_prefix, is_part}

-- The bytes stand somewhere in the code.
abbrev pub IsPart : Bytes → Bytes → Type 0
IsPart part code = (before : Bytes) × (after : Bytes) × (code ≡ before ++ part ++ after)

is_prefix_iff :
    (part code : Bytes) → (is_prefix part code ≡ true) ↔ ((after : Bytes) × (code ≡ part ++ after))
unfolding is_prefix
is_prefix_iff [] code = (λ h. (code, refl), λ h. refl)
is_prefix_iff (x ∷ xs) [] = (λ h. absurd (ground arith), λ (after, h). absurd (ground arith))
is_prefix_iff (x ∷ xs) (y ∷ ys) = (
  λ h.
      let (after, e) = (is_prefix_iff xs ys).0 (ground arith) in
      (after, ground (arith, (nat_eqb_iff x y).0)),
  λ (after, h).
      let same : y ≡ x = ground arith in
      let tails : ys ≡ xs ++ after = ground arith in
      ground (arith, (is_prefix_iff xs ys).1 (after, tails), (nat_eqb_iff x y).1 (sym same)),
)

at_end :
    (part before after : Bytes)
    → [] ≡ before ++ part ++ after
    → (rest : Bytes) × ([] ≡ part ++ rest)
at_end part [] after e = (after, e)
at_end part (b ∷ before) after e = absurd (ground arith)

pub IsPart-iff : (part code : Bytes) → (is_part part code ≡ true) ↔ IsPart part code
unfolding is_part
IsPart-iff part [] = (
  λ h. let (after, e) = (is_prefix_iff part []).0 h in ([], after, e),
  λ (before, after, e). (is_prefix_iff part []).1 (at_end part before after e),
)
IsPart-iff part (y ∷ ys) = (
  λ h. elim (Bool-cases (is_prefix part (y ∷ ys))) [
    | inl t ↦ let (after, e) = (is_prefix_iff part (y ∷ ys)).0 t in ([], after, e)
    | inr f ↦
        let (before, after, e) = (IsPart-iff part ys).0 (ground arith) in
        (y ∷ before, after, ap (λ l. y ∷ l) e)
  ],
  λ (before, after, e). in_rest (IsPart-iff part ys).1 before after e,
)
  where
    in_rest :
        (IsPart part ys → is_part part ys ≡ true)
        → (before after : Bytes) → y ∷ ys ≡ before ++ part ++ after
        → is_part part (y ∷ ys) ≡ true
    in_rest later [] after e = rw (is_part, (is_prefix_iff part (y ∷ ys)).1 (after, e)) refl
    in_rest later (b ∷ before) after e =
        let rest : ys ≡ before ++ part ++ after = ground arith in
        ground (arith, later (before, after, rest))
