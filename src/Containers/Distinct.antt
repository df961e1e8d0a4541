-- ===== src/Containers/Distinct.antt =====
-- A set lists each of its members once.
use trustlines_blockchain.Prelude.{◌≡◌, false, List, [], ◌∷◌, arith, Bool-cases, inl, inr}
use trustlines_blockchain.Prelude.Classes.{Eq}
use trustlines_blockchain.Containers.PySet.{contains, add, difference, contains-difference}

module _ {ℓ} {A : Type ℓ} ⦃e : Eq A⦄ where
  abbrev pub IsDistinct : List A → Type 0
  IsDistinct [] = Unit
  IsDistinct (x ∷ s) = (contains s x ≡ false) × IsDistinct s

  pub add-IsDistinct : (s : List A) (x : A) → IsDistinct s → IsDistinct (add s x)
  unfolding add
  add-IsDistinct s x h = elim (Bool-cases (contains s x)) [
    | inl old ↦ rw old h
    | inr new ↦ rw new (new, h)
  ]

  pub difference-IsDistinct : (s t : List A) → IsDistinct s → IsDistinct (difference s t)
  unfolding difference
  difference-IsDistinct [] t h = tt
  difference-IsDistinct (x ∷ s) t h = elim (Bool-cases (contains t x)) [
    | inl old ↦ rw old (difference-IsDistinct s t h.1)
    | inr new ↦ rw new (ground (arith, contains-difference s t x), difference-IsDistinct s t h.1)
  ]
