-- ===== src/Containers/PySet.antt =====
-- Python's `set`, as a list in some order of iteration; what a set holds is `contains`.
use trustlines_blockchain.Prelude.{
  ◌≡◌, refl, Bool, false, not, ◌&&◌, ◌||◌, List, [], ◌∷◌, arith, if◌then◌else◌,
}
use trustlines_blockchain.Prelude.Classes.{Eq, ◌==◌}

module _ {ℓ} {A : Type ℓ} ⦃e : Eq A⦄ where
  -- `x in s`
  unfoldable pub contains : List A → A → Bool
  contains [] x = false
  contains (y ∷ s) x = y == x || contains s x

  -- `s.add(x)`
  unfoldable pub add : List A → A → List A
  add s x = if contains s x then s else x ∷ s

  -- `s - t`
  unfoldable pub difference : List A → List A → List A
  difference [] t = []
  difference (x ∷ s) t = let rest = difference s t in if contains t x then rest else x ∷ rest

  -- `s & t`
  unfoldable pub intersection : List A → List A → List A
  intersection [] t = []
  intersection (x ∷ s) t = let rest = intersection s t in if contains t x then x ∷ rest else rest

  -- `s | t`
  unfoldable pub union : List A → List A → List A
  union s [] = s
  union s (x ∷ t) = union (add s x) t

  pub contains-add : (s : List A) (x y : A) → contains (add s x) y ≡ (x == y || contains s y)
  unfolding contains add
  contains-add s x y = ground (arith, e.beq_iff x y)

  pub contains-difference :
      (s t : List A) (y : A) → contains (difference s t) y ≡ (contains s y && not (contains t y))
  unfolding contains difference
  contains-difference [] t y = refl
  contains-difference (x ∷ s) t y = ground (arith, contains-difference s t y, e.beq_iff x y)

  pub contains-intersection :
      (s t : List A) (y : A) → contains (intersection s t) y ≡ (contains s y && contains t y)
  unfolding contains intersection
  contains-intersection [] t y = refl
  contains-intersection (x ∷ s) t y = ground (arith, contains-intersection s t y, e.beq_iff x y)

  pub contains-union :
      (s t : List A) (y : A) → contains (union s t) y ≡ (contains s y || contains t y)
  unfolding contains union
  contains-union s [] y = ground arith
  contains-union s (x ∷ t) y = ground (arith, contains-union (add s x) t y, contains-add s x y)

  pub contains-empty : (y : A) → contains [] y ≡ false
  unfolding contains
  contains-empty y = refl

pub ruleset set_laws =
    (contains-add, contains-difference, contains-intersection, contains-union, contains-empty)
