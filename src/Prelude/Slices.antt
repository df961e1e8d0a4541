-- ===== src/Prelude/Slices.antt =====
-- Slices of lists.
use trustlines_blockchain.Prelude.{ℕ, zero, suc, List, [], ◌∷◌}

-- Python's `xs[:n]` and `xs[n:]`.
unfoldable pub take {ℓ} : {A : Type ℓ} → ℕ → List A → List A
take zero xs = []
take (suc n) [] = []
take (suc n) (x ∷ xs) = x ∷ take n xs

unfoldable pub drop {ℓ} : {A : Type ℓ} → ℕ → List A → List A
drop zero xs = xs
drop (suc n) [] = []
drop (suc n) (x ∷ xs) = drop n xs
