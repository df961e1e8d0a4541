-- ===== src/Prelude/Loops.antt =====
-- `while not test(): sleep()`, over the answers that an outside component gives one after another.
use Prim.Native.Nat.{ℕ, zero, suc, ◌+◌, ◌≤◌, ◌<◌}
use mathlib.Core.Path.{◌≡◌}
use mathlib.Core.Logic.{inl, inr}
use mathlib.Core.Bool.{Bool, true, false}
use mathlib.Core.Option.{Option, none, some}
use native.Mathlib.Omega.{arith}
use trustlines_blockchain.Prelude.Tests.{Bool-cases, Option-cases}

-- The first round, from `t` on, in which the test passes; `none` if the fuel runs out before.
unfoldable pub wait_until : ℕ → (ℕ → Bool) → ℕ → Option ℕ
wait_until zero test t = none
wait_until (suc fuel) test t = elim (test t) [
  | true ↦ some t
  | false ↦ wait_until fuel test (t + 1)
]

-- The round found passes the test, and no earlier one does.
abbrev pub IsFirst : (ℕ → Bool) → ℕ → ℕ → Type 0
IsFirst test t k = (test k ≡ true) × (t ≤ k) × ((j : ℕ) → t ≤ j → j < k → test j ≡ false)

pub IsFirst-now : (test : ℕ → Bool) (t : ℕ) → test t ≡ true → IsFirst test t t
IsFirst-now test t h = (h, omega arith, λ j a b. absurd (omega arith))

pub IsFirst-later :
    (test : ℕ → Bool) (t k : ℕ) → test t ≡ false → IsFirst test (t + 1) k → IsFirst test t k
IsFirst-later test t k h r = (r.0, omega arith, λ j a b. ground (arith, r.2 j))

pub wait_until-total :
    (fuel : ℕ) (test : ℕ → Bool) (t k : ℕ)
    → t ≤ k
    → k < t + fuel
    → test k ≡ true
    → (n : ℕ) × (wait_until fuel test t ≡ some n) × IsFirst test t n
unfolding wait_until
wait_until-total zero test t k a b h = absurd (omega arith)
wait_until-total (suc fuel) test t k a b h = elim (Bool-cases (test t)) [
  | inl now ↦ (t, rw (now, wait_until), IsFirst-now test t now)
  | inr later ↦
      let rest = wait_until-total fuel test (t + 1) k (ground arith) (omega arith) h in
      (rest.0, rw (later, wait_until) rest.1, IsFirst-later test t rest.0 later rest.2)
]

-- A call that is repeated until it answers: the answer, and the number of the next call.
unfoldable pub retry {ℓ} : {A : Type ℓ} → ℕ → (ℕ → Option A) → ℕ → Option (A × ℕ)
retry zero call t = none
retry (suc fuel) call t = elim (call t) [
  | some a ↦ some (a, t + 1)
  | none ↦ retry fuel call (t + 1)
]

-- The call answers if one of the calls within the fuel does.
pub retry-total {ℓ} :
    {A : Type ℓ} (fuel : ℕ) (call : ℕ → Option A) (t k : ℕ)
    → t ≤ k
    → k < t + fuel
    → (b : A) × (call k ≡ some b)
    → (a : A) × (u : ℕ) × (retry fuel call t ≡ some (a, u + 1))
      × (call u ≡ some a)
      × (t ≤ u)
      × (u ≤ k)
unfolding retry
retry-total zero call t k a b h = absurd (omega arith)
retry-total (suc fuel) call t k a b h = elim (Option-cases (call t)) [
  | inr (x, now) ↦ (x, t, rw (now, retry), now, omega arith, a)
  | inl later ↦
      let (x, u, returned, found, first, last) =
        retry-total fuel call (t + 1) k (ground arith) (omega arith) h in
      (x, u, rw (later, retry) returned, found, omega arith, last)
]
