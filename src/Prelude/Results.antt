-- ===== src/Prelude/Results.antt =====
-- Python's exceptions as values, and methods as actions on a state. What an action wrote before it
-- raised stays written.
use mathlib.Core.Path.{◌≡◌, refl, ap, ◌∙◌}
use mathlib.Core.Bool.{Bool, true, false}
use mathlib.Core.Option.{Option, none, some}
use native.Mathlib.Omega.{arith}

-- The exception classes that the modelled code raises.
pub data PyError : Type 0 where
  key_error value_error assertion_error attribute_error runtime_error system_exit : PyError
  nonce_too_low validation_error setup_error bad_parameter bad_option_usage click_exception :
      PyError
  file_exists_error file_not_found_error usage_error abort : PyError
  connection_error http_error called_process_error : PyError

pub data Result {ℓ} (A : Type ℓ) : Type ℓ where
  ok : A → Result A
  err : PyError → Result A

abbrev pub and_then {ℓ κ} : {A : Type ℓ} {B : Type κ} → Result A → (A → Result B) → Result B
and_then (ok a) f = f a
and_then (err e) f = err e

abbrev pub Action {ℓ} : Type ℓ → Type ℓ → Type ℓ
Action S A = S → Result A × S

infixl 5 ◌>>=◌ ◌>>◌
abbrev pub ◌>>=◌ {ℓ} : {S A B : Type ℓ} → Action S A → (A → Action S B) → Action S B
◌>>=◌ m f s = let (r, s') = m s in elim r [ ok a ↦ f a s' | err e ↦ (err e, s') ]

abbrev pub ◌>>◌ {ℓ} : {S A B : Type ℓ} → Action S A → Action S B → Action S B
m >> k = m >>= λ _. k

abbrev pub pure {ℓ} : {S A : Type ℓ} → A → Action S A
pure a s = (ok a, s)

abbrev pub raise {ℓ} : {S A : Type ℓ} → PyError → Action S A
raise e s = (err e, s)

abbrev pub gets {ℓ} : {S A : Type ℓ} → (S → A) → Action S A
gets f s = (ok (f s), s)

abbrev pub modify : {S : Type 0} → (S → S) → Action S (Unit {0})
modify f s = (ok tt, f s)

-- `if c: raise e`
abbrev pub raise_if : {S : Type 0} → Bool → PyError → Action S (Unit {0})
raise_if true e = raise e
raise_if false e = pure tt

abbrev pub or_raise {ℓ} : {S A : Type ℓ} → Option A → PyError → Action S A
or_raise none e = raise e
or_raise (some a) e = pure a

abbrev pub lift {ℓ} : {S A : Type ℓ} → Result A → Action S A
lift (ok a) = pure a
lift (err e) = raise e

abbrev pub is_ok {ℓ} : {A : Type ℓ} → Result A → Bool
is_ok (ok a) = true
is_ok (err e) = false

-- What comes after a step runs only if the step went well.
pub and_then-ok {ℓ κ} :
    {A : Type ℓ} {B : Type κ} (r : Result A) (f : A → Result B) (b : B)
    → and_then r f ≡ ok b
    → (a : A) × (r ≡ ok a) × (f a ≡ ok b)
and_then-ok (ok a) f b h = (a, refl, h)
and_then-ok (err e) f b h = absurd (ground arith)

-- An action that went well, taken apart.
pub bind-ok {ℓ} :
    {S A B : Type ℓ} (m : Action S A) (f : A → Action S B) (s s'' : S) (b : B)
    → (m >>= f) s ≡ (ok b, s'')
    → (a : A) × (s' : S) × (m s ≡ (ok a, s')) × (f a s' ≡ (ok b, s''))
bind-ok {S = S} {A = A} {B = B} m f s s'' b h = go (m s) refl h
  where
    go :
        (p : Result A × S)
        → m s ≡ p
        → (elim p.0 as (λ r. Result B × S) [ ok a ↦ f a p.1 | err e ↦ (err e, p.1) ]) ≡ (ok b, s'')
        → (a : A) × (s' : S) × (m s ≡ (ok a, s')) × (f a s' ≡ (ok b, s''))
    go (ok a, s') e h = (a, s', e, h)
    go (err x, s') e h = absurd (ground (arith, ap (λ (q : Result B × S). q.0) h))

-- An action whose first part is known.
pub bind-eq {ℓ} :
    {S A B : Type ℓ} (m : Action S A) (f : A → Action S B) (s s' : S) (a : A) (r : Result B × S)
    → m s ≡ (ok a, s')
    → f a s' ≡ r
    → (m >>= f) s ≡ r
bind-eq {S = S} {A = A} {B = B} m f s s' a r h k =
    ap
      (λ (p : Result A × S). elim p.0 as (λ _. Result B × S) [
        | ok x ↦ f x p.1
        | err e ↦ (err e, p.1)
      ])
      h
    ∙ k

-- An action whose first part raises.
pub bind-err {ℓ} :
    {S A B : Type ℓ} (m : Action S A) (f : A → Action S B) (s s' : S) (e : PyError)
    → m s ≡ (err e, s')
    → (m >>= f) s ≡ (err e, s')
bind-err {S = S} {A = A} {B = B} m f s s' e h =
    ap
      (λ (p : Result A × S). elim p.0 as (λ _. Result B × S) [
        | ok x ↦ f x p.1
        | err x ↦ (err x, p.1)
      ])
      h
