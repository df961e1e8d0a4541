-- ===== src/Bridge/Contracts/Supported.antt =====
-- Exactly the contracts whose code has every function and event of the ABI are accepted.
use trustlines_blockchain.Prelude.{
  ℕ, ◌≡◌, refl, sym, String, true, List, [], ◌∷◌, Result, ok, All, ◌≢◌, ◌↔◌, ◌⊎◌, inl, inr,
  Bool-cases, Option-cases, none, some, false, arith, and_then,
}
use trustlines_blockchain.Prelude.Slices.{take}
use trustlines_blockchain.Prelude.Classes.{Bytes, string_eq, ◌==◌}
use trustlines_blockchain.Bridge.Contracts.{
  Description, description_type, is_part, selector, is_skipped, validate_description, validate_abi,
  validate_contract_existence, as_setup_error, sanity_check_home_bridge_contracts,
}
use trustlines_blockchain.Bridge.Contracts.Parts.{IsPart, IsPart-iff}

-- What the code has to contain for one entry of the ABI: nothing for a constructor or a fallback, the
-- first four bytes of the hash for a function, which is also what an entry without a type is, and the
-- hash for an event. No code supports an entry of another type.
pub data IsSupported (keccak : String → Bytes) (code : Bytes) (d : Description) : Type 0 where
  constructor_skipped : d.type_of ≡ some "constructor" → IsSupported keccak code d
  fallback_skipped : d.type_of ≡ some "fallback" → IsSupported keccak code d
  has_untyped :
      d.type_of ≡ none → IsPart (take 4 (keccak d.signature)) code → IsSupported keccak code d
  has_function :
      d.type_of ≡ some "function"
      → IsPart (take 4 (keccak d.signature)) code
      → IsSupported keccak code d
  has_event :
      d.type_of ≡ some "event" → IsPart (keccak d.signature) code → IsSupported keccak code d

selector-take : (h : Bytes) → selector h ≡ take 4 h
unfolding take
selector-take [] = refl
selector-take (a ∷ []) = refl
selector-take (a ∷ b ∷ []) = refl
selector-take (a ∷ b ∷ c ∷ []) = refl
selector-take (a ∷ b ∷ c ∷ d ∷ rest) = refl

-- The type of an entry, which is a function's where none is given.
typed_function :
    (d : Description)
    → description_type d ≡ "function"
    → (d.type_of ≡ none) ⊎ (d.type_of ≡ some "function")
unfolding description_type
typed_function d h = elim (Option-cases d.type_of) [
  | inl e ↦ inl e
  | inr (u, e) ↦ inr (ground (arith, h, e))
]

typed_otherwise :
    (d : Description) (t : String)
    → description_type d ≡ t
    → (t == "function") ≡ false
    → d.type_of ≡ some t
unfolding description_type
typed_otherwise d t h other = elim (Option-cases d.type_of) [
  | inl e ↦ absurd (ground (arith, h, e, other, (string_eq.beq_iff t "function").1))
  | inr (u, e) ↦ ground (arith, h, e)
]

and_then-first : (r q : Result (Unit {0})) → and_then r (λ _. q) ≡ ok tt → r ≡ ok tt
and_then-first r q h = ground arith

and_then-second : (r q : Result (Unit {0})) → and_then r (λ _. q) ≡ ok tt → q ≡ ok tt
and_then-second r q h = ground arith

module _ (keccak : String → Bytes) where
  function_found :
      (code : Bytes) (d : Description)
      → description_type d ≡ "function"
      → IsPart (take 4 (keccak d.signature)) code
      → validate_description keccak code d ≡ ok tt
  unfolding validate_description is_skipped
  function_found code d f p =
      let found = (IsPart-iff (take 4 (keccak d.signature)) code).1 p in
      rw (validate_description, f, selector-take (keccak d.signature), found) refl

  supported :
      (code : Bytes) (d : Description)
      → IsSupported keccak code d
      → validate_description keccak code d ≡ ok tt
  unfolding validate_description is_skipped description_type
  supported code d (IsSupported.constructor_skipped e) =
      rw (validate_description, description_type, e) refl
  supported code d (IsSupported.fallback_skipped e) =
      rw (validate_description, description_type, e) refl
  supported code d (IsSupported.has_untyped e p) =
      function_found code d (rw (description_type, e) refl) p
  supported code d (IsSupported.has_function e p) =
      function_found code d (rw (description_type, e) refl) p
  supported code d (IsSupported.has_event e p) =
      rw (validate_description, description_type, e, (IsPart-iff (keccak d.signature) code).1 p)
        refl

  skipped-IsSupported :
      (code : Bytes) (d : Description)
      → is_skipped (description_type d) ≡ true
      → IsSupported keccak code d
  unfolding is_skipped
  skipped-IsSupported code d s =
      let t = description_type d in
      elim (Bool-cases (t == "constructor")) [
        | inl c ↦
            IsSupported.constructor_skipped
              (typed_otherwise d "constructor" ((string_eq.beq_iff t "constructor").0 c) refl)
        | inr n ↦
            let fallback : (t == "fallback") ≡ true = rw n at s in
            IsSupported.fallback_skipped
              (typed_otherwise d "fallback" ((string_eq.beq_iff t "fallback").0 fallback) refl)
      ]

  function-IsSupported :
      (code : Bytes) (d : Description)
      → description_type d ≡ "function"
      → is_part (selector (keccak d.signature)) code ≡ true
      → IsSupported keccak code d
  function-IsSupported code d f h =
      let found =
        (IsPart-iff (take 4 (keccak d.signature)) code).0
          (rw (sym (selector-take (keccak d.signature))) h) in
      elim (typed_function d f) [
        | inl e ↦ IsSupported.has_untyped e found
        | inr e ↦ IsSupported.has_function e found
      ]

  event-IsSupported :
      (code : Bytes) (d : Description)
      → description_type d ≡ "event"
      → is_part (keccak d.signature) code ≡ true
      → IsSupported keccak code d
  event-IsSupported code d f h =
      IsSupported.has_event (typed_otherwise d "event" f refl)
        ((IsPart-iff (keccak d.signature) code).0 h)

  description_iff :
      (code : Bytes) (d : Description)
      → (validate_description keccak code d ≡ ok tt) ↔ IsSupported keccak code d
  unfolding validate_description
  description_iff code d = (
    λ h. elim (Bool-cases (is_skipped (description_type d))) [
      | inl s ↦ skipped-IsSupported code d s
      | inr s ↦ elim (Bool-cases (description_type d == "function")) [
        | inl f ↦
            function-IsSupported code d ((string_eq.beq_iff (description_type d) "function").0 f)
              (ground arith)
        | inr f ↦ elim (Bool-cases (description_type d == "event")) [
          | inl e ↦
              event-IsSupported code d ((string_eq.beq_iff (description_type d) "event").0 e)
                (ground arith)
          | inr e ↦ absurd (ground arith)
        ]
      ]
    ],
    λ s. supported code d s,
  )

  abi_iff :
      (code : Bytes) (abi : List Description)
      → (validate_abi keccak code abi ≡ ok tt) ↔ All (IsSupported keccak code) abi
  unfolding validate_abi
  abi_iff code [] = (λ h. tt, λ h. refl)
  abi_iff code (d ∷ abi) = (
    λ h. (
      (description_iff code d).0 (and_then-first _ _ h),
      (abi_iff code abi).0 (and_then-second _ _ h),
    ),
    λ (here, there).
        rw (validate_abi, (description_iff code d).1 here) ((abi_iff code abi).1 there),
  )

  -- A contract is accepted exactly if there is code at its address and, for each entry of the ABI,
  -- the entry is a constructor or fallback, or a function, or an entry without a type, and the first
  -- four bytes of the hash of its signature are in the code, or an event whose whole hash is.
  pub validate_contract_existence_iff :
      (code : Bytes) (abi : List Description)
      → (validate_contract_existence keccak code abi ≡ ok tt)
        ↔ ((code ≢ []) × All (IsSupported keccak code) abi)
  unfolding validate_contract_existence
  validate_contract_existence_iff [] abi = (λ h. absurd (ground arith), λ (h, _). absurd (h refl))
  validate_contract_existence_iff (x ∷ xs) abi =
      (λ h. (λ e. ground arith, (abi_iff (x ∷ xs) abi).0 h), λ (_, h). (abi_iff (x ∷ xs) abi).1 h)

  -- The bridge's contracts pass exactly if both are accepted and the bridge has funds.
  sanity_iff :
      (code : Bytes) (abi : List Description) (proxy_code : Bytes) (proxy_abi : List Description)
      (balance : ℕ)
      → (sanity_check_home_bridge_contracts keccak code abi proxy_code proxy_abi balance ≡ ok tt)
        ↔ ((validate_contract_existence keccak code abi ≡ ok tt)
            × (validate_contract_existence keccak proxy_code proxy_abi ≡ ok tt)
            × (balance ≢ 0))
  unfolding sanity_check_home_bridge_contracts as_setup_error
  sanity_iff code abi proxy_code proxy_abi balance =
      (λ h. (ground arith, ground arith, λ z. ground arith), λ (a, b, c). ground arith)
