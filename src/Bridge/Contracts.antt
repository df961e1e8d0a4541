-- ===== src/Bridge/Contracts.antt =====
-- bridge/src/bridge/contract_validation.py: does a contract stand at an address, with the functions
-- and events of its ABI?
pub mod Parts
pub mod Supported
use trustlines_blockchain.Prelude.{
  ℕ, String, Bool, true, false, ◌&&◌, ◌||◌, Option, none, some, List, [], ◌∷◌, Result, ok, err,
  value_error, assertion_error, nat_eqb, if◌then◌else◌, setup_error, and_then,
}
use trustlines_blockchain.Prelude.Classes.{Bytes, string_eq, ◌==◌}

-- An entry of an ABI, with the signature that `abi_to_signature` gives it.
pub record Description : Type 0 where
  pub type_of : Option String
  pub signature : String

-- `description.get("type", "function")`
unfoldable pub description_type : Description → String
description_type d = elim d.type_of [ none ↦ "function" | some t ↦ t ]

unfoldable pub is_prefix : Bytes → Bytes → Bool
is_prefix [] code = true
is_prefix (x ∷ xs) [] = false
is_prefix (x ∷ xs) (y ∷ ys) = nat_eqb x y && is_prefix xs ys

-- Python's `part in code` on bytes.
unfoldable pub is_part : Bytes → Bytes → Bool
is_part part [] = is_prefix part []
is_part part (y ∷ ys) = is_prefix part (y ∷ ys) || is_part part ys

-- `h[:4]`
abbrev pub selector : Bytes → Bytes
selector (a ∷ b ∷ c ∷ d ∷ _) = a ∷ b ∷ c ∷ d ∷ []
selector short = short

unfoldable pub is_skipped : String → Bool
is_skipped t = t == "constructor" || t == "fallback"

-- `except ValueError: raise SetupError`
unfoldable pub as_setup_error : Result (Unit {0}) → Result (Unit {0})
as_setup_error (err value_error) = err setup_error
as_setup_error r = r

module _ (keccak : String → Bytes) where
  -- One round of the loop over the ABI.
  unfoldable pub validate_description : Bytes → Description → Result (Unit {0})
  validate_description contract_code d =
      let t = description_type d in
      let signature_hash = keccak d.signature in
      if is_skipped t
      then ok tt
      else if t == "function"
      then (if is_part (selector signature_hash) contract_code then ok tt else err value_error)
      else if t == "event"
      then (if is_part signature_hash contract_code then ok tt else err value_error)
      else err assertion_error

  unfoldable pub validate_abi : Bytes → List Description → Result (Unit {0})
  validate_abi contract_code [] = ok tt
  validate_abi contract_code (d ∷ abi) =
      and_then (validate_description contract_code d) λ _. validate_abi contract_code abi

  unfoldable pub validate_contract_existence : Bytes → List Description → Result (Unit {0})
  validate_contract_existence [] abi = err value_error
  validate_contract_existence (x ∷ xs) abi = validate_abi (x ∷ xs) abi

  -- `sanity_check_home_bridge_contracts` of main.py, on the codes of the bridge and of the validator
  -- proxy that it names, and on the bridge's balance.
  unfoldable pub sanity_check_home_bridge_contracts :
      Bytes → List Description → Bytes → List Description → ℕ → Result (Unit {0})
  sanity_check_home_bridge_contracts bridge_code bridge_abi proxy_code proxy_abi balance =
      and_then (validate_contract_existence bridge_code bridge_abi) λ _.
        and_then (as_setup_error (validate_contract_existence proxy_code proxy_abi))
          λ _. if nat_eqb balance 0 then err setup_error else ok tt
