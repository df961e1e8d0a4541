-- ===== src/Deploy/Whitelist.antt =====
-- deploy-tools/auction-deploy/src/auction_deploy/core.py: the whitelist of an auction.
pub mod Complete
use trustlines_blockchain.Prelude.{
  ℕ, zero, suc, ◌+◌, ◌-◌, String, Bool, true, false, not, Option, List, [], ◌∷◌, ◌++◌, Result, ok,
  err, assertion_error, Action, ltb, nat_eqb, length, if◌then◌else◌,
}
use trustlines_blockchain.Prelude.Slices.{take, drop}

-- The slices of `batch_size` addresses; as much fuel as there are addresses is enough.
unfoldable pub chunks : ℕ → ℕ → List String → List (List String)
chunks zero batch_size xs = []
chunks (suc fuel) batch_size [] = []
chunks (suc fuel) batch_size (x ∷ xs) =
    take batch_size (x ∷ xs) ∷ chunks fuel batch_size (drop batch_size (x ∷ xs))

-- The chain and the package deploy_tools, for one auction contract: see `AuctionChain`.
pub record WhitelistChain (W O : Type 0) : Type 0 where
  pub increase : O → O
  pub whitelist : W → String → Bool
  pub add_to_whitelist : List String → O → W → Result W

pub record WhitelistState (W O : Type 0) : Type 0 where
  pub chain : W
  pub options : O

-- `return len(filtered_whitelist)`, if nothing was raised before.
unfoldable pub counted {ℓ} : {S : Type ℓ} → ℕ → Result (Unit {0}) × S → Result ℕ × S
counted n (ok _, s) = (ok n, s)
counted n (err x, s) = (err x, s)

-- What `check_whitelist` prints.
pub data WhitelistReport : Type 0 where
  all_whitelisted : (addresses : ℕ) → WhitelistReport
  some_missing : (missing addresses : ℕ) → WhitelistReport

module _ {W O : Type 0} (api : WhitelistChain W O) where
  unfoldable pub missing_whitelisted_addresses : W → List String → List String
  missing_whitelisted_addresses w [] = []
  missing_whitelisted_addresses w (address ∷ addresses) =
      if api.whitelist w address
      then missing_whitelisted_addresses w addresses
      else address ∷ missing_whitelisted_addresses w addresses

  -- The loop over the chunks.
  unfoldable pub add_chunks : ℕ → List (List String) → Action (WhitelistState W O) (Unit {0})
  add_chunks batch_size [] s = (ok tt, s)
  add_chunks batch_size (chunk ∷ rest) s = elim (ltb batch_size (length chunk)) [
    | true ↦ (err assertion_error, s)
    | false ↦ elim (api.add_to_whitelist chunk s.options s.chain) [
      | err x ↦ (err x, s)
      | ok w ↦ add_chunks batch_size rest (record { chain = w; options = api.increase s.options })
    ]
  ]

  unfoldable pub whitelist_addresses : List String → ℕ → Action (WhitelistState W O) ℕ
  whitelist_addresses whitelist batch_size s =
      let filtered = missing_whitelisted_addresses s.chain whitelist in
      if not (ltb 0 batch_size)
      then (err assertion_error, s)
      else counted (length filtered)
          (add_chunks batch_size (chunks (length filtered) batch_size filtered) s)

  -- The command `whitelist` of cli.py, with the number that it prints; `read_addresses_in_csv` reads
  -- the file.
  unfoldable pub whitelist_command : Result (List String) → ℕ → Action (WhitelistState W O) ℕ
  whitelist_command (err x) batch_size s = (err x, s)
  whitelist_command (ok whitelist) batch_size s = whitelist_addresses whitelist batch_size s

  -- The command `check_whitelist` of cli.py: all addresses are whitelisted, or so many of so many not.
  unfoldable pub check_whitelist : W → Result (List String) → Result WhitelistReport
  check_whitelist w (err x) = err x
  check_whitelist w (ok whitelist) =
      let number_of_missing_addresses = length (missing_whitelisted_addresses w whitelist) in
      if nat_eqb number_of_missing_addresses 0
      then ok (all_whitelisted (length whitelist))
      else ok (some_missing number_of_missing_addresses (length whitelist))
