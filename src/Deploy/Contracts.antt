-- ===== src/Deploy/Contracts.antt =====
-- deploy-tools: the commands `deploy` and `deploy_proxy` of validator-set-deploy and `deploy_foreign`
-- and `deploy_home` of bridge-deploy, with the functions of core.py that they call.
pub mod Nonces
use trustlines_blockchain.Prelude.{
  ℕ, String, Bool, true, false, ◌&&◌, not, Option, none, some, List, [], Result, ok, err,
  bad_parameter, Action, ◌>>=◌, ◌>>◌, pure, lift, leb, if◌then◌else◌,
}
use trustlines_blockchain.Prelude.Int.{ℤ, pos, negsuc}
use trustlines_blockchain.Prelude.Classes.{string_eq, ◌==◌}

-- A compiled contract with the arguments of its constructor.
pub data Creation : Type 0 where
  validator_set : Creation
  validator_proxy : (validators : List String) → Creation
  foreign_bridge : (token_contract_address : String) → Creation
  home_bridge :
      (validator_proxy_contract_address : String) (validators_required_percent : ℕ) → Creation

-- The package deploy_tools and the chain: keys of type `K`, transaction options of type `O` and a
-- chain of type `W`. A transaction succeeds with a new chain or raises.
pub record DeployTools (W O K : Type 0) : Type 0 where
  pub connect_to_json_rpc : String → Result (Unit {0})
  pub retrieve_private_key : Option String → Result K
  pub get_nonce : Option ℕ → Bool → K → W → Result (Option ℕ)
  pub build_transaction_options : Option ℕ → Option ℕ → Option ℕ → O
  pub read_addresses_in_csv : String → Result (List String)
  pub validate_and_format_address : String → Option String
  pub deploy_compiled_contract : Creation → O → K → W → Result (String × W)
  pub send_init : String → List String → String → O → K → W → Result W
  pub block_number : W → ℕ

-- The options that the commands share.
pub record TransactionArguments : Type 0 where
  pub keystore : Option String
  pub jsonrpc : String
  pub gas : Option ℕ
  pub gas_price : Option ℕ
  pub nonce : Option ℕ
  pub auto_nonce : Bool

unfoldable pub validate_percentage_value : ℤ → Result ℕ
validate_percentage_value (pos n) = if leb n 100 then ok n else err bad_parameter
validate_percentage_value (negsuc n) = err bad_parameter

module _ {W O K : Type 0} (tools : DeployTools W O K) where
  unfoldable pub validate_address : String → Result String
  validate_address value = elim (tools.validate_and_format_address value) [
    | none ↦ err bad_parameter
    | some address ↦ ok address
  ]

  unfoldable pub transaction_options : TransactionArguments → K → Action W O
  transaction_options a private_key w = elim (tools.get_nonce a.nonce a.auto_nonce private_key w) [
    | err x ↦ (err x, w)
    | ok nonce ↦ (ok (tools.build_transaction_options a.gas a.gas_price nonce), w)
  ]

  unfoldable pub send_creation : Creation → O → K → Action W String
  send_creation contract options private_key w =
      elim (tools.deploy_compiled_contract contract options private_key w) [
        | err x ↦ (err x, w)
        | ok (address, w') ↦ (ok address, w')
      ]

  unfoldable pub deploy_validator_set_contract : O → K → Action W String
  deploy_validator_set_contract = send_creation validator_set

  unfoldable pub deploy_validator_proxy_contract : List String → O → K → Action W String
  deploy_validator_proxy_contract validators = send_creation (validator_proxy validators)

  unfoldable pub deploy_foreign_bridge_contract : String → O → K → Action W String
  deploy_foreign_bridge_contract token_contract_address =
      send_creation (foreign_bridge token_contract_address)

  unfoldable pub deploy_home_bridge_contract : String → ℕ → O → K → Action W String
  deploy_home_bridge_contract validator_proxy_contract_address validators_required_percent =
      send_creation (home_bridge validator_proxy_contract_address validators_required_percent)

  unfoldable pub initialize_validator_set_contract :
      String → List String → String → O → K → Action W (Unit {0})
  initialize_validator_set_contract address validators proxy options private_key w =
      elim (tools.send_init address validators proxy options private_key w) [
        | err x ↦ (err x, w)
        | ok w' ↦ (ok tt, w')
      ]

  -- From the reading of the file on, with the options of the deployment.
  unfoldable pub initialize_from_file : String → String → String → O → K → Action W String
  initialize_from_file address validators_file proxy options private_key =
      lift (tools.read_addresses_in_csv validators_file) >>= λ validators.
      initialize_validator_set_contract address validators proxy options private_key >> pure address

  -- The command `deploy` from its first transaction on.
  unfoldable pub create_and_initialize : String → String → K → O → Action W String
  create_and_initialize validators_file validator_proxy_address private_key options =
      deploy_validator_set_contract options private_key >>= λ address.
      initialize_from_file address validators_file validator_proxy_address options private_key

  -- The command `deploy`, with the address that it prints; the address that it is given has passed
  -- `validate_address`.
  unfoldable pub deploy_validator_set : TransactionArguments → String → String → Action W String
  deploy_validator_set a validators_file validator_proxy_address =
      lift (tools.connect_to_json_rpc a.jsonrpc)
      >> (lift (tools.retrieve_private_key a.keystore) >>= λ private_key.
          transaction_options a private_key
          >>= create_and_initialize validators_file validator_proxy_address private_key)

  -- No file, or one with an empty name, stands for no validators.
  unfoldable pub validators_of : Option String → Result (List String)
  validators_of none = ok []
  validators_of (some validators_file) =
      if validators_file == "" then ok [] else tools.read_addresses_in_csv validators_file

  unfoldable pub deploy_proxy : TransactionArguments → Option String → Action W String
  deploy_proxy a validators_file =
      lift (tools.connect_to_json_rpc a.jsonrpc)
      >> (lift (tools.retrieve_private_key a.keystore) >>= λ private_key.
          lift (validators_of validators_file) >>= λ validators.
          transaction_options a private_key >>= λ options.
          deploy_validator_proxy_contract validators options private_key)

  -- A bridge with the block that is shown after it.
  unfoldable pub deploy_bridge :
      TransactionArguments → (O → K → Action W String) → Action W (String × ℕ)
  deploy_bridge a contract =
      lift (tools.connect_to_json_rpc a.jsonrpc)
      >> (lift (tools.retrieve_private_key a.keystore) >>= λ private_key.
          transaction_options a private_key >>= λ options.
          contract options private_key >>= λ address. λ w. (ok (address, tools.block_number w), w))

  unfoldable pub deploy_foreign : TransactionArguments → String → Action W (String × ℕ)
  deploy_foreign a token_address = lift (validate_address token_address) >>= λ address.
      deploy_bridge a (deploy_foreign_bridge_contract address)

  unfoldable pub deploy_home : TransactionArguments → String → ℤ → Action W (String × ℕ)
  deploy_home a validator_proxy_address validators_required_percent =
      lift (validate_address validator_proxy_address) >>= λ address.
      lift (validate_percentage_value validators_required_percent) >>= λ percent.
      deploy_bridge a (deploy_home_bridge_contract address percent)
