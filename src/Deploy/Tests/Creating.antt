-- ===== src/Deploy/Tests/Creating.antt =====
-- A chain that counts the transactions of one account, on which the contracts are created.
use trustlines_blockchain.Prelude.{
  ℕ, suc, ◌≡◌, refl, String, true, false, Option, none, some, [], ◌∷◌, Result, ok, err, PyError,
  nonce_too_low, bad_parameter, nat_eqb, arith, if◌then◌else◌,
}
use trustlines_blockchain.Prelude.Int.{pos, negsuc}
use trustlines_blockchain.Deploy.Contracts.{
  DeployTools, TransactionArguments, validate_percentage_value, validate_address,
  transaction_options, send_creation, initialize_validator_set_contract, initialize_from_file,
  create_and_initialize, deploy_validator_set, validators_of, deploy_proxy, deploy_bridge,
  deploy_foreign, deploy_home, deploy_validator_set_contract, deploy_validator_proxy_contract,
  deploy_foreign_bridge_contract, deploy_home_bridge_contract,
}
use trustlines_blockchain.Deploy.Contracts.Nonces.{IsNonceChecked, deploy_nonce_reused}

-- The count after a transaction with this nonce, if it is taken; the tools fill in a missing nonce.
unfoldable count_after : Option ℕ → ℕ → Result ℕ
count_after none w = ok (suc w)
count_after (some n) w = if nat_eqb n w then ok (suc w) else err nonce_too_low

unfoldable contract_at : Result ℕ → Result (String × ℕ)
contract_at (ok w) = ok ("contract", w)
contract_at (err x) = err x

abbrev tools : DeployTools ℕ (Option ℕ) (Unit {0})
tools = record {
  connect_to_json_rpc = λ url. ok tt;
  retrieve_private_key = λ keystore. ok tt;
  get_nonce = λ nonce auto key w. ok (if auto then some w else nonce);
  build_transaction_options = λ gas gas_price nonce. nonce;
  read_addresses_in_csv = λ file. ok ("alice" ∷ []);
  validate_and_format_address = λ address. some address;
  deploy_compiled_contract = λ contract o key w. contract_at (count_after o w);
  send_init = λ address validators proxy o key w. count_after o w;
  block_number = λ w. w;
}

count_after_lem :
    (o : Option ℕ) (w w' n : ℕ) → count_after o w ≡ ok w' → o ≡ some n → (n ≡ w) × (w' ≡ suc n)
unfolding count_after
count_after_lem none w w' n h e = absurd (ground arith)
count_after_lem (some m) w w' n h e = ground arith

abbrev arguments : TransactionArguments
arguments = record {
  keystore = none;
  jsonrpc = "http://localhost:8545";
  gas = none;
  gas_price = none;
  nonce = none;
  auto_nonce = true;
}

tools-IsNonceChecked : IsNonceChecked tools
unfolding contract_at
tools-IsNonceChecked = record {
  nonce_of = λ o. o;
  next = λ key w. w;
  kept = λ gas gas_price nonce. refl;
  create_nonce = λ contract o key w w' address n h e.
      count_after_lem o w w' n (counted (count_after o w) w' address h) e;
  init_nonce = λ address validators proxy o key w w' n h e. (count_after_lem o w w' n h e).0;
}
  where
    counted :
        (r : Result ℕ) (w' : ℕ) (address : String) → contract_at r ≡ ok (address, w') → r ≡ ok w'
    counted (ok w) w' address h = ground arith
    counted (err x) w' address h = absurd (ground arith)

-- Without a nonce both transactions go through.
deploys_without_nonce :
    deploy_validator_set tools (record arguments { auto_nonce = false }) "validators.csv" "proxy" 3
    ≡ (ok "contract", 5)
unfolding deploy_validator_set create_and_initialize initialize_from_file
    deploy_validator_set_contract send_creation transaction_options
    initialize_validator_set_contract count_after contract_at
deploys_without_nonce = refl

deploys_proxy : deploy_proxy tools arguments (some "") 3 ≡ (ok "contract", 4)
unfolding deploy_proxy validators_of deploy_validator_proxy_contract send_creation
    transaction_options count_after contract_at
deploys_proxy = refl

deploys_home : deploy_home tools arguments "proxy" (pos 100) 3 ≡ (ok ("contract", 4), 4)
unfolding deploy_home deploy_bridge validate_address validate_percentage_value
    deploy_home_bridge_contract send_creation transaction_options count_after contract_at
deploys_home = refl

deploys_foreign : deploy_foreign tools arguments "token" 3 ≡ (ok ("contract", 4), 4)
unfolding deploy_foreign deploy_bridge validate_address deploy_foreign_bridge_contract send_creation
    transaction_options count_after contract_at
deploys_foreign = refl

refuses_percentage : deploy_home tools arguments "proxy" (negsuc 0) 3 ≡ (err bad_parameter, 3)
unfolding deploy_home validate_address validate_percentage_value
refuses_percentage = refl

deploy_nonce_reused_example :
    (x : PyError) × (deploy_validator_set tools arguments "validators.csv" "proxy" 3 ≡ (err x, 4))
unfolding count_after contract_at
deploy_nonce_reused_example =
    deploy_nonce_reused tools tools-IsNonceChecked arguments "validators.csv" "proxy" 3 4 tt 3
      "contract" refl refl refl refl
