-- ===== src/Deploy/Contracts/Nonces.antt =====
-- What the nonces of deployments lead to.
use trustlines_blockchain.Prelude.{
  ℕ, suc, ◌≡◌, refl, String, Option, some, List, Result, ok, err, PyError, pure, bind-eq, bind-err,
  arith,
}
use trustlines_blockchain.Deploy.Contracts.{
  DeployTools, TransactionArguments, Creation, validator_set, deploy_validator_set_contract,
  transaction_options, send_creation, initialize_validator_set_contract, initialize_from_file,
  create_and_initialize, deploy_validator_set,
}

-- A chain that takes a transaction with a nonce only if it is the next one of the key's account,
-- which a deployment raises; `build_transaction_options` keeps the nonce that it is given.
pub record IsNonceChecked {W O K : Type 0} (tools : DeployTools W O K) : Type 0 where
  pub nonce_of : O → Option ℕ
  pub next : K → W → ℕ
  pub kept :
      (gas gas_price nonce : Option ℕ)
      → nonce_of (tools.build_transaction_options gas gas_price nonce) ≡ nonce
  pub create_nonce :
      (contract : Creation) (o : O) (k : K) (w w' : W) (address : String) (n : ℕ)
      → tools.deploy_compiled_contract contract o k w ≡ ok (address, w')
      → nonce_of o ≡ some n
      → (n ≡ next k w) × (next k w' ≡ suc n)
  pub init_nonce :
      (address : String) (validators : List String) (proxy : String) (o : O) (k : K) (w w' : W)
      (n : ℕ)
      → tools.send_init address validators proxy o k w ≡ ok w'
      → nonce_of o ≡ some n
      → n ≡ next k w

module _ {W O K : Type 0} (tools : DeployTools W O K) (checked : IsNonceChecked tools) where
  -- An initialisation with the nonce of the deployment raises, and leaves the chain alone.
  initialize_fails :
      (address : String) (validators : List String) (proxy : String) (o : O) (k : K) (w : W) (n : ℕ)
      → checked.nonce_of o ≡ some n
      → checked.next k w ≡ suc n
      → (x : PyError) × (initialize_validator_set_contract tools address validators proxy o k w
          ≡ (err x, w))
  unfolding initialize_validator_set_contract
  initialize_fails address validators proxy o k w n given next =
      go (tools.send_init address validators proxy o k w) refl
    where
      go :
          (r : Result W)
          → tools.send_init address validators proxy o k w ≡ r
          → (x : PyError) × (initialize_validator_set_contract tools address validators proxy o k w
              ≡ (err x, w))
      go (err x) h = (x, rw (initialize_validator_set_contract, h) refl)
      go (ok w') h =
          let same = checked.init_nonce address validators proxy o k w w' n h given in
          absurd (ground arith)

  initialize_from_file_fails :
      (address file proxy : String) (o : O) (k : K) (w : W) (n : ℕ)
      → checked.nonce_of o ≡ some n
      → checked.next k w ≡ suc n
      → (x : PyError) × (initialize_from_file tools address file proxy o k w ≡ (err x, w))
  unfolding initialize_from_file
  initialize_from_file_fails address file proxy o k w n given next =
      go (tools.read_addresses_in_csv file) refl
    where
      go :
          (r : Result (List String))
          → tools.read_addresses_in_csv file ≡ r
          → (x : PyError) × (initialize_from_file tools address file proxy o k w ≡ (err x, w))
      go (err x) h = (x, rw h refl)
      go (ok validators) h =
          let (x, fails) = initialize_fails address validators proxy o k w n given next in
          (
            x,
            rw (initialize_from_file, h)
                (bind-err (initialize_validator_set_contract tools address validators proxy o k)
                  (λ _. pure address) w w x fails),
          )

  -- Where the chain takes a transaction with a nonce only if it is the account's next one, the
  -- command `deploy` with a nonce, given or automatic, raises if its first transaction went through,
  -- and leaves the chain as after it: the validator set is there and is not initialised.
  pub deploy_nonce_reused :
      (a : TransactionArguments) (file proxy : String) (w w' : W) (k : K) (n : ℕ) (address : String)
      → tools.connect_to_json_rpc a.jsonrpc ≡ ok tt
      → tools.retrieve_private_key a.keystore ≡ ok k
      → tools.get_nonce a.nonce a.auto_nonce k w ≡ ok (some n)
      → tools.deploy_compiled_contract validator_set
          (tools.build_transaction_options a.gas a.gas_price (some n))
          k
          w
        ≡ ok (address, w')
      → (x : PyError) × (deploy_validator_set tools a file proxy w ≡ (err x, w'))
  unfolding deploy_validator_set create_and_initialize transaction_options send_creation
      deploy_validator_set_contract
  deploy_nonce_reused a file proxy w w' k n address connected key nonce created =
      let o = tools.build_transaction_options a.gas a.gas_price (some n) in
      let given = checked.kept a.gas a.gas_price (some n) in
      let next = (checked.create_nonce validator_set o k w w' address n created given).1 in
      let (x, fails) = initialize_from_file_fails address file proxy o k w' n given next in
      let options : transaction_options tools a k w ≡ (ok o, w) =
        rw (transaction_options, nonce) refl in
      let creation : send_creation tools validator_set o k w ≡ (ok address, w') =
        rw (send_creation, created) refl in
      let rest : create_and_initialize tools file proxy k o w ≡ (err x, w') =
        bind-eq (send_creation tools validator_set o k)
          (λ c. initialize_from_file tools c file proxy o k) w w' address (err x, w') creation
          fails in
      (
        x,
        rw (connected, key)
            (bind-eq (transaction_options tools a k) (create_and_initialize tools file proxy k) w w
              o (err x, w') options rest),
      )
