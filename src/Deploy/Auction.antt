-- ===== src/Deploy/Auction.antt =====
-- deploy-tools/auction-deploy/src/auction_deploy/core.py, and the command `deploy` of cli.py: deploys
-- the locker, the slasher and the auction, or goes on with those that are there, and links them.
pub mod Linked
use trustlines_blockchain.Prelude.{
  ℕ, ◌*◌, String, Bool, true, false, not, ◌&&◌, Option, none, some, List, [], ◌∷◌, ◌++◌, Result, ok,
  err, value_error, runtime_error, bad_parameter, bad_option_usage, Action, ◌>>=◌, ◌>>◌, pure,
  raise, raise_if, lift, and_then, is_some, if◌then◌else◌,
}
use trustlines_blockchain.Prelude.Classes.{string_eq, ◌==◌}

pub record AuctionOptions : Type 0 where
  pub start_price : ℕ
  pub auction_duration : ℕ
  pub minimal_number_of_participants : ℕ
  pub maximal_number_of_participants : ℕ
  pub release_timestamp : ℕ
  pub token_address : Option String

pub record DeployedAuctionContracts : Type 0 where
  pub locker : String
  pub slasher : Option String
  pub auction : String

pub record DeployedContractsAddresses : Type 0 where
  pub locker : Option String
  pub slasher : Option String
  pub auction : Option String

abbrev pub zero_address : String
zero_address = "0x0000000000000000000000000000000000000000"

-- The chain and the package deploy_tools: a chain of type `W` answers calls, and a transaction with
-- options of type `O` succeeds with a new chain or raises. `increase` raises the options' nonce.
pub record AuctionChain (W O : Type 0) : Type 0 where
  pub increase : O → O
  pub new_locker : Bool → O → W → Result (String × W)
  pub new_slasher : O → W → Result (String × W)
  pub new_auction : AuctionOptions → String → O → W → Result (String × W)
  pub init_locker : String → ℕ → String → String → Option String → O → W → Result W
  pub init_slasher : String → String → O → W → Result W
  pub locker_initialized : W → String → Bool
  pub depositors_proxy : W → String → String
  pub locker_slasher : W → String → String
  pub slasher_initialized : W → String → Bool
  pub deposit_contract : W → String → String
  pub deposit_locker : W → String → String

pub record DeployState (W O : Type 0) : Type 0 where
  pub chain : W
  pub options : O

-- What `get_errors_messages_on_contracts_links` can report.
pub data LinkError : Type 0 where
  locker_in_auction auction_in_locker slasher_in_locker locker_in_slasher : LinkError

abbrev pub message_unless : Bool → LinkError → List LinkError
message_unless true e = []
message_unless false e = e ∷ []

module _ {W O : Type 0} (api : AuctionChain W O) where
  -- A transaction, with the nonce raised after it.
  unfoldable pub transact : (O → W → Result W) → Action (DeployState W O) (Unit {0})
  transact send s = elim (send s.options s.chain) [
    | err x ↦ (err x, s)
    | ok w ↦ (ok tt, record { chain = w; options = api.increase s.options })
  ]

  unfoldable pub deploy_contract : (O → W → Result (String × W)) → Action (DeployState W O) String
  deploy_contract send s = elim (send s.options s.chain) [
    | err x ↦ (err x, s)
    | ok (address, w) ↦ (ok address, record { chain = w; options = api.increase s.options })
  ]

  -- The contract that is there, or a new one.
  unfoldable pub resume_or_deploy :
      Option String → (O → W → Result (String × W)) → Action (DeployState W O) String
  resume_or_deploy (some address) send = pure address
  resume_or_deploy none send = deploy_contract send

  unfoldable pub deploy_auction_contracts :
      AuctionOptions
      → DeployedContractsAddresses
      → Action (DeployState W O) DeployedAuctionContracts
  deploy_auction_contracts auction_options already =
      raise_if (is_some already.auction && not (is_some already.locker)) value_error
      >> (resume_or_deploy already.locker (api.new_locker (is_some auction_options.token_address))
          >>= λ locker. resume_or_deploy already.slasher api.new_slasher >>= λ slasher.
              resume_or_deploy already.auction (api.new_auction auction_options locker)
              >>= λ auction.
                  pure (record { locker = locker; slasher = some slasher; auction = auction }))

  unfoldable pub initialize_locker :
      DeployedAuctionContracts → String → ℕ → Option String → Action (DeployState W O) (Unit {0})
  initialize_locker c slasher release_timestamp token_address s =
      if not (api.locker_initialized s.chain c.locker)
      then transact (api.init_locker c.locker release_timestamp slasher c.auction token_address) s
      else if not (api.depositors_proxy s.chain c.locker == c.auction)
      then (err value_error, s)
      else if not (api.locker_slasher s.chain c.locker == slasher)
      then (err value_error, s)
      else (ok tt, s)

  unfoldable pub initialize_slasher :
      DeployedAuctionContracts → String → Action (DeployState W O) (Unit {0})
  initialize_slasher c slasher s =
      if not (api.slasher_initialized s.chain slasher)
      then transact (api.init_slasher slasher c.locker) s
      else if not (api.deposit_contract s.chain slasher == c.locker)
      then (err value_error, s)
      else (ok tt, s)

  unfoldable pub check_auction : DeployedAuctionContracts → Action (DeployState W O) (Unit {0})
  check_auction c s =
      if not (api.deposit_locker s.chain c.auction == c.locker)
      then (err value_error, s)
      else (ok tt, s)

  unfoldable pub initialize_with :
      DeployedAuctionContracts
      → ℕ
      → Option String
      → Option String
      → Action (DeployState W O) (Unit {0})
  initialize_with c release_timestamp token_address none = raise runtime_error
  initialize_with c release_timestamp token_address (some slasher) =
      initialize_locker c slasher release_timestamp token_address
      >> (initialize_slasher c slasher >> check_auction c)

  unfoldable pub initialize_auction_contracts :
      DeployedAuctionContracts → ℕ → Option String → Action (DeployState W O) (Unit {0})
  initialize_auction_contracts c release_timestamp token_address =
      initialize_with c release_timestamp token_address c.slasher

  unfoldable pub get_deployed_auction_contracts : W → String → DeployedAuctionContracts
  get_deployed_auction_contracts w auction_address =
      let locker = api.deposit_locker w auction_address in
      let slasher_address = api.locker_slasher w locker in
      record {
        locker = locker;
        slasher = if slasher_address == zero_address then none else some slasher_address;
        auction = auction_address;
      }

  unfoldable pub get_errors_messages_on_contracts_links :
      W → DeployedAuctionContracts → List LinkError
  get_errors_messages_on_contracts_links w c =
      let locker_in_slasher_contract : String = elim c.slasher [
        | none ↦ zero_address
        | some slasher ↦ api.deposit_contract w slasher
      ] in
      let slasher_address : String = elim c.slasher [
        | none ↦ zero_address
        | some slasher ↦ slasher
      ] in
      message_unless (api.deposit_locker w c.auction == c.locker) locker_in_auction
      ++ message_unless (api.depositors_proxy w c.locker == c.auction) auction_in_locker
      ++ message_unless (api.locker_slasher w c.locker == slasher_address) slasher_in_locker
      ++ message_unless (locker_in_slasher_contract == c.locker) locker_in_slasher

-- The one release time of the two options.
unfoldable pub release_time : Option ℕ → Option ℕ → Result ℕ
release_time (some release_date) none = ok release_date
release_time none (some release_timestamp) = ok release_timestamp
release_time _ _ = err bad_parameter

-- The options of the command `deploy` that exclude or need one another; the result is the release
-- time. A date is given by its timestamp.
unfoldable pub check_deploy_options :
    Bool → Option String → Option ℕ → Option ℕ → DeployedContractsAddresses → Result ℕ
check_deploy_options use_token token_address release_timestamp release_date already =
    if use_token && not (is_some token_address)
    then err bad_parameter
    else if is_some token_address && not use_token
    then err bad_parameter
    else and_then (release_time release_date release_timestamp) λ time.
      if is_some already.auction && not (is_some already.locker)
      then err bad_option_usage
      else ok time

abbrev pub eth_in_wei : ℕ
eth_in_wei = 1_000_000_000_000_000_000

-- The arguments of the command `deploy`.
pub record DeployArguments : Type 0 where
  pub start_price : ℕ
  pub auction_duration : ℕ
  pub minimal_number_of_participants : ℕ
  pub maximal_number_of_participants : ℕ
  pub use_token : Bool
  pub token_address : Option String
  pub release_timestamp : Option ℕ
  pub release_date : Option ℕ
  pub already_deployed : DeployedContractsAddresses

module _ {W O : Type 0} (api : AuctionChain W O) where
  unfoldable pub deploy_and_initialize :
      DeployArguments → ℕ → Action (DeployState W O) DeployedAuctionContracts
  deploy_and_initialize a release_timestamp =
      deploy_auction_contracts api
        (record {
          start_price = a.start_price * eth_in_wei;
          auction_duration = a.auction_duration;
          minimal_number_of_participants = a.minimal_number_of_participants;
          maximal_number_of_participants = a.maximal_number_of_participants;
          release_timestamp = release_timestamp;
          token_address = a.token_address;
        })
        a.already_deployed
      >>= λ contracts.
          initialize_auction_contracts api contracts release_timestamp a.token_address
          >> pure contracts

  -- The command `deploy`, from its checks on, with the warnings that it prints.
  unfoldable pub deploy :
      DeployArguments → Action (DeployState W O) (DeployedAuctionContracts × List LinkError)
  deploy a =
      lift (
        check_deploy_options a.use_token a.token_address a.release_timestamp a.release_date
          a.already_deployed)
      >>= λ release_timestamp. deploy_and_initialize a release_timestamp >>= λ contracts s.
          (ok (contracts, get_errors_messages_on_contracts_links api s.chain contracts), s)
