-- ===== src/Bridge/Setup.antt =====
-- bridge/src/bridge/main.py: how the services are made from the configuration.
-- `put` into the bounded queue of pending transactions waits while it is full; the queues of the
-- model take every element.
pub mod Made
pub mod Fetched
use text.Mathlib.Text.{starts_with}
use trustlines_blockchain.Prelude.{
  ℕ, ◌+◌, ◌*◌, String, Bool, true, false, not, ◌&&◌, Option, none, some, List, [], ◌∷◌, Result, ok,
  err, key_error, value_error, ◌||◌, leb, and_then, if◌then◌else◌,
}
use trustlines_blockchain.Prelude.Int.{ℤ, pos, leb_ℤ}
use trustlines_blockchain.Prelude.Classes.{Bytes}
use trustlines_blockchain.Bridge.Events.{
  ChainRole, transfer_event_name, confirmation_event_name, completion_event_name,
}
use trustlines_blockchain.Bridge.NodeStatus.{NodeStatus, wait_for_node_status}
use trustlines_blockchain.Bridge.Fetcher.{EventFetcher, make_fetcher}
use trustlines_blockchain.Bridge.Sender.{ConfirmationSender, make_sanity_check_transfer}
use trustlines_blockchain.Bridge.Watchers.{ConfirmationWatcher, ValidatorStatusWatcher}
use trustlines_blockchain.Bridge.Recorder.{TransferRecorder, init}
use trustlines_blockchain.Bridge.Config.{
  ForeignConfig, HomeConfig, PrivateKeyConfig, WebserviceConfig, KeyFiles,
  get_validator_private_key,
}

-- `ConfigSchema`
pub record Config : Type 0 where
  pub foreign_chain : ForeignConfig
  pub home_chain : HomeConfig
  pub validator_private_key : PrivateKeyConfig
  pub webservice : WebserviceConfig

unfoldable pub get_max_pending_transactions : HomeConfig → ℕ
get_max_pending_transactions c =
    let pending = (c.chain.max_reorg_depth + 1) * c.max_pending_transactions_per_block in
    if leb pending 512 then pending else 512

-- `to_canonical_address` of the key's public key is a function of eth_keys.
unfoldable pub make_validator_address : (Bytes → Bytes) → KeyFiles → Config → Result Bytes
make_validator_address address_of files c =
    and_then (get_validator_private_key files c.validator_private_key) λ k. ok (address_of k)

-- The default of `event_fetch_limit`.
abbrev event_fetch_limit : ℤ
event_fetch_limit = pos 950

unfoldable pub make_transfer_event_fetcher : Config → Result EventFetcher
make_transfer_event_fetcher c =
    make_fetcher ChainRole.foreign
      ((transfer_event_name, ("to", c.foreign_chain.chain.bridge_contract_address) ∷ []) ∷ [])
      event_fetch_limit (pos c.foreign_chain.chain.max_reorg_depth)
      (pos c.foreign_chain.chain.event_fetch_start_block_number)

unfoldable pub make_home_bridge_event_fetcher :
    (Bytes → Bytes) → KeyFiles → Config → Result EventFetcher
make_home_bridge_event_fetcher address_of files c =
    and_then (make_validator_address address_of files c) λ validator_address.
      make_fetcher ChainRole.home
        ((confirmation_event_name, ("validator", validator_address) ∷ [])
          ∷ (completion_event_name, [])
          ∷ [])
        event_fetch_limit (pos c.home_chain.chain.max_reorg_depth)
        (pos c.home_chain.chain.event_fetch_start_block_number)

unfoldable pub make_recorder : Config → TransferRecorder
make_recorder c = init (pos c.home_chain.minimum_validator_balance)

-- `make_webservice`, by the address that it serves at. `d and` is a test for an empty section, whose
-- `enabled` is False.
unfoldable pub make_webservice : WebserviceConfig → Result (Option (String × ℕ))
make_webservice d =
    if d.enabled
    then elim d.host [
      | none ↦ err key_error
      | some host ↦ elim d.port [ none ↦ err key_error | some port ↦ ok (some (host, port)) ]
    ]
    else ok none

unfoldable pub is_synced : ℕ → NodeStatus → Bool
is_synced start_block s = not s.is_syncing && leb_ℤ (pos start_block) s.latest_synced_block

-- `wait_for_node_fully_synced`, on the statuses that the node gives one after another.
unfoldable pub wait_for_node_fully_synced : ℕ → (ℕ → NodeStatus) → ℕ → Option NodeStatus
wait_for_node_fully_synced fuel statuses start_block =
    wait_for_node_status fuel statuses (is_synced start_block) 0

-- What the services ask of the home node while they are made: whether the bridge's contracts pass
-- `sanity_check_home_bridge_contracts`, its chain id and its client.
pub record HomeAnswers : Type 0 where
  pub contracts_pass : Result (Unit {0})
  pub chain_id : ℕ
  pub client_version : String

-- What is taken from eth_utils and eth_keys to make the sender.
pub record AddressLib : Type 0 where
  pub to_checksum_address : Bytes → String
  pub is_checksum_address : String → Bool
  pub is_canonical_address : Bytes → Bool
  pub address_of : Bytes → Bytes

unfoldable pub make_confirmation_sender :
    AddressLib → KeyFiles → HomeAnswers → Config → Result ConfirmationSender
make_confirmation_sender lib files home c = and_then home.contracts_pass λ _.
    and_then (get_validator_private_key files c.validator_private_key) λ k.
      and_then
        (make_sanity_check_transfer lib.is_checksum_address
          (lib.to_checksum_address c.foreign_chain.chain.bridge_contract_address))
        λ address. ok (record {
          private_key = k;
          gas_price = c.home_chain.gas_price;
          chain_id = home.chain_id;
          is_parity =
              starts_with home.client_version "Parity"
              || starts_with home.client_version "OpenEthereum";
          foreign_bridge_contract_address = address;
          transfer_event_queue = [];
          pending_transaction_queue = [];
          calls = 0;
        })

unfoldable pub make_confirmation_watcher : Config → ConfirmationWatcher
make_confirmation_watcher c = record {
  max_reorg_depth = pos c.home_chain.chain.max_reorg_depth;
  pending_transaction_queue = [];
  rounds = 0;
}

unfoldable pub make_validator_status_watcher :
    AddressLib → KeyFiles → HomeAnswers → Config → Result ValidatorStatusWatcher
make_validator_status_watcher lib files home c = and_then home.contracts_pass λ _.
    and_then (make_validator_address lib.address_of files c) λ validator_address.
      if lib.is_canonical_address validator_address
      then ok (record { control_queue = []; stopped = false; polls = 0 })
      else err value_error
