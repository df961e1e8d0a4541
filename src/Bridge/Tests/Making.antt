-- ===== src/Bridge/Tests/Making.antt =====
-- Configurations and contracts, checked and used.
use trustlines_blockchain.Prelude.{
  ℕ, ◌+◌, ◌*◌, ◌≤◌, ◌<◌, ◌≡◌, ◌≢◌, ◌↔◌, refl, String, true, false, not, Option, some, none, List,
  [], ◌∷◌, arith, ok, leb, All, is_some, length,
}
use trustlines_blockchain.Prelude.Int.{pos, ◌≤ℤ◌}
use trustlines_blockchain.Prelude.Classes.{Bytes}
use trustlines_blockchain.Bridge.NodeStatus.{NodeStatus}
use trustlines_blockchain.Bridge.Fetcher.{EventFetcher}
use trustlines_blockchain.Bridge.Sender.{ConfirmationSender, make_sanity_check_transfer}
use trustlines_blockchain.Bridge.Contracts.{Description, validate_contract_existence}
use trustlines_blockchain.Bridge.Contracts.Supported.{IsSupported, validate_contract_existence_iff}
use trustlines_blockchain.Bridge.Config.{
  ConfigLib, text, ChainInput, HomeInput, ChainConfig, HomeConfig, PrivateKeyConfig,
  WebserviceConfig, KeyFiles, deserialize_private_key, validate_private_key,
  get_validator_private_key, key_from_keystore, load_chain, load_home_chain, non_negative,
  pending_per_block, required_url, required_address, deserialize_address, validate_webservice,
}
use trustlines_blockchain.Bridge.Config.Checked.{
  KeyGiven, deserialize_private_key_iff, get_validator_private_key_lem,
}
use trustlines_blockchain.Bridge.Setup.{
  AddressLib, HomeAnswers, make_confirmation_sender, Config, get_max_pending_transactions,
  make_transfer_event_fetcher, make_webservice, wait_for_node_fully_synced,
}
use trustlines_blockchain.Bridge.Setup.Made.{
  max_pending_bounds, make_confirmation_sender_lem, make_webservice_lem,
  wait_for_node_fully_synced_lem,
}

abbrev pub key : Bytes
key =
    1 ∷ 2 ∷ 3 ∷ 4 ∷ 5 ∷ 6 ∷ 7 ∷ 8 ∷ 9 ∷ 10 ∷ 11 ∷ 12 ∷ 13 ∷ 14 ∷ 15 ∷ 16 ∷ 17 ∷ 18 ∷ 19 ∷ 20 ∷ 21
    ∷ 22 ∷ 23 ∷ 24 ∷ 25 ∷ 26 ∷ 27 ∷ 28 ∷ 29 ∷ 30 ∷ 31 ∷ 32 ∷ []

abbrev lib : ConfigLib
lib = record {
  is_checksum_address = λ s. true;
  to_canonical_address = λ s. [];
  is_hex = λ s. true;
  is_0x_prefixed = λ s. true;
  decode_hex = λ s. ok key;
  big_endian_to_int = λ b. length b;
  secpk1_n = 100;
  is_url = λ s. true;
}

deserialize_private_key_iff_example : (deserialize_private_key lib (text "0x01") ≡ ok key) ↔ (
    (s : String) × (text "0x01" ≡ text s)
    × (lib.is_hex s ≡ true)
    × (lib.is_0x_prefixed s ≡ true)
    × (lib.decode_hex s ≡ ok key)
    × (length key ≡ 32)
    × (0 < lib.big_endian_to_int key)
    × (lib.big_endian_to_int key < lib.secpk1_n))
deserialize_private_key_iff_example = deserialize_private_key_iff lib (text "0x01") key

abbrev pub keystore : PrivateKeyConfig
keystore = record {
  raw = none;
  keystore_path = some "key.json";
  keystore_password_path = some "password.txt";
}

abbrev pub files : KeyFiles
files = record { is_readable = λ p. true; first_line = λ p. "secret"; extract_key = λ p w. ok key }

get_validator_private_key_lem_example : KeyGiven files keystore
get_validator_private_key_lem_example =
    get_validator_private_key_lem files keystore (unfold validate_private_key in refl)

abbrev chain_input : ChainInput
chain_input = record {
  rpc_url = some "http://localhost:8545";
  rpc_timeout = none;
  bridge_contract_address = some (text "0xbb");
  max_reorg_depth = some (pos 60);
  event_poll_interval = none;
  event_fetch_start_block_number = none;
}

abbrev home_input : HomeInput
home_input = record {
  chain = chain_input;
  gas_price = none;
  minimum_validator_balance = none;
  balance_warn_poll_interval = none;
  max_pending_transactions_per_block = some (pos 9);
}

abbrev pub chain_config : ChainConfig
chain_config = record {
  rpc_url = "http://localhost:8545";
  rpc_timeout = 180;
  bridge_contract_address = [];
  max_reorg_depth = 60;
  event_poll_interval = 5;
  event_fetch_start_block_number = 0;
}

abbrev pub home_config : HomeConfig
home_config = record {
  chain = chain_config;
  gas_price = 10_000_000_000;
  minimum_validator_balance = 40_000_000_000_000_000;
  balance_warn_poll_interval = 60;
  max_pending_transactions_per_block = 9;
}

loaded : load_home_chain lib 1 home_input ≡ ok home_config
unfolding load_home_chain load_chain non_negative pending_per_block required_url required_address
    deserialize_address
loaded = refl

max_pending_bounds_example :
    (1 ≤ get_max_pending_transactions home_config)
    × (get_max_pending_transactions home_config ≤ 512)
    × (get_max_pending_transactions home_config
        ≤ (home_config.chain.max_reorg_depth + 1) * home_config.max_pending_transactions_per_block)
max_pending_bounds_example = max_pending_bounds lib 1 home_input home_config loaded

abbrev pub webservice : WebserviceConfig
webservice = record { enabled = true; host = some "0.0.0.0"; port = some 5000 }

make_webservice_lem_example :
    (r : Option (String × ℕ)) × (make_webservice webservice ≡ ok r)
    × (is_some r ≡ webservice.enabled)
make_webservice_lem_example = make_webservice_lem webservice (unfold validate_webservice in refl)

abbrev pub config : Config
config = record {
  foreign_chain = record { chain = chain_config; token_contract_address = [] };
  home_chain = home_config;
  validator_private_key = keystore;
  webservice = webservice;
}

abbrev statuses : ℕ → NodeStatus
statuses t = record {
  is_syncing = not (leb 3 t);
  block_number = t;
  latest_synced_block = pos t;
  syncing_map = none;
  client_version = "Geth";
  is_light_node = none;
  block_gap = none;
  timestamp = pos t;
}

wait_for_node_fully_synced_lem_example :
    (n : ℕ) × (wait_for_node_fully_synced 9 statuses 5 ≡ some (statuses n))
    × (n ≤ 7)
    × ((statuses n).is_syncing ≡ false)
    × (pos 5 ≤ℤ (statuses n).latest_synced_block)
wait_for_node_fully_synced_lem_example =
    wait_for_node_fully_synced_lem 9 7 5 statuses (omega arith) refl (omega arith)

abbrev abi : List Description
abi =
    record { type_of = some "constructor"; signature = "constructor()" }
    ∷ record { type_of = none; signature = "isValidator(address)" }
    ∷ record { type_of = some "event"; signature = "Confirmation(bytes32)" }
    ∷ []

abbrev hash_of : String → Bytes
hash_of s = 7 ∷ 8 ∷ 9 ∷ 10 ∷ 11 ∷ []

abbrev contract_code : Bytes
contract_code = 1 ∷ 7 ∷ 8 ∷ 9 ∷ 10 ∷ 11 ∷ 2 ∷ []

validate_contract_existence_iff_example :
    (validate_contract_existence hash_of contract_code abi ≡ ok tt)
    ↔ ((contract_code ≢ []) × All (IsSupported hash_of contract_code) abi)
validate_contract_existence_iff_example = validate_contract_existence_iff hash_of contract_code abi

abbrev pub addresses : AddressLib
addresses = record {
  to_checksum_address = λ b. "0xbb";
  is_checksum_address = λ s. true;
  is_canonical_address = λ b. true;
  address_of = λ b. b;
}

abbrev pub home : HomeAnswers
home = record { contracts_pass = ok tt; chain_id = 17; client_version = "Geth" }

abbrev made_sender : ConfirmationSender
made_sender = record {
  private_key = key;
  gas_price = 10_000_000_000;
  chain_id = 17;
  is_parity = false;
  foreign_bridge_contract_address = "0xbb";
  transfer_event_queue = [];
  pending_transaction_queue = [];
  calls = 0;
}

makes_sender : make_confirmation_sender addresses files home config ≡ ok made_sender
unfolding make_confirmation_sender get_validator_private_key key_from_keystore
    make_sanity_check_transfer
makes_sender = refl

make_confirmation_sender_lem_example :
    (f : EventFetcher) × (bridge : Bytes) × (make_transfer_event_fetcher config ≡ ok f)
    × (f.filter_definition ≡ ("Transfer", ("to", bridge) ∷ []) ∷ [])
    × (made_sender.foreign_bridge_contract_address ≡ addresses.to_checksum_address bridge)
    × (get_validator_private_key files config.validator_private_key ≡ ok made_sender.private_key)
    × (home.contracts_pass ≡ ok tt)
make_confirmation_sender_lem_example =
    make_confirmation_sender_lem addresses files home config made_sender makes_sender
