-- ===== src/Bridge/Config.antt =====
-- bridge/src/bridge/config.py: what the configuration has to be, and `get_validator_private_key` of
-- utils.py, which reads it. The fields of marshmallow that need no code here (String, Bool) are the
-- types; a Float is counted in ticks.
pub mod Checked
use trustlines_blockchain.Prelude.{
  ℕ, ◌*◌, ◌<◌, String, Bool, true, false, not, ◌&&◌, ◌||◌, Option, none, some, Result, ok, err,
  PyError, value_error, key_error, validation_error, and_then, is_some, ltb, leb, nat_eqb, length,
  if◌then◌else◌,
}
use trustlines_blockchain.Prelude.Int.{ℤ, pos, negsuc}
use trustlines_blockchain.Prelude.Classes.{Bytes}

-- What is taken from eth_utils, eth_keys and marshmallow.
pub record ConfigLib : Type 0 where
  pub is_checksum_address : String → Bool
  pub to_canonical_address : String → Bytes
  pub is_hex : String → Bool
  pub is_0x_prefixed : String → Bool
  pub decode_hex : String → Result Bytes
  pub big_endian_to_int : Bytes → ℕ
  pub secpk1_n : ℕ
  pub is_url : String → Bool

-- A value of the TOML file, as far as the fields look at it.
pub data Value : Type 0 where
  text : String → Value
  no_text : Value

-- `fields.Integer(missing=..., validate=Range(min=0))`: a default is not checked.
unfoldable pub non_negative : ℕ → Option ℤ → Result ℕ
non_negative missing none = ok missing
non_negative missing (some (pos n)) = ok n
non_negative missing (some (negsuc n)) = err validation_error

-- `validate=Range(min=1, max=128)`
unfoldable pub pending_per_block : Option ℤ → Result ℕ
pending_per_block none = ok 16
pending_per_block (some (negsuc n)) = err validation_error
pending_per_block (some (pos n)) = if leb 1 n && leb n 128 then ok n else err validation_error

module _ (lib : ConfigLib) where
  -- `AddressField._deserialize`
  unfoldable pub deserialize_address : Value → Result Bytes
  deserialize_address no_text = err validation_error
  deserialize_address (text value) =
      if lib.is_checksum_address value
      then ok (lib.to_canonical_address value)
      else err validation_error

  -- A required field.
  unfoldable pub required_address : Option Value → Result Bytes
  required_address none = err validation_error
  required_address (some value) = deserialize_address value

  unfoldable pub required_url : Option String → Result String
  required_url none = err validation_error
  required_url (some url) = if lib.is_url url then ok url else err validation_error

  unfoldable pub check_key : Bytes → Result Bytes
  check_key raw_key_bytes =
      let raw_key_int = lib.big_endian_to_int raw_key_bytes in
      if not (nat_eqb (length raw_key_bytes) 32)
      then err validation_error
      else if not (ltb 0 raw_key_int && ltb raw_key_int lib.secpk1_n)
      then err value_error
      else ok raw_key_bytes

  -- `PrivateKeyField._deserialize`
  unfoldable pub deserialize_private_key : Value → Result Bytes
  deserialize_private_key no_text = err validation_error
  deserialize_private_key (text value) =
      if not (lib.is_hex value) || not (lib.is_0x_prefixed value)
      then err validation_error
      else and_then (lib.decode_hex value) check_key

-- `PrivateKeySchema`, after its fields.
pub record PrivateKeyConfig : Type 0 where
  pub raw : Option Bytes
  pub keystore_path : Option String
  pub keystore_password_path : Option String

unfoldable pub validate_private_key : PrivateKeyConfig → Result (Unit {0})
validate_private_key in_data =
    let raw_given = is_some in_data.raw in
    let keystore_given = is_some in_data.keystore_path in
    let password_given = is_some in_data.keystore_password_path in
    if raw_given && (keystore_given || password_given)
    then err validation_error
    else if not raw_given && (not keystore_given || not password_given)
    then err validation_error
    else ok tt

-- The key files: which are readable, the first line of one, stripped, and `extract_key_from_keyfile`.
pub record KeyFiles : Type 0 where
  pub is_readable : String → Bool
  pub first_line : String → String
  pub extract_key : String → String → Result Bytes

unfoldable pub key_from_keystore : KeyFiles → String → String → Result Bytes
key_from_keystore files keystore_path keystore_password_path =
    if not (files.is_readable keystore_path)
    then err value_error
    else if not (files.is_readable keystore_password_path)
    then err value_error
    else files.extract_key keystore_path (files.first_line keystore_password_path)

-- `get_validator_private_key`, which reads the paths in this order.
unfoldable pub get_validator_private_key : KeyFiles → PrivateKeyConfig → Result Bytes
get_validator_private_key files private_key = elim private_key.raw [
  | some k ↦ ok k
  | none ↦ elim private_key.keystore_path [
    | none ↦ err key_error
    | some keystore_path ↦ elim private_key.keystore_password_path [
      | none ↦ err key_error
      | some keystore_password_path ↦ key_from_keystore files keystore_path keystore_password_path
    ]
  ]
]

-- `WebserviceSchema`
pub record WebserviceConfig : Type 0 where
  pub enabled : Bool
  pub host : Option String
  pub port : Option ℕ

unfoldable pub validate_webservice : WebserviceConfig → Result (Unit {0})
validate_webservice in_data =
    if in_data.enabled
    then (if not (is_some in_data.host)
        then err validation_error
        else if not (is_some in_data.port)
        then err validation_error
        else ok tt)
    else ok tt

-- `ChainSchema` with the fields of both its children: a field that is not given is `none`.
pub record ChainInput : Type 0 where
  pub rpc_url : Option String
  pub rpc_timeout : Option ℤ
  pub bridge_contract_address : Option Value
  pub max_reorg_depth : Option ℤ
  pub event_poll_interval : Option ℤ
  pub event_fetch_start_block_number : Option ℤ

pub record ForeignInput : Type 0 where
  pub chain : ChainInput
  pub token_contract_address : Option Value

pub record HomeInput : Type 0 where
  pub chain : ChainInput
  pub gas_price : Option ℤ
  pub minimum_validator_balance : Option ℤ
  pub balance_warn_poll_interval : Option ℤ
  pub max_pending_transactions_per_block : Option ℤ

pub record ChainConfig : Type 0 where
  pub rpc_url : String
  pub rpc_timeout : ℕ
  pub bridge_contract_address : Bytes
  pub max_reorg_depth : ℕ
  pub event_poll_interval : ℕ
  pub event_fetch_start_block_number : ℕ

pub record ForeignConfig : Type 0 where
  pub chain : ChainConfig
  pub token_contract_address : Bytes

pub record HomeConfig : Type 0 where
  pub chain : ChainConfig
  pub gas_price : ℕ
  pub minimum_validator_balance : ℕ
  pub balance_warn_poll_interval : ℕ
  pub max_pending_transactions_per_block : ℕ

-- `second` is a second in ticks.
module _ (lib : ConfigLib) (second : ℕ) where
  -- The fields that both chains have; the default of `event_poll_interval` differs.
  unfoldable pub load_chain : ℕ → ChainInput → Result ChainConfig
  load_chain poll_interval i = and_then (required_url lib i.rpc_url) λ url.
      and_then (non_negative 180 i.rpc_timeout) λ timeout.
        and_then (required_address lib i.bridge_contract_address) λ address.
          and_then (non_negative 10 i.max_reorg_depth) λ depth.
            and_then (non_negative poll_interval i.event_poll_interval) λ poll.
              and_then (non_negative 0 i.event_fetch_start_block_number) λ start. ok (record {
                rpc_url = url;
                rpc_timeout = timeout;
                bridge_contract_address = address;
                max_reorg_depth = depth;
                event_poll_interval = poll;
                event_fetch_start_block_number = start;
              })

  unfoldable pub load_foreign_chain : ForeignInput → Result ForeignConfig
  load_foreign_chain i = and_then (load_chain (10 * second) i.chain) λ chain.
      and_then (required_address lib i.token_contract_address)
        λ token. ok (record { chain = chain; token_contract_address = token })

  unfoldable pub load_home_chain : HomeInput → Result HomeConfig
  load_home_chain i = and_then (load_chain (5 * second) i.chain) λ chain.
      and_then (non_negative 10_000_000_000 i.gas_price) λ price.
        and_then (non_negative 40_000_000_000_000_000 i.minimum_validator_balance) λ balance.
          and_then (non_negative (60 * second) i.balance_warn_poll_interval) λ warn.
            and_then (pending_per_block i.max_pending_transactions_per_block) λ pending.
              ok (record {
                chain = chain;
                gas_price = price;
                minimum_validator_balance = balance;
                balance_warn_poll_interval = warn;
                max_pending_transactions_per_block = pending;
              })
