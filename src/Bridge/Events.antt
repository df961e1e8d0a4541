-- ===== src/Bridge/Events.antt =====
-- bridge/src/bridge/events.py and constants.py: the events that the services pass to one another.
use trustlines_blockchain.Prelude.{ℕ, String, Bool, true, false, ◌≡◌, ◌↔◌, arith}
use trustlines_blockchain.Prelude.Int.{ℤ}
use trustlines_blockchain.Prelude.Classes.{Bytes, Eq}

abbrev pub home_chain_step_duration : ℕ
home_chain_step_duration = 5

abbrev pub transfer_event_name : String
transfer_event_name = "Transfer"

abbrev pub confirmation_event_name : String
confirmation_event_name = "Confirmation"

abbrev pub completion_event_name : String
completion_event_name = "TransferCompleted"

abbrev pub confirmation_transaction_gas_limit : ℕ
confirmation_transaction_gas_limit = 650_000

abbrev pub zero_address : String
zero_address = "0x0000000000000000000000000000000000000000"

pub data ChainRole : Type 0 where
  home foreign : ChainRole

-- The `args` of a contract event: those of an ERC20 `Transfer`, or those of the home bridge's
-- `Confirmation` and `TransferCompleted`. Reading one that is not there is an AttributeError.
pub data EventArgs : Type 0 where
  transfer_args : (from to : String) (value : ℕ) → EventArgs
  hash_args : (transfer_hash : Bytes) → EventArgs

-- An `AttributeDict` of web3.py that stands for a contract event.
pub record Web3Event : Type 0 where
  pub event : String
  pub args : EventArgs
  pub transaction_hash : Bytes
  pub log_index : ℕ
  pub block_number : ℕ
  pub transaction_index : ℕ

-- Times are counted in ticks, since there are no floats.
pub record FetcherReachedHeadEvent : Type 0 where
  pub timestamp : ℤ
  pub chain_role : ChainRole
  pub last_fetched_block_number : ℤ

-- What a queue can hold. `unregistered` is an `Event` of a class that the recorder has no handler
-- for, and `foreign_object` is no `Event` at all.
pub data Event : Type 0 where
  balance_check : (balance : ℤ) → Event
  is_validator_check : (is_validator : Bool) → Event
  fetcher_reached_head : FetcherReachedHeadEvent → Event
  web3_event : Web3Event → Event
  unregistered foreign_object : Event

abbrev chain_role_eqb : ChainRole → ChainRole → Bool
chain_role_eqb ChainRole.home ChainRole.home = true
chain_role_eqb ChainRole.foreign ChainRole.foreign = true
chain_role_eqb _ _ = false

pub chain_role_eqb_iff : (a b : ChainRole) → (chain_role_eqb a b ≡ true) ↔ (a ≡ b)
chain_role_eqb_iff a b = ground arith

instance abbrev pub chain_role_eq : Eq ChainRole
chain_role_eq = record { beq = chain_role_eqb; beq_iff = chain_role_eqb_iff }
