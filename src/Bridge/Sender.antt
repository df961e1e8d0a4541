-- ===== src/Bridge/Sender.antt =====
-- bridge/src/bridge/confirmation_sender.py, `class ConfirmationSender`: signs a confirmation for
-- each transfer in its queue and sends it, again and again until the home node takes it.
-- A loop that tenacity repeats without an end is recursion on fuel; `none` is fuel run out. What
-- `__init__` reads once of the node (chain id, client version) are fields.
pub mod Sent
pub mod Delivered
use Prim.Native.String.{find, len}
use trustlines_blockchain.Prelude.{
  ℕ, zero, suc, ◌+◌, String, Bool, true, false, not, ◌||◌, Option, none, some, List, [], ◌∷◌, ◌++◌,
  Result, ok, err, PyError, value_error, key_error, attribute_error, assertion_error, nonce_too_low,
  system_exit, and_then, is_ok, ◌⊎◌, inl, inr, leb, if◌then◌else◌,
}
use trustlines_blockchain.Prelude.Classes.{Bytes, string_eq, ◌==◌}
use trustlines_blockchain.Prelude.Loops.{retry}
use trustlines_blockchain.Bridge.Eth.{EthLib}
use trustlines_blockchain.Bridge.Events.{
  Event, web3_event, Web3Event, EventArgs, transfer_args, hash_args,
  confirmation_transaction_gas_limit,
}
use trustlines_blockchain.Bridge.Utils.{compute_transfer_hash}

unfoldable pub is_substring : String → String → Bool
is_substring part text = leb (find text part) (len text)

-- The exceptions of a remote call, as far as the code tells them apart.
pub data RemoteError : Type 0 where
  -- a ValueError on a dict, whose "message" may be missing
  value_error_dict : (message : Option String) → RemoteError
  -- a ValueError on anything else
  value_error_other : RemoteError
  other_exception : RemoteError

unfoldable pub is_nonce_too_low_exception : RemoteError → Bool
is_nonce_too_low_exception (value_error_dict (some message)) =
    is_substring "There is another transaction with same nonce in the queue" message
    || is_substring "Transaction nonce is too low" message
is_nonce_too_low_exception (value_error_dict none) = false
is_nonce_too_low_exception value_error_other = false
is_nonce_too_low_exception other_exception = false

-- The call `confirmTransfer(...)` of the home bridge with its transaction options.
pub record Transaction : Type 0 where
  pub transfer_hash : Bytes
  pub transaction_hash : Bytes
  pub amount : ℕ
  pub recipient : String
  pub gas_price : ℕ
  pub nonce : ℕ
  pub gas : ℕ
  pub chain_id : ℕ

pub record SignedTransaction : Type 0 where
  pub raw_transaction : Bytes
  pub hash : Bytes

-- The home node, by the number of calls made so far, and the signing of web3.py. A call answers or
-- raises. The answer of `parity_nextNonce` counts after `int(_, 16)`.
pub record HomeNode : Type 0 where
  pub parity_next_nonce : ℕ → Option ℕ
  pub transaction_count : ℕ → Option ℕ
  pub send_raw_transaction : ℕ → Bytes → Bytes ⊎ RemoteError
  pub sign_transaction : Transaction → Bytes → SignedTransaction

pub record ConfirmationSender : Type 0 where
  pub private_key : Bytes
  pub gas_price : ℕ
  pub chain_id : ℕ
  pub is_parity : Bool
  pub foreign_bridge_contract_address : String
  pub transfer_event_queue : List Event
  pub pending_transaction_queue : List SignedTransaction
  pub calls : ℕ

-- `make_sanity_check_transfer`, on `is_checksum_address` of its argument.
unfoldable pub make_sanity_check_transfer : (String → Bool) → String → Result String
make_sanity_check_transfer is_checksum_address address =
    if is_checksum_address address then ok address else err assertion_error

-- The function that it returns. `args["to"]` is a KeyError where there is none.
unfoldable pub sanity_check_transfer : String → Event → Result Web3Event
sanity_check_transfer address (web3_event e) = elim e.args [
  | transfer_args from to value ↦ if to == address then ok e else err value_error
  | hash_args h ↦ err key_error
]
sanity_check_transfer address _ = err value_error

-- What one call of `sendRawTransaction` comes to; `none` where it is repeated.
unfoldable pub send_outcome : Bytes ⊎ RemoteError → Option (Result Bytes)
send_outcome (inl tx_hash) = some (ok tx_hash)
send_outcome (inr e) = if is_nonce_too_low_exception e then some (err nonce_too_low) else none

unfoldable pub is_nonce_too_low : PyError → Bool
is_nonce_too_low nonce_too_low = true
is_nonce_too_low _ = false

module _ (node : HomeNode) where
  unfoldable pub nonce_answer : Bool → ℕ → Option ℕ
  nonce_answer is_parity t =
      if is_parity then node.parity_next_nonce t else node.transaction_count t

  unfoldable pub get_next_nonce : ℕ → ConfirmationSender → Option (ℕ × ConfirmationSender)
  get_next_nonce fuel s = elim (retry fuel (nonce_answer s.is_parity) s.calls) [
    | none ↦ none
    | some (nonce, t) ↦ some (nonce, record s { calls = t })
  ]

  -- `send_confirmation_transaction` with its `_rpc_send_raw_transaction`.
  unfoldable pub send_confirmation_transaction :
      ℕ → SignedTransaction → ConfirmationSender → Option (Result Bytes × ConfirmationSender)
  send_confirmation_transaction fuel transaction s =
      elim (retry fuel (λ t. send_outcome (node.send_raw_transaction t transaction.raw_transaction))
        s.calls) [
          | none ↦ none
          | some (result, t) ↦ some (elim result [
            | err x ↦ (err x, record s { calls = t })
            | ok tx_hash ↦ (
              ok tx_hash,
              record s {
                calls = t;
                pending_transaction_queue = s.pending_transaction_queue ++ transaction ∷ [];
              },
            )
          ])
        ]

module _ (lib : EthLib) (node : HomeNode) where
  unfoldable pub prepare_with :
      ConfirmationSender → Web3Event → ℕ → EventArgs → Result SignedTransaction
  prepare_with s e nonce (hash_args h) = err attribute_error
  prepare_with s e nonce (transfer_args from to value) =
      let transaction : Transaction = record {
        transfer_hash = compute_transfer_hash lib e;
        transaction_hash = e.transaction_hash;
        amount = value;
        recipient = from;
        gas_price = s.gas_price;
        nonce = nonce;
        gas = confirmation_transaction_gas_limit;
        chain_id = s.chain_id;
      } in
      ok (node.sign_transaction transaction s.private_key)

  unfoldable pub prepare_confirmation_transaction :
      ConfirmationSender → Web3Event → ℕ → Result SignedTransaction
  prepare_confirmation_transaction s e nonce = prepare_with s e nonce e.args

  -- The body of `send_confirmation_from_transfer_event`.
  unfoldable pub send_attempt :
      ℕ → Web3Event → ConfirmationSender → Option (Result Bytes × ConfirmationSender)
  send_attempt fuel e s = elim (get_next_nonce node fuel s) [
    | none ↦ none
    | some (nonce, s') ↦ elim (prepare_confirmation_transaction s' e nonce) [
      | err x ↦ some (err x, s')
      | ok transaction ↦ send_confirmation_transaction node fuel transaction s'
    ]
  ]

  -- Its repetition, with a new nonce each time: `rounds` bounds it, `fuel` each call.
  unfoldable pub send_confirmation_from_transfer_event :
      ℕ → ℕ → Web3Event → ConfirmationSender → Option (Result Bytes × ConfirmationSender)
  send_confirmation_from_transfer_event zero fuel e s = none
  send_confirmation_from_transfer_event (suc rounds) fuel e s = elim (send_attempt fuel e s) [
    | none ↦ none
    | some (result, s') ↦ elim result [
      | ok tx_hash ↦ some (ok tx_hash, s')
      | err x ↦ elim (is_nonce_too_low x) [
        | true ↦ send_confirmation_from_transfer_event rounds fuel e s'
        | false ↦ some (err x, s')
      ]
    ]
  ]

  -- `send_confirmation_transactions` on the events that are in the queue: where it is empty, `get`
  -- waits for the next one.
  unfoldable pub send_queued :
      ℕ → List Event → ConfirmationSender → Option (Result (Unit {0}) × ConfirmationSender)
  send_queued fuel [] s = some (ok tt, record s { transfer_event_queue = [] })
  send_queued fuel (event ∷ queue) s =
      let s' = record s { transfer_event_queue = queue } in
      elim (sanity_check_transfer s.foreign_bridge_contract_address event) [
        | err x ↦ some (err system_exit, s')
        | ok e ↦ elim (send_confirmation_from_transfer_event fuel fuel e s') [
          | none ↦ none
          | some (result, s'') ↦ elim result [
            | err x ↦ some (err x, s'')
            | ok _ ↦ send_queued fuel queue s''
          ]
        ]
      ]

  unfoldable pub send_confirmation_transactions :
      ℕ → ConfirmationSender → Option (Result (Unit {0}) × ConfirmationSender)
  send_confirmation_transactions fuel s = send_queued fuel s.transfer_event_queue s
