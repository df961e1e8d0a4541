-- ===== src/Bridge/Watchers.antt =====
-- The loops that watch the home chain: `class ConfirmationWatcher` of
-- bridge/src/bridge/confirmation_sender.py, validator_status_watcher.py and
-- validator_balance_watcher.py. A remote call that fails is repeated by tenacity without an end, so
-- it is modelled by the answer that it returns in the end; rounds of a loop are counted.
pub mod Confirmed
pub mod Membership
use trustlines_blockchain.Prelude.{
  ℕ, zero, suc, ◌+◌, Bool, true, false, not, Option, none, some, List, [], ◌∷◌, ◌++◌, if◌then◌else◌,
}
use trustlines_blockchain.Prelude.Int.{ℤ, pos, ◌-ℤ◌, leb_ℤ}
use trustlines_blockchain.Prelude.Classes.{Bytes}
use trustlines_blockchain.Prelude.Loops.{wait_until, retry}
use trustlines_blockchain.Bridge.Events.{Event, balance_check, is_validator_check}
use trustlines_blockchain.Bridge.Sender.{SignedTransaction}

pub record Receipt : Type 0 where
  pub status : ℕ
  pub block_hash : Option Bytes
  pub block_number : ℕ

-- The home node in one round of `wait_for_transaction`; no receipt stands for None and for
-- TransactionNotFound.
pub record ReceiptNode : Type 0 where
  pub block_number : ℕ → ℕ
  pub get_transaction_receipt : ℕ → Bytes → Option Receipt

pub record ConfirmationWatcher : Type 0 where
  pub max_reorg_depth : ℤ
  pub pending_transaction_queue : List SignedTransaction
  pub rounds : ℕ

-- Parity answers for a transaction that is not mined with a receipt without a block.
unfoldable pub in_block : Option Receipt → Option Receipt
in_block none = none
in_block (some receipt) = elim receipt.block_hash [ none ↦ none | some h ↦ some receipt ]

unfoldable pub rpc_get_receipt : ReceiptNode → ℕ → Bytes → Option Receipt
rpc_get_receipt node t tx_hash = in_block (node.get_transaction_receipt t tx_hash)

unfoldable pub if_deep : ℤ → Option Receipt → Option Receipt
if_deep confirmation_threshold none = none
if_deep confirmation_threshold (some receipt) =
    if leb_ℤ (pos receipt.block_number) confirmation_threshold then some receipt else none

module _ (node : ReceiptNode) where
  -- One round of the loop of `wait_for_transaction`.
  unfoldable pub confirmed_receipt : ℤ → Bytes → ℕ → Option Receipt
  confirmed_receipt max_reorg_depth tx_hash t =
      if_deep (pos (node.block_number t) -ℤ max_reorg_depth) (rpc_get_receipt node t tx_hash)

  unfoldable pub wait_for_transaction :
      ℕ → SignedTransaction → ConfirmationWatcher → Option (Receipt × ConfirmationWatcher)
  wait_for_transaction fuel transaction w =
      elim (retry fuel (confirmed_receipt w.max_reorg_depth transaction.hash) w.rounds) [
        | none ↦ none
        | some (receipt, t) ↦ some (receipt, record w { rounds = t })
      ]

  -- `watch_pending_transactions` on what is in the queue, with the receipts that it logs.
  unfoldable pub watch_queue :
      ℕ → List SignedTransaction → ConfirmationWatcher → Option (List Receipt × ConfirmationWatcher)
  watch_queue fuel [] w = some ([], record w { pending_transaction_queue = [] })
  watch_queue fuel (transaction ∷ queue) w = elim (wait_for_transaction fuel transaction w) [
    | none ↦ none
    | some (receipt, w') ↦ elim (watch_queue fuel queue w') [
      | none ↦ none
      | some (receipts, w'') ↦ some (receipt ∷ receipts, w'')
    ]
  ]

  unfoldable pub watch_pending_transactions :
      ℕ → ConfirmationWatcher → Option (List Receipt × ConfirmationWatcher)
  watch_pending_transactions fuel w = watch_queue fuel w.pending_transaction_queue w

pub record ValidatorStatusWatcher : Type 0 where
  pub control_queue : List Event
  pub stopped : Bool
  pub polls : ℕ

unfoldable pub put_check : Bool → ℕ → ValidatorStatusWatcher → ValidatorStatusWatcher
put_check b polls w = record w {
  control_queue = w.control_queue ++ is_validator_check b ∷ [];
  polls = polls;
}

-- `status t` is the answer of poll `t`.
module _ (status : ℕ → Bool) where
  unfoldable pub wait_for_validator_status :
      ℕ → ValidatorStatusWatcher → Option ValidatorStatusWatcher
  wait_for_validator_status fuel w = elim (wait_until fuel status w.polls) [
    | none ↦ none
    | some t ↦ some (put_check true (t + 1) w)
  ]

  unfoldable pub wait_for_non_validator_status :
      ℕ → ValidatorStatusWatcher → Option ValidatorStatusWatcher
  wait_for_non_validator_status fuel w = elim (wait_until fuel (λ t. not (status t)) w.polls) [
    | none ↦ none
    | some t ↦ some (record (put_check false (t + 1) w) { stopped = true })
  ]

  unfoldable pub wait_for_change : ℕ → Bool → ValidatorStatusWatcher → Option ValidatorStatusWatcher
  wait_for_change fuel true w = wait_for_non_validator_status fuel w
  wait_for_change fuel false w = elim (wait_for_validator_status fuel w) [
    | none ↦ none
    | some w' ↦ wait_for_non_validator_status fuel w'
  ]

  -- The report of the first poll, and the rest of the run.
  unfoldable pub run_from : ℕ → ValidatorStatusWatcher → Bool → Option ValidatorStatusWatcher
  run_from fuel w is_validator_from_beginning =
      wait_for_change fuel is_validator_from_beginning
        (put_check is_validator_from_beginning (w.polls + 1) w)

  -- `ValidatorStatusWatcher.run`; the callback sets `stopped`.
  unfoldable pub run : ℕ → ValidatorStatusWatcher → Option ValidatorStatusWatcher
  run fuel w = run_from fuel w (status w.polls)

-- `ValidatorBalanceWatcher.run`, for a number of rounds from round `t` on.
unfoldable pub watch_balance : (ℕ → ℤ) → ℕ → ℕ → List Event → List Event
watch_balance balance zero t control_queue = control_queue
watch_balance balance (suc rounds) t control_queue =
    watch_balance balance rounds (t + 1) (control_queue ++ balance_check (balance t) ∷ [])
