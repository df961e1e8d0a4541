-- ===== src/Bridge/Tests/Sending.antt =====
-- The confirmation sender and the loops that watch the home chain.
use trustlines_blockchain.Prelude.{
  ℕ, ◌+◌, ◌≤◌, ◌≡◌, refl, Bool, true, false, some, none, is_some, List, [], ◌∷◌, ◌++◌, arith, inl,
  inr, leb, Pairwise, if◌then◌else◌, ◌&&◌, not,
}
use trustlines_blockchain.Prelude.Int.{pos, ◌-ℤ◌, ◌≤ℤ◌}
use trustlines_blockchain.Bridge.Events.{web3_event, balance_check}
use trustlines_blockchain.Bridge.Sender.{
  RemoteError, value_error_dict, HomeNode, SignedTransaction, ConfirmationSender, nonce_answer,
  send_confirmation_transactions,
}
use trustlines_blockchain.Bridge.Sender.Sent.{IsCalm, IsConfirmation}
use trustlines_blockchain.Bridge.Sender.Delivered.{
  stop_result, after_stop, send_confirmation_transactions_lem,
}
use trustlines_blockchain.Bridge.Watchers.{
  Receipt, ReceiptNode, ConfirmationWatcher, ValidatorStatusWatcher, watch_pending_transactions,
  run,
}
use trustlines_blockchain.Bridge.Watchers.Confirmed.{IsConfirmedBy, watch_pending_transactions_lem}
use trustlines_blockchain.Bridge.Watchers.Membership.{IsTerm, reports, run_lem}
use trustlines_blockchain.Bridge.Tests.Samples.{lib, transfer}

abbrev too_low : RemoteError
too_low = value_error_dict (some "Transaction nonce is too low.")

-- The node answers from call 1 on, and refuses a nonce until call 4.
abbrev node : HomeNode
node = record {
  parity_next_nonce = λ t. some (t + 10);
  transaction_count = λ t. if leb 1 t then some t else none;
  send_raw_transaction = λ t raw. if leb 4 t then inl raw else inr too_low;
  sign_transaction = λ transaction key. record {
    raw_transaction = transaction.nonce ∷ transaction.transfer_hash;
    hash = transaction.nonce ∷ transaction.transfer_hash;
  };
}

abbrev sender : ConfirmationSender
sender = record {
  private_key = 1 ∷ 2 ∷ [];
  gas_price = 5;
  chain_id = 17;
  is_parity = false;
  foreign_bridge_contract_address = "0xbb";
  transfer_event_queue =
      web3_event (transfer 3 2) ∷ web3_event (transfer 8 5) ∷ balance_check (pos 1) ∷ [];
  pending_transaction_queue = [];
  calls = 0;
}

nonces : (is_parity : Bool) (t : ℕ) → 4 ≤ t → (n : ℕ) × (nonce_answer node is_parity t ≡ some n)
unfolding nonce_answer
nonces true t h = (t + 10, refl)
nonces false t h = (t, ground arith)

calm : IsCalm node 4
calm = record { gives_nonce = nonces; takes = λ raw t h. (raw, ground arith) }

send_confirmation_transactions_lem_example :
    (c : ℕ) × (sent : List SignedTransaction) × (send_confirmation_transactions lib node 5 sender
      ≡ some (
        stop_result (balance_check (pos 1) ∷ []),
        record sender {
          calls = c;
          transfer_event_queue = after_stop (balance_check (pos 1) ∷ []);
          pending_transaction_queue = sender.pending_transaction_queue ++ sent;
        },
      ))
    × Pairwise (IsConfirmation lib node sender) (transfer 3 2 ∷ transfer 8 5 ∷ []) sent
send_confirmation_transactions_lem_example =
    send_confirmation_transactions_lem calm lib 4 (transfer 3 2 ∷ transfer 8 5 ∷ [])
      (balance_check (pos 1) ∷ []) sender (omega arith) refl
      (("0xaa", 2, refl), (("0xaa", 5, refl), tt)) (λ e h d. ground arith)

-- The head moves on with each round, and the receipt is there from round 2 on.
abbrev receipt : Receipt
receipt = record { status = 1; block_hash = some (3 ∷ []); block_number = 30 }

abbrev mining : ReceiptNode
mining = record {
  block_number = λ t. t + 30;
  get_transaction_receipt = λ t h. if leb 2 t then some receipt else none;
}

abbrev pending : SignedTransaction
pending = record { raw_transaction = 1 ∷ []; hash = 2 ∷ [] }

abbrev watcher : ConfirmationWatcher
watcher = record {
  max_reorg_depth = pos 5;
  pending_transaction_queue = pending ∷ pending ∷ [];
  rounds = 0;
}

settles :
    (t : ℕ)
    → 5 ≤ t
    → (r : Receipt) × (mining.get_transaction_receipt t pending.hash ≡ some r)
      × (is_some r.block_hash ≡ true)
      × (pos r.block_number ≤ℤ pos (mining.block_number t) -ℤ pos 5)
settles t h = (receipt, ground arith, refl, unfold ◌-ℤ◌ in ground arith)

watch_pending_transactions_lem_example :
    (receipts : List Receipt) × (rounds : ℕ) × (watch_pending_transactions mining 6 watcher
      ≡ some (receipts, record watcher { pending_transaction_queue = []; rounds = rounds }))
    × Pairwise
        (IsConfirmedBy mining watcher.max_reorg_depth)
        watcher.pending_transaction_queue
        receipts
watch_pending_transactions_lem_example =
    watch_pending_transactions_lem mining 5 6 watcher (omega arith) (settles, (settles, tt))

abbrev status : ℕ → Bool
status t = leb 2 t && not (leb 6 t)

abbrev membership : ValidatorStatusWatcher
membership = record { control_queue = []; stopped = false; polls = 0 }

run_lem_example :
    (joined : ℕ) × (left : ℕ) × (run status 8 membership
      ≡ some (record {
        control_queue = membership.control_queue ++ reports (status membership.polls);
        stopped = true;
        polls = left + 1;
      }))
    × IsTerm status membership.polls joined left
run_lem_example =
    run_lem status 8 3 6 membership (omega arith) refl (omega arith) (omega arith) refl
