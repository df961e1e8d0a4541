-- ===== src/Bridge/Watchers/Confirmed.antt =====
-- Transactions are waited for one after another, each until it is deep enough in the chain.
use trustlines_blockchain.Prelude.{
  ℕ, ◌+◌, ◌≤◌, ◌<◌, ◌≡◌, refl, true, some, List, [], ◌∷◌, All, Pairwise, arith, is_some,
}
use trustlines_blockchain.Prelude.Int.{ℤ, pos, ◌≤ℤ◌, ◌-ℤ◌}
use trustlines_blockchain.Prelude.Classes.{Bytes}
use trustlines_blockchain.Prelude.Loops.{retry-total}
use trustlines_blockchain.Bridge.Sender.{SignedTransaction}
use trustlines_blockchain.Bridge.Watchers.{
  Receipt, ReceiptNode, ConfirmationWatcher, in_block, rpc_get_receipt, if_deep, confirmed_receipt,
  wait_for_transaction, watch_queue, watch_pending_transactions,
}

-- From round `calm` on, the node has the transaction in a block that is deep enough.
abbrev pub SettlesBy : ReceiptNode → ℤ → ℕ → SignedTransaction → Type 0
SettlesBy node max_reorg_depth calm transaction =
    (t : ℕ)
    → calm ≤ t
    → (r : Receipt) × (node.get_transaction_receipt t transaction.hash ≡ some r)
      × (is_some r.block_hash ≡ true)
      × (pos r.block_number ≤ℤ pos (node.block_number t) -ℤ max_reorg_depth)

-- The receipt is that of the transaction, in a block as deep as it has to be when it was asked for.
abbrev pub IsConfirmedBy : ReceiptNode → ℤ → SignedTransaction → Receipt → Type 0
IsConfirmedBy node max_reorg_depth transaction r =
    (t : ℕ) × (node.get_transaction_receipt t transaction.hash ≡ some r)
    × (is_some r.block_hash ≡ true)
    × (pos r.block_number ≤ℤ pos (node.block_number t) -ℤ max_reorg_depth)

module _ (node : ReceiptNode) where
  settled-confirmed_receipt :
      (depth : ℤ) (h : Bytes) (t : ℕ) (r : Receipt)
      → node.get_transaction_receipt t h ≡ some r
      → is_some r.block_hash ≡ true
      → pos r.block_number ≤ℤ pos (node.block_number t) -ℤ depth
      → confirmed_receipt node depth h t ≡ some r
  unfolding confirmed_receipt rpc_get_receipt in_block if_deep
  settled-confirmed_receipt depth h t r found mined deep = ground arith

  confirmed_receipt-settled :
      (depth : ℤ) (h : Bytes) (t : ℕ) (r : Receipt)
      → confirmed_receipt node depth h t ≡ some r
      → (node.get_transaction_receipt t h ≡ some r)
        × (is_some r.block_hash ≡ true)
        × (pos r.block_number ≤ℤ pos (node.block_number t) -ℤ depth)
  unfolding confirmed_receipt rpc_get_receipt in_block if_deep
  confirmed_receipt-settled depth h t r e = (ground arith, ground arith, ground arith)

  watch_queue-total :
      (calm fuel : ℕ) (queue : List SignedTransaction) (w : ConfirmationWatcher)
      → calm < fuel
      → All (SettlesBy node w.max_reorg_depth calm) queue
      → (receipts : List Receipt) × (rounds : ℕ) × (watch_queue node fuel queue w
          ≡ some (receipts, record w { pending_transaction_queue = []; rounds = rounds }))
        × Pairwise (IsConfirmedBy node w.max_reorg_depth) queue receipts
  unfolding watch_queue wait_for_transaction
  watch_queue-total calm fuel [] w h settles = ([], w.rounds, refl, tt)
  watch_queue-total calm fuel (transaction ∷ queue) w h (settles, all_settle) =
      let k = w.rounds + calm in
      let (r, found, mined, deep) = settles k (omega arith) in
      let (receipt, t, waited, confirmed, _, _) =
        retry-total fuel (confirmed_receipt node w.max_reorg_depth transaction.hash) w.rounds k
          (omega arith) (omega arith)
          (r, settled-confirmed_receipt w.max_reorg_depth transaction.hash k r found mined deep) in
      let (receipts, rounds, watched, all_confirmed) =
        watch_queue-total calm fuel queue (record w { rounds = t + 1 }) h all_settle in
      let (got, in_one, enough) =
        confirmed_receipt-settled w.max_reorg_depth transaction.hash t receipt confirmed in
      (
        receipt ∷ receipts,
        rounds,
        rw (watch_queue, wait_for_transaction, waited, watched) refl,
        ((t, got, in_one, enough), all_confirmed),
      )

  -- If every pending transaction is mined and deep enough from round `calm` on, then with more fuel
  -- than that the watcher goes through its whole queue in order, and the receipt that it logs for
  -- each transaction is that of the transaction, in a block at least `max_reorg_depth` below the head.
  pub watch_pending_transactions_lem :
      (calm fuel : ℕ) (w : ConfirmationWatcher)
      → calm < fuel
      → All (SettlesBy node w.max_reorg_depth calm) w.pending_transaction_queue
      → (receipts : List Receipt) × (rounds : ℕ) × (watch_pending_transactions node fuel w
          ≡ some (receipts, record w { pending_transaction_queue = []; rounds = rounds }))
        × Pairwise (IsConfirmedBy node w.max_reorg_depth) w.pending_transaction_queue receipts
  unfolding watch_pending_transactions
  watch_pending_transactions_lem calm fuel w h settles =
      watch_queue-total calm fuel w.pending_transaction_queue w h settles
