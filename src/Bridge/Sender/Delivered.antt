-- ===== src/Bridge/Sender/Delivered.antt =====
-- Every transfer in the sender's queue ends in one confirmation that the home node took.
use mathlib.Core.List.{append-nil, append_assoc}
use trustlines_blockchain.Prelude.{
  ℕ, suc, ◌≤◌, ◌≡◌, refl, sym, ap, ◌∙◌, String, Option, some, List, [], ◌∷◌, ◌++◌, map, Result, ok,
  err, system_exit, inl, inr, All, Pairwise, Bool-cases, arith,
}
use trustlines_blockchain.Prelude.Classes.{Bytes, string_eq, ◌==◌}
use trustlines_blockchain.Bridge.Eth.{EthLib}
use trustlines_blockchain.Bridge.Events.{
  Event, web3_event, balance_check, is_validator_check, fetcher_reached_head, EventArgs, Web3Event,
  transfer_args, hash_args,
}
use trustlines_blockchain.Bridge.Sender.{
  HomeNode, SignedTransaction, ConfirmationSender, sanity_check_transfer,
  send_confirmation_from_transfer_event, send_queued, send_confirmation_transactions,
}
use trustlines_blockchain.Bridge.Sender.Sent.{IsCalm, IsDeposit, IsConfirmation, send_ends}

-- What the sender stops at: nothing more to send, or something that is no deposit.
abbrev pub IsBlocked : String → List Event → Type 0
IsBlocked address [] = Unit
IsBlocked address (event ∷ queue) = (e : Web3Event) → event ≡ web3_event e → IsDeposit address e → ⊥

unfoldable pub stop_result : List Event → Result (Unit {0})
stop_result [] = ok tt
stop_result (event ∷ queue) = err system_exit

unfoldable pub after_stop : List Event → List Event
after_stop [] = []
after_stop (event ∷ queue) = queue

IsDeposit-sanity_check :
    (address : String) (e : Web3Event)
    → IsDeposit address e
    → sanity_check_transfer address (web3_event e) ≡ ok e
unfolding sanity_check_transfer
IsDeposit-sanity_check address e (from, value, h) =
    ground (arith, string_eq.beq_iff address address)

sanity_check-IsDeposit :
    (address : String) (event : Event) (e : Web3Event)
    → sanity_check_transfer address event ≡ ok e
    → (event ≡ web3_event e) × IsDeposit address e
unfolding sanity_check_transfer
sanity_check-IsDeposit address (web3_event w) e h = go w.args refl
  where
    go : (a : EventArgs) → w.args ≡ a → (web3_event w ≡ web3_event e) × IsDeposit address e
    go (hash_args x) f = absurd (ground arith)
    go (transfer_args from to value) f = elim (Bool-cases (to == address)) [
      | inl t ↦
          let same : w ≡ e = ground arith in
          (
            ap (λ x. web3_event x) same,
            (
              from,
              value,
              ap (λ x. Web3Event.args x) (sym same)
                  ∙ f
                  ∙ ap (λ x. transfer_args from x value) ((string_eq.beq_iff to address).0 t),
            ),
          )
      | inr t ↦ absurd (ground arith)
    ]
sanity_check-IsDeposit address (balance_check b) e h = ground arith
sanity_check-IsDeposit address (is_validator_check b) e h = ground arith
sanity_check-IsDeposit address (fetcher_reached_head b) e h = ground arith
sanity_check-IsDeposit address Event.unregistered e h = ground arith
sanity_check-IsDeposit address Event.foreign_object e h = ground arith

module _ (lib : EthLib) (node : HomeNode) where
  stops :
      (fuel : ℕ) (rest : List Event) (s : ConfirmationSender)
      → IsBlocked s.foreign_bridge_contract_address rest
      → send_queued lib node fuel rest s
        ≡ some (stop_result rest, record s { transfer_event_queue = after_stop rest })
  unfolding send_queued stop_result after_stop
  stops fuel [] s blocked = refl
  stops fuel (event ∷ queue) s blocked =
      go (sanity_check_transfer s.foreign_bridge_contract_address event) refl
    where
      go :
          (r : Result Web3Event)
          → sanity_check_transfer s.foreign_bridge_contract_address event ≡ r
          → send_queued lib node fuel (event ∷ queue) s
            ≡ some (err system_exit, record s { transfer_event_queue = queue })
      go (err x) e = rw (send_queued, e) refl
      go (ok w) e =
          let (is_event, deposit) =
            sanity_check-IsDeposit s.foreign_bridge_contract_address event w e in
          absurd (blocked w is_event deposit)

  sends_one :
      (fuel : ℕ) (e : Web3Event) (queue : List Event) (s s' : ConfirmationSender) (tx_hash : Bytes)
      {r : Option (Result (Unit {0}) × ConfirmationSender)}
      → IsDeposit s.foreign_bridge_contract_address e
      → send_confirmation_from_transfer_event lib node fuel fuel e
          (record s { transfer_event_queue = queue })
        ≡ some (ok tx_hash, s')
      → send_queued lib node fuel queue s' ≡ r
      → send_queued lib node fuel (web3_event e ∷ queue) s ≡ r
  unfolding send_queued
  sends_one fuel e queue s s' tx_hash deposit sent rest =
      rw (send_queued, IsDeposit-sanity_check s.foreign_bridge_contract_address e deposit, sent)
        rest

module _ {node : HomeNode} {calm : ℕ} (v : IsCalm node calm) (lib : EthLib) where
  sends_all :
      (rounds : ℕ) (good : List Web3Event) (rest : List Event) (s : ConfirmationSender)
      → calm ≤ rounds
      → All (IsDeposit s.foreign_bridge_contract_address) good
      → IsBlocked s.foreign_bridge_contract_address rest
      → (c : ℕ) × (sent : List SignedTransaction) × (send_queued lib node
            (suc rounds)
            (map web3_event good ++ rest)
            s
          ≡ some (
            stop_result rest,
            record s {
              calls = c;
              transfer_event_queue = after_stop rest;
              pending_transaction_queue = s.pending_transaction_queue ++ sent;
            },
          ))
        × Pairwise (IsConfirmation lib node s) good sent
  sends_all rounds [] rest s enough deposits blocked = (
    s.calls,
    [],
    stops lib node (suc rounds) rest s blocked
        ∙ ap
            (λ l. some (
              stop_result rest,
              record s { transfer_event_queue = after_stop rest; pending_transaction_queue = l },
            ))
            (sym (append-nil _)),
    tt,
  )
  sends_all rounds (e ∷ good) rest s enough (deposit, deposits) blocked =
      let queue = map web3_event good ++ rest in
      let (c, tx_hash, signed, taken, later, confirmed) =
        send_ends v lib rounds (suc rounds) (record s { transfer_event_queue = queue }) e
          (omega arith) (omega arith) deposit in
      let s' : ConfirmationSender = record s {
        calls = c;
        transfer_event_queue = queue;
        pending_transaction_queue = s.pending_transaction_queue ++ signed ∷ [];
      } in
      let (d, sent, finished, all_confirmed) =
        sends_all rounds good rest s' enough deposits blocked in
      (
        d,
        signed ∷ sent,
        sends_one lib node (suc rounds) e queue s s' tx_hash deposit taken finished
            ∙ ap
                (λ l. some (
                  stop_result rest,
                  record s {
                    calls = d;
                    transfer_event_queue = after_stop rest;
                    pending_transaction_queue = l;
                  },
                ))
                (append_assoc s.pending_transaction_queue (signed ∷ []) sent),
        (confirmed, all_confirmed),
      )

  -- A queue of transfers to the foreign bridge, on a node that is up from call `calm` on: with more
  -- fuel than that the sender returns, and has put one confirmation for each transfer in the pending
  -- queue, in order, each taken by the node after it gave its nonce. It then waits for more, or, at
  -- an event that is no transfer to the foreign bridge, raises SystemExit and sends nothing else.
  pub send_confirmation_transactions_lem :
      (rounds : ℕ) (transfers : List Web3Event) (rest : List Event) (s : ConfirmationSender)
      → calm ≤ rounds
      → s.transfer_event_queue ≡ map web3_event transfers ++ rest
      → All (IsDeposit s.foreign_bridge_contract_address) transfers
      → IsBlocked s.foreign_bridge_contract_address rest
      → (c : ℕ) × (sent : List SignedTransaction) × (send_confirmation_transactions lib node
            (suc rounds)
            s
          ≡ some (
            stop_result rest,
            record s {
              calls = c;
              transfer_event_queue = after_stop rest;
              pending_transaction_queue = s.pending_transaction_queue ++ sent;
            },
          ))
        × Pairwise (IsConfirmation lib node s) transfers sent
  unfolding send_confirmation_transactions
  send_confirmation_transactions_lem rounds transfers rest s enough queued deposits blocked =
      let (c, sent, done, confirmed) = sends_all rounds transfers rest s enough deposits blocked in
      (c, sent, ap (λ q. send_queued lib node (suc rounds) q s) queued ∙ done, confirmed)
