-- ===== src/Bridge/Sender/Sent.antt =====
-- One transfer of the confirmation sender: when it is taken by the node.
use trustlines_blockchain.Prelude.{
  ℕ, zero, suc, ◌+◌, ◌≤◌, ◌<◌, ◌≡◌, refl, ap, String, Bool, Option, some, [], ◌∷◌, ◌++◌, Result, ok,
  err, nonce_too_low, ◌⊎◌, inl, inr, Bool-cases, leb, arith,
}
use trustlines_blockchain.Prelude.Classes.{Bytes, string_eq}
use trustlines_blockchain.Prelude.Loops.{retry-total}
use trustlines_blockchain.Bridge.Eth.{EthLib}
use trustlines_blockchain.Bridge.Events.{
  Web3Event, transfer_args, confirmation_transaction_gas_limit,
}
use trustlines_blockchain.Bridge.Utils.{compute_transfer_hash}
use trustlines_blockchain.Bridge.Sender.{
  RemoteError, HomeNode, Transaction, SignedTransaction, ConfirmationSender, send_outcome,
  is_nonce_too_low, nonce_answer, get_next_nonce, send_confirmation_transaction, prepare_with,
  prepare_confirmation_transaction, send_attempt, send_confirmation_from_transfer_event,
}

-- From call `calm` on the node is up: it gives nonces, and takes what is sent.
pub record IsCalm (node : HomeNode) (calm : ℕ) : Type 0 where
  pub gives_nonce :
      (is_parity : Bool) (t : ℕ) → calm ≤ t → (n : ℕ) × (nonce_answer node is_parity t ≡ some n)
  pub takes :
      (raw : Bytes) (t : ℕ)
      → calm ≤ t
      → (tx_hash : Bytes) × (node.send_raw_transaction t raw ≡ inl tx_hash)

-- A transfer to the foreign bridge.
abbrev pub IsDeposit : String → Web3Event → Type 0
IsDeposit address e = (from : String) × (value : ℕ) × (e.args ≡ transfer_args from address value)

-- The call that confirms a transfer of `value` by `from`.
abbrev pub confirmation : EthLib → ConfirmationSender → Web3Event → String → ℕ → ℕ → Transaction
confirmation lib s e from value nonce = record {
  transfer_hash = compute_transfer_hash lib e;
  transaction_hash = e.transaction_hash;
  amount = value;
  recipient = from;
  gas_price = s.gas_price;
  nonce = nonce;
  gas = confirmation_transaction_gas_limit;
  chain_id = s.chain_id;
}

-- The signed confirmation of a transfer, with a nonce that the node gave before it took it.
abbrev pub IsConfirmation :
    EthLib → HomeNode → ConfirmationSender → Web3Event → SignedTransaction → Type 0
IsConfirmation lib node s e signed =
    (nonce : ℕ) × (asked : ℕ) × (sent : ℕ) × (tx_hash : Bytes) × (from : String) × (to : String)
    × (value : ℕ) × (e.args ≡ transfer_args from to value)
    × (signed ≡ node.sign_transaction (confirmation lib s e from value nonce) s.private_key)
    × (nonce_answer node s.is_parity asked ≡ some nonce)
    × (asked < sent)
    × (node.send_raw_transaction sent signed.raw_transaction ≡ inl tx_hash)

-- What one attempt comes to, from a state of the sender: the confirmation is taken, or the nonce
-- was too low, which takes two calls at least.
abbrev AttemptEnds : EthLib → HomeNode → ℕ → ℕ → Web3Event → ConfirmationSender → Type 0
AttemptEnds lib node calm fuel e s =
    ((c : ℕ) × (tx_hash : Bytes) × (signed : SignedTransaction) × (send_attempt lib node fuel e s
        ≡ some (
          ok tx_hash,
          record s {
            calls = c;
            pending_transaction_queue = s.pending_transaction_queue ++ signed ∷ [];
          },
        ))
      × (s.calls ≤ c)
      × IsConfirmation lib node s e signed)
    ⊎ ((c : ℕ) × (send_attempt lib node fuel e s ≡ some (err nonce_too_low, record s { calls = c }))
        × (s.calls < c)
        × (c ≤ calm))

send_outcome-cases :
    (answer : Bytes ⊎ RemoteError) (r : Result Bytes)
    → send_outcome answer ≡ some r
    → ((tx_hash : Bytes) × (answer ≡ inl tx_hash) × (r ≡ ok tx_hash))
      ⊎ ((e : RemoteError) × (answer ≡ inr e) × (r ≡ err nonce_too_low))
unfolding send_outcome
send_outcome-cases (inl tx_hash) r h = inl (tx_hash, refl, ground arith)
send_outcome-cases (inr e) r h = inr (e, refl, ground arith)

taken-send_outcome :
    (answer : Bytes ⊎ RemoteError)
    → (tx_hash : Bytes) × (answer ≡ inl tx_hash)
    → (r : Result Bytes) × (send_outcome answer ≡ some r)
unfolding send_outcome
taken-send_outcome answer (tx_hash, e) = (ok tx_hash, rw e refl)

module _ (lib : EthLib) (node : HomeNode) where
  prepared :
      (s : ConfirmationSender) (e : Web3Event) (nonce value : ℕ) (from to : String)
      → e.args ≡ transfer_args from to value
      → prepare_confirmation_transaction lib node s e nonce
        ≡ ok (node.sign_transaction (confirmation lib s e from value nonce) s.private_key)
  unfolding prepare_confirmation_transaction prepare_with
  prepared s e nonce value from to h = ap (prepare_with lib node s e nonce) h

  attempt_steps :
      (fuel nonce : ℕ) (s s' : ConfirmationSender) (e : Web3Event) (signed : SignedTransaction)
      {r : Option (Result Bytes × ConfirmationSender)}
      → get_next_nonce node fuel s ≡ some (nonce, s')
      → prepare_confirmation_transaction lib node s' e nonce ≡ ok signed
      → send_confirmation_transaction node fuel signed s' ≡ r
      → send_attempt lib node fuel e s ≡ r
  unfolding send_attempt
  attempt_steps fuel nonce s s' e signed asked made sent = rw (send_attempt, asked, made) sent

module _ {node : HomeNode} {calm : ℕ} (v : IsCalm node calm) where
  get_next_nonce-total :
      (fuel : ℕ) (s : ConfirmationSender)
      → calm < fuel
      → (nonce : ℕ) × (t : ℕ) × (get_next_nonce node fuel s
          ≡ some (nonce, record s { calls = t + 1 }))
        × (nonce_answer node s.is_parity t ≡ some nonce)
        × (s.calls ≤ t)
  unfolding get_next_nonce
  get_next_nonce-total fuel s h =
      let k = s.calls + calm in
      let (nonce, t, asked, given, later, _) =
        retry-total fuel (nonce_answer node s.is_parity) s.calls k (omega arith) (omega arith)
          (v.gives_nonce s.is_parity k (omega arith)) in
      (nonce, t, rw (asked, get_next_nonce) refl, given, later)

  refused-lt-calm :
      (raw : Bytes) (t : ℕ) (e : RemoteError) → node.send_raw_transaction t raw ≡ inr e → t < calm
  refused-lt-calm raw t e refused = elim (Bool-cases (leb calm t)) [
    | inl after ↦ let (tx_hash, taken) = v.takes raw t (ground arith) in ground arith
    | inr before ↦ ground arith
  ]

  send-total :
      (fuel : ℕ) (signed : SignedTransaction) (s : ConfirmationSender)
      → calm < fuel
      → (t : ℕ) × (s.calls ≤ t)
        × (((tx_hash : Bytes) × (node.send_raw_transaction t signed.raw_transaction ≡ inl tx_hash)
              × (send_confirmation_transaction node fuel signed s
                  ≡ some (
                    ok tx_hash,
                    record s {
                      calls = t + 1;
                      pending_transaction_queue = s.pending_transaction_queue ++ signed ∷ [];
                    },
                  )))
            ⊎ ((send_confirmation_transaction node fuel signed s
                  ≡ some (err nonce_too_low, record s { calls = t + 1 }))
                × (t < calm)))
  unfolding send_confirmation_transaction
  send-total fuel signed s h =
      let k = s.calls + calm in
      let raw = signed.raw_transaction in
      let (r, t, called, answered, later, _) =
        retry-total fuel (λ n. send_outcome (node.send_raw_transaction n raw)) s.calls k
          (omega arith) (omega arith)
          (taken-send_outcome (node.send_raw_transaction k raw) (v.takes raw k (omega arith))) in
      (
        t,
        later,
        elim (send_outcome-cases (node.send_raw_transaction t raw) r answered) [
          | inl (tx_hash, taken, is_ok) ↦
              inl (tx_hash, taken, rw (called, is_ok, send_confirmation_transaction) refl)
          | inr (e, refused, is_err) ↦ inr (
            rw (called, is_err, send_confirmation_transaction) refl,
            refused-lt-calm raw t e refused,
          )
        ],
      )

  module _ (lib : EthLib) where
    attempt_ends :
        (fuel : ℕ) (s : ConfirmationSender) (e : Web3Event)
        → calm < fuel
        → IsDeposit s.foreign_bridge_contract_address e
        → AttemptEnds lib node calm fuel e s
    attempt_ends fuel s e h (from, value, deposit) =
        let (nonce, t, asked, given, later) = get_next_nonce-total fuel s h in
        let signed = node.sign_transaction (confirmation lib s e from value nonce) s.private_key in
        let (u, after, sent) = send-total fuel signed (record s { calls = t + 1 }) h in
        elim sent [
          | inl (tx_hash, taken, done) ↦ inl (
            u + 1,
            tx_hash,
            signed,
            (attempt_steps lib node fuel nonce s (record s { calls = t + 1 }) e signed asked
                (prepared lib node (record s { calls = t + 1 }) e nonce value from
                  s.foreign_bridge_contract_address deposit)
                done),
            omega arith,
            (
              nonce,
              t,
              u,
              tx_hash,
              from,
              s.foreign_bridge_contract_address,
              value,
              deposit,
              refl,
              given,
              omega arith,
              taken,
            ),
          )
          | inr (refused, early) ↦ inr (
            u + 1,
            (attempt_steps lib node fuel nonce s (record s { calls = t + 1 }) e signed asked
                (prepared lib node (record s { calls = t + 1 }) e nonce value from
                  s.foreign_bridge_contract_address deposit)
                refused),
            omega arith,
            omega arith,
          )
        ]

    again_step :
        (rounds fuel : ℕ) (s s' : ConfirmationSender) (e : Web3Event)
        {r : Option (Result Bytes × ConfirmationSender)}
        → send_attempt lib node fuel e s ≡ some (err nonce_too_low, s')
        → send_confirmation_from_transfer_event lib node rounds fuel e s' ≡ r
        → send_confirmation_from_transfer_event lib node (suc rounds) fuel e s ≡ r
    unfolding is_nonce_too_low send_confirmation_from_transfer_event
    again_step rounds fuel s s' e refused rest =
        rw (send_confirmation_from_transfer_event, refused) rest

    -- With as many rounds as calls that can fail, the transfer's confirmation is taken.
    pub send_ends :
        (rounds fuel : ℕ) (s : ConfirmationSender) (e : Web3Event)
        → calm < fuel
        → calm ≤ s.calls + rounds
        → IsDeposit s.foreign_bridge_contract_address e
        → (c : ℕ) × (tx_hash : Bytes) × (signed : SignedTransaction)
          × (send_confirmation_from_transfer_event lib node (suc rounds) fuel e s
              ≡ some (
                ok tx_hash,
                record s {
                  calls = c;
                  pending_transaction_queue = s.pending_transaction_queue ++ signed ∷ [];
                },
              ))
          × (s.calls ≤ c)
          × IsConfirmation lib node s e signed
    unfolding send_confirmation_from_transfer_event
    send_ends zero fuel s e h enough deposit = elim (attempt_ends fuel s e h deposit) [
      | inl (c, tx_hash, signed, done, later, ended) ↦
          (c, tx_hash, signed, rw (send_confirmation_from_transfer_event, done) refl, later, ended)
      | inr (c, refused, forward, early) ↦ absurd (omega arith)
    ]
    send_ends (suc rounds) fuel s e h enough deposit = elim (attempt_ends fuel s e h deposit) [
      | inl (c, tx_hash, signed, done, later, ended) ↦
          (c, tx_hash, signed, rw (send_confirmation_from_transfer_event, done) refl, later, ended)
      | inr (c, refused, forward, early) ↦
          let (d, tx_hash, signed, done, later, ended) =
            send_ends rounds fuel (record s { calls = c }) e h (omega arith) deposit in
          (
            d,
            tx_hash,
            signed,
            again_step (suc rounds) fuel s (record s { calls = c }) e refused done,
            omega arith,
            ended,
          )
    ]
