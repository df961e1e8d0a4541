-- ===== src/Bridge/Tests/Samples.antt =====
-- Inputs that the tests share.
use trustlines_blockchain.Prelude.{ℕ, [], ◌∷◌, true, ok, err, value_error, if◌then◌else◌}
use trustlines_blockchain.Prelude.Int.{pos, leb_ℤ}
use trustlines_blockchain.Prelude.Classes.{Bytes, string_eq, ◌==◌}
use trustlines_blockchain.Bridge.Eth.{EthLib}
use trustlines_blockchain.Bridge.Events.{
  Event, web3_event, is_validator_check, balance_check, Web3Event, transfer_args, hash_args,
}
use trustlines_blockchain.Bridge.Recorder.{TransferRecorder, init, apply_event}
use trustlines_blockchain.Bridge.Recorder.Invariant.{IsValid, init-IsValid, apply_event-IsValid}

-- A hash function without collisions, and addresses compared as they are written.
abbrev pub lib : EthLib
lib = record {
  keccak = λ b. b;
  int_to_big_endian = λ n. n ∷ [];
  is_same_address = λ a b. a == b;
  from_wei = λ w. if leb_ℤ (pos 0) w then ok "amount" else err value_error;
}

abbrev pub transfer : ℕ → ℕ → Web3Event
transfer block value = record {
  event = "Transfer";
  args = transfer_args "0xaa" "0xbb" value;
  transaction_hash = block ∷ 7 ∷ [];
  log_index = 1;
  block_number = block;
  transaction_index = 0;
}

-- The hash of `transfer block _`, which is 32 bytes long in the program.
abbrev pub hash : ℕ → Bytes
hash block = block ∷ 7 ∷ 1 ∷ []

abbrev pub word : Bytes
word =
    1 ∷ 2 ∷ 3 ∷ 4 ∷ 5 ∷ 6 ∷ 7 ∷ 8 ∷ 9 ∷ 10 ∷ 11 ∷ 12 ∷ 13 ∷ 14 ∷ 15 ∷ 16 ∷ 17 ∷ 18 ∷ 19 ∷ 20 ∷ 21
    ∷ 22 ∷ 23 ∷ 24 ∷ 25 ∷ 26 ∷ 27 ∷ 28 ∷ 29 ∷ 30 ∷ 31 ∷ 32 ∷ []

abbrev pub completion : Bytes → Web3Event
completion h = record {
  event = "TransferCompleted";
  args = hash_args h;
  transaction_hash = 9 ∷ [];
  log_index = 0;
  block_number = 50;
  transaction_index = 0;
}

abbrev pub receive : Event → TransferRecorder → TransferRecorder
receive e r = (apply_event lib e r).1

-- Two transfers seen and one other completed, a validator with enough funds.
abbrev pub validating : TransferRecorder
validating = receive (balance_check (pos 41)) (
    receive (is_validator_check true) (
      receive (web3_event (completion word)) (
        receive (web3_event (transfer 8 5)) (receive (web3_event (transfer 3 2)) (init (pos 40))))))

pub validating-IsValid : IsValid lib validating
validating-IsValid = apply_event-IsValid lib _ (balance_check (pos 41)) (
    apply_event-IsValid lib _ (is_validator_check true) (
      apply_event-IsValid lib _ (web3_event (completion word)) (
        apply_event-IsValid lib _ (web3_event (transfer 8 5))
          (apply_event-IsValid lib _ (web3_event (transfer 3 2)) (init-IsValid lib (pos 40))))))
