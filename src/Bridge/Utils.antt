-- ===== src/Bridge/Utils.antt =====
-- bridge/src/bridge/utils.py: the hash that names a transfer, and the order of events.
pub mod Order
pub mod Stability
use trustlines_blockchain.Prelude.{
  ℕ, Bool, ◌&&◌, ◌||◌, List, [], ◌∷◌, ◌++◌, ltb, leb, nat_eqb, if◌then◌else◌,
}
use trustlines_blockchain.Prelude.Classes.{Bytes}
use trustlines_blockchain.Bridge.Eth.{EthLib}
use trustlines_blockchain.Bridge.Events.{Web3Event}

unfoldable pub compute_transfer_hash : EthLib → Web3Event → Bytes
compute_transfer_hash lib transfer_event =
    lib.keccak (transfer_event.transaction_hash ++ lib.int_to_big_endian transfer_event.log_index)

-- The tuples (blockNumber, transactionIndex, logIndex), in Python's lexicographic order.
unfoldable pub key_leb : Web3Event → Web3Event → Bool
key_leb a b =
    ltb a.block_number b.block_number
    || (nat_eqb a.block_number b.block_number
        && (ltb a.transaction_index b.transaction_index
            || (nat_eqb a.transaction_index b.transaction_index && leb a.log_index b.log_index)))

unfoldable pub insert_event : Web3Event → List Web3Event → List Web3Event
insert_event x [] = x ∷ []
insert_event x (y ∷ ys) = if key_leb x y then x ∷ y ∷ ys else y ∷ insert_event x ys

-- `list.sort` with that key, which is stable.
unfoldable pub sort_events : List Web3Event → List Web3Event
sort_events [] = []
sort_events (x ∷ xs) = insert_event x (sort_events xs)
