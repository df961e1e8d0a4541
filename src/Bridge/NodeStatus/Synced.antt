-- ===== src/Bridge/NodeStatus/Synced.antt =====
-- When a node counts as syncing, and up to which block it has the chain.

use text.Mathlib.Text.{starts_with}
use trustlines_blockchain.Prelude.{
  ◌≡◌, ℕ, String, Bool, Option, List, true, false, not, ◌||◌, ◌&&◌, none, some, [], ◌∷◌, ok, arith,
  is_some, if◌then◌else◌,
}
use trustlines_blockchain.Prelude.Int.{pos}
use trustlines_blockchain.Prelude.Classes.{string_eq, ◌==◌}
use trustlines_blockchain.Bridge.NodeStatus.{
  NodeStatus, NodeAnswers, synced_block, parse_block_gap, get_node_status_parity,
  get_node_status_geth, get_node_status,
}

-- The clients that report block gaps and whether they are light nodes.
abbrev pub tells_gaps : NodeAnswers → Bool
tells_gaps w3 =
    starts_with w3.client_version "Parity" || starts_with w3.client_version "OpenEthereum"

-- Neither None nor an empty list.
abbrev pub is_gap {ℓ} : {A : Type ℓ} → Option (List A) → Bool
is_gap none = false
is_gap (some []) = false
is_gap (some (first ∷ rest)) = true

-- A full node answers with a gap in its chain, as warp mode leaves it.
abbrev pub warp_gap : NodeAnswers → Bool
warp_gap w3 =
    tells_gaps w3 && not (w3.node_kind_capability == "light") && is_gap w3.chain_status_block_gap

-- The numbers that are read from a gap are a gap.
parse_block_gap-is_gap :
    (answer : Option (List String)) (gap : Option (List ℕ))
    → parse_block_gap answer ≡ ok gap
    → is_gap gap ≡ is_gap answer
unfolding parse_block_gap
parse_block_gap-is_gap none gap h = ground arith
parse_block_gap-is_gap (some []) gap h = ground arith
parse_block_gap-is_gap (some (x ∷ xs)) gap h = ground arith

-- In a status that was read without an exception, whatever the client, a node is syncing exactly if
-- it says so itself or is a full Parity or OpenEthereum node that answers with a block gap; a node
-- that is not syncing is synced up to its newest block, and only those clients have a block gap, the
-- numbers that they answer with, and are light nodes or not. The other fields are the node's answers.
pub get_node_status_lem :
    (w3 : NodeAnswers) {s : NodeStatus}
    → get_node_status w3 ≡ ok s
    → (s.is_syncing ≡ (is_some w3.syncing || warp_gap w3))
      × (s.is_syncing ≡ false → s.latest_synced_block ≡ pos s.block_number)
      × (s.is_light_node
          ≡ (if tells_gaps w3 then some (w3.node_kind_capability == "light") else none))
      × ((if tells_gaps w3 then parse_block_gap w3.chain_status_block_gap else ok none)
          ≡ ok s.block_gap)
      × (s.syncing_map ≡ w3.syncing)
      × (s.block_number ≡ w3.block_number)
      × (s.client_version ≡ w3.client_version)
      × (s.timestamp ≡ w3.time)
unfolding get_node_status get_node_status_parity get_node_status_geth synced_block
get_node_status_lem w3 {s} h =
    let gaps = parse_block_gap-is_gap w3.chain_status_block_gap s.block_gap in
    (
      ground arith,
      λ q. ground arith,
      ground arith,
      ground arith,
      ground arith,
      ground arith,
      ground arith,
      ground arith,
    )
