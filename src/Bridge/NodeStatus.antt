-- ===== src/Bridge/NodeStatus.antt =====
-- bridge/src/bridge/node_status.py: whether a node is syncing, and how far it is.
pub mod Synced
use Prim.Native.Char.{code}
use Prim.Native.String.{[] as end_of_text, ◌∷◌ as text_cons}
use text.Mathlib.Text.{starts_with}
use mathlib.Core.Option
use trustlines_blockchain.Prelude.{
  ℕ, ◌+◌, ◌-◌, ◌*◌, String, Bool, true, false, not, ◌&&◌, ◌||◌, Option, none, some, List, [], ◌∷◌,
  Result, ok, err, value_error, and_then, is_some, leb, nat_eqb, if◌then◌else◌,
}
use trustlines_blockchain.Prelude.Int.{ℤ, pos, ◌-ℤ◌}
use trustlines_blockchain.Prelude.Classes.{string_eq, ◌==◌}
use trustlines_blockchain.Prelude.Loops.{wait_until}

-- `w3.eth.syncing` where it is not False.
pub record SyncingMap : Type 0 where
  pub current_block : ℕ

pub record NodeStatus : Type 0 where
  pub is_syncing : Bool
  pub block_number : ℕ
  pub latest_synced_block : ℤ
  pub syncing_map : Option SyncingMap
  pub client_version : String
  pub is_light_node : Option Bool
  pub block_gap : Option (List ℕ)
  pub timestamp : ℤ

-- The answers of a node to the calls of `get_node_status`.
pub record NodeAnswers : Type 0 where
  pub client_version : String
  pub block_number : ℕ
  pub syncing : Option SyncingMap
  pub chain_status_block_gap : Option (List String)
  pub node_kind_capability : String
  pub time : ℤ

hex_digit : ℕ → Option ℕ
hex_digit c =
    if leb b'0' c && leb c b'9'
    then some (c - b'0')
    else if leb b'a' c && leb c b'f'
    then some (c - b'a' + 10)
    else if leb b'A' c && leb c b'F'
    then some (c - b'A' + 10)
    else none

hex_digits : ℕ → List ℕ → Result ℕ
hex_digits n [] = ok n
hex_digits n (c ∷ cs) = elim (hex_digit c) [
  | none ↦ err value_error
  | some d ↦ hex_digits (n * 16 + d) cs
]

codes : String → List ℕ
codes end_of_text = []
codes (text_cons c s) = code c ∷ codes s

-- `int(x, 16)` of a quantity as JSON-RPC writes it: digits, mostly behind `0x`. The signs, spaces
-- and underscores that Python takes too are a ValueError here.
parse_hex : List ℕ → Result ℕ
parse_hex [] = err value_error
parse_hex (a ∷ []) = hex_digits 0 (a ∷ [])
parse_hex (a ∷ b ∷ []) = hex_digits 0 (a ∷ b ∷ [])
parse_hex (a ∷ b ∷ c ∷ cs) =
    if nat_eqb a b'0' && (nat_eqb b b'x' || nat_eqb b b'X')
    then hex_digits 0 (c ∷ cs)
    else hex_digits 0 (a ∷ b ∷ c ∷ cs)

parse_all : List String → Result (List ℕ)
parse_all [] = ok []
parse_all (x ∷ xs) = and_then (parse_hex (codes x)) λ n. and_then (parse_all xs) λ ns. ok (n ∷ ns)

unfoldable pub parse_block_gap : Option (List String) → Result (Option (List ℕ))
unfolding parse_all parse_hex hex_digits hex_digit codes
parse_block_gap none = ok none
parse_block_gap (some xs) = and_then (parse_all xs) λ ns. ok (some ns)

-- The branches that choose `is_syncing` and `latest_synced_block`. An empty list, as None, is no
-- gap.
unfoldable pub synced_block : Option (List ℕ) → Bool → Option SyncingMap → ℕ → Bool × ℤ
synced_block (some (first ∷ _)) false syncing_map block_number = (true, pos first -ℤ pos 1)
synced_block _ _ (some m) block_number = (true, pos m.current_block)
synced_block _ _ none block_number = (false, pos block_number)

unfoldable pub get_node_status_parity : NodeAnswers → Result NodeStatus
get_node_status_parity w3 = and_then (parse_block_gap w3.chain_status_block_gap) λ block_gap.
    let is_light_node = w3.node_kind_capability == "light" in
    let (is_syncing, latest) = synced_block block_gap is_light_node w3.syncing w3.block_number in
    ok (record {
      is_syncing = is_syncing;
      block_number = w3.block_number;
      latest_synced_block = latest;
      syncing_map = w3.syncing;
      client_version = w3.client_version;
      is_light_node = some is_light_node;
      block_gap = block_gap;
      timestamp = w3.time;
    })

unfoldable pub get_node_status_geth : NodeAnswers → Result NodeStatus
get_node_status_geth w3 = ok (record {
  is_syncing = is_some w3.syncing;
  block_number = w3.block_number;
  latest_synced_block = pos w3.block_number;
  syncing_map = w3.syncing;
  client_version = w3.client_version;
  is_light_node = none;
  block_gap = none;
  timestamp = w3.time;
})

unfoldable pub get_node_status : NodeAnswers → Result NodeStatus
get_node_status w3 =
    if starts_with w3.client_version "Parity"
    then get_node_status_parity w3
    else if starts_with w3.client_version "OpenEthereum"
    then get_node_status_parity w3
    else get_node_status_geth w3

-- `wait_for_node_status`: the n-th round asks for `statuses n`, a failed call being repeated inside.
unfoldable pub wait_for_node_status :
    ℕ → (ℕ → NodeStatus) → (NodeStatus → Bool) → ℕ → Option NodeStatus
wait_for_node_status fuel statuses predicate t =
    Option.map statuses (wait_until fuel (λ n. predicate (statuses n)) t)
