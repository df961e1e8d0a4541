-- ===== src/Bridge/Tests/Fetching.antt =====
-- The event fetcher and the node status.
use mathlib.Core.List.{Perm}
use trustlines_blockchain.Prelude.{
  ◌≡◌, refl, String, true, false, ◌||◌, some, none, is_some, List, [], ◌∷◌, ◌++◌, arith, ok, ◌⊎◌,
  if◌then◌else◌, ◌&&◌,
}
use trustlines_blockchain.Prelude.Classes.{string_eq, ◌==◌}
use trustlines_blockchain.Prelude.Int.{ℤ, pos, negsuc, ◌≤ℤ◌, ◌-ℤ◌, ◌+ℤ◌, leb_ℤ, +ℤ_parts}
use trustlines_blockchain.Bridge.Events.{Web3Event, ChainRole}
use trustlines_blockchain.Bridge.NodeStatus.{
  NodeStatus, NodeAnswers, get_node_status, get_node_status_parity, parse_block_gap, synced_block,
}
use trustlines_blockchain.Bridge.NodeStatus.Synced.{tells_gaps, warp_gap, get_node_status_lem}
use trustlines_blockchain.Bridge.Fetcher.{
  ArgumentFilters, Node, EventFetcher, from_block, fetch_some_events, fetch_rounds, make_fetcher,
}
use trustlines_blockchain.Bridge.Fetcher.Ranges.{IsChain, logs_between}
use trustlines_blockchain.Bridge.Fetcher.Steps.{IsReady, Fetched}
use trustlines_blockchain.Bridge.Fetcher.Progress.{fetch_some_events_lem}
use trustlines_blockchain.Bridge.Fetcher.Joined.{contract_events}
use trustlines_blockchain.Bridge.Fetcher.Delivery.{fetch_rounds_deliver}
use trustlines_blockchain.Bridge.Setup.{Config, make_transfer_event_fetcher}
use trustlines_blockchain.Bridge.Setup.Fetched.{make_transfer_event_fetcher_lem}
use trustlines_blockchain.Bridge.Tests.Samples.{transfer}
use trustlines_blockchain.Bridge.Tests.Making.{config, chain_config}

abbrev synced : NodeStatus
synced = record {
  is_syncing = false;
  block_number = 9;
  latest_synced_block = pos 9;
  syncing_map = none;
  client_version = "Geth";
  is_light_node = none;
  block_gap = none;
  timestamp = pos 0;
}

-- One transfer, in block 3.
abbrev logs : String → ℤ → ℤ → ArgumentFilters → List Web3Event
logs name a b filters = if leb_ℤ a (pos 3) && leb_ℤ (pos 3) b then transfer 3 2 ∷ [] else []

abbrev node : Node
node = record { second = pos 1; time = λ t. pos t; status = λ t. synced; get_logs = λ t. logs }

abbrev fetcher : EventFetcher
fetcher = record {
  chain_role = ChainRole.foreign;
  filter_definition = ("Transfer", []) ∷ [];
  event_fetch_limit = pos 2;
  max_reorg_depth = pos 4;
  last_fetched_block_number = negsuc 0;
  node_status = none;
  event_queue = [];
  calls = 0;
}

made : make_fetcher ChainRole.foreign (("Transfer", []) ∷ []) (pos 2) (pos 4) (pos 0) ≡ ok fetcher
unfolding make_fetcher ◌-ℤ◌
made = refl

chain : IsChain node logs (pos 5)
chain = record {
  answers = λ t name a b filters h. refl;
  splits = λ name a b c filters h k m. ground (arith, +ℤ_parts b (pos 1));
}

ready : IsReady node (pos 5) fetcher
ready = record {
  some_blocks = omega arith;
  from_start = omega arith;
  safe = λ t. unfold ◌-ℤ◌ in omega arith;
  cached_safe = λ s e. cc;
}

fetch_some_events_lem_example :
    (f' : EventFetcher) × (events : List Web3Event) × (fetch_some_events node 8 fetcher
      ≡ some (ok events, f'))
    × Fetched chain fetcher f' events
fetch_some_events_lem_example =
    fetch_some_events_lem chain 7 fetcher ready (unfold ◌+ℤ◌ in omega arith)

fetch_rounds_deliver_example :
    (f' : EventFetcher) × (fetch_rounds node 2 8 fetcher ≡ some (ok tt, f'))
    × Perm (contract_events f'.event_queue) (
        contract_events fetcher.event_queue
        ++ logs_between logs fetcher.filter_definition
            (from_block fetcher)
            f'.last_fetched_block_number)
    × (fetcher.last_fetched_block_number ≤ℤ f'.last_fetched_block_number)
    × ((f'.last_fetched_block_number ≡ fetcher.last_fetched_block_number)
        ⊎ (f'.last_fetched_block_number ≤ℤ pos 5))
fetch_rounds_deliver_example =
    fetch_rounds_deliver chain 2 7 fetcher ready (unfold ◌+ℤ◌ in omega arith)

abbrev answers : NodeAnswers
answers = record {
  client_version = "Parity-Ethereum//v2";
  block_number = 90;
  syncing = none;
  chain_status_block_gap = some ("0x1f" ∷ "0x2a" ∷ []);
  node_kind_capability = "full";
  time = pos 7;
}

abbrev warped : NodeStatus
warped = record {
  is_syncing = true;
  block_number = 90;
  latest_synced_block = pos 30;
  syncing_map = none;
  client_version = "Parity-Ethereum//v2";
  is_light_node = some false;
  block_gap = some (31 ∷ 42 ∷ []);
  timestamp = pos 7;
}

warped_node : get_node_status answers ≡ ok warped
unfolding get_node_status get_node_status_parity parse_block_gap synced_block ◌-ℤ◌
warped_node = refl

get_node_status_lem_example :
    (warped.is_syncing ≡ (is_some answers.syncing || warp_gap answers))
    × (warped.is_syncing ≡ false → warped.latest_synced_block ≡ pos warped.block_number)
    × (warped.is_light_node
        ≡ (if tells_gaps answers then some (answers.node_kind_capability == "light") else none))
    × ((if tells_gaps answers then parse_block_gap answers.chain_status_block_gap else ok none)
        ≡ ok warped.block_gap)
    × (warped.syncing_map ≡ answers.syncing)
    × (warped.block_number ≡ answers.block_number)
    × (warped.client_version ≡ answers.client_version)
    × (warped.timestamp ≡ answers.time)
get_node_status_lem_example = get_node_status_lem answers warped_node

-- The foreign chain is safe four blocks deep.
abbrev foreign_config : Config
foreign_config = record config {
  foreign_chain = record {
    chain = record chain_config { max_reorg_depth = 4 };
    token_contract_address = [];
  };
}

make_transfer_event_fetcher_lem_example :
    (f : EventFetcher) × (f' : EventFetcher) × (make_transfer_event_fetcher foreign_config ≡ ok f)
    × (f.chain_role ≡ ChainRole.foreign)
    × (fetch_rounds node 2 8 f ≡ some (ok tt, f'))
    × Perm (contract_events f'.event_queue) (
        logs_between logs (("Transfer", ("to", []) ∷ []) ∷ []) (pos 0) f'.last_fetched_block_number)
    × (pos 0 -ℤ pos 1 ≤ℤ f'.last_fetched_block_number)
    × ((f'.last_fetched_block_number ≡ pos 0 -ℤ pos 1) ⊎ (f'.last_fetched_block_number ≤ℤ pos 5))
make_transfer_event_fetcher_lem_example =
    make_transfer_event_fetcher_lem chain foreign_config 2 7 (λ t. unfold ◌-ℤ◌ in omega arith)
      (unfold ◌+ℤ◌ ◌-ℤ◌ in omega arith)
