-- ===== src/Bridge/Fetcher.antt =====
-- bridge/src/bridge/event_fetcher.py, `class EventFetcher`: fetches contract events range by range,
-- from a start block up to the newest block that a reorganisation cannot reach.
-- A remote call that fails is repeated (tenacity's `Retrying`), so it is modelled by the answer that
-- it returns in the end.
pub mod Ranges
pub mod Steps
pub mod Progress
pub mod Joined
pub mod Delivery
use trustlines_blockchain.Prelude.{
  ℕ, zero, suc, ◌+◌, String, Bool, true, false, not, Option, none, some, List, [], ◌∷◌, ◌++◌, map,
  Result, ok, err, value_error, Action, ◌>>=◌, ◌>>◌, pure, raise_if, if◌then◌else◌,
}
use trustlines_blockchain.Prelude.Int.{ℤ, pos, ◌+ℤ◌, ◌-ℤ◌, ltb_ℤ, leb_ℤ, min_ℤ}
use trustlines_blockchain.Prelude.Classes.{Bytes}
use trustlines_blockchain.Bridge.Events.{
  Event, web3_event, fetcher_reached_head, Web3Event, FetcherReachedHeadEvent, ChainRole,
}
use trustlines_blockchain.Bridge.Utils.{sort_events}
use trustlines_blockchain.Bridge.NodeStatus.{NodeStatus}

-- The argument filters of one event name, handed to `getLogs`.
abbrev pub ArgumentFilters : Type 0
ArgumentFilters = List (String × Bytes)

-- The node and the clock, by the number of calls made so far; `second` is a second in ticks.
pub record Node : Type 0 where
  pub second : ℤ
  pub time : ℕ → ℤ
  pub status : ℕ → NodeStatus
  pub get_logs : ℕ → String → ℤ → ℤ → ArgumentFilters → List Web3Event

-- `calls` counts the remote calls, to tell the answers apart.
pub record EventFetcher : Type 0 where
  pub chain_role : ChainRole
  pub filter_definition : List (String × ArgumentFilters)
  pub event_fetch_limit : ℤ
  pub max_reorg_depth : ℤ
  pub last_fetched_block_number : ℤ
  pub node_status : Option NodeStatus
  pub event_queue : List Event
  pub calls : ℕ

-- `__init__`
unfoldable pub make_fetcher :
    ChainRole → List (String × ArgumentFilters) → ℤ → ℤ → ℤ → Result EventFetcher
make_fetcher chain_role filter_definition event_fetch_limit max_reorg_depth start_block_number =
    if leb_ℤ event_fetch_limit (pos 0)
    then err value_error
    else if ltb_ℤ max_reorg_depth (pos 0)
    then err value_error
    else if ltb_ℤ start_block_number (pos 0)
    then err value_error
    else ok (record {
      chain_role = chain_role;
      filter_definition = filter_definition;
      event_fetch_limit = event_fetch_limit;
      max_reorg_depth = max_reorg_depth;
      last_fetched_block_number = start_block_number -ℤ pos 1;
      node_status = none;
      event_queue = [];
      calls = 0;
    })

unfoldable pub from_block : EventFetcher → ℤ
from_block f = f.last_fetched_block_number +ℤ pos 1

unfoldable pub put_events : List Web3Event → EventFetcher → EventFetcher
put_events events f = record f { event_queue = f.event_queue ++ map web3_event events }

module _ (node : Node) where
  -- No status yet, or one that is older than NODE_STATUS_CACHE_TIME_SECONDS.
  unfoldable pub is_stale : EventFetcher → Bool
  is_stale f = elim f.node_status [
    | none ↦ true
    | some s ↦ ltb_ℤ node.second (node.time f.calls -ℤ s.timestamp)
  ]

  -- `_rpc_get_cached_node_status`
  unfoldable pub cached_status : EventFetcher → NodeStatus
  cached_status f = elim f.node_status [
    | none ↦ node.status f.calls
    | some s ↦ if is_stale f then node.status f.calls else s
  ]

  unfoldable pub with_cached_status : EventFetcher → EventFetcher
  with_cached_status f = record f { node_status = some (cached_status f); calls = f.calls + 1 }

  -- The loop over `filter_definition` in `fetch_events_in_range`.
  unfoldable pub fetch_logs :
      List (String × ArgumentFilters) → ℤ → ℤ → EventFetcher → List Web3Event × EventFetcher
  fetch_logs [] from to f = ([], f)
  fetch_logs ((event_name, argument_filters) ∷ definitions) from to f =
      let fetched = node.get_logs f.calls event_name from to argument_filters in
      let (events, f') = fetch_logs definitions from to (record f { calls = f.calls + 1 }) in
      (fetched ++ events, f')

  unfoldable pub fetch_events_in_range : ℤ → ℤ → Action EventFetcher (List Web3Event)
  fetch_events_in_range from to f =
      if ltb_ℤ from (pos 0)
      then (err value_error, f)
      else if ltb_ℤ to from
      then (err value_error, f)
      else (let (events, f') = fetch_logs f.filter_definition from to f in
          (ok (sort_events events), f'))

  unfoldable pub reorg_safe_block : EventFetcher → ℤ
  reorg_safe_block f = (cached_status f).latest_synced_block -ℤ f.max_reorg_depth

  unfoldable pub to_block : EventFetcher → ℤ
  to_block f = min_ℤ (from_block f +ℤ f.event_fetch_limit -ℤ pos 1) (reorg_safe_block f)

  -- The end of a round: `again` is the next one.
  unfoldable pub finish_range :
      (EventFetcher → Option (Result (List Web3Event) × EventFetcher))
      → ℤ
      → Result (List Web3Event) × EventFetcher
      → Option (Result (List Web3Event) × EventFetcher)
  finish_range again to (err x, f) = some (err x, f)
  finish_range again to (ok [], f) = again (record f { last_fetched_block_number = to })
  finish_range again to (ok (e ∷ es), f) =
      some (ok (e ∷ es), record f { last_fetched_block_number = to })

  -- `fetch_some_events`; `none` if the fuel runs out.
  unfoldable pub fetch_some_events :
      ℕ → EventFetcher → Option (Result (List Web3Event) × EventFetcher)
  fetch_some_events zero f = none
  fetch_some_events (suc fuel) f = elim (ltb_ℤ (to_block f) (from_block f)) [
    | true ↦ some (ok [], with_cached_status f)
    | false ↦
        finish_range (fetch_some_events fuel) (to_block f)
          (fetch_events_in_range (from_block f) (to_block f) (with_cached_status f))
  ]

  -- The `if not events` of `fetch_events`, up to the sleep.
  unfoldable pub report_head : EventFetcher → EventFetcher
  report_head f =
      let reached_head_event : FetcherReachedHeadEvent = record {
        timestamp = node.time f.calls;
        chain_role = f.chain_role;
        last_fetched_block_number = f.last_fetched_block_number;
      } in
      if (cached_status f).is_syncing then with_cached_status f else record (with_cached_status f) {
        event_queue = f.event_queue ++ fetcher_reached_head reached_head_event ∷ [];
      }

  -- One round of the loop of `fetch_events`.
  unfoldable pub fetch_round : ℕ → EventFetcher → Option (Result (Unit {0}) × EventFetcher)
  fetch_round fuel f = elim (fetch_some_events fuel f) [
    | none ↦ none
    | some (result, f') ↦ some (elim result [
      | err x ↦ (err x, f')
      | ok events ↦ elim events [
        | [] ↦ (ok tt, report_head f')
        | e ∷ es ↦ (ok tt, put_events (e ∷ es) f')
      ]
    ])
  ]

  -- `fetch_events`, for a number of rounds of its endless loop, each with the same fuel.
  unfoldable pub fetch_rounds : ℕ → ℕ → EventFetcher → Option (Result (Unit {0}) × EventFetcher)
  fetch_rounds zero fuel f = some (ok tt, f)
  fetch_rounds (suc rounds) fuel f = elim (fetch_round fuel f) [
    | none ↦ none
    | some (result, f') ↦ elim result [
      | err x ↦ some (err x, f')
      | ok _ ↦ fetch_rounds rounds fuel f'
    ]
  ]

  unfoldable pub fetch_events : ℤ → ℕ → ℕ → EventFetcher → Option (Result (Unit {0}) × EventFetcher)
  fetch_events poll_interval rounds fuel f =
      if leb_ℤ poll_interval (pos 0) then some (err value_error, f) else fetch_rounds rounds fuel f
