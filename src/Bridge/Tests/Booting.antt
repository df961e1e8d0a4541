-- ===== src/Bridge/Tests/Booting.antt =====
-- A start of the bridge and its end.
use trustlines_blockchain.Prelude.{
  ◌≡◌, refl, String, true, false, none, some, is_some, List, [], ◌∷◌, ◌++◌, map, ok,
}
use trustlines_blockchain.Prelude.Int.{pos}
use trustlines_blockchain.Bridge.NodeStatus.{NodeStatus}
use trustlines_blockchain.Bridge.Fetcher.{make_fetcher}
use trustlines_blockchain.Bridge.Sender.{make_sanity_check_transfer}
use trustlines_blockchain.Bridge.Config.{get_validator_private_key, key_from_keystore}
use trustlines_blockchain.Bridge.Setup.{
  make_validator_address, make_transfer_event_fetcher, make_home_bridge_event_fetcher,
  make_validator_status_watcher, make_confirmation_sender, make_webservice, is_synced,
}
use trustlines_blockchain.Bridge.Boot.{
  Boot, booted, Event, system_begins, home_polled, foreign_polled, joined, sanity_check_failed,
  main_service, is_main, any, make_main_services, run_events,
}
use trustlines_blockchain.Bridge.Boot.Histories.{
  Code, home_passed, foreign_passed, asks_to_stop, refuses_transfer, start_order, exit_codes,
}
use trustlines_blockchain.Bridge.Boot.Starts.{polls, webservice_tasks, start_lem}
use trustlines_blockchain.Bridge.Tests.Making.{config, files, addresses, home}

abbrev boot : Boot
boot = record { lib = addresses; files = files; config = config; cleans_up = true }

abbrev synced : NodeStatus
synced = record {
  is_syncing = false;
  block_number = 7;
  latest_synced_block = pos 7;
  timestamp = pos 0;
  syncing_map = none;
  client_version = "Geth";
  is_light_node = none;
  block_gap = none;
}

abbrev main_names : List String
main_names =
    "fetch-foreign-bridge-events" ∷ "fetch-home-bridge-events" ∷ "validator-status-watcher"
    ∷ "validator_balance_watcher" ∷ "log-internal-state" ∷ "send-confirmation-transactions"
    ∷ "watch-pending-transactions" ∷ "process-transfer-events" ∷ "process-home-bridge-events"
    ∷ "process-control-events" ∷ []

webservice_made : make_webservice config.webservice ≡ ok (some ("0.0.0.0", 5000))
unfolding make_webservice
webservice_made = refl

node_synced : is_synced 0 synced ≡ true
unfolding is_synced
node_synced = refl

services_made : make_main_services addresses files home config ≡ ok main_names
unfolding make_main_services make_transfer_event_fetcher make_home_bridge_event_fetcher
    make_validator_status_watcher make_confirmation_sender make_validator_address make_fetcher
    get_validator_private_key key_from_keystore make_sanity_check_transfer
services_made = refl

start_lem_example :
    run_events boot (system_begins ∷ (polls false synced synced ++ joined home ∷ [])) booted
    ≡ record {
      pool = webservice_tasks (some ("0.0.0.0", 5000)) ++ map main_service main_names;
      waiting = false;
      home_ready = true;
      foreign_ready = true;
      exit_code = none;
    }
start_lem_example =
    start_lem boot false synced synced home (some ("0.0.0.0", 5000)) main_names webservice_made
      node_synced node_synced services_made

abbrev start_events : List Event
start_events = system_begins ∷ (polls false synced synced ++ joined home ∷ [])

main_runs : any is_main (run_events boot start_events booted).pool ≡ true
unfolding any
main_runs = rw (
    start_lem boot false synced synced home (some ("0.0.0.0", 5000)) main_names webservice_made
      node_synced node_synced services_made)

start_order_example :
    (any (home_passed boot) start_events ≡ true)
    × (any (foreign_passed boot) start_events ≡ true)
    × ((run_events boot start_events booted).exit_code ≡ none)
start_order_example = start_order boot start_events main_runs

-- The main services run, and then the sender meets what is not a transfer.
abbrev all_events : List Event
all_events =
    system_begins
    ∷ foreign_polled synced (ok tt)
    ∷ home_polled synced (ok tt)
    ∷ joined home
    ∷ sanity_check_failed
    ∷ []

exit_codes_example :
    Code boot (run_events boot all_events booted)
    × (is_some (run_events boot all_events booted).exit_code ≡ true
        → (run_events boot all_events booted).pool ≡ [])
    × ((run_events boot all_events booted).exit_code ≡ some 0 → any asks_to_stop all_events ≡ true)
    × ((run_events boot all_events booted).exit_code ≡ some 1
        → any refuses_transfer all_events ≡ true)
exit_codes_example = exit_codes boot all_events
