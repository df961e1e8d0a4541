-- ===== src/Bridge/Boot.antt =====
-- bridge/src/bridge/main.py from `make_main_services` on, and service.py: how the greenlets of the
-- validation server are started, and how the program ends. A greenlet switches only where it waits, so
-- what is done between two waits is one event.
pub mod Order
pub mod Histories
pub mod Starts
use trustlines_blockchain.Prelude.{
  ℕ, String, Bool, true, false, not, ◌&&◌, ◌||◌, Option, none, some, is_some, List, [], ◌∷◌, ◌++◌,
  map, Result, ok, err, and_then, if◌then◌else◌,
}
use trustlines_blockchain.Prelude.Classes.{string_eq, ◌==◌}
use trustlines_blockchain.Bridge.NodeStatus.{NodeStatus}
use trustlines_blockchain.Bridge.Config.{KeyFiles}
use trustlines_blockchain.Bridge.Setup.{
  Config, AddressLib, HomeAnswers, make_validator_address, make_transfer_event_fetcher,
  make_home_bridge_event_fetcher, make_validator_status_watcher, make_confirmation_sender,
  make_webservice, is_synced,
}

-- The greenlets, by their services.
pub data Task : Type 0 where
  start_system webservice home_wait_ready foreign_wait_ready : Task
  main_service : String → Task

abbrev pub service_name : Task → String
service_name start_system = "start_system"
service_name webservice = "webservice"
service_name home_wait_ready = "home_wait_ready"
service_name foreign_wait_ready = "foreign_wait_ready"
service_name (main_service name) = name

abbrev pub is_main : Task → Bool
is_main (main_service name) = true
is_main start_system = false
is_main webservice = false
is_main home_wait_ready = false
is_main foreign_wait_ready = false

unfoldable pub any {ℓ} : {A : Type ℓ} → (A → Bool) → List A → Bool
any p [] = false
any p (x ∷ xs) = p x || any p xs

unfoldable pub is_running : Task → List Task → Bool
is_running t pool = any (λ u. service_name u == service_name t) pool

-- A greenlet that has returned leaves the pool.
unfoldable pub leave : Task → List Task → List Task
leave t [] = []
leave t (u ∷ pool) =
    let rest = leave t pool in if service_name u == service_name t then rest else u ∷ rest

-- The services in the order of `make_main_services`, and the exceptions of making them.
unfoldable pub make_main_services :
    AddressLib → KeyFiles → HomeAnswers → Config → Result (List String)
make_main_services lib files home c = and_then (make_transfer_event_fetcher c) λ foreign_fetcher.
    and_then (make_home_bridge_event_fetcher lib.address_of files c) λ home_fetcher.
      and_then (make_validator_status_watcher lib files home c) λ status_watcher.
        and_then (make_confirmation_sender lib files home c) λ sender.
          and_then (make_validator_address lib.address_of files c) λ address. ok (
            "fetch-foreign-bridge-events" ∷ "fetch-home-bridge-events" ∷ "validator-status-watcher"
            ∷ "validator_balance_watcher" ∷ "log-internal-state" ∷ "send-confirmation-transactions"
            ∷ "watch-pending-transactions" ∷ "process-transfer-events"
            ∷ "process-home-bridge-events" ∷ "process-control-events" ∷ [])

-- What the program is started with; `cleans_up` says whether the pool is killed before the timeout of
-- the one shutdown that a run has.
pub record Boot : Type 0 where
  pub lib : AddressLib
  pub files : KeyFiles
  pub config : Config
  pub cleans_up : Bool

-- `main_pool`, whether `start_system` waits in `joinall`, which of the two services that it waits for
-- have returned, and the code that the process has exited with.
pub record System : Type 0 where
  pub pool : List Task
  pub waiting : Bool
  pub home_ready : Bool
  pub foreign_ready : Bool
  pub exit_code : Option ℕ

-- `main` starts the greenlet of `start_system`.
abbrev pub booted : System
booted = record {
  pool = start_system ∷ [];
  waiting = false;
  home_ready = false;
  foreign_ready = false;
  exit_code = none;
}

-- `died` is an exception that a greenlet did not catch, other than the SystemExit with which the sender
-- ends where its sanity check fails.
pub data Event : Type 0 where
  system_begins : Event
  home_polled foreign_polled : NodeStatus → Result (Unit {0}) → Event
  joined : HomeAnswers → Event
  died : Task → Event
  terminated stopped_validating sanity_check_failed : Event

abbrev pub ex_software : ℕ
ex_software = 70

unfoldable pub shutdown_raw : Boot → ℕ → System → System
shutdown_raw boot exitcode s = record s {
  pool = [];
  exit_code = some (if boot.cleans_up then exitcode else ex_software);
}

-- `raise SystemExit(...)` with a message, in a greenlet: gevent's hub raises it again in the main
-- greenlet, which waits in `get_hub().join()`, so the process ends with Python's status for a message,
-- and the callback of the greenlet is not run.
abbrev pub exit_with_message : ℕ
exit_with_message = 1

unfoldable pub exit_main : System → System
exit_main s = record s { pool = []; exit_code = some exit_with_message }

unfoldable pub handle_greenlet_exception : Boot → System → System
handle_greenlet_exception boot s = shutdown_raw boot ex_software s

-- `start_services_in_main_pool`
unfoldable pub start_services : List Task → System → System
start_services services s = record s { pool = s.pool ++ services }

-- `start_system` up to `joinall`.
unfoldable pub begin_system : Boot → System → System
begin_system boot s = elim (make_webservice boot.config.webservice) [
  | err x ↦ handle_greenlet_exception boot s
  | ok served ↦
      record (start_services
        (elim served [ none ↦ [] | some at ↦ webservice ∷ [] ]
          ++ (home_wait_ready ∷ foreign_wait_ready ∷ []))
        s) { waiting = true }
]

-- A poll of `wait_until_home_node_is_ready`: it goes on while the node is not synced, and then checks
-- the contracts.
unfoldable pub wait_until_home_node_is_ready :
    Boot → NodeStatus → Result (Unit {0}) → System → System
wait_until_home_node_is_ready boot status contracts s =
    if is_synced boot.config.home_chain.chain.event_fetch_start_block_number status
    then elim contracts [
      | err x ↦ handle_greenlet_exception boot s
      | ok u ↦ record s { pool = leave home_wait_ready s.pool; home_ready = true }
    ]
    else s

unfoldable pub wait_until_foreign_node_is_ready :
    Boot → NodeStatus → Result (Unit {0}) → System → System
wait_until_foreign_node_is_ready boot status contracts s =
    if is_synced boot.config.foreign_chain.chain.event_fetch_start_block_number status
    then elim contracts [
      | err x ↦ handle_greenlet_exception boot s
      | ok u ↦ record s { pool = leave foreign_wait_ready s.pool; foreign_ready = true }
    ]
    else s

-- `start_system` after `joinall`.
unfoldable pub finish_start : Boot → HomeAnswers → System → System
finish_start boot home s = elim (make_main_services boot.lib boot.files home boot.config) [
  | err x ↦ handle_greenlet_exception boot s
  | ok names ↦
      start_services (map main_service names)
        (record s { pool = leave start_system s.pool; waiting = false })
]

-- What an event does while the process runs; an event of a greenlet that does not run is none.
unfoldable pub on_event : Boot → Event → System → System
on_event boot system_begins s =
    if is_running start_system s.pool && not s.waiting then begin_system boot s else s
on_event boot (home_polled status contracts) s =
    if is_running home_wait_ready s.pool
    then wait_until_home_node_is_ready boot status contracts s
    else s
on_event boot (foreign_polled status contracts) s =
    if is_running foreign_wait_ready s.pool
    then wait_until_foreign_node_is_ready boot status contracts s
    else s
on_event boot (joined home) s =
    if s.waiting && (s.home_ready && s.foreign_ready) then finish_start boot home s else s
on_event boot (died t) s = if is_running t s.pool then handle_greenlet_exception boot s else s
on_event boot terminated s = shutdown_raw boot 0 s
on_event boot stopped_validating s =
    if is_running (main_service "validator-status-watcher") s.pool then shutdown_raw boot 0 s else s
on_event boot sanity_check_failed s =
    if is_running (main_service "send-confirmation-transactions") s.pool then exit_main s else s

unfoldable pub handle : Boot → Event → System → System
handle boot e s = if is_some s.exit_code then s else on_event boot e s

unfoldable pub run_events : Boot → List Event → System → System
run_events boot [] s = s
run_events boot (e ∷ es) s = run_events boot es (handle boot e s)
