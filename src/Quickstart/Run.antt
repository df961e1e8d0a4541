-- ===== src/Quickstart/Run.antt =====
-- `run` of quickstart/src/quickstart/cli.py, the whole set-up of a node, and the commands that call it.
pub mod Safe
pub mod Whole
use trustlines_blockchain.Prelude.{
  String, Bool, true, false, Option, none, some, abort, Action, pure, raise, gets, lift,
  if◌then◌else◌, ◌>>=◌, ◌>>◌,
}
use trustlines_blockchain.Prelude.Classes.{◌==◌, string_eq}
use trustlines_blockchain.Quickstart.Session.{Session, confirm}
use trustlines_blockchain.Quickstart.Prompts.{AccountLib}
use trustlines_blockchain.Quickstart.Account.{setup_account}
use trustlines_blockchain.Quickstart.BridgeConfig.{
  BridgeLib, setup_bridge, should_foreign_node_be_started,
}
use trustlines_blockchain.Quickstart.Netstats.{NetstatsLib, setup_netstats, setup_monitor}
use trustlines_blockchain.Quickstart.Docker.{DockerLib, setup_docker, update_and_start}

-- The options of a command. `may_rename` is false where the legacy key file cannot be renamed.
pub record Options : Type 0 where
  pub project_name : String
  pub netstats_url : Option String
  pub host_base_dir : Option String
  pub expose_node_ports : Bool
  pub may_rename : Bool

abbrev pub laika_netstats_server_base_url : String
laika_netstats_server_base_url = "https://netstats.laika.trustlines.foundation/"

abbrev pub tlbc_netstats_server_base_url : String
tlbc_netstats_server_base_url = "https://netstats.tlbc.trustlines.foundation/"

-- The server that `--netstats-url` of `custom` names.
unfoldable pub netstats_url_of : Option String → Option String
netstats_url_of none = none
netstats_url_of (some url) =
    if url == "laika"
    then some laika_netstats_server_base_url
    else if url == "tlbc"
    then some tlbc_netstats_server_base_url
    else some url

-- The callback of `--expose-ports`, which runs before the command.
unfoldable pub confirm_expose_ports : Bool → Action Session Bool
confirm_expose_ports false = pure false
confirm_expose_ports true = do wanted ← confirm; if wanted then pure true else raise abort

-- What the set-up takes from outside.
pub record Host (A : Type 0) : Type 0 where
  pub accounts : AccountLib A
  pub bridge : BridgeLib
  pub netstats : NetstatsLib
  pub docker : DockerLib

module _ {A : Type 0} (host : Host A) where
  unfoldable pub start_node : Options → Action Session (Unit {0})
  start_node options = do
    f ← gets (λ s. s.files)
    start_foreign_node ← lift (should_foreign_node_be_started host.bridge f)
    update_and_start host.docker options.host_base_dir start_foreign_node options.project_name

  unfoldable pub set_up_services : Options → Action Session (Unit {0})
  set_up_services options = do
    setup_account host.accounts options.may_rename
    setup_monitor
    setup_bridge host.bridge
    setup_netstats host.netstats options.netstats_url
    setup_docker host.docker options.expose_node_ports

  unfoldable pub run_quickstart : Options → Action Session (Unit {0})
  run_quickstart options = do set_up_services options; start_node options

  -- The commands of the two known chains, with the configuration files of the chain in `host`.
  unfoldable pub chain_command : String → Options → Action Session (Unit {0})
  chain_command netstats_url options = do
    expose_node_ports ← confirm_expose_ports options.expose_node_ports
    run_quickstart
        (record options { netstats_url = some netstats_url; expose_node_ports = expose_node_ports })

  unfoldable pub tlbc : Options → Action Session (Unit {0})
  tlbc = chain_command tlbc_netstats_server_base_url

  unfoldable pub laika : Options → Action Session (Unit {0})
  laika = chain_command laika_netstats_server_base_url

  unfoldable pub custom : Options → Action Session (Unit {0})
  custom options = do
    expose_node_ports ← confirm_expose_ports options.expose_node_ports
    run_quickstart (record options {
      netstats_url = netstats_url_of options.netstats_url;
      expose_node_ports = expose_node_ports;
    })
