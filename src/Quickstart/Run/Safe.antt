-- ===== src/Quickstart/Run/Safe.antt =====
-- The whole set-up leaves the account files in order, whatever it does and however it ends.
use trustlines_blockchain.Quickstart.Session.{Session}
use trustlines_blockchain.Quickstart.Frame.{Within}
use trustlines_blockchain.Quickstart.Framed.{framed, reading, lifted, ◌>>=◌, ◌>>◌}
use trustlines_blockchain.Quickstart.Account.Safe.{IsSafe, safety, setup_account-IsSafe}
use trustlines_blockchain.Quickstart.Account.{setup_account}
use trustlines_blockchain.Quickstart.BridgeConfig.{setup_bridge, should_foreign_node_be_started}
use trustlines_blockchain.Quickstart.Netstats.{setup_netstats, setup_monitor}
use trustlines_blockchain.Quickstart.Docker.{setup_docker, update_and_start}
use trustlines_blockchain.Quickstart.Run.{
  Host, Options, set_up_services, start_node, run_quickstart,
}
use trustlines_blockchain.Quickstart.BridgeConfig.Safe.{setup_bridge-IsSafe}
use trustlines_blockchain.Quickstart.Netstats.Safe.{setup_netstats-IsSafe, setup_monitor-IsSafe}
use trustlines_blockchain.Quickstart.Docker.Safe.{update_and_start-IsSafe, setup_docker-IsSafe}

module _ {A : Type 0} (host : Host A) where
  set_up_services-IsSafe : (options : Options) → Within safety (set_up_services host options)
  unfolding set_up_services
  set_up_services-IsSafe options =
      (do
        framed safety (setup_account host.accounts options.may_rename)
            (setup_account-IsSafe host.accounts options.may_rename)
        framed safety setup_monitor setup_monitor-IsSafe
        framed safety (setup_bridge host.bridge) (setup_bridge-IsSafe host.bridge)
        framed safety (setup_netstats host.netstats options.netstats_url)
            (setup_netstats-IsSafe host.netstats options.netstats_url)
        framed safety (setup_docker host.docker options.expose_node_ports)
            (setup_docker-IsSafe host.docker options.expose_node_ports)).within

  start_node-IsSafe : (options : Options) → Within safety (start_node host options)
  unfolding start_node
  start_node-IsSafe options =
      (do
        f ← reading safety (λ s. s.files)
        start_foreign_node ← lifted safety (should_foreign_node_be_started host.bridge f)
        framed safety
            (update_and_start host.docker options.host_base_dir start_foreign_node
              options.project_name)
            (update_and_start-IsSafe host.docker options.host_base_dir start_foreign_node
              options.project_name)).within

  -- However the set-up ends, with whatever answers, host and options, a keystore, password file or
  -- address that was there before is there with the same text, and if before no address was there
  -- without a keystore and a password file, then after it none is.
  pub run_quickstart-IsSafe :
      (options : Options) (s : Session) → IsSafe s.files (run_quickstart host options s).1.files
  unfolding run_quickstart
  run_quickstart-IsSafe options =
      (do
        framed safety (set_up_services host options) (set_up_services-IsSafe options)
        framed safety (start_node host options) (start_node-IsSafe options)).within
