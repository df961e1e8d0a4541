-- ===== src/Quickstart/Run/Whole.antt =====
-- A set-up that is gone through starts the services.
use trustlines_blockchain.Prelude.{
  ◌≡◌, ◌↔◌, refl, ap, ◌∙◌, ℕ, ◌<◌, String, Bool, true, false, not, ◌&&◌, Option, none, some, List,
  [], ◌∷◌, ◌++◌, if◌then◌else◌, Result, ok, lift, bind-eq,
}
use trustlines_blockchain.Prelude.Classes.{string_eq, ◌==◌}
use trustlines_blockchain.Quickstart.Session.{
  Files, Command, Session, non_empty_file_exists, is_netstats_prepared, is_bridge_prepared,
}
use trustlines_blockchain.Quickstart.Frame.{in_turn}
use trustlines_blockchain.Quickstart.Yields.{yielding, ◌>>◌}
use trustlines_blockchain.Quickstart.Env.{env_variables, runtime_env_variables}
use trustlines_blockchain.Quickstart.Account.{setup_account}
use trustlines_blockchain.Quickstart.BridgeConfig.{setup_bridge, should_foreign_node_be_started}
use trustlines_blockchain.Quickstart.BridgeConfig.Foreign.{
  HasDefaultUrl, should_foreign-HasDefaultUrl,
}
use trustlines_blockchain.Quickstart.Netstats.{setup_netstats, setup_monitor}
use trustlines_blockchain.Quickstart.Docker.{
  setup_docker, compose, update_and_start, get_optional_docker_service_names,
  does_docker_compose_file_exist,
}
use trustlines_blockchain.Quickstart.Docker.Compose.{setup_docker-exists}
use trustlines_blockchain.Quickstart.Docker.Plan.{plan}
use trustlines_blockchain.Quickstart.Docker.Working.{update_and_start-runs_plan}
use trustlines_blockchain.Quickstart.Run.{
  Host, Options, set_up_services, start_node, run_quickstart,
}

-- The names that are wanted.
abbrev pub wanted : List (Bool × String) → List String
wanted [] = []
wanted ((true, name) ∷ rest) = name ∷ wanted rest
wanted ((false, name) ∷ rest) = wanted rest

-- A file with text in it.
abbrev pub has_text : Option String → Bool
has_text none = false
has_text (some content) = not (content == "")

-- The services beside the main ones: the netstats client and the bridge client where they are configured,
-- and with the bridge client the foreign node, if it is to be started.
abbrev pub optional_services : Files → Bool → List String
optional_services f start_foreign_node = wanted (
    (has_text f.netstats_env, "netstats-client")
    ∷ (has_text f.bridge_config, "bridge-client")
    ∷ (has_text f.bridge_config && start_foreign_node, "foreign-node")
    ∷ [])

has_text-eq : (x : Option String) → non_empty_file_exists x ≡ has_text x
unfolding non_empty_file_exists
has_text-eq none = refl
has_text-eq (some content) = refl

three_services :
    (a b c : Bool)
    → ((if a then "netstats-client" ∷ [] else [])
        ++ (if b then "bridge-client" ∷ (if c then "foreign-node" ∷ [] else []) else []))
      ≡ wanted ((a, "netstats-client") ∷ (b, "bridge-client") ∷ (b && c, "foreign-node") ∷ [])
three_services true true true = refl
three_services true true false = refl
three_services true false true = refl
three_services true false false = refl
three_services false true true = refl
three_services false true false = refl
three_services false false true = refl
three_services false false false = refl

services-eq : (f : Files) (b : Bool) → get_optional_docker_service_names f b ≡ optional_services f b
unfolding get_optional_docker_service_names is_netstats_prepared is_bridge_prepared
services-eq f b =
    rw (has_text-eq f.netstats_env, has_text-eq f.bridge_config)
      (three_services (has_text f.netstats_env) (has_text f.bridge_config) b)

module _ {A : Type 0} (host : Host A) where
  -- The last of the services is docker.
  services-exists :
      (options : Options) (s s' : Session)
      → set_up_services host options s ≡ (ok tt, s')
      → does_docker_compose_file_exist s'.files ≡ true
  unfolding set_up_services
  services-exists options s s' h =
      (do
        setup_account host.accounts options.may_rename
        setup_monitor
        setup_bridge host.bridge
        setup_netstats host.netstats options.netstats_url
        yielding {Q = λ (u : Unit {0}) (t : Session). does_docker_compose_file_exist t.files ≡ true}
            (setup_docker host.docker options.expose_node_ports)
            (λ s s' u h. setup_docker-exists host.docker options.expose_node_ports s s' h)).yields
        s s' tt h

  run-eq :
      (options : Options) (s s' : Session) (b : Bool)
      → set_up_services host options s ≡ (ok tt, s')
      → should_foreign_node_be_started host.bridge s'.files ≡ ok b
      → run_quickstart host options s
        ≡ update_and_start host.docker options.host_base_dir b options.project_name s'
  unfolding run_quickstart start_node
  run-eq options s s' b h e =
      bind-eq (set_up_services host options) (λ _. start_node host options) s s' tt
        (update_and_start host.docker options.host_base_dir b options.project_name s') h
        (ap
          (λ (x : Result Bool).
            in_turn (lift x)
              (λ v. update_and_start host.docker options.host_base_dir v options.project_name) s')
          e)

  -- A run whose five dialogs are gone through, with a bridge configuration that is read, on a host on
  -- which docker-compose works and the chain specification is written before the user loses patience,
  -- raises nothing, and after the dialogs runs the commands of the plan. Beside the main services these
  -- start the netstats client and the bridge client where their files have text, and the foreign node
  -- exactly where the bridge's configuration has text and the url of the default configuration.
  pub run_quickstart_lem :
      (options : Options) (s s' : Session) (b : Bool)
      → set_up_services host options s ≡ (ok tt, s')
      → should_foreign_node_be_started host.bridge s'.files ≡ ok b
      → ((before : List Command) (variables : List (String × String)) (f : Files)
            (args : List String)
          → host.docker.exit_code before (compose host.docker variables f args) ≡ 0)
      → (round : ℕ) → round < host.docker.patience
      → host.docker.chain_spec round ≡ true
      → ((run_quickstart host options s).0 ≡ ok tt)
        × (variables : List (String × String)) × (env_variables options.project_name s'.files
            ≡ ok variables)
        × ((run_quickstart host options s).1.commands
            ≡ s'.commands
              ++ plan host.docker
                  (runtime_env_variables options.host_base_dir variables)
                  (optional_services s'.files b)
                  s'.files)
        × ((b ≡ true) ↔ HasDefaultUrl host.bridge s'.files)
  run_quickstart_lem options s s' b h e composes round in_time spec =
      let same = run-eq options s s' b h e in
      let (returns, variables, found, commands) =
        update_and_start-runs_plan host.docker composes round in_time spec options.host_base_dir b
          options.project_name s' (services-exists options s s' h) in
      (
        ap (λ (p : Result (Unit {0}) × Session). p.0) same ∙ returns,
        variables,
        found,
        rw (services-eq s'.files b) at
            (ap (λ (p : Result (Unit {0}) × Session). p.1.commands) same ∙ commands),
        should_foreign-HasDefaultUrl host.bridge s'.files b e,
      )
