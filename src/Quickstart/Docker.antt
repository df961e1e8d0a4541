-- ===== src/Quickstart/Docker.antt =====
-- quickstart/src/quickstart/docker.py. `docker` and `docker-compose` are installed: a command that is run
-- has an exit code.
pub mod Safe
pub mod Compose
pub mod Plan
pub mod Started
pub mod Working
use trustlines_blockchain.Prelude.{
  ℕ, String, Bool, true, false, not, ◌&&◌, Option, none, some, is_some, List, [], ◌∷◌, ◌++◌, Result,
  ok, err, nat_eqb, abort, value_error, file_not_found_error, click_exception, assertion_error,
  called_process_error, Action, pure, raise, gets, lift, if◌then◌else◌, ◌>>=◌, ◌>>◌,
}
use trustlines_blockchain.Prelude.Classes.{◌==◌, string_eq}
use trustlines_blockchain.Prelude.Loops.{wait_until}
use trustlines_blockchain.Quickstart.Session.{
  Files, Command, Session, prompt, asking, on_files, is_netstats_prepared, is_bridge_prepared,
}
use trustlines_blockchain.Quickstart.Env.{env_variables, runtime_env_variables}
use trustlines_blockchain.Quickstart.BridgeConfig.{should_overwrite_prompt}

-- What is taken from the host. `exit_code` is that of a command after others were run; `chain_spec`
-- says in which round of the wait the chain specification is there, and after `patience` rounds the
-- user interrupts the wait.
pub record DockerLib : Type 0 where
  pub docker_compose_file : Option String
  pub override_file : Option String
  pub is_same_file : String → String → Bool
  pub readme_text : String
  pub compose_path : String
  pub override_path : String
  pub exit_code : List Command → Command → ℕ
  pub chain_spec : ℕ → Bool
  pub patience : ℕ

unfoldable pub legacy_container_names : List String
legacy_container_names =
    "watchtower-testnet" ∷ "trustlines-testnet" ∷ "bridge-client" ∷ "tlbc-monitor" ∷ "mainnet.node"
    ∷ "laika-testnet.node" ∷ "netstats-client" ∷ "quickstart_bridge-client_1"
    ∷ "quickstart_tlbc-monitor_1" ∷ "quickstart_trustlines-node_1" ∷ "quickstart_mainnet-node_1"
    ∷ "quickstart_netstats-client_1" ∷ "quickstart_watchtower_1" ∷ []

unfoldable pub does_docker_compose_file_exist : Files → Bool
does_docker_compose_file_exist f = is_some f.docker_compose

unfoldable pub does_docker_compose_override_file_exist : Files → Bool
does_docker_compose_override_file_exist f = is_some f.docker_compose_override

-- `delete_docker_override_file`
unfoldable pub delete_docker_override_file : Files → Result Files
delete_docker_override_file f =
    if not (does_docker_compose_override_file_exist f)
    then err value_error
    else ok (record f { docker_compose_override = none })

-- Keep the file (1) or remove it (2).
unfoldable pub keep_or_remove : Action Session (Unit {0})
keep_or_remove = do
  choice ← prompt
  if choice == "1"
      then pure tt
      else if choice == "2"
      then on_files delete_docker_override_file
      else raise assertion_error

unfoldable pub get_optional_docker_service_names : Files → Bool → List String
get_optional_docker_service_names f start_foreign_node =
    (if is_netstats_prepared f then "netstats-client" ∷ [] else [])
    ++ (if is_bridge_prepared f
        then "bridge-client" ∷ (if start_foreign_node then "foreign-node" ∷ [] else [])
        else [])

unfoldable pub main_docker_service_names : List String
main_docker_service_names = "home-node" ∷ "watchtower" ∷ []

unfoldable pub click_exception_of : Result (Unit {0}) → Result (Unit {0})
click_exception_of (ok u) = ok u
click_exception_of (err called_process_error) = err click_exception
click_exception_of (err x) = err x

unfoldable pub write_env : List (String × String) → Files → Files
write_env variables f = record f { env = some variables }

module _ (lib : DockerLib) where
  unfoldable pub create_docker_readme : Files → Files
  create_docker_readme f = elim f.readme [
    | none ↦ record f { readme = some lib.readme_text }
    | some text ↦ f
  ]

  unfoldable pub copy_default_docker_file : Files → Result Files
  copy_default_docker_file f = elim lib.docker_compose_file [
    | none ↦ err click_exception
    | some content ↦ ok (record f { docker_compose = some content })
  ]

  unfoldable pub copy_default_docker_override_file : Files → Result Files
  copy_default_docker_override_file f = elim lib.override_file [
    | none ↦ err click_exception
    | some content ↦ ok (record f { docker_compose_override = some content })
  ]

  -- `filecmp.cmp`, which raises if the default file is missing.
  unfoldable pub is_default_file : Option String → Option String → Result Bool
  is_default_file none default = ok false
  is_default_file (some own) none = err file_not_found_error
  is_default_file (some own) (some content) = ok (lib.is_same_file own content)

  unfoldable pub write_compose_file : Bool → Action Session (Unit {0})
  write_compose_file overwrite = if overwrite then on_files copy_default_docker_file else pure tt

  unfoldable pub write_override_file : Bool → Action Session (Unit {0})
  write_override_file overwrite =
      if overwrite then on_files copy_default_docker_override_file else pure tt

  -- The compose file: the default one is written unless the user has and keeps another.
  unfoldable pub setup_compose_file : Action Session (Unit {0})
  setup_compose_file = do
    f ← gets (λ s. s.files)
    same ← lift (is_default_file f.docker_compose lib.docker_compose_file)
    overwrite ←
        (if does_docker_compose_file_exist f && not same
          then asking should_overwrite_prompt
          else pure true)
    write_compose_file overwrite

  unfoldable pub expose_ports : Action Session (Unit {0})
  expose_ports = do
    f ← gets (λ s. s.files)
    same ← lift (is_default_file f.docker_compose_override lib.override_file)
    overwrite ←
        (if does_docker_compose_override_file_exist f && not same
          then asking should_overwrite_prompt
          else pure true)
    write_override_file overwrite

  unfoldable pub hide_ports : Action Session (Unit {0})
  hide_ports = do
    f ← gets (λ s. s.files)
    same ← lift (is_default_file f.docker_compose_override lib.override_file)
    if does_docker_compose_override_file_exist f && same then keep_or_remove else pure tt

  unfoldable pub setup_docker : Bool → Action Session (Unit {0})
  setup_docker expose_node_ports = do
    on_files (λ f. ok (create_docker_readme f))
    setup_compose_file
    if expose_node_ports then expose_ports else hide_ports

  -- `subprocess.run`, which with `check=True` raises if the command fails.
  unfoldable pub run_command : Bool → Command → Action Session (Unit {0})
  run_command check command s =
      let s' = record s { commands = s.commands ++ command ∷ [] } in
      if check && not (nat_eqb (lib.exit_code s.commands command) 0)
      then (err called_process_error, s')
      else (ok tt, s')

  unfoldable pub docker_compose_path_option : Files → List String
  docker_compose_path_option f =
      "-f"
      ∷ lib.compose_path
      ∷ (if does_docker_compose_override_file_exist f then "-f" ∷ lib.override_path ∷ [] else [])

  unfoldable pub wait_for_chain_spec : Action Session (Unit {0})
  wait_for_chain_spec s = elim (wait_until lib.patience lib.chain_spec 0) [
    | none ↦ (err abort, s)
    | some t ↦ (ok tt, s)
  ]

  -- `try: ... except CalledProcessError`
  unfoldable pub as_click_exception : Action Session (Unit {0}) → Action Session (Unit {0})
  as_click_exception m s = let (r, s') = m s in (click_exception_of r, s')

  -- Both commands may fail, since the container may not exist.
  unfoldable pub remove_containers :
      List (String × String) → List String → Action Session (Unit {0})
  remove_containers variables [] = pure tt
  remove_containers variables (name ∷ names) = do
    run_command false (record { args = "docker" ∷ "stop" ∷ name ∷ []; variables = variables })
    run_command false (record { args = "docker" ∷ "rm" ∷ name ∷ []; variables = variables })
    remove_containers variables names

  -- A call of `docker-compose` with the path option.
  unfoldable pub compose : List (String × String) → Files → List String → Command
  compose variables f args = record {
    args = "docker-compose" ∷ (docker_compose_path_option f ++ args);
    variables = variables;
  }

  -- The body of the `try`.
  unfoldable pub start_services :
      List (String × String) → List String → Files → Action Session (Unit {0})
  start_services variables optional f = do
    run_command true (compose variables f ("down" ∷ []))
    remove_containers variables legacy_container_names
    run_command true (
        compose variables f
          ("pull" ∷ (main_docker_service_names ++ (optional ++ "tlbc-monitor" ∷ []))))
    run_command true (compose variables f ("up" ∷ "--no-start" ∷ []))
    run_command true (compose variables f ("start" ∷ (main_docker_service_names ++ optional)))
    wait_for_chain_spec
    run_command true (compose variables f ("start" ∷ "tlbc-monitor" ∷ []))

  unfoldable pub start_project : Option String → Bool → String → Action Session (Unit {0})
  start_project host_base_dir start_foreign_node project_name = do
    f ← gets (λ s. s.files)
    variables ← lift (env_variables project_name f)
    on_files (λ g. ok (write_env variables g))
    as_click_exception (
        start_services (runtime_env_variables host_base_dir variables)
          (get_optional_docker_service_names f start_foreign_node) f)

  unfoldable pub update_and_start : Option String → Bool → String → Action Session (Unit {0})
  update_and_start host_base_dir start_foreign_node project_name s =
      if not (does_docker_compose_file_exist s.files)
      then (err click_exception, s)
      else start_project host_base_dir start_foreign_node project_name s
