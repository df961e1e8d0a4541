-- ===== src/Quickstart/Docker/Safe.antt =====
-- Setting up and starting the docker services leaves the account files in order.
use trustlines_blockchain.Prelude.{
  ◌≡◌, String, Bool, true, false, not, ◌&&◌, Option, List, [], ◌∷◌, ◌++◌, ok, assertion_error,
  Action, arith,
}
use trustlines_blockchain.Prelude.Classes.{◌==◌, string_eq}
use trustlines_blockchain.Quickstart.Session.{Files, Command, Session}
use trustlines_blockchain.Quickstart.Frame.{Within}
use trustlines_blockchain.Quickstart.Framed.{
  Framed, framed, done, raised, reading, lifted, asked, prompted, changed, either, ◌>>=◌, ◌>>◌,
}
use trustlines_blockchain.Quickstart.Account.Safe.{IsSafe, safety, of_same_account}
use trustlines_blockchain.Quickstart.BridgeConfig.{should_overwrite_prompt}
use trustlines_blockchain.Quickstart.Env.{env_variables, runtime_env_variables}
use trustlines_blockchain.Quickstart.Docker.{
  DockerLib, create_docker_readme, copy_default_docker_file, copy_default_docker_override_file,
  is_default_file, write_compose_file, write_override_file, setup_compose_file, expose_ports,
  hide_ports, keep_or_remove, setup_docker, run_command, remove_containers, wait_for_chain_spec,
  compose, legacy_container_names, main_docker_service_names, start_services, as_click_exception,
  write_env, start_project, update_and_start, get_optional_docker_service_names,
  does_docker_compose_file_exist, does_docker_compose_override_file_exist,
  delete_docker_override_file,
}

remove-IsSafe : (f g : Files) → delete_docker_override_file f ≡ ok g → IsSafe f g
unfolding delete_docker_override_file
remove-IsSafe f g e =
    of_same_account f g (ground (arith, e)) (ground (arith, e)) (ground (arith, e))

keep_or_remove-IsSafe : Within safety keep_or_remove
unfolding keep_or_remove
keep_or_remove-IsSafe =
    (do
      choice ← prompted safety
      either (choice == "1") (done safety tt) (
          either (choice == "2") (changed safety delete_docker_override_file remove-IsSafe)
            (raised safety assertion_error))).within

write_env-IsSafe :
    (variables : List (String × String)) (f g : Files)
    → ok (write_env variables f) ≡ ok g
    → IsSafe f g
unfolding write_env
write_env-IsSafe variables f g e =
    of_same_account f g (ground (arith, e)) (ground (arith, e)) (ground (arith, e))

module _ (lib : DockerLib) where
  readme-IsSafe : (f g : Files) → ok (create_docker_readme lib f) ≡ ok g → IsSafe f g
  unfolding create_docker_readme
  readme-IsSafe f g e =
      of_same_account f g (ground (arith, e)) (ground (arith, e)) (ground (arith, e))

  compose_file-IsSafe : (f g : Files) → copy_default_docker_file lib f ≡ ok g → IsSafe f g
  unfolding copy_default_docker_file
  compose_file-IsSafe f g e =
      of_same_account f g (ground (arith, e)) (ground (arith, e)) (ground (arith, e))

  override_file-IsSafe : (f g : Files) → copy_default_docker_override_file lib f ≡ ok g → IsSafe f g
  unfolding copy_default_docker_override_file
  override_file-IsSafe f g e =
      of_same_account f g (ground (arith, e)) (ground (arith, e)) (ground (arith, e))

  -- What to do with a file of the user's own.
  abbrev overwriting : Bool → Framed safety Bool
  overwriting differs = either differs (asked safety should_overwrite_prompt) (done safety true)

  setup_compose_file-IsSafe : Within safety (setup_compose_file lib)
  unfolding setup_compose_file write_compose_file
  setup_compose_file-IsSafe =
      (do
        f ← reading safety (λ s. s.files)
        same ← lifted safety (is_default_file lib f.docker_compose lib.docker_compose_file)
        overwrite ← overwriting (does_docker_compose_file_exist f && not same)
        either overwrite (changed safety (copy_default_docker_file lib) compose_file-IsSafe)
            (done safety tt)).within

  expose_ports-IsSafe : Within safety (expose_ports lib)
  unfolding expose_ports write_override_file
  expose_ports-IsSafe =
      (do
        f ← reading safety (λ s. s.files)
        same ← lifted safety (is_default_file lib f.docker_compose_override lib.override_file)
        overwrite ← overwriting (does_docker_compose_override_file_exist f && not same)
        either overwrite
            (changed safety (copy_default_docker_override_file lib) override_file-IsSafe)
            (done safety tt)).within

  hide_ports-IsSafe : Within safety (hide_ports lib)
  unfolding hide_ports
  hide_ports-IsSafe =
      (do
        f ← reading safety (λ s. s.files)
        same ← lifted safety (is_default_file lib f.docker_compose_override lib.override_file)
        either (does_docker_compose_override_file_exist f && same)
            (framed safety keep_or_remove keep_or_remove-IsSafe) (done safety tt)).within

  pub setup_docker-IsSafe :
      (expose_node_ports : Bool) → Within safety (setup_docker lib expose_node_ports)
  unfolding setup_docker
  setup_docker-IsSafe expose_node_ports =
      (do
        changed safety (λ f. ok (create_docker_readme lib f)) readme-IsSafe
        framed safety (setup_compose_file lib) setup_compose_file-IsSafe
        either expose_node_ports (framed safety (expose_ports lib) expose_ports-IsSafe)
            (framed safety (hide_ports lib) hide_ports-IsSafe)).within

  run_command-IsSafe :
      (check : Bool) (command : Command) → Within safety (run_command lib check command)
  unfolding run_command
  run_command-IsSafe check command s = ground (arith, safety.same s.files)

  abbrev command_run : Bool → Command → Framed safety (Unit {0})
  command_run check command =
      framed safety (run_command lib check command) (run_command-IsSafe check command)

  remove_containers-IsSafe :
      (variables : List (String × String)) (names : List String)
      → Within safety (remove_containers lib variables names)
  unfolding remove_containers
  remove_containers-IsSafe variables [] = (done safety tt).within
  remove_containers-IsSafe variables (name ∷ names) =
      (do
        command_run false (record { args = "docker" ∷ "stop" ∷ name ∷ []; variables = variables })
        command_run false (record { args = "docker" ∷ "rm" ∷ name ∷ []; variables = variables })
        framed safety (remove_containers lib variables names)
            (remove_containers-IsSafe variables names)).within

  wait_for_chain_spec-IsSafe : Within safety (wait_for_chain_spec lib)
  unfolding wait_for_chain_spec
  wait_for_chain_spec-IsSafe s = ground (arith, safety.same s.files)

  start_services-IsSafe :
      (variables : List (String × String)) (optional : List String) (f : Files)
      → Within safety (start_services lib variables optional f)
  unfolding start_services
  start_services-IsSafe variables optional f =
      (do
        command_run true (compose lib variables f ("down" ∷ []))
        framed safety (remove_containers lib variables legacy_container_names)
            (remove_containers-IsSafe variables legacy_container_names)
        command_run true (
            compose lib variables f
              ("pull" ∷ (main_docker_service_names ++ (optional ++ "tlbc-monitor" ∷ []))))
        command_run true (compose lib variables f ("up" ∷ "--no-start" ∷ []))
        command_run true
            (compose lib variables f ("start" ∷ (main_docker_service_names ++ optional)))
        framed safety (wait_for_chain_spec lib) wait_for_chain_spec-IsSafe
        command_run true (compose lib variables f ("start" ∷ "tlbc-monitor" ∷ []))).within

  as_click_exception-IsSafe :
      (m : Action Session (Unit {0})) → Within safety m → Within safety (as_click_exception lib m)
  unfolding as_click_exception
  as_click_exception-IsSafe m h = h

  start_project-IsSafe :
      (host_base_dir : Option String) (start_foreign_node : Bool) (project_name : String)
      → Within safety (start_project lib host_base_dir start_foreign_node project_name)
  unfolding start_project
  start_project-IsSafe host_base_dir start_foreign_node project_name =
      (do
        f ← reading safety (λ s. s.files)
        variables ← lifted safety (env_variables project_name f)
        changed safety (λ g. ok (write_env variables g)) (write_env-IsSafe variables)
        framed safety
            (as_click_exception lib (
              start_services lib (runtime_env_variables host_base_dir variables)
                (get_optional_docker_service_names f start_foreign_node) f))
            (as_click_exception-IsSafe
              (start_services lib (runtime_env_variables host_base_dir variables)
                (get_optional_docker_service_names f start_foreign_node) f)
              (start_services-IsSafe (runtime_env_variables host_base_dir variables)
                (get_optional_docker_service_names f start_foreign_node) f))).within

  pub update_and_start-IsSafe :
      (host_base_dir : Option String) (start_foreign_node : Bool) (project_name : String)
      → Within safety (update_and_start lib host_base_dir start_foreign_node project_name)
  unfolding update_and_start
  update_and_start-IsSafe host_base_dir start_foreign_node project_name s = ground (
    arith,
    start_project-IsSafe host_base_dir start_foreign_node project_name s,
    safety.same s.files,
  )
