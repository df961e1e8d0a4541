-- ===== src/Quickstart/Tests.antt =====
-- The properties of the quickstart at concrete inputs.
use trustlines_blockchain.Prelude.{
  ◌≡◌, ◌≢◌, ◌↔◌, refl, String, true, false, ◌⊎◌, none, some, List, [], ◌∷◌, ◌++◌, ok, err,
  key_error, value_error, if◌then◌else◌, arith,
}
use trustlines_blockchain.Prelude.Classes.{string_eq, ◌==◌}
use trustlines_blockchain.Quickstart.Session.{
  Files, Answer, typed, Session, prompt, asking, on_files, read, is_validator_account_prepared,
  is_monitor_prepared, is_bridge_prepared, is_netstats_prepared, non_empty_file_exists,
}
use trustlines_blockchain.Quickstart.Prompts.{
  AccountLib, decrypted, read_private_key, private_key_of, read_encryption_password,
}
use trustlines_blockchain.Quickstart.Account.{
  setup_account, handle_legacy_validator_key_file, make_required_dirs, set_up_new,
  set_up_directories, prompt_setup_as_validator,
}
use trustlines_blockchain.Quickstart.Account.Safe.{IsSafe}
use trustlines_blockchain.Quickstart.Account.Fresh.{IsFresh, with_account, setup_account-IsFresh}
use trustlines_blockchain.Quickstart.Account.Others.{OthersKept}
use trustlines_blockchain.Quickstart.Account.Stored.{
  with_dirs, IsRenamed, IsOneAccount, setup_account_lem,
}
use trustlines_blockchain.Quickstart.BridgeConfig.{
  BridgeLib, write_bridge_config_dialog, should_foreign_node_be_started, use_json_rpc,
  read_json_rpc_url, is_default_json_url, copy_default_bridge_config, change_json_rpc_url,
  setup_bridge,
}
use trustlines_blockchain.Quickstart.BridgeConfig.Dialog.{TypedLast, write_bridge_config_dialog_lem}
use trustlines_blockchain.Quickstart.BridgeConfig.Foreign.{HasDefaultUrl}
use trustlines_blockchain.Quickstart.Netstats.{
  NetstatsLib, setup_netstats, setup_monitor, make_monitor_dirs,
}
use trustlines_blockchain.Quickstart.Env.{env_variables, runtime_env_variables}
use trustlines_blockchain.Quickstart.Docker.{
  DockerLib, setup_docker, create_docker_readme, setup_compose_file, is_default_file,
  does_docker_compose_file_exist, write_compose_file, copy_default_docker_file, hide_ports,
  does_docker_compose_override_file_exist, get_optional_docker_service_names, update_and_start,
}
use trustlines_blockchain.Quickstart.Docker.Plan.{Follows, plan}
use trustlines_blockchain.Quickstart.Docker.Started.{update_and_start-Follows}
use trustlines_blockchain.Quickstart.Run.{Host, Options, run_quickstart, set_up_services}
use trustlines_blockchain.Quickstart.Run.Safe.{run_quickstart-IsSafe}
use trustlines_blockchain.Quickstart.Run.Whole.{optional_services, run_quickstart_lem}

abbrev accounts : AccountLib String
accounts = record {
  address = λ a. a;
  encrypt = λ a p. p;
  decrypt = λ k p. decrypted k;
  from_key = λ k. ok k;
  new_account = "new";
  is_hex = λ t. true;
  decode_hex = λ t. ok (
      0 ∷ 1 ∷ 2 ∷ 3 ∷ 4 ∷ 5 ∷ 6 ∷ 7 ∷ 8 ∷ 9 ∷ 10 ∷ 11 ∷ 12 ∷ 13 ∷ 14 ∷ 15 ∷ 16 ∷ 17 ∷ 18 ∷ 19 ∷ 20
      ∷ 21 ∷ 22 ∷ 23 ∷ 24 ∷ 25 ∷ 26 ∷ 27 ∷ 28 ∷ 29 ∷ 30 ∷ 31 ∷ []);
  without_prefix = λ t. t;
  is_checksum_address = λ t. true;
  absolute = λ t. t;
  is_readable = λ t. true;
  read_keyfile = λ t. ok t;
}

-- A configuration that is nothing but its url.
abbrev bridge : BridgeLib
bridge = record {
  default_config = some "http://foreign-node:8545";
  rpc_url = λ c. if c == "" then err key_error else ok c;
  set_rpc_url = λ c u. if u == "" then err value_error else ok u;
  file_hash = λ c. c;
  is_same_file = λ a b. a == b;
  connect = λ u rest. none;
}

abbrev netstats : NetstatsLib
netstats = record { check_credentials = λ url user password rest. ok true }

abbrev docker : DockerLib
docker = record {
  docker_compose_file = some "services";
  override_file = some "ports";
  is_same_file = λ a b. a == b;
  readme_text = "readme";
  compose_path = "docker-compose.yaml";
  override_path = "docker-compose.override.yaml";
  exit_code = λ before command. 0;
  chain_spec = λ t. true;
  patience = 5;
}

abbrev host : Host String
host = record { accounts = accounts; bridge = bridge; netstats = netstats; docker = docker }

abbrev options : Options
options = record {
  project_name = "tlbc";
  netstats_url = none;
  host_base_dir = none;
  expose_node_ports = false;
  may_rename = true;
}

abbrev no_files : Files
no_files = record {
  password = none;
  address = none;
  author_address = none;
  keystore = none;
  legacy_keystores = [];
  netstats_env = none;
  bridge_config = none;
  docker_compose = none;
  docker_compose_override = none;
  readme = none;
  env = none;
  config_dir = false;
  enode_dir = false;
  database_dir = false;
  key_dir = false;
  monitor_dir = false;
  monitor_reports_dir = false;
}

-- A validator account from a raw key, with a password that is mistyped once.
abbrev key_answers : List Answer
key_answers = typed "0xkey" ∷ typed "pass" ∷ typed "past" ∷ typed "pass" ∷ typed "pass" ∷ []

abbrev as_validator : Session
as_validator = record {
  files = no_files;
  answers = typed "1" ∷ typed "2" ∷ key_answers;
  commands = [];
}

-- A file of the user's is there, and the set-up is refused.
abbrev with_password : Session
with_password = record as_validator { files = record no_files { password = some "old" } }

run_quickstart-IsSafe_example :
    IsSafe with_password.files (run_quickstart host options with_password).1.files
run_quickstart-IsSafe_example = run_quickstart-IsSafe host options with_password

is_fresh : IsFresh no_files
is_fresh = record {
  no_keystore = refl;
  no_legacy_keystore = refl;
  no_password = refl;
  no_address = refl;
}

key_read :
    read_private_key accounts key_answers
    ≡ (ok "0xkey", typed "pass" ∷ typed "past" ∷ typed "pass" ∷ typed "pass" ∷ [])
unfolding read_private_key private_key_of
key_read = refl

password_read :
    read_encryption_password (typed "pass" ∷ typed "past" ∷ typed "pass" ∷ typed "pass" ∷ [])
    ≡ (ok "pass", [])
unfolding read_encryption_password
password_read = refl

abbrev validator : Session
validator = record {
  files = with_account accounts "0xkey" "pass" no_files;
  answers = [];
  commands = [];
}

setup_account-IsFresh_example : setup_account accounts true as_validator ≡ (ok tt, validator)
setup_account-IsFresh_example =
    setup_account-IsFresh accounts true as_validator key_answers
      (typed "pass" ∷ typed "past" ∷ typed "pass" ∷ typed "pass" ∷ []) [] "0xkey" "pass" "0xkey"
      is_fresh refl key_read refl password_read

setup_as_validator : setup_account accounts true as_validator ≡ (ok tt, validator)
setup_as_validator =
    setup_account-IsFresh accounts true as_validator key_answers
      (typed "pass" ∷ typed "past" ∷ typed "pass" ∷ typed "pass" ∷ []) [] "0xkey" "pass" "0xkey"
      is_fresh refl key_read refl password_read

unprepared : is_validator_account_prepared as_validator.files ≡ false
unfolding is_validator_account_prepared
unprepared = refl

setup_account_lem_example :
    ((f : Files) × IsRenamed as_validator.files f × (validator.files ≡ with_dirs f))
    ⊎ (IsOneAccount accounts validator.files
        × OthersKept as_validator.files validator.files
        × ((again : Session)
            → again.files ≡ validator.files
            → setup_account accounts true again ≡ (ok tt, again)))
setup_account_lem_example =
    setup_account_lem accounts true as_validator validator setup_as_validator unprepared

-- A bridge with a node of the user's.
abbrev asked_for_bridge : Session
asked_for_bridge = record validator {
  answers = typed "2" ∷ typed "http://foreign-node:8545" ∷ typed "http://own:1" ∷ [];
}

abbrev with_bridge : Session
with_bridge = record validator {
  files = record validator.files { bridge_config = some "http://own:1" };
}

bridge_asked : write_bridge_config_dialog bridge asked_for_bridge ≡ (ok tt, with_bridge)
unfolding write_bridge_config_dialog prompt use_json_rpc asking on_files read_json_rpc_url
    is_default_json_url read copy_default_bridge_config change_json_rpc_url
bridge_asked = refl

url_written : (c u c' : String) → bridge.set_rpc_url c u ≡ ok c' → bridge.rpc_url c' ≡ ok u
url_written c u c' h = ground (arith, h)

no_url : (u : String) → bridge.rpc_url "" ≢ ok u
no_url u h = absurd (ground (arith, h))

write_bridge_config_dialog_lem_example :
    ((rest : List Answer) × (asked_for_bridge.answers ≡ typed "1" ∷ rest)
      × (should_foreign_node_be_started bridge with_bridge.files ≡ ok true))
    ⊎ ((asked : List Answer) × (url : String) × (c : String) × (asked_for_bridge.answers
          ≡ typed "2" ∷ asked)
        × TypedLast asked url with_bridge.answers
        × (with_bridge.files.bridge_config ≡ some c)
        × (bridge.rpc_url c ≡ ok url)
        × (should_foreign_node_be_started bridge with_bridge.files ≡ ok false))
write_bridge_config_dialog_lem_example =
    write_bridge_config_dialog_lem bridge url_written no_url asked_for_bridge with_bridge
      bridge_asked

-- A regular node, from an empty directory.
abbrev as_regular : Session
as_regular = record { files = no_files; answers = typed "2" ∷ []; commands = [] }

abbrev regular : Session
regular = record {
  files = record no_files {
    config_dir = true;
    enode_dir = true;
    database_dir = true;
    key_dir = true;
    monitor_dir = true;
    monitor_reports_dir = true;
    readme = some "readme";
    docker_compose = some "services";
  };
  answers = [];
  commands = [];
}

regular_set_up : set_up_services host options as_regular ≡ (ok tt, regular)
unfolding set_up_services setup_account handle_legacy_validator_key_file
    is_validator_account_prepared set_up_new set_up_directories make_required_dirs
    prompt_setup_as_validator prompt on_files setup_monitor make_monitor_dirs is_monitor_prepared
    setup_bridge is_bridge_prepared non_empty_file_exists setup_netstats is_netstats_prepared
    setup_docker create_docker_readme setup_compose_file is_default_file
    does_docker_compose_file_exist write_compose_file copy_default_docker_file hide_ports
    does_docker_compose_override_file_exist
regular_set_up = refl

no_foreign_node : should_foreign_node_be_started bridge regular.files ≡ ok false
unfolding should_foreign_node_be_started is_bridge_prepared non_empty_file_exists
no_foreign_node = refl

run_quickstart_lem_example :
    ((run_quickstart host options as_regular).0 ≡ ok tt)
    × (variables : List (String × String)) × (env_variables "tlbc" regular.files ≡ ok variables)
    × ((run_quickstart host options as_regular).1.commands
        ≡ []
          ++ plan docker
              (runtime_env_variables none variables)
              (optional_services regular.files false)
              regular.files)
    × ((false ≡ true) ↔ HasDefaultUrl bridge regular.files)
run_quickstart_lem_example =
    run_quickstart_lem host options as_regular regular false regular_set_up no_foreign_node
      (λ before variables f args. refl) 2 (omega arith) refl

compose_there : does_docker_compose_file_exist regular.files ≡ true
unfolding does_docker_compose_file_exist
compose_there = refl

update_and_start-Follows_example :
    (variables : List (String × String)) × (env_variables "tlbc" regular.files ≡ ok variables)
    × Follows
        (plan docker
          (runtime_env_variables none variables)
          (get_optional_docker_service_names regular.files false)
          regular.files)
        regular
        (update_and_start docker none false "tlbc" regular)
update_and_start-Follows_example =
    update_and_start-Follows docker none false "tlbc" regular compose_there
