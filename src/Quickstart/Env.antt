-- ===== src/Quickstart/Env.antt =====
-- The variables of `update_and_start` in quickstart/src/quickstart/docker.py, by which the services
-- learn the role of the node.
use Prim.Native.String.{◌++◌}
use trustlines_blockchain.Prelude.{
  String, Option, none, some, List, [], ◌∷◌, Result, ok, and_then, if◌then◌else◌,
}
use trustlines_blockchain.Quickstart.Session.{Files, is_validator_account_prepared}
use trustlines_blockchain.Quickstart.Account.{get_validator_address, get_author_address}

unfoldable pub validator_variables : String → String → String → List (String × String)
validator_variables project_name address author =
    ("COMPOSE_PROJECT_NAME", project_name)
    ∷ ("ADDRESS_ARG", "--address " ++ address)
    ∷ ("AUTHOR_ARG", "--author " ++ author)
    ∷ ("ROLE", "validator")
    ∷ []

unfoldable pub node_variables : String → Files → Result (List (String × String))
node_variables project_name f = and_then (get_validator_address f) λ address.
    and_then (get_author_address f) λ author. ok (validator_variables project_name address author)

unfoldable pub env_variables : String → Files → Result (List (String × String))
env_variables project_name f =
    if is_validator_account_prepared f
    then node_variables project_name f
    else ok (("COMPOSE_PROJECT_NAME", project_name) ∷ ("ROLE", "observer") ∷ [])

-- What is set over `os.environ`.
unfoldable pub runtime_env_variables :
    Option String → List (String × String) → List (String × String)
runtime_env_variables none variables = variables
runtime_env_variables (some host_base_dir) variables = ("HOST_BASE_DIR", host_base_dir) ∷ variables
