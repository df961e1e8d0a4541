-- ===== src/Quickstart/BridgeConfig.antt =====
-- quickstart/src/quickstart/bridge.py, and `file_hash` of utils.py.
pub mod Safe
pub mod Dialog
pub mod Foreign
use trustlines_blockchain.Prelude.{
  String, Bool, true, false, not, Option, none, some, List, [], ◌∷◌, Result, ok, err, PyError,
  abort, assertion_error, value_error, connection_error, http_error, Action, pure, raise, raise_if,
  gets, lift, and_then, if◌then◌else◌, ◌>>=◌, ◌>>◌,
}
use trustlines_blockchain.Prelude.Classes.{◌==◌, string_eq}
use trustlines_blockchain.Quickstart.Session.{
  Files, Answer, typed, confirmed, Session, prompt, confirm, asking, on_files, read, touch,
  is_validator_account_prepared, is_bridge_prepared,
}

-- What is taken from toml, hashlib, filecmp and web3. `rpc_url` reads `foreign_chain.rpc_url` of a
-- configuration, `set_rpc_url` replaces it. `connect` is what a request to a node raises; the answers
-- that the user has left tell one request from another.
pub record BridgeLib : Type 0 where
  pub default_config : Option String
  pub rpc_url : String → Result String
  pub set_rpc_url : String → String → Result String
  pub file_hash : String → String
  pub is_same_file : String → String → Bool
  pub connect : String → List Answer → Option PyError

unfoldable pub legacy_config_hash : String
legacy_config_hash = "15dda4731c857ff978141e583c5e995727fb0284"

-- The exceptions that `read_json_rpc_url` catches.
unfoldable pub is_connection_problem : PyError → Bool
is_connection_problem connection_error = true
is_connection_problem http_error = true
is_connection_problem value_error = true
is_connection_problem _ = false

-- Overwrite (1), keep (2), or show the differences and ask again (3).
unfoldable pub should_overwrite_prompt : List Answer → Result Bool × List Answer
should_overwrite_prompt [] = (err abort, [])
should_overwrite_prompt (confirmed b ∷ rest) = (err abort, rest)
should_overwrite_prompt (typed choice ∷ rest) = elim (choice == "1") [
  | true ↦ (ok true, rest)
  | false ↦ elim (choice == "2") [
    | true ↦ (ok false, rest)
    | false ↦ elim (choice == "3") [
      | true ↦ should_overwrite_prompt rest
      | false ↦ (err assertion_error, rest)
    ]
  ]
]

unfoldable pub touch_bridge_config : Files → Files
touch_bridge_config f = record f { bridge_config = touch f.bridge_config }

module _ (lib : BridgeLib) where
  unfoldable pub copy_default_bridge_config : Files → Result Files
  copy_default_bridge_config f =
      and_then (read lib.default_config) λ c. ok (record f { bridge_config = some c })

  unfoldable pub is_default_json_url : String → Result Bool
  is_default_json_url url =
      and_then (read lib.default_config) λ c. and_then (lib.rpc_url c) λ u. ok (url == u)

  unfoldable pub change_json_rpc_url : String → Files → Result Files
  change_json_rpc_url url f =
      and_then (read f.bridge_config)
        λ c. and_then (lib.set_rpc_url c url) λ c'. ok (record f { bridge_config = some c' })

  unfoldable pub is_bridge_using_template_json_rpc_url : Files → Result Bool
  is_bridge_using_template_json_rpc_url f =
      and_then (read f.bridge_config) λ c. and_then (lib.rpc_url c) is_default_json_url

  -- A url that clashes with the default one is asked for again, and so is one that cannot be reached
  -- and that the user does not want to use.
  unfoldable pub read_json_rpc_url : List Answer → Result String × List Answer
  read_json_rpc_url [] = (err abort, [])
  read_json_rpc_url (confirmed b ∷ rest) = (err abort, rest)
  read_json_rpc_url (typed url ∷ []) = elim (is_default_json_url url) [
    | err x ↦ (err x, [])
    | ok clash ↦ elim clash [
      | true ↦ (err abort, [])
      | false ↦ elim (lib.connect url []) [
        | none ↦ (ok url, [])
        | some x ↦ (err (if is_connection_problem x then abort else x), [])
      ]
    ]
  ]
  read_json_rpc_url (typed url ∷ typed t ∷ rest) = elim (is_default_json_url url) [
    | err x ↦ (err x, typed t ∷ rest)
    | ok clash ↦ elim clash [
      | true ↦ read_json_rpc_url (typed t ∷ rest)
      | false ↦ elim (lib.connect url (typed t ∷ rest)) [
        | none ↦ (ok url, typed t ∷ rest)
        | some x ↦ (err (if is_connection_problem x then abort else x), rest)
      ]
    ]
  ]
  read_json_rpc_url (typed url ∷ confirmed b ∷ rest) = elim (is_default_json_url url) [
    | err x ↦ (err x, confirmed b ∷ rest)
    | ok clash ↦ elim clash [
      | true ↦ (err abort, rest)
      | false ↦ elim (lib.connect url (confirmed b ∷ rest)) [
        | none ↦ (ok url, confirmed b ∷ rest)
        | some x ↦ elim (is_connection_problem x) [
          | false ↦ (err x, confirmed b ∷ rest)
          | true ↦ elim b [ true ↦ (ok url, rest) | false ↦ read_json_rpc_url rest ]
        ]
      ]
    ]
  ]

  -- `assert is_bridge_using_template_json_rpc_url(...)`
  unfoldable pub assert_template_url : Action Session (Unit {0})
  assert_template_url = do
    f ← gets (λ s. s.files)
    same ← lift (is_bridge_using_template_json_rpc_url f)
    raise_if (not same) assertion_error

  unfoldable pub use_light_node : Action Session (Unit {0})
  use_light_node = do on_files copy_default_bridge_config; assert_template_url

  unfoldable pub use_json_rpc : Action Session (Unit {0})
  use_json_rpc = do
    url ← asking read_json_rpc_url
    on_files copy_default_bridge_config
    on_files (change_json_rpc_url url)

  unfoldable pub write_bridge_config_dialog : Action Session (Unit {0})
  write_bridge_config_dialog = do
    choice ← prompt
    if choice == "1"
        then use_light_node
        else if choice == "2"
        then use_json_rpc
        else raise assertion_error

  -- A configuration of the user's own.
  unfoldable pub replace_own_config : Action Session (Unit {0})
  replace_own_config = do
    overwrite ← asking should_overwrite_prompt
    if overwrite then write_bridge_config_dialog else pure tt

  unfoldable pub update_bridge_config : String → Action Session (Unit {0})
  update_bridge_config user_config s =
      if lib.file_hash user_config == legacy_config_hash
      then on_files copy_default_bridge_config s
      else elim (read lib.default_config) [
        | err x ↦ (err x, s)
        | ok c ↦ if lib.is_same_file user_config c then (ok tt, s) else replace_own_config s
      ]

  unfoldable pub offer_bridge : Action Session (Unit {0})
  offer_bridge = do
    wanted ← confirm
    if wanted then write_bridge_config_dialog else on_files (λ f. ok (touch_bridge_config f))

  unfoldable pub setup_bridge : Action Session (Unit {0})
  setup_bridge s =
      if is_bridge_prepared s.files
      then elim s.files.bridge_config [ none ↦ (ok tt, s) | some c ↦ update_bridge_config c s ]
      else if not (is_validator_account_prepared s.files)
      then (ok tt, s)
      else offer_bridge s

  -- `should_foreign_node_be_started` of cli.py.
  unfoldable pub should_foreign_node_be_started : Files → Result Bool
  should_foreign_node_be_started f =
      if is_bridge_prepared f then is_bridge_using_template_json_rpc_url f else ok false
