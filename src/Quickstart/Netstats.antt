-- ===== src/Quickstart/Netstats.antt =====
-- quickstart/src/quickstart/netstats.py and monitor.py.
pub mod Safe
use Prim.Native.String.{◌++◌}
use trustlines_blockchain.Prelude.{
  String, Bool, true, false, Option, none, some, List, [], ◌∷◌, Result, ok, err, abort, Action,
  if◌then◌else◌, ◌>>=◌, ◌>>◌,
}
use trustlines_blockchain.Quickstart.Session.{
  Files, Answer, typed, confirmed, Session, prompt, confirm, asking, on_files, touch,
  is_netstats_prepared, is_monitor_prepared,
}

-- `check_credentials` asks the server at `netstats_url`, and may raise; the answers that the user has
-- left tell one request from another.
pub record NetstatsLib : Type 0 where
  pub check_credentials : String → String → String → List Answer → Result Bool

-- `ENV_FILE_TEMPLATE.format`
unfoldable pub env_file : String → String → String → String
env_file username password instance_name =
    "WS_USER=" ++ username ++ "\nWS_PASSWORD=" ++ password ++ "\nINSTANCE_NAME=" ++ instance_name
    ++ "\n# HIDE_VALIDATOR_STATUS=false\n"

unfoldable pub write_netstats_env : String → Files → Files
write_netstats_env content f = record f { netstats_env = some content }

unfoldable pub touch_netstats_env : Files → Files
touch_netstats_env f = record f { netstats_env = touch f.netstats_env }

module _ (lib : NetstatsLib) where
  -- The user name and the password, asked for until the server takes them.
  unfoldable pub read_credentials : String → List Answer → Result (String × String) × List Answer
  read_credentials netstats_url [] = (err abort, [])
  read_credentials netstats_url (confirmed b ∷ rest) = (err abort, rest)
  read_credentials netstats_url (typed username ∷ []) = (err abort, [])
  read_credentials netstats_url (typed username ∷ confirmed b ∷ rest) = (err abort, rest)
  read_credentials netstats_url (typed username ∷ typed password ∷ rest) =
      elim (lib.check_credentials netstats_url username password rest) [
        | err x ↦ (err x, rest)
        | ok valid ↦ elim valid [
          | true ↦ (ok (username, password), rest)
          | false ↦ read_credentials netstats_url rest
        ]
      ]

  unfoldable pub set_up_client : String → Action Session (Unit {0})
  set_up_client netstats_url = do
    found ← asking (read_credentials netstats_url)
    instance_name ← prompt
    on_files (λ f. ok (write_netstats_env (env_file found.0 found.1 instance_name) f))

  unfoldable pub offer_netstats : String → Action Session (Unit {0})
  offer_netstats netstats_url = do
    wanted ← confirm
    if wanted then set_up_client netstats_url else on_files (λ f. ok (touch_netstats_env f))

  unfoldable pub setup_netstats : Option String → Action Session (Unit {0})
  setup_netstats netstats_url s =
      if is_netstats_prepared s.files
      then (ok tt, s)
      else elim netstats_url [ none ↦ (ok tt, s) | some url ↦ offer_netstats url s ]

-- monitor.py
unfoldable pub make_monitor_dirs : Files → Files
make_monitor_dirs f =
    if is_monitor_prepared f then f else record f { monitor_dir = true; monitor_reports_dir = true }

unfoldable pub setup_monitor : Action Session (Unit {0})
setup_monitor = on_files λ f. ok (make_monitor_dirs f)
