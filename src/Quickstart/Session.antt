-- ===== src/Quickstart/Session.antt =====
-- What the quickstart works on: the files below the base directory, named in
-- quickstart/src/quickstart/constants.py, and what the user answers. The names of the base directory
-- and of the chain's key directory are fixed, and no directory stands where a file is expected.
use trustlines_blockchain.Prelude.{
  String, Bool, true, false, not, Option, none, some, is_some, List, [], ◌∷◌, Result, ok, err,
  file_exists_error, file_not_found_error, abort, Action,
}
use trustlines_blockchain.Prelude.Classes.{◌==◌, string_eq}

-- A file is its text, or is not there; `env` is read as its lines `key=value`. `legacy_keystores` are the files of the key directory that
-- match `UTC-*`, with their paths. A directory is there or not.
pub record Files : Type 0 where
  pub password : Option String
  pub address : Option String
  pub author_address : Option String
  pub keystore : Option String
  pub legacy_keystores : List (String × String)
  pub netstats_env : Option String
  pub bridge_config : Option String
  pub docker_compose : Option String
  pub docker_compose_override : Option String
  pub readme : Option String
  pub env : Option (List (String × String))
  pub config_dir : Bool
  pub enode_dir : Bool
  pub database_dir : Bool
  pub key_dir : Bool
  pub monitor_dir : Bool
  pub monitor_reports_dir : Bool

-- What a call of `click.prompt` or `click.confirm` returns.
pub data Answer : Type 0 where
  typed : String → Answer
  confirmed : Bool → Answer

-- A command with what it finds in its environment, over the quickstart's own.
pub record Command : Type 0 where
  pub args : List String
  pub variables : List (String × String)

-- The answers to come, in order: where there are none left, the user has aborted. `commands` are the
-- commands that were run.
pub record Session : Type 0 where
  pub files : Files
  pub answers : List Answer
  pub commands : List Command

-- `click.prompt`, which returns a text, and `click.confirm`.
unfoldable pub prompt : Action Session String
prompt s = elim s.answers [
  | [] ↦ (err abort, s)
  | a ∷ rest ↦ elim a [
    | typed t ↦ (ok t, record s { answers = rest })
    | confirmed b ↦ (err abort, record s { answers = rest })
  ]
]

unfoldable pub confirm : Action Session Bool
confirm s = elim s.answers [
  | [] ↦ (err abort, s)
  | a ∷ rest ↦ elim a [
    | typed t ↦ (err abort, record s { answers = rest })
    | confirmed b ↦ (ok b, record s { answers = rest })
  ]
]

-- A dialog that only asks, again and again.
unfoldable pub asking : {A : Type 0} → (List Answer → Result A × List Answer) → Action Session A
asking dialog s = let (r, rest) = dialog s.answers in (r, record s { answers = rest })

unfoldable pub on_files : (Files → Result Files) → Action Session (Unit {0})
on_files change s = elim (change s.files) [
  | err x ↦ (err x, s)
  | ok f ↦ (ok tt, record s { files = f })
]

-- A file opened with mode "x", in a directory that may be missing.
unfoldable pub create : Bool → Option String → String → Result (Option String)
create false old content = err file_not_found_error
create true (some old) content = err file_exists_error
create true none content = ok (some content)

-- `non_empty_file_exists`
unfoldable pub non_empty_file_exists : Option String → Bool
non_empty_file_exists none = false
non_empty_file_exists (some content) = not (content == "")

unfoldable pub is_validator_account_prepared : Files → Bool
is_validator_account_prepared f = is_some f.address

unfoldable pub is_author_address_prepared : Files → Bool
is_author_address_prepared f = is_some f.author_address

unfoldable pub is_netstats_prepared : Files → Bool
is_netstats_prepared f = non_empty_file_exists f.netstats_env

unfoldable pub is_bridge_prepared : Files → Bool
is_bridge_prepared f = non_empty_file_exists f.bridge_config

unfoldable pub is_monitor_prepared : Files → Bool
is_monitor_prepared f = f.monitor_dir

-- Reading a file, and `shutil.copyfile` from it.
unfoldable pub read : Option String → Result String
read none = err file_not_found_error
read (some content) = ok content

-- `Path(...).touch()`: a file that is there keeps its text.
unfoldable pub touch : Option String → Option String
touch none = some ""
touch (some content) = some content
