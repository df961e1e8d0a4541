-- ===== src/Quickstart/Account.antt =====
-- quickstart/src/quickstart/validator_account.py, and the files of an account in utils.py.
pub mod Whole
pub mod Safe
pub mod Others
pub mod Stored
pub mod Fresh
use trustlines_blockchain.Prelude.{
  String, Bool, true, false, not, none, some, is_some, [], ◌∷◌, Result, ok, err, value_error,
  assertion_error, click_exception, usage_error, Action, pure, raise, gets, lift, and_then,
  if◌then◌else◌, ◌>>=◌, ◌>>◌,
}
use trustlines_blockchain.Prelude.Classes.{◌==◌, string_eq}
use trustlines_blockchain.Quickstart.Session.{
  Files, Session, prompt, confirm, asking, on_files, create, is_validator_account_prepared,
  is_author_address_prepared,
}
use trustlines_blockchain.Quickstart.Prompts.{
  AccountLib, get_keystore_path, read_private_key, read_address, read_decryption_password,
  read_encryption_password,
}

unfoldable pub ensure_clean_setup : Action Session (Unit {0})
ensure_clean_setup s =
    if is_some s.files.password
    then (err click_exception, s)
    else if is_some s.files.keystore
    then (err click_exception, s)
    else if is_some s.files.address
    then (err click_exception, s)
    else (ok tt, s)

unfoldable pub make_required_dirs : Files → Files
make_required_dirs f = record f {
  config_dir = true;
  enode_dir = true;
  database_dir = true;
  key_dir = true;
}

unfoldable pub prompt_setup_as_validator : Action Session Bool
prompt_setup_as_validator = do
  choice ← prompt
  if choice == "1" then pure true else if choice == "2" then pure false else raise assertion_error

-- The three writes of `TrustlinesFiles.store`.
unfoldable pub create_keystore : String → Files → Result Files
create_keystore json_account f =
    and_then (create f.key_dir f.keystore json_account) λ k. ok (record f { keystore = k })

unfoldable pub create_password : String → Files → Result Files
create_password password f =
    and_then (create f.config_dir f.password password) λ p. ok (record f { password = p })

unfoldable pub create_address : String → Files → Result Files
create_address address f =
    and_then (create f.config_dir f.address address) λ a. ok (record f { address = a })

-- `validator_key_file_exists`, and the renaming of the one legacy key file; `may_rename` is false
-- where a PermissionError is raised.
unfoldable pub handle_legacy_validator_key_file : Bool → Files → Result Files
handle_legacy_validator_key_file may_rename f =
    if is_some f.keystore then ok f else elim f.legacy_keystores [
      | [] ↦ ok f
      | file ∷ more ↦ elim more [
        | [] ↦
            if may_rename
            then ok (record f { keystore = some file.1; legacy_keystores = [] })
            else err usage_error
        | other ∷ others ↦ err usage_error
      ]
    ]

unfoldable pub get_validator_address : Files → Result String
get_validator_address f = elim f.address [ none ↦ err value_error | some a ↦ ok a ]

unfoldable pub get_author_address : Files → Result String
get_author_address f =
    if not (is_validator_account_prepared f)
    then err value_error
    else elim f.author_address [ some a ↦ ok a | none ↦ get_validator_address f ]

unfoldable pub set_up_directories : Action Session (Unit {0})
set_up_directories = on_files λ f. ok (make_required_dirs f)

-- `open(path, "x")` of the author's address, after its directory is made.
unfoldable pub create_author_address : String → Files → Result Files
create_author_address address f =
    and_then (create true f.author_address address)
      λ a. ok (record f { author_address = a; config_dir = true })

module _ {A : Type 0} (lib : AccountLib A) where
  -- `TrustlinesFiles.store`
  unfoldable pub store : A → String → Action Session (Unit {0})
  store account password = do
    on_files (create_keystore (lib.encrypt account password))
    on_files (create_password password)
    on_files (create_address (lib.address account))

  unfoldable pub import_keystore_file : Action Session (Unit {0})
  import_keystore_file = do
    keystore_path ← asking (get_keystore_path lib)
    keyfile ← lift (lib.read_keyfile keystore_path)
    found ← asking (read_decryption_password lib keyfile)
    store found.0 found.1

  unfoldable pub import_private_key : Action Session (Unit {0})
  import_private_key = do
    private_key ← asking (read_private_key lib)
    account ← lift (lib.from_key private_key)
    password ← asking read_encryption_password
    store account password

  unfoldable pub generate_new_account : Action Session (Unit {0})
  generate_new_account = do
    password ← asking read_encryption_password
    store lib.new_account password

  -- The choice between the three, in `setup_interactively`.
  unfoldable pub create_account : String → Action Session (Unit {0})
  create_account choice =
      if choice == "1"
      then import_keystore_file
      else if choice == "2"
      then import_private_key
      else if choice == "3"
      then generate_new_account
      else raise assertion_error

  unfoldable pub set_up_validator : Action Session (Unit {0})
  set_up_validator = do ensure_clean_setup; choice ← prompt; create_account choice

  unfoldable pub set_up_new : Action Session (Unit {0})
  set_up_new = do
    set_up_directories
    as_validator ← prompt_setup_as_validator
    if as_validator then set_up_validator else pure tt

  unfoldable pub setup_account : Bool → Action Session (Unit {0})
  setup_account may_rename = do
    on_files (handle_legacy_validator_key_file may_rename)
    prepared ← gets (λ s. is_validator_account_prepared s.files)
    if prepared then pure tt else set_up_new

  unfoldable pub write_author_address : Action Session (Unit {0})
  write_author_address = do
    address ← asking (read_address lib)
    on_files (create_author_address address)

  unfoldable pub ask_author_address : Action Session (Unit {0})
  ask_author_address = do dedicated ← confirm; if dedicated then write_author_address else pure tt

  unfoldable pub setup_author_address : Action Session (Unit {0})
  setup_author_address s =
      if is_author_address_prepared s.files
      then (ok tt, s)
      else if not (is_validator_account_prepared s.files)
      then (ok tt, s)
      else ask_author_address s
