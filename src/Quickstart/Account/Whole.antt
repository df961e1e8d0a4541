-- ===== src/Quickstart/Account/Whole.antt =====
-- What setting up the validator account does to the files, however it ends: what each of its writes does.
use trustlines_blockchain.Prelude.{◌≡◌, String, Bool, true, false, ok, assertion_error, arith}
use trustlines_blockchain.Prelude.Classes.{◌==◌, string_eq}
use trustlines_blockchain.Quickstart.Session.{Files, is_validator_account_prepared}
use trustlines_blockchain.Quickstart.Frame.{Frame, Within}
use trustlines_blockchain.Quickstart.Framed.{
  Framed, framed, done, raised, reading, lifted, asked, prompted, changed, either, ◌>>=◌, ◌>>◌,
}
use trustlines_blockchain.Quickstart.Prompts.{
  AccountLib, get_keystore_path, read_private_key, read_decryption_password,
  read_encryption_password,
}
use trustlines_blockchain.Quickstart.Account.{
  ensure_clean_setup, prompt_setup_as_validator, handle_legacy_validator_key_file,
  set_up_directories, store, import_keystore_file, import_private_key, generate_new_account,
  create_account, set_up_validator, set_up_new, setup_account,
}

module _ {A : Type 0} (lib : AccountLib A) (frame : Frame)
    (stores : (account : A) (password : String) → Within frame (store lib account password))
    (makes_dirs : Within frame set_up_directories)
    (renames : (may_rename : Bool) (f g : Files)
      → handle_legacy_validator_key_file may_rename f ≡ ok g
      → frame.Rel f g) where
  abbrev stored : A → String → Framed frame (Unit {0})
  stored account password = framed frame (store lib account password) (stores account password)

  import_keystore_file-Within : Within frame (import_keystore_file lib)
  unfolding import_keystore_file
  import_keystore_file-Within =
      (do
        keystore_path ← asked frame (get_keystore_path lib)
        keyfile ← lifted frame (lib.read_keyfile keystore_path)
        found ← asked frame (read_decryption_password lib keyfile)
        stored found.0 found.1).within

  import_private_key-Within : Within frame (import_private_key lib)
  unfolding import_private_key
  import_private_key-Within =
      (do
        private_key ← asked frame (read_private_key lib)
        account ← lifted frame (lib.from_key private_key)
        password ← asked frame read_encryption_password
        stored account password).within

  generate_new_account-Within : Within frame (generate_new_account lib)
  unfolding generate_new_account
  generate_new_account-Within =
      (do password ← asked frame read_encryption_password; stored lib.new_account password).within

  abbrev account_created : String → Framed frame (Unit {0})
  account_created choice =
      either (choice == "1") (framed frame (import_keystore_file lib) import_keystore_file-Within) (
        either (choice == "2") (framed frame (import_private_key lib) import_private_key-Within) (
          either (choice == "3")
            (framed frame (generate_new_account lib) generate_new_account-Within)
            (raised frame assertion_error)))

  ensure_clean_setup-Within : Within frame ensure_clean_setup
  unfolding ensure_clean_setup
  ensure_clean_setup-Within s = ground (arith, frame.same s.files)

  set_up_validator-Within : Within frame (set_up_validator lib)
  unfolding set_up_validator create_account
  set_up_validator-Within =
      (do
        (framed frame ensure_clean_setup ensure_clean_setup-Within)
        choice ← prompted frame
        account_created choice).within

  prompt_setup_as_validator-Within : Within frame prompt_setup_as_validator
  unfolding prompt_setup_as_validator
  prompt_setup_as_validator-Within =
      (do
        choice ← prompted frame
        either (choice == "1") (done frame true)
            (either (choice == "2") (done frame false) (raised frame assertion_error))).within

  set_up_new-Within : Within frame (set_up_new lib)
  unfolding set_up_new
  set_up_new-Within =
      (do
        (framed frame set_up_directories makes_dirs)
        as_validator ← (framed frame prompt_setup_as_validator prompt_setup_as_validator-Within)
        either as_validator (framed frame (set_up_validator lib) set_up_validator-Within)
            (done frame tt)).within

  pub setup_account-Within : (may_rename : Bool) → Within frame (setup_account lib may_rename)
  unfolding setup_account
  setup_account-Within may_rename =
      (do
        changed frame (handle_legacy_validator_key_file may_rename) (renames may_rename)
        prepared ← reading frame (λ s. is_validator_account_prepared s.files)
        either prepared (done frame tt) (framed frame (set_up_new lib) set_up_new-Within)).within
