-- ===== src/Quickstart/Account/Stored.antt =====
-- What a set-up of the validator account that went well has written.
use mathlib.Core.Path.{subst}
use trustlines_blockchain.Prelude.{
  Result, ◌≡◌, refl, ap, String, Bool, true, false, Option-cases, none, some, is_some, List, [],
  ◌∷◌, ok, Action, pure, lift, raise, bind-ok, assertion_error, ◌⊎◌, inl, inr, if◌then◌else◌, arith,
}
use trustlines_blockchain.Prelude.Classes.{string_eq, ◌==◌}
use trustlines_blockchain.Quickstart.Session.{
  Files, Session, create, on_files, asking, prompt, is_validator_account_prepared,
}
use trustlines_blockchain.Quickstart.Steps.{on_files-ok}
use trustlines_blockchain.Quickstart.Yields.{
  Yields, Yielding, yielding, refused, either, ◌>>=◌, ◌>>◌,
}
use trustlines_blockchain.Quickstart.Frame.{Within, unchanged, bind-Within, prompt-Within}
use trustlines_blockchain.Quickstart.Prompts.{
  AccountLib, get_keystore_path, read_private_key, read_decryption_password,
  read_encryption_password,
}
use trustlines_blockchain.Quickstart.Account.Others.{OthersKept, setup_account-OthersKept}
use trustlines_blockchain.Quickstart.Account.{
  ensure_clean_setup, make_required_dirs, prompt_setup_as_validator, create_keystore,
  create_password, create_address, handle_legacy_validator_key_file, set_up_directories, store,
  import_keystore_file, import_private_key, generate_new_account, create_account, set_up_validator,
  set_up_new, setup_account,
}

abbrev validator_or_not : String → Action Session Bool
validator_or_not choice =
    if choice == "1" then pure true else if choice == "2" then pure false else raise assertion_error

validator_or_not-unchanged : (choice : String) → Within unchanged (validator_or_not choice)
validator_or_not-unchanged choice s = ground arith

prompt_setup_as_validator-unchanged : Within unchanged prompt_setup_as_validator
unfolding prompt_setup_as_validator
prompt_setup_as_validator-unchanged =
    bind-Within unchanged prompt validator_or_not (prompt-Within unchanged)
      validator_or_not-unchanged

-- The legacy key file does not make an account.
legacy-prepared :
    (may_rename : Bool) (f g : Files)
    → handle_legacy_validator_key_file may_rename f ≡ ok g
    → is_validator_account_prepared f ≡ false
    → is_validator_account_prepared g ≡ false
unfolding handle_legacy_validator_key_file is_validator_account_prepared
legacy-prepared may_rename f g h new = ground (arith, h, new)

-- The directories that the node writes to are there.
abbrev pub with_dirs : Files → Files
with_dirs f = record f { config_dir = true; enode_dir = true; database_dir = true; key_dir = true }

-- A keystore, or no legacy key file: the files are as before. Otherwise the one legacy key file has
-- become the keystore.
abbrev pub IsRenamed : Files → Files → Type 0
IsRenamed f g =
    (((is_some f.keystore ≡ true) ⊎ (f.legacy_keystores ≡ [])) × (g ≡ f))
    ⊎ ((path : String) × (content : String) × (f.keystore ≡ none)
        × (f.legacy_keystores ≡ (path, content) ∷ [])
        × (g ≡ record f { keystore = some content; legacy_keystores = [] }))

handle_legacy-IsRenamed :
    (may_rename : Bool) (f g : Files)
    → handle_legacy_validator_key_file may_rename f ≡ ok g
    → IsRenamed f g
unfolding handle_legacy_validator_key_file
handle_legacy-IsRenamed may_rename f g h = elim (Option-cases f.keystore) [
  | inr (k, e) ↦ inl (inl (ground (arith, e)), ground (arith, h, e))
  | inl e ↦ go e f.legacy_keystores refl
]
  where
    go : f.keystore ≡ none → (l : List (String × String)) → f.legacy_keystores ≡ l → IsRenamed f g
    go e [] none_there = inl (inr none_there, ground (arith, h, e, none_there))
    go e ((path, content) ∷ []) one = inr (path, content, e, one, ground (arith, h, e, one))
    go e (file ∷ other ∷ others) several = absurd (ground (arith, h, e, several))

module _ {A : Type 0} (lib : AccountLib A) where
  -- The three files are those of one account: the keystore opens with the password, and the address is
  -- the account's.
  abbrev pub HasAccount : A → String → Files → Type 0
  HasAccount account password f =
      (f.keystore ≡ some (lib.encrypt account password))
      × (f.password ≡ some password)
      × (f.address ≡ some (lib.address account))

  abbrev pub IsOneAccount : Files → Type 0
  IsOneAccount f = (account : A) × (password : String) × HasAccount account password f

  pub store-HasAccount :
      (account : A) (password : String) (s s' : Session)
      → store lib account password s ≡ (ok tt, s')
      → HasAccount account password s'.files
  unfolding store on_files create_keystore create_password create_address create
  store-HasAccount account password s s' h = ground (arith, h)

  store-IsOneAccount :
      (account : A) (password : String) (s s' : Session)
      → store lib account password s ≡ (ok tt, s')
      → IsOneAccount s'.files
  store-IsOneAccount account password s s' h =
      (account, password, store-HasAccount account password s s' h)

  abbrev Stores : Unit {0} → Session → Type 0
  Stores u s = IsOneAccount s.files

  abbrev stored : A → String → Yielding Stores
  stored account password =
      yielding (store lib account password)
        (λ s s' u h. (account, password, store-HasAccount account password s s' h))

  import_keystore_file-IsOneAccount : Yields Stores (import_keystore_file lib)
  unfolding import_keystore_file
  import_keystore_file-IsOneAccount =
      (do
        path ← asking (get_keystore_path lib)
        keyfile ← lift (lib.read_keyfile path)
        found ← asking (read_decryption_password lib keyfile)
        stored found.0 found.1).yields

  import_private_key-IsOneAccount : Yields Stores (import_private_key lib)
  unfolding import_private_key
  import_private_key-IsOneAccount =
      (do
        key ← asking (read_private_key lib)
        account ← lift (lib.from_key key)
        password ← asking read_encryption_password
        stored account password).yields

  generate_new_account-IsOneAccount : Yields Stores (generate_new_account lib)
  unfolding generate_new_account
  generate_new_account-IsOneAccount =
      (do password ← asking read_encryption_password; stored lib.new_account password).yields

  set_up_validator-IsOneAccount : Yields Stores (set_up_validator lib)
  unfolding set_up_validator create_account
  set_up_validator-IsOneAccount =
      (do
        ensure_clean_setup
        choice ← prompt
        either (choice == "1")
            (yielding (import_keystore_file lib) import_keystore_file-IsOneAccount)
            (either (choice == "2")
              (yielding (import_private_key lib) import_private_key-IsOneAccount)
              (either (choice == "3")
                (yielding (generate_new_account lib) generate_new_account-IsOneAccount)
                (refused assertion_error)))).yields

  either_of_two :
      (as_validator : Bool) (s0 s1 s' : Session)
      → prompt_setup_as_validator s0 ≡ (ok as_validator, s1)
      → (if as_validator then set_up_validator lib else pure tt) s1 ≡ (ok tt, s')
      → (s'.files ≡ s0.files) ⊎ IsOneAccount s'.files
  either_of_two true s0 s1 s' asked h = inr (set_up_validator-IsOneAccount s1 s' tt h)
  either_of_two false s0 s1 s' asked h =
      let kept = prompt_setup_as_validator-unchanged s0 in
      let moved : s0.files ≡ s1.files = rw asked at kept in inl (ground (arith, h, moved))

  set_up_new_lem :
      (s s' : Session)
      → set_up_new lib s ≡ (ok tt, s')
      → (s'.files ≡ make_required_dirs s.files) ⊎ IsOneAccount s'.files
  unfolding set_up_new set_up_directories on_files
  set_up_new_lem s s' h =
      let s0 : Session = record s { files = make_required_dirs s.files } in
      let (as_validator, s1, asked, h1) =
        bind-ok prompt_setup_as_validator (λ v. if v then set_up_validator lib else pure tt) s0 s'
          tt h in
      either_of_two as_validator s0 s1 s' asked h1

  -- With a keystore and an address there is nothing left to do or to ask.
  setup_account-again :
      (may_rename : Bool) (account : A) (password : String) (s : Session)
      → HasAccount account password s.files
      → setup_account lib may_rename s ≡ (ok tt, s)
  unfolding setup_account on_files handle_legacy_validator_key_file is_validator_account_prepared
  setup_account-again may_rename account password s h = ground (arith, h)

  new_or_not :
      (prepared : Bool) (s s' : Session)
      → (if prepared then pure tt else set_up_new lib) s ≡ (ok tt, s')
      → prepared ≡ false
      → (s'.files ≡ make_required_dirs s.files) ⊎ IsOneAccount s'.files
  new_or_not true s s' h new = absurd (ground (arith, new))
  new_or_not false s s' h new = set_up_new_lem s s' h

  -- Where no account was set up, a set-up that raises nothing either has left a regular node, and then
  -- nothing was done to the files but that the four directories were made and, if there was no keystore
  -- and one legacy key file, that this file has become the keystore; or it has written the keystore, the
  -- password and the address of one account and touched no file beside the account's, and after that a further set-up neither asks nor changes
  -- anything.
  pub setup_account_lem :
      (may_rename : Bool) (s s' : Session)
      → setup_account lib may_rename s ≡ (ok tt, s')
      → is_validator_account_prepared s.files ≡ false
      → ((f : Files) × IsRenamed s.files f × (s'.files ≡ with_dirs f))
        ⊎ (IsOneAccount s'.files
            × OthersKept s.files s'.files
            × ((again : Session)
                → again.files ≡ s'.files
                → setup_account lib may_rename again ≡ (ok tt, again)))
  unfolding setup_account make_required_dirs
  setup_account_lem may_rename s s' h new =
      let (_, s1, legacy, h1) =
        bind-ok (on_files (handle_legacy_validator_key_file may_rename))
          (λ _ t. (if is_validator_account_prepared t.files then pure tt else set_up_new lib) t) s
          s' tt h in
      let (f, found, moved) =
        on_files-ok (handle_legacy_validator_key_file may_rename) s s1 legacy in
      let files_of = ap (λ (t : Session). t.files) moved in
      let kept : OthersKept s.files s'.files =
        subst (λ (p : Result (Unit {0}) × Session). OthersKept s.files p.1.files) h
          (setup_account-OthersKept lib may_rename s) in
      let unprepared = legacy-prepared may_rename s.files f found new in
      elim (new_or_not (is_validator_account_prepared s1.files) s1 s' h1 (rw files_of unprepared)) [
        | inl regular ↦
            inl (f, handle_legacy-IsRenamed may_rename s.files f found, rw files_of at regular)
        | inr one ↦
            inr
              (one, kept, λ again e. setup_account-again may_rename one.0 one.1 again (rw e one.2))
      ]
