-- ===== src/Quickstart/Account/Fresh.antt =====
-- Setting up a validator account where there is none yet.
use trustlines_blockchain.Prelude.{
  ◌≡◌, refl, bind-eq, String, Bool, true, false, Option, none, some, List, [], ◌∷◌, Result, ok,
  lift, pure, raise, assertion_error, ◌>>=◌, ◌>>◌, if◌then◌else◌, arith,
}
use trustlines_blockchain.Prelude.Classes.{string_eq, ◌==◌}
use trustlines_blockchain.Quickstart.Session.{
  Files, Answer, Session, typed, create, on_files, asking, prompt, is_validator_account_prepared,
}
use trustlines_blockchain.Quickstart.Steps.{on_files-eq, asking-eq, prompt-eq, if_false}
use trustlines_blockchain.Quickstart.Prompts.{
  AccountLib, read_private_key, read_encryption_password,
}
use trustlines_blockchain.Quickstart.Account.{
  ensure_clean_setup, make_required_dirs, prompt_setup_as_validator, create_keystore,
  create_password, create_address, handle_legacy_validator_key_file, set_up_directories, store,
  import_private_key, create_account, set_up_validator, set_up_new, setup_account,
}

pub record IsFresh (f : Files) : Type 0 where
  pub no_keystore : f.keystore ≡ none
  pub no_legacy_keystore : f.legacy_keystores ≡ []
  pub no_password : f.password ≡ none
  pub no_address : f.address ≡ none

asked_for_validator :
    (rest : List Answer) (s : Session)
    → s.answers ≡ typed "1" ∷ rest
    → prompt_setup_as_validator s ≡ (ok true, record s { answers = rest })
unfolding prompt_setup_as_validator
asked_for_validator rest s h =
    bind-eq prompt
      (λ choice.
        if choice == "1"
        then pure true
        else if choice == "2"
        then pure false
        else raise assertion_error)
      s (record s { answers = rest }) "1" (ok true, record s { answers = rest })
      (prompt-eq "1" rest s h) refl

created :
    (old : Option String) (content : String)
    → old ≡ none
    → create true old content ≡ ok (some content)
unfolding create
created none content h = refl
created (some x) content h = absurd (ground (arith, h))

make_required_dirs-IsFresh : (f : Files) → IsFresh f → IsFresh (make_required_dirs f)
unfolding make_required_dirs
make_required_dirs-IsFresh f fresh = record {
  no_keystore = fresh.no_keystore;
  no_legacy_keystore = fresh.no_legacy_keystore;
  no_password = fresh.no_password;
  no_address = fresh.no_address;
}

unprepared : (f : Files) → IsFresh f → is_validator_account_prepared f ≡ false
unfolding is_validator_account_prepared
unprepared f fresh = ground (arith, fresh)

clean : (s : Session) → IsFresh s.files → ensure_clean_setup s ≡ (ok tt, s)
unfolding ensure_clean_setup
clean s fresh = ground (arith, fresh)

no_legacy :
    (may_rename : Bool) (f : Files)
    → f.keystore ≡ none
    → f.legacy_keystores ≡ []
    → handle_legacy_validator_key_file may_rename f ≡ ok f
unfolding handle_legacy_validator_key_file
no_legacy may_rename f k l = ground (arith, k, l)

module _ {A : Type 0} (lib : AccountLib A) where
  abbrev pub with_account : A → String → Files → Files
  with_account account password f = record f {
    config_dir = true;
    enode_dir = true;
    database_dir = true;
    key_dir = true;
    keystore = some (lib.encrypt account password);
    password = some password;
    address = some (lib.address account);
  }

  -- In a directory that `make_required_dirs` made and that `ensure_clean_setup` lets pass.
  store_clean :
      (account : A) (password : String) (s : Session)
      → s.files.keystore ≡ none
      → s.files.password ≡ none
      → s.files.address ≡ none
      → store lib account password (record s { files = make_required_dirs s.files })
        ≡ (ok tt, record s { files = with_account account password s.files })
  unfolding store create_keystore create_password create_address make_required_dirs
  store_clean account password s k p a =
      let f0 = make_required_dirs s.files in
      let f1 : Files = record f0 { keystore = some (lib.encrypt account password) } in
      let f2 : Files = record f1 { password = some password } in
      let f3 : Files = record f2 { address = some (lib.address account) } in
      bind-eq (on_files (create_keystore (lib.encrypt account password)))
        (λ _.
          on_files (create_password password) >> on_files (create_address (lib.address account)))
        (record s { files = f0 }) (record s { files = f1 }) tt (ok tt, record s { files = f3 })
        (on_files-eq (create_keystore (lib.encrypt account password)) f1 (record s { files = f0 })
          (rw (created s.files.keystore (lib.encrypt account password) k)))
        (bind-eq (on_files (create_password password))
          (λ _. on_files (create_address (lib.address account))) (record s { files = f1 })
          (record s { files = f2 }) tt (ok tt, record s { files = f3 })
          (on_files-eq (create_password password) f2 (record s { files = f1 })
            (rw (created s.files.password password p)))
          (on_files-eq (create_address (lib.address account)) f3 (record s { files = f2 })
            (rw (created s.files.address (lib.address account) a))))

  import_clean :
      (s : Session) (rest left : List Answer) (key password : String) (account : A)
      → IsFresh s.files
      → read_private_key lib s.answers ≡ (ok key, rest)
      → lib.from_key key ≡ ok account
      → read_encryption_password rest ≡ (ok password, left)
      → import_private_key lib (record s { files = make_required_dirs s.files })
        ≡ (ok tt, record s { files = with_account account password s.files; answers = left })
  unfolding import_private_key
  import_clean s rest left key password account fresh h k l =
      let s0 : Session = record s { files = make_required_dirs s.files } in
      let s1 : Session = record s0 { answers = rest } in
      let s2 : Session = record s { answers = left } in
      bind-eq (asking (read_private_key lib))
        (λ x. lift (lib.from_key x) >>= (λ a. asking read_encryption_password >>= store lib a)) s0
        s1 key (ok tt, record s2 { files = with_account account password s.files })
        (asking-eq (read_private_key lib) (ok key) rest s0 h)
        (bind-eq (lift (lib.from_key key)) (λ a. asking read_encryption_password >>= store lib a) s1
          s1 account (ok tt, record s2 { files = with_account account password s.files }) (rw k)
          (bind-eq (asking read_encryption_password) (store lib account) s1
            (record s0 { answers = left }) password
            (ok tt, record s2 { files = with_account account password s.files })
            (asking-eq read_encryption_password (ok password) left s1 l)
            (store_clean account password s2 fresh.no_keystore fresh.no_password fresh.no_address)))

  validator_clean :
      (s : Session) (typed_key rest left : List Answer) (key password : String) (account : A)
      → IsFresh s.files
      → s.answers ≡ typed "2" ∷ typed_key
      → read_private_key lib typed_key ≡ (ok key, rest)
      → lib.from_key key ≡ ok account
      → read_encryption_password rest ≡ (ok password, left)
      → set_up_validator lib (record s { files = make_required_dirs s.files })
        ≡ (ok tt, record s { files = with_account account password s.files; answers = left })
  unfolding set_up_validator create_account
  validator_clean s typed_key rest left key password account fresh a h k l =
      let s0 : Session = record s { files = make_required_dirs s.files } in
      let goal : Result (Unit {0}) × Session =
        (ok tt, record s { files = with_account account password s.files; answers = left }) in
      bind-eq ensure_clean_setup (λ _. prompt >>= create_account lib) s0 s0 tt goal
        (clean s0 (make_required_dirs-IsFresh s.files fresh))
        (bind-eq prompt (create_account lib) s0 (record s0 { answers = typed_key }) "2" goal
          (prompt-eq "2" typed_key s0 a)
          (import_clean (record s { answers = typed_key }) rest left key password account fresh h k
            l))

  set_up_fresh :
      (s : Session) (typed_key rest left : List Answer) (key password : String) (account : A)
      → IsFresh s.files
      → s.answers ≡ typed "1" ∷ typed "2" ∷ typed_key
      → read_private_key lib typed_key ≡ (ok key, rest)
      → lib.from_key key ≡ ok account
      → read_encryption_password rest ≡ (ok password, left)
      → (if is_validator_account_prepared s.files then pure tt else set_up_new lib) s
        ≡ (ok tt, record s { files = with_account account password s.files; answers = left })
  unfolding set_up_new set_up_directories on_files
  set_up_fresh s typed_key rest left key password account fresh a h k l =
      let s0 : Session = record s { files = make_required_dirs s.files } in
      if_false (is_validator_account_prepared s.files) (pure tt) (set_up_new lib) s
        (ok tt, record s { files = with_account account password s.files; answers = left })
        (unprepared s.files fresh)
        (bind-eq prompt_setup_as_validator (λ v. if v then set_up_validator lib else pure tt) s0
          (record s0 { answers = typed "2" ∷ typed_key }) true
          (ok tt, record s { files = with_account account password s.files; answers = left })
          (asked_for_validator (typed "2" ∷ typed_key) s0 a)
          (validator_clean (record s { answers = typed "2" ∷ typed_key }) typed_key rest left key
            password account fresh refl h k l))

  -- Where there is no keystore, legacy key file, password or address yet, the choice of a validator
  -- account (1) and of a raw private key (2), with a key that is read in the end and that an account
  -- has, and a password that is read in the end, sets the account up: nothing is refused, and the
  -- keystore, the password and the address are written.
  pub setup_account-IsFresh :
      (may_rename : Bool) (s : Session) (typed_key rest left : List Answer) (key password : String)
      (account : A)
      → IsFresh s.files
      → s.answers ≡ typed "1" ∷ typed "2" ∷ typed_key
      → read_private_key lib typed_key ≡ (ok key, rest)
      → lib.from_key key ≡ ok account
      → read_encryption_password rest ≡ (ok password, left)
      → setup_account lib may_rename s
        ≡ (ok tt, record s { files = with_account account password s.files; answers = left })
  unfolding setup_account
  setup_account-IsFresh may_rename s typed_key rest left key password account fresh a h k l =
      let s0 : Session = record s { files = make_required_dirs s.files } in
      bind-eq (on_files (handle_legacy_validator_key_file may_rename))
        (λ _ t. (if is_validator_account_prepared t.files then pure tt else set_up_new lib) t) s s
        tt (ok tt, record s { files = with_account account password s.files; answers = left })
        (on_files-eq (handle_legacy_validator_key_file may_rename) s.files s
          (no_legacy may_rename s.files fresh.no_keystore fresh.no_legacy_keystore))
        (set_up_fresh s typed_key rest left key password account fresh a h k l)
