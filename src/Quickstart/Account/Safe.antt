-- ===== src/Quickstart/Account/Safe.antt =====
-- Setting up the validator account leaves the account files in order, however it ends.
use trustlines_blockchain.Prelude.{
  ◌≡◌, refl, String, Bool, true, Option, none, some, is_some, ok, arith,
}
use trustlines_blockchain.Prelude.Classes.{string_eq}
use trustlines_blockchain.Quickstart.Session.{Files, create, on_files}
use trustlines_blockchain.Quickstart.Frame.{Frame, Within}
use trustlines_blockchain.Quickstart.Prompts.{AccountLib}
use trustlines_blockchain.Quickstart.Account.Whole.{setup_account-Within}
use trustlines_blockchain.Quickstart.Account.{
  make_required_dirs, create_keystore, create_password, create_address,
  handle_legacy_validator_key_file, set_up_directories, store, setup_account,
}

-- A file that is there keeps its text.
abbrev pub Kept : Option String → Option String → Type 0
Kept none new = Unit
Kept (some x) new = new ≡ some x

-- An address comes with the keystore and the password that unlock it.
abbrev pub IsComplete : Files → Type 0
IsComplete f = is_some f.address ≡ true → (is_some f.keystore ≡ true) × (is_some f.password ≡ true)

pub record IsSafe (f g : Files) : Type 0 where
  pub keystore_kept : Kept f.keystore g.keystore
  pub password_kept : Kept f.password g.password
  pub address_kept : Kept f.address g.address
  pub completes : IsComplete f → IsComplete g

pub Kept-refl : (x : Option String) → Kept x x
Kept-refl none = tt
Kept-refl (some x) = refl

pub Kept-trans : (x y z : Option String) → Kept x y → Kept y z → Kept x z
Kept-trans none y z h k = tt
Kept-trans (some x) none z h k = absurd (ground (arith, h))
Kept-trans (some x) (some y) z h k = ground (arith, h, k)

-- Files that agree on the account.
pub of_same_account :
    (f g : Files)
    → f.keystore ≡ g.keystore
    → f.password ≡ g.password
    → f.address ≡ g.address
    → IsSafe f g
of_same_account f g k p a = record {
  keystore_kept = rw (← k) (Kept-refl f.keystore);
  password_kept = rw (← p) (Kept-refl f.password);
  address_kept = rw (← a) (Kept-refl f.address);
  completes = λ c. rw (← k, ← p, ← a) c;
}

abbrev pub safety : Frame
safety = record {
  Rel = IsSafe;
  same = λ f. of_same_account f f refl refl refl;
  after = λ f g h a b. record {
    keystore_kept = Kept-trans f.keystore g.keystore h.keystore a.keystore_kept b.keystore_kept;
    password_kept = Kept-trans f.password g.password h.password a.password_kept b.password_kept;
    address_kept = Kept-trans f.address g.address h.address a.address_kept b.address_kept;
    completes = λ c. b.completes (a.completes c);
  };
}

module _ {A : Type 0} (lib : AccountLib A) where
  -- Each file is only created, and the address last.
  store-IsSafe : (account : A) (password : String) → Within safety (store lib account password)
  unfolding store on_files create_keystore create_password create_address create
  store-IsSafe account password s = record {
    keystore_kept = ground arith;
    password_kept = ground arith;
    address_kept = ground arith;
    completes = λ c h. ground (arith, c);
  }

  set_up_directories-IsSafe : Within safety set_up_directories
  unfolding set_up_directories make_required_dirs on_files
  set_up_directories-IsSafe s = of_same_account s.files _ refl refl refl

  -- A legacy key file only takes the place of a keystore that is not there.
  legacy-IsSafe :
      (may_rename : Bool) (f g : Files)
      → handle_legacy_validator_key_file may_rename f ≡ ok g
      → IsSafe f g
  unfolding handle_legacy_validator_key_file
  legacy-IsSafe may_rename f g h = record {
    keystore_kept = ground (arith, h);
    password_kept = ground (arith, h, Kept-refl f.password);
    address_kept = ground (arith, h, Kept-refl f.address);
    completes = λ c a. ground (arith, h, c);
  }

  pub setup_account-IsSafe : (may_rename : Bool) → Within safety (setup_account lib may_rename)
  setup_account-IsSafe =
      setup_account-Within lib safety store-IsSafe set_up_directories-IsSafe legacy-IsSafe
