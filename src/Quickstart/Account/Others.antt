-- ===== src/Quickstart/Account/Others.antt =====
-- The files that setting up the validator account does not touch, however it ends.
use trustlines_blockchain.Prelude.{◌≡◌, refl, ◌∙◌, String, Bool, ok, arith}
use trustlines_blockchain.Quickstart.Session.{Files, create, on_files}
use trustlines_blockchain.Quickstart.Frame.{Frame, Within}
use trustlines_blockchain.Quickstart.Prompts.{AccountLib}
use trustlines_blockchain.Quickstart.Account.{
  make_required_dirs, create_keystore, create_password, create_address,
  handle_legacy_validator_key_file, set_up_directories, store, setup_account,
}
use trustlines_blockchain.Quickstart.Account.Whole.{setup_account-Within}

-- All but the account's own files and the directories that the node writes to.
pub record OthersKept (f g : Files) : Type 0 where
  pub author_address_kept : g.author_address ≡ f.author_address
  pub netstats_env_kept : g.netstats_env ≡ f.netstats_env
  pub bridge_config_kept : g.bridge_config ≡ f.bridge_config
  pub docker_compose_kept : g.docker_compose ≡ f.docker_compose
  pub docker_compose_override_kept : g.docker_compose_override ≡ f.docker_compose_override
  pub readme_kept : g.readme ≡ f.readme
  pub env_kept : g.env ≡ f.env
  pub monitor_dir_kept : g.monitor_dir ≡ f.monitor_dir
  pub monitor_reports_dir_kept : g.monitor_reports_dir ≡ f.monitor_reports_dir

pub others_same : (f : Files) → OthersKept f f
others_same f = record {
  author_address_kept = refl;
  netstats_env_kept = refl;
  bridge_config_kept = refl;
  docker_compose_kept = refl;
  docker_compose_override_kept = refl;
  readme_kept = refl;
  env_kept = refl;
  monitor_dir_kept = refl;
  monitor_reports_dir_kept = refl;
}

pub others_trans : (f g h : Files) → OthersKept f g → OthersKept g h → OthersKept f h
others_trans f g h a b = record {
  author_address_kept = b.author_address_kept ∙ a.author_address_kept;
  netstats_env_kept = b.netstats_env_kept ∙ a.netstats_env_kept;
  bridge_config_kept = b.bridge_config_kept ∙ a.bridge_config_kept;
  docker_compose_kept = b.docker_compose_kept ∙ a.docker_compose_kept;
  docker_compose_override_kept = b.docker_compose_override_kept ∙ a.docker_compose_override_kept;
  readme_kept = b.readme_kept ∙ a.readme_kept;
  env_kept = b.env_kept ∙ a.env_kept;
  monitor_dir_kept = b.monitor_dir_kept ∙ a.monitor_dir_kept;
  monitor_reports_dir_kept = b.monitor_reports_dir_kept ∙ a.monitor_reports_dir_kept;
}

abbrev pub others : Frame
others = record { Rel = OthersKept; same = others_same; after = others_trans }

module _ {A : Type 0} (lib : AccountLib A) where
  store-OthersKept : (account : A) (password : String) → Within others (store lib account password)
  unfolding store on_files create_keystore create_password create_address create
  store-OthersKept account password s = record {
    author_address_kept = ground arith;
    netstats_env_kept = ground arith;
    bridge_config_kept = ground arith;
    docker_compose_kept = ground arith;
    docker_compose_override_kept = ground arith;
    readme_kept = ground arith;
    env_kept = ground arith;
    monitor_dir_kept = ground arith;
    monitor_reports_dir_kept = ground arith;
  }

  directories-OthersKept : Within others set_up_directories
  unfolding set_up_directories make_required_dirs on_files
  directories-OthersKept s = record {
    author_address_kept = refl;
    netstats_env_kept = refl;
    bridge_config_kept = refl;
    docker_compose_kept = refl;
    docker_compose_override_kept = refl;
    readme_kept = refl;
    env_kept = refl;
    monitor_dir_kept = refl;
    monitor_reports_dir_kept = refl;
  }

  legacy-OthersKept :
      (may_rename : Bool) (f g : Files)
      → handle_legacy_validator_key_file may_rename f ≡ ok g
      → OthersKept f g
  unfolding handle_legacy_validator_key_file
  legacy-OthersKept may_rename f g h = record {
    author_address_kept = ground (arith, h);
    netstats_env_kept = ground (arith, h);
    bridge_config_kept = ground (arith, h);
    docker_compose_kept = ground (arith, h);
    docker_compose_override_kept = ground (arith, h);
    readme_kept = ground (arith, h);
    env_kept = ground (arith, h);
    monitor_dir_kept = ground (arith, h);
    monitor_reports_dir_kept = ground (arith, h);
  }

  pub setup_account-OthersKept : (may_rename : Bool) → Within others (setup_account lib may_rename)
  setup_account-OthersKept =
      setup_account-Within lib others store-OthersKept directories-OthersKept legacy-OthersKept
