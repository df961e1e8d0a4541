-- ===== src/Quickstart/Netstats/Safe.antt =====
-- Setting up the netstats client and the monitor leaves the account files in order.
use trustlines_blockchain.Prelude.{◌≡◌, String, Option, none, some, ok, arith}
use trustlines_blockchain.Quickstart.Session.{Files}
use trustlines_blockchain.Quickstart.Frame.{Within}
use trustlines_blockchain.Quickstart.Framed.{
  framed, asked, prompted, confirmed_or_not, changed, either, ◌>>=◌,
}
use trustlines_blockchain.Quickstart.Account.Safe.{IsSafe, safety, of_same_account}
use trustlines_blockchain.Quickstart.Netstats.{
  NetstatsLib, read_credentials, env_file, write_netstats_env, touch_netstats_env, set_up_client,
  offer_netstats, setup_netstats, make_monitor_dirs, setup_monitor,
}

module _ (lib : NetstatsLib) where
  write-IsSafe :
      (content : String) (f g : Files) → ok (write_netstats_env content f) ≡ ok g → IsSafe f g
  unfolding write_netstats_env
  write-IsSafe content f g e =
      of_same_account f g (ground (arith, e)) (ground (arith, e)) (ground (arith, e))

  touch_env-IsSafe : (f g : Files) → ok (touch_netstats_env f) ≡ ok g → IsSafe f g
  unfolding touch_netstats_env
  touch_env-IsSafe f g e =
      of_same_account f g (ground (arith, e)) (ground (arith, e)) (ground (arith, e))

  set_up_client-IsSafe : (netstats_url : String) → Within safety (set_up_client lib netstats_url)
  unfolding set_up_client
  set_up_client-IsSafe netstats_url =
      (do
        found ← asked safety (read_credentials lib netstats_url)
        name ← prompted safety
        changed safety (λ f. ok (write_netstats_env (env_file found.0 found.1 name) f))
            (write-IsSafe (env_file found.0 found.1 name))).within

  offer_netstats-IsSafe : (netstats_url : String) → Within safety (offer_netstats lib netstats_url)
  unfolding offer_netstats
  offer_netstats-IsSafe netstats_url =
      (do
        wanted ← confirmed_or_not safety
        either wanted
            (framed safety (set_up_client lib netstats_url) (set_up_client-IsSafe netstats_url))
            (changed safety (λ f. ok (touch_netstats_env f)) touch_env-IsSafe)).within

  pub setup_netstats-IsSafe :
      (netstats_url : Option String) → Within safety (setup_netstats lib netstats_url)
  unfolding setup_netstats
  setup_netstats-IsSafe none s = ground (arith, safety.same s.files)
  setup_netstats-IsSafe (some url) s =
      ground (arith, offer_netstats-IsSafe url s, safety.same s.files)

monitor-IsSafe : (f g : Files) → ok (make_monitor_dirs f) ≡ ok g → IsSafe f g
unfolding make_monitor_dirs
monitor-IsSafe f g e =
    of_same_account f g (ground (arith, e)) (ground (arith, e)) (ground (arith, e))

pub setup_monitor-IsSafe : Within safety setup_monitor
unfolding setup_monitor
setup_monitor-IsSafe = (changed safety (λ f. ok (make_monitor_dirs f)) monitor-IsSafe).within
