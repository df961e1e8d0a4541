-- ===== src/Quickstart/BridgeConfig/Safe.antt =====
-- Setting up the bridge leaves the account files in order.
use trustlines_blockchain.Prelude.{
  ◌≡◌, String, not, Option, none, some, Result, ok, assertion_error, and_then-ok, arith,
}
use trustlines_blockchain.Prelude.Classes.{◌==◌, string_eq}
use trustlines_blockchain.Quickstart.Session.{Files, Session, read}
use trustlines_blockchain.Quickstart.Frame.{Within}
use trustlines_blockchain.Quickstart.Framed.{
  Framed, framed, done, raised, raised_if, reading, lifted, asked, prompted, confirmed_or_not,
  changed, either, ◌>>=◌, ◌>>◌,
}
use trustlines_blockchain.Quickstart.Account.Safe.{IsSafe, safety, of_same_account}
use trustlines_blockchain.Quickstart.BridgeConfig.{
  BridgeLib, should_overwrite_prompt, copy_default_bridge_config, change_json_rpc_url,
  is_bridge_using_template_json_rpc_url, read_json_rpc_url, assert_template_url, use_light_node,
  use_json_rpc, write_bridge_config_dialog, replace_own_config, update_bridge_config,
  touch_bridge_config, offer_bridge, setup_bridge,
}

module _ (lib : BridgeLib) where
  copy-IsSafe : (f g : Files) → copy_default_bridge_config lib f ≡ ok g → IsSafe f g
  unfolding copy_default_bridge_config
  copy-IsSafe f g h =
      let (c, _, e) = and_then-ok (read lib.default_config) _ g h in
      of_same_account f g (ground (arith, e)) (ground (arith, e)) (ground (arith, e))

  change-IsSafe : (url : String) (f g : Files) → change_json_rpc_url lib url f ≡ ok g → IsSafe f g
  unfolding change_json_rpc_url
  change-IsSafe url f g h =
      let (c, _, e) = and_then-ok (read f.bridge_config) _ g h in
      let (c', _, e') = and_then-ok (lib.set_rpc_url c url) _ g e in
      of_same_account f g (ground (arith, e')) (ground (arith, e')) (ground (arith, e'))

  touch-IsSafe : (f g : Files) → ok (touch_bridge_config f) ≡ ok g → IsSafe f g
  unfolding touch_bridge_config
  touch-IsSafe f g e =
      of_same_account f g (ground (arith, e)) (ground (arith, e)) (ground (arith, e))

  abbrev copied : Framed safety (Unit {0})
  copied = changed safety (copy_default_bridge_config lib) copy-IsSafe

  use_light_node-IsSafe : Within safety (use_light_node lib)
  unfolding use_light_node assert_template_url
  use_light_node-IsSafe =
      (do
        copied
        f ← reading safety (λ s. s.files)
        same ← lifted safety (is_bridge_using_template_json_rpc_url lib f)
        raised_if safety (not same) assertion_error).within

  use_json_rpc-IsSafe : Within safety (use_json_rpc lib)
  unfolding use_json_rpc
  use_json_rpc-IsSafe =
      (do
        url ← asked safety (read_json_rpc_url lib)
        copied
        changed safety (change_json_rpc_url lib url) (change-IsSafe url)).within

  dialog-IsSafe : Within safety (write_bridge_config_dialog lib)
  unfolding write_bridge_config_dialog
  dialog-IsSafe =
      (do
        choice ← prompted safety
        either (choice == "1") (framed safety (use_light_node lib) use_light_node-IsSafe) (
            either (choice == "2") (framed safety (use_json_rpc lib) use_json_rpc-IsSafe)
              (raised safety assertion_error))).within

  replace_own_config-IsSafe : Within safety (replace_own_config lib)
  unfolding replace_own_config
  replace_own_config-IsSafe =
      (do
        overwrite ← asked safety should_overwrite_prompt
        either overwrite (framed safety (write_bridge_config_dialog lib) dialog-IsSafe)
            (done safety tt)).within

  update_bridge_config-IsSafe :
      (user_config : String) → Within safety (update_bridge_config lib user_config)
  unfolding update_bridge_config
  update_bridge_config-IsSafe user_config s =
      ground (arith, copied.within s, replace_own_config-IsSafe s, safety.same s.files)

  offer_bridge-IsSafe : Within safety (offer_bridge lib)
  unfolding offer_bridge
  offer_bridge-IsSafe =
      (do
        wanted ← confirmed_or_not safety
        either wanted (framed safety (write_bridge_config_dialog lib) dialog-IsSafe)
            (changed safety (λ f. ok (touch_bridge_config f)) touch-IsSafe)).within

  existing-IsSafe :
      (config : Option String) (s : Session)
      → IsSafe s.files
          (elim config as (λ _. Result (Unit {0}) × Session) [
            | none ↦ (ok tt, s)
            | some c ↦ update_bridge_config lib c s
          ]).1.files
  existing-IsSafe none s = safety.same s.files
  existing-IsSafe (some c) s = update_bridge_config-IsSafe c s

  pub setup_bridge-IsSafe : Within safety (setup_bridge lib)
  unfolding setup_bridge
  setup_bridge-IsSafe s =
      ground
        (arith, existing-IsSafe s.files.bridge_config s, offer_bridge-IsSafe s, safety.same s.files)
