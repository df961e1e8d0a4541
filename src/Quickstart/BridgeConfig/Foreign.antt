-- ===== src/Quickstart/BridgeConfig/Foreign.antt =====
-- When the foreign node is started.
use trustlines_blockchain.Prelude.{
  ◌≡◌, ◌≢◌, ◌↔◌, refl, sym, ap, ◌∙◌, String, Bool, true, inl, inr, Bool-cases, some, ok,
  and_then-ok, arith,
}
use trustlines_blockchain.Prelude.Classes.{string_eq, ◌==◌}
use trustlines_blockchain.Quickstart.Session.{
  Files, read, is_bridge_prepared, non_empty_file_exists,
}
use trustlines_blockchain.Quickstart.BridgeConfig.{
  BridgeLib, is_default_json_url, is_bridge_using_template_json_rpc_url,
  should_foreign_node_be_started,
}
use trustlines_blockchain.Quickstart.BridgeConfig.Dialog.{what_was_read}

module _ (lib : BridgeLib) where
  -- The bridge's configuration is not empty and has the url of the default configuration.
  abbrev pub HasDefaultUrl : Files → Type 0
  HasDefaultUrl f =
      (c : String) × (d : String) × (url : String) × (f.bridge_config ≡ some c)
      × (c ≢ "")
      × (lib.default_config ≡ some d)
      × (lib.rpc_url c ≡ ok url)
      × (lib.rpc_url d ≡ ok url)

  prepared_text :
      (f : Files) (c : String) → is_bridge_prepared f ≡ true → f.bridge_config ≡ some c → c ≢ ""
  unfolding is_bridge_prepared non_empty_file_exists
  prepared_text f c p e empty = absurd (ground (arith, p, e, (string_eq.beq_iff c "").1 empty))

  text_prepared :
      (f : Files) (c : String) → f.bridge_config ≡ some c → c ≢ "" → is_bridge_prepared f ≡ true
  unfolding is_bridge_prepared non_empty_file_exists
  text_prepared f c e full = elim (Bool-cases (c == "")) [
    | inl none_there ↦ absurd (full ((string_eq.beq_iff c "").0 none_there))
    | inr there ↦ ground (arith, e, there)
  ]

  default_used :
      (f : Files)
      → is_bridge_prepared f ≡ true
      → is_bridge_using_template_json_rpc_url lib f ≡ ok true
      → HasDefaultUrl f
  unfolding is_bridge_using_template_json_rpc_url is_default_json_url
  default_used f p h =
      let (c, found, h1) = and_then-ok (read f.bridge_config) _ true h in
      let (url, at, h2) = and_then-ok (lib.rpc_url c) _ true h1 in
      let (d, default, h3) = and_then-ok (read lib.default_config) _ true h2 in
      let (other, at_default, h4) = and_then-ok (lib.rpc_url d) _ true h3 in
      let there = what_was_read f.bridge_config c found in
      let same : url ≡ other = (string_eq.beq_iff url other).0 (ground (arith, h4)) in
      (
        c,
        d,
        url,
        there,
        prepared_text f c p there,
        what_was_read lib.default_config d default,
        at,
        at_default ∙ ap (λ u. ok u) (sym same),
      )

  pub should_foreign-HasDefaultUrl :
      (f : Files) (b : Bool)
      → should_foreign_node_be_started lib f ≡ ok b
      → (b ≡ true) ↔ HasDefaultUrl f
  unfolding should_foreign_node_be_started is_bridge_using_template_json_rpc_url is_default_json_url
      read
  should_foreign-HasDefaultUrl f b h = (
    λ e. elim (Bool-cases (is_bridge_prepared f)) [
      | inl p ↦ default_used f p (rw (p, e) at h)
      | inr p ↦ absurd (ground (arith, rw (p, e) at h))
    ],
    λ (c, d, url, there, full, default, at, at_default).
        let same = (string_eq.beq_iff url url).1 refl in
        let p = text_prepared f c there full in
        ground (arith, rw (p, there, at, default, at_default, same) at h),
  )
