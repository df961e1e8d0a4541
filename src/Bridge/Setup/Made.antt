-- ===== src/Bridge/Setup/Made.antt =====
-- A configuration that passed the checks makes working services.
use mathlib.Core.Option
use trustlines_blockchain.Prelude.{
  ℕ, ◌+◌, ◌*◌, ◌≤◌, ◌<◌, ◌≡◌, refl, sym, String, Bool, true, false, Option, none, some, [], ◌∷◌, ok,
  leb, is_some, and_then-ok, arith, inl, inr, Bool-cases, Option-cases, ap, ◌∙◌,
}
use trustlines_blockchain.Prelude.Int.{pos, ◌≤ℤ◌, ◌-ℤ◌}
use trustlines_blockchain.Prelude.Classes.{Bytes}
use trustlines_blockchain.Prelude.Loops.{wait_until, wait_until-total}
use trustlines_blockchain.Bridge.Events.{ChainRole, transfer_event_name}
use trustlines_blockchain.Bridge.NodeStatus.{NodeStatus, wait_for_node_status}
use trustlines_blockchain.Bridge.Fetcher.{EventFetcher, make_fetcher}
use trustlines_blockchain.Bridge.Sender.{ConfirmationSender, make_sanity_check_transfer}
use trustlines_blockchain.Bridge.Config.{
  ConfigLib, HomeInput, HomeConfig, WebserviceConfig, KeyFiles, get_validator_private_key,
  validate_webservice, load_home_chain,
}
use trustlines_blockchain.Bridge.Config.Checked.{load_home_chain-bounds}
use trustlines_blockchain.Bridge.Setup.{
  HomeAnswers, AddressLib, make_confirmation_sender, Config, get_max_pending_transactions,
  make_transfer_event_fetcher, make_webservice, is_synced, wait_for_node_fully_synced,
}

-- With a home section that passed the checks, the queue of pending transactions has a bound from 1 to
-- 512, and at most the configured number for each of the `max_reorg_depth` + 1 newest blocks.
pub max_pending_bounds :
    (lib : ConfigLib) (second : ℕ) (i : HomeInput) (c : HomeConfig)
    → load_home_chain lib second i ≡ ok c
    → (1 ≤ get_max_pending_transactions c)
      × (get_max_pending_transactions c ≤ 512)
      × (get_max_pending_transactions c
          ≤ (c.chain.max_reorg_depth + 1) * c.max_pending_transactions_per_block)
unfolding get_max_pending_transactions
max_pending_bounds lib second i c h =
    let (low, high) = load_home_chain-bounds lib second i c h in
    (grind arith, ground arith, ground arith)

abbrev pub made : Config → EventFetcher
made c = record {
  chain_role = ChainRole.foreign;
  filter_definition =
      (transfer_event_name, ("to", c.foreign_chain.chain.bridge_contract_address) ∷ []) ∷ [];
  event_fetch_limit = pos 950;
  max_reorg_depth = pos c.foreign_chain.chain.max_reorg_depth;
  last_fetched_block_number = pos c.foreign_chain.chain.event_fetch_start_block_number -ℤ pos 1;
  node_status = none;
  event_queue = [];
  calls = 0;
}

pub makes : (c : Config) → make_transfer_event_fetcher c ≡ ok (made c)
unfolding make_transfer_event_fetcher make_fetcher
makes c = ground arith

-- A webservice section that passed `WebserviceSchema` gives a webservice exactly if it is enabled;
-- its host and port are never missing.
pub make_webservice_lem :
    (d : WebserviceConfig)
    → validate_webservice d ≡ ok tt
    → (r : Option (String × ℕ)) × (make_webservice d ≡ ok r) × (is_some r ≡ d.enabled)
unfolding make_webservice validate_webservice
make_webservice_lem d h = elim (Bool-cases d.enabled) [
  | inr off ↦ (none, rw (off, make_webservice) refl, rw off refl)
  | inl on ↦ elim (Option-cases d.host) [
    | inl missing ↦ absurd (ground arith)
    | inr (host, has_host) ↦ elim (Option-cases d.port) [
      | inl missing ↦ absurd (ground arith)
      | inr (port, has_port) ↦
          (some (host, port), rw (on, has_host, has_port, make_webservice) refl, rw on refl)
    ]
  ]
]

first_synced :
    (fuel k start_block : ℕ) (statuses : ℕ → NodeStatus)
    → k < fuel
    → is_synced start_block (statuses k) ≡ true
    → (n : ℕ) × (wait_until fuel (λ t. is_synced start_block (statuses t)) 0 ≡ some n)
      × (is_synced start_block (statuses n) ≡ true)
      × (0 ≤ n)
      × (n ≤ k)
first_synced fuel k start_block statuses h ready =
    let (n, waited, first) =
      wait_until-total fuel (λ t. is_synced start_block (statuses t)) 0 k (omega arith)
        (omega arith) ready in
    let (passes, after, earlier) = first in
    (
      n,
      waited,
      passes,
      after,
      elim (Bool-cases (leb n k)) [
        | inl t ↦ ground arith
        | inr f ↦ absurd (ground (arith, earlier k (omega arith) (ground arith)))
      ],
    )

-- If the node answers at round `k` that it is not syncing and has the start block, and the fuel
-- covers that round, the wait ends with a status that says so.
pub wait_for_node_fully_synced_lem :
    (fuel k start_block : ℕ) (statuses : ℕ → NodeStatus)
    → k < fuel
    → (statuses k).is_syncing ≡ false
    → pos start_block ≤ℤ (statuses k).latest_synced_block
    → (n : ℕ) × (wait_for_node_fully_synced fuel statuses start_block ≡ some (statuses n))
      × (n ≤ k)
      × ((statuses n).is_syncing ≡ false)
      × (pos start_block ≤ℤ (statuses n).latest_synced_block)
unfolding wait_for_node_fully_synced wait_for_node_status is_synced
wait_for_node_fully_synced_lem fuel k start_block statuses h synced reached =
    let test : ℕ → Bool = λ n. is_synced start_block (statuses n) in
    let ready : test k ≡ true = ground arith in
    let (n, waited, passes, _, earlier) = first_synced fuel k start_block statuses h ready in
    (n, ap (λ o. Option.map statuses o) waited, earlier, ground arith, ground arith)

check_transfer-ok :
    (is_checksum_address : String → Bool) (a b : String)
    → make_sanity_check_transfer is_checksum_address a ≡ ok b
    → (a ≡ b) × (is_checksum_address b ≡ true)
unfolding make_sanity_check_transfer
check_transfer-ok is_checksum_address a b h =
    let same : a ≡ b = ground arith in (same, ap is_checksum_address (sym same) ∙ ground arith)

-- From one configuration, the fetcher asks for transfers to one address alone, and the sender that is
-- made checks each transfer against that same address, in checksum format, and signs with the key of
-- the configuration; it is made only if the bridge's contracts have passed their check.
pub make_confirmation_sender_lem :
    (lib : AddressLib) (files : KeyFiles) (home : HomeAnswers) (c : Config) (s : ConfirmationSender)
    → make_confirmation_sender lib files home c ≡ ok s
    → (f : EventFetcher) × (bridge : Bytes) × (make_transfer_event_fetcher c ≡ ok f)
      × (f.filter_definition ≡ (transfer_event_name, ("to", bridge) ∷ []) ∷ [])
      × (s.foreign_bridge_contract_address ≡ lib.to_checksum_address bridge)
      × (get_validator_private_key files c.validator_private_key ≡ ok s.private_key)
      × (home.contracts_pass ≡ ok tt)
unfolding make_confirmation_sender
make_confirmation_sender_lem lib files home c s h =
    let bridge = c.foreign_chain.chain.bridge_contract_address in
    let (_, passed, h1) = and_then-ok home.contracts_pass _ s h in
    let (k, key, h2) =
      and_then-ok (get_validator_private_key files c.validator_private_key) _ s h1 in
    let (address, checked, h3) =
      and_then-ok
        (make_sanity_check_transfer lib.is_checksum_address (lib.to_checksum_address bridge)) _ s
        h2 in
    let (same, _) =
      check_transfer-ok lib.is_checksum_address (lib.to_checksum_address bridge) address checked in
    let same_address : address ≡ s.foreign_bridge_contract_address = ground arith in
    let same_key : k ≡ s.private_key = ground arith in
    (
      made c,
      bridge,
      makes c,
      refl,
      sym (same ∙ same_address),
      key ∙ ap (λ b. ok b) same_key,
      passed,
    )
