-- ===== src/Bridge/Setup/Fetched.antt =====
-- What the fetcher of foreign transfers, as the configuration makes it, brings in.
use mathlib.Core.List.{Perm}
use mathlib.Core.Path.{subst}
use trustlines_blockchain.Prelude.{ℕ, suc, ◌≡◌, refl, String, some, List, [], ◌∷◌, ok, ◌⊎◌, arith}
use trustlines_blockchain.Prelude.Int.{ℤ, pos, ◌+ℤ◌, ◌-ℤ◌, ◌≤ℤ◌, eq_of_parts, int_laws}
use trustlines_blockchain.Bridge.Events.{Web3Event, ChainRole, transfer_event_name}
use trustlines_blockchain.Bridge.Fetcher.{
  ArgumentFilters, Node, EventFetcher, from_block, fetch_rounds,
}
use trustlines_blockchain.Bridge.Fetcher.Ranges.{IsChain, logs_between}
use trustlines_blockchain.Bridge.Fetcher.Steps.{IsReady}
use trustlines_blockchain.Bridge.Fetcher.Joined.{contract_events}
use trustlines_blockchain.Bridge.Fetcher.Delivery.{fetch_rounds_deliver}
use trustlines_blockchain.Bridge.Setup.{Config, make_transfer_event_fetcher}
use trustlines_blockchain.Bridge.Setup.Made.{made, makes}

made-from_block :
    (c : Config) → from_block (made c) ≡ pos c.foreign_chain.chain.event_fetch_start_block_number
unfolding from_block
made-from_block c = eq_of_parts _ _ (omega int_laws)

-- On a foreign node whose logs up to block `limit` are settled, and whose statuses never count a block
-- above `limit` as older than the foreign chain's `max_reorg_depth`, any configuration with fields of
-- these types makes a fetcher of the foreign chain, and any number of its rounds, with more fuel than
-- there are blocks, returns and raises nothing. What it has then put in its queue is, up to order, every
-- Transfer event to the foreign bridge from the configured start block up to the last block fetched,
-- each as often as the chain has it.
pub make_transfer_event_fetcher_lem :
    {node : Node} {logs : String → ℤ → ℤ → ArgumentFilters → List Web3Event} {limit : ℤ}
    (chain : IsChain node logs limit) (c : Config) (rounds n : ℕ)
    → ((t : ℕ)
        → (node.status t).latest_synced_block -ℤ pos c.foreign_chain.chain.max_reorg_depth ≤ℤ limit)
    → limit ≤ℤ pos c.foreign_chain.chain.event_fetch_start_block_number -ℤ pos 1 +ℤ pos n
    → let start = pos c.foreign_chain.chain.event_fetch_start_block_number in
      (f : EventFetcher) × (f' : EventFetcher) × (make_transfer_event_fetcher c ≡ ok f)
      × (f.chain_role ≡ ChainRole.foreign)
      × (fetch_rounds node rounds (suc n) f ≡ some (ok tt, f'))
      × Perm (contract_events f'.event_queue) (
          logs_between logs
            ((transfer_event_name, ("to", c.foreign_chain.chain.bridge_contract_address) ∷ []) ∷ [])
            start
            f'.last_fetched_block_number)
      × (start -ℤ pos 1 ≤ℤ f'.last_fetched_block_number)
      × ((f'.last_fetched_block_number ≡ start -ℤ pos 1) ⊎ (f'.last_fetched_block_number ≤ℤ limit))
make_transfer_event_fetcher_lem {node} {logs} {limit} chain c rounds n safe enough =
    let ready : IsReady node limit (made c) = record {
      some_blocks = omega arith;
      from_start = omega int_laws;
      safe = safe;
      cached_safe = λ s e. absurd (ground (arith, e));
    } in
    let (f', returned, delivered, forward, within) =
      fetch_rounds_deliver chain rounds n (made c) ready enough in
    (
      made c,
      f',
      makes c,
      refl,
      returned,
      subst
          (λ a.
            Perm (contract_events f'.event_queue)
              (logs_between logs (made c).filter_definition a f'.last_fetched_block_number))
          (made-from_block c) delivered,
      forward,
      within,
    )
