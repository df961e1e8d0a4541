-- ===== src/Bridge/Fetcher/Joined.antt =====
-- The logs of one range of blocks after another, as lists of contract events.
use mathlib.Core.List.{Perm, perm_append_comm, append_assoc, append-nil}
use mathlib.Core.List.Perm
use trustlines_blockchain.Prelude.{
  ◌≡◌, refl, ap, ◌∙◌, String, List, [], ◌∷◌, ◌++◌, map, ◌⊎◌, inl, inr,
}
use trustlines_blockchain.Prelude.Int.{
  ℤ, pos, ◌+ℤ◌, ◌≤ℤ◌, ◌<ℤ◌, ltb_ℤ-cases, le→ltb_ℤ, lt→ltb_ℤ, eq_of_parts, int_laws,
}
use trustlines_blockchain.Bridge.Events.{Event, web3_event, Web3Event}
use trustlines_blockchain.Bridge.Utils.{sort_events}
use trustlines_blockchain.Bridge.Utils.Order.{sort_events-perm}
use trustlines_blockchain.Bridge.Fetcher.{ArgumentFilters, Node, EventFetcher, from_block}
use trustlines_blockchain.Bridge.Fetcher.Ranges.{IsChain, all_logs, logs_between}
use trustlines_blockchain.Bridge.Fetcher.Steps.{IsReady}

-- The contract events in a queue, in order.
abbrev pub contract_events : List Event → List Web3Event
contract_events [] = []
contract_events (web3_event e ∷ q) = e ∷ contract_events q
contract_events (_ ∷ q) = contract_events q

pub contract_events-append :
    (p q : List Event) → contract_events (p ++ q) ≡ contract_events p ++ contract_events q
contract_events-append [] q = refl
contract_events-append (Event.web3_event e ∷ p) q = ap (λ l. e ∷ l) (contract_events-append p q)
contract_events-append (Event.balance_check _ ∷ p) q = contract_events-append p q
contract_events-append (Event.is_validator_check _ ∷ p) q = contract_events-append p q
contract_events-append (Event.fetcher_reached_head _ ∷ p) q = contract_events-append p q
contract_events-append (Event.unregistered ∷ p) q = contract_events-append p q
contract_events-append (Event.foreign_object ∷ p) q = contract_events-append p q

pub contract_events-map : (es : List Web3Event) → contract_events (map web3_event es) ≡ es
contract_events-map [] = refl
contract_events-map (e ∷ es) = ap (λ l. e ∷ l) (contract_events-map es)

-- Four parts, the middle two exchanged.
perm_exchange : (a b c d : List Web3Event) → Perm ((a ++ b) ++ (c ++ d)) ((a ++ c) ++ (b ++ d))
perm_exchange a b c d = simp append_assoc (
    Perm.append_left a (
      rw (← append_assoc b c d)
        (rw (← append_assoc c b d) (Perm.append_right d (perm_append_comm b c)))))

pub within_trans :
    (limit a b c : ℤ) → (b ≡ a) ⊎ (b ≤ℤ limit) → (c ≡ b) ⊎ (c ≤ℤ limit) → (c ≡ a) ⊎ (c ≤ℤ limit)
within_trans limit a b c h (inr low) = inr low
within_trans limit a b c (inl e) (inl same) = inl (same ∙ e)
within_trans limit a b c (inr low) (inl same) = inr (rw same low)

module _ {node : Node} {logs : String → ℤ → ℤ → ArgumentFilters → List Web3Event} {limit : ℤ}
    (chain : IsChain node logs limit) where
  all_logs-append :
      (definitions : List (String × ArgumentFilters)) (a b c : ℤ)
      → a ≤ℤ b
      → b <ℤ c
      → c ≤ℤ limit
      → Perm
          (all_logs logs definitions a b ++ all_logs logs definitions (b +ℤ pos 1) c)
          (all_logs logs definitions a c)
  all_logs-append [] a b c h k m = Perm.refl []
  all_logs-append ((name, filters) ∷ definitions) a b c h k m =
      rw (chain.splits name a b c filters h k m) (
        Perm.trans (perm_exchange (logs name a b filters) (all_logs logs definitions a b) _ _)
          (Perm.append_left _ (all_logs-append definitions a b c h k m)))

  logs_between-append :
      (definitions : List (String × ArgumentFilters)) (a b c : ℤ)
      → a ≤ℤ b +ℤ pos 1
      → b ≤ℤ c
      → c ≤ℤ limit
      → Perm
          (logs_between logs definitions a b ++ logs_between logs definitions (b +ℤ pos 1) c)
          (logs_between logs definitions a c)
  unfolding logs_between
  logs_between-append definitions a b c h k m = elim (ltb_ℤ-cases b a) [
    | inl (t, below) ↦
        let same : b +ℤ pos 1 ≡ a = eq_of_parts _ _ (omega int_laws) in rw (t, same) (Perm.refl _)
    | inr (t, above) ↦ elim (ltb_ℤ-cases c (b +ℤ pos 1)) [
      | inl (u, low) ↦
          let same : b ≡ c = eq_of_parts b c (omega int_laws) in
          rw (t, u, append-nil) (rw (← same) (rw t (Perm.refl _)))
      | inr (u, high) ↦
          rw (t, u, le→ltb_ℤ c a (omega int_laws))
            (all_logs-append definitions a b c above (omega int_laws) m)
    ]
  ]

  -- Nothing is left past a last block that did not move, whatever the limit.
  logs_between-join :
      (definitions : List (String × ArgumentFilters)) (a b c : ℤ)
      → a ≤ℤ b +ℤ pos 1
      → b ≤ℤ c
      → (c ≡ b) ⊎ (c ≤ℤ limit)
      → Perm
          (logs_between logs definitions a b ++ logs_between logs definitions (b +ℤ pos 1) c)
          (logs_between logs definitions a c)
  unfolding logs_between
  logs_between-join definitions a b c h k (inl same) =
      rw (same, lt→ltb_ℤ b (b +ℤ pos 1) (omega int_laws), append-nil) (Perm.refl _)
  logs_between-join definitions a b c h k (inr low) =
      unfold logs_between in logs_between-append definitions a b c h k low

  -- The events of one round and those of the later ones.
  pub joined :
      (definitions : List (String × ArgumentFilters)) (a b c : ℤ) (q q' q'' : List Web3Event)
      → a ≤ℤ b +ℤ pos 1
      → b ≤ℤ c
      → (c ≡ b) ⊎ (c ≤ℤ limit)
      → q' ≡ q ++ sort_events (logs_between logs definitions a b)
      → Perm q'' (q' ++ logs_between logs definitions (b +ℤ pos 1) c)
      → Perm q'' (q ++ logs_between logs definitions a c)
  joined definitions a b c q q' q'' h k w e p = Perm.trans p (
      rw (e, append_assoc)
        (Perm.append_left q (
          Perm.trans (Perm.append_right _ (sort_events-perm (logs_between logs definitions a b)))
            (logs_between-join definitions a b c h k w))))

  -- Nothing lies between a block and the one before it.
  pub nothing_yet :
      (definitions : List (String × ArgumentFilters)) (b : ℤ)
      → logs_between logs definitions (b +ℤ pos 1) b ≡ []
  unfolding logs_between
  nothing_yet definitions b = rw (lt→ltb_ℤ b (b +ℤ pos 1) (omega int_laws))

  -- What one round of `fetch_events` has done.
  pub record RoundDone (f f' : EventFetcher) : Type 0 where
    pub ready : IsReady node limit f'
    pub forward : f.last_fetched_block_number ≤ℤ f'.last_fetched_block_number
    pub within :
        (f'.last_fetched_block_number ≡ f.last_fetched_block_number)
        ⊎ (f'.last_fetched_block_number ≤ℤ limit)
    pub queued :
        contract_events f'.event_queue
        ≡ contract_events f.event_queue
          ++ sort_events
              (logs_between logs f.filter_definition (from_block f) f'.last_fetched_block_number)
    pub same_filters : f'.filter_definition ≡ f.filter_definition
