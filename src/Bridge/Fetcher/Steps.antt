-- ===== src/Bridge/Fetcher/Steps.antt =====
-- What one range of blocks does to the event fetcher.
use trustlines_blockchain.Prelude.{
  ℕ, ◌+◌, ◌≡◌, ◌≢◌, refl, sym, ap, ◌∙◌, String, some, Option-cases, Bool-cases, List, [], ◌∷◌, ◌++◌,
  arith, ◌⊎◌, inl, inr, ok,
}
use trustlines_blockchain.Prelude.Int.{
  ℤ, pos, negsuc, ◌+ℤ◌, ◌-ℤ◌, ◌≤ℤ◌, ◌<ℤ◌, le→ltb_ℤ, lt→ltb_ℤ, min_ℤ-le_right, min_ℤ-cases, int_laws,
}
use mathlib.Core.Path.{ap₂, subst}
use trustlines_blockchain.Bridge.Events.{Web3Event}
use trustlines_blockchain.Bridge.Utils.{sort_events}
use trustlines_blockchain.Bridge.NodeStatus.{NodeStatus}
use trustlines_blockchain.Bridge.Fetcher.{
  ArgumentFilters, Node, EventFetcher, is_stale, cached_status, with_cached_status, fetch_logs,
  fetch_events_in_range, from_block, reorg_safe_block, to_block,
}
use trustlines_blockchain.Bridge.Fetcher.Ranges.{IsChain, all_logs, logs_between, logs_between_skip}

module _ (node : Node) (limit : ℤ) where
  -- What `__init__` checks, and that no status ever counts a block above `limit` as safe.
  pub record IsReady (f : EventFetcher) : Type 0 where
    pub some_blocks : pos 1 ≤ℤ f.event_fetch_limit
    pub from_start : negsuc 0 ≤ℤ f.last_fetched_block_number
    pub safe : (t : ℕ) → (node.status t).latest_synced_block -ℤ f.max_reorg_depth ≤ℤ limit
    pub cached_safe :
        (s : NodeStatus)
        → f.node_status ≡ some s
        → s.latest_synced_block -ℤ f.max_reorg_depth ≤ℤ limit

cached_status-cases :
    (node : Node) (f : EventFetcher)
    → (cached_status node f ≡ node.status f.calls) ⊎ (f.node_status ≡ some (cached_status node f))
unfolding cached_status
cached_status-cases node f = elim (Option-cases f.node_status) [
  | inl e ↦ inl (ground arith)
  | inr (s, e) ↦ elim (Bool-cases (is_stale node f)) [
    | inl b ↦ inl (ground arith)
    | inr b ↦ inr (ground arith)
  ]
]

reorg_safe_block-le :
    {node : Node} {limit : ℤ} (f : EventFetcher)
    → IsReady node limit f
    → reorg_safe_block node f ≤ℤ limit
unfolding reorg_safe_block
reorg_safe_block-le {node} f v = elim (cached_status-cases node f) [
  | inl e ↦ rw e (v.safe f.calls)
  | inr e ↦ v.cached_safe (cached_status node f) e
]

pub to_block-le :
    {node : Node} {limit : ℤ} (f : EventFetcher) → IsReady node limit f → to_block node f ≤ℤ limit
unfolding to_block
to_block-le {node} f v = omega (
  arith,
  reorg_safe_block-le f v,
  min_ℤ-le_right (from_block f +ℤ f.event_fetch_limit -ℤ pos 1) (reorg_safe_block node f),
)

-- With no range left, the safe block is the last one fetched, or one before it.
at_head :
    {node : Node} {limit : ℤ} (f : EventFetcher)
    → IsReady node limit f
    → to_block node f <ℤ from_block f
    → reorg_safe_block node f ≤ℤ f.last_fetched_block_number
unfolding to_block from_block
at_head {node} f v h =
    elim (min_ℤ-cases (from_block f +ℤ f.event_fetch_limit -ℤ pos 1) (reorg_safe_block node f)) [
      | inl e ↦ absurd (omega (int_laws, v.some_blocks, subst (λ t. t <ℤ from_block f) e h))
      | inr e ↦ omega (int_laws, subst (λ t. t <ℤ from_block f) e h)
    ]

module _ {node : Node} {logs : String → ℤ → ℤ → ArgumentFilters → List Web3Event} {limit : ℤ}
    (chain : IsChain node logs limit) where
  fetch_logs-eq :
      (definitions : List (String × ArgumentFilters)) (a b : ℤ) (f : EventFetcher)
      → b ≤ℤ limit
      → ((fetch_logs node definitions a b f).0 ≡ all_logs logs definitions a b)
        × ((calls : ℕ) × ((fetch_logs node definitions a b f).1 ≡ record f { calls = calls }))
  unfolding fetch_logs
  fetch_logs-eq [] a b f h = (refl, (f.calls, refl))
  fetch_logs-eq ((name, filters) ∷ definitions) a b f h =
      let rest = fetch_logs-eq definitions a b (record f { calls = f.calls + 1 }) h in
      (ap₂ ◌++◌ (chain.answers f.calls name a b filters h) rest.0, (rest.1.0, rest.1.1))

  -- The calls that a range costs change nothing but the count of calls.
  range_lem :
      (a b : ℤ) (f : EventFetcher)
      → pos 0 ≤ℤ a
      → a ≤ℤ b
      → b ≤ℤ limit
      → ((fetch_events_in_range node a b f).0
          ≡ ok (sort_events (all_logs logs f.filter_definition a b)))
        × (calls : ℕ) × ((fetch_events_in_range node a b f).1 ≡ record f { calls = calls })
  unfolding fetch_events_in_range
  range_lem a b f h k m =
      let (fetched, same) = fetch_logs-eq f.filter_definition a b f m in
      rw (le→ltb_ℤ a (pos 0) h, le→ltb_ℤ b a k)
        (ap (λ l. ok (sort_events l)) fetched, same.0, same.1)

  pub next_range :
      (f : EventFetcher)
      → IsReady node limit f
      → from_block f ≤ℤ to_block node f
      → (calls : ℕ) × (fetch_events_in_range node
            (from_block f)
            (to_block node f)
            (with_cached_status node f)
          ≡ (
            ok (sort_events (all_logs logs f.filter_definition (from_block f) (to_block node f))),
            record (with_cached_status node f) { calls = calls },
          ))
  unfolding with_cached_status
  next_range f v h =
      let (result, calls, state) =
        range_lem (from_block f) (to_block node f) (with_cached_status node f)
          (unfold from_block in omega (int_laws, v.from_start)) h (to_block-le f v) in
      (calls, λ i. (result i, state i))

  -- What a call of `fetch_some_events` has done.
  pub record Fetched (f f' : EventFetcher) (events : List Web3Event) : Type 0 where
    pub ready : IsReady node limit f'
    pub forward : f.last_fetched_block_number ≤ℤ f'.last_fetched_block_number
    pub within :
        (f'.last_fetched_block_number ≡ f.last_fetched_block_number)
        ⊎ (f'.last_fetched_block_number ≤ℤ limit)
    pub complete :
        events
        ≡ sort_events
            (logs_between logs f.filter_definition (from_block f) f'.last_fetched_block_number)
    pub head :
        events ≡ []
        → (s : NodeStatus) × (f'.node_status ≡ some s)
          × (s.latest_synced_block -ℤ f.max_reorg_depth ≤ℤ f'.last_fetched_block_number)
    pub same_filters : f'.filter_definition ≡ f.filter_definition
    pub same_depth : f'.max_reorg_depth ≡ f.max_reorg_depth
    pub same_queue : f'.event_queue ≡ f.event_queue
    pub same_role : f'.chain_role ≡ f.chain_role

  pub with_cached_status-IsReady :
      (f : EventFetcher) (last : ℤ) (calls : ℕ)
      → IsReady node limit f
      → negsuc 0 ≤ℤ last
      → IsReady node limit (record f {
        last_fetched_block_number = last;
        node_status = some (cached_status node f);
        calls = calls;
      })
  unfolding reorg_safe_block
  with_cached_status-IsReady f last calls v h = record {
    some_blocks = v.some_blocks;
    from_start = h;
    safe = v.safe;
    cached_safe = λ s e.
        let e' : cached_status node f ≡ s = cc in
        subst (λ (t : NodeStatus). t.latest_synced_block -ℤ f.max_reorg_depth ≤ℤ limit) e'
          (reorg_safe_block-le f v);
  }

  pub at_head-Fetched :
      (f : EventFetcher)
      → IsReady node limit f
      → to_block node f <ℤ from_block f
      → Fetched f (with_cached_status node f) []
  unfolding with_cached_status logs_between from_block reorg_safe_block
  at_head-Fetched f v h = record {
    ready = with_cached_status-IsReady f f.last_fetched_block_number (f.calls + 1) v v.from_start;
    forward = omega arith;
    within = inl refl;
    complete =
        unfold sort_events in
        rw (lt→ltb_ℤ f.last_fetched_block_number (from_block f) (omega int_laws)) refl;
    head = λ _. (cached_status node f, refl, at_head f v h);
    same_filters = refl;
    same_depth = refl;
    same_queue = refl;
    same_role = refl;
  }

  -- The state after the range up to `b`.
  unfoldable pub after_range : EventFetcher → ℤ → ℕ → EventFetcher
  after_range f b calls = record f {
    last_fetched_block_number = b;
    node_status = some (cached_status node f);
    calls = calls;
  }

  pub found-Fetched :
      (f : EventFetcher) (b : ℤ) (calls : ℕ) (events : List Web3Event)
      → IsReady node limit f
      → from_block f ≤ℤ b
      → b ≤ℤ limit
      → sort_events (all_logs logs f.filter_definition (from_block f) b) ≡ events
      → events ≢ []
      → Fetched f (after_range f b calls) events
  unfolding after_range logs_between from_block
  found-Fetched f b calls events v h k e some_found = record {
    ready = with_cached_status-IsReady f b calls v (omega (int_laws, v.from_start));
    forward = omega int_laws;
    within = inr k;
    complete = rw (le→ltb_ℤ b (from_block f) h) (sym e);
    head = λ n. absurd (some_found n);
    same_filters = refl;
    same_depth = refl;
    same_queue = refl;
    same_role = refl;
  }

  pub skipped-Fetched :
      (f : EventFetcher) (b : ℤ) (calls : ℕ) (f' : EventFetcher) (events : List Web3Event)
      → IsReady node limit f
      → from_block f ≤ℤ b
      → b ≤ℤ limit
      → all_logs logs f.filter_definition (from_block f) b ≡ []
      → Fetched (after_range f b calls) f' events
      → Fetched f f' events
  unfolding after_range from_block
  skipped-Fetched f b calls f' events v h k e r = record {
    ready = r.ready;
    forward = omega (int_laws, r.forward);
    within = inr (elim r.within [ inl same ↦ rw same k | inr low ↦ low ]);
    complete =
        r.complete
        ∙ ap sort_events (
            sym (
              logs_between_skip chain f.filter_definition (from_block f) b
                f'.last_fetched_block_number h r.forward
                (elim r.within [ inl same ↦ rw same k | inr low ↦ low ]) e));
    head = r.head;
    same_filters = r.same_filters;
    same_depth = r.same_depth;
    same_queue = r.same_queue;
    same_role = r.same_role;
  }
