-- ===== src/Bridge/Fetcher/Progress.antt =====
-- `fetch_some_events` returns, goes through consecutive ranges up to the reorganisation-safe block,
-- and hands out every event of those ranges.
use trustlines_blockchain.Prelude.{
  ℕ, zero, suc, ◌≡◌, ap, ◌∙◌, String, true, false, some, List-cases, List, [], ◌∷◌, inl, inr, ok,
}
use trustlines_blockchain.Prelude.Int.{ℤ, pos, ◌+ℤ◌, ◌≤ℤ◌, ltb_ℤ, ltb_ℤ-cases, int_laws}
use trustlines_blockchain.Bridge.Events.{Web3Event}
use trustlines_blockchain.Bridge.Utils.{sort_events}
use trustlines_blockchain.Bridge.Fetcher.{
  ArgumentFilters, Node, EventFetcher, with_cached_status, fetch_events_in_range, from_block,
  to_block, fetch_some_events, finish_range,
}
use trustlines_blockchain.Bridge.Fetcher.Ranges.{IsChain, all_logs, sort_events-eq_nil}
use trustlines_blockchain.Bridge.Fetcher.Steps.{
  IsReady, to_block-le, next_range, Fetched, with_cached_status-IsReady, at_head-Fetched,
  after_range, found-Fetched, skipped-Fetched,
}

module _ {node : Node} {logs : String → ℤ → ℤ → ArgumentFilters → List Web3Event} {limit : ℤ}
    (chain : IsChain node logs limit) where
  at_head-fetch :
      (fuel : ℕ) (f : EventFetcher)
      → ltb_ℤ (to_block node f) (from_block f) ≡ true
      → fetch_some_events node (suc fuel) f ≡ some (ok [], with_cached_status node f)
  unfolding fetch_some_events
  at_head-fetch fuel f t = rw (t, fetch_some_events)

  found-fetch :
      (fuel : ℕ) (f : EventFetcher) (e : Web3Event) (es : List Web3Event) (calls : ℕ)
      → ltb_ℤ (to_block node f) (from_block f) ≡ false
      → fetch_events_in_range node (from_block f) (to_block node f) (with_cached_status node f)
        ≡ (ok (e ∷ es), record (with_cached_status node f) { calls = calls })
      → fetch_some_events node (suc fuel) f
        ≡ some (ok (e ∷ es), after_range chain f (to_block node f) calls)
  unfolding fetch_some_events finish_range after_range with_cached_status
  found-fetch fuel f e es calls t r =
      rw (t, fetch_some_events)
        (ap (finish_range node (fetch_some_events node fuel) (to_block node f)) r)

  skipped-fetch :
      (fuel : ℕ) (f : EventFetcher) (calls : ℕ)
      → ltb_ℤ (to_block node f) (from_block f) ≡ false
      → fetch_events_in_range node (from_block f) (to_block node f) (with_cached_status node f)
        ≡ (ok [], record (with_cached_status node f) { calls = calls })
      → fetch_some_events node (suc fuel) f
        ≡ fetch_some_events node fuel (after_range chain f (to_block node f) calls)
  unfolding fetch_some_events finish_range after_range with_cached_status
  skipped-fetch fuel f calls t r =
      rw (t, fetch_some_events)
        (ap (finish_range node (fetch_some_events node fuel) (to_block node f)) r)

  -- On a node whose logs up to block `limit` are settled, from a fetcher that is ready and whose
  -- statuses never count a block above `limit` as safe, with more fuel than there are blocks left,
  -- `fetch_some_events` returns. It raises nothing, never
  -- goes back and never passes the reorganisation-safe limit; it hands out exactly the events of the
  -- blocks that it went through, in order; and if there are none it has reached the head: every block
  -- that the last status counts as safe is fetched.
  pub fetch_some_events_lem :
      (n : ℕ) (f : EventFetcher)
      → IsReady node limit f
      → limit ≤ℤ f.last_fetched_block_number +ℤ pos n
      → (f' : EventFetcher) × (events : List Web3Event) × (fetch_some_events node (suc n) f
          ≡ some (ok events, f'))
        × Fetched chain f f' events
  fetch_some_events_lem zero f v enough = elim (ltb_ℤ-cases (to_block node f) (from_block f)) [
    | inl (t, below) ↦
        (with_cached_status node f, [], at_head-fetch 0 f t, at_head-Fetched chain f v below)
    | inr (t, above) ↦ absurd (unfold from_block in omega (int_laws, to_block-le f v))
  ]
  fetch_some_events_lem (suc n) f v enough = elim (ltb_ℤ-cases (to_block node f) (from_block f)) [
    | inl (t, below) ↦
        (with_cached_status node f, [], at_head-fetch (suc n) f t, at_head-Fetched chain f v below)
    | inr (t, above) ↦
        let (calls, ranged) = next_range chain f v above in
        elim (List-cases
          (sort_events (all_logs logs f.filter_definition (from_block f) (to_block node f)))) [
            | inl nothing ↦
                let f' = after_range chain f (to_block node f) calls in
                let rest =
                  fetch_some_events_lem n f'
                    (unfold after_range in
                      with_cached_status-IsReady chain f (to_block node f) calls v
                        (unfold from_block in omega (int_laws, v.from_start)))
                    (unfold after_range from_block in omega int_laws) in
                (
                  rest.0,
                  rest.1,
                  skipped-fetch (suc n) f calls t (
                        ranged
                        ∙ ap (λ l. (ok l, record (with_cached_status node f) { calls = calls }))
                            nothing)
                      ∙ rest.2,
                  skipped-Fetched chain f (to_block node f) calls rest.0 rest.1 v above
                      (to_block-le f v) (sort_events-eq_nil _ nothing) rest.3,
                )
            | inr (e, es, found) ↦ (
              after_range chain f (to_block node f) calls,
              e ∷ es,
              found-fetch (suc n) f e es calls t (
                  ranged
                  ∙ ap (λ l. (ok l, record (with_cached_status node f) { calls = calls })) found),
              found-Fetched chain f (to_block node f) calls (e ∷ es) v above (to_block-le f v) found
                  (λ n. cc),
            )
          ]
  ]
