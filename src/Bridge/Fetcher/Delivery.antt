-- ===== src/Bridge/Fetcher/Delivery.antt =====
-- The rounds of `fetch_events` together: what reaches the event queue.
use mathlib.Core.List.{Perm, append-nil}
use mathlib.Core.List.Perm
use trustlines_blockchain.Prelude.{
  ℕ, zero, suc, ◌+◌, ◌≡◌, refl, sym, ap, ◌∙◌, String, some, Bool-cases, List-cases, List, ◌∷◌, ◌++◌,
  arith, ◌⊎◌, inl, inr, ok,
}
use mathlib.Core.Path.{ap₂, subst}
use trustlines_blockchain.Prelude.Int.{ℤ, pos, ◌+ℤ◌, ◌≤ℤ◌, int_laws}
use trustlines_blockchain.Bridge.Events.{Web3Event}
use trustlines_blockchain.Bridge.Utils.{sort_events}
use trustlines_blockchain.Bridge.Fetcher.{
  ArgumentFilters, Node, EventFetcher, cached_status, with_cached_status, from_block, put_events,
  report_head, fetch_round, fetch_rounds,
}
use trustlines_blockchain.Bridge.Fetcher.Ranges.{IsChain, logs_between}
use trustlines_blockchain.Bridge.Fetcher.Steps.{IsReady, with_cached_status-IsReady}
use trustlines_blockchain.Bridge.Fetcher.Progress.{fetch_some_events_lem}
use trustlines_blockchain.Bridge.Fetcher.Joined.{
  contract_events, contract_events-append, contract_events-map, within_trans, joined, nothing_yet,
  RoundDone,
}

module _ {node : Node} {logs : String → ℤ → ℤ → ArgumentFilters → List Web3Event} {limit : ℤ}
    (chain : IsChain node logs limit) where
  report_head_fields :
      (f : EventFetcher)
      → (contract_events (report_head node f).event_queue ≡ contract_events f.event_queue)
        × ((report_head node f).last_fetched_block_number ≡ f.last_fetched_block_number)
        × ((report_head node f).filter_definition ≡ f.filter_definition)
  unfolding report_head with_cached_status
  report_head_fields f = elim (Bool-cases (cached_status node f).is_syncing) [
    | inl syncing ↦ rw syncing (refl, refl, refl)
    | inr synced ↦ rw synced (
      contract_events-append f.event_queue _ ∙ append-nil (contract_events f.event_queue),
      refl,
      refl,
    )
  ]

  report_head-IsReady :
      (f : EventFetcher) → IsReady node limit f → IsReady node limit (report_head node f)
  unfolding report_head with_cached_status
  report_head-IsReady f v =
      let v' =
        with_cached_status-IsReady chain f f.last_fetched_block_number (f.calls + 1) v
          v.from_start in
      elim (Bool-cases (cached_status node f).is_syncing) [
        | inl syncing ↦ simp syncing v'
        | inr synced ↦ simp synced (record {
          some_blocks = v'.some_blocks;
          from_start = v'.from_start;
          safe = v'.safe;
          cached_safe = v'.cached_safe;
        })
      ]

  round_lem :
      (n : ℕ) (f : EventFetcher)
      → IsReady node limit f
      → limit ≤ℤ f.last_fetched_block_number +ℤ pos n
      → (f' : EventFetcher) × (fetch_round node (suc n) f ≡ some (ok tt, f')) × RoundDone chain f f'
  unfolding fetch_round
  round_lem n f v enough =
      let (g, events, fetched, done) = fetch_some_events_lem chain n f v enough in
      elim (List-cases events) [
        | inl nothing ↦
            let (queue, last, filters) = report_head_fields g in
            (
              report_head node g,
              ground (arith, fetched, nothing),
              record {
                ready = report_head-IsReady g done.ready;
                forward = rw last done.forward;
                within = rw last done.within;
                queued =
                    queue
                    ∙ ap contract_events done.same_queue
                    ∙ sym (append-nil _)
                    ∙ ap (λ l. contract_events f.event_queue ++ l) (sym nothing ∙ done.complete)
                    ∙ ap
                        (λ b.
                          contract_events f.event_queue
                          ++ sort_events (logs_between logs f.filter_definition (from_block f) b))
                        (sym last);
                same_filters = filters ∙ done.same_filters;
              },
            )
        | inr (e, es, some_found) ↦ (
          put_events (e ∷ es) g,
          ground (arith, fetched, some_found),
          unfold put_events in
              record {
                ready = record {
                  some_blocks = done.ready.some_blocks;
                  from_start = done.ready.from_start;
                  safe = done.ready.safe;
                  cached_safe = done.ready.cached_safe;
                };
                forward = done.forward;
                within = done.within;
                queued =
                    contract_events-append g.event_queue _
                    ∙ ap₂ ◌++◌ (ap contract_events done.same_queue)
                        (contract_events-map (e ∷ es) ∙ sym some_found ∙ done.complete);
                same_filters = done.same_filters;
              },
        )
      ]

  -- On a node whose logs up to block `limit` are settled, from a fetcher that is ready and whose
  -- statuses never count a block above `limit` as safe, any number of rounds of `fetch_events`, each
  -- with more fuel than there are blocks left, returns, and raises nothing. What they have put in the
  -- queue is, up to order, every contract event of the blocks from the start up to the last one
  -- fetched, each as often as the chain has it.
  pub fetch_rounds_deliver :
      (rounds n : ℕ) (f : EventFetcher)
      → IsReady node limit f
      → limit ≤ℤ f.last_fetched_block_number +ℤ pos n
      → (f' : EventFetcher) × (fetch_rounds node rounds (suc n) f ≡ some (ok tt, f'))
        × Perm (contract_events f'.event_queue) (
            contract_events f.event_queue
            ++ logs_between logs f.filter_definition (from_block f) f'.last_fetched_block_number)
        × (f.last_fetched_block_number ≤ℤ f'.last_fetched_block_number)
        × ((f'.last_fetched_block_number ≡ f.last_fetched_block_number)
            ⊎ (f'.last_fetched_block_number ≤ℤ limit))
  unfolding fetch_rounds from_block
  fetch_rounds_deliver zero n f v enough = (
    f,
    refl,
    rw (nothing_yet chain f.filter_definition f.last_fetched_block_number, append-nil)
        (Perm.refl _),
    omega arith,
    inl refl,
  )
  fetch_rounds_deliver (suc rounds) n f v enough =
      let (g, returned, done) = round_lem n f v enough in
      let (f', rest, delivered, forward, within) =
        fetch_rounds_deliver rounds n g done.ready (omega (int_laws, done.forward)) in
      (
        f',
        ground (arith, returned, rest),
        joined chain f.filter_definition (from_block f) g.last_fetched_block_number
            f'.last_fetched_block_number _ _ _ (omega (int_laws, done.forward)) forward within
            done.queued
            (subst
              (λ d. Perm (contract_events f'.event_queue) (
                contract_events g.event_queue
                ++ logs_between logs d (g.last_fetched_block_number +ℤ pos 1)
                    f'.last_fetched_block_number))
              done.same_filters delivered),
        omega (arith, done.forward),
        within_trans limit f.last_fetched_block_number g.last_fetched_block_number
            f'.last_fetched_block_number done.within within,
      )
