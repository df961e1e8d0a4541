-- ===== src/Bridge/Tests/Recording.antt =====
-- The recorder and the order of events.
use mathlib.Core.List.{Perm, Permᴰ}
use mathlib.Core.Bool.{false≢true}
use text.Mathlib.TextEquality.{eq_iff}
use trustlines_blockchain.Prelude.{
  ◌≡◌, ◌↔◌, ◌⊎◌, refl, not, ◌&&◌, ◌||◌, some, none, List, [], ◌∷◌, ok, inl, inr, arith, All,
  if◌then◌else◌,
}
use trustlines_blockchain.Prelude.Int.{pos, negsuc}
use trustlines_blockchain.Prelude.Classes.{Bytes, bytes_eq}
use trustlines_blockchain.Containers.PySet.{contains, add, difference, intersection, union}
use trustlines_blockchain.Containers.PyDict.{lookup, insert, remove}
use trustlines_blockchain.Containers.Distinct.{IsDistinct}
use trustlines_blockchain.Bridge.Events.{Web3Event, web3_event}
use trustlines_blockchain.Bridge.Utils.{compute_transfer_hash, sort_events, insert_event, key_leb}
use trustlines_blockchain.Bridge.Utils.Order.{IsSorted}
use trustlines_blockchain.Bridge.Utils.Stability.{
  same_key, with_key, sort_events_lem, sort_events_unique,
}
use trustlines_blockchain.Bridge.Recorder.{
  init, is_validating, is_balance_sufficient, apply_event, apply_transfer, apply_completion,
  apply_balance_check, amounts_in_ether, confirmation_tasks, clear_transfers,
  unconfirmed_transfer_hashes, events_of, pop_all, apply_web3_event, pull_transfers_to_confirm,
  apply_is_validator_check, get_state_summary,
}
use trustlines_blockchain.Bridge.Recorder.Invariant.{IsValid, RealTransfer, apply_event-IsValid}
use trustlines_blockchain.Bridge.Recorder.Pull.{
  hashes_of, is_due, was_completed, pull_exact, pull_effect,
}
use trustlines_blockchain.Bridge.Recorder.Status.{transfer_and_home_event_commute, summary_balance}
use trustlines_blockchain.Bridge.Tests.Samples.{
  lib, transfer, hash, word, completion, validating, validating-IsValid,
}

-- The two transfers are due, and come sorted by block.
pull_runs : (pull_transfers_to_confirm validating).0 ≡ ok (transfer 3 2 ∷ transfer 8 5 ∷ [])
unfolding pull_transfers_to_confirm confirmation_tasks clear_transfers unconfirmed_transfer_hashes
    events_of is_validating is_balance_sufficient pop_all apply_event apply_web3_event
    apply_transfer apply_completion apply_balance_check amounts_in_ether apply_is_validator_check
    compute_transfer_hash sort_events insert_event key_leb contains add difference intersection
    union lookup insert remove
pull_runs = refl

-- A transfer of nothing is skipped.
skips_nothing : (apply_event lib (web3_event (transfer 4 0)) (init (pos 0))).1 ≡ init (pos 0)
unfolding apply_event apply_web3_event apply_transfer
skips_nothing = refl

pull_exact_example :
    (tasks : List Web3Event) × ((pull_transfers_to_confirm validating).0 ≡ ok tasks)
    × IsSorted tasks
    × ((h : Bytes) → contains (hashes_of lib tasks) h ≡ is_due validating h)
    × All (RealTransfer lib) tasks
    × IsDistinct (hashes_of lib tasks)
    × IsValid lib (pull_transfers_to_confirm validating).1
pull_exact_example = pull_exact lib validating validating-IsValid

pull_effect_example :
    let s = (pull_transfers_to_confirm validating).1 in
    let h = hash 3 in
    let keep = not (was_completed validating h) in
    (contains s.transfer_hashes h ≡ (contains validating.transfer_hashes h && keep))
    × (contains s.confirmation_hashes h ≡ (contains validating.confirmation_hashes h && keep))
    × (contains s.completion_hashes h ≡ (contains validating.completion_hashes h && keep))
    × (contains s.scheduled_hashes h
        ≡ ((contains validating.scheduled_hashes h || is_due validating h) && keep))
    × (lookup h s.transfer_events ≡ (if keep then lookup h validating.transfer_events else none))
    × (s.is_validator ≡ validating.is_validator)
    × (s.balance ≡ validating.balance)
    × (s.minimum_balance ≡ validating.minimum_balance)
    × (s.last_fetcher_reached_head_event ≡ validating.last_fetcher_reached_head_event)
    × (s.home_chain_synced_until ≡ validating.home_chain_synced_until)
pull_effect_example = pull_effect lib validating (hash 3) validating-IsValid

apply_event-IsValid_example :
    IsValid lib (apply_event lib (web3_event (completion word)) validating).1
apply_event-IsValid_example =
    apply_event-IsValid lib validating (web3_event (completion word)) validating-IsValid

transfer_and_home_event_commute_example :
    (apply_web3_event lib (completion word) (apply_web3_event lib (transfer 5 1) validating).1).1
    ≡ (apply_web3_event lib (transfer 5 1) (apply_web3_event lib (completion word) validating).1).1
transfer_and_home_event_commute_example =
    transfer_and_home_event_commute lib validating (transfer 5 1) (completion word) refl
      (λ e. false≢true ((eq_iff "TransferCompleted" "Transfer").1 e))

summary_balance_example : ((get_state_summary validating).balance ≡ negsuc 0) ↔ (
    (validating.balance ≡ none)
    ⊎ ((validating.balance ≡ some (negsuc 0)) ⊎ (validating.balance ≡ some (pos 0))))
summary_balance_example = summary_balance validating

sort_events_lem_example :
    let xs = transfer 8 5 ∷ transfer 3 2 ∷ [] in
    IsSorted (sort_events xs)
    × Perm (sort_events xs) xs
    × ((k : Web3Event) → with_key k (sort_events xs) ≡ with_key k xs)
sort_events_lem_example = sort_events_lem (transfer 8 5 ∷ transfer 3 2 ∷ [])

-- Two transfers of block 3, in another transaction and at another place of it, and one of block 8.
abbrev third_of_block : Web3Event
third_of_block = record (transfer 3 4) { transaction_index = 1; log_index = 0 }

sort_events_unique_example :
    sort_events (transfer 8 5 ∷ third_of_block ∷ transfer 3 2 ∷ [])
    ≡ transfer 3 2 ∷ third_of_block ∷ transfer 8 5 ∷ []
sort_events_unique_example =
    sort_events_unique
      (Permᴰ.trans (Permᴰ.swap refl refl)
        (Permᴰ.trans (Permᴰ.cons refl (Permᴰ.swap refl refl)) (Permᴰ.swap refl refl)))
      (unfold same_key in ((refl, (refl, tt)), ((refl, tt), (tt, tt))))
      (
        (inr (refl, inl (omega arith)), (inl (omega arith), tt)),
        ((inl (omega arith), tt), (tt, tt)),
      )
