-- ===== src/Bridge/Tests/Planning.antt =====
-- The planner.
use trustlines_blockchain.Prelude.{◌≡◌, ◌≤◌, refl, true, ◌&&◌, ◌||◌, List, [], ◌∷◌, ◌++◌, ok}
use trustlines_blockchain.Prelude.Int.{pos, ◌-ℤ◌}
use trustlines_blockchain.Prelude.Classes.{bytes_eq}
use trustlines_blockchain.Containers.PySet.{contains, add, difference, intersection, union}
use trustlines_blockchain.Containers.PyDict.{lookup, insert, remove}
use trustlines_blockchain.Bridge.Events.{
  Event, web3_event, is_validator_check, balance_check, fetcher_reached_head, ChainRole,
}
use trustlines_blockchain.Bridge.Utils.{compute_transfer_hash, sort_events, insert_event}
use trustlines_blockchain.Bridge.Recorder.{
  apply_event, apply_web3_event, apply_transfer, apply_balance_check, amounts_in_ether,
  apply_is_validator_check, apply_fetcher_reached_head_event, is_validating, is_balance_sufficient,
  confirmation_tasks, clear_transfers, unconfirmed_transfer_hashes, events_of, pop_all,
  pull_transfers_to_confirm,
}
use trustlines_blockchain.Bridge.Recorder.Pull.{hashes_of, is_due}
use trustlines_blockchain.Bridge.Recorder.Once.{count}
use trustlines_blockchain.Bridge.Planner.{
  Planner, QueueName, transfer_events, control_events, queue_of, set_queue, on_recorder, put_all,
  check_for_confirmation_tasks, starts_check, process_event, Reach, here, deliver, round, serve,
}
use trustlines_blockchain.Bridge.Planner.Rounds.{IsSound, reports_home, process_event_schedules}
use trustlines_blockchain.Bridge.Planner.Reachable.{
  start, arrivals, Reach-IsSound, scheduled-le-arrivals,
}
use trustlines_blockchain.Bridge.Tests.Samples.{lib, transfer, hash}

-- An event is put in an empty queue, and taken out again.
pass : QueueName → Event → Planner → Planner
pass q e p =
    (process_event lib e (pos 2) (set_queue q [] (set_queue q (queue_of q p ++ e ∷ []) p))).1

pass-Reach :
    {s p : Planner} {es : List Event} (q : QueueName) (e : Event)
    → Reach lib s es p
    → queue_of q (set_queue q (queue_of q p ++ e ∷ []) p) ≡ e ∷ []
    → (process_event lib e (pos 2) (set_queue q [] (set_queue q (queue_of q p ++ e ∷ []) p))).0
      ≡ ok tt
    → Reach lib s (e ∷ es) (pass q e p)
unfolding pass
pass-Reach q e r alone returned = round (deliver q e r) (serve q e (pos 2) [] _ alone returned)

abbrev head_report : Event
head_report =
    fetcher_reached_head
      (record { timestamp = pos 0; chain_role = ChainRole.home; last_fetched_block_number = pos 9 })

abbrev begin : Planner
begin = start (pos 40) (pos 5)

abbrev informed : Planner
informed = pass control_events (balance_check (pos 41)) (
    pass control_events (is_validator_check true)
      (pass transfer_events (web3_event (transfer 3 2)) begin))

abbrev informed_by : List Event
informed_by = balance_check (pos 41) ∷ is_validator_check true ∷ web3_event (transfer 3 2) ∷ []

informed-Reach : Reach lib begin informed_by informed
unfolding pass process_event on_recorder starts_check apply_event apply_web3_event apply_transfer
    apply_balance_check amounts_in_ether apply_is_validator_check is_balance_sufficient
informed-Reach =
    pass-Reach {s = begin} control_events (balance_check (pos 41))
      (pass-Reach {s = begin} control_events (is_validator_check true)
        (pass-Reach {s = begin} transfer_events (web3_event (transfer 3 2)) here refl refl) refl
        refl)
      refl refl

-- The report that the home bridge is in sync schedules the transfer.
schedules_the_transfer :
    (process_event lib head_report (pos 2) informed).1.confirmation_task_queue ≡ transfer 3 2 ∷ []
unfolding pass process_event on_recorder starts_check check_for_confirmation_tasks put_all
    pull_transfers_to_confirm confirmation_tasks clear_transfers unconfirmed_transfer_hashes
    events_of is_validating is_balance_sufficient pop_all apply_event apply_web3_event
    apply_transfer apply_balance_check amounts_in_ether apply_is_validator_check
    apply_fetcher_reached_head_event compute_transfer_hash sort_events insert_event contains add
    difference intersection union lookup insert remove ◌-ℤ◌
schedules_the_transfer = refl

Reach-IsSound_example : IsSound lib informed
Reach-IsSound_example = Reach-IsSound lib (pos 40) (pos 5) informed-Reach

scheduled-le-arrivals_example :
    count (hash 3) (hashes_of lib informed.confirmation_task_queue)
    ≤ arrivals lib (hash 3) informed_by
scheduled-le-arrivals_example = scheduled-le-arrivals lib (pos 40) (pos 5) (hash 3) informed-Reach

process_event_schedules_example :
    contains
      (hashes_of lib (process_event lib head_report (pos 2) informed).1.confirmation_task_queue)
      (hash 3)
    ≡ (contains (hashes_of lib informed.confirmation_task_queue) (hash 3)
        || (reports_home informed.sync_persistence_time (pos 2) head_report
            && is_due informed.recorder (hash 3)))
process_event_schedules_example =
    process_event_schedules lib head_report (pos 2) informed (hash 3)
      (Reach-IsSound lib (pos 40) (pos 5) informed-Reach)
