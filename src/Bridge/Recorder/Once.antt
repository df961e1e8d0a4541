-- ===== src/Bridge/Recorder/Once.antt =====
-- Arrivals bound what is scheduled: a pull returns a transfer only out of a `pending` state, and
-- only the arrival of its event makes a transfer pending.

use trustlines_blockchain.Prelude.{
  ℕ, ◌+◌, ◌≤◌, ◌≡◌, refl, Bool, false, not, ◌&&◌, List, [], ◌∷◌, arith, if◌then◌else◌,
}
use trustlines_blockchain.Prelude.Classes.{Bytes, bytes_eq, string_eq, bytes_eqb_iff, ◌==◌}
use trustlines_blockchain.Containers.PySet.{contains, contains-add}
use trustlines_blockchain.Containers.Distinct.{IsDistinct}
use trustlines_blockchain.Bridge.Eth.{EthLib}
use trustlines_blockchain.Bridge.Events.{
  Event, balance_check, is_validator_check, fetcher_reached_head, web3_event, unregistered,
  foreign_object, Web3Event, transfer_event_name,
}
use trustlines_blockchain.Bridge.Utils.{compute_transfer_hash}
use trustlines_blockchain.Bridge.Recorder.{
  TransferRecorder, pull_transfers_to_confirm, apply_transfer, apply_confirmation, apply_completion,
  apply_web3_event, apply_is_validator_check, apply_balance_check, apply_fetcher_reached_head_event,
  apply_event,
}
use trustlines_blockchain.Bridge.Recorder.Invariant.{IsValid}
use trustlines_blockchain.Bridge.Recorder.Pull.{hashes_of, pull_exact, pull_effect}

abbrev pub to_nat : Bool → ℕ
to_nat b = if b then 1 else 0

-- How often `h` is in the list.
abbrev pub count : Bytes → List Bytes → ℕ
count h [] = 0
count h (x ∷ xs) = to_nat (x == h) + count h xs

-- Seen and not yet scheduled.
abbrev pub pending : TransferRecorder → Bytes → ℕ
pending r h = to_nat (contains r.transfer_hashes h && not (contains r.scheduled_hashes h))

count-eq_zero : (h : Bytes) (hs : List Bytes) → contains hs h ≡ false → count h hs ≡ 0
unfolding contains
count-eq_zero h [] p = refl
count-eq_zero h (x ∷ hs) p = ground (arith, count-eq_zero h hs)

count-le-contains :
    (h : Bytes) (hs : List Bytes) → IsDistinct hs → count h hs ≤ to_nat (contains hs h)
unfolding contains
count-le-contains h [] d = omega arith
count-le-contains h (x ∷ hs) d =
    ground (arith, count-le-contains h hs d.1, bytes_eqb_iff x h, count-eq_zero h hs)

module _ (lib : EthLib) where
  -- Whether the event is a `Transfer` whose hash is `h`.
  abbrev pub carries : Bytes → Event → Bool
  carries h (web3_event e) = e.event == transfer_event_name && compute_transfer_hash lib e == h
  carries h _ = false

  apply_transfer-pending :
      (r : TransferRecorder) (e : Web3Event) (h : Bytes)
      → pending (apply_transfer lib e r).1 h
        ≤ pending r h + to_nat (compute_transfer_hash lib e == h)
  unfolding apply_transfer
  apply_transfer-pending r e h =
      ground (arith, contains-add r.transfer_hashes (compute_transfer_hash lib e) h)

  apply_confirmation-pending :
      (r : TransferRecorder) (e : Web3Event) (h : Bytes)
      → pending (apply_confirmation lib e r).1 h ≡ pending r h
  unfolding apply_confirmation
  apply_confirmation-pending r e h = ground arith

  apply_completion-pending :
      (r : TransferRecorder) (e : Web3Event) (h : Bytes)
      → pending (apply_completion lib e r).1 h ≡ pending r h
  unfolding apply_completion
  apply_completion-pending r e h = ground arith

  pub apply_event-pending :
      (r : TransferRecorder) (e : Event) (h : Bytes)
      → pending (apply_event lib e r).1 h ≤ pending r h + to_nat (carries h e)
  unfolding apply_event
  apply_event-pending r (balance_check b) h = unfold apply_balance_check in omega arith
  apply_event-pending r (is_validator_check b) h = unfold apply_is_validator_check in ground arith
  apply_event-pending r (fetcher_reached_head e) h =
      unfold apply_fetcher_reached_head_event in omega arith
  apply_event-pending r (web3_event e) h =
      unfold apply_web3_event in
      ground (
        arith,
        apply_transfer-pending r e h,
        apply_confirmation-pending r e h,
        apply_completion-pending r e h,
      )
  apply_event-pending r unregistered h = omega arith
  apply_event-pending r foreign_object h = omega arith

  -- A pull uses up what it returns.
  pub pull-pending :
      (r : TransferRecorder) (h : Bytes)
      → (v : IsValid lib r)
      → count h (hashes_of lib (pull_exact lib r v).0) + pending (pull_transfers_to_confirm r).1 h
        ≤ pending r h
  pull-pending r h v =
      let (tasks, _, _, exact, _, distinct, _) = pull_exact lib r v in
      let (transfers, _, _, scheduled, _, _, _, _, _, _) = pull_effect lib r h v in
      ground
        (arith, count-le-contains h (hashes_of lib tasks) distinct, exact h, transfers, scheduled)
