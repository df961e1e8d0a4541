-- ===== src/Bridge/Recorder/Status.antt =====
-- The validator status and the balance, the summary for the web service, errors, and the order of
-- events.
use text.Mathlib.TextEquality.{eq_iff}
use trustlines_blockchain.Prelude.{
  ◌≡◌, ◌≢◌, ◌↔◌, ◌⊎◌, true, none, some, arith, Option-cases, inl, inr,
}
use trustlines_blockchain.Prelude.Int.{ℤ, pos, negsuc, ◌≤ℤ◌}
use trustlines_blockchain.Prelude.Classes.{string_eq}
use trustlines_blockchain.Bridge.Eth.{EthLib}
use trustlines_blockchain.Bridge.Events.{Web3Event, transfer_event_name}
use trustlines_blockchain.Bridge.Recorder.{
  TransferRecorder, truthy, is_validating, is_balance_sufficient, apply_transfer,
  apply_confirmation, apply_completion, apply_web3_event, get_state_summary,
}

-- The validator pulls transfers exactly if its last status was "validator" and its last balance
-- reached the minimum; an unknown status or balance counts as neither.
pub is_validating_iff :
    (r : TransferRecorder)
    → (truthy (is_validating r) ≡ true)
      ↔ ((r.is_validator ≡ some true) × ((b : ℤ) × (r.balance ≡ some b) × (r.minimum_balance ≤ℤ b)))
unfolding is_validating is_balance_sufficient
is_validating_iff r = (
  λ h. elim (Option-cases r.balance) [
    | inl unknown ↦ absurd (ground arith)
    | inr (b, e) ↦ (ground arith, (b, e, ground arith))
  ],
  λ h. ground arith,
)

module _ (lib : EthLib) where
  -- A transfer and an event of another name, which come from different queues, leave the recorder in
  -- the same state in whichever order they are handled.
  pub transfer_and_home_event_commute :
      (r : TransferRecorder) (e f : Web3Event)
      → e.event ≡ transfer_event_name
      → f.event ≢ transfer_event_name
      → (apply_web3_event lib f (apply_web3_event lib e r).1).1
        ≡ (apply_web3_event lib e (apply_web3_event lib f r).1).1
  unfolding apply_web3_event apply_transfer apply_confirmation apply_completion
  transfer_and_home_event_commute r e f he hf =
      ground (arith, eq_iff e.event transfer_event_name, eq_iff f.event transfer_event_name)

-- The summary shows a balance of -1 exactly if the balance is unknown, -1 or 0: `balance or -1`
-- takes 0 for a missing balance.
pub summary_balance :
    (r : TransferRecorder)
    → ((get_state_summary r).balance ≡ negsuc 0)
      ↔ ((r.balance ≡ none) ⊎ ((r.balance ≡ some (negsuc 0)) ⊎ (r.balance ≡ some (pos 0))))
unfolding get_state_summary
summary_balance r = (λ h. ground arith, λ h. ground arith)
