-- ===== src/Bridge/Watchers/Membership.antt =====
-- What the recorder hears of the account's membership in the validator set.
use mathlib.Core.List.{append_assoc}
use trustlines_blockchain.Prelude.{
  ℕ, ◌+◌, ◌≤◌, ◌<◌, ◌≡◌, refl, ap, ◌∙◌, Bool, true, false, not, Option, some, List, [], ◌∷◌, ◌++◌,
  leb, Bool-cases, arith, inl, inr,
}
use trustlines_blockchain.Prelude.Loops.{
  wait_until, wait_until-total, IsFirst, IsFirst-now, IsFirst-later,
}
use trustlines_blockchain.Bridge.Events.{Event, is_validator_check}
use trustlines_blockchain.Bridge.Watchers.{
  ValidatorStatusWatcher, put_check, wait_for_validator_status, wait_for_non_validator_status,
  wait_for_change, run_from, run,
}

-- The account is a validator at poll `joined`, which is the first one or the first at which it is,
-- and `left` is the first poll after that at which it is none.
abbrev pub IsTerm : (ℕ → Bool) → ℕ → ℕ → ℕ → Type 0
IsTerm status start joined left =
    IsFirst status start joined × IsFirst (λ t. not (status t)) (joined + 1) left

-- The reports on an account that is a validator from the beginning, and on one that becomes one.
unfoldable pub reports : Bool → List Event
reports true = is_validator_check true ∷ is_validator_check false ∷ []
reports false = is_validator_check false ∷ is_validator_check true ∷ is_validator_check false ∷ []

abbrev ended_with : List Event → ℕ → ValidatorStatusWatcher
ended_with queue left = record { control_queue = queue; stopped = true; polls = left + 1 }

module _ (status : ℕ → Bool) where
  leaves :
      (fuel k : ℕ) (w : ValidatorStatusWatcher)
      → w.polls ≤ k
      → k < w.polls + fuel
      → status k ≡ false
      → (left : ℕ) × (wait_for_non_validator_status status fuel w
          ≡ some (record (put_check false (left + 1) w) { stopped = true }))
        × IsFirst (λ t. not (status t)) w.polls left
  unfolding wait_for_non_validator_status
  leaves fuel k w a b h =
      let (left, waited, first) =
        wait_until-total fuel (λ t. not (status t)) w.polls k a b (rw h refl) in
      (left, rw (wait_for_non_validator_status, waited) refl, first)

  first-le :
      (start joined i : ℕ) → IsFirst status start joined → start ≤ i → status i ≡ true → joined ≤ i
  first-le start joined i (now, after, earlier) h e = elim (Bool-cases (leb joined i)) [
    | inl t ↦ ground arith
    | inr f ↦ absurd (ground (arith, earlier i h (ground arith)))
  ]

  from_beginning :
      (fuel k : ℕ) (w : ValidatorStatusWatcher)
      → status w.polls ≡ true
      → w.polls < k
      → k < w.polls + fuel
      → status k ≡ false
      → (left : ℕ) × (run status fuel w
          ≡ some (record {
            control_queue =
                (w.control_queue ++ is_validator_check true ∷ []) ++ is_validator_check false ∷ [];
            stopped = true;
            polls = left + 1;
          }))
        × IsFirst (λ t. not (status t)) (w.polls + 1) left
  unfolding run run_from wait_for_change put_check
  from_beginning fuel k w now a b h =
      let (left, waited, first) =
        leaves fuel k (put_check true (w.polls + 1) w) (omega arith) (omega arith) h in
      (left, ap (run_from status fuel w) now ∙ waited, first)

  joined_step :
      (fuel joined : ℕ) (w : ValidatorStatusWatcher) {r : Option ValidatorStatusWatcher}
      → wait_until fuel status w.polls ≡ some joined
      → wait_for_non_validator_status status fuel (put_check true (joined + 1) w) ≡ r
      → wait_for_change status fuel false w ≡ r
  unfolding wait_for_change wait_for_validator_status
  joined_step fuel joined w found waited =
      rw (wait_for_change, wait_for_validator_status, found) waited

  later_on :
      (fuel i k : ℕ) (w : ValidatorStatusWatcher)
      → status w.polls ≡ false
      → w.polls ≤ i
      → status i ≡ true
      → i < k
      → k < w.polls + fuel
      → status k ≡ false
      → (joined : ℕ) × (left : ℕ) × (run status fuel w
          ≡ some (record {
            control_queue =
                ((w.control_queue ++ is_validator_check false ∷ []) ++ is_validator_check true ∷ [])
                ++ is_validator_check false ∷ [];
            stopped = true;
            polls = left + 1;
          }))
        × IsTerm status w.polls joined left
  unfolding run run_from wait_for_change put_check wait_for_validator_status
  later_on fuel i k w not_yet a h b c l =
      let after : w.polls + 1 ≤ i = ground arith in
      let (joined, found, joins) =
        wait_until-total fuel status (w.polls + 1) i after (omega arith) h in
      let before = first-le (w.polls + 1) joined i joins after h in
      let w' = put_check false (w.polls + 1) w in
      let (now, begun, earlier) = joins in
      let (left, waited, first) =
        leaves fuel k (put_check true (joined + 1) w') (omega arith) (omega arith) l in
      (
        joined,
        left,
        ap (run_from status fuel w) not_yet ∙ joined_step fuel joined w' found waited,
        (IsFirst-later status w.polls joined not_yet joins, first),
      )

  -- If the account is a validator at some poll and none at a later one, which the fuel covers, then
  -- the watcher ends: it has reported whether the account was a validator at first, then, if not,
  -- that it became one, then that it is none any more, and nothing else; and it has called the stop
  -- callback at the first poll at which the status was lost.
  pub run_lem :
      (fuel i k : ℕ) (w : ValidatorStatusWatcher)
      → w.polls ≤ i
      → status i ≡ true
      → i < k
      → k < w.polls + fuel
      → status k ≡ false
      → (joined : ℕ) × (left : ℕ) × (run status fuel w
          ≡ some (record {
            control_queue = w.control_queue ++ reports (status w.polls);
            stopped = true;
            polls = left + 1;
          }))
        × IsTerm status w.polls joined left
  unfolding reports
  run_lem fuel i k w a h b c l = elim (Bool-cases (status w.polls)) [
    | inl now ↦
        let (left, ended, first) = from_beginning fuel k w now (omega arith) c l in
        (
          w.polls,
          left,
          ended
              ∙ rw now (
                  ap (λ q. some (ended_with q left))
                    (append_assoc w.control_queue (is_validator_check true ∷ [])
                      (is_validator_check false ∷ []))),
          (IsFirst-now status w.polls now, first),
        )
    | inr not_yet ↦
        let (joined, left, ended, term) = later_on fuel i k w not_yet a h b c l in
        (
          joined,
          left,
          ended
              ∙ rw not_yet (
                  ap (λ q. some (ended_with q left))
                    (append_assoc (w.control_queue ++ (is_validator_check false ∷ []))
                        (is_validator_check true ∷ []) (is_validator_check false ∷ [])
                      ∙ append_assoc w.control_queue (is_validator_check false ∷ [])
                          ((is_validator_check true ∷ []) ++ (is_validator_check false ∷ [])))),
          term,
        )
  ]
