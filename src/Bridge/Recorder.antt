-- ===== src/Bridge/Recorder.antt =====
-- bridge/src/bridge/transfer_recorder.py, `class TransferRecorder`: what the validator has seen of
-- transfers, confirmations and completions, and which transfers it still has to confirm.
-- Logging is left out, but for `from_wei` in the messages on the balance, which can raise.
pub mod Invariant
pub mod Pull
pub mod Once
pub mod Status
use trustlines_blockchain.Prelude.{
  ℕ, zero, Bool, true, false, not, ◌&&◌, ◌||◌, Option, none, some, List, [], ◌∷◌, Result, ok, err,
  PyError, key_error, value_error, assertion_error, attribute_error, Action, ◌>>=◌, ◌>>◌, pure,
  modify, length, nat_eqb, and_then, if◌then◌else◌, map,
}
use trustlines_blockchain.Prelude.Int.{ℤ, pos, negsuc, leb_ℤ}
use trustlines_blockchain.Prelude.Classes.{Bytes, bytes_eq, string_eq, ◌==◌}
use trustlines_blockchain.Containers.PySet.{contains, add, difference, intersection, union}
use trustlines_blockchain.Containers.PyDict.{Dict, lookup, insert, remove, values}
use trustlines_blockchain.Bridge.Eth.{EthLib}
use trustlines_blockchain.Bridge.Events.{
  Event, balance_check, is_validator_check, fetcher_reached_head, web3_event, unregistered,
  foreign_object, Web3Event, FetcherReachedHeadEvent, ChainRole, chain_role_eq, EventArgs,
  transfer_args, hash_args, transfer_event_name, confirmation_event_name, completion_event_name,
  zero_address,
}
use trustlines_blockchain.Bridge.Utils.{compute_transfer_hash, sort_events}

pub record TransferRecorder : Type 0 where
  pub transfer_events : Dict Bytes Web3Event
  pub transfer_hashes : List Bytes
  pub confirmation_hashes : List Bytes
  pub completion_hashes : List Bytes
  pub scheduled_hashes : List Bytes
  pub home_chain_synced_until : ℤ
  pub minimum_balance : ℤ
  pub is_validator : Option Bool
  pub balance : Option ℤ
  pub last_fetcher_reached_head_event : Dict ChainRole FetcherReachedHeadEvent

-- `__init__`
abbrev pub init : ℤ → TransferRecorder
init minimum_balance = record {
  transfer_events = [];
  transfer_hashes = [];
  confirmation_hashes = [];
  completion_hashes = [];
  scheduled_hashes = [];
  home_chain_synced_until = pos 0;
  minimum_balance = minimum_balance;
  is_validator = none;
  balance = none;
  last_fetcher_reached_head_event = [];
}

-- The truth value of an `Optional[bool]`.
abbrev pub truthy : Option Bool → Bool
truthy none = false
truthy (some b) = b

unfoldable pub is_balance_sufficient : TransferRecorder → Bool
is_balance_sufficient r = elim r.balance [ none ↦ false | some b ↦ leb_ℤ r.minimum_balance b ]

-- `is_validator and is_balance_sufficient`, which is None while the status is unknown.
unfoldable pub is_validating : TransferRecorder → Option Bool
is_validating r = elim r.is_validator [
  | none ↦ none
  | some v ↦ if v then some (is_balance_sufficient r) else some false
]

-- The loop of pops in `clear_transfers`.
unfoldable pub pop_all : List Bytes → Dict Bytes Web3Event → Dict Bytes Web3Event
pop_all [] d = d
pop_all (h ∷ hs) d = pop_all hs (remove h d)

unfoldable pub clear_transfers : TransferRecorder → TransferRecorder
clear_transfers r =
    let removed = intersection r.transfer_hashes r.completion_hashes in
    record r {
      transfer_hashes = difference r.transfer_hashes removed;
      confirmation_hashes = difference r.confirmation_hashes removed;
      completion_hashes = difference r.completion_hashes removed;
      scheduled_hashes = difference r.scheduled_hashes removed;
      transfer_events = pop_all removed r.transfer_events;
    }

unfoldable pub unconfirmed_transfer_hashes : TransferRecorder → List Bytes
unconfirmed_transfer_hashes r =
    difference (difference (difference r.transfer_hashes r.confirmation_hashes) r.completion_hashes)
      r.scheduled_hashes

-- `[self.transfer_events[h] for h in hashes]`; a missing key is a KeyError.
unfoldable pub events_of : Dict Bytes Web3Event → List Bytes → Result (List Web3Event)
events_of d [] = ok []
events_of d (h ∷ hs) = elim (lookup h d) [
  | none ↦ err key_error
  | some e ↦ elim (events_of d hs) [ ok es ↦ ok (e ∷ es) | err x ↦ err x ]
]

-- The `if` of `pull_transfers_to_confirm`.
unfoldable pub confirmation_tasks : Action TransferRecorder (List Web3Event)
confirmation_tasks r =
    if truthy (is_validating r)
    then (let hashes = unconfirmed_transfer_hashes r in
        (
          events_of r.transfer_events hashes,
          record r { scheduled_hashes = union r.scheduled_hashes hashes },
        ))
    else (ok [], r)

unfoldable pub pull_transfers_to_confirm : Action TransferRecorder (List Web3Event)
pull_transfers_to_confirm = do
  tasks ← confirmation_tasks
  modify clear_transfers
  pure (sort_events tasks)

-- `balance or -1`: None and 0 are falsy.
abbrev balance_or : Option ℤ → ℤ
balance_or none = negsuc 0
balance_or (some (pos zero)) = negsuc 0
balance_or (some b) = b

-- The dictionary of `get_state_summary`; `balance` is printed in decimal there.
pub record Summary : Type 0 where
  pub is_validator : Option Bool
  pub balance : ℤ
  pub num_transfer_events : ℕ
  pub num_scheduled_hashes : ℕ
  pub num_completions : ℕ
  pub is_validating : Option Bool
  pub is_balance_sufficient : Bool
  pub last_fetcher_reached_head_event : List FetcherReachedHeadEvent

unfoldable pub get_state_summary : TransferRecorder → Summary
get_state_summary r = record {
  is_validator = r.is_validator;
  balance = balance_or r.balance;
  num_transfer_events = length r.transfer_events;
  num_scheduled_hashes = length r.scheduled_hashes;
  num_completions = length r.completion_hashes;
  is_validating = is_validating r;
  is_balance_sufficient = is_balance_sufficient r;
  last_fetcher_reached_head_event = values r.last_fetcher_reached_head_event;
}

-- `_apply_is_validator_check`
unfoldable pub apply_is_validator_check : Bool → TransferRecorder → TransferRecorder
apply_is_validator_check is_validator r =
    if is_validator && not (truthy r.is_validator)
    then record r { is_validator = some true }
    else if not is_validator && truthy r.is_validator
    then record r { is_validator = some false }
    else r

-- `_apply_fetcher_reached_head_event`
unfoldable pub apply_fetcher_reached_head_event :
    FetcherReachedHeadEvent → TransferRecorder → TransferRecorder
apply_fetcher_reached_head_event event r = record r {
  last_fetcher_reached_head_event = insert event.chain_role event r.last_fetcher_reached_head_event;
}

module _ (lib : EthLib) where
  -- The amounts in a message on the balance.
  unfoldable pub amounts_in_ether : ℤ → ℤ → Result (Unit {0})
  amounts_in_ether balance minimum_balance =
      and_then (lib.from_wei balance) λ _. and_then (lib.from_wei minimum_balance) λ _. ok tt

  -- `_apply_balance_check`, with its messages on a balance that is not sufficient, or has become so.
  unfoldable pub apply_balance_check : ℤ → Action TransferRecorder (Unit {0})
  apply_balance_check balance r =
      let now : TransferRecorder = record r { balance = some balance } in
      (
        if not (is_balance_sufficient now)
              || (not (is_balance_sufficient r) && is_balance_sufficient now)
            then amounts_in_ether balance r.minimum_balance
            else ok tt,
        now,
      )

  unfoldable pub apply_transfer : Web3Event → Action TransferRecorder (Unit {0})
  apply_transfer event r = elim event.args [
    | hash_args _ ↦ (err attribute_error, r)
    | transfer_args from to value ↦
        if nat_eqb value 0 || lib.is_same_address from zero_address
        then (ok tt, r)
        else (let transfer_hash = compute_transfer_hash lib event in
            (
              ok tt,
              record r {
                transfer_hashes = add r.transfer_hashes transfer_hash;
                transfer_events = insert transfer_hash event r.transfer_events;
              },
            ))
  ]

  unfoldable pub apply_confirmation : Web3Event → Action TransferRecorder (Unit {0})
  apply_confirmation event r = elim event.args [
    | transfer_args _ _ _ ↦ (err attribute_error, r)
    | hash_args transfer_hash ↦
        if nat_eqb (length transfer_hash) 32
        then (ok tt, record r { confirmation_hashes = add r.confirmation_hashes transfer_hash })
        else (err assertion_error, r)
  ]

  unfoldable pub apply_completion : Web3Event → Action TransferRecorder (Unit {0})
  apply_completion event r = elim event.args [
    | transfer_args _ _ _ ↦ (err attribute_error, r)
    | hash_args transfer_hash ↦
        if nat_eqb (length transfer_hash) 32
        then (ok tt, record r { completion_hashes = add r.completion_hashes transfer_hash })
        else (err assertion_error, r)
  ]

  -- `_apply_web3_event`
  unfoldable pub apply_web3_event : Web3Event → Action TransferRecorder (Unit {0})
  apply_web3_event event r =
      if event.event == transfer_event_name
      then apply_transfer event r
      else if event.event == confirmation_event_name
      then apply_confirmation event r
      else if event.event == completion_event_name
      then apply_completion event r
      else (err value_error, r)

  -- `dispatch_by_event_class` and `apply_event`
  unfoldable pub apply_event : Event → Action TransferRecorder (Unit {0})
  apply_event (balance_check b) r = apply_balance_check b r
  apply_event (is_validator_check v) r = (ok tt, apply_is_validator_check v r)
  apply_event (fetcher_reached_head e) r = (ok tt, apply_fetcher_reached_head_event e r)
  apply_event (web3_event e) r = apply_web3_event e r
  apply_event unregistered r = (err value_error, r)
  apply_event foreign_object r = (err assertion_error, r)
