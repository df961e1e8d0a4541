-- ===== src/Bridge/Recorder/Invariant.antt =====
-- The well-formedness of a `TransferRecorder`, kept by every method.
use text.Mathlib.TextEquality.{eq_iff}
use trustlines_blockchain.Prelude.{
  ◌≡◌, ◌≢◌, refl, Bool, true, false, none, some, List, [], ◌∷◌, arith, is_some, Bool-cases, inl,
  inr, if◌then◌else◌, ◌||◌, ◌&&◌, not, nat_eqb, length, Option,
}
use trustlines_blockchain.Prelude.Int.{ℤ}
use trustlines_blockchain.Prelude.Classes.{Bytes, bytes_eq, bytes_eqb_iff, string_eq, ◌==◌}
use trustlines_blockchain.Containers.PySet.{
  contains, add, intersection, contains-difference, contains-intersection, contains-union,
  contains-add,
}
use trustlines_blockchain.Containers.PyDict.{
  Dict, lookup, insert, remove, lookup-insert, lookup-remove,
}
use trustlines_blockchain.Containers.Distinct.{IsDistinct, add-IsDistinct, difference-IsDistinct}
use trustlines_blockchain.Bridge.Eth.{EthLib}
use trustlines_blockchain.Bridge.Events.{
  Event, balance_check, is_validator_check, fetcher_reached_head, web3_event, unregistered,
  foreign_object, Web3Event, EventArgs, transfer_args, hash_args, zero_address, transfer_event_name,
  confirmation_event_name, completion_event_name, ChainRole, FetcherReachedHeadEvent,
}
use trustlines_blockchain.Bridge.Utils.{compute_transfer_hash}
use trustlines_blockchain.Bridge.Recorder.{
  TransferRecorder, init, truthy, is_validating, pop_all, clear_transfers,
  unconfirmed_transfer_hashes, confirmation_tasks, apply_transfer, apply_confirmation,
  apply_completion, apply_web3_event, apply_is_validator_check, apply_balance_check,
  apply_fetcher_reached_head_event, apply_event,
}

pub lookup-pop_all :
    (h : Bytes) (hs : List Bytes) (d : Dict Bytes Web3Event)
    → lookup h (pop_all hs d) ≡ (if contains hs h then none else lookup h d)
unfolding pop_all contains
lookup-pop_all h [] d = refl
lookup-pop_all h (x ∷ hs) d = ground (arith, lookup-pop_all h hs (remove x d), lookup-remove x h d)

module _ (lib : EthLib) where
  -- The arguments of a transfer that moves something and that is no minting of tokens.
  abbrev pub RealArgs : EventArgs → Type 0
  RealArgs (transfer_args from to value) =
      (value ≢ 0) × (lib.is_same_address from zero_address ≡ false)
  RealArgs (hash_args h) = ⊥

  abbrev pub RealTransfer : Web3Event → Type 0
  RealTransfer e = (e.event ≡ transfer_event_name) × RealArgs e.args

  pub record IsValid (r : TransferRecorder) : Type 0 where
    pub distinct : IsDistinct r.transfer_hashes
    pub keys : (h : Bytes) → is_some (lookup h r.transfer_events) ≡ contains r.transfer_hashes h
    pub entries :
        (h : Bytes) (e : Web3Event)
        → lookup h r.transfer_events ≡ some e
        → (compute_transfer_hash lib e ≡ h) × RealTransfer e
    pub scheduled :
        (h : Bytes) → contains r.scheduled_hashes h ≡ true → contains r.transfer_hashes h ≡ true

  pub init-IsValid : (minimum_balance : ℤ) → IsValid (init minimum_balance)
  unfolding contains lookup
  init-IsValid m = record {
    distinct = tt;
    keys = λ h. refl;
    entries = λ h e p. cc;
    scheduled = λ h p. cc;
  }

  pub clear_transfers-IsValid : (r : TransferRecorder) → IsValid r → IsValid (clear_transfers r)
  unfolding clear_transfers
  clear_transfers-IsValid r v = record {
    distinct = difference-IsDistinct r.transfer_hashes _ v.distinct;
    keys = λ h.
        simp (lookup-pop_all, contains-difference, contains-intersection)
          (ground (arith, v.keys h));
    entries = λ h e p.
        let q =
          lookup-pop_all h (intersection r.transfer_hashes r.completion_hashes) r.transfer_events in
        v.entries h e (ground arith);
    scheduled =
        λ h. simp (contains-difference, contains-intersection) (ground (arith, v.scheduled h));
  }

  pub confirmation_tasks-IsValid :
      (r : TransferRecorder) → IsValid r → IsValid (confirmation_tasks r).1
  unfolding confirmation_tasks unconfirmed_transfer_hashes
  confirmation_tasks-IsValid r v = elim (Bool-cases (truthy (is_validating r))) [
    | inl on ↦ rw on (record {
      distinct = v.distinct;
      keys = v.keys;
      entries = v.entries;
      scheduled = λ h. simp (contains-union, contains-difference) (ground (arith, v.scheduled h));
    })
    | inr off ↦ rw off v
  ]

  -- The update that a real transfer makes.
  with_transfer-IsValid :
      (r : TransferRecorder) (event : Web3Event)
      → IsValid r
      → RealTransfer event
      → IsValid (record r {
        transfer_hashes = add r.transfer_hashes (compute_transfer_hash lib event);
        transfer_events = insert (compute_transfer_hash lib event) event r.transfer_events;
      })
  with_transfer-IsValid r event v real =
      let hash = compute_transfer_hash lib event in
      record {
        distinct = add-IsDistinct r.transfer_hashes hash v.distinct;
        keys = λ h.
            simp (contains-add, lookup-insert) (ground (arith, v.keys h, bytes_eqb_iff hash h));
        entries = λ h e p. ground (
          arith,
          v.entries h e,
          bytes_eqb_iff hash h,
          lookup-insert hash h event r.transfer_events,
        );
        scheduled = λ h p. simp contains-add (ground (arith, v.scheduled h));
      }

  apply_transfer-IsValid :
      (r : TransferRecorder) (event : Web3Event)
      → IsValid r
      → event.event ≡ transfer_event_name
      → IsValid (apply_transfer lib event r).1
  unfolding apply_transfer
  apply_transfer-IsValid r event v n = go event.args refl
    where
      go : (a : EventArgs) → event.args ≡ a → IsValid (apply_transfer lib event r).1
      go (hash_args _) e = rw (e, apply_transfer) v
      go (transfer_args from to value) e =
          elim (Bool-cases (nat_eqb value 0 || lib.is_same_address from zero_address)) [
            | inl skip ↦ rw (e, apply_transfer) (rw skip v)
            | inr keep ↦
                rw (e, apply_transfer)
                  (rw keep (with_transfer-IsValid r event v (n, rw e (ground arith))))
          ]

  -- The invariant speaks of none of these fields.
  other_fields-IsValid :
      (r : TransferRecorder) (c d : List Bytes) (i : Option Bool) (b : Option ℤ)
      (l : Dict ChainRole FetcherReachedHeadEvent)
      → IsValid r
      → IsValid (record r {
        confirmation_hashes = c;
        completion_hashes = d;
        is_validator = i;
        balance = b;
        last_fetcher_reached_head_event = l;
      })
  other_fields-IsValid r c d i b l v = record {
    distinct = v.distinct;
    keys = v.keys;
    entries = v.entries;
    scheduled = v.scheduled;
  }

  apply_confirmation-IsValid :
      (r : TransferRecorder) (event : Web3Event)
      → IsValid r
      → IsValid (apply_confirmation lib event r).1
  unfolding apply_confirmation
  apply_confirmation-IsValid r event v = go event.args refl
    where
      go : (a : EventArgs) → event.args ≡ a → IsValid (apply_confirmation lib event r).1
      go (transfer_args _ _ _) e = rw (e, apply_confirmation) v
      go (hash_args h) e = elim (Bool-cases (nat_eqb (length h) 32)) [
        | inl fits ↦
            rw (e, apply_confirmation)
              (rw fits (other_fields-IsValid r (add r.confirmation_hashes h) _ _ _ _ v))
        | inr bad ↦ rw (e, apply_confirmation) (rw bad v)
      ]

  apply_completion-IsValid :
      (r : TransferRecorder) (event : Web3Event)
      → IsValid r
      → IsValid (apply_completion lib event r).1
  unfolding apply_completion
  apply_completion-IsValid r event v = go event.args refl
    where
      go : (a : EventArgs) → event.args ≡ a → IsValid (apply_completion lib event r).1
      go (transfer_args _ _ _) e = rw (e, apply_completion) v
      go (hash_args h) e = elim (Bool-cases (nat_eqb (length h) 32)) [
        | inl fits ↦
            rw (e, apply_completion)
              (rw fits (other_fields-IsValid r _ (add r.completion_hashes h) _ _ _ v))
        | inr bad ↦ rw (e, apply_completion) (rw bad v)
      ]

  apply_web3_event-IsValid :
      (r : TransferRecorder) (event : Web3Event)
      → IsValid r
      → IsValid (apply_web3_event lib event r).1
  unfolding apply_web3_event
  apply_web3_event-IsValid r event v = elim (Bool-cases (event.event == transfer_event_name)) [
    | inl e ↦ rw e (apply_transfer-IsValid r event v ((eq_iff _ _).0 e))
    | inr e ↦ rw e (elim (Bool-cases (event.event == confirmation_event_name)) [
      | inl f ↦ rw f (apply_confirmation-IsValid r event v)
      | inr f ↦ rw f (elim (Bool-cases (event.event == completion_event_name)) [
        | inl g ↦ rw g (apply_completion-IsValid r event v)
        | inr g ↦ rw g v
      ])
    ])
  ]

  -- Every event, one that raises included, keeps the recorder well formed.
  pub apply_event-IsValid :
      (r : TransferRecorder) (event : Event) → IsValid r → IsValid (apply_event lib event r).1
  unfolding apply_event
  apply_event-IsValid r (balance_check b) v =
      unfold apply_balance_check in other_fields-IsValid r _ _ _ _ _ v
  apply_event-IsValid r (is_validator_check b) v =
      unfold apply_is_validator_check in
      elim (Bool-cases (b && not (truthy r.is_validator))) [
        | inl e ↦ rw e (other_fields-IsValid r _ _ _ _ _ v)
        | inr e ↦ rw e (elim (Bool-cases (not b && truthy r.is_validator)) [
          | inl f ↦ rw f (other_fields-IsValid r _ _ _ _ _ v)
          | inr f ↦ rw f v
        ])
      ]
  apply_event-IsValid r (fetcher_reached_head e) v =
      unfold apply_fetcher_reached_head_event in other_fields-IsValid r _ _ _ _ _ v
  apply_event-IsValid r (web3_event e) v = apply_web3_event-IsValid r e v
  apply_event-IsValid r unregistered v = v
  apply_event-IsValid r foreign_object v = v
