-- ===== src/Bridge/Recorder/Pull.antt =====
-- What `pull_transfers_to_confirm` returns, and what it leaves behind.
use trustlines_blockchain.Prelude.{
  ◌≡◌, refl, ap, ◌∙◌, Bool, true, false, not, ◌&&◌, ◌||◌, none, List, [], ◌∷◌, map, arith,
  Bool-cases, Option-cases, inl, inr, if◌then◌else◌, ok, All,
}
use trustlines_blockchain.Prelude.Classes.{Bytes, bytes_eq, bytes_eqb_iff, ◌==◌}
use trustlines_blockchain.Containers.PySet.{
  contains, contains-difference, contains-intersection, contains-union,
}
use trustlines_blockchain.Containers.Distinct.{IsDistinct, difference-IsDistinct}
use trustlines_blockchain.Containers.PyDict.{lookup}
use trustlines_blockchain.Bridge.Eth.{EthLib}
use trustlines_blockchain.Bridge.Events.{Web3Event}
use trustlines_blockchain.Bridge.Utils.{compute_transfer_hash, sort_events, insert_event, key_leb}
use trustlines_blockchain.Bridge.Utils.Order.{IsSorted, sort_events-IsSorted, All-sort_events}
use trustlines_blockchain.Bridge.Recorder.{
  TransferRecorder, truthy, is_validating, clear_transfers, unconfirmed_transfer_hashes, events_of,
  confirmation_tasks, pull_transfers_to_confirm,
}
use trustlines_blockchain.Bridge.Recorder.Invariant.{
  IsValid, lookup-pop_all, RealTransfer, confirmation_tasks-IsValid, clear_transfers-IsValid,
}

-- The transfers that the next pull has to schedule.
abbrev pub is_due : TransferRecorder → Bytes → Bool
is_due r h =
    truthy (is_validating r)
    && (contains r.transfer_hashes h
        && (not (contains r.confirmation_hashes h)
            && (not (contains r.completion_hashes h) && not (contains r.scheduled_hashes h))))

abbrev pub was_completed : TransferRecorder → Bytes → Bool
was_completed r h = contains r.transfer_hashes h && contains r.completion_hashes h

contains-unconfirmed :
    (r : TransferRecorder) (h : Bytes)
    → contains (unconfirmed_transfer_hashes r) h ≡ (
        contains r.transfer_hashes h
        && (not (contains r.confirmation_hashes h)
            && (not (contains r.completion_hashes h) && not (contains r.scheduled_hashes h))))
unfolding unconfirmed_transfer_hashes
contains-unconfirmed r h = simp contains-difference (ground arith)

clear_effect :
    (r : TransferRecorder) (h : Bytes)
    → let s = clear_transfers r in
      let keep = not (was_completed r h) in
      (contains s.transfer_hashes h ≡ (contains r.transfer_hashes h && keep))
      × (contains s.confirmation_hashes h ≡ (contains r.confirmation_hashes h && keep))
      × (contains s.completion_hashes h ≡ (contains r.completion_hashes h && keep))
      × (contains s.scheduled_hashes h ≡ (contains r.scheduled_hashes h && keep))
      × (lookup h s.transfer_events ≡ (if keep then lookup h r.transfer_events else none))
unfolding clear_transfers
clear_effect r h = (
  simp (contains-difference, contains-intersection) (ground arith),
  simp (contains-difference, contains-intersection) (ground arith),
  simp (contains-difference, contains-intersection) (ground arith),
  simp (contains-difference, contains-intersection) (ground arith),
  simp (lookup-pop_all, contains-intersection) (ground arith),
)

confirmation_tasks_effect :
    (r : TransferRecorder) (h : Bytes)
    → let s = (confirmation_tasks r).1 in
      (s ≡ record r { scheduled_hashes = s.scheduled_hashes })
      × (contains s.scheduled_hashes h ≡ (contains r.scheduled_hashes h || is_due r h))
unfolding confirmation_tasks
confirmation_tasks_effect r h = elim (Bool-cases (truthy (is_validating r))) [
  | inl on ↦ (
    rw on,
    rw on (
        contains-union r.scheduled_hashes (unconfirmed_transfer_hashes r) h
        ∙ ap (λ b. contains r.scheduled_hashes h || b) (contains-unconfirmed r h)),
  )
  | inr off ↦ (rw off, rw off (ground arith))
]

unconfirmed-IsDistinct :
    (r : TransferRecorder)
    → IsDistinct r.transfer_hashes
    → IsDistinct (unconfirmed_transfer_hashes r)
unfolding unconfirmed_transfer_hashes
unconfirmed-IsDistinct r h =
    difference-IsDistinct _ _ (difference-IsDistinct _ _ (difference-IsDistinct _ _ h))

module _ (lib : EthLib) where
  abbrev pub hashes_of : List Web3Event → List Bytes
  hashes_of = map (compute_transfer_hash lib)

  contains-insert_event :
      (e : Web3Event) (es : List Web3Event) (h : Bytes)
      → contains (hashes_of (insert_event e es)) h ≡ contains (hashes_of (e ∷ es)) h
  unfolding contains insert_event
  contains-insert_event e [] h = refl
  contains-insert_event e (x ∷ es) h = ground (arith, contains-insert_event e es h)

  pub contains-sort_events :
      (es : List Web3Event) (h : Bytes)
      → contains (hashes_of (sort_events es)) h ≡ contains (hashes_of es) h
  unfolding sort_events contains
  contains-sort_events [] h = refl
  contains-sort_events (e ∷ es) h =
      contains-insert_event e (sort_events es) h
      ∙ ap (λ b. compute_transfer_hash lib e == h || b) (contains-sort_events es h)

  -- The head steps behind `x`: neither hash is among the others.
  swap_distinct :
      (a x : Bytes) (hs : List Bytes)
      → IsDistinct (a ∷ x ∷ hs)
      → (contains (a ∷ hs) x ≡ false) × (contains hs a ≡ false)
  unfolding contains
  swap_distinct a x hs h = ground (arith, bytes_eqb_iff a x, bytes_eqb_iff x a)

  insert_event-IsDistinct :
      (e : Web3Event) (es : List Web3Event)
      → IsDistinct (hashes_of (e ∷ es))
      → IsDistinct (hashes_of (insert_event e es))
  unfolding insert_event
  insert_event-IsDistinct e [] h = h
  insert_event-IsDistinct e (x ∷ es) h = elim (Bool-cases (key_leb e x)) [
    | inl le ↦ rw le h
    | inr gt ↦
        let apart = swap_distinct _ _ (hashes_of es) h in
        rw gt
          (contains-insert_event e es _ ∙ apart.0, insert_event-IsDistinct e es (apart.1, h.1.1))
  ]

  pub sort_events-IsDistinct :
      (es : List Web3Event) → IsDistinct (hashes_of es) → IsDistinct (hashes_of (sort_events es))
  unfolding sort_events
  sort_events-IsDistinct [] h = h
  sort_events-IsDistinct (e ∷ es) h =
      insert_event-IsDistinct e (sort_events es)
        (contains-sort_events es _ ∙ h.0, sort_events-IsDistinct es h.1)

  -- With a key for every hash the comprehension raises no KeyError.
  events_of_lem :
      (r : TransferRecorder) (hs : List Bytes)
      → IsValid lib r
      → ((h : Bytes) → contains hs h ≡ true → contains r.transfer_hashes h ≡ true)
      → (es : List Web3Event) × (events_of r.transfer_events hs ≡ ok es)
        × (hashes_of es ≡ hs)
        × All (RealTransfer lib) es
  unfolding events_of
  events_of_lem r [] v known = ([], refl, refl, tt)
  events_of_lem r (h ∷ hs) v known =
      let rest = events_of_lem r hs v (λ j p. known j (unfold contains in ground arith)) in
      elim (Option-cases (lookup h r.transfer_events)) [
        | inl missing ↦
            absurd (unfold contains in ground (arith, v.keys h, known h, bytes_eqb_iff h h))
        | inr (e, found) ↦ (
          e ∷ rest.0,
          ground (arith, rest.1),
          ground (arith, rest.2, v.entries h e),
          ((v.entries h e found).1, rest.3),
        )
      ]

  -- From a well-formed recorder the choice of tasks raises nothing, and its events are real
  -- transfers that carry the hashes that are due.
  confirmation_tasks_lem :
      (r : TransferRecorder)
      → IsValid lib r
      → (es : List Web3Event) × ((confirmation_tasks r).0 ≡ ok es)
        × ((h : Bytes) → contains (hashes_of es) h ≡ is_due r h)
        × All (RealTransfer lib) es
        × IsDistinct (hashes_of es)
  unfolding confirmation_tasks
  confirmation_tasks_lem r v = elim (Bool-cases (truthy (is_validating r))) [
    | inl on ↦
        let chosen =
          events_of_lem r (unconfirmed_transfer_hashes r) v
            (λ h p. ground (arith, contains-unconfirmed r h)) in
        (
          chosen.0,
          rw on chosen.1,
          (λ h. rw (on, chosen.2) (contains-unconfirmed r h)),
          chosen.3,
          rw chosen.2 (unconfirmed-IsDistinct r v.distinct),
        )
    | inr off ↦ ([], rw off, (λ h. rw off (unfold contains in refl)), tt, tt)
  ]

  pull_state :
      (r : TransferRecorder)
      → IsValid lib r
      → (pull_transfers_to_confirm r).1 ≡ clear_transfers (confirmation_tasks r).1
  unfolding pull_transfers_to_confirm
  pull_state r v = ground (arith, (confirmation_tasks_lem r v).1)

  -- A pull from a well-formed recorder returns, sorted, real transfers only, and exactly those that
  -- are due: the validator is validating, and the transfer was seen and neither confirmed, completed
  -- nor scheduled before. The recorder stays well formed.
  pub pull_exact :
      (r : TransferRecorder)
      → IsValid lib r
      → (tasks : List Web3Event) × ((pull_transfers_to_confirm r).0 ≡ ok tasks)
        × IsSorted tasks
        × ((h : Bytes) → contains (hashes_of tasks) h ≡ is_due r h)
        × All (RealTransfer lib) tasks
        × IsDistinct (hashes_of tasks)
        × IsValid lib (pull_transfers_to_confirm r).1
  unfolding pull_transfers_to_confirm
  pull_exact r v =
      let (es, returned, exact, real, distinct) = confirmation_tasks_lem r v in
      let pulled = pull_state r v in
      (
        sort_events es,
        ground (arith, returned),
        sort_events-IsSorted es,
        (λ h. contains-sort_events es h ∙ exact h),
        All-sort_events _ es real,
        sort_events-IsDistinct es distinct,
        rw pulled (clear_transfers-IsValid lib _ (confirmation_tasks-IsValid lib r v)),
      )

  -- What a pull from a well-formed recorder leaves: it adds to the scheduled transfers those that
  -- were due, forgets every transfer whose completion was seen, in all five collections, and
  -- changes no other field.
  pub pull_effect :
      (r : TransferRecorder) (h : Bytes)
      → IsValid lib r
      → let s = (pull_transfers_to_confirm r).1 in
        let keep = not (was_completed r h) in
        (contains s.transfer_hashes h ≡ (contains r.transfer_hashes h && keep))
        × (contains s.confirmation_hashes h ≡ (contains r.confirmation_hashes h && keep))
        × (contains s.completion_hashes h ≡ (contains r.completion_hashes h && keep))
        × (contains s.scheduled_hashes h ≡ ((contains r.scheduled_hashes h || is_due r h) && keep))
        × (lookup h s.transfer_events ≡ (if keep then lookup h r.transfer_events else none))
        × (s.is_validator ≡ r.is_validator)
        × (s.balance ≡ r.balance)
        × (s.minimum_balance ≡ r.minimum_balance)
        × (s.last_fetcher_reached_head_event ≡ r.last_fetcher_reached_head_event)
        × (s.home_chain_synced_until ≡ r.home_chain_synced_until)
  unfolding clear_transfers
  pull_effect r h v =
      let (fields, marked) = confirmation_tasks_effect r h in
      let s = (confirmation_tasks r).1.scheduled_hashes in
      let left = clear_effect (record r { scheduled_hashes = s }) h in
      rw (pull_state r v) (
        rw fields (
          left.0,
          left.1,
          left.2,
          left.3 ∙ ap (λ b. b && not (was_completed r h)) marked,
          left.4,
          refl,
          refl,
          refl,
          refl,
          refl,
        ))
