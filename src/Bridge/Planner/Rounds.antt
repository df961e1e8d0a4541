-- ===== src/Bridge/Planner/Rounds.antt =====
-- One round of the planner: what it puts in the task queue, and what it keeps.
use mathlib.Core.List.{map-append}
use trustlines_blockchain.Prelude.{
  ℕ, ◌+◌, ◌≤◌, ◌≡◌, refl, ap, Bool, true, false, ◌&&◌, ◌||◌, List, [], ◌∷◌, ◌++◌, arith, Bool-cases,
  inl, inr, if◌then◌else◌, ok, is_ok, All, All-append,
}
use trustlines_blockchain.Prelude.Int.{ℤ, ◌-ℤ◌, ltb_ℤ}
use trustlines_blockchain.Prelude.Classes.{Bytes, bytes_eq}
use trustlines_blockchain.Containers.PySet.{contains}
use trustlines_blockchain.Bridge.Eth.{EthLib}
use trustlines_blockchain.Bridge.Events.{
  ChainRole, Event, fetcher_reached_head, balance_check, is_validator_check, web3_event,
}
use trustlines_blockchain.Bridge.Recorder.{
  apply_event, apply_fetcher_reached_head_event, is_validating, is_balance_sufficient,
  pull_transfers_to_confirm,
}
use trustlines_blockchain.Bridge.Recorder.Invariant.{IsValid, RealTransfer, apply_event-IsValid}
use trustlines_blockchain.Bridge.Recorder.Pull.{hashes_of, is_due, pull_exact}
use trustlines_blockchain.Bridge.Recorder.Once.{
  to_nat, count, pending, carries, apply_event-pending, pull-pending,
}
use trustlines_blockchain.Bridge.Planner.{
  Planner, on_recorder, put_all, check_for_confirmation_tasks, starts_check, process_event,
}

-- The event says that the home bridge's events are all fetched, and did so less than `limit` ago.
abbrev pub reports_home : ℤ → ℤ → Event → Bool
reports_home limit now (fetcher_reached_head report) = elim report.chain_role [
  | ChainRole.home ↦ ltb_ℤ (now -ℤ report.timestamp) limit
  | ChainRole.foreign ↦ false
]
reports_home limit now _ = false

starts_check-reports_home :
    (p : Planner) (e : Event) (now : ℤ)
    → starts_check p e now ≡ reports_home p.sync_persistence_time now e
unfolding starts_check
starts_check-reports_home p (fetcher_reached_head report) now = ground arith
starts_check-reports_home p (balance_check b) now = refl
starts_check-reports_home p (is_validator_check b) now = refl
starts_check-reports_home p (web3_event w) now = refl
starts_check-reports_home p Event.unregistered now = refl
starts_check-reports_home p Event.foreign_object now = refl

count-append : (h : Bytes) (xs ys : List Bytes) → count h (xs ++ ys) ≡ count h xs + count h ys
count-append h [] ys = omega arith
count-append h (x ∷ xs) ys = omega (arith, count-append h xs ys)

contains-append :
    (xs ys : List Bytes) (h : Bytes) → contains (xs ++ ys) h ≡ (contains xs h || contains ys h)
unfolding contains
contains-append [] ys h = refl
contains-append (x ∷ xs) ys h = ground (arith, contains-append xs ys h)

module _ (lib : EthLib) where
  -- A recorder in order, and only real transfers in the task queue.
  pub record IsSound (p : Planner) : Type 0 where
    pub recorder : IsValid lib p.recorder
    pub tasks : All (RealTransfer lib) p.confirmation_task_queue

  -- Scheduled, or about to be.
  abbrev pub load : Planner → Bytes → ℕ
  load p h = count h (hashes_of lib p.confirmation_task_queue) + pending p.recorder h

  check_lem :
      (p : Planner) (v : IsValid lib p.recorder)
      → check_for_confirmation_tasks p ≡ (
        ok tt,
        record p {
          recorder = (pull_transfers_to_confirm p.recorder).1;
          confirmation_task_queue = p.confirmation_task_queue ++ (pull_exact lib p.recorder v).0;
        },
      )
  unfolding check_for_confirmation_tasks on_recorder put_all
  check_lem p v = ground (arith, (pull_exact lib p.recorder v).1)

  check-IsSound : (p : Planner) → IsSound p → IsSound (check_for_confirmation_tasks p).1
  check-IsSound p s =
      let (tasks, _, _, _, real, _, valid) = pull_exact lib p.recorder s.recorder in
      rw (check_lem p s.recorder) (record {
        recorder = valid;
        tasks = All-append (RealTransfer lib) p.confirmation_task_queue tasks s.tasks real;
      })

  check-load :
      (p : Planner) (h : Bytes)
      → IsValid lib p.recorder
      → load (check_for_confirmation_tasks p).1 h ≤ load p h
  check-load p h v =
      let tasks = (pull_exact lib p.recorder v).0 in
      rw (check_lem p v)
        (simp (map-append, count-append) (omega (arith, pull-pending lib p.recorder h v)))

  check_schedules :
      (p : Planner) (h : Bytes)
      → IsValid lib p.recorder
      → contains (hashes_of lib (check_for_confirmation_tasks p).1.confirmation_task_queue) h
        ≡ (contains (hashes_of lib p.confirmation_task_queue) h || is_due p.recorder h)
  check_schedules p h v = rw (check_lem p v) (
      simp (map-append, contains-append)
        (ap (λ b. contains (hashes_of lib p.confirmation_task_queue) h || b)
          ((pull_exact lib p.recorder v).3 h)))

  -- The planner once the recorder has taken the event in.
  abbrev pub received : Event → Planner → Planner
  received e p = record p { recorder = (apply_event lib e p.recorder).1 }

  -- Whether this round looks for transfers to confirm.
  abbrev pub checks : Event → ℤ → Planner → Bool
  checks e now p = is_ok (apply_event lib e p.recorder).0 && starts_check p e now

  process_event_lem :
      (e : Event) (now : ℤ) (p : Planner)
      → (process_event lib e now p).1
        ≡ (if checks e now p then (check_for_confirmation_tasks (received e p)).1 else received e p)
  unfolding process_event on_recorder starts_check
  process_event_lem e now p = ground arith

  pub process_event-IsSound :
      (e : Event) (now : ℤ) (p : Planner) → IsSound p → IsSound (process_event lib e now p).1
  process_event-IsSound e now p s =
      let s' : IsSound (received e p) = record {
        recorder = apply_event-IsValid lib p.recorder e s.recorder;
        tasks = s.tasks;
      } in
      rw process_event_lem (elim (Bool-cases (checks e now p)) [
        | inl b ↦ rw b (check-IsSound (received e p) s')
        | inr b ↦ rw b s'
      ])

  pub process_event-load :
      (e : Event) (now : ℤ) (p : Planner) (h : Bytes)
      → IsSound p
      → load (process_event lib e now p).1 h ≤ load p h + to_nat (carries lib h e)
  process_event-load e now p h s =
      let arrived = apply_event-pending lib p.recorder e h in
      let checked = check-load (received e p) h (apply_event-IsValid lib p.recorder e s.recorder) in
      rw process_event_lem (elim (Bool-cases (checks e now p)) [
        | inl b ↦ rw b (omega arith)
        | inr b ↦ rw b (omega arith)
      ])

  -- The report that starts a check raises nothing and changes no set of hashes.
  head_report :
      (e : Event) (now : ℤ) (p : Planner) (h : Bytes)
      → starts_check p e now ≡ true
      → (is_ok (apply_event lib e p.recorder).0 ≡ true)
        × (is_due (received e p).recorder h ≡ is_due p.recorder h)
  unfolding starts_check apply_event apply_fetcher_reached_head_event is_validating
      is_balance_sufficient
  head_report (fetcher_reached_head r) now p h b = (refl, refl)
  head_report _ now p h b = cc

  -- A round puts a transfer in the task queue exactly if the event is a report, younger than
  -- `sync_persistence_time`, that the home bridge is in sync, and the transfer is due then.
  pub process_event_schedules :
      (e : Event) (now : ℤ) (p : Planner) (h : Bytes)
      → IsSound p
      → contains (hashes_of lib (process_event lib e now p).1.confirmation_task_queue) h ≡ (
          contains (hashes_of lib p.confirmation_task_queue) h
          || (reports_home p.sync_persistence_time now e && is_due p.recorder h))
  process_event_schedules e now p h s =
      let scheduled =
        check_schedules (received e p) h (apply_event-IsValid lib p.recorder e s.recorder) in
      rw process_event_lem (elim (Bool-cases (checks e now p)) [
        | inl b ↦
            rw b
              (ground (arith, scheduled, head_report e now p h, starts_check-reports_home p e now))
        | inr b ↦ rw b (ground (arith, head_report e now p h, starts_check-reports_home p e now))
      ])

  -- A round takes nothing out of the event queues and puts nothing in.
  pub process_event_queues :
      (e : Event) (now : ℤ) (p : Planner)
      → IsSound p
      → let p' = (process_event lib e now p).1 in
        (p'.transfer_event_queue ≡ p.transfer_event_queue)
        × (p'.home_bridge_event_queue ≡ p.home_bridge_event_queue)
        × (p'.control_queue ≡ p.control_queue)
  process_event_queues e now p s = rw process_event_lem (elim (Bool-cases (checks e now p)) [
    | inl b ↦ rw b (
        rw (check_lem (received e p) (apply_event-IsValid lib p.recorder e s.recorder))
          (refl, refl, refl))
    | inr b ↦ rw b (refl, refl, refl)
  ])
