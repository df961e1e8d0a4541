-- ===== src/Bridge/Planner/Reachable.antt =====
-- What holds of the planner in every reachable state, however the three loops interleave.
use trustlines_blockchain.Prelude.{ℕ, ◌+◌, ◌≤◌, ◌≡◌, ap, List, [], ◌∷◌, ◌++◌, arith}
use trustlines_blockchain.Prelude.Int.{ℤ}
use trustlines_blockchain.Prelude.Classes.{Bytes}
use trustlines_blockchain.Containers.PySet.{contains}
use trustlines_blockchain.Bridge.Eth.{EthLib}
use trustlines_blockchain.Bridge.Events.{Event}
use trustlines_blockchain.Bridge.Recorder.{init}
use trustlines_blockchain.Bridge.Recorder.Invariant.{init-IsValid}
use trustlines_blockchain.Bridge.Recorder.Pull.{hashes_of}
use trustlines_blockchain.Bridge.Recorder.Once.{to_nat, count, carries}
use trustlines_blockchain.Bridge.Planner.{
  Planner, QueueName, transfer_events, home_bridge_events, control_events, queue_of, set_queue,
  Step, serve, Reach, here, deliver, round, process_event,
}
use trustlines_blockchain.Bridge.Planner.Rounds.{
  IsSound, load, process_event-IsSound, process_event-load, process_event_queues,
}

-- `__init__`, with the recorder of `make_recorder` and new queues.
abbrev pub start : ℤ → ℤ → Planner
start minimum_balance sync_persistence_time = record {
  recorder = init minimum_balance;
  sync_persistence_time = sync_persistence_time;
  control_queue = [];
  transfer_event_queue = [];
  home_bridge_event_queue = [];
  confirmation_task_queue = [];
}

module _ (lib : EthLib) where
  -- How many of the events are a `Transfer` whose hash is `h`.
  abbrev pub arrivals : Bytes → List Event → ℕ
  arrivals h [] = 0
  arrivals h (e ∷ es) = to_nat (carries lib h e) + arrivals h es

  arrivals-append :
      (h : Bytes) (es fs : List Event) → arrivals h (es ++ fs) ≡ arrivals h es + arrivals h fs
  arrivals-append h [] fs = omega arith
  arrivals-append h (e ∷ es) fs = omega (arith, arrivals-append h es fs)

  -- Scheduled, about to be, or still in a queue.
  outstanding : Planner → Bytes → ℕ
  outstanding p h =
      load lib p h
      + (arrivals h p.transfer_event_queue
          + (arrivals h p.home_bridge_event_queue + arrivals h p.control_queue))

  deliver-outstanding :
      (q : QueueName) (e : Event) (p : Planner) (h : Bytes)
      → outstanding (set_queue q (queue_of q p ++ e ∷ []) p) h
        ≡ to_nat (carries lib h e) + outstanding p h
  unfolding outstanding
  deliver-outstanding transfer_events e p h =
      omega (arith, arrivals-append h p.transfer_event_queue (e ∷ []))
  deliver-outstanding home_bridge_events e p h =
      omega (arith, arrivals-append h p.home_bridge_event_queue (e ∷ []))
  deliver-outstanding control_events e p h =
      omega (arith, arrivals-append h p.control_queue (e ∷ []))

  set_queue-IsSound :
      (q : QueueName) (es : List Event) (p : Planner)
      → IsSound lib p
      → IsSound lib (set_queue q es p)
  set_queue-IsSound transfer_events es p s = record { recorder = s.recorder; tasks = s.tasks }
  set_queue-IsSound home_bridge_events es p s = record { recorder = s.recorder; tasks = s.tasks }
  set_queue-IsSound control_events es p s = record { recorder = s.recorder; tasks = s.tasks }

  set_queue-outstanding :
      (q : QueueName) (e : Event) (rest : List Event) (p : Planner) (h : Bytes)
      → queue_of q p ≡ e ∷ rest
      → outstanding (set_queue q rest p) h + to_nat (carries lib h e) ≡ outstanding p h
  unfolding outstanding
  set_queue-outstanding transfer_events e rest p h x = omega (arith, ap (arrivals h) x)
  set_queue-outstanding home_bridge_events e rest p h x = omega (arith, ap (arrivals h) x)
  set_queue-outstanding control_events e rest p h x = omega (arith, ap (arrivals h) x)

  Step-IsSound : {p p' : Planner} → Step lib p p' → IsSound lib p → IsSound lib p'
  Step-IsSound (serve q e now rest p taken returned) s =
      process_event-IsSound lib e now (set_queue q rest p) (set_queue-IsSound q rest p s)

  process_event-outstanding :
      (e : Event) (now : ℤ) (p : Planner) (h : Bytes)
      → IsSound lib p
      → outstanding (process_event lib e now p).1 h ≤ outstanding p h + to_nat (carries lib h e)
  unfolding outstanding
  process_event-outstanding e now p h s =
      let (transfers, homes, controls) = process_event_queues lib e now p s in
      omega (
        arith,
        process_event-load lib e now p h s,
        ap (arrivals h) transfers,
        ap (arrivals h) homes,
        ap (arrivals h) controls,
      )

  Step-outstanding :
      {p p' : Planner} (h : Bytes)
      → Step lib p p'
      → IsSound lib p
      → outstanding p' h ≤ outstanding p h
  Step-outstanding h (serve q e now rest p taken returned) s = omega (
    arith,
    set_queue-outstanding q e rest p h taken,
    process_event-outstanding e now (set_queue q rest p) h (set_queue-IsSound q rest p s),
  )

  module _ (minimum_balance sync_persistence_time : ℤ) where
    -- In every reachable state the recorder is well formed, and every queued task is a real
    -- transfer: of an amount other than 0, and not sent from the zero address.
    pub Reach-IsSound :
        {events : List Event} {p : Planner}
        → Reach lib (start minimum_balance sync_persistence_time) events p
        → IsSound lib p
    Reach-IsSound here = record { recorder = init-IsValid lib minimum_balance; tasks = tt }
    Reach-IsSound (deliver {p = p} q e r) = set_queue-IsSound q _ p (Reach-IsSound r)
    Reach-IsSound (round r st) = Step-IsSound st (Reach-IsSound r)

    Reach-outstanding :
        {events : List Event} {p : Planner} (h : Bytes)
        → Reach lib (start minimum_balance sync_persistence_time) events p
        → outstanding p h ≤ arrivals h events
    Reach-outstanding h here = unfold outstanding contains in omega arith
    Reach-outstanding h (deliver {p = p} q e r) =
        omega (arith, deliver-outstanding q e p h, Reach-outstanding h r)
    Reach-outstanding h (round r st) =
        omega (arith, Step-outstanding h st (Reach-IsSound r), Reach-outstanding h r)

    -- In every reachable state a transfer is in the task queue at most as often as its event was
    -- put in the queues: once, if the fetcher delivers each event once.
    pub scheduled-le-arrivals :
        {events : List Event} {p : Planner} (h : Bytes)
        → Reach lib (start minimum_balance sync_persistence_time) events p
        → count h (hashes_of lib p.confirmation_task_queue) ≤ arrivals h events
    unfolding outstanding
    scheduled-le-arrivals h r = omega (arith, Reach-outstanding h r)
