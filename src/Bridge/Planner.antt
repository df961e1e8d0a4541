-- ===== src/Bridge/Planner.antt =====
-- bridge/src/bridge/confirmation_task_planner.py, `class ConfirmationTaskPlanner`: three greenlets
-- take events from their queues into one recorder, and queue what has to be confirmed.
-- A greenlet switches only where it waits for its queue, so the handling of one event is one step.
pub mod Rounds
pub mod Reachable
use trustlines_blockchain.Prelude.{
  ◌≡◌, Bool, true, false, ◌&&◌, List, [], ◌∷◌, ◌++◌, ok, err, Action, ◌>>=◌, ◌>>◌, pure, modify,
  if◌then◌else◌,
}
use trustlines_blockchain.Prelude.Int.{ℤ, ◌-ℤ◌, ltb_ℤ}
use trustlines_blockchain.Prelude.Classes.{◌==◌}
use trustlines_blockchain.Bridge.Eth.{EthLib}
use trustlines_blockchain.Bridge.Events.{
  Event, fetcher_reached_head, Web3Event, FetcherReachedHeadEvent, ChainRole, chain_role_eq,
}
use trustlines_blockchain.Bridge.Recorder.{TransferRecorder, apply_event, pull_transfers_to_confirm}

-- The queues are gevent's, without a bound: `put` never waits.
pub record Planner : Type 0 where
  pub recorder : TransferRecorder
  pub sync_persistence_time : ℤ
  pub control_queue : List Event
  pub transfer_event_queue : List Event
  pub home_bridge_event_queue : List Event
  pub confirmation_task_queue : List Web3Event

-- The three services of `__init__`, each named for its queue.
pub data QueueName : Type 0 where
  transfer_events home_bridge_events control_events : QueueName

abbrev pub queue_of : QueueName → Planner → List Event
queue_of transfer_events p = p.transfer_event_queue
queue_of home_bridge_events p = p.home_bridge_event_queue
queue_of control_events p = p.control_queue

abbrev pub set_queue : QueueName → List Event → Planner → Planner
set_queue transfer_events q p = record p { transfer_event_queue = q }
set_queue home_bridge_events q p = record p { home_bridge_event_queue = q }
set_queue control_events q p = record p { control_queue = q }

-- A method of the recorder, called on the planner's.
unfoldable pub on_recorder : {A : Type 0} → Action TransferRecorder A → Action Planner A
on_recorder m p = let (result, r) = m p.recorder in (result, record p { recorder = r })

unfoldable pub put_all : List Web3Event → Planner → Planner
put_all tasks p = record p { confirmation_task_queue = p.confirmation_task_queue ++ tasks }

unfoldable pub check_for_confirmation_tasks : Action Planner (Unit {0})
check_for_confirmation_tasks = do
  tasks ← on_recorder pull_transfers_to_confirm
  modify (put_all tasks)

-- A recent report that the home bridge is in sync; `now` is `time.time()`.
unfoldable pub starts_check : Planner → Event → ℤ → Bool
starts_check p (fetcher_reached_head e) now =
    e.chain_role == ChainRole.home && ltb_ℤ (now -ℤ e.timestamp) p.sync_persistence_time
starts_check p _ now = false

module _ (lib : EthLib) where
  -- One round of `process_events_from_queue`, after `queue.get()`.
  unfoldable pub process_event : Event → ℤ → Action Planner (Unit {0})
  process_event event now = do
    on_recorder (apply_event lib event)
    λ p. if starts_check p event now then check_for_confirmation_tasks p else (ok tt, p)

  -- What the other services and the three loops do to the planner; a round that raises ends the
  -- program, so only those that return are steps. `Reach` lists the events that were put.
  pub data Step : Planner → Planner → Type 0 where
    serve :
        (q : QueueName) (event : Event) (now : ℤ) (rest : List Event) (p : Planner)
        → queue_of q p ≡ event ∷ rest
        → (process_event event now (set_queue q rest p)).0 ≡ ok tt
        → Step p (process_event event now (set_queue q rest p)).1

  pub data Reach (start : Planner) : List Event → Planner → Type 0 where
    here : Reach start [] start
    deliver :
        {events : List Event} {p : Planner} (q : QueueName) (event : Event)
        → Reach start events p
        → Reach start (event ∷ events) (set_queue q (queue_of q p ++ event ∷ []) p)
    round :
        {events : List Event} {p p' : Planner}
        → Reach start events p
        → Step p p'
        → Reach start events p'
