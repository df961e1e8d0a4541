-- ===== src/Bridge/Boot/Starts.antt =====
-- The start goes through.
use trustlines_blockchain.Prelude.{
  ◌≡◌, ℕ, String, Bool, true, false, Option, none, some, List, [], ◌∷◌, ◌++◌, map, ok, arith,
}
use trustlines_blockchain.Prelude.Classes.{string_eq}
use trustlines_blockchain.Bridge.NodeStatus.{NodeStatus}
use trustlines_blockchain.Bridge.Setup.{is_synced, make_webservice, HomeAnswers}
use trustlines_blockchain.Bridge.Boot.{
  Task, webservice, main_service, any, is_running, leave, make_main_services, Boot, booted, Event,
  system_begins, home_polled, foreign_polled, joined, start_services, begin_system,
  wait_until_home_node_is_ready, wait_until_foreign_node_is_ready, finish_start, on_event, handle,
  run_events,
}

abbrev pub webservice_tasks : Option (String × ℕ) → List Task
webservice_tasks none = []
webservice_tasks (some at) = webservice ∷ []

-- The two nodes in either order.
abbrev pub polls : Bool → NodeStatus → NodeStatus → List Event
polls true home foreign = home_polled home (ok tt) ∷ foreign_polled foreign (ok tt) ∷ []
polls false home foreign = foreign_polled foreign (ok tt) ∷ home_polled home (ok tt) ∷ []

module _ (boot : Boot) where
  -- Where the webservice and the main services are made without an exception, and each node is seen
  -- synced up to its start block and passes the checks, in either order, the start ends with the
  -- webservice, if it is enabled, and the main services running, and nothing else.
  pub start_lem :
      (home_first : Bool) (home foreign : NodeStatus) (answers : HomeAnswers)
      (served : Option (String × ℕ)) (names : List String)
      → make_webservice boot.config.webservice ≡ ok served
      → is_synced boot.config.home_chain.chain.event_fetch_start_block_number home ≡ true
      → is_synced boot.config.foreign_chain.chain.event_fetch_start_block_number foreign ≡ true
      → make_main_services boot.lib boot.files answers boot.config ≡ ok names
      → run_events boot
          (system_begins ∷ (polls home_first home foreign ++ joined answers ∷ []))
          booted
        ≡ record {
          pool = webservice_tasks served ++ map main_service names;
          waiting = false;
          home_ready = true;
          foreign_ready = true;
          exit_code = none;
        }
  unfolding run_events handle on_event is_running any leave start_services begin_system
      wait_until_home_node_is_ready wait_until_foreign_node_is_ready finish_start
  start_lem true home foreign answers none names w h f m = ground (arith, w, h, f, m)
  start_lem true home foreign answers (some at) names w h f m = ground (arith, w, h, f, m)
  start_lem false home foreign answers none names w h f m = ground (arith, w, h, f, m)
  start_lem false home foreign answers (some at) names w h f m = ground (arith, w, h, f, m)
