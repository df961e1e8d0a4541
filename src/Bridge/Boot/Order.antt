-- ===== src/Bridge/Boot/Order.antt =====
-- The order of the start, and the exit codes, over any sequence of events.
use trustlines_blockchain.Prelude.{
  ◌≡◌, refl, inl, inr, ℕ, String, Bool, true, false, ◌&&◌, ◌||◌, Option, none, some, is_some, List,
  [], ◌∷◌, ◌++◌, map, Result, ok, err, PyError, Bool-cases, if◌then◌else◌, arith,
}
use trustlines_blockchain.Prelude.Classes.{string_eq}
use trustlines_blockchain.Bridge.NodeStatus.{NodeStatus}
use trustlines_blockchain.Bridge.Setup.{make_webservice, HomeAnswers}
use trustlines_blockchain.Bridge.Boot.{
  Task, start_system, webservice, home_wait_ready, foreign_wait_ready, main_service, is_main, any,
  leave, make_main_services, Boot, System, Event, system_begins, home_polled, foreign_polled,
  joined, died, terminated, stopped_validating, sanity_check_failed, exit_main, ex_software,
  shutdown_raw, handle_greenlet_exception, start_services, begin_system,
  wait_until_home_node_is_ready, wait_until_foreign_node_is_ready, finish_start, on_event, handle,
  run_events,
}

any-append :
    {A : Type 0} (p : A → Bool) (xs ys : List A) → any p (xs ++ ys) ≡ (any p xs || any p ys)
unfolding any
any-append p [] ys = refl
any-append p (x ∷ xs) ys = ground (arith, any-append p xs ys)

any-leave :
    (t : Task) (pool : List Task) → any is_main (leave t pool) ≡ true → any is_main pool ≡ true
unfolding any leave
any-leave t [] h = h
any-leave t (u ∷ pool) h = ground (arith, h, any-leave t pool)

-- Main services run only when both nodes were found ready, and once the process has exited nothing runs.
pub record IsOrdered (s : System) : Type 0 where
  pub main_ready : any is_main s.pool ≡ true → (s.home_ready ≡ true) × (s.foreign_ready ≡ true)
  pub ended : is_some s.exit_code ≡ true → s.pool ≡ []

either_main :
    {P : Type 0} (xs ys : List Task)
    → any is_main (xs ++ ys) ≡ true
    → (any is_main xs ≡ true → P)
    → (any is_main ys ≡ true → P)
    → P
either_main xs ys h f g = elim (Bool-cases (any is_main xs)) [
  | inl e ↦ f e
  | inr e ↦ g (ground (arith, h, e, any-append is_main xs ys))
]

no_waits : any is_main (home_wait_ready ∷ foreign_wait_ready ∷ []) ≡ false
unfolding any
no_waits = refl

no_web : any is_main (webservice ∷ home_wait_ready ∷ foreign_wait_ready ∷ []) ≡ false
unfolding any
no_web = refl

exit_main-IsOrdered : (s : System) → IsOrdered (exit_main s)
unfolding exit_main any
exit_main-IsOrdered s = record { main_ready = λ h. absurd (ground (arith, h)); ended = λ h. refl }

module _ (boot : Boot) where
  shutdown_raw-IsOrdered : (code : ℕ) (s : System) → IsOrdered (shutdown_raw boot code s)
  unfolding shutdown_raw any
  shutdown_raw-IsOrdered code s = record {
    main_ready = λ h. absurd (ground (arith, h));
    ended = λ h. refl;
  }

  if-IsOrdered :
      (b : Bool) (x y : System)
      → (b ≡ true → IsOrdered x)
      → IsOrdered y
      → IsOrdered (if b then x else y)
  if-IsOrdered true x y h k = h refl
  if-IsOrdered false x y h k = k

  -- Services that are not main ones are started.
  start_services-IsOrdered :
      (services : List Task) (s : System)
      → is_some s.exit_code ≡ false
      → (any is_main services ≡ true → (s.home_ready ≡ true) × (s.foreign_ready ≡ true))
      → IsOrdered s
      → IsOrdered (start_services services s)
  unfolding start_services
  start_services-IsOrdered services s runs may i = record {
    main_ready = λ h. either_main s.pool services h i.main_ready may;
    ended = λ h. absurd (ground (arith, h, runs));
  }

  begin_system-IsOrdered :
      (s : System) → is_some s.exit_code ≡ false → IsOrdered s → IsOrdered (begin_system boot s)
  unfolding begin_system handle_greenlet_exception
  begin_system-IsOrdered s runs i = go (make_webservice boot.config.webservice)
    where
      started :
          (services : List Task)
          → any is_main services ≡ false
          → IsOrdered (record (start_services services s) { waiting = true })
      started services none_main =
          let j =
            start_services-IsOrdered services s runs (λ h. absurd (ground (arith, h, none_main)))
              i in
          record { main_ready = j.main_ready; ended = j.ended }

      go :
          (r : Result (Option (String × ℕ)))
          → IsOrdered (elim r as (λ _. System) [
            | err x ↦ shutdown_raw boot ex_software s
            | ok served ↦
                record (start_services
                  (elim served [ none ↦ [] | some at ↦ webservice ∷ [] ]
                    ++ (home_wait_ready ∷ foreign_wait_ready ∷ []))
                  s) { waiting = true }
          ])
      go (err x) = shutdown_raw-IsOrdered ex_software s
      go (ok none) = started (home_wait_ready ∷ foreign_wait_ready ∷ []) no_waits
      go (ok (some at)) = started (webservice ∷ home_wait_ready ∷ foreign_wait_ready ∷ []) no_web

  left-IsOrdered :
      (t : Task) (home foreign waiting : Bool) (s : System)
      → is_some s.exit_code ≡ false
      → IsOrdered s
      → (s.home_ready ≡ true → home ≡ true)
      → (s.foreign_ready ≡ true → foreign ≡ true)
      → IsOrdered (record s {
        pool = leave t s.pool;
        waiting = waiting;
        home_ready = home;
        foreign_ready = foreign;
      })
  left-IsOrdered t home foreign waiting s runs i more_home more_foreign = record {
    main_ready =
        λ h. let (a, b) = i.main_ready (any-leave t s.pool h) in (more_home a, more_foreign b);
    ended = λ h. absurd (ground (arith, h, runs));
  }

  home_ok :
      (status : NodeStatus) (s : System)
      → is_some s.exit_code ≡ false
      → IsOrdered s
      → IsOrdered (wait_until_home_node_is_ready boot status (ok tt) s)
  unfolding wait_until_home_node_is_ready
  home_ok status s runs i =
      if-IsOrdered _ _ _
        (λ _.
          left-IsOrdered home_wait_ready true s.foreign_ready s.waiting s runs i (λ h. refl)
            (λ h. h))
        i

  home_refused :
      (status : NodeStatus) (x : PyError) (s : System)
      → IsOrdered s
      → IsOrdered (wait_until_home_node_is_ready boot status (err x) s)
  unfolding wait_until_home_node_is_ready handle_greenlet_exception
  home_refused status x s i = if-IsOrdered _ _ _ (λ _. shutdown_raw-IsOrdered ex_software s) i

  foreign_ok :
      (status : NodeStatus) (s : System)
      → is_some s.exit_code ≡ false
      → IsOrdered s
      → IsOrdered (wait_until_foreign_node_is_ready boot status (ok tt) s)
  unfolding wait_until_foreign_node_is_ready
  foreign_ok status s runs i =
      if-IsOrdered _ _ _
        (λ _.
          left-IsOrdered foreign_wait_ready s.home_ready true s.waiting s runs i (λ h. h)
            (λ h. refl))
        i

  foreign_refused :
      (status : NodeStatus) (x : PyError) (s : System)
      → IsOrdered s
      → IsOrdered (wait_until_foreign_node_is_ready boot status (err x) s)
  unfolding wait_until_foreign_node_is_ready handle_greenlet_exception
  foreign_refused status x s i = if-IsOrdered _ _ _ (λ _. shutdown_raw-IsOrdered ex_software s) i

  finish_start-IsOrdered :
      (home : HomeAnswers) (s : System)
      → is_some s.exit_code ≡ false
      → (s.waiting && (s.home_ready && s.foreign_ready)) ≡ true
      → IsOrdered s
      → IsOrdered (finish_start boot home s)
  unfolding finish_start handle_greenlet_exception
  finish_start-IsOrdered home s runs both i =
      go (make_main_services boot.lib boot.files home boot.config)
    where
      go :
          (r : Result (List String))
          → IsOrdered (elim r as (λ _. System) [
            | err x ↦ shutdown_raw boot ex_software s
            | ok names ↦
                start_services
                  (map main_service names)
                  (record s { pool = leave start_system s.pool; waiting = false })
          ])
      go (err x) = shutdown_raw-IsOrdered ex_software s
      go (ok names) =
          start_services-IsOrdered (map main_service names)
            (record s { pool = leave start_system s.pool; waiting = false }) runs
            (λ h. (ground (arith, both), ground (arith, both)))
            (left-IsOrdered start_system s.home_ready s.foreign_ready false s runs i (λ h. h)
              (λ h. h))

  on_event-IsOrdered :
      (e : Event) (s : System)
      → is_some s.exit_code ≡ false
      → IsOrdered s
      → IsOrdered (on_event boot e s)
  unfolding on_event handle_greenlet_exception
  on_event-IsOrdered system_begins s runs i =
      if-IsOrdered _ _ _ (λ _. begin_system-IsOrdered s runs i) i
  on_event-IsOrdered (home_polled status (ok u)) s runs i =
      if-IsOrdered _ _ _ (λ _. home_ok status s runs i) i
  on_event-IsOrdered (home_polled status (err x)) s runs i =
      if-IsOrdered _ _ _ (λ _. home_refused status x s i) i
  on_event-IsOrdered (foreign_polled status (ok u)) s runs i =
      if-IsOrdered _ _ _ (λ _. foreign_ok status s runs i) i
  on_event-IsOrdered (foreign_polled status (err x)) s runs i =
      if-IsOrdered _ _ _ (λ _. foreign_refused status x s i) i
  on_event-IsOrdered (joined home) s runs i =
      if-IsOrdered _ _ _ (λ both. finish_start-IsOrdered home s runs both i) i
  on_event-IsOrdered (died t) s runs i =
      if-IsOrdered _ _ _ (λ _. shutdown_raw-IsOrdered ex_software s) i
  on_event-IsOrdered terminated s runs i = shutdown_raw-IsOrdered 0 s
  on_event-IsOrdered stopped_validating s runs i =
      if-IsOrdered _ _ _ (λ _. shutdown_raw-IsOrdered 0 s) i
  on_event-IsOrdered sanity_check_failed s runs i =
      if-IsOrdered _ _ _ (λ _. exit_main-IsOrdered s) i

  handle-IsOrdered : (e : Event) (s : System) → IsOrdered s → IsOrdered (handle boot e s)
  unfolding handle
  handle-IsOrdered e s i = elim (Bool-cases (is_some s.exit_code)) [
    | inl over ↦ rw over i
    | inr runs ↦ rw runs (on_event-IsOrdered e s runs i)
  ]

  pub run_events-IsOrdered :
      (events : List Event) (s : System) → IsOrdered s → IsOrdered (run_events boot events s)
  unfolding run_events
  run_events-IsOrdered [] s i = i
  run_events-IsOrdered (e ∷ events) s i =
      run_events-IsOrdered events (handle boot e s) (handle-IsOrdered e s i)
