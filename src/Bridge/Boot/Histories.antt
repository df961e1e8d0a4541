-- ===== src/Bridge/Boot/Histories.antt =====
-- What must have happened before the main services run, and before the process has exited.
use trustlines_blockchain.Prelude.{
  ◌≡◌, refl, ◌⊎◌, inl, inr, ℕ, Bool, true, false, Option, none, some, is_some, List, [], ◌∷◌, ok,
  err, Option-cases, arith,
}
use trustlines_blockchain.Bridge.Setup.{is_synced}
use trustlines_blockchain.Bridge.Boot.{
  is_main, any, Boot, System, booted, Event, system_begins, home_polled, foreign_polled, joined,
  died, terminated, stopped_validating, sanity_check_failed, exit_with_message, exit_main,
  ex_software, shutdown_raw, handle_greenlet_exception, start_services, begin_system,
  wait_until_home_node_is_ready, wait_until_foreign_node_is_ready, finish_start, on_event, handle,
  run_events,
}
use trustlines_blockchain.Bridge.Boot.Order.{IsOrdered, run_events-IsOrdered}

-- The home node was seen synced, and its contracts passed the checks.
abbrev pub home_passed : Boot → Event → Bool
home_passed boot (home_polled status (ok u)) =
    is_synced boot.config.home_chain.chain.event_fetch_start_block_number status
home_passed boot (home_polled status (err x)) = false
home_passed boot system_begins = false
home_passed boot (foreign_polled status contracts) = false
home_passed boot (joined home) = false
home_passed boot (died t) = false
home_passed boot terminated = false
home_passed boot stopped_validating = false
home_passed boot sanity_check_failed = false

abbrev pub foreign_passed : Boot → Event → Bool
foreign_passed boot (foreign_polled status (ok u)) =
    is_synced boot.config.foreign_chain.chain.event_fetch_start_block_number status
foreign_passed boot (foreign_polled status (err x)) = false
foreign_passed boot system_begins = false
foreign_passed boot (home_polled status contracts) = false
foreign_passed boot (joined home) = false
foreign_passed boot (died t) = false
foreign_passed boot terminated = false
foreign_passed boot stopped_validating = false
foreign_passed boot sanity_check_failed = false

-- A signal, or the end of the account's membership.
abbrev pub asks_to_stop : Event → Bool
asks_to_stop terminated = true
asks_to_stop stopped_validating = true
asks_to_stop system_begins = false
asks_to_stop (home_polled status contracts) = false
asks_to_stop (foreign_polled status contracts) = false
asks_to_stop (joined home) = false
asks_to_stop (died t) = false
asks_to_stop sanity_check_failed = false

-- The sender refuses an event that is not a transfer to the foreign bridge.
abbrev pub refuses_transfer : Event → Bool
refuses_transfer sanity_check_failed = true
refuses_transfer terminated = false
refuses_transfer stopped_validating = false
refuses_transfer system_begins = false
refuses_transfer (home_polled status contracts) = false
refuses_transfer (foreign_polled status contracts) = false
refuses_transfer (joined home) = false
refuses_transfer (died t) = false

-- A fact about states that only an event of some kind can bring about.
happened :
    (boot : Boot) (P : System → Type 0) (cause : Event → Bool)
    → ((e : Event) (s : System) → P (handle boot e s) → P s ⊎ (cause e ≡ true))
    → (events : List Event) (s : System) → P (run_events boot events s)
    → P s ⊎ (any cause events ≡ true)
unfolding run_events any
happened boot P cause step [] s h = inl h
happened boot P cause step (e ∷ events) s h =
    elim (happened boot P cause step events (handle boot e s) h) [
      | inr later ↦ inr (ground (arith, later))
      | inl now ↦ elim (step e s now) [ inl before ↦ inl before | inr c ↦ inr (ground (arith, c)) ]
    ]

from_start : {c : Bool} → (false ≡ true) ⊎ (c ≡ true) → c ≡ true
from_start (inl h) = absurd (ground (arith, h))
from_start (inr h) = h

stopped : {c : Bool} {n : ℕ} → (◌≡◌ {A = Option ℕ} none (some n)) ⊎ (c ≡ true) → c ≡ true
stopped (inl h) = absurd (ground (arith, h))
stopped (inr h) = h

still_running : (s : System) → IsOrdered s → any is_main s.pool ≡ true → s.exit_code ≡ none
unfolding any
still_running s i h = elim (Option-cases s.exit_code) [
  | inl e ↦ e
  | inr (c, e) ↦ absurd (ground (arith, h, i.ended (rw e)))
]

module _ (boot : Boot) where
  home_step :
      (e : Event) (s : System)
      → (handle boot e s).home_ready ≡ true
      → (s.home_ready ≡ true) ⊎ (home_passed boot e ≡ true)
  unfolding handle on_event begin_system wait_until_home_node_is_ready
      wait_until_foreign_node_is_ready finish_start handle_greenlet_exception shutdown_raw exit_main
      start_services
  home_step system_begins s h = ground (arith, h)
  home_step (home_polled status (ok u)) s h = ground (arith, h)
  home_step (home_polled status (err x)) s h = ground (arith, h)
  home_step (foreign_polled status (ok u)) s h = ground (arith, h)
  home_step (foreign_polled status (err x)) s h = ground (arith, h)
  home_step (joined home) s h = ground (arith, h)
  home_step (died t) s h = ground (arith, h)
  home_step terminated s h = ground (arith, h)
  home_step stopped_validating s h = ground (arith, h)
  home_step sanity_check_failed s h = ground (arith, h)

  foreign_step :
      (e : Event) (s : System)
      → (handle boot e s).foreign_ready ≡ true
      → (s.foreign_ready ≡ true) ⊎ (foreign_passed boot e ≡ true)
  unfolding handle on_event begin_system wait_until_home_node_is_ready
      wait_until_foreign_node_is_ready finish_start handle_greenlet_exception shutdown_raw exit_main
      start_services
  foreign_step system_begins s h = ground (arith, h)
  foreign_step (home_polled status (ok u)) s h = ground (arith, h)
  foreign_step (home_polled status (err x)) s h = ground (arith, h)
  foreign_step (foreign_polled status (ok u)) s h = ground (arith, h)
  foreign_step (foreign_polled status (err x)) s h = ground (arith, h)
  foreign_step (joined home) s h = ground (arith, h)
  foreign_step (died t) s h = ground (arith, h)
  foreign_step terminated s h = ground (arith, h)
  foreign_step stopped_validating s h = ground (arith, h)
  foreign_step sanity_check_failed s h = ground (arith, h)

  -- The process has exited with 0.
  exit_step :
      (e : Event) (s : System)
      → (handle boot e s).exit_code ≡ some 0
      → (s.exit_code ≡ some 0) ⊎ (asks_to_stop e ≡ true)
  unfolding handle on_event begin_system wait_until_home_node_is_ready
      wait_until_foreign_node_is_ready finish_start handle_greenlet_exception shutdown_raw exit_main
      start_services
  exit_step system_begins s h = ground (arith, h)
  exit_step (home_polled status (ok u)) s h = ground (arith, h)
  exit_step (home_polled status (err x)) s h = ground (arith, h)
  exit_step (foreign_polled status (ok u)) s h = ground (arith, h)
  exit_step (foreign_polled status (err x)) s h = ground (arith, h)
  exit_step (joined home) s h = ground (arith, h)
  exit_step (died t) s h = ground (arith, h)
  exit_step terminated s h = ground (arith, h)
  exit_step stopped_validating s h = ground (arith, h)
  exit_step sanity_check_failed s h = ground (arith, h)

  -- The process has exited with 1.
  refused_step :
      (e : Event) (s : System)
      → (handle boot e s).exit_code ≡ some exit_with_message
      → (s.exit_code ≡ some exit_with_message) ⊎ (refuses_transfer e ≡ true)
  unfolding handle on_event begin_system wait_until_home_node_is_ready
      wait_until_foreign_node_is_ready finish_start handle_greenlet_exception shutdown_raw exit_main
      start_services
  refused_step system_begins s h = ground (arith, h)
  refused_step (home_polled status (ok u)) s h = ground (arith, h)
  refused_step (home_polled status (err x)) s h = ground (arith, h)
  refused_step (foreign_polled status (ok u)) s h = ground (arith, h)
  refused_step (foreign_polled status (err x)) s h = ground (arith, h)
  refused_step (joined home) s h = ground (arith, h)
  refused_step (died t) s h = ground (arith, h)
  refused_step terminated s h = ground (arith, h)
  refused_step stopped_validating s h = ground (arith, h)
  refused_step sanity_check_failed s h = ground (arith, h)

  -- The codes that the process can exit with.
  abbrev pub Code : System → Type 0
  Code s =
      (s.exit_code ≡ none)
      ⊎ (s.exit_code ≡ some 0)
      ⊎ (s.exit_code ≡ some exit_with_message)
      ⊎ (s.exit_code ≡ some ex_software)

  code_step : (e : Event) (s : System) → Code s → Code (handle boot e s)
  unfolding handle on_event begin_system wait_until_home_node_is_ready
      wait_until_foreign_node_is_ready finish_start handle_greenlet_exception shutdown_raw exit_main
      start_services
  code_step system_begins s h = ground (arith, h)
  code_step (home_polled status (ok u)) s h = ground (arith, h)
  code_step (home_polled status (err x)) s h = ground (arith, h)
  code_step (foreign_polled status (ok u)) s h = ground (arith, h)
  code_step (foreign_polled status (err x)) s h = ground (arith, h)
  code_step (joined home) s h = ground (arith, h)
  code_step (died t) s h = ground (arith, h)
  code_step terminated s h = ground (arith, h)
  code_step stopped_validating s h = ground (arith, h)
  code_step sanity_check_failed s h = ground (arith, h)

  codes : (events : List Event) (s : System) → Code s → Code (run_events boot events s)
  unfolding run_events
  codes [] s h = h
  codes (e ∷ events) s h = codes events (handle boot e s) (code_step e s h)

  booted-IsOrdered : IsOrdered booted
  unfolding any
  booted-IsOrdered = record {
    main_ready = λ h. absurd (ground (arith, h));
    ended = λ h. absurd (ground (arith, h));
  }

  -- After any sequence of events from the start of the program: where a main service runs, the process
  -- has not exited, and before it each of the two nodes was seen synced up to its start block while its
  -- contracts passed the checks.
  pub start_order :
      (events : List Event)
      → any is_main (run_events boot events booted).pool ≡ true
      → (any (home_passed boot) events ≡ true)
        × (any (foreign_passed boot) events ≡ true)
        × ((run_events boot events booted).exit_code ≡ none)
  unfolding any
  start_order events runs =
      let s = run_events boot events booted in
      let ordered = run_events-IsOrdered boot events booted booted-IsOrdered in
      let (home, foreign) = ordered.main_ready runs in
      (
        from_start (
            happened boot (λ t. t.home_ready ≡ true) (home_passed boot) home_step events booted
              home),
        from_start (
            happened boot (λ t. t.foreign_ready ≡ true) (foreign_passed boot) foreign_step events
              booted foreign),
        still_running s ordered runs,
      )

  -- After any sequence of events the process runs on, or has exited with 0, with EX_SOFTWARE or, by a
  -- SystemExit with a message, with 1; where it has exited no greenlet is left. Where it has exited with 0
  -- there was a signal to stop or the membership of the account ended, and where it has exited with 1 the
  -- sender's sanity check failed.
  pub exit_codes :
      (events : List Event)
      → Code (run_events boot events booted)
        × (is_some (run_events boot events booted).exit_code ≡ true
            → (run_events boot events booted).pool ≡ [])
        × ((run_events boot events booted).exit_code ≡ some 0 → any asks_to_stop events ≡ true)
        × ((run_events boot events booted).exit_code ≡ some 1 → any refuses_transfer events ≡ true)
  exit_codes events = (
    codes events booted (inl refl),
    (run_events-IsOrdered boot events booted booted-IsOrdered).ended,
    λ h. stopped (happened boot (λ t. t.exit_code ≡ some 0) asks_to_stop exit_step events booted h),
    λ h.
        stopped
          (happened boot (λ t. t.exit_code ≡ some 1) refuses_transfer refused_step events booted h),
  )
