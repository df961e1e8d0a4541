-- ===== src/Quickstart/Docker/Plan.antt =====
-- Which commands `update_and_start` runs, and when it goes well.
use trustlines_blockchain.Prelude.{
  ◌≡◌, refl, sym, ap, ◌∙◌, String, Bool, true, false, List, [], ◌∷◌, ◌++◌, Result, ok, err, Action,
  arith,
}
use mathlib.Core.List.{append_assoc, append-nil}
use trustlines_blockchain.Quickstart.Session.{Files, Command, Session}
use trustlines_blockchain.Quickstart.Frame.{in_turn}
use trustlines_blockchain.Quickstart.Docker.{
  DockerLib, run_command, remove_containers, wait_for_chain_spec, compose, legacy_container_names,
  main_docker_service_names, start_services,
}

-- The commands that an action runs are the first ones of a plan, and all of it if nothing is raised.
pub record Follows (plan : List Command) (s : Session) (r : Result (Unit {0}) × Session)
    : Type 0 where
  pub run : List Command
  pub left : List Command
  pub in_order : run ++ left ≡ plan
  pub recorded : r.1.commands ≡ s.commands ++ run
  pub all_run : r.0 ≡ ok tt → left ≡ []

pub in_turn-Follows :
    (p q : List Command) (r : Result (Unit {0}) × Session) (k : Action Session (Unit {0}))
    (s : Session)
    → Follows p s r
    → ((t : Session) → Follows q t (k t))
    → Follows
        (p ++ q)
        s
        (elim r.0 as (λ _. Result (Unit {0}) × Session) [ ok a ↦ k r.1 | err e ↦ (err e, r.1) ])
in_turn-Follows p q (ok u, s') k s first then_k =
    let second = then_k s' in
    let whole : first.run ≡ p =
      sym (append-nil first.run) ∙ rw (first.all_run refl) at first.in_order in
    record {
      run = first.run ++ second.run;
      left = second.left;
      in_order = append_assoc first.run second.run second.left ∙ rw (second.in_order, whole);
      recorded =
          second.recorded
          ∙ ap (λ (c : List Command). c ++ second.run) first.recorded
          ∙ append_assoc s.commands first.run second.run;
      all_run = second.all_run;
    }
in_turn-Follows p q (err x, s') k s first then_k = record {
  run = first.run;
  left = first.left ++ q;
  in_order = sym (append_assoc first.run first.left q) ∙ rw first.in_order;
  recorded = first.recorded;
  all_run = λ h. absurd (ground (arith, h));
}

-- Such an action with its plan, written like the code.
pub record Following (plan : List Command) : Type 0 where
  pub act : Action Session (Unit {0})
  pub follows : (s : Session) → Follows plan s (act s)

infixr 5 ◌>>◌
abbrev pub ◌>>◌ : {p q : List Command} → Following p → Following q → Following (p ++ q)
◌>>◌ {p} {q} m k = record {
  act = in_turn m.act (λ _. k.act);
  follows = λ s. in_turn-Follows p q (m.act s) k.act s (m.follows s) k.follows;
}

module _ (lib : DockerLib) where
  run_command-Follows :
      (check : Bool) (command : Command) (s : Session)
      → Follows (command ∷ []) s (run_command lib check command s)
  unfolding run_command
  run_command-Follows check command s = record {
    run = command ∷ [];
    left = [];
    in_order = refl;
    recorded = ground arith;
    all_run = λ h. refl;
  }

  abbrev one : Bool → (command : Command) → Following (command ∷ [])
  one check command = record {
    act = run_command lib check command;
    follows = run_command-Follows check command;
  }

  -- Stop and remove, container by container.
  pub removals : List (String × String) → List String → List Command
  removals variables [] = []
  removals variables (name ∷ names) =
      record { args = "docker" ∷ "stop" ∷ name ∷ []; variables = variables }
      ∷ record { args = "docker" ∷ "rm" ∷ name ∷ []; variables = variables }
      ∷ removals variables names

  abbrev rest_of :
      (variables : List (String × String)) (names : List String)
      → ((s : Session)
          → Follows (removals variables names) s (remove_containers lib variables names s))
      → Following (removals variables names)
  rest_of variables names h = record { act = remove_containers lib variables names; follows = h }

  remove_containers-Follows :
      (variables : List (String × String)) (names : List String) (s : Session)
      → Follows (removals variables names) s (remove_containers lib variables names s)
  unfolding remove_containers removals
  remove_containers-Follows variables [] s = record {
    run = [];
    left = [];
    in_order = refl;
    recorded = sym (append-nil s.commands);
    all_run = λ h. refl;
  }
  remove_containers-Follows variables (name ∷ names) s =
      (one false (record { args = "docker" ∷ "stop" ∷ name ∷ []; variables = variables })
          >> one false (record { args = "docker" ∷ "rm" ∷ name ∷ []; variables = variables })
          >> rest_of variables names (remove_containers-Follows variables names)).follows
        s

  wait_for_chain_spec-Follows : (s : Session) → Follows [] s (wait_for_chain_spec lib s)
  unfolding wait_for_chain_spec
  wait_for_chain_spec-Follows s = record {
    run = [];
    left = [];
    in_order = refl;
    recorded = ground (arith, append-nil s.commands);
    all_run = λ h. refl;
  }

  abbrev waiting : Following []
  waiting = record { act = wait_for_chain_spec lib; follows = wait_for_chain_spec-Follows }

  -- The plan: shut down what runs, remove the containers of earlier versions, pull, create and start
  -- the services, and start the monitor, once the chain specification is there.
  unfoldable pub plan : List (String × String) → List String → Files → List Command
  plan variables optional f =
      compose lib variables f ("down" ∷ [])
      ∷ (removals variables legacy_container_names
          ++ (compose lib variables f
                ("pull" ∷ (main_docker_service_names ++ (optional ++ "tlbc-monitor" ∷ [])))
              ∷ compose lib variables f ("up" ∷ "--no-start" ∷ [])
              ∷ compose lib variables f ("start" ∷ (main_docker_service_names ++ optional))
              ∷ compose lib variables f ("start" ∷ "tlbc-monitor" ∷ [])
              ∷ []))

  pub start_services-Follows :
      (variables : List (String × String)) (optional : List String) (f : Files) (s : Session)
      → Follows (plan variables optional f) s (start_services lib variables optional f s)
  unfolding start_services plan
  start_services-Follows variables optional f =
      (one true (compose lib variables f ("down" ∷ []))
        >> record {
          act = remove_containers lib variables legacy_container_names;
          follows = remove_containers-Follows variables legacy_container_names;
        }
        >> one true (
            compose lib variables f
              ("pull" ∷ (main_docker_service_names ++ (optional ++ "tlbc-monitor" ∷ []))))
        >> one true (compose lib variables f ("up" ∷ "--no-start" ∷ []))
        >> one true (compose lib variables f ("start" ∷ (main_docker_service_names ++ optional)))
        >> waiting
        >> one true (compose lib variables f ("start" ∷ "tlbc-monitor" ∷ []))).follows
