-- ===== src/Quickstart/Docker/Working.antt =====
-- Where docker works, `update_and_start` goes through to the end.
use trustlines_blockchain.Prelude.{
  ◌≡◌, refl, sym, ap, ◌∙◌, ℕ, ◌<◌, String, Bool, true, false, Option, List, [], ◌∷◌, ◌++◌, Result,
  ok, err, Action, arith,
}
use mathlib.Core.Path.{subst}
use mathlib.Core.List.{append-nil}
use trustlines_blockchain.Prelude.Loops.{wait_until-total}
use trustlines_blockchain.Quickstart.Session.{Files, Command, Session, on_files}
use trustlines_blockchain.Quickstart.Frame.{in_turn}
use trustlines_blockchain.Quickstart.Env.{env_variables, runtime_env_variables}
use trustlines_blockchain.Quickstart.Docker.{
  DockerLib, run_command, remove_containers, wait_for_chain_spec, compose, legacy_container_names,
  main_docker_service_names, start_services, as_click_exception, click_exception_of, start_project,
  update_and_start, get_optional_docker_service_names, does_docker_compose_file_exist,
}
use trustlines_blockchain.Quickstart.Docker.Plan.{plan}
use trustlines_blockchain.Quickstart.Docker.Started.{
  update_and_start-Follows, tail, env_variables-total,
}

-- An action that never raises, written like the code.
record Working : Type 0 where
  act : Action Session (Unit {0})
  works : (s : Session) → (act s).0 ≡ ok tt

works_on :
    (r : Result (Unit {0}) × Session) (k : Action Session (Unit {0}))
    → r.0 ≡ ok tt
    → ((t : Session) → (k t).0 ≡ ok tt)
    → (elim r.0 as (λ _. Result (Unit {0}) × Session) [ ok a ↦ k r.1 | err e ↦ (err e, r.1) ]).0
      ≡ ok tt
works_on (ok u, s') k h then_k = then_k s'
works_on (err x, s') k h then_k = absurd (ground (arith, h))

whole : (run left p : List Command) → run ++ left ≡ p → left ≡ [] → run ≡ p
whole run left p h e = sym (append-nil run) ∙ rw e at h

infixr 5 ◌>>◌
abbrev ◌>>◌ : Working → Working → Working
m >> k = record {
  act = in_turn m.act (λ _. k.act);
  works = λ s. works_on (m.act s) k.act (m.works s) k.works;
}

module _ (lib : DockerLib)
    (composes : (before : List Command) (variables : List (String × String)) (f : Files)
        (args : List String)
      → lib.exit_code before (compose lib variables f args) ≡ 0)
    (round : ℕ) (in_time : round < lib.patience) (spec : lib.chain_spec round ≡ true) where
  unchecked-works : (command : Command) (s : Session) → (run_command lib false command s).0 ≡ ok tt
  unfolding run_command
  unchecked-works command s = refl

  abbrev unchecked : Command → Working
  unchecked command = record {
    act = run_command lib false command;
    works = unchecked-works command;
  }

  checked-works :
      (variables : List (String × String)) (f : Files) (args : List String) (s : Session)
      → (run_command lib true (compose lib variables f args) s).0 ≡ ok tt
  unfolding run_command
  checked-works variables f args s = ground (arith, composes s.commands variables f args)

  abbrev checked : List (String × String) → Files → List String → Working
  checked variables f args = record {
    act = run_command lib true (compose lib variables f args);
    works = checked-works variables f args;
  }

  removing-works :
      (variables : List (String × String)) (names : List String) (s : Session)
      → (remove_containers lib variables names s).0 ≡ ok tt
  unfolding remove_containers
  removing-works variables [] s = refl
  removing-works variables (name ∷ names) s =
      (unchecked (record { args = "docker" ∷ "stop" ∷ name ∷ []; variables = variables })
          >> unchecked (record { args = "docker" ∷ "rm" ∷ name ∷ []; variables = variables })
          >> record {
            act = remove_containers lib variables names;
            works = removing-works variables names;
          }).works
        s

  waiting-works : (s : Session) → (wait_for_chain_spec lib s).0 ≡ ok tt
  unfolding wait_for_chain_spec
  waiting-works s =
      let (t, found, _) =
        wait_until-total lib.patience lib.chain_spec 0 round (omega arith) (omega arith) spec in
      ground (arith, found)

  start_services-works :
      (variables : List (String × String)) (optional : List String) (f : Files) (s : Session)
      → (start_services lib variables optional f s).0 ≡ ok tt
  unfolding start_services
  start_services-works variables optional f =
      (checked variables f ("down" ∷ [])
        >> record {
          act = remove_containers lib variables legacy_container_names;
          works = removing-works variables legacy_container_names;
        }
        >> checked variables f
            ("pull" ∷ (main_docker_service_names ++ (optional ++ "tlbc-monitor" ∷ [])))
        >> checked variables f ("up" ∷ "--no-start" ∷ [])
        >> checked variables f ("start" ∷ (main_docker_service_names ++ optional))
        >> record { act = wait_for_chain_spec lib; works = waiting-works }
        >> checked variables f ("start" ∷ "tlbc-monitor" ∷ [])).works

  tail-works :
      (host_base_dir : Option String) (start_foreign_node : Bool) (f : Files)
      (variables : List (String × String)) (s : Session)
      → (tail lib host_base_dir start_foreign_node f (ok variables) s).0 ≡ ok tt
  unfolding on_files as_click_exception click_exception_of
  tail-works host_base_dir start_foreign_node f variables s = rw (
      start_services-works (runtime_env_variables host_base_dir variables)
        (get_optional_docker_service_names f start_foreign_node) f (record s { files = _ }))

  update_and_start-works :
      (host_base_dir : Option String) (start_foreign_node : Bool) (project_name : String)
      (s : Session)
      → does_docker_compose_file_exist s.files ≡ true
      → (update_and_start lib host_base_dir start_foreign_node project_name s).0 ≡ ok tt
  unfolding update_and_start start_project
  update_and_start-works host_base_dir start_foreign_node project_name s exists =
      let (variables, e) = env_variables-total project_name s.files in
      rw exists (
        subst (λ x. (tail lib host_base_dir start_foreign_node s.files x s).0 ≡ ok tt) (sym e)
          (tail-works host_base_dir start_foreign_node s.files variables s))

  -- If each call of docker-compose exits with 0 and the chain specification is there before the user
  -- loses patience, then, with a compose file, nothing is raised, whatever the commands that stop and
  -- remove old containers come to, and the commands run are those of the plan.
  pub update_and_start-runs_plan :
      (host_base_dir : Option String) (start_foreign_node : Bool) (project_name : String)
      (s : Session)
      → does_docker_compose_file_exist s.files ≡ true
      → ((update_and_start lib host_base_dir start_foreign_node project_name s).0 ≡ ok tt)
        × (variables : List (String × String)) × (env_variables project_name s.files ≡ ok variables)
        × ((update_and_start lib host_base_dir start_foreign_node project_name s).1.commands
            ≡ s.commands
              ++ plan lib
                  (runtime_env_variables host_base_dir variables)
                  (get_optional_docker_service_names s.files start_foreign_node)
                  s.files)
  update_and_start-runs_plan host_base_dir start_foreign_node project_name s exists =
      let (variables, found, h) =
        update_and_start-Follows lib host_base_dir start_foreign_node project_name s exists in
      let done = update_and_start-works host_base_dir start_foreign_node project_name s exists in
      (
        done,
        variables,
        found,
        h.recorded
            ∙ ap (λ (c : List Command). s.commands ++ c)
                (whole h.run h.left _ h.in_order (h.all_run done)),
      )
