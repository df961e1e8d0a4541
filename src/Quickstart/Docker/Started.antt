-- ===== src/Quickstart/Docker/Started.antt =====
-- What `update_and_start` does as a whole: the variables that it hands over, and the commands.
use trustlines_blockchain.Prelude.{
  ◌≡◌, refl, sym, String, Bool, true, ◌⊎◌, inl, inr, Option, none, some, List, [], ◌∷◌, Result, ok,
  err, called_process_error, Action, ◌>>=◌, ◌>>◌, lift, Option-cases, arith,
}
use mathlib.Core.Path.{subst}
use trustlines_blockchain.Quickstart.Session.{
  Files, Command, Session, on_files, is_validator_account_prepared,
}
use trustlines_blockchain.Quickstart.Account.{get_validator_address, get_author_address}
use trustlines_blockchain.Quickstart.Env.{
  validator_variables, node_variables, env_variables, runtime_env_variables,
}
use trustlines_blockchain.Quickstart.Docker.{
  DockerLib, start_services, as_click_exception, click_exception_of, write_env, start_project,
  update_and_start, get_optional_docker_service_names, does_docker_compose_file_exist,
}
use trustlines_blockchain.Quickstart.Docker.Plan.{Follows, plan, start_services-Follows}

-- The author's address of a validator, which is that of the account unless there is another.
abbrev pub author_or : Option String → String → String
author_or none address = address
author_or (some author) address = author

-- The variables are always found: a node with an address is a validator with this address, and any
-- other is an observer.
pub env_variables_lem :
    (project_name : String) (f : Files)
    → ((address : String) × (f.address ≡ some address)
        × (env_variables project_name f
            ≡ ok (validator_variables project_name address (author_or f.author_address address))))
      ⊎ ((f.address ≡ none)
          × (env_variables project_name f
              ≡ ok (("COMPOSE_PROJECT_NAME", project_name) ∷ ("ROLE", "observer") ∷ [])))
unfolding env_variables node_variables is_validator_account_prepared get_validator_address
    get_author_address
env_variables_lem project_name f = elim (Option-cases f.address) [
  | inl e ↦ inr (e, rw e)
  | inr (a, e) ↦ elim (Option-cases f.author_address) [
    | inl no_author ↦ inl (a, e, ground (arith, e, no_author))
    | inr (b, author) ↦ inl (a, e, ground (arith, e, author))
  ]
]

pub env_variables-total :
    (project_name : String) (f : Files)
    → (v : List (String × String)) × (env_variables project_name f ≡ ok v)
env_variables-total project_name f = elim (env_variables_lem project_name f) [
  | inl (a, _, e) ↦ (validator_variables project_name a (author_or f.author_address a), e)
  | inr (_, e) ↦ (("COMPOSE_PROJECT_NAME", project_name) ∷ ("ROLE", "observer") ∷ [], e)
]

was_ok : (r : Result (Unit {0})) → click_exception_of r ≡ ok tt → r ≡ ok tt
unfolding click_exception_of
was_ok (ok u) h = refl
was_ok (err called_process_error) h = absurd (ground (arith, h))
was_ok (err x) h = absurd (ground (arith, h))

module _ (lib : DockerLib) where
  as_click_exception-Follows :
      (p : List Command) (m : Action Session (Unit {0})) (s : Session)
      → Follows p s (m s)
      → Follows p s (as_click_exception lib m s)
  unfolding as_click_exception
  as_click_exception-Follows p m s h = record {
    run = h.run;
    left = h.left;
    in_order = h.in_order;
    recorded = h.recorded;
    all_run = λ e. h.all_run (was_ok (m s).0 e);
  }

  -- `start_project` once the variables are looked up.
  abbrev pub tail :
      Option String → Bool → Files → Result (List (String × String)) → Action Session (Unit {0})
  tail host_base_dir start_foreign_node f found = lift found >>= λ variables.
      on_files (λ g. ok (write_env variables g))
      >> as_click_exception lib (
          start_services lib (runtime_env_variables host_base_dir variables)
            (get_optional_docker_service_names f start_foreign_node) f)

  pub tail-Follows :
      (host_base_dir : Option String) (start_foreign_node : Bool) (f : Files)
      (variables : List (String × String)) (s : Session)
      → Follows
          (plan lib
            (runtime_env_variables host_base_dir variables)
            (get_optional_docker_service_names f start_foreign_node)
            f)
          s
          (tail host_base_dir start_foreign_node f (ok variables) s)
  unfolding on_files
  tail-Follows host_base_dir start_foreign_node f variables s =
      let names = get_optional_docker_service_names f start_foreign_node in
      let runtime = runtime_env_variables host_base_dir variables in
      let t : Session = record s { files = write_env variables s.files } in
      let h =
        as_click_exception-Follows (plan lib runtime names f) (start_services lib runtime names f) t
          (start_services-Follows lib runtime names f t) in
      record {
        run = h.run;
        left = h.left;
        in_order = h.in_order;
        recorded = h.recorded;
        all_run = h.all_run;
      }

  -- With a compose file, the variables of the services are always found, and the commands that are run
  -- are, in order, the first ones of the plan (shut down, remove the containers of earlier versions,
  -- pull, create, start, and the monitor last), and all of the plan if nothing is raised.
  pub update_and_start-Follows :
      (host_base_dir : Option String) (start_foreign_node : Bool) (project_name : String)
      (s : Session)
      → does_docker_compose_file_exist s.files ≡ true
      → (variables : List (String × String)) × (env_variables project_name s.files ≡ ok variables)
        × Follows
            (plan lib
              (runtime_env_variables host_base_dir variables)
              (get_optional_docker_service_names s.files start_foreign_node)
              s.files)
            s
            (update_and_start lib host_base_dir start_foreign_node project_name s)
  unfolding update_and_start start_project
  update_and_start-Follows host_base_dir start_foreign_node project_name s exists =
      let (variables, e) = env_variables-total project_name s.files in
      (
        variables,
        e,
        rw exists (
            subst
              (λ x.
                Follows
                  (plan lib (runtime_env_variables host_base_dir variables)
                    (get_optional_docker_service_names s.files start_foreign_node) s.files)
                  s (tail host_base_dir start_foreign_node s.files x s))
              (sym e) (tail-Follows host_base_dir start_foreign_node s.files variables s)),
      )
