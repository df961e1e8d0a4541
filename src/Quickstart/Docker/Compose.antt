-- ===== src/Quickstart/Docker/Compose.antt =====
-- After the set-up of docker there is a compose file.
use trustlines_blockchain.Prelude.{
  ◌≡◌, refl, sym, ap, ◌∙◌, Bool, true, false, not, ◌&&◌, Result, ok, assertion_error, pure, lift,
  bind-ok, if◌then◌else◌, arith,
}
use trustlines_blockchain.Prelude.Classes.{string_eq, ◌==◌}
use trustlines_blockchain.Quickstart.Session.{Files, Session, on_files, asking}
use trustlines_blockchain.Quickstart.Frame.{Frame, Within, in_turn}
use trustlines_blockchain.Quickstart.Framed.{
  framed, done, raised, reading, lifted, asked, prompted, changed, either, ◌>>=◌,
}
use trustlines_blockchain.Quickstart.Steps.{on_files-ok, asking-ok, lift-ok}
use trustlines_blockchain.Quickstart.BridgeConfig.{should_overwrite_prompt}
use trustlines_blockchain.Quickstart.Docker.{
  DockerLib, does_docker_compose_file_exist, does_docker_compose_override_file_exist,
  create_docker_readme, copy_default_docker_file, copy_default_docker_override_file,
  delete_docker_override_file, is_default_file, write_compose_file, write_override_file,
  setup_compose_file, expose_ports, hide_ports, keep_or_remove, setup_docker,
}

-- The compose file stays as it is.
abbrev same_compose : Frame
same_compose = record {
  Rel = λ f g. f.docker_compose ≡ g.docker_compose;
  same = λ f. refl;
  after = λ f g h p q. p ∙ q;
}

-- A file of the user's own is only kept where there is one.
own_kept :
    (differs : Bool) (s s' : Session) (overwrite : Bool)
    → (if differs then asking should_overwrite_prompt else pure true) s ≡ (ok overwrite, s')
    → (s'.files ≡ s.files) × (overwrite ≡ false → differs ≡ true)
own_kept true s s' overwrite h = ((asking-ok should_overwrite_prompt s s' overwrite h).1, λ _. refl)
own_kept false s s' overwrite h = (
  sym (ap (λ (p : Result Bool × Session). p.1.files) h),
  λ e. absurd (ground (arith, e, ap (λ (p : Result Bool × Session). p.0) h)),
)

remove-stays :
    (f g : Files) → delete_docker_override_file f ≡ ok g → f.docker_compose ≡ g.docker_compose
unfolding delete_docker_override_file
remove-stays f g h = ground (arith, h)

keep_or_remove-stays : Within same_compose keep_or_remove
unfolding keep_or_remove
keep_or_remove-stays =
    (do
      choice ← prompted same_compose
      either (choice == "1") (done same_compose tt) (
          either (choice == "2") (changed same_compose delete_docker_override_file remove-stays)
            (raised same_compose assertion_error))).within

module _ (lib : DockerLib) where
  written :
      (overwrite : Bool) (s s' : Session)
      → write_compose_file lib overwrite s ≡ (ok tt, s')
      → (overwrite ≡ false → does_docker_compose_file_exist s.files ≡ true)
      → does_docker_compose_file_exist s'.files ≡ true
  unfolding write_compose_file does_docker_compose_file_exist copy_default_docker_file
  written true s s' h there =
      let (f, copied, moved) = on_files-ok (copy_default_docker_file lib) s s' h in
      let file = ap (λ (t : Session). t.files.docker_compose) moved in ground (arith, copied, file)
  written false s s' h there =
      let file = ap (λ (p : Result (Unit {0}) × Session). p.1.files.docker_compose) h in
      ground (arith, file, there refl)

  setup_compose_file-exists :
      (s s' : Session)
      → setup_compose_file lib s ≡ (ok tt, s')
      → does_docker_compose_file_exist s'.files ≡ true
  unfolding setup_compose_file
  setup_compose_file-exists s s' h =
      let (same, s1, looked, h1) =
        bind-ok (lift (is_default_file lib s.files.docker_compose lib.docker_compose_file))
          (λ same.
            in_turn
              (if does_docker_compose_file_exist s.files && not same
                then asking should_overwrite_prompt
                else pure true)
              (write_compose_file lib))
          s s' tt h in
      let (overwrite, s2, asked, h2) =
        bind-ok
          (if does_docker_compose_file_exist s.files && not same
            then asking should_overwrite_prompt
            else pure true)
          (write_compose_file lib) s1 s' tt h1 in
      let (_, stays) =
        lift-ok (is_default_file lib s.files.docker_compose lib.docker_compose_file) s s1 same
          looked in
      let (unmoved, own) =
        own_kept (does_docker_compose_file_exist s.files && not same) s1 s2 overwrite asked in
      let files = unmoved ∙ ap (λ (t : Session). t.files) stays in
      written overwrite s2 s' h2 (λ e. rw files (ground (arith, own e)))

  override-stays :
      (f g : Files)
      → copy_default_docker_override_file lib f ≡ ok g
      → f.docker_compose ≡ g.docker_compose
  unfolding copy_default_docker_override_file
  override-stays f g h = ground (arith, h)

  expose_ports-stays : Within same_compose (expose_ports lib)
  unfolding expose_ports write_override_file
  expose_ports-stays =
      (do
        f ← reading same_compose (λ s. s.files)
        same ← lifted same_compose (is_default_file lib f.docker_compose_override lib.override_file)
        overwrite ←
            either (does_docker_compose_override_file_exist f && not same)
              (asked same_compose should_overwrite_prompt) (done same_compose true)
        either overwrite
            (changed same_compose (copy_default_docker_override_file lib) override-stays)
            (done same_compose tt)).within

  hide_ports-stays : Within same_compose (hide_ports lib)
  unfolding hide_ports
  hide_ports-stays =
      (do
        f ← reading same_compose (λ s. s.files)
        same ← lifted same_compose (is_default_file lib f.docker_compose_override lib.override_file)
        either (does_docker_compose_override_file_exist f && same)
            (framed same_compose keep_or_remove keep_or_remove-stays) (done same_compose tt)).within

  ports-stay :
      (expose_node_ports : Bool)
      → Within same_compose (if expose_node_ports then expose_ports lib else hide_ports lib)
  ports-stay true = expose_ports-stays
  ports-stay false = hide_ports-stays

  pub setup_docker-exists :
      (expose_node_ports : Bool) (s s' : Session)
      → setup_docker lib expose_node_ports s ≡ (ok tt, s')
      → does_docker_compose_file_exist s'.files ≡ true
  unfolding setup_docker on_files does_docker_compose_file_exist
  setup_docker-exists expose_node_ports s s' h =
      let s0 : Session = record s { files = create_docker_readme lib s.files } in
      let (_, s1, written_to, h1) =
        bind-ok (setup_compose_file lib)
          (λ _. if expose_node_ports then expose_ports lib else hide_ports lib) s0 s' tt h in
      let there = setup_compose_file-exists s0 s1 written_to in
      let stays = ports-stay expose_node_ports s1 in
      let same : s1.files.docker_compose ≡ s'.files.docker_compose =
        stays ∙ ap (λ (p : Result (Unit {0}) × Session). p.1.files.docker_compose) h1 in
      ground (arith, there, same)
