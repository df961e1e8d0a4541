-- ===== src/Quickstart/BridgeConfig/Dialog.antt =====
-- Which node the bridge is set up for.
use mathlib.Core.Path.{subst}
use trustlines_blockchain.Prelude.{
  ◌≡◌, ◌≢◌, refl, sym, ap, ◌∙◌, String, Bool, true, false, not, ◌⊎◌, inl, inr, Bool-cases, Option,
  none, some, List, [], ◌∷◌, ◌++◌, Result, ok, err, assertion_error, Action, ◌>>=◌, ◌>>◌, raise,
  raise_if, lift, and_then-ok, bind-ok, if◌then◌else◌, arith,
}
use trustlines_blockchain.Prelude.Classes.{string_eq, ◌==◌}
use trustlines_blockchain.Quickstart.Session.{
  Files, Answer, typed, confirmed, Session, prompt, asking, on_files, read, is_bridge_prepared,
  non_empty_file_exists,
}
use trustlines_blockchain.Quickstart.Steps.{on_files-ok, asking-ok, prompt-ok}
use trustlines_blockchain.Quickstart.BridgeConfig.{
  BridgeLib, copy_default_bridge_config, is_default_json_url, change_json_rpc_url,
  is_bridge_using_template_json_rpc_url, read_json_rpc_url, assert_template_url, use_light_node,
  use_json_rpc, write_bridge_config_dialog, should_foreign_node_be_started,
}

pub what_was_read : (x : Option String) (c : String) → read x ≡ ok c → x ≡ some c
unfolding read
what_was_read none c h = absurd (ground (arith, h))
what_was_read (some d) c h = ground (arith, h)

-- Which of three actions was taken.
one_of :
    (choice : String) (m n k : Action Session (Unit {0})) (s : Session)
    (r : Result (Unit {0}) × Session)
    → (if choice == "1" then m else if choice == "2" then n else k) s ≡ r
    → ((choice ≡ "1") × (m s ≡ r)) ⊎ ((choice ≡ "2") × (n s ≡ r)) ⊎ (k s ≡ r)
one_of choice m n k s r h = elim (Bool-cases (choice == "1")) [
  | inl e ↦ inl ((string_eq.beq_iff choice "1").0 e, rw e at h)
  | inr d ↦ elim (Bool-cases (choice == "2")) [
    | inl e ↦ inr (inl ((string_eq.beq_iff choice "2").0 e, rw (d, e) at h))
    | inr e ↦ inr (inr (rw (d, e) at h))
  ]
]

-- Of these answers the last text is the url; after it there is at most the consent to use it although it
-- cannot be reached, and then the answers that are left.
abbrev pub TypedLast : List Answer → String → List Answer → Type 0
TypedLast answers url rest =
    (before : List Answer) × ((answers ≡ before ++ (typed url ∷ rest))
      ⊎ (answers ≡ before ++ (typed url ∷ confirmed true ∷ rest)))

later :
    (a : Answer) (answers : List Answer) (url : String) (rest : List Answer)
    → TypedLast answers url rest
    → TypedLast (a ∷ answers) url rest
later a answers url rest (before, inl e) = (a ∷ before, inl (ap (λ l. a ∷ l) e))
later a answers url rest (before, inr e) = (a ∷ before, inr (ap (λ l. a ∷ l) e))

module _ (lib : BridgeLib) where
  read_json_rpc_url-TypedLast :
      (answers : List Answer) (url : String) (rest : List Answer)
      → read_json_rpc_url lib answers ≡ (ok url, rest)
      → TypedLast answers url rest
  unfolding read_json_rpc_url
  read_json_rpc_url-TypedLast [] url rest h = absurd (ground (arith, h))
  read_json_rpc_url-TypedLast (confirmed b ∷ more) url rest h = absurd (ground (arith, h))
  read_json_rpc_url-TypedLast (typed u ∷ []) url rest h = ([], inl (ground (arith, h)))
  read_json_rpc_url-TypedLast (typed u ∷ typed t ∷ more) url rest h =
      let cases : ((u ≡ url) × (rest ≡ typed t ∷ more))
          ⊎ (read_json_rpc_url lib (typed t ∷ more) ≡ (ok url, rest)) =
        ground (arith, h) in
      elim cases [
        | inl (same, left) ↦ ([], inl (rw (same, left) refl))
        | inr again ↦
            later (typed u) (typed t ∷ more) url rest
              (read_json_rpc_url-TypedLast (typed t ∷ more) url rest again)
      ]
  read_json_rpc_url-TypedLast (typed u ∷ confirmed b ∷ more) url rest h =
      let cases : ((u ≡ url) × (rest ≡ confirmed b ∷ more))
          ⊎ ((u ≡ url) × (b ≡ true) × (rest ≡ more))
          ⊎ (read_json_rpc_url lib more ≡ (ok url, rest)) =
        ground (arith, h) in
      elim cases [
        | inl (same, left) ↦ ([], inl (rw (same, left) refl))
        | inr (inl (same, agreed, left)) ↦ ([], inr (rw (same, agreed, left) refl))
        | inr (inr again) ↦
            later (typed u) (confirmed b ∷ more) url rest
              (later (confirmed b) more url rest (read_json_rpc_url-TypedLast more url rest again))
      ]

  -- The dialog never takes the url of the default configuration.
  read_json_rpc_url-lem :
      (answers : List Answer) (url : String) (rest : List Answer)
      → read_json_rpc_url lib answers ≡ (ok url, rest)
      → is_default_json_url lib url ≡ ok false
  unfolding read_json_rpc_url
  read_json_rpc_url-lem [] url rest h = absurd (ground (arith, h))
  read_json_rpc_url-lem (confirmed b ∷ more) url rest h = absurd (ground (arith, h))
  read_json_rpc_url-lem (typed u ∷ []) url rest h = ground (arith, h)
  read_json_rpc_url-lem (typed u ∷ typed t ∷ more) url rest h =
      ground (arith, h, read_json_rpc_url-lem (typed t ∷ more) url rest)
  read_json_rpc_url-lem (typed u ∷ confirmed b ∷ more) url rest h =
      ground (arith, h, read_json_rpc_url-lem more url rest)

  asserted :
      (x : Result Bool) (s s' : Session)
      → (lift x >>= (λ same. raise_if (not same) assertion_error)) s ≡ (ok tt, s')
      → (x ≡ ok true) × (s' ≡ s)
  asserted (ok true) s s' h = (refl, sym (ap (λ (p : Result (Unit {0}) × Session). p.1) h))
  asserted (ok false) s s' h =
      absurd (ground (arith, ap (λ (p : Result (Unit {0}) × Session). p.0) h))
  asserted (err x) s s' h = absurd (ground (arith, ap (λ (p : Result (Unit {0}) × Session). p.0) h))

  use_light_node-lem :
      (s s' : Session)
      → use_light_node lib s ≡ (ok tt, s')
      → is_bridge_using_template_json_rpc_url lib s'.files ≡ ok true
  unfolding use_light_node assert_template_url
  use_light_node-lem s s' h =
      let (_, s1, copied, h1) =
        bind-ok (on_files (copy_default_bridge_config lib))
          (λ _ t.
            (lift (is_bridge_using_template_json_rpc_url lib t.files)
                >>= (λ same. raise_if (not same) assertion_error))
              t)
          s s' tt h in
      let (using, same) = asserted (is_bridge_using_template_json_rpc_url lib s1.files) s1 s' h1 in
      rw same using

  -- The documented behaviour of toml: what was set is read, and an empty text has no url.
  module _ (written : (c u c' : String) → lib.set_rpc_url c u ≡ ok c' → lib.rpc_url c' ≡ ok u)
      (empty : (u : String) → lib.rpc_url "" ≢ ok u) where
    -- A configuration with a url is not an empty file.
    prepared_of_url :
        (f : Files) (c u : String)
        → f.bridge_config ≡ some c
        → lib.rpc_url c ≡ ok u
        → is_bridge_prepared f ≡ true
    unfolding is_bridge_prepared non_empty_file_exists
    prepared_of_url f c u e h = elim (Bool-cases (c == "")) [
      | inl none_there ↦
          absurd (empty u (ap lib.rpc_url (sym ((string_eq.beq_iff c "").0 none_there)) ∙ h))
      | inr there ↦ ground (arith, e, there)
    ]

    started :
        (f : Files) (b : Bool)
        → is_bridge_using_template_json_rpc_url lib f ≡ ok b
        → should_foreign_node_be_started lib f ≡ ok b
    unfolding should_foreign_node_be_started is_bridge_using_template_json_rpc_url read
    started f b h =
        let (c, found, h1) = and_then-ok (read f.bridge_config) _ b h in
        let (u, url, _) = and_then-ok (lib.rpc_url c) _ b h1 in
        rw (prepared_of_url f c u (what_was_read f.bridge_config c found) url) h

    changed_url :
        (url : String) (f g : Files)
        → change_json_rpc_url lib url f ≡ ok g
        → (c : String) × (g.bridge_config ≡ some c) × (lib.rpc_url c ≡ ok url)
    unfolding change_json_rpc_url
    changed_url url f g h =
        let (c, _, h1) = and_then-ok (read f.bridge_config) _ g h in
        let (c', set, h2) = and_then-ok (lib.set_rpc_url c url) _ g h1 in
        (c', ground (arith, h2), written c url c' set)

    using_url :
        (f : Files) (c url : String) (b : Bool)
        → f.bridge_config ≡ some c
        → lib.rpc_url c ≡ ok url
        → is_default_json_url lib url ≡ ok b
        → is_bridge_using_template_json_rpc_url lib f ≡ ok b
    unfolding is_bridge_using_template_json_rpc_url read
    using_url f c url b e u d = ground (arith, e, u, d)

    use_json_rpc-lem :
        (s s' : Session)
        → use_json_rpc lib s ≡ (ok tt, s')
        → (url : String) × (c : String) × TypedLast s.answers url s'.answers
          × (s'.files.bridge_config ≡ some c)
          × (lib.rpc_url c ≡ ok url)
          × (is_bridge_using_template_json_rpc_url lib s'.files ≡ ok false)
    unfolding use_json_rpc
    use_json_rpc-lem s s' h =
        let (url, s1, asked, h1) =
          bind-ok (asking (read_json_rpc_url lib))
            (λ u. on_files (copy_default_bridge_config lib) >> on_files (change_json_rpc_url lib u))
            s s' tt h in
        let (_, s2, copying, h2) =
          bind-ok (on_files (copy_default_bridge_config lib))
            (λ _. on_files (change_json_rpc_url lib url)) s1 s' tt h1 in
        let other =
          read_json_rpc_url-lem s.answers url s1.answers
            (asking-ok (read_json_rpc_url lib) s s1 url asked).0 in
        let (f, changed, moved) = on_files-ok (change_json_rpc_url lib url) s2 s' h2 in
        let (c, e, u) = changed_url url s2.files f changed in
        let there : s'.files.bridge_config ≡ some c =
          ap (λ (t : Session). t.files.bridge_config) moved ∙ e in
        let (_, _, copied) = on_files-ok (copy_default_bridge_config lib) s1 s2 copying in
        let answers : s'.answers ≡ s1.answers =
          ap (λ (t : Session). t.answers) moved ∙ ap (λ (t : Session). t.answers) copied in
        let read_so =
          read_json_rpc_url-TypedLast s.answers url s1.answers
            (asking-ok (read_json_rpc_url lib) s s1 url asked).0 in
        (
          url,
          c,
          subst (λ l. TypedLast s.answers url l) (sym answers) read_so,
          there,
          u,
          using_url s'.files c url false there u other,
        )

    by_choice :
        (s s1 s' : Session) (choice : String)
        → s.answers ≡ typed choice ∷ s1.answers
        → (if choice == "1"
              then use_light_node lib
              else if choice == "2"
              then use_json_rpc lib
              else raise assertion_error)
            s1
          ≡ (ok tt, s')
        → ((rest : List Answer) × (s.answers ≡ typed "1" ∷ rest)
            × (should_foreign_node_be_started lib s'.files ≡ ok true))
          ⊎ ((asked : List Answer) × (url : String) × (c : String) × (s.answers ≡ typed "2" ∷ asked)
              × TypedLast asked url s'.answers
              × (s'.files.bridge_config ≡ some c)
              × (lib.rpc_url c ≡ ok url)
              × (should_foreign_node_be_started lib s'.files ≡ ok false))
    by_choice s s1 s' choice asked h = elim (one_of choice _ _ _ s1 (ok tt, s') h) [
      | inl (e, light) ↦
          inl (s1.answers, rw e at asked, started s'.files true (use_light_node-lem s1 s' light))
      | inr other ↦ elim other [
        | inl (e, rpc) ↦
            let (url, c, typed_so, there, u, using) = use_json_rpc-lem s1 s' rpc in
            inr
              (s1.answers, url, c, rw e at asked, typed_so, there, u, started s'.files false using)
        | inr refusal ↦
            absurd (ground (arith, ap (λ (p : Result (Unit {0}) × Session). p.0) refusal))
      ]
    ]

    -- The dialog that went well has set the bridge up either, for the answer 1, with the default url,
    -- and then the foreign node is started, or, for the answer 2, with the url that was typed last, at
    -- most with a consent after it, which is what the configuration then has, and then the foreign node
    -- is not started.
    pub write_bridge_config_dialog_lem :
        (s s' : Session)
        → write_bridge_config_dialog lib s ≡ (ok tt, s')
        → ((rest : List Answer) × (s.answers ≡ typed "1" ∷ rest)
            × (should_foreign_node_be_started lib s'.files ≡ ok true))
          ⊎ ((asked : List Answer) × (url : String) × (c : String) × (s.answers ≡ typed "2" ∷ asked)
              × TypedLast asked url s'.answers
              × (s'.files.bridge_config ≡ some c)
              × (lib.rpc_url c ≡ ok url)
              × (should_foreign_node_be_started lib s'.files ≡ ok false))
    unfolding write_bridge_config_dialog
    write_bridge_config_dialog_lem s s' h =
        let (choice, s1, asked, h1) =
          bind-ok prompt
            (λ x.
              if x == "1"
              then use_light_node lib
              else if x == "2"
              then use_json_rpc lib
              else raise assertion_error)
            s s' tt h in
        by_choice s s1 s' choice (prompt-ok s s1 choice asked).0 h1
