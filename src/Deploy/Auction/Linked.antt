-- ===== src/Deploy/Auction/Linked.antt =====
-- A deployment that returns leaves the three contracts linked to one another.
use mathlib.Core.Path.{ap₂}
use trustlines_blockchain.Prelude.{
  ℕ, ◌*◌, lift, ◌≡◌, refl, sym, ap, ◌∙◌, String, not, Option, some, List, [], Result, ok, err,
  Action, bind-ok, Bool-cases, Option-cases, arith, inl, inr, is_some, ◌>>=◌, ◌>>◌, pure,
  runtime_error,
}
use trustlines_blockchain.Prelude.Classes.{string_eq, ◌==◌}
use trustlines_blockchain.Deploy.Auction.{
  AuctionOptions, DeployedAuctionContracts, AuctionChain, DeployState, LinkError, transact,
  initialize_locker, initialize_slasher, check_auction, initialize_with,
  initialize_auction_contracts, get_errors_messages_on_contracts_links, DeployArguments,
  deploy_and_initialize, deploy, check_deploy_options, release_time, deploy_auction_contracts,
  eth_in_wei,
}

-- The contracts' `init` functions, where they go through: a locker holds the addresses that it was
-- given, and a slasher the locker's, which changes nothing in the lockers.
pub record IsLinking {W O : Type 0} (api : AuctionChain W O) : Type 0 where
  pub init_locker_links :
      (locker slasher auction : String) (time : ℕ) (token : Option String) (o : O) (w w' : W)
      → api.init_locker locker time slasher auction token o w ≡ ok w'
      → (api.depositors_proxy w' locker ≡ auction) × (api.locker_slasher w' locker ≡ slasher)
  pub init_slasher_links :
      (slasher locker : String) (o : O) (w w' : W)
      → api.init_slasher slasher locker o w ≡ ok w'
      → (api.deposit_contract w' slasher ≡ locker)
        × ((l : String) → api.depositors_proxy w' l ≡ api.depositors_proxy w l)
        × ((l : String) → api.locker_slasher w' l ≡ api.locker_slasher w l)

abbrev options_of : DeployArguments → ℕ → AuctionOptions
options_of a time = record {
  start_price = a.start_price * eth_in_wei;
  auction_duration = a.auction_duration;
  minimal_number_of_participants = a.minimal_number_of_participants;
  maximal_number_of_participants = a.maximal_number_of_participants;
  release_timestamp = time;
  token_address = a.token_address;
}

ok-injective : {A : Type 0} {a b : A} → ◌≡◌ {A = Result A} (ok a) (ok b) → a ≡ b
ok-injective {A} {a} h = ap (λ (r : Result A). elim r [ ok x ↦ x | err e ↦ a ]) h

lift-ok :
    {S A : Type 0} (r : Result A) (s s' : S) (a : A)
    → ◌≡◌ {A = Result A × S} (lift r s) (ok a, s')
    → r ≡ ok a
lift-ok (ok b) s s' a h = ap (λ q. q.0) h
lift-ok (err x) s s' a h = ap (λ q. q.0) h

module _ {W O : Type 0} {api : AuctionChain W O} (v : IsLinking api) where
  transact-ok :
      (send : O → W → Result W) (s s' : DeployState W O)
      → transact api send s ≡ (ok tt, s')
      → send s.options s.chain ≡ ok s'.chain
  unfolding transact
  transact-ok send s s' h = go (send s.options s.chain) refl
    where
      go : (r : Result W) → send s.options s.chain ≡ r → send s.options s.chain ≡ ok s'.chain
      go (err x) e = absurd (ground arith)
      go (ok w) e =
          let sent : transact api send s
              ≡ (ok tt, record { chain = w; options = api.increase s.options }) =
            rw (transact, e) refl in
          e ∙ ap (λ (q : Result (Unit {0}) × DeployState W O). ok q.1.chain) (sym sent ∙ h)

  locker_links :
      (c : DeployedAuctionContracts) (slasher : String) (time : ℕ) (token : Option String)
      (s s' : DeployState W O)
      → initialize_locker api c slasher time token s ≡ (ok tt, s')
      → (api.depositors_proxy s'.chain c.locker ≡ c.auction)
        × (api.locker_slasher s'.chain c.locker ≡ slasher)
  unfolding initialize_locker
  locker_links c slasher time token s s' h =
      elim (Bool-cases (api.locker_initialized s.chain c.locker)) [
        | inr new ↦
            v.init_locker_links c.locker slasher c.auction time token s.options s.chain s'.chain (
              transact-ok (api.init_locker c.locker time slasher c.auction token) s s'
                (ground arith))
        | inl old ↦ elim (Bool-cases (api.depositors_proxy s.chain c.locker == c.auction)) [
          | inr differs ↦ absurd (ground arith)
          | inl same ↦ elim (Bool-cases (api.locker_slasher s.chain c.locker == slasher)) [
            | inr differs ↦ absurd (ground arith)
            | inl same_slasher ↦ (
              ground (arith, string_eq.beq_iff (api.depositors_proxy s.chain c.locker) c.auction),
              ground (arith, string_eq.beq_iff (api.locker_slasher s.chain c.locker) slasher),
            )
          ]
        ]
      ]

  slasher_links :
      (c : DeployedAuctionContracts) (slasher : String) (s s' : DeployState W O)
      → initialize_slasher api c slasher s ≡ (ok tt, s')
      → (api.deposit_contract s'.chain slasher ≡ c.locker)
        × (api.depositors_proxy s'.chain c.locker ≡ api.depositors_proxy s.chain c.locker)
        × (api.locker_slasher s'.chain c.locker ≡ api.locker_slasher s.chain c.locker)
  unfolding initialize_slasher
  slasher_links c slasher s s' h = elim (Bool-cases (api.slasher_initialized s.chain slasher)) [
    | inr new ↦
        let (linked, same_proxy, same_slasher) =
          v.init_slasher_links slasher c.locker s.options s.chain s'.chain
            (transact-ok (api.init_slasher slasher c.locker) s s' (ground arith)) in
        (linked, same_proxy c.locker, same_slasher c.locker)
    | inl old ↦ elim (Bool-cases (api.deposit_contract s.chain slasher == c.locker)) [
      | inr differs ↦ absurd (ground arith)
      | inl same ↦ (
        ground (arith, string_eq.beq_iff (api.deposit_contract s.chain slasher) c.locker),
        ground arith,
        ground arith,
      )
    ]
  ]

  auction_links :
      (c : DeployedAuctionContracts) (s s' : DeployState W O)
      → check_auction api c s ≡ (ok tt, s')
      → (s ≡ s') × (api.deposit_locker s'.chain c.auction ≡ c.locker)
  unfolding check_auction
  auction_links c s s' h = elim (Bool-cases (api.deposit_locker s.chain c.auction == c.locker)) [
    | inr differs ↦ absurd (ground arith)
    | inl same ↦ (
      ground arith,
      ground (arith, string_eq.beq_iff (api.deposit_locker s.chain c.auction) c.locker),
    )
  ]

  raised :
      {s s' : DeployState W O}
      → ◌≡◌ {A = Result (Unit {0}) × DeployState W O} (err runtime_error, s) (ok tt, s')
      → ⊥
  raised h = absurd (ground (arith, ap (λ (q : Result (Unit {0}) × DeployState W O). q.0) h))

  -- No link is reported wrong exactly if the four links are right.
  errors-none :
      (w : W) (c : DeployedAuctionContracts) (slasher : String)
      → c.slasher ≡ some slasher
      → api.deposit_locker w c.auction ≡ c.locker
      → api.depositors_proxy w c.locker ≡ c.auction
      → api.locker_slasher w c.locker ≡ slasher
      → api.deposit_contract w slasher ≡ c.locker
      → get_errors_messages_on_contracts_links api w c ≡ []
  unfolding get_errors_messages_on_contracts_links
  errors-none w c slasher h a b d e =
      rw (get_errors_messages_on_contracts_links, h)
        (rw
          (
            (string_eq.beq_iff _ _).1 a,
            (string_eq.beq_iff _ _).1 b,
            (string_eq.beq_iff _ _).1 d,
            (string_eq.beq_iff _ _).1 e,
          )
          refl)

  -- Where `init` sets the addresses that it is given: if the initialisation of three contracts, be
  -- they new or there before, raises nothing, then they are linked to one another, and no warning is
  -- left to print.
  pub initialize_auction_contracts_lem :
      (c : DeployedAuctionContracts) (time : ℕ) (token : Option String) (s s' : DeployState W O)
      → initialize_auction_contracts api c time token s ≡ (ok tt, s')
      → get_errors_messages_on_contracts_links api s'.chain c ≡ []
  unfolding initialize_auction_contracts initialize_with
  initialize_auction_contracts_lem c time token s s' h = elim (Option-cases c.slasher) [
    | inl missing ↦
        absurd (raised (ap (λ o. initialize_with api c time token o s) (sym missing) ∙ h))
    | inr (slasher, given) ↦
        let run = ap (λ o. initialize_with api c time token o s) (sym given) ∙ h in
        let (_, s1, first, after) =
          bind-ok (initialize_locker api c slasher time token)
            (λ _. initialize_slasher api c slasher >> check_auction api c) s s' tt run in
        let (_, s2, second, third) =
          bind-ok (initialize_slasher api c slasher) (λ _. check_auction api c) s1 s' tt after in
        let (proxy, slashed) = locker_links c slasher time token s s1 first in
        let (linked, same_proxy, same_slasher) = slasher_links c slasher s1 s2 second in
        let (last, locked) = auction_links c s2 s' third in
        let chain : s2.chain ≡ s'.chain = ap (λ (x : DeployState W O). x.chain) last in
        errors-none s'.chain c slasher given locked
          (ap (λ w. api.depositors_proxy w c.locker) (sym chain) ∙ same_proxy ∙ proxy)
          (ap (λ w. api.locker_slasher w c.locker) (sym chain) ∙ same_slasher ∙ slashed)
          (ap (λ w. api.deposit_contract w slasher) (sym chain) ∙ linked)
  ]

  abbrev with_warnings :
      DeployedAuctionContracts
      → Action (DeployState W O) (DeployedAuctionContracts × List LinkError)
  with_warnings c s = (ok (c, get_errors_messages_on_contracts_links api s.chain c), s)

  initialized_by :
      (a : DeployArguments) (time : ℕ) (c : DeployedAuctionContracts) (s s' : DeployState W O)
      → deploy_and_initialize api a time s ≡ (ok c, s')
      → get_errors_messages_on_contracts_links api s'.chain c ≡ []
  unfolding deploy_and_initialize
  initialized_by a time c s s' h =
      let (made, s1, _, rest) =
        bind-ok (deploy_auction_contracts api (options_of a time) a.already_deployed)
          (λ c'. initialize_auction_contracts api c' time a.token_address >> pure c') s s' c h in
      let (_, s2, linked, last) =
        bind-ok (initialize_auction_contracts api made time a.token_address) (λ _. pure made) s1 s'
          c rest in
      let same : s2 ≡ s' =
        ap (λ (q : Result DeployedAuctionContracts × DeployState W O). q.1) last in
      let same_contracts : made ≡ c =
        ok-injective (ap (λ (q : Result DeployedAuctionContracts × DeployState W O). q.0) last) in
      ap₂ (λ w x. get_errors_messages_on_contracts_links api w x)
        (ap (λ (x : DeployState W O). x.chain) (sym same)) (sym same_contracts)
      ∙ initialize_auction_contracts_lem made time a.token_address s1 s2 linked

  -- Where `init` sets the addresses that it is given, the command `deploy` prints no warning when it
  -- raises nothing, be the contracts new or resumed; it was then given a token address exactly if
  -- the token auction was asked for, and exactly one of the release date and the release timestamp.
  pub deploy_lem :
      (a : DeployArguments) (c : DeployedAuctionContracts) (warnings : List LinkError)
      (s s' : DeployState W O)
      → deploy api a s ≡ (ok (c, warnings), s')
      → (warnings ≡ [])
        × (a.use_token ≡ is_some a.token_address)
        × (is_some a.release_timestamp ≡ not (is_some a.release_date))
  unfolding deploy deploy_and_initialize check_deploy_options release_time
  deploy_lem a c warnings s s' h =
      let check =
        check_deploy_options a.use_token a.token_address a.release_timestamp a.release_date
          a.already_deployed in
      let (time, s1, checked, rest) =
        bind-ok (lift check) (λ t. deploy_and_initialize api a t >>= with_warnings) s s'
          (c, warnings) h in
      let (made, s2, initialized, last) =
        bind-ok (deploy_and_initialize api a time) with_warnings s1 s' (c, warnings) rest in
      let none_left = initialized_by a time made s1 s2 initialized in
      let passed : check ≡ ok time = lift-ok check s s1 time checked in
      (
        sym (
              ap (λ (q : DeployedAuctionContracts × List LinkError). q.1)
                (ok-injective (
                  ap
                    (λ (q : Result (DeployedAuctionContracts × List LinkError) × DeployState W O).
                      q.0)
                    last)))
            ∙ none_left,
        ground arith,
        ground arith,
      )
