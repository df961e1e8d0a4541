-- ===== src/Deploy/Tests/Deploying.antt =====
-- A chain that holds one locker, one slasher, one auction and a whitelist.
use trustlines_blockchain.Deploy.Validators.{
  ValidatorReport, in_both, check_validators, check_validators_lem,
}
use trustlines_blockchain.Prelude.{
  ◌&&◌, ◌↔◌, map, ℕ, ◌+◌, ◌≡◌, refl, String, true, false, not, ◌||◌, Option, none, some, is_some,
  List, [], ◌∷◌, ◌++◌, ok, length, arith,
}
use trustlines_blockchain.Prelude.Classes.{string_eq}
use trustlines_blockchain.Containers.PySet.{contains}
use trustlines_blockchain.Deploy.Auction.{
  DeployedAuctionContracts, AuctionChain, DeployState, LinkError, DeployArguments,
  initialize_auction_contracts, get_errors_messages_on_contracts_links, deploy, resume_or_deploy,
  deploy_contract, deploy_auction_contracts, transact, initialize_locker, initialize_slasher,
  check_auction, initialize_with, deploy_and_initialize, check_deploy_options, release_time,
}
use trustlines_blockchain.Deploy.Auction.Linked.{
  IsLinking, initialize_auction_contracts_lem, deploy_lem,
}
use trustlines_blockchain.Deploy.Whitelist.{
  WhitelistChain, WhitelistState, whitelist_addresses, whitelist_command, check_whitelist,
  all_whitelisted,
}
use trustlines_blockchain.Deploy.Whitelist.Complete.{
  IsWhitelisting, lacking, whitelist_addresses_lem, check_whitelist-whitelist,
}

-- The addresses that the locker, the slasher and the auction hold; nothing is there at first.
record Links : Type 0 where
  locker_auction : Option String
  locker_slasher : String
  slasher_locker : Option String
  auction_locker : String

abbrev or_nobody : Option String → String
or_nobody none = "nobody"
or_nobody (some a) = a

abbrev chain : AuctionChain Links ℕ
chain = record {
  increase = λ n. n + 1;
  new_locker = λ use_token n w. ok ("locker", w);
  new_slasher = λ n w. ok ("slasher", w);
  new_auction = λ options locker n w. ok ("auction", record w { auction_locker = locker });
  init_locker = λ locker time slasher auction token n w.
      ok (record w { locker_auction = some auction; locker_slasher = slasher });
  init_slasher = λ slasher locker n w. ok (record w { slasher_locker = some locker });
  locker_initialized = λ w locker. is_some w.locker_auction;
  depositors_proxy = λ w locker. or_nobody w.locker_auction;
  locker_slasher = λ w locker. w.locker_slasher;
  slasher_initialized = λ w slasher. is_some w.slasher_locker;
  deposit_contract = λ w slasher. or_nobody w.slasher_locker;
  deposit_locker = λ w auction. w.auction_locker;
}

links : IsLinking chain
links = record {
  init_locker_links = λ locker slasher auction time token o w w' h. (ground arith, ground arith);
  init_slasher_links =
      λ slasher locker o w w' h. (ground arith, λ l. ground arith, λ l. ground arith);
}

abbrev nothing : DeployState Links ℕ
nothing = record {
  chain = record {
    locker_auction = none;
    locker_slasher = "nobody";
    slasher_locker = none;
    auction_locker = "nobody";
  };
  options = 3;
}

abbrev deployed : DeployState Links ℕ
deployed = record {
  chain = record {
    locker_auction = some "auction";
    locker_slasher = "slasher";
    slasher_locker = some "locker";
    auction_locker = "locker";
  };
  options = 8;
}

abbrev arguments : DeployArguments
arguments = record {
  start_price = 2;
  auction_duration = 10;
  minimal_number_of_participants = 1;
  maximal_number_of_participants = 5;
  use_token = false;
  token_address = none;
  release_timestamp = some 1000;
  release_date = none;
  already_deployed = record { locker = none; slasher = none; auction = none };
}

abbrev contracts : DeployedAuctionContracts
contracts = record { locker = "locker"; slasher = some "slasher"; auction = "auction" }

abbrev no_warnings : List LinkError
no_warnings = []

-- Three contracts and two initialisations: five transactions.
deploys : deploy chain arguments nothing ≡ (ok (contracts, []), deployed)
unfolding deploy deploy_and_initialize check_deploy_options release_time deploy_auction_contracts
    resume_or_deploy deploy_contract initialize_auction_contracts initialize_with initialize_locker
    initialize_slasher check_auction transact get_errors_messages_on_contracts_links
deploys = refl

deploy_lem_example :
    (no_warnings ≡ [])
    × (arguments.use_token ≡ is_some arguments.token_address)
    × (is_some arguments.release_timestamp ≡ not (is_some arguments.release_date))
deploy_lem_example = deploy_lem links arguments contracts no_warnings nothing deployed deploys

initializes_again :
    initialize_auction_contracts chain contracts 1000 none deployed ≡ (ok tt, deployed)
unfolding initialize_auction_contracts initialize_with initialize_locker initialize_slasher
    check_auction
initializes_again = refl

initialize_auction_contracts_lem_example :
    get_errors_messages_on_contracts_links chain deployed.chain contracts ≡ []
initialize_auction_contracts_lem_example =
    initialize_auction_contracts_lem links contracts 1000 none deployed deployed initializes_again

-- A chain that is its whitelist.
abbrev listing : WhitelistChain (List String) ℕ
listing = record {
  increase = λ n. n + 1;
  whitelist = λ w a. contains w a;
  add_to_whitelist = λ chunk n w. ok (w ++ chunk);
}

contains-append :
    (w chunk : List String) (a : String)
    → contains (w ++ chunk) a ≡ (contains w a || contains chunk a)
unfolding contains
contains-append [] chunk a = refl
contains-append (x ∷ w) chunk a = ground (arith, contains-append w chunk a)

whitelists : IsWhitelisting listing 2
whitelists = record { adds = λ chunk o w h. (w ++ chunk, refl, contains-append w chunk) }

abbrev listed : WhitelistState (List String) ℕ
listed = record { chain = "0x03" ∷ []; options = 0 }

abbrev whitelist : List String
whitelist = "0x01" ∷ "0x02" ∷ "0x03" ∷ "0x04" ∷ []

whitelist_addresses_lem_example :
    (s' : WhitelistState (List String) ℕ) × (whitelist_addresses listing whitelist 2 listed
      ≡ (ok (lacking listing listed.chain whitelist), s'))
    × ((a : String)
        → listing.whitelist s'.chain a ≡ (listing.whitelist listed.chain a || contains whitelist a))
whitelist_addresses_lem_example =
    whitelist_addresses_lem listing whitelist 2 listed (omega arith) whitelists

check_whitelist-whitelist_example :
    (n : ℕ) × (s' : WhitelistState (List String) ℕ) × (whitelist_command listing
        (ok whitelist)
        2
        listed
      ≡ (ok n, s'))
    × (check_whitelist listing s'.chain (ok whitelist) ≡ ok (all_whitelisted (length whitelist)))
check_whitelist-whitelist_example =
    check_whitelist-whitelist listing whitelist 2 listed (omega arith) whitelists

abbrev in_file : List String
in_file = "0x01" ∷ "0x02" ∷ []

abbrev in_contract : List String
in_contract = "0x02" ∷ "0x03" ∷ []

abbrev report : ValidatorReport
report = check_validators in_file in_contract

check_validators_lem_example :
    ((report.is_matching ≡ true) ↔ (in_file ≡ in_contract))
    × (report.is_matching ≡ true
        → (report.missing ≡ []) × (report.current ≡ map (λ a. in_both a) in_contract))
    × ((a : String)
        → contains report.missing a ≡ (contains in_file a && not (contains in_contract a)))
check_validators_lem_example = check_validators_lem in_file in_contract
