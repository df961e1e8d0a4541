-- ===== src/Lib.antt =====
-- Models of the Python programs of the Trustlines blockchain repository.
--
-- The bridge (bridge/src/bridge) lets validators confirm, on the home chain, the token transfers that
-- users send to the bridge contract on a foreign chain. An event fetcher for each chain puts contract
-- events into queues; the confirmation task planner applies them to the transfer recorder and, when the
-- home chain is in sync, pulls the transfers that are still to be confirmed; the confirmation sender
-- signs and sends a confirmation for each, and the confirmation watcher waits for the receipts. Two
-- watchers report the account's balance and its membership in the validator set.
--
--   Prelude          tests on numbers, Python's exceptions and methods, signed integers, slices, loops on fuel
--   Containers       Python's sets and dictionaries as lists, with their laws
--   Bridge.Eth       what is taken from eth_utils: keccak, address comparison and from_wei, as parameters
--   Bridge.Events    events.py, constants.py
--   Bridge.Utils     utils.py: transfer hashes, the order of events
--   Bridge.Recorder  transfer_recorder.py: the state, and each handler as an action on it
--   Bridge.Planner   confirmation_task_planner.py: the three loops as a step relation
--   Bridge.NodeStatus  node_status.py: whether a node is syncing
--   Bridge.Fetcher   event_fetcher.py: ranges of blocks up to the reorganisation-safe one
--   Bridge.Sender    confirmation_sender.py, class ConfirmationSender
--   Bridge.Watchers  confirmation_sender.py, class ConfirmationWatcher; validator_status_watcher.py;
--                    validator_balance_watcher.py
--   Bridge.Contracts contract_validation.py, and the check of the bridge's contracts in main.py
--   Bridge.Config    config.py, and the reading of the private key in utils.py
--   Bridge.Setup     main.py: the services made from a configuration
--   Bridge.Boot      main.py from make_main_services on, and service.py: the greenlets as a pool, and
--                    events in any order
--   Bridge.Tests     runs on small inputs, and the theorems at inputs that meet their hypotheses
--
-- The deployment tools (deploy-tools) deploy the validator auction with its locker and slasher, or go on
-- with contracts that are there, link them, and whitelist addresses.
--
--   Deploy.Auction    auction-deploy/src/auction_deploy/core.py and the command deploy of cli.py
--   Deploy.Whitelist  the whitelist, in both files
--   Deploy.Validators validator-set-deploy/src/validator_set_deploy/cli.py, check_validators
--   Deploy.Contracts  the commands that deploy, in both files of validator-set-deploy and bridge-deploy
--   Deploy.Tests      the same for these
--
-- The quickstart (quickstart/src/quickstart) asks a user for a validator account, a bridge configuration
-- and netstats credentials, writes them below a base directory, and starts the docker services.
--
--   Quickstart.Session       constants.py and the file tests of utils.py: the files, the answers to come and
--                            the commands that were run
--   Quickstart.Frame, Framed, Yields, Steps
--                            how proofs follow such code: what an action does to the files however it ends,
--                            what holds if it raises nothing, and the equations of single steps
--   Quickstart.Prompts       the dialogs of utils.py
--   Quickstart.Account       validator_account.py, and the files of an account in utils.py
--   Quickstart.BridgeConfig  bridge.py
--   Quickstart.Netstats      netstats.py and monitor.py
--   Quickstart.Env           the variables of the services in docker.py
--   Quickstart.Docker        docker.py
--   Quickstart.Run           cli.py
--   Quickstart.Tests         the same for these
--
-- State is passed explicitly: a method is a function from the state to a result and the state after it,
-- and an exception is a result. Sets and dictionaries are lists without repetition, whose order no
-- theorem depends on. Python's ints are natural numbers where they cannot be negative and signed ones
-- elsewhere; times and float intervals are counted in ticks. A node is a function of the number of the
-- call, so that each answer can differ; a call that tenacity repeats until it succeeds is a loop on
-- fuel where its failures matter (the sender), and the answer that it returns in the end elsewhere.
-- Endless loops are taken round by round, or over what is in their queue. Fuel is always larger than the
-- number of the call from which the node is up, or than the number of blocks still to fetch, and the
-- theorems show that this is enough.
--
-- In the quickstart, an answer is what a call of click's prompt or confirm returns; where no answers are
-- left the user has aborted, and so has one who waits longer for the chain specification than his patience
-- goes. That no answer is outside the choices that were offered is click's: the model raises the
-- AssertionError of the source there. A file is its text, and a reader of files finds what was last written.
--
-- In the bridge, a greenlet that dies of an exception runs the callback of main.py, but for a SystemExit,
-- which gevent's hub raises again in the main greenlet: the process ends with the status that Python gives
-- a SystemExit with a message. A message of the log counts where writing it can raise: the amounts in
-- ether of a balance check.
--
-- Not modelled: gevent itself, logging and its signals, the webservice, what the quickstart prints, and
-- the Solidity contracts, which the deployment tools call: what these rely on is a parameter with named
-- laws. The queue of pending transactions is bounded in the program, where `put` waits while it is full;
-- in the model it takes every element.
pub mod Prelude
pub mod Containers
pub mod Bridge
pub mod Deploy
pub mod Quickstart
