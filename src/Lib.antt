-- ===== src/Lib.antt =====
-- The relay server and the relay client of RIF Relay (paths are from the repository's root).
--
-- The client (src/relayclient) learns from the hub's events which relays are active, pings slices of
-- them and takes the first that answers; it signs the request, checks it by local calls, posts it to
-- the relay, validates the transaction that comes back, and goes on to the next relay where one
-- fails. A provider turns the requests of web3 into such relayed transactions. The server
-- (src/relayserver) checks a request, sends the call of the hub as its worker, stores what it sent,
-- and in each round of its timer registers itself, forgets confirmed transactions, boosts stuck ones
-- and refills its worker.
--
--   Base            lists, text, dictionaries, sorting, the methods that change a state and may
--                   throw (Exec) and the relations that they keep (Steps)
--   Common/Constants  src/common/Constants.ts
--   Common/Hex, Common/Gas  the hexadecimal texts and the gas formulas of src/common/Utils.ts
--   Common/Requests  src/common/EIP712 and src/relayclient/types: the requests that are signed
--   Common/Interactor  src/common/ContractInteractor.ts as the client uses it: its initialisation,
--                   the local checks of a request (Validation), the wait for a receipt (Receipts),
--                   and src/common/VersionsManager.ts
--   Common/Utils    isSameAddress of src/common/Utils.ts
--   Common/Events   the events and their order, isRegistrationValid, of src/common/Utils.ts
--   Common/Amount   src/common/AmountRequired.ts
--   Common/Versions  src/common/VersionRegistry.ts, with its names (Names) and changes (Registry)
--   Client/Known    src/relayclient/KnownRelaysManager.ts
--   Client/Selection  src/relayclient/RelaySelectionManager.ts
--   Client/Discovery  src/relayclient/SmartWalletDiscovery.ts
--   Client/Validator  src/relayclient/RelayedTransactionValidator.ts
--   Client/Accounts  src/relayclient/AccountManager.ts
--   Client/Relaying  src/relayclient/RelayClient.ts: its state and prices (Relaying), requests
--                   (Prepare), estimates (Estimates), one attempt (Attempt), all of them (Loop), and
--                   relayTransaction of src/relayclient/HttpClient.ts
--   Client/Provider  src/relayclient/RelayProvider.ts
--   Client/Enveloping  src/relayclient/Enveloping.ts
--   Server/Stored   src/relayserver/StoredTransaction.ts
--   Server/Store    src/relayserver/TxStoreManager.ts
--   Server/Keys     src/relayserver/KeyManager.ts, with the file of its seed (Keystore)
--   Server/Node     what the server asks of src/common/ContractInteractor.ts
--   Server/Transactions, Server/Pending  src/relayserver/TransactionManager.ts: sending with
--                   nonces; confirming, boosting, and histories of all three
--   Server/Registration  src/relayserver/RegistrationManager.ts
--   Server/Relay    src/relayserver/RelayServer.ts: its state (Relay), its requests (Requests), its
--                   rounds (Worker), and src/relayserver/ReplenishFunction.ts (Replenish)
--   Service         the answers of RelayServer to pings and queries, relayHandler of
--                   src/relayserver/HttpServer.ts, and where server and client agree (Agrees)
--   Commands        src/cli/CommandsLogic.ts: the registration of a relay (Paid), the wait until it
--                   is ready (Waits), the deployment of the contracts (Deploy)
--   Config          the configurations: the server's (Server, src/relayserver/ServerConfigParams.ts),
--                   the client's (Client, src/relayclient/Configurator.ts and
--                   src/common/Environments.ts), what the server starts with (Start,
--                   src/relayserver/runServer.ts), the files of deployments (Files, src/cli/utils.ts)
--   Tests           small instances on which the definitions run
--
-- A method is a function of the object's state that returns a result or an error and the new state;
-- what was written before a throw stays. The names are the source's, with underscores: putTx is
-- put_tx. The network is a record of answers, each of which depends on how many requests were made
-- before, so that the chain may move between any two requests. nedb, ethereumjs-tx, the HD wallet,
-- web3, the contracts, the ABI encoder and decoder, semver, the signatures, ow and the configured
-- score calculator, filter and gas factors are parameters, and so are minimist and the file system;
-- what is relied on of nedb, of ethereumjs-tx, of the wallet, of the pings, of minimist, of path.join
-- and of JSON.parse is in the records IsDatastore, IsEthTx, IsSettling, IsStart, IsFileEnv, IsKeystoreEnv
-- and in IsInjective.
--
-- Numbers are natural numbers, but for a configured one, which may be negative; a price times a
-- factor is an exact fraction; a difference of block numbers or balances that the source takes has
-- its subtrahend on the other side of the comparison, or is an integer. A decimal text of a number
-- is the number, and NaN is none; the factors of the gas formulas are exact fractions. The mutex
-- of sendTransaction makes what it guards one step; histories put what other tasks do before or
-- after it. Requests that Promise.all makes are made in order. The order in which pings settle is
-- a parameter, and a race that never resolves is the error never_settles. Loops of the client take
-- fuel; which is enough is proved for the selection over all relays, for the relays that a
-- transaction tries, for the wait for a relay, for the window of events and for the search of
-- wallets; splitRange is given the distance of its blocks, which its parts, of at least one block
-- each, cannot exceed.
--
-- Left out: printing and timers; delays, of which only the time slept for a receipt is kept; the
-- start of the server's process; reconnections of the discovery; methods that only pass their
-- arguments on to web3 or to a contract; HTTP and the options of the command line tools, which are
-- I/O or glue; the providers for tests (src/common/dev), the example script (src/sovryn) and the
-- Solidity contracts.
pub mod Base
pub mod Common
pub mod Client
pub mod Commands
pub mod Config
pub mod Server
pub mod Service
