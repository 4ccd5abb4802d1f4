-- ===== src/Lib.antt =====
-- eibc-client: a client that fulfils eIBC demand orders for liquidity providers (LPs). It learns of
-- orders, finds an LP for each, waits until full nodes of the rollapp confirm the order's block, and
-- has the LP pay through an authorized message.
--
-- Parts and files:
--   Base        shared helpers: results of fallible code (ok, err, panic), association-list maps,
--               integers, text of numbers, stable sorting as the specification of Go's sorts, and
--               the pieces of slices.Chunk, and base64.
--   Sdk         the coins and decimals of the Cosmos SDK, as an interface whose operations are
--               parameters; Sdk/Laws states the documented behaviour that theorems rely on.
--   Types       eibc/types.go: demandOrder, orderFulfillResult, account.
--   Config      config/config.go: the configuration records, constants and options of the clients;
--               Config/Defaults is InitConfig, with viper as a parameter.
--   Pool        eibc/pool.go: orderPool with addOrder, getOrder, upsertOrder, removeOrder, setValid
--               and popOrders. Orders are shared by pointer between the pool and the tracker, so
--               the memory of orders is a function from pointers (numbers) to orders, and the pool
--               holds pointers. Pool/Contents and Pool/Dispatch hold the proofs.
--   Lp          eibc/lp.go, the funds of one LP; Lp/Funds holds the proofs.
--   Node        eibc/node_client.go: newNodeClient, BlockValidated with its cache, getHttp.
--   Tracker     eibc/order_tracker.go and the rest of eibc/lp.go: Tracker/State is the tracker with
--               canFulfillOrder, checkOrders and manageProcessed; Tracker/Selection is
--               findLPForOrder and what it calls; Tracker/Validation is getValidAndRetryOrders and
--               enqueueValidOrders; Tracker/Grants is loadLPs and refreshBalances, with
--               Tracker/Grants/Reload on the LPs that are dropped and Tracker/Grants/Criteria on the
--               criteria that are kept; Tracker/Intake
--               is what the poller and the eventer do alike with an order that they learn of.
--   Msgs        types/tx.go: MsgFulfillOrderAuthorized with ValidateBasic and GetSigners.
--   Fulfiller   eibc/order_fulfiller.go: processBatch and fulfillAuthorizedDemandOrders, and
--               waitForTx of eibc/account.go.
--   Poller      eibc/order_poller.go: the queries to the hub; Poller/Convert is convertOrders and
--               pollPendingDemandOrders, Poller/Indexer the query to the indexer, and
--               Poller/DemandOrders is types/eibc/demand_order.go.
--   Eventer     eibc/order_eventer.go: parseOrdersFromEvents and enqueueEventOrders.
--   Finalizer   eibc/order_finalizer.go, with the message of types/eibc/msgs.go.
--   Startup     retry, getHubClient and getFullNodeClients of eibc/order_client.go, and the group
--               members of addFulfillersToGroup in eibc/account.go.
--   Accounts    the rest of eibc/account.go: the accounts of the fulfillers in the keyring, and in
--               Accounts/Chain what is asked of and sent to the chain for them.
--   Client      NewOrderClient of eibc/order_client.go, with the constructors of the parts. What the
--               keyring, the chain and cosmosclient.New answer is the record World. Client/Start is
--               about the client that is returned, Client/Panics and Client/Disabled about panics.
--   System      eibc/order_client.go, Start: the goroutines as steps on the shared state and the
--               channels, and the runs that they make. System/Solvency is about the funds of the
--               LPs, System/Exclusive about the batches that wait, System/Protocol about the way of
--               one order, System/Confirmed about its check, and System/Started and System/Returns
--               about the runs of a client that NewOrderClient made.
--   Launch      Start until it waits for ever, and the start command of cmd/cmd.go.
--   Commands    the init and scale commands of cmd/cmd.go, and utils/viper/config.go.
--   Examples    concrete runs, and the theorems at concrete inputs.
--
-- The channels between the goroutines are lists of messages, oldest first. A handler of one message
-- is one step of the model; the code's mutexes guard the fields that a step changes, and steps of
-- different goroutines are taken to run one after another. A list has no bound, while the channels
-- of the code do: where a send on a full channel waits, the model goes on. `start` of Launch is one
-- function that runs without a break, though the goroutines that the tracker starts there already
-- run beside the rest of it; the steps of System, from the state `initial`, may come in any order.
-- What the code does not decide is an argument: the keys in the order in which a map is visited, the
-- shuffle of LPs, the clock, and the answers of full nodes and of the chain. An LP map is visited in
-- the order of its list.
-- Loops over slices and maps are structural recursion, and no definition uses fuel.
--
-- The counts of the configuration (fulfillers.scale, fulfillers.max_orders_per_tx) are integers; a
-- negative scale makes newOrderTracker panic, and elsewhere a negative count acts as 0. The
-- operations of the Sdk are total except for the subtraction of coins, so the panics of
-- LegacyDec.Mul and TruncateInt on overflow are left out. The zero nodeClient of the sequencer mode
-- has an empty map where the code has nil, which differs only in a write, and BlockValidated is not
-- reached in that mode since no order is taken on.
--
-- The theorems on books assume the laws of Sdk/Laws, and of a shuffle that it moves the LPs
-- (IsShuffle in Tracker/Selection/Choice). A refresh of the balances may set a balance below what
-- is reserved, so a theorem on the funds in a run asks that no refresh of the run did
-- (RefreshesKeep in System/Solvency).
--
-- Not modelled: logging, waiting (tickers, contexts, timeouts), the goroutines, mutexes and channels
-- themselves, gRPC and HTTP transport, the encoding of JSON, YAML and protobuf with the generated
-- code, the reading of flags and of the environment, and GetSignBytes.
pub mod Base
pub mod Sdk
pub mod Types
pub mod Config
pub mod Node
pub mod Pool
pub mod Lp
pub mod Tracker
pub mod Msgs
pub mod Fulfiller
pub mod Poller
pub mod Eventer
pub mod Finalizer
pub mod Startup
pub mod Accounts
pub mod Client
pub mod System
pub mod Launch
pub mod Commands
pub mod Examples
