-- ===== src/Lib.antt =====
-- SustainableFashionChain: the supply-chain contract on Hyperledger Fabric, its certification
-- standards, and the bridge that mints tokens on Ethereum for batches that the contract backs.
--
-- The parts and the files that model them. Prelude holds the names, tests, texts and integers that
-- all share; Number, Json and Json/Compare the part of JavaScript's values that the source uses:
-- finite numbers as dyadic rationals, JSON objects as ordered fields, the relational operators.
-- - fabric/chaincode/supplychain/index.js (SupplyChainContract). Fabric is the chaincode API: an
--   action `Exec` reads a committed world state and collects its writes and events, and a throw
--   leaves none. Fabric/Ledger is the interface of a world state. Contract and its children
--   Products, Cotton, Tokenization, Nft and Queries have one definition per transaction, under the
--   transaction's name in snake case. Contract/Records says what the records are, Contract/Changes
--   what one transaction writes, and the Effects modules show it for each. Contract/History runs
--   sequences of calls.
-- - fabric/chaincode/supplychain/certificationStandards.js: Certification, with what the names
--   that objects inherit lead to.
-- - fabric/chaincode/supplychain/iotIntegration.js (IoTIntegration): Iot, the transactions of
--   devices on the same chaincode API; the clock and JSON.stringify are parameters.
-- - bridging/oracle-validation.js: Bridge/Oracle.
-- - bridging/verified-relay.js: Bridge/Relay, over the services of Bridge/Services, the token on
--   Ethereum and the gateway to the contract, which are parameters.
-- - bridging/bridge.js: Bridge/Queue, the retry queue. A batch is a sequence of steps, so other
--   calls may stand between the endings of its actions.
-- - bridging/bridge.js, the handlers of NFTs: Bridge/Nft, with ethereum/contracts/ProductNFT.sol
--   as far as they use it. Whether a mint is accepted, mined and confirmed is a parameter of each
--   call.
-- - fabric/application/models/User.js, controllers/authController.js, middleware/auth.js and
--   routes/authRoutes.js: Accounts. Accounts/Action has the users collection as an interface, the
--   libraries as an environment, and actions that keep what they did when they throw; Model has
--   the document's methods, Login, Recovery and Profile the handlers, Access the middleware,
--   Routes the routes behind it. Requests are served one at a time, each with one reading of the
--   clock.
-- - bridging/services/analyticsService.js (AnalyticsService): Analytics. Metrics has what the
--   service sees and the tables it counts in, Batches and Products the loops over the ledger's
--   records, Answers the other answers, Service the four caches with their one time of update and
--   the calls, Fresh sequences of calls. The calls run one after another. Doubles are added by a
--   parameter. What is counted under a name that every object inherits (Json.prototype_names) is a
--   text, as in the source; that such a name as a material's type writes to what is inherited is
--   left out.
-- - fabric/application/services/shardingServices.js (ShardingService): Sharding, over the commands
--   of the MongoDB cluster as a parameter; Balance has rebalanceChunks and autoBalance. A number
--   of chunks that a reply lacks makes the sums NaN.
-- - fabric/application/services/cacheService.js and middleware/cache.js: Cache, over a Redis
--   client that may throw and JSON as parameters; Cache/Middleware is both middlewares around a
--   handler. Values do not expire, and the handler's answers do not change meanwhile.
--
-- The bridge reads the event that approveTokenizationRequest sets, relays it, and acknowledges it by
-- completeTokenization, which is why that call is idempotent and the relay may be repeated.
--
-- The polls of rebalanceChunks run on fuel, as the code sets them no limit, and enough fuel is
-- given where the balancer ends. No other definition runs on fuel: the loops are recursions on
-- lists, on the attempts that are left, and `run_batches` on the number of batches. The platform,
-- JSON.parse, Number(text), String(number), division and the identity of the client are parameters
-- of the environment. A record is what the contract writes, a JSON object, or bytes that do not
-- parse; a list of keys is not modelled, so a range is what its iterator yields. The platform
-- refuses an empty key.
--
-- Not modelled: connections, timers and event streams of the bridge, the reports of the analytics
-- service, the health checks of the sharding service, the query of readings by time and the metrics
-- of the IoT integration, the application servers, the queue and the notifications, the other
-- Solidity contracts, the frontend, the agent and the scripts.
pub mod Prelude
pub mod Number
pub mod Json
pub mod Fabric
pub mod Contract
pub mod Certification
pub mod Iot
pub mod Accounts
pub mod Cache
pub mod Sharding
pub mod Analytics
pub mod Bridge
