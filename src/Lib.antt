-- ===== src/Lib.antt =====
-- SoroPool: the mathematics of its pools, the services that route a swap over them, the indexer of
-- ledger events, the figures that are shown, the requests that the server checks, and the wallet, the
-- sign-in, and the pages for swaps and liquidity of the frontend.
--
-- Base: shared names, Boolean tests, lists, bigints (Base/Int), and what a call returns or throws
--   (Base/Outcome).
-- Js: the parts of JavaScript that the program relies on: `BigInt(text)` and `toString`
--   (Js/BigInt), a stable `sort` (Js/Sort), and an interface for doubles (Js/Number), whose
--   operations have no laws.
-- Math/ConstantProduct: backend/src/shared/amm-math/constant-product.math.ts, one function for each
--   of the file's (`getAmountOut` is get_amount_out, `integerSqrt` is integer_sqrt, and so on). A
--   function on texts parses them and calls its part on bigints (amount_out_big and the like). The
--   loop of `integerSqrt` has x + 1 rounds, which are enough since every round lowers its variable.
-- Math/Concentrated: backend/src/shared/amm-math/concentrated.math.ts. The tests of `tickToPrice` on
--   the bits of the tick are a list of factors; the three loops of `priceToTick` have as many rounds
--   as the price, 130 and 130, which are enough since the first halves the price and the others run
--   over 129 bits at most.
-- Math/Stable: backend/src/shared/amm-math/stable-swap.math.ts. The two loops to D and to y have 256
--   rounds, as in the source, and end where two values are near (settle).
-- Routing: backend/src/modules/routing. Paths is `findAllPathsInGraph` and Simulate is
--   `simulatePath` and `findBestEdge` of routing.service.ts; Best is its `findBestRoute` and
--   `findAllPaths`; Split is split-route.service.ts; Aggregate and Quote are
--   quote-aggregator.service.ts. `Action` is an async method: a function of the state of the
--   services behind it. The graphology package and the Redis client are records of operations
--   (Graphology in Routing/Graph, QuoteCache in Routing/Quote), and `getGraph` is a parameter of the
--   routing. GraphService is graph.service.ts, with its `graph` field as state beside the state of
--   the pools service and Redis (GraphSources), and GraphKey is the keys of edges.
-- Swap: backend/src/modules/swap/swap.service.ts, from the pool that the repository returns; Records is
--   its transactions and the swaps that it stores.
-- Pools: backend/src/modules/pools/pools.service.ts; the other services take what they need of it as
--   parameters of their own.
-- Indexer/Events: backend/src/modules/indexer/event-processor.service.ts, with its set of keys as a
--   list in the order of insertion, and the services that it hands events to as a record (Indexers).
-- Indexer/Payload, Indexer/Ledgers: backend/src/modules/indexer/stellar-indexer.service.ts. Payload is
--   what an event carries and how contract events are decoded, Ledgers is `pollLedgers` with its
--   requests. The node and Redis are a record of calls (Chain), and a poll runs on the state of the
--   event processor, which it hands the events to. All events of a poll have the time of the poll.
--   Ledgers/Expired and Ledgers/InTime put the Redis service behind it, with its lifetime, and Pipeline the
--   indexers behind the processor.
-- Indexer/Liquidity: backend/src/modules/indexer/liquidity-indexer.service.ts, over the tables as an
--   interface (Database in Indexer/Database, with its laws in DatabaseWorks). The columns of the entities are
--   decimals, whose texts have a point: Indexer/Decimals is what both indexers come to on those.
--   VerbatimColumns are columns that give a text back as it was stored, with Account as the abstract view:
--   the reserves of a pool and the amounts of one position, as numbers.
-- Indexer/Swaps: backend/src/modules/indexer/swap-indexer.service.ts, over the same interface.
-- Analytics: backend/src/modules/analytics. Candles is candlestick.service.ts, with its map of buckets as
--   a list in the order of insertion; Tvl is tvl.service.ts; Interval is the `parseInterval` that both
--   have; Leaderboard is leaderboard.service.ts.
-- Redis: backend/src/shared/redis/redis.service.ts, over the client as an interface with a clock
--   (RedisClient, and ClientWorks for what it does where every call succeeds).
-- Requests: the checks of backend/src/common/decorators and of the bodies of swap/build and pools/create,
--   with the methods of the two controllers behind them and pool-factory.service.ts. What
--   class-validator checks is written as it documents it.
-- Accounts: backend/src/modules/auth/auth.service.ts and auth.controller.ts (Auth) and
--   backend/src/modules/tokens/token.service.ts (Tokens). Keys, JSON web tokens, the repository and
--   requests are parameters.
-- Frontend/Wallet: frontend/src/app/core/services/wallet.service.ts. What the wallets answer is a
--   parameter of each call. Wallet/View is the service as its callers see it: a wallet with a key, or none.
-- Frontend/Feed: frontend/src/app/core/services/price-feed.service.ts, over the browser as an interface.
-- Frontend/SignIn: frontend/src/app/core/store/auth and core/interceptors/api.interceptor.ts, with the
--   server's auth/verify behind the request. Each wait of the effect is a step, with others between.
-- Frontend/AmmMath: frontend/src/app/core/services/amm-math.service.ts. The loop of its root has one round
--   more than the number, as that of the server.
-- Frontend/SwapStore, Frontend/SwapForm: frontend/src/app/core/store/swap and
--   frontend/src/app/features/swap/swap.component.ts. The store keeps the request of its effect that
--   is not answered yet; the steps of one visit of the page are inputs, buttons and answers, in any order, on
--   whatever store earlier visits have left.
-- Frontend/Pools, Frontend/Liquidity: frontend/src/app/core/store/pools, and add-liquidity.component.ts and
--   remove-liquidity.component.ts of frontend/src/app/features/liquidity over it.
-- Tests: runs on small inputs.
--
-- The search for paths recurs on the number of hops left, and the loop over the ratios on the list of
-- them, so neither takes fuel. Fees are whole numbers of basis points. Logging is left out. A call of a
-- service runs to its end before the next: polls, and connections of wallets, do not overlap (signing on
-- the swap page and signing in are steps, with others between them). Not modelled: the volumes and fees (they are queries of the database), the entities, the HTTP and socket layers, and the pages and stores of
-- the frontend but for those named above.
pub mod Base
pub mod Js
pub mod Math
pub mod Routing
pub mod Swap
pub mod Pools
pub mod Redis
pub mod Requests
pub mod Indexer
pub mod Analytics
pub mod Accounts
pub mod Frontend
mod Tests
