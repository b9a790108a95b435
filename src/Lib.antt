-- ===== src/Lib.antt =====
-- The server of a shopping cart (server/src): carts, orders, payments and inventory, and the
-- saga that takes a placed order through the reservation of its products, its payment and its
-- end.
--
-- The parts and the files that model them, paths from the repository's root:
--   Shared       the value objects (server/src/core/domain/shared/domain/value-object):
--                UniqueEntityId is UniqueId, Quantity.create is Shared.Quantity.create, and so
--                on. An id stands for its text. Shared.Double is the arithmetic of amounts, and
--                Shared.Double.Exact and Shared.Price.Laws prove.
--   Cart         CartAggregate and CartItem (server/src/core/domain/cart): addCartItem is
--                add_cart_item; Cart.Items, Cart.View and Cart.Total prove. Cart.Persistence is
--                PersistenceCartMapper and CartRepository, and Cart.Handlers the cart handlers
--                (server/src/core/application/cart/command); Cart.Keeping and Cart.Adding prove.
--   Coupon       the coupon's code, type and reduction (server/src/core/domain/coupon);
--                Coupon.Codes proves.
--   Password     the password of a user (server/src/core/domain/user/value-object); bcrypt is an
--                argument, and Password.Comparing proves.
--   Inventory    InventoryAggregate (server/src/core/domain/inventory); Inventory.Laws proves.
--   Order        OrderAggregate, OrderLine and the order states (server/src/core/domain/order),
--                Event the events of orders, payments and inventory; Order.Graph and Order.Total
--                prove.
--   Payment      PaymentAggregate and its states (server/src/core/domain/payment); Payment.Graph
--                proves.
--   Saga         SagaInstance (server/src/core/domain/saga); Saga.Reservation and Saga.Progress
--                prove.
--   Cache        the stock that Redis keeps (server/src/infrastructure/cache);
--                Cache.Conservation proves.
--   Store        the state of the system and what handlers do with it: the tables, Redis, the
--                job queue and the event bus (server/src/infrastructure/persistence, cache and
--                queue). A World is that state, an Action is a step that returns or throws. Rows
--                come back as the mappers make them.
--   UnitOfWork   TypeOrmUnitOfWork (server/src/infrastructure/persistence/typeorm/unit-of-work).
--   Handlers     the command handlers (server/src/core/application/order, payment and inventory)
--                and the job worker (server/src/infrastructure/queue/processor); OrdersCalm,
--                PaymentsCalm, StockCalm and Pricing.Laws prove. Versions is the versioned
--                update of inventories, and ReserveV1 the first version of the reservation; its
--                children prove.
--   Orchestrator OrderProcessingOrchestrator (server/src/core/application/saga/orchestrator):
--                react is the command that an event leads to, deliver handles the oldest event.
--                Lines, Reserve, Lineup, Release, Ending, Placement, Cancel, Settlement, Payoff
--                and Fault prove.
--   Recover      OrderProcessingRecover (server/src/core/application/saga/recover).
--   Lock         RedisDistributedLockService (server/src/infrastructure/distributed-lock);
--                Exclusion and Attempts prove.
--   Idempotency  RedisIdempotencyService (server/src/infrastructure/idempotency), for one key:
--                the requests with it are steps that interleave; Exclusion and Replay prove.
--   Interceptor  IdempotencyInterceptor
--                (server/src/infrastructure/idempotency/itempotency.interceptor.ts) over the
--                port of the keys; Interceptor.Keys states the laws of the port and gives them
--                for the service, Interceptor.Replay proves.
--   Query        TypeOrmQueryBuilderService
--                (server/src/infrastructure/persistence/typeorm/query-builder): Filters, Pages,
--                Cursor and Seek are applyFilters, buildQuery, the cursors and
--                buildQueryWithCursor; Filtering, Paging, Payload, Beyond, Following, Joining,
--                Walk, Backward and Preceding prove. The database library is a parameter, with what it
--                answers as hypotheses.
--   Tests        test data and the theorems at concrete inputs.
--
-- How they interact: a handler loads aggregates from the repositories, calls their methods,
-- stores them and publishes events; the orchestrator answers each event with the next command.
-- Handlers run one after the other; an interleaving is a list of requests where a module speaks
-- of one (Cache.Conservation, Lock.Exclusion, Idempotency). The outside world fails by a
-- schedule of faults: each call of the database, Redis or the queue takes one entry and throws
-- if it says so, and with no entry left none fails. A world is calm when none will fail and no
-- transaction is open.
--
-- Amounts of money are JavaScript numbers: Shared.Double counts them in units of 2 ^ -1074, of which
-- every finite double is a whole number, and rounds sums, differences and products to 53 bits as
-- JavaScript does; its search for the exponent has fuel for all exponents below infinity. Counts are
-- whole numbers below 2 ^ 53, where they are exact. Ids, times and fresh ids are numbers; new ids
-- and the time are arguments. All other recursion is structural; a walk through pages counts its
-- pages.
--
-- Not modelled: controllers, queries, authentication, logging, metrics and the client, which are
-- glue; the read of a cart with a page of its items; the status rows of jobs; the timing of an
-- answer that goes out before its idempotency key is marked; the rounding of stored amounts to
-- hundredths by the numeric columns; a work that ends the transaction of execute and begins
-- another one, which no caller does; a limit of buildQueryWithCursor that comes as a text, to
-- which the source would append a 1. The database, Redis, the queue and the framework's buses
-- are outside the repository: the model has what the code relies on, a table keyed by id, one
-- atomic step for a command or script of Redis, and events handled in their order. The database
-- stamps the times of its rows; the model keeps those of the aggregates.
pub mod Prelude
pub mod Shared
pub mod Cart
pub mod Coupon
pub mod Inventory
pub mod Order
pub mod Event
pub mod Password
pub mod Payment
pub mod Saga
pub mod Cache
pub mod Store
pub mod UnitOfWork
pub mod Handlers
pub mod Orchestrator
pub mod Recover
pub mod Lock
pub mod Idempotency
pub mod Interceptor
pub mod Query
pub mod Tests
