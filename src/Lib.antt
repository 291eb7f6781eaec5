-- ===== src/Lib.antt =====
-- A model of mogtrade, a trading backend in Go: its matching engine, its orders, billing, KYC and
-- authentication services, its currency converter, and the database queries they rest on.
--
-- The parts and how they interact. A request places an order: the orders service records it in
-- the database, the risk engine checks it, the billing service charges the wallet, and the
-- matching engine gets it. The engine keeps one order book for each symbol and matches crossing
-- orders in goroutines; what it matches is published, recorded as an execution and applied to the
-- orders in the database.
--
-- * Base holds shared names: tests, lists, maps and integers.
-- * Decimal is github.com/shopspring/decimal, which is not in the repository: a record of
--   operations and laws that every module takes as a parameter `d`. Amounts are exact, and the
--   printed form is one for each number. Decimal/Whole is an instance on the integers.
-- * Matching/Heap is Go's container/heap over the price lists of services/matching/book.go:
--   up, down, Push, Pop, Remove and Peek as functions on lists. Heap/Order says what a heap is;
--   Up, Down, Contents and Removal show that the operations keep the order and the entries.
-- * Matching/Book is services/matching/book.go. A `Ladder` is one side, a map of levels with a
--   heap of prices; `add_order`, `remove_order`, `best_ask` and `best_bid` are AddOrder,
--   RemoveOrder, BestAsk and BestBid. The source writes each operation for both sides; here one
--   function takes the order of the price list. Book/Valid is the invariant.
-- * Matching/Engine is the loop of findMatches of services/matching/engine.go: a round is
--   `match_once`, and a round that purges a stale price, trades or stops is a `Round`. The loop
--   runs on fuel, one more than the waiting orders and listed prices of the book; each round that
--   goes on lowers their number, so the fuel is enough for every book (Engine/Settling).
--   Engine/Trades is the specification of price-time priority. Engine/Calls has PlaceMatchOrder,
--   CancelMatchOrder and findMatches on the engine's books.
-- * Matching/Exchange is the engine with its goroutines: a system whose steps are calls of the
--   engine and runs of started matches, in any order.
-- * Database is infra/db: rows and enumerations of models.go, the queries of orders.sql.go and
--   wallet.sql.go as functions on tables, and WithTransaction of app/helpers/utils.go. A session
--   has a schedule of faults, one for each statement, so that every statement may fail; inside a
--   transaction a failed statement makes the later ones fail. Unique indexes are checked. A row
--   that a foreign key or a text that an enumeration refuses is one of the faults. The rounding
--   of numeric columns is left out. The view wallet_snapshots is that of migration 000044.
-- * Orders is services/orders: service.go (Status, Service) and risk-engine.go (Risk), with what
--   they do in Transitions, Placing, Recording (with Insertion), Executing, Filling, Risk/Refusal and
--   Risk/Limits.
-- * Billing is services/billing/wallet.go (Status, Service), with what it does in Recording,
--   Changing, Opening and Balances.
-- * Controller is app/controller/orders.go in part: Placing is the validation of a payload
--   (app/payloads/http/order.go) and the transaction of handlePlaceOrder, Stored what that
--   transaction leaves in the tables (with Standing), Handling the whole handler with the engines,
--   Matched is the transaction that handleOnMatchFoundEvent runs for one published match, Cancelling
--   is handleCancelOrder with the virtual and the real engine. Reloading is
--   bootstrapMatchingEngine (with Loaded), Pending is applyPendingFills (with Batches and
--   Settling), Finding is handleFindOrders. The two loops over pages run on fuel, one more than the
--   rows of the table; each page moves the cursor past a row, so that it is enough.
-- * Controller/Balance and Payout are handleGetBalance and handleOnExecutionFilled of
--   app/controller/wallet.go.
-- * Database/Listing has the queries that these page with. Paging shows that the pages are the
--   rows after the first cursor in the order of their ids (with Choosing), for every collation
--   that is a total order (TextOrder, Keys).
-- * Database/People, Kyc and Auth are the rows and queries of kyc.sql.go and auth.sql.go.
-- * Kyc is services/kyc/service.go (Service) and app/controller/kyc.go (Forms, Handlers). Effects
--   says what each call does to the tables, Life and Orderly what that means for the records, and
--   System is the calls in any order. Beginning is the application, Answers what the handlers tell.
-- * Auth is services/auth (Password, Service) and its handlers in app/controller (Handlers), with
--   what they do to the refresh tokens in Tokens and to a verification in Resetting.
-- * Currency is infra/sources/currency-converter.go and app/helpers/finance.go: Converter is the
--   cache and the loop over the sources, by recursion on the attempts that are left, as many as
--   there are sources; Turns is the round robin, Rates what the callers get.
--
-- Errors are values: an error of a service is a constructor of `Error` in Database/Session, and a
-- panic (a nil dereference, a division by zero) is one too. Instants are numbers. Logging,
-- the binding of requests, payments, the market feed, mail and storage are not modelled. The clock
-- of a session stands still between the statements of one call.
pub mod Auth
pub mod Base
pub mod Billing
pub mod Controller
pub mod Currency
pub mod Database
pub mod Decimal
pub mod Kyc
pub mod Matching
pub mod Orders
