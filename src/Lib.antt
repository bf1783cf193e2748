-- ===== src/Lib.antt =====
-- Accord Protocol: the TypeScript SDK of the treasury contract and the logic of its front end.
--
-- The SDK (packages/sdk/src) is what a program uses to act on the on-chain treasury. A method of
-- its client checks its arguments (validation.ts), encodes them as contract values (conversion.ts)
-- and hands them to `executeTransaction`, which simulates, signs and sends a transaction; host
-- errors are parsed into the SDK's own errors (errors.ts). The front end (frontend/src/lib) shows
-- proposals and moves their status by a state machine, rates how the voting weights are spread, and
-- answers queries about the treasury's spending, balance and flow.
--
-- Files and code:
--   Prelude             shared names; lists, integers, JavaScript's `number` and text
--   ContractPattern     the pattern `Error(Contract, #n)` of packages/sdk/src/errors.ts and of
--                       frontend/src/lib/soroban.ts
--   Proposals           frontend/src/lib/proposalStateMachine.ts; Edges has the transitions as a
--                       relation, Traces has lists of events
--   Governance          frontend/src/lib/governanceHealth.ts; Rating and Risks have what a rating
--                       and its risks mean
--   Calendar            JavaScript's `Date` in UTC: years, months and the days of the civil calendar;
--                       Iso prints them
--   Analytics.Range     frontend/src/lib/analyticsRange.ts; Parsing, Days, Clamping and Presets have
--                       what its functions return
--   Analytics.Js        what frontend/src/lib/analyticsApi.ts uses of JavaScript
--   Analytics.Query     frontend/src/lib/analyticsApi.ts: the validation of queries; Checks and
--                       Accepted have which are accepted
--   Analytics.Endpoints, Analytics.Spending, Analytics.Treasury, Analytics.Flow, Analytics.Routing
--                       frontend/src/lib/analyticsApi.ts: filters, the five handlers, the router
--   Analytics.RateLimit frontend/src/lib/analyticsSecurity.ts: the rate limiter; Bursts has what it
--                       lets through
--   Frontend.ContractErrors   frontend/src/lib/soroban.ts: the texts of contract errors
--   Frontend.ContractEvents   frontend/src/lib/contract.ts: keys, order and types of events, and the
--                       history of the total weight; Keys and Deduped have what the keys tell
--   Frontend.EventPush        frontend/src/lib/eventPush.ts: the push channel, its handlers and its
--                       timer; Reach has the reachable states
--   Frontend.Polling          frontend/src/lib/polling.ts; Serial has the reachable states
--   Frontend.Notifications    frontend/src/lib/notificationCenter.ts
--   Frontend.Submission       frontend/src/lib/submit.ts: retries and the texts of errors
--   Frontend.AddressBook      frontend/src/lib/addressBook.ts, which like Notifications
--                       keeps its list in Frontend.LocalStorage
--   Frontend.OwnerLabels      frontend/src/lib/ownerLabels.ts; Kept has what a label set does
--   Frontend.Templates        frontend/src/lib/proposalTemplates.ts; Named has what each id names
--   Frontend.Changelog        frontend/src/lib/changelog.ts, less parsing; Unread has what is new
--   Sdk.Failure         the error classes of packages/sdk/src/errors.ts, and results
--   Sdk.Errors          packages/sdk/src/errors.ts: the enum, the messages, `parseContractError`
--   Sdk.Validation      packages/sdk/src/validation.ts
--   Sdk.Types           packages/sdk/src/types.ts: arguments of the methods
--   Sdk.Conversion      packages/sdk/src/conversion.ts: the encoders
--   Sdk.Client          packages/sdk/src/client.ts: the methods by group, each up to its call of
--                       `executeTransaction` (Governance, Recurring, Lifecycle, Administration),
--                       all of them as requests (Request), `executeTransaction` (Transaction)
--                       and `simulateView` (View)
-- A function `validateAddress` is `validate_address` here, and so on. The theorems on concrete
-- inputs stand in the modules named Examples.
--
-- State and errors. A function that throws returns a result, whose error is one of the SDK's own
-- or a foreign value with its text. `executeTransaction` is an action over a log of what was asked
-- of the network and the signer. The Stellar SDK (address checks, constructors of contract values)
-- and the host (account lookup, simulation, sending, signing, building) are parameters, and an
-- answer may depend on the whole log.
--
-- The push channel's variables are a record and its handlers functions on it, with a log of what the
-- callbacks are told; which handler runs next is open. `localStorage` is a parameter that may throw
-- and of which only is assumed that what was written is read back.
--
-- Numbers. `bigint` is an integer; `number` is an exact rational, an infinity or NaN, which is all
-- that the comparisons here read; only in Prelude.Double is a number that was read from digits rounded
-- to the nearest double. A text is a list of UTF-16 code units. In the rating, weights
-- are natural numbers, and a percentage is compared by cross multiplication where the program
-- divides doubles: for weights below 2^32 the tests against 25, 40, 50 and 80 percent agree, since
-- two such quotients that differ do so by more than the rounding. All loops are recursion on a
-- list or on the number of attempts left, but for four on fuel: printing a number and finding the
-- year of a day, where the number itself is enough, the loop over the buckets of the treasury's
-- flow, where the number of days from the first to the last is, and halving a number of more than 53
-- bits, where what is left after 1024 times is larger than any double.
--
-- Dates and amounts of the analytics. A day is counted from the beginning of the year 0, an instant
-- in milliseconds from there; what is earlier is not modelled. `Date.UTC` reads a year below 100 as
-- one of the twentieth century, so some results ask for later years. Amounts are doubles in the
-- program: their type and its operations are a parameter, as are reading dates and numbers from
-- text, case and collation. A JavaScript `Map` is a list of its entries in their order.
--
-- Not modelled: the contract (Rust), the analytics service and the indexer (services over a
-- database), views of the user interface, the SDK's view methods with their decoders, the
-- constructor of its client, and the parts of the front end's lib that no file here names.
pub mod Analytics
pub mod Calendar
pub mod ContractPattern
pub mod Frontend
pub mod Governance
pub mod Prelude
pub mod Proposals
pub mod Sdk
