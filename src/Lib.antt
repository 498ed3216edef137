-- ===== src/Lib.antt =====
-- TrustUp API: a NestJS service for buy-now-pay-later loans on Stellar. Wallets log in with signed
-- nonces, take loans at merchants on terms that their reputation sets, and repay them on chain; jobs
-- follow the chain and keep the tables of a Supabase database up to date.
--
-- The parts, and how they interact:
-- - Base: what the others share. Base/Outcome is an `async` method: a function of the state that
--   returns a result or an exception and the state it leaves (pure, >>=, throw, catch; what was
--   written before a throw stays). Base/Supabase is the client of the database, a record of the
--   statements on one table with what an answer without error promises; any statement may answer
--   with an error. Base/CacheManager is Redis. Base/SupabaseLaws turns the promises into lemmas.
-- - Auth: modules/auth/auth.service.ts (AuthService) with database/repositories/sessions.repository.ts
--   and users.repository.ts. Defs has the rows and the libraries (JWT, SHA-256, Ed25519) as a record of
--   functions, Repositories the statements, Service generateNonce and verifySignature, Tokens the
--   rest of the service. Nonces, Rotation, Revocation and Issue prove.
-- - Reputation: modules/reputation/reputation.service.ts (ReputationService). Terms has the tiers and
--   the hash that stands in for the contract, Service the read through Redis, Supabase and the chain.
-- - Loans: modules/loans/loans.service.ts (LoansService), loan.presenter.ts and
--   database/repositories/loans.repository.ts (LoansRepository). Money and Schedule are the
--   arithmetic, Defs and Repository the table and its statements, Quote the preview that asks the
--   reputation service and the merchants, Service creation, repayment previews and credit.
-- - StatusChecker: jobs/transaction-status-checker (TransactionStatusCheckerProcessor), which asks
--   Horizon for pending transactions, settles them once, and activates or repays the loan of each
--   through LoansRepository. Metadata is transaction-metadata.util.ts, FollowUp the effects on a
--   loan, Process the run of the job. Left and Answers lead to Repayment, and Paid to Run.
-- - Admin: modules/admin/admin.service.ts (AdminService). Service is overrideLoan, the state machine
--   of the status of a loan and its audit trail; Applications is approveMerchant and updateUserRole;
--   Applying is apply of modules/merchants/merchants.service.ts, which submits the applications that
--   are reviewed. Overrides, AuditTrail, Reviews and Pending prove.
-- - Indexer: jobs/blockchain-indexer (BlockchainIndexerProcessor), which copies the events of three
--   contracts into the tables loan_index, payment_index, reputation_history and reputation_cache.
--   Persist has persistEvent and its cases, Process the page, the cursor and the run of the job.
-- - LoanJobs: three jobs that claim their run by a row of loan_job_runs. Detector is
--   jobs/loan-default-detector (LoanDefaultDetectorProcessor), which marks overdue loans once per day,
--   with Defaults and Period; Accrual is jobs/interest-accrual (InterestAccrualProcessor), with
--   Accruals and Elapsed; Yield is jobs/yield-distribution (YieldDistributionProcessor), with
--   Crediting, Noting, Distribution and Shares. Interest is about the last two together.
-- - Webhooks: modules/webhooks/webhooks.service.ts (WebhooksService), in Endpoints, and
--   jobs/webhook-delivery: Dispatch is WebhookDispatchService, which LoansRepository calls at a change
--   of the status of a loan and which puts a job for each endpoint on a queue, and Delivery is
--   WebhookDeliveryProcessor, which runs that job. Owners, Occurrences, Queue, Attempts and Accepted
--   prove.
-- - Reminders: jobs/loan-payment-reminder (LoanPaymentReminderProcessor). Windows is
--   reminder-window.util.ts, Process the run; Sent, Totals, Once and Again prove.
-- - Stellar: blockchain/stellar/stellar.service.ts (StellarService). Retry is getTransaction with its
--   retries, which the transactions service and the status checker call.
-- - Transactions: modules/transactions/transactions.service.ts (TransactionsService). Errors has the
--   mapping of the codes of Horizon, Service the submission and the query of a status. It works on the
--   table of the status checker, and Settled is about the two together.
-- - Notifications: modules/notifications/notifications.service.ts (NotificationsService), the read
--   marks. Unread proves.
-- - Liquidity: modules/liquidity/liquidity.service.ts (LiquidityService), deposits and withdrawals, in
--   Service, and blockchain/contracts/liquidity-contract.client.ts (LiquidityContractClient), its reads
--   of the contract with their fallbacks, in Contract. Previews and RoundTrip prove.
-- - Merchants: modules/merchants/merchant-score.service.ts (MerchantScoreService), in Score, and
--   getLeaderboard of merchants.service.ts (MerchantsService), in Leaderboard. RowLimit is the limit
--   max_rows of supabase/config.toml, which cuts the two selects of the leaderboard. Bounds, Order and
--   Ranking prove.
--
-- Paths of source files are those of the repository, below its folder src.
--
-- Choices. Identifiers, wallets, hashes and texts are numbers, since the code only compares them.
-- Times are milliseconds since the epoch. An amount of money is a whole number of stroops, a cent
-- is 100000 of them, and each rounding to cents is written out; the amount of a contract call is
-- signed; rounding errors of JavaScript's
-- binary numbers are not modelled. The hash of a wallet wraps at 32 bits as `hash |= 0` does. Loops
-- run over lists, or count down from the bounds that the code itself has: 1000 occurrences of a
-- webhook event, and 3 attempts of a lookup, so there is no other fuel. Methods run one after another:
-- the interleaving of two requests is not modelled, except that a statement may always fail. The
-- selects of the other parts are taken to find at most max_rows rows, so that the limit cuts none.
--
-- Not modelled: controllers, modules, configuration and input validation; Soroban and the
-- transactions built for it, the HTTP client of the webhooks, HMAC and the queue, which are
-- parameters; logging; the lists, portfolios and reports that only read; and the components of the
-- repository that are not named above (event parser, users, guards and interceptors, the MCP server).
pub mod Base
pub mod Auth
pub mod Reputation
pub mod Loans
pub mod StatusChecker
pub mod Admin
pub mod Indexer
pub mod LoanJobs
pub mod Webhooks
pub mod Reminders
pub mod Stellar
pub mod Transactions
pub mod Notifications
pub mod Liquidity
pub mod Merchants
