-- ===== src/Lib.antt =====
-- The financial core of ChamaCore, the backend of savings groups (Chamas).
--
-- A Chama's money is what its double-entry ledger says: balances are never stored. The services of
-- app/services change loans, payouts, contributions and registration fees, post to the ledger where money
-- moves, and record an audit event, all through one database session per request. Contributions may also
-- be paid through a provider: an intent orders the payment, attempts ask the provider for it, and a
-- status query or the provider's callback resolves an attempt and settles the contribution.
--
-- Which file models which part:
--   Prelude        Booleans, integers over the native numbers, tables as lists of rows
--   Money          `decimal.Decimal` amounts and their rounding to cents
--   Data           the rows of app/models and the database as a record of tables
--   Session        the SQLAlchemy session of app/db/session.py, the errors of app/core/errors.py
--   Access         app/services/access.py
--   Audit          app/services/audit.py
--   Finance        app/services/finance.py
--   Ledger         app/services/ledger.py over app/repositories/ledger.py: `post_transaction` and
--                  `reverse_transaction` keep their names; Ledger.Lines has `_normalize_lines` and
--                  `_validate_lines`, Ledger.Store the queries, the unique constraints and
--                  `_resolve_idempotent_retry` and balances, Ledger.Chart the seeding of the chart of
--                  accounts
--   Loan           app/services/loan.py: the life cycle; Loan.Repayment has `record_repayment` and
--                  `reverse_repayment`, Loan.Balance what is outstanding, Loan.Terms interest and dates,
--                  Loan.Reads the lists
--   Payout         app/services/payout.py; Payout.Reads has the list
--   Contribution   app/services/contribution.py: `record` is `record_contribution`
--   Fee            app/services/registration_fee.py: the waiver, `pay` and `reverse_payment`
--   Phone          app/core/phone.py
--   RateLimiter    app/core/ratelimit.py
--   Payment        the collection of payments. Payment.Intent, Attempt, Resolve and Initiate have
--                  app/services/payment_intent.py: `create`, `list_intents`, `_create_attempt`,
--                  `_query_and_resolve` and `initiate` keep their names; Transition has the table of an
--                  intent's statuses, Settlement app/services/settlement.py, Store the queries and unique
--                  constraints of app/repositories/payment.py; Webhook has app/services/payment_webhook.py:
--                  `handle` is `handle_callback`, Webhook.Connection finds the connection, Webhook.Inbox
--                  has `_store_event` and `_resolve_duplicate`, Webhook.Apply `_apply_callback`
--   Requests       any sequence of these operations, each in a session of its own
--   Tests          a concrete Chama
-- The other files below these prove what the Results list, or hold the lemmas for it.
--
-- State. An operation is an action on a `Session`: it returns or raises, and leaves a session. The
-- session keeps apart the objects as changed so far, what a query sees (only what was flushed, since
-- the session factory sets autoflush=False), and what is durable; the durable states that a request
-- passed through are kept too, since a service that calls the ledger commits more than once. Objects
-- are not expired by a commit (expire_on_commit=False). An operation that returns an object it was
-- given reads it again at the end, which gives the object as changed.
--
-- Amounts are numbers of cents, rates ten-thousandths, units ten-thousandths, uuids numbers. `Env`
-- holds what a request takes from outside: the clock, settings, fresh uuids, and the rows that other
-- sessions commit between a look-up and an insert: ledger rows for a posting, intents and callback events
-- for theirs. A theorem says whether it assumes that there are none. `Gateway` holds what the payment
-- services call: the provider's adapter, the credential cipher, the rate limiter's answer, and the hash,
-- token and text functions; they are parameters of the theorems on payments.
--
-- All loops are over rows, lines or characters, but for the search of `_unique_client_reference`, which
-- runs until a reference is unused. Its fuel is one turn more than there are attempts.
--
-- What is not modelled: row locks (a lock is the look-up that it makes), the race of two inserts of
-- a contribution, other sessions' changes to tables besides those named, so two `initiate`s that run
-- at once, the payload of audit events and the notifications, what messages interpolate, the 28
-- digits of the decimal context, the end of the calendar after the year 9999, how an amount is
-- spelled in the hash of an order, a callback's raw payload, metrics, the reads that list
-- contributions and ledger rows. A provider id that another transaction has is refused before a
-- settlement here, where the database refuses it at the flush. Not modelled are also the parts of
-- the program around this core: the adapters of providers, payment connections' life cycle, payments
-- that members start (C2B), membership, the platform, authentication, statements and the HTTP
-- interface.
pub mod Prelude
pub mod Money
pub mod Data
pub mod Session
pub mod Access
pub mod Ledger
pub mod Audit
pub mod Finance
pub mod Loan
pub mod Payout
pub mod Contribution
pub mod Fee
pub mod Phone
pub mod RateLimiter
pub mod Payment
pub mod Requests
pub mod Tests
