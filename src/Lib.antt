-- ===== src/Lib.antt =====
-- FIELDed.online backend: payments, fees, the transactional outbox and the customer's journey.
--
-- The backend (backend/app) takes an enquiry of a customer to a business, turns it into a quote, a
-- booking and a service execution, issues an invoice with a ledger entry when the service is completed,
-- and takes payments and refunds of that invoice through a payment provider. The services share one
-- database session for a request; each writes its own rows and, for most changes of state, a row of the
-- outbox, which a worker later turns into messages.
--
-- Which file models what:
--   Common      numbers, lists, decimals (Common/Decimal: millionths, half-up rounding), the exceptions
--               of backend/app/exceptions.py and the monad of the services (Common/Outcome), and chains
--               of validations (Common/Check)
--   Status      the enumerations and transition tables of backend/app/domain/common/enums.py
--   Store       the rows, one record for each table, and the database: the tables, the outbox with its
--               unique idempotency key, and what has been sent to the payment provider. `request` is
--               get_db_session of backend/app/database.py: an exception rolls the tables back, and not
--               what the provider has received
--   Payment     backend/app/domain/payment/service.py and repository.py: create_payment,
--               process_payment, handle_webhook, refund_payment, cancel_payment, expire_payment, the
--               accounts for direct charges, and the status of the invoice that follows from payments
--   Commercial  backend/app/domain/commercial_policy: the platform fee (fee_calculator.py), which policy
--               sets it, and the activation of a policy (service.py, repository.py)
--   Pricing     backend/app/domain/quote/pricing.py: the price of a service from its configuration and
--               the pricing rules of the business
--   Outbox      backend/app/domain/outbox/repository.py and backend/app/workers/__init__.py: claiming
--               rows under a lease, and the loop of the worker
--   Lifecycle   the transitions of enquiries, quotes, bookings and service executions in the service.py
--               of backend/app/domain/enquiry, quote, booking and service_execution, who may load which
--               row, the messages of an enquiry, and the records that a completion writes
--   Brain       backend/app/domain/business/evaluator.py: the values of a transaction's context, the
--               conditions of rules, the conflicts and the decision
--   Availability backend/app/domain/booking/availability.py: whether a requested time is available
--   Creation    create_enquiry, create_quote and create_booking of the same three services: the
--               decision, the price and fee, and the availability that each rests on. Directory holds
--               the tables that they only read
--   Rulebook    registry.py, validation.py, approval.py, service.py and repository.py of
--               backend/app/domain/business: the rule types, the validation of rules and of versions, and
--               the versions of a brain with their approval and activation
--   RateLimit   backend/app/middleware/rate_limit.py: the sliding window of the authentication endpoints
--   Tests       runs at concrete inputs
--
-- An operation of a service is an action: a function of the store that returns a value or an exception
-- and the store that the session holds then. A loaded object is a row that the operation is given;
-- each assignment to it is written to its table where the source makes it. A parameter of type ℕ
-- called `now` is the clock's answer. Identifiers, keys, references and most texts are numbers, since
-- they are only compared or copied; a text that is taken apart is the list of its code points. The
-- columns of payments, invoices and the ledger are whole hundredths (ℤ), as Numeric(12, 2); the amount
-- of a refund that is asked for, and amounts and percentages in fees and prices, are millionths.
-- Numbers are not bounded: the columns' widths are not modelled. No operation needs fuel.
--
-- What is a parameter: the answers of the payment provider (PaymentProvider), of the communication and
-- voice orchestrators and what a claimed event reads as after a rollback (Handlers), of Python's
-- float, str, equality and regular expressions on the values of a condition (Python), of two questions
-- about a JSON number (Numbers), and of the printing of identifiers (Directory); the rows that other
-- workers have locked, fresh keys, the name of a service offer, and the fee that a completion asks the
-- policy service for (Completion). What the settings of an availability rule parse to is given as
-- well.
--
-- What is not modelled: columns that no modelled operation reads, payloads and texts of notifications,
-- logging, the HTTP layer, conversations about a brain, communication, voice, calendars,
-- discovery, identity, interleavings of two requests, refunds of more than six decimal places, and rule
-- outcomes that are no text, which the validation of a version refuses.
pub mod Common
pub mod Status
pub mod Store
pub mod Payment
pub mod Commercial
pub mod Outbox
pub mod Lifecycle
mod Tests
pub mod Brain
pub mod Rulebook
pub mod Availability
pub mod Creation
pub mod Pricing
pub mod RateLimit
