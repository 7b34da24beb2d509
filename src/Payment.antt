-- ===== src/Payment.antt =====
-- The collection of payments through a provider (ADR-016, ADR-018): `Intent`, `Attempt`,
-- `Resolve` and `Initiate` model app/services/payment_intent.py, `Webhook` app/services/payment_webhook.py, `Settlement`
-- app/services/settlement.py; `Gateway` has what they take from outside, `Store` the queries.
pub mod Gateway
pub mod Store
pub mod Transition
pub mod Intent
pub mod Attempt
pub mod Settlement
pub mod Resolve
pub mod Initiate
pub mod Webhook
pub mod Books
pub mod Final
pub mod Reference
pub mod Charge
pub mod Exhausted
pub mod Idempotent
