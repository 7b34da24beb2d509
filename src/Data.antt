-- ===== src/Data.antt =====
-- The rows of the database (app/models): the columns that the services read or write.
-- A uuid is a number; cents stand for `Numeric(18, 2)`.
mod Enums
mod PaymentEnums
mod PaymentRows
mod Rows
unfoldable pub use Enums.*
unfoldable pub use PaymentEnums.*
pub use PaymentRows.*
pub use Rows.*
