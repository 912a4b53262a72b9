-- ===== src/Store/Table.antt =====
-- The statements on a table with a unique key, their laws, and ORDER BY.
mod Statements
mod Lookup
mod Unique
mod Order
unfoldable pub use Statements.*
pub use Lookup.*
pub use Unique.*
unfoldable pub use Order.*
