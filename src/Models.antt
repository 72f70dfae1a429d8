-- ===== src/Models.antt =====
-- models/domain.py: reason codes, rows, audit events, and the database that holds them.
mod Codes
mod Rows
mod Audit
mod Store
pub use Codes.*
pub use Rows.*
pub use Audit.*
pub use Store.*
