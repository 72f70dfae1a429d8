-- ===== src/Chain.antt =====
-- delegation/chain.py and the triggers of alembic/versions/0012, 0015 and 0016: multi-hop delegated
-- authority.
pub mod Rows
pub mod Grant
pub mod Walk
pub mod Spend
pub mod Budget
pub mod Insert
pub mod Sound
pub mod Reads
pub mod Grants
pub mod History
pub mod Once
pub mod Retry
pub mod Liveness
mod Tests
