-- ===== src/Machine.antt =====
-- state_machine/transitions.py: the payment lifecycle, its guards, and the budgets it returns.
pub mod Legal
pub mod Transition
pub mod Untouched
pub mod Outcome
pub mod Moves
pub mod Lifecycle
pub mod History
pub mod Paths
pub mod Approvals
pub mod SingleUse
pub mod Budget
mod Tests
