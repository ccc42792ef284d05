-- ===== src/Uln.antt =====
-- The ultra light node program, packages/layerzero-v2/solana/programs/programs/uln.
pub mod Config
pub mod Executor
pub mod Verification
pub mod State
pub mod Confirm
pub mod Commit
pub mod Admin
pub mod Options
pub mod Fees
pub mod Sending
mod Runs
