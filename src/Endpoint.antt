-- ===== src/Endpoint.antt =====
-- The endpoint program, packages/layerzero-v2/solana/programs/programs/endpoint.
pub mod State
pub mod Channel
pub mod Events
pub mod Store
pub mod Messaging
pub mod Sending
pub mod Compose
pub mod Libraries
pub mod Admin
pub mod Safety
pub mod Runs
