-- ===== src/Worker.antt =====
-- programs/worker-interface/src/lib.rs: what the ULN asks a worker (an executor or a DVN). Its two
-- instructions are declarations only; the workers implement them.
pub mod Permission
pub mod Fee
mod Runs
use lz_v2_audit.Prelude.{ℕ, List}

pub record LzOption : Type 0 where
  pub option_type : ℕ
  pub params : List ℕ

pub record QuoteExecutorParams : Type 0 where
  pub msglib : ℕ
  pub dst_eid : ℕ
  pub sender : ℕ
  pub calldata_size : ℕ
  pub options : List LzOption

pub record QuoteDvnParams : Type 0 where
  pub msglib : ℕ
  pub dst_eid : ℕ
  pub sender : ℕ
  pub packet_header : List ℕ
  pub payload_hash : ℕ
  pub confirmations : ℕ
  pub options : List LzOption
