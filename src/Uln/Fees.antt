-- ===== src/Uln/Fees.antt =====
-- programs/uln/src/instructions/endpoint/quote.rs: what the executor, the DVNs and the treasury ask
-- for a packet. The workers are other programs, and parameters.
pub mod Bounds
use lz_v2_audit.Prelude.{
  ℕ, ◌+◌, ◌-◌, ◌*◌, ◌%◌, ◌++◌, Option, none, some, List, [], ◌∷◌, map, Bool, true, false, not, ◌==◌,
  ltb, leb, if◌then◌else◌, length, take, drop, get_elem?, Result, ok, panic, require, account,
  ok_or, ◌>>=◌, ◌>>◌, checked_add, checked_mul, checked_div, UlnError, uln, nat_eq, pair_eq,
}
use lz_v2_audit.Bytes.{be_bytes}
use lz_v2_audit.Packet.{encode_packet_header}
use lz_v2_audit.Worker.{LzOption, QuoteExecutorParams, QuoteDvnParams}
use lz_v2_audit.Endpoint.State.{Packet, MessagingFee}
use lz_v2_audit.Endpoint.Store.{LibraryQuoteParams}
use lz_v2_audit.Uln.Config.{UlnConfig, default_uln_config}
use lz_v2_audit.Uln.Config as Uln
use lz_v2_audit.Uln.Executor.{ExecutorConfig}
use lz_v2_audit.Uln.Executor
use lz_v2_audit.Uln.State.{UlnStore, SendConfig, Treasury, WorkerFee}
use lz_v2_audit.Uln.Options.{DvnOptions, decode_options}
use lz_v2_audit.Uln.Admin.{bps_denominator, require_same}

-- An account as it is passed on to a worker.
pub record WorkerInfo : Type 0 where
  pub key : ℕ
  pub owner : ℕ
  pub is_signer : Bool

-- The program of a worker, its configuration, and the program and configuration of its price feed.
pub record Chunk : Type 0 where
  pub program : WorkerInfo
  pub config : WorkerInfo
  pub price_feed_program : WorkerInfo
  pub price_feed_config : WorkerInfo

-- The runtime: the address of the ULN, the hash, and the calls of `quote_executor` and `quote_dvn`.
pub record Workers : Type 0 where
  pub uln_key : ℕ
  pub keccak : List ℕ → ℕ
  pub quote_executor : Chunk → QuoteExecutorParams → Result ℕ
  pub quote_dvn : Chunk → QuoteDvnParams → Result ℕ

-- `accounts.chunks(4)`, for a multiple of four accounts
unfoldable pub chunks : List WorkerInfo → List Chunk
chunks (a ∷ b ∷ c ∷ d ∷ rest) =
    record { program = a; config = b; price_feed_program = c; price_feed_config = d } ∷ chunks rest
chunks _ = []

-- `&accounts[0..4]`
abbrev pub first_chunk : List WorkerInfo → Result Chunk
first_chunk (a ∷ b ∷ c ∷ d ∷ rest) =
    ok (record { program = a; config = b; price_feed_program = c; price_feed_config = d })
first_chunk _ = panic

unfoldable pub assert_non_signers : List WorkerInfo → Result (Unit {0})
assert_non_signers [] = ok tt
assert_non_signers (a ∷ rest) = do
  require (not a.is_signer) (uln UlnError.non_signer)
  assert_non_signers rest

-- The DVN at an index of both lists.
abbrev pub dvn_at : UlnConfig → ℕ → Result ℕ
dvn_at config i =
    elim (if ltb i (length config.required_dvns)
      then get_elem? config.required_dvns i
      else get_elem? config.optional_dvns (i - length config.required_dvns)) [
        | none ↦ panic
        | some dvn ↦ ok dvn
      ]

-- `options.get(&(i as u8)).cloned().unwrap_or_default()`
abbrev pub options_at : DvnOptions → ℕ → List LzOption
options_at options i = elim (options (i % 256)) [ none ↦ [] | some found ↦ found ]

-- A loop over the chunks with their indices.
unfoldable pub each_chunk :
    (ℕ → Chunk → Result WorkerFee) → ℕ → List Chunk → Result (List WorkerFee)
each_chunk round i [] = ok []
each_chunk round i (c ∷ cs) = do
  fee ← round i c
  fees ← each_chunk round (i + 1) cs
  ok (fee ∷ fees)

-- `.map(|f| f.fee).sum::<u64>()`
unfoldable pub sum_fees : ℕ → List WorkerFee → Result ℕ
sum_fees total [] = ok total
sum_fees total (f ∷ fs) = checked_add 64 total f.fee >>= λ next. sum_fees next fs

unfoldable pub quote_treasury : Treasury → (worker_fee : ℕ) → (pay_in_lz_token : Bool) → Result ℕ
quote_treasury treasury worker_fee true = do
  lz_token ← ok_or treasury.lz_token (uln UlnError.lz_token_unavailable)
  ok lz_token.fee
quote_treasury treasury worker_fee false = do
  scaled ← checked_mul 64 worker_fee treasury.native_fee_bps
  checked_div scaled bps_denominator

-- The treasury's part of `Quote::apply`
unfoldable pub with_treasury :
    Option Treasury → (worker_fee : ℕ) → (pay_in_lz_token : Bool) → Result MessagingFee
unfolding quote_treasury
with_treasury none worker_fee pay = ok (record { native_fee = worker_fee; lz_token_fee = 0 })
with_treasury (some treasury) worker_fee true = do
  fee ← quote_treasury treasury worker_fee true
  ok (record { native_fee = worker_fee; lz_token_fee = fee })
with_treasury (some treasury) worker_fee false = do
  fee ← quote_treasury treasury worker_fee false
  total ← checked_add 64 worker_fee fee
  ok (record { native_fee = total; lz_token_fee = 0 })

module _ (env : Workers) where
  unfoldable pub quote_executor :
      ExecutorConfig → (dst_eid sender calldata_size : ℕ) → List LzOption → Chunk → Result WorkerFee
  quote_executor executor_config dst_eid sender calldata_size options c = do
    require (leb calldata_size executor_config.max_message_size)
        (uln UlnError.exceeded_max_message_size)
    assert_non_signers (c.program ∷ c.config ∷ c.price_feed_program ∷ c.price_feed_config ∷ [])
    require (c.program.key == c.config.owner) (uln UlnError.invalid_executor_program)
    require (executor_config.executor == c.config.key) (uln UlnError.invalid_executor)
    fee ← env.quote_executor c (record {
      msglib = env.uln_key;
      dst_eid = dst_eid;
      sender = sender;
      calldata_size = calldata_size;
      options = options;
    })
    ok (record { worker = executor_config.executor; fee = fee })

  -- One round of the loop over the chunks.
  unfoldable pub quote_dvn_at :
      UlnConfig
      → (dst_eid sender : ℕ) → List ℕ
      → (payload_hash : ℕ) → DvnOptions
      → (i : ℕ) → Chunk
      → Result WorkerFee
  quote_dvn_at config dst_eid sender packet_header payload_hash options i c = do
    require (c.program.key == c.config.owner) (uln UlnError.invalid_dvn_program)
    dvn ← dvn_at config i
    require (dvn == c.config.key) (uln UlnError.invalid_dvn)
    fee ← env.quote_dvn c (record {
      msglib = env.uln_key;
      dst_eid = dst_eid;
      sender = sender;
      packet_header = packet_header;
      payload_hash = payload_hash;
      confirmations = config.confirmations;
      options = options_at options i;
    })
    ok (record { worker = dvn; fee = fee })

  unfoldable pub quote_dvns :
      UlnConfig
      → (dst_eid sender : ℕ) → List ℕ
      → (payload_hash : ℕ) → DvnOptions
      → List WorkerInfo
      → Result (List WorkerFee)
  unfolding assert_non_signers each_chunk quote_dvn_at chunks
  quote_dvns config dst_eid sender packet_header payload_hash options accounts = do
    require (length accounts == (length config.required_dvns + length config.optional_dvns) * 4)
        (uln UlnError.invalid_account_length)
    assert_non_signers accounts
    each_chunk (quote_dvn_at config dst_eid sender packet_header payload_hash options) 0
        (chunks accounts)
