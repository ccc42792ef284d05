-- ===== src/Uln/Sending.antt =====
-- programs/uln/src/instructions/endpoint/{quote,send,send_with_lz_token}.rs: the fee of a packet, and
-- its payment when the packet is sent. The system and token programs decide on a payment by the ones
-- made before it, and are parameters; so are the workers.
pub mod Paid
pub mod Exact
pub mod Logged
use lz_v2_audit.Prelude.{
  ℕ, ◌+◌, Option, none, some, List, [], ◌∷◌, ◌++◌, Bool, true, false, not, ◌==◌, ltb, leb,
  if◌then◌else◌, length, drop, Result, ok, panic, require, account, ok_or, ◌>>=◌, ◌>>◌, checked_add,
  UlnError, uln, AnchorError, anchor, nat_eq, pair_eq,
}
use lz_v2_audit.Bytes.{be_bytes}
use lz_v2_audit.Packet.{encode, encode_packet_header}
use lz_v2_audit.Endpoint.State.{Packet, MessagingFee}
use lz_v2_audit.Endpoint.Store.{LibraryQuoteParams, LibrarySendParams, LibrarySendWithLzTokenParams}
use lz_v2_audit.Uln.Config.{UlnConfig, default_uln_config}
use lz_v2_audit.Uln.Config as Uln
use lz_v2_audit.Uln.Executor.{ExecutorConfig}
use lz_v2_audit.Uln.Executor
use lz_v2_audit.Uln.State.{UlnStore, SendConfig, Treasury, WorkerFee, TreasuryFee, fees_paid}
use lz_v2_audit.Uln.Options.{decode_options}
use lz_v2_audit.Uln.Admin.{emit, require_same}
use lz_v2_audit.Uln.Fees.{
  WorkerInfo, Chunk, Workers, chunks, first_chunk, quote_executor, quote_dvns, sum_fees,
  quote_treasury, with_treasury,
}

-- A transfer of lamports, or of tokens of a mint.
pub data Payment : Type 0 where
  lamports : (from to amount : ℕ) → Payment
  tokens : (mint source to authority amount : ℕ) → Payment

-- The answer of the system program or the token program to a payment after others.
abbrev pub Payable : Type 0
Payable = List Payment → Payment → Result (Unit {0})

-- The accounts of `Send` beside its configurations, and those of `SendWithLzToken`.
pub record SendAccounts : Type 0 where
  pub endpoint : ℕ
  pub payer : ℕ
  pub treasury : Option ℕ

pub record LzTokenAccounts : Type 0 where
  pub endpoint : ℕ
  pub payer : ℕ
  pub lz_token_source : ℕ
  pub lz_token_treasury : ℕ
  pub lz_token_mint : ℕ

-- `get_send_config` of send.rs; a custom account that was never initialised is the default value.
unfoldable pub get_send_config :
    Option SendConfig → SendConfig → Result (UlnConfig × ExecutorConfig)
get_send_config custom default_config = do
  uln_config ←
      Uln.get_config default_config.uln (elim custom [ none ↦ default_uln_config | some c ↦ c.uln ])
  ok (
    uln_config,
    Executor.get_config default_config.executor (elim custom [
      | none ↦ record { max_message_size = 0; executor = 0 }
      | some c ↦ c.executor
    ]),
  )

-- A payment, the last one first.
abbrev pub pay : Payable → Payment → List Payment → Result (List Payment)
pay payable payment paid = do done ← payable paid payment; ok (payment ∷ paid)

-- `if fee > 0 { program::invoke(&system_instruction::transfer(...)) }`
unfoldable pub pay_worker : Payable → (payer to fee : ℕ) → List Payment → Result (List Payment)
pay_worker payable payer to fee paid =
    if ltb 0 fee then pay payable (lamports payer to fee) paid else ok paid

-- The loop that pays the DVNs.
unfoldable pub pay_dvns :
    Payable → (payer : ℕ) → List Chunk → List WorkerFee → List Payment → Result (List Payment)
unfolding pay_worker
pay_dvns payable payer [] fees paid = ok paid
pay_dvns payable payer (c ∷ cs) [] paid = panic
pay_dvns payable payer (c ∷ cs) (f ∷ fs) paid =
    pay_worker payable payer c.config.key f.fee paid >>= pay_dvns payable payer cs fs

-- The fees of the workers for a packet, and the payments made.
pub record Assigned : Type 0 where
  pub executor_fee : WorkerFee
  pub dvn_fees : List WorkerFee
  pub paid : List Payment

module _ (env : Workers) where
  -- `hash_payload` of the endpoint
  abbrev pub payload_hash_of : Packet → ℕ
  payload_hash_of packet = env.keccak (be_bytes 32 packet.guid ++ packet.message)

  -- `Quote::apply`
  unfoldable pub quote :
      (endpoint : ℕ) → List WorkerInfo → LibraryQuoteParams → UlnStore → Result MessagingFee
  unfolding get_send_config
  quote endpoint remaining params u = do
    settings ← account u.uln
    default_config ← account (u.default_send_configs params.packet.dst_eid)
    require_same settings.endpoint endpoint
    (uln_config, executor_config) ←
        get_send_config (u.send_configs (params.packet.sender, params.packet.dst_eid))
          default_config
    (executor_options, dvn_options) ← decode_options params.options
    c ← first_chunk remaining
    executor_fee ←
        quote_executor env executor_config params.packet.dst_eid params.packet.sender
          (length params.packet.message) executor_options c
    dvn_fees ←
        quote_dvns env uln_config params.packet.dst_eid params.packet.sender
          (encode_packet_header params.packet) (payload_hash_of params.packet) dvn_options
          (drop 4 remaining)
    dvn_sum ← sum_fees 0 dvn_fees
    worker_fee ← checked_add 64 executor_fee.fee dvn_sum
    with_treasury settings.treasury worker_fee params.pay_in_lz_token

  unfoldable pub assign_job_to_workers :
      Payable
      → (payer : ℕ) → Packet
      → List ℕ
      → Option SendConfig
      → SendConfig
      → List WorkerInfo
      → Result Assigned
  unfolding get_send_config pay_worker pay_dvns
  assign_job_to_workers payable payer packet options send_config default_config remaining = do
    (uln_config, executor_config) ← get_send_config send_config default_config
    (executor_options, dvn_options) ← decode_options options
    c ← first_chunk remaining
    executor_fee ←
        quote_executor env executor_config packet.dst_eid packet.sender (length packet.message)
          executor_options c
    paid ← pay_worker payable payer c.config.key executor_fee.fee []
    dvn_fees ←
        quote_dvns env uln_config packet.dst_eid packet.sender (encode_packet_header packet)
          (payload_hash_of packet) dvn_options (drop 4 remaining)
    paid' ← pay_dvns payable payer (chunks (drop 4 remaining)) dvn_fees paid
    ok (record { executor_fee = executor_fee; dvn_fees = dvn_fees; paid = paid' })

-- `if fee > 0 { ... }` of the treasury's native fee
unfoldable pub charge_treasury :
    Payable
    → (payer treasury_acc fee : ℕ) → List Payment
    → Result (Option TreasuryFee × List Payment)
charge_treasury payable payer treasury_acc fee paid =
    if ltb 0 fee
    then (do
      paid' ← pay payable (lamports payer treasury_acc fee) paid
      ok (some (record { treasury = treasury_acc; fee = fee; pay_in_lz_token = false }), paid'))
    else ok (none, paid)

-- The native fee of the treasury in `Send::apply`, paid; its account is the receiver that is named in
-- the event.
unfoldable pub pay_treasury :
    Payable
    → (payer : ℕ) → (account_given : Option ℕ) → Option Treasury
    → (worker_fee : ℕ) → List Payment
    → Result (Option TreasuryFee × List Payment)
unfolding charge_treasury
pay_treasury payable payer account_given none worker_fee paid = ok (none, paid)
pay_treasury payable payer account_given (some treasury) worker_fee paid = do
  fee ← quote_treasury treasury worker_fee false
  treasury_acc ← ok_or account_given (uln UlnError.invalid_treasury)
  require (treasury_acc == treasury.native_receiver) (uln UlnError.invalid_treasury)
  charge_treasury payable payer treasury_acc fee paid

-- `if treasury_fee > 0 { ... transfer_checked(...) }`
unfoldable pub pay_tokens :
    Payable → LzTokenAccounts → (fee : ℕ) → List Payment → Result (List Payment)
pay_tokens payable accounts fee paid =
    if ltb 0 fee
    then pay payable
        (tokens accounts.lz_token_mint accounts.lz_token_source accounts.lz_token_treasury
          accounts.payer fee)
        paid
    else ok paid

-- The fee of the treasury in `SendWithLzToken::apply`, paid
unfoldable pub pay_lz_treasury :
    Payable
    → LzTokenAccounts
    → (max_fee : ℕ) → Option Treasury
    → (worker_fee : ℕ) → List Payment
    → Result (TreasuryFee × List Payment)
unfolding pay_tokens
pay_lz_treasury payable accounts max_fee configured worker_fee paid = do
  treasury ← ok_or configured (uln UlnError.lz_token_unavailable)
  treasury_fee ← quote_treasury treasury worker_fee true
  require (leb treasury_fee max_fee) (uln UlnError.insufficient_fee)
  lz_token ← elim treasury.lz_token [ none ↦ panic | some t ↦ ok t ]
  require (lz_token.receiver == accounts.lz_token_treasury) (uln UlnError.invalid_treasury)
  paid' ← pay_tokens payable accounts treasury_fee paid
  ok (record { treasury = lz_token.receiver; fee = treasury_fee; pay_in_lz_token = true }, paid')

abbrev pub fee_of : Option TreasuryFee → ℕ
fee_of none = 0
fee_of (some f) = f.fee

module _ (env : Workers) (payable : Payable) where
  -- `Send::apply`, with the payments that it made
  unfoldable pub send :
      SendAccounts
      → List WorkerInfo
      → LibrarySendParams
      → UlnStore
      → Result ((MessagingFee × List ℕ) × (UlnStore × List Payment))
  unfolding assign_job_to_workers pay_treasury
  send accounts remaining params u = do
    settings ← account u.uln
    default_config ← account (u.default_send_configs params.packet.dst_eid)
    require_same settings.endpoint accounts.endpoint
    require (not (accounts.payer == accounts.endpoint)) (uln UlnError.invalid_payer)
    job ←
        assign_job_to_workers env payable accounts.payer params.packet params.options
          (u.send_configs (params.packet.sender, params.packet.dst_eid)) default_config remaining
    dvn_sum ← sum_fees 0 job.dvn_fees
    worker_fee ← checked_add 64 job.executor_fee.fee dvn_sum
    (treasury_fee, paid) ←
        pay_treasury payable accounts.payer accounts.treasury settings.treasury worker_fee job.paid
    total_fee ← checked_add 64 worker_fee (fee_of treasury_fee)
    require (leb total_fee params.native_fee) (uln UlnError.insufficient_fee)
    ok (
      (record { native_fee = total_fee; lz_token_fee = 0 }, encode params.packet),
      (emit (fees_paid job.executor_fee job.dvn_fees treasury_fee) u, paid),
    )

  -- `SendWithLzToken::apply`; the constraints on the token accounts are the token program's.
  unfoldable pub send_with_lz_token :
      LzTokenAccounts
      → List WorkerInfo
      → LibrarySendWithLzTokenParams
      → UlnStore
      → Result ((MessagingFee × List ℕ) × (UlnStore × List Payment))
  unfolding assign_job_to_workers pay_lz_treasury
  send_with_lz_token accounts remaining params u = do
    settings ← account u.uln
    default_config ← account (u.default_send_configs params.packet.dst_eid)
    require_same settings.endpoint accounts.endpoint
    require (not (accounts.payer == accounts.endpoint)) (uln UlnError.invalid_payer)
    require (accounts.lz_token_mint == params.lz_token_mint) (uln UlnError.invalid_lz_token_mint)
    job ←
        assign_job_to_workers env payable accounts.payer params.packet params.options
          (u.send_configs (params.packet.sender, params.packet.dst_eid)) default_config remaining
    dvn_sum ← sum_fees 0 job.dvn_fees
    worker_fee ← checked_add 64 job.executor_fee.fee dvn_sum
    require (leb worker_fee params.native_fee) (uln UlnError.insufficient_fee)
    (treasury_fee, paid) ←
        pay_lz_treasury payable accounts params.lz_token_fee settings.treasury worker_fee job.paid
    ok (
      (record { native_fee = worker_fee; lz_token_fee = treasury_fee.fee }, encode params.packet),
      (emit (fees_paid job.executor_fee job.dvn_fees (some treasury_fee)) u, paid),
    )
