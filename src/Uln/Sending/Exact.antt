-- ===== src/Uln/Sending/Exact.antt =====
-- A quote is what a send charges.
use mathlib.Core.Path.{subst}
use lz_v2_audit.Prelude.{
  ℕ, ◌+◌, ◌≡◌, ◌∙◌, refl, sym, ap, Option, none, some, List, [], Bool, true, false, not, ◌==◌, ltb,
  leb, Bool-cases, inl, inr, length, drop, Result, ok, panic, require, account, ok_or, >>=-eq-ok,
  ok-injective, ok_or-eq-ok, checked_add, UlnError, uln, arith, nat_eq, pair_eq,
}
use lz_v2_audit.Packet.{encode, encode_packet_header}
use lz_v2_audit.Worker.{LzOption}
use lz_v2_audit.Endpoint.State.{Packet, MessagingFee}
use lz_v2_audit.Endpoint.Store.{LibraryQuoteParams, LibrarySendParams, LibrarySendWithLzTokenParams}
use lz_v2_audit.Uln.Config.{UlnConfig}
use lz_v2_audit.Uln.Executor.{ExecutorConfig}
use lz_v2_audit.Uln.State.{UlnStore, UlnSettings, SendConfig, Treasury, TreasuryFee}
use lz_v2_audit.Uln.Options.{DvnOptions, decode_options}
use lz_v2_audit.Uln.Admin.{require_same}
use lz_v2_audit.Uln.Fees.{
  WorkerInfo, Chunk, Workers, chunks, first_chunk, quote_executor, quote_dvns, sum_fees,
  quote_treasury, with_treasury,
}
use lz_v2_audit.Uln.Sending.{
  Payment, lamports, Payable, SendAccounts, LzTokenAccounts, get_send_config, pay, pay_worker,
  pay_dvns, payload_hash_of, quote, Assigned, assign_job_to_workers, charge_treasury, pay_treasury,
  pay_tokens, pay_lz_treasury, fee_of, send, send_with_lz_token,
}

-- The steps of a job that was assigned.
pub record IsAssigned (env : Workers) (payable : Payable) (payer : ℕ) (packet : Packet)
    (options : List ℕ) (send_config : Option SendConfig) (default_config : SendConfig)
    (remaining : List WorkerInfo) (job : Assigned) : Type 0 where
  pub configs : UlnConfig × ExecutorConfig
  pub decoded : List LzOption × DvnOptions
  pub executor_chunk : Chunk
  pub executor_paid : List Payment
  pub resolved : get_send_config send_config default_config ≡ ok configs
  pub read : decode_options options ≡ ok decoded
  pub chosen : first_chunk remaining ≡ ok executor_chunk
  pub executor_quoted :
      quote_executor env configs.1 packet.dst_eid packet.sender
        (length packet.message)
        decoded.0
        executor_chunk
      ≡ ok job.executor_fee
  pub paid_executor :
      pay_worker payable payer executor_chunk.config.key job.executor_fee.fee [] ≡ ok executor_paid
  pub dvns_quoted :
      quote_dvns env configs.0 packet.dst_eid packet.sender
        (encode_packet_header packet)
        (payload_hash_of env packet)
        decoded.1
        (drop 4 remaining)
      ≡ ok job.dvn_fees
  pub paid_dvns :
      pay_dvns payable payer (chunks (drop 4 remaining)) job.dvn_fees executor_paid ≡ ok job.paid

pub assign-IsAssigned :
    (env : Workers) (payable : Payable) (payer : ℕ) (packet : Packet) (options : List ℕ)
    (send_config : Option SendConfig) (default_config : SendConfig) (remaining : List WorkerInfo)
    (job : Assigned)
    → assign_job_to_workers env payable payer packet options send_config default_config remaining
      ≡ ok job
    → IsAssigned env payable payer packet options send_config default_config remaining job
unfolding assign_job_to_workers
assign-IsAssigned env payable payer packet options send_config default_config remaining job h =
    let (configs, e1, h1) = >>=-eq-ok (get_send_config send_config default_config) _ h in
    let (decoded, e2, h2) = >>=-eq-ok (decode_options options) _ h1 in
    let (c, e3, h3) = >>=-eq-ok (first_chunk remaining) _ h2 in
    let (executor_fee, e4, h4) =
      >>=-eq-ok
        (quote_executor env configs.1 packet.dst_eid packet.sender (length packet.message) decoded.0
          c)
        _ h3 in
    let (paid, e5, h5) =
      >>=-eq-ok (pay_worker payable payer c.config.key executor_fee.fee []) _ h4 in
    let (dvn_fees, e6, h6) =
      >>=-eq-ok
        (quote_dvns env configs.0 packet.dst_eid packet.sender (encode_packet_header packet)
          (payload_hash_of env packet) decoded.1 (drop 4 remaining))
        _ h5 in
    let (paid', e7, h7) =
      >>=-eq-ok (pay_dvns payable payer (chunks (drop 4 remaining)) dvn_fees paid) _ h6 in
    subst (IsAssigned env payable payer packet options send_config default_config remaining)
      (ok-injective h7)
      (record {
        configs = configs;
        decoded = decoded;
        executor_chunk = c;
        executor_paid = paid;
        resolved = e1;
        read = e2;
        chosen = e3;
        executor_quoted = e4;
        paid_executor = e5;
        dvns_quoted = e6;
        paid_dvns = e7;
      })

-- The quote of a job whose steps are known.
assigned_quote :
    (env : Workers) (payable : Payable) (payer endpoint : ℕ) (params : LibraryQuoteParams)
    (u : UlnStore) (settings : UlnSettings) (default_config : SendConfig)
    (remaining : List WorkerInfo) (job : Assigned) (dvn_sum worker_fee : ℕ)
    (result : Result MessagingFee)
    → account u.uln ≡ ok settings
    → account (u.default_send_configs params.packet.dst_eid) ≡ ok default_config
    → require_same settings.endpoint endpoint ≡ ok tt
    → IsAssigned env payable payer params.packet params.options
        (u.send_configs (params.packet.sender, params.packet.dst_eid))
        default_config
        remaining
        job
    → sum_fees 0 job.dvn_fees ≡ ok dvn_sum
    → checked_add 64 job.executor_fee.fee dvn_sum ≡ ok worker_fee
    → with_treasury settings.treasury worker_fee params.pay_in_lz_token ≡ result
    → quote env endpoint remaining params u ≡ result
unfolding quote
assigned_quote env payable payer endpoint params u settings default_config remaining job dvn_sum
      worker_fee result e1 e2 e3 a e4 e5 e6 =
    rw (e1, e2, e3, a.resolved, a.read, a.chosen, a.executor_quoted, a.dvns_quoted, e4, e5) e6

pub in_total : (w n total : ℕ) → checked_add 64 w n ≡ ok total → total ≡ w + n
in_total w n total h = ground arith

treasury_charged :
    (payable : Payable) (payer acc asked : ℕ) (paid : List Payment) (fee : Option TreasuryFee)
    (paid' : List Payment)
    → charge_treasury payable payer acc asked paid ≡ ok (fee, paid')
    → asked ≡ fee_of fee
unfolding charge_treasury
treasury_charged payable payer acc asked paid fee paid' h = elim (Bool-cases (ltb 0 asked)) [
  | inl positive ↦
      let (made, e, g) =
        >>=-eq-ok (pay payable (lamports payer acc asked) paid) _ (rw positive at h) in
      ap (λ (p : Option TreasuryFee × List Payment). fee_of p.0) (ok-injective g)
  | inr nil ↦
      let same : (none, paid) ≡ (fee, paid') = ok-injective (rw nil at h) in
      let nothing : fee_of fee ≡ 0 =
        ap (λ (p : Option TreasuryFee × List Payment). fee_of p.0) (sym same) in
      ground (arith, nil, nothing)
]

-- The treasury's fee as it is paid is the one that a quote adds.
pub treasury_quoted :
    (payable : Payable) (payer : ℕ) (given : Option ℕ) (treasury : Option Treasury) (worker_fee : ℕ)
    (paid : List Payment) (fee : Option TreasuryFee) (paid' : List Payment) (total : ℕ)
    → pay_treasury payable payer given treasury worker_fee paid ≡ ok (fee, paid')
    → checked_add 64 worker_fee (fee_of fee) ≡ ok total
    → with_treasury treasury worker_fee false ≡ ok (record { native_fee = total; lz_token_fee = 0 })
unfolding pay_treasury with_treasury
treasury_quoted payable payer given none worker_fee paid fee paid' total h add =
    let same : (none, paid) ≡ (fee, paid') = ok-injective h in
    let nothing : fee_of fee ≡ 0 =
      ap (λ (p : Option TreasuryFee × List Payment). fee_of p.0) (sym same) in
    ap (λ (n : ℕ). ok (record { native_fee = n; lz_token_fee = 0 }))
      (omega (arith, nothing, in_total worker_fee (fee_of fee) total add))
treasury_quoted payable payer given (some treasury) worker_fee paid fee paid' total h add =
    let (asked, e1, h1) = >>=-eq-ok (quote_treasury treasury worker_fee false) _ h in
    let (acc, e2, h2) = >>=-eq-ok (ok_or given (uln UlnError.invalid_treasury)) _ h1 in
    let (u3, e3, h3) =
      >>=-eq-ok (require (acc == treasury.native_receiver) (uln UlnError.invalid_treasury)) _ h2 in
    let same : asked ≡ fee_of fee = treasury_charged payable payer acc asked paid fee paid' h3 in
    rw (e1, same, add) refl

abbrev pub quote_for : Packet → List ℕ → Bool → LibraryQuoteParams
quote_for packet options pay_in_lz_token = record {
  packet = packet;
  options = options;
  pay_in_lz_token = pay_in_lz_token;
}

-- A successful send returns the encoded packet and the fee that a quote of the same packet and
-- options gives, in the same state and with the same accounts of the workers.
pub send_quoted :
    (env : Workers) (payable : Payable) (accounts : SendAccounts) (remaining : List WorkerInfo)
    (params : LibrarySendParams) (u : UlnStore) (fee : MessagingFee) (bytes : List ℕ)
    (after : UlnStore × List Payment)
    → send env payable accounts remaining params u ≡ ok ((fee, bytes), after)
    → (quote env accounts.endpoint remaining (quote_for params.packet params.options false) u
        ≡ ok fee)
      × (bytes ≡ encode params.packet)
unfolding send
send_quoted env payable accounts remaining params u fee bytes after h =
    let (settings, e1, h1) = >>=-eq-ok (account u.uln) _ h in
    let (default_config, e2, h2) =
      >>=-eq-ok (account (u.default_send_configs params.packet.dst_eid)) _ h1 in
    let (u3, e3, h3) = >>=-eq-ok (require_same settings.endpoint accounts.endpoint) _ h2 in
    let (u4, e4, h4) =
      >>=-eq-ok (require (not (accounts.payer == accounts.endpoint)) (uln UlnError.invalid_payer)) _
        h3 in
    let (job, e5, h5) =
      >>=-eq-ok
        (assign_job_to_workers env payable accounts.payer params.packet params.options
          (u.send_configs (params.packet.sender, params.packet.dst_eid)) default_config remaining)
        _ h4 in
    let (dvn_sum, e6, h6) = >>=-eq-ok (sum_fees 0 job.dvn_fees) _ h5 in
    let (worker_fee, e7, h7) = >>=-eq-ok (checked_add 64 job.executor_fee.fee dvn_sum) _ h6 in
    let (charged, e8, h8) =
      >>=-eq-ok
        (pay_treasury payable accounts.payer accounts.treasury settings.treasury worker_fee
          job.paid)
        _ h7 in
    let (total, e9, h9) = >>=-eq-ok (checked_add 64 worker_fee (fee_of charged.0)) _ h8 in
    let (u10, e10, h10) =
      >>=-eq-ok (require (leb total params.native_fee) (uln UlnError.insufficient_fee)) _ h9 in
    let same = ok-injective h10 in
    (
      assigned_quote env payable accounts.payer accounts.endpoint
          (quote_for params.packet params.options false) u settings default_config remaining job
          dvn_sum worker_fee (ok fee) e1 e2 e3
          (assign-IsAssigned env payable accounts.payer params.packet params.options _
            default_config remaining job e5)
          e6 e7
          (treasury_quoted payable accounts.payer accounts.treasury settings.treasury worker_fee
              job.paid charged.0 charged.1 total e8 e9
            ∙ ap ok (ap (λ (p : (MessagingFee × List ℕ) × (UlnStore × List Payment)). p.0.0) same)),
      ap (λ (p : (MessagingFee × List ℕ) × (UlnStore × List Payment)). p.0.1) (sym same),
    )

lz_token_quoted :
    (payable : Payable) (accounts : LzTokenAccounts) (max_fee : ℕ) (treasury : Option Treasury)
    (worker_fee : ℕ) (paid : List Payment) (charged : TreasuryFee × List Payment)
    → pay_lz_treasury payable accounts max_fee treasury worker_fee paid ≡ ok charged
    → with_treasury treasury worker_fee true
      ≡ ok (record { native_fee = worker_fee; lz_token_fee = charged.0.fee })
unfolding with_treasury pay_lz_treasury
lz_token_quoted payable accounts max_fee treasury worker_fee paid charged h =
    let (t, e1, h1) = >>=-eq-ok (ok_or treasury (uln UlnError.lz_token_unavailable)) _ h in
    let (fee, e2, h2) = >>=-eq-ok (quote_treasury t worker_fee true) _ h1 in
    let (u3, e3, h3) = >>=-eq-ok (require (leb fee max_fee) (uln UlnError.insufficient_fee)) _ h2 in
    let (lz_token, e4, h4) = >>=-eq-ok (elim t.lz_token [ none ↦ panic | some x ↦ ok x ]) _ h3 in
    let (u5, e5, h5) =
      >>=-eq-ok
        (require (lz_token.receiver == accounts.lz_token_treasury) (uln UlnError.invalid_treasury))
        _ h4 in
    let (paid', e6, h6) = >>=-eq-ok (pay_tokens payable accounts fee paid) _ h5 in
    let same = ok-injective h6 in
    rw (ok_or-eq-ok treasury _ e1, e2)
      (ap
        (λ (p : TreasuryFee × List Payment).
          ok (record { native_fee = worker_fee; lz_token_fee = p.0.fee }))
        same)

-- The same for a send that pays the treasury in the LZ token, and a quote that asks for that.
pub send_with_lz_token_quoted :
    (env : Workers) (payable : Payable) (accounts : LzTokenAccounts) (remaining : List WorkerInfo)
    (params : LibrarySendWithLzTokenParams) (u : UlnStore) (fee : MessagingFee) (bytes : List ℕ)
    (after : UlnStore × List Payment)
    → send_with_lz_token env payable accounts remaining params u ≡ ok ((fee, bytes), after)
    → (quote env accounts.endpoint remaining (quote_for params.packet params.options true) u
        ≡ ok fee)
      × (bytes ≡ encode params.packet)
unfolding send_with_lz_token
send_with_lz_token_quoted env payable accounts remaining params u fee bytes after h =
    let (settings, e1, h1) = >>=-eq-ok (account u.uln) _ h in
    let (default_config, e2, h2) =
      >>=-eq-ok (account (u.default_send_configs params.packet.dst_eid)) _ h1 in
    let (u3, e3, h3) = >>=-eq-ok (require_same settings.endpoint accounts.endpoint) _ h2 in
    let (u4, e4, h4) =
      >>=-eq-ok (require (not (accounts.payer == accounts.endpoint)) (uln UlnError.invalid_payer)) _
        h3 in
    let (u5, e5, h5) =
      >>=-eq-ok
        (require (accounts.lz_token_mint == params.lz_token_mint)
          (uln UlnError.invalid_lz_token_mint))
        _ h4 in
    let (job, e6, h6) =
      >>=-eq-ok
        (assign_job_to_workers env payable accounts.payer params.packet params.options
          (u.send_configs (params.packet.sender, params.packet.dst_eid)) default_config remaining)
        _ h5 in
    let (dvn_sum, e7, h7) = >>=-eq-ok (sum_fees 0 job.dvn_fees) _ h6 in
    let (worker_fee, e8, h8) = >>=-eq-ok (checked_add 64 job.executor_fee.fee dvn_sum) _ h7 in
    let (u9, e9, h9) =
      >>=-eq-ok (require (leb worker_fee params.native_fee) (uln UlnError.insufficient_fee)) _ h8 in
    let (charged, e10, h10) =
      >>=-eq-ok
        (pay_lz_treasury payable accounts params.lz_token_fee settings.treasury worker_fee job.paid)
        _ h9 in
    let same = ok-injective h10 in
    (
      assigned_quote env payable accounts.payer accounts.endpoint
          (quote_for params.packet params.options true) u settings default_config remaining job
          dvn_sum worker_fee (ok fee) e1 e2 e3
          (assign-IsAssigned env payable accounts.payer params.packet params.options _
            default_config remaining job e6)
          e7 e8
          (lz_token_quoted payable accounts params.lz_token_fee settings.treasury worker_fee
              job.paid charged e10
            ∙ ap ok (ap (λ (p : (MessagingFee × List ℕ) × (UlnStore × List Payment)). p.0.0) same)),
      ap (λ (p : (MessagingFee × List ℕ) × (UlnStore × List Payment)). p.0.1) (sym same),
    )
