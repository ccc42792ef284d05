-- ===== src/Uln/Sending/Paid.antt =====
-- What a send has paid.
use mathlib.Core.Path.{subst}
use lz_v2_audit.Prelude.{
  ℕ, ◌+◌, ◌*◌, ◌≤◌, ◌≡◌, ◌∙◌, refl, sym, ap, Option, none, some, List, [], ◌∷◌, false, not, ◌==◌,
  ltb, leb, leb→le, Bool-cases, inl, inr, length, drop, All, Result, ok, require, account, ok_or,
  >>=-eq-ok, require-eq-ok, ok-injective, checked_add, UlnError, uln, arith, nat_eq, pair_eq,
}
use lz_v2_audit.Packet.{encode_packet_header}
use lz_v2_audit.Endpoint.State.{MessagingFee, Packet}
use lz_v2_audit.Endpoint.Store.{LibrarySendParams}
use lz_v2_audit.Uln.Config.{UlnConfig}
use lz_v2_audit.Uln.State.{UlnStore, Treasury, WorkerFee, TreasuryFee, SendConfig}
use lz_v2_audit.Uln.Options.{DvnOptions}
use lz_v2_audit.Uln.Admin.{require_same}
use lz_v2_audit.Uln.Fees.{
  WorkerInfo, Chunk, Workers, chunks, each_chunk, assert_non_signers, quote_dvn_at, quote_dvns,
  sum_fees, quote_treasury,
}
use lz_v2_audit.Uln.Sending.{
  Payment, lamports, tokens, Payable, SendAccounts, pay, pay_worker, pay_dvns, Assigned,
  assign_job_to_workers, charge_treasury, pay_treasury, fee_of, send,
}
use lz_v2_audit.Uln.Sending.Exact.{in_total, IsAssigned, assign-IsAssigned}

-- The lamports of a payment, and of all.
abbrev pub lamports_in : List Payment → ℕ
lamports_in [] = 0
lamports_in (lamports from to amount ∷ paid) = amount + lamports_in paid
lamports_in (tokens mint source to authority amount ∷ paid) = lamports_in paid

-- Each payment is made by the payer.
abbrev pub IsBy : ℕ → Payment → Type 0
IsBy payer (lamports from to amount) = from ≡ payer
IsBy payer (tokens mint source to authority amount) = authority ≡ payer

-- Payments by one payer, and their lamports.
pub record IsPaid (payer total : ℕ) (paid : List Payment) : Type 0 where
  pub summed : lamports_in paid ≡ total
  pub by_payer : All (IsBy payer) paid

pay-IsPaid :
    (payable : Payable) (payer to amount total : ℕ) (paid paid' : List Payment)
    → IsPaid payer total paid
    → pay payable (lamports payer to amount) paid ≡ ok paid'
    → IsPaid payer (total + amount) paid'
pay-IsPaid payable payer to amount total paid paid' v h =
    let (u, e1, h1) = >>=-eq-ok (payable paid (lamports payer to amount)) _ h in
    subst (IsPaid payer (total + amount)) (ok-injective h1)
      (record { summed = omega (arith, v.summed); by_payer = (refl, v.by_payer) })

pay_worker-IsPaid :
    (payable : Payable) (payer to fee total : ℕ) (paid paid' : List Payment)
    → IsPaid payer total paid
    → pay_worker payable payer to fee paid ≡ ok paid'
    → IsPaid payer (total + fee) paid'
unfolding pay_worker
pay_worker-IsPaid payable payer to fee total paid paid' v h = elim (Bool-cases (ltb 0 fee)) [
  | inl positive ↦ pay-IsPaid payable payer to fee total paid paid' v (rw positive at h)
  | inr nil ↦
      subst (IsPaid payer (total + fee)) (ok-injective (rw nil at h))
        (record { summed = ground (arith, v.summed, nil); by_payer = v.by_payer })
]

abbrev total_of : List WorkerFee → ℕ
total_of [] = 0
total_of (f ∷ fs) = f.fee + total_of fs

sum_fees-total :
    (start : ℕ) (fees : List WorkerFee) (total : ℕ)
    → sum_fees start fees ≡ ok total
    → total ≡ start + total_of fees
unfolding sum_fees
sum_fees-total start [] total h = omega (arith, ok-injective h)
sum_fees-total start (f ∷ fs) total h =
    let (next, e, h1) = >>=-eq-ok (checked_add 64 start f.fee) _ h in
    omega (arith, sum_fees-total next fs total h1, in_total start f.fee next e)

pay_dvns-IsPaid :
    (payable : Payable) (payer : ℕ) (cs : List Chunk) (fees : List WorkerFee) (total : ℕ)
    (paid paid' : List Payment)
    → length fees ≡ length cs
    → IsPaid payer total paid
    → pay_dvns payable payer cs fees paid ≡ ok paid'
    → IsPaid payer (total + total_of fees) paid'
unfolding pay_dvns
pay_dvns-IsPaid payable payer [] [] total paid paid' l v h =
    subst (IsPaid payer (total + 0)) (ok-injective h)
      (record { summed = omega (arith, v.summed); by_payer = v.by_payer })
pay_dvns-IsPaid payable payer [] (f ∷ fs) total paid paid' l v h = absurd (omega arith)
pay_dvns-IsPaid payable payer (c ∷ cs) [] total paid paid' l v h = absurd (omega arith)
pay_dvns-IsPaid payable payer (c ∷ cs) (f ∷ fs) total paid paid' l v h =
    let (next, e, h1) = >>=-eq-ok (pay_worker payable payer c.config.key f.fee paid) _ h in
    let w =
      pay_dvns-IsPaid payable payer cs fs (total + f.fee) next paid' (omega arith)
        (pay_worker-IsPaid payable payer c.config.key f.fee total paid next v e) h1 in
    record { summed = omega (arith, w.summed); by_payer = w.by_payer }

length-each_chunk :
    (round : ℕ → Chunk → Result WorkerFee) (i : ℕ) (cs : List Chunk) (fees : List WorkerFee)
    → each_chunk round i cs ≡ ok fees
    → length fees ≡ length cs
unfolding each_chunk
length-each_chunk round i [] fees h = ap length (sym (ok-injective h))
length-each_chunk round i (c ∷ cs) fees h =
    let (f, e1, h1) = >>=-eq-ok (round i c) _ h in
    let (fs, e2, h2) = >>=-eq-ok (each_chunk round (i + 1) cs) _ h1 in
    omega (arith, ap length (ok-injective h2), length-each_chunk round (i + 1) cs fs e2)

length-quote_dvns :
    (env : Workers) (config : UlnConfig) (dst_eid sender : ℕ) (header : List ℕ) (payload_hash : ℕ)
    (options : DvnOptions) (accounts : List WorkerInfo) (fees : List WorkerFee)
    → quote_dvns env config dst_eid sender header payload_hash options accounts ≡ ok fees
    → length fees ≡ length (chunks accounts)
unfolding quote_dvns
length-quote_dvns env config dst_eid sender header payload_hash options accounts fees h =
    let (u1, e1, h1) =
      >>=-eq-ok
        (require
          (length accounts == (length config.required_dvns + length config.optional_dvns) * 4)
          (uln UlnError.invalid_account_length))
        _ h in
    let (u2, e2, h2) = >>=-eq-ok (assert_non_signers accounts) _ h1 in
    length-each_chunk (quote_dvn_at env config dst_eid sender header payload_hash options) 0
      (chunks accounts) fees h2

from_zero :
    (payer total : ℕ) (paid : List Payment)
    → IsPaid payer (0 + total) paid
    → IsPaid payer total paid
from_zero payer total paid v = record { summed = omega (arith, v.summed); by_payer = v.by_payer }

-- The payments of an assigned job.
job-IsPaid :
    (env : Workers) (payable : Payable) (payer : ℕ) (packet : Packet) (options : List ℕ)
    (send_config : Option SendConfig) (default_config : SendConfig) (remaining : List WorkerInfo)
    (job : Assigned)
    → IsAssigned env payable payer packet options send_config default_config remaining job
    → IsPaid payer (job.executor_fee.fee + total_of job.dvn_fees) job.paid
job-IsPaid env payable payer packet options send_config default_config remaining job a =
    pay_dvns-IsPaid payable payer (chunks (drop 4 remaining)) job.dvn_fees job.executor_fee.fee
      a.executor_paid job.paid
      (length-quote_dvns env a.configs.0 packet.dst_eid packet.sender (encode_packet_header packet)
        _ a.decoded.1 (drop 4 remaining) job.dvn_fees a.dvns_quoted)
      (from_zero payer job.executor_fee.fee a.executor_paid (
        pay_worker-IsPaid payable payer a.executor_chunk.config.key job.executor_fee.fee 0 []
          a.executor_paid (record { summed = refl; by_payer = tt }) a.paid_executor))
      a.paid_dvns

nothing-IsPaid :
    (payer total : ℕ) (paid : List Payment) (fee : Option TreasuryFee) (paid' : List Payment)
    → IsPaid payer total paid
    → ◌≡◌ {A = Option TreasuryFee × List Payment} (none, paid) (fee, paid')
    → IsPaid payer (total + fee_of fee) paid'
nothing-IsPaid payer total paid fee paid' v same =
    subst (λ (p : Option TreasuryFee × List Payment). IsPaid payer (total + fee_of p.0) p.1) same
      (record { summed = omega (arith, v.summed); by_payer = v.by_payer })

pay_treasury-IsPaid :
    (payable : Payable) (payer : ℕ) (given : Option ℕ) (treasury : Option Treasury)
    (worker_fee total : ℕ) (paid : List Payment) (fee : Option TreasuryFee) (paid' : List Payment)
    → IsPaid payer total paid
    → pay_treasury payable payer given treasury worker_fee paid ≡ ok (fee, paid')
    → IsPaid payer (total + fee_of fee) paid'
unfolding pay_treasury charge_treasury
pay_treasury-IsPaid payable payer given none worker_fee total paid fee paid' v h =
    nothing-IsPaid payer total paid fee paid' v (ok-injective h)
pay_treasury-IsPaid payable payer given (some treasury) worker_fee total paid fee paid' v h =
    let (asked, e1, h1) = >>=-eq-ok (quote_treasury treasury worker_fee false) _ h in
    let (acc, e2, h2) = >>=-eq-ok (ok_or given (uln UlnError.invalid_treasury)) _ h1 in
    let (u3, e3, h3) =
      >>=-eq-ok (require (acc == treasury.native_receiver) (uln UlnError.invalid_treasury)) _ h2 in
    elim (Bool-cases (ltb 0 asked)) [
      | inl positive ↦
          let (made, e4, h4) =
            >>=-eq-ok (pay payable (lamports payer acc asked) paid) _ (rw positive at h3) in
          let same : (some (record { treasury = acc; fee = asked; pay_in_lz_token = false }), made)
              ≡ (fee, paid') =
            ok-injective h4 in
          subst (λ (p : Option TreasuryFee × List Payment). IsPaid payer (total + fee_of p.0) p.1)
            same (pay-IsPaid payable payer acc asked total paid made v e4)
      | inr nil ↦ nothing-IsPaid payer total paid fee paid' v (ok-injective (rw nil at h3))
    ]

adding_up :
    (executor dvns treasury dvn_sum worker_fee total : ℕ)
    → dvn_sum ≡ 0 + dvns
    → worker_fee ≡ executor + dvn_sum
    → total ≡ worker_fee + treasury
    → executor + dvns + treasury ≡ total
adding_up executor dvns treasury dvn_sum worker_fee total h k l = omega arith

-- A successful send has taken from the payer, in lamports, exactly the native fee that it returns,
-- which is not above the one that the caller allowed, and every payment that it made is the payer's.
pub send_paid :
    (env : Workers) (payable : Payable) (accounts : SendAccounts) (remaining : List WorkerInfo)
    (params : LibrarySendParams) (u : UlnStore) (sent : MessagingFee × List ℕ) (u' : UlnStore)
    (paid : List Payment)
    → send env payable accounts remaining params u ≡ ok (sent, (u', paid))
    → (lamports_in paid ≡ sent.0.native_fee)
      × All (IsBy accounts.payer) paid
      × (sent.0.native_fee ≤ params.native_fee)
unfolding send
send_paid env payable accounts remaining params u sent u' paid h =
    let (settings, e1, h1) = >>=-eq-ok (account u.uln) _ h in
    let (default_config, e2, h2) =
      >>=-eq-ok (account (u.default_send_configs params.packet.dst_eid)) _ h1 in
    let (u3, e3, h3) = >>=-eq-ok (require_same settings.endpoint accounts.endpoint) _ h2 in
    let (u4, e4, h4) =
      >>=-eq-ok (require (not (accounts.payer == accounts.endpoint)) (uln UlnError.invalid_payer)) _
        h3 in
    let (job, e5, h5) =
      >>=-eq-ok
        (assign_job_to_workers env payable accounts.payer params.packet params.options
          (u.send_configs (params.packet.sender, params.packet.dst_eid)) default_config remaining)
        _ h4 in
    let (dvn_sum, e6, h6) = >>=-eq-ok (sum_fees 0 job.dvn_fees) _ h5 in
    let (worker_fee, e7, h7) = >>=-eq-ok (checked_add 64 job.executor_fee.fee dvn_sum) _ h6 in
    let (charged, e8, h8) =
      >>=-eq-ok
        (pay_treasury payable accounts.payer accounts.treasury settings.treasury worker_fee
          job.paid)
        _ h7 in
    let (total, e9, h9) = >>=-eq-ok (checked_add 64 worker_fee (fee_of charged.0)) _ h8 in
    let (u10, e10, h10) =
      >>=-eq-ok (require (leb total params.native_fee) (uln UlnError.insufficient_fee)) _ h9 in
    let same = ok-injective h10 in
    let v =
      pay_treasury-IsPaid payable accounts.payer accounts.treasury settings.treasury worker_fee _
        job.paid charged.0 charged.1
        (job-IsPaid env payable accounts.payer params.packet params.options
          (u.send_configs (params.packet.sender, params.packet.dst_eid)) default_config remaining
          job
          (assign-IsAssigned env payable accounts.payer params.packet params.options
            (u.send_configs (params.packet.sender, params.packet.dst_eid)) default_config remaining
            job e5))
        e8 in
    let summed : job.executor_fee.fee + total_of job.dvn_fees + fee_of charged.0 ≡ total =
      adding_up job.executor_fee.fee (total_of job.dvn_fees) (fee_of charged.0) dvn_sum worker_fee
        total (sum_fees-total 0 job.dvn_fees dvn_sum e6)
        (in_total job.executor_fee.fee dvn_sum worker_fee e7)
        (in_total worker_fee (fee_of charged.0) total e9) in
    subst
      (λ (p : (MessagingFee × List ℕ) × (UlnStore × List Payment)).
        (lamports_in p.1.1 ≡ p.0.0.native_fee)
        × All (IsBy accounts.payer) p.1.1
        × (p.0.0.native_fee ≤ params.native_fee))
      same (v.summed ∙ summed, v.by_payer, leb→le total params.native_fee (require-eq-ok _ _ e10))
