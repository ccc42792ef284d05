-- ===== src/Uln/Sending/Logged.antt =====
-- What a send leaves of the ULN's accounts: all of them; it only emits an event.
use lz_v2_audit.Prelude.{
  ℕ, ◌≡◌, ◌==◌, not, leb, ap, List, ok, require, account, >>=-eq-ok, ok-injective, checked_add,
  UlnError, uln, nat_eq, pair_eq,
}
use lz_v2_audit.Endpoint.State.{MessagingFee}
use lz_v2_audit.Endpoint.Store.{LibrarySendParams, LibrarySendWithLzTokenParams}
use lz_v2_audit.Uln.State.{UlnStore, Event}
use lz_v2_audit.Uln.Admin.{require_same}
use lz_v2_audit.Uln.Fees.{WorkerInfo, Workers, sum_fees}
use lz_v2_audit.Uln.Sending.{
  Payment, Payable, SendAccounts, LzTokenAccounts, assign_job_to_workers, pay_treasury,
  pay_lz_treasury, fee_of, send, send_with_lz_token,
}

-- The answer of a send: the fee and the encoded packet, the store and the payments.
abbrev Sent : Type 0
Sent = (MessagingFee × List ℕ) × (UlnStore × List Payment)

logged :
    (u u' : UlnStore) (log : List Event) (sent result : MessagingFee × List ℕ)
    (made paid : List Payment)
    → ◌≡◌ {A = Sent} (sent, (record u { log = log }, made)) (result, (u', paid))
    → (events : List Event) × ((record u { log = events }) ≡ u')
logged u u' log sent result made paid same = (log, ap (λ (x : Sent). x.1.0) same)

module _ (env : Workers) (payable : Payable) where
  pub send-log :
      (accounts : SendAccounts) (remaining : List WorkerInfo) (params : LibrarySendParams)
      (u u' : UlnStore) (result : MessagingFee × List ℕ) (paid : List Payment)
      → send env payable accounts remaining params u ≡ ok (result, (u', paid))
      → (events : List Event) × ((record u { log = events }) ≡ u')
  unfolding send
  send-log accounts remaining params u u' result paid h =
      let (settings, e1, h1) = >>=-eq-ok (account u.uln) _ h in
      let (default_config, e2, h2) =
        >>=-eq-ok (account (u.default_send_configs params.packet.dst_eid)) _ h1 in
      let (u3, e3, h3) = >>=-eq-ok (require_same settings.endpoint accounts.endpoint) _ h2 in
      let (u4, e4, h4) =
        >>=-eq-ok (require (not (accounts.payer == accounts.endpoint)) (uln UlnError.invalid_payer))
          _ h3 in
      let (job, e5, h5) =
        >>=-eq-ok
          (assign_job_to_workers env payable accounts.payer params.packet params.options
            (u.send_configs (params.packet.sender, params.packet.dst_eid)) default_config remaining)
          _ h4 in
      let (dvn_sum, e6, h6) = >>=-eq-ok (sum_fees 0 job.dvn_fees) _ h5 in
      let (worker_fee, e7, h7) = >>=-eq-ok (checked_add 64 job.executor_fee.fee dvn_sum) _ h6 in
      let (treasury, e8, h8) =
        >>=-eq-ok
          (pay_treasury payable accounts.payer accounts.treasury settings.treasury worker_fee
            job.paid)
          _ h7 in
      let (total, e9, h9) = >>=-eq-ok (checked_add 64 worker_fee (fee_of treasury.0)) _ h8 in
      let (u10, e10, h10) =
        >>=-eq-ok (require (leb total params.native_fee) (uln UlnError.insufficient_fee)) _ h9 in
      logged u u' _ _ result _ paid (ok-injective h10)

  pub send_with_lz_token-log :
      (accounts : LzTokenAccounts) (remaining : List WorkerInfo)
      (params : LibrarySendWithLzTokenParams) (u u' : UlnStore) (result : MessagingFee × List ℕ)
      (paid : List Payment)
      → send_with_lz_token env payable accounts remaining params u ≡ ok (result, (u', paid))
      → (events : List Event) × ((record u { log = events }) ≡ u')
  unfolding send_with_lz_token
  send_with_lz_token-log accounts remaining params u u' result paid h =
      let (settings, e1, h1) = >>=-eq-ok (account u.uln) _ h in
      let (default_config, e2, h2) =
        >>=-eq-ok (account (u.default_send_configs params.packet.dst_eid)) _ h1 in
      let (u3, e3, h3) = >>=-eq-ok (require_same settings.endpoint accounts.endpoint) _ h2 in
      let (u4, e4, h4) =
        >>=-eq-ok (require (not (accounts.payer == accounts.endpoint)) (uln UlnError.invalid_payer))
          _ h3 in
      let (u5, e5, h5) =
        >>=-eq-ok
          (require (accounts.lz_token_mint == params.lz_token_mint)
            (uln UlnError.invalid_lz_token_mint))
          _ h4 in
      let (job, e6, h6) =
        >>=-eq-ok
          (assign_job_to_workers env payable accounts.payer params.packet params.options
            (u.send_configs (params.packet.sender, params.packet.dst_eid)) default_config remaining)
          _ h5 in
      let (dvn_sum, e7, h7) = >>=-eq-ok (sum_fees 0 job.dvn_fees) _ h6 in
      let (worker_fee, e8, h8) = >>=-eq-ok (checked_add 64 job.executor_fee.fee dvn_sum) _ h7 in
      let (u9, e9, h9) =
        >>=-eq-ok (require (leb worker_fee params.native_fee) (uln UlnError.insufficient_fee)) _
          h8 in
      let (treasury, e10, h10) =
        >>=-eq-ok
          (pay_lz_treasury payable accounts params.lz_token_fee settings.treasury worker_fee
            job.paid)
          _ h9 in
      logged u u' _ _ result _ paid (ok-injective h10)
