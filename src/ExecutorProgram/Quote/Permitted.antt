-- ===== src/ExecutorProgram/Quote/Permitted.antt =====
-- What a quote of the executor shows.
use mathlib.Core.Path.{subst}
use lz_v2_audit.Prelude.{
  ℕ, ◌-◌, ◌/◌, ◌^◌, ◌≤◌, ◌<◌, ◌≡◌, ◌∙◌, refl, sym, Option, some, true, false, not, ◌||◌, contains,
  ltb, ltb→lt, leb, leb→le, ◌==◌, List, [], ◌∷◌, Result, ok, require, each, >>=-eq-ok,
  require-eq-ok, ok-injective, checked_add, checked_mul, checked_div, ExecutorError, executor,
  AnchorError, anchor, WorkerError, worker, arith,
}
use lz_v2_audit.SortedList.{get_from_sorted_list_by_eid}
use lz_v2_audit.SortedList.Search.{IsIncreasing}
use lz_v2_audit.SortedList.Keys.{search-contains}
use lz_v2_audit.Worker.{QuoteExecutorParams}
use lz_v2_audit.Worker.Permission.{has_permission, assert_permission, is_empty, has_permission_lem}
use lz_v2_audit.Worker.Fee.{safe_convert_u128_to_u64, increase_fee_with_multiplier_or_floor_margin}
use lz_v2_audit.PriceFeed.Fee.{GetFeeParams}
use lz_v2_audit.Dvn.Quote.{PriceFeedAccounts}
use lz_v2_audit.ExecutorProgram.{ExecutorConfig, DstConfig, eid_of}
use lz_v2_audit.ExecutorProgram.Settings.{IsExecutorConfig}
use lz_v2_audit.ExecutorProgram.Quote.{
  require_msglib, quote_checks, Totals, no_totals, add_option, total_gas_of, multiplier_of, charge,
  quote,
}
use lz_v2_audit.ExecutorProgram.Quote.Sums.{sum_over, amount_of, receive_gas_of, totals_lem}

require_msglib-eq-ok :
    (msglib : ℕ) (libs : List ℕ) {u : Unit {0}}
    → IsIncreasing libs
    → require_msglib msglib libs ≡ ok u
    → (is_empty libs || contains msglib libs) ≡ true
require_msglib-eq-ok msglib [] s h = refl
require_msglib-eq-ok msglib (lib ∷ libs) s h =
    sym (search-contains (lib ∷ libs) msglib s) ∙ require-eq-ok _ _ h

converted-word :
    (value charged : ℕ) → safe_convert_u128_to_u64 value ≡ ok charged → charged < 2 ^ 64
unfolding safe_convert_u128_to_u64
converted-word value charged h =
    let (u, e, h1) =
      >>=-eq-ok (require (leb value (2 ^ 64 - 1)) (worker WorkerError.invalid_size)) _ h in
    omega (arith, leb→le _ _ (require-eq-ok _ _ e), ok-injective h1)

charge-word :
    (config : ExecutorConfig) (d : DstConfig) (amount : ℕ) (answer : ℕ × (ℕ × (ℕ × Option ℕ)))
    (charged : ℕ)
    → charge config d amount answer ≡ ok charged
    → charged < 2 ^ 64
unfolding charge
charge-word config d amount (fee, (price_ratio, (denominator, usd))) charged h =
    let bps = multiplier_of config d.multiplier_bps in
    let (gas_fee, e1, h1) =
      >>=-eq-ok (increase_fee_with_multiplier_or_floor_margin fee bps d.floor_margin_usd usd) _ h in
    let (priced, e2, h2) = >>=-eq-ok (checked_mul 128 amount price_ratio) _ h1 in
    let (multiplied, e3, h3) = >>=-eq-ok (checked_mul 128 priced bps) _ h2 in
    let (divided, e4, h4) = >>=-eq-ok (checked_div multiplied denominator) _ h3 in
    let (total, e5, h5) = >>=-eq-ok (checked_add 128 gas_fee (divided / 10000)) _ h4 in
    converted-word total charged h5

-- What the checks of a quote have shown.
pub record IsServed (config : ExecutorConfig) (params : QuoteExecutorParams) (d : DstConfig)
    : Type 0 where
  pub running : config.paused ≡ false
  pub not_denied : contains params.sender config.acl.deny_list ≡ false
  pub allowed :
      (is_empty config.acl.allow_list || contains params.sender config.acl.allow_list) ≡ true
  pub msglib : (is_empty config.msglibs || contains params.msglib config.msglibs) ≡ true
  pub configured : get_from_sorted_list_by_eid eid_of config.dst_configs params.dst_eid ≡ ok d
  pub supported : 0 < d.lz_receive_base_gas

quote_checks-IsServed :
    (feed : PriceFeedAccounts) (config : ExecutorConfig) (params : QuoteExecutorParams)
    (d : DstConfig)
    → IsExecutorConfig config
    → quote_checks feed config params ≡ ok d
    → IsServed config params d
unfolding quote_checks
quote_checks-IsServed feed config params d v h =
    let (u1, e1, h1) =
      >>=-eq-ok
        (require (feed.price_feed_program == feed.config_owner)
          (anchor AnchorError.constraint_address))
        _ h in
    let (u2, e2, h2) =
      >>=-eq-ok
        (require (feed.price_feed_config == config.price_feed)
          (anchor AnchorError.constraint_address))
        _ h1 in
    let (u3, e3, h3) =
      >>=-eq-ok (require (not config.paused) (executor ExecutorError.paused)) _ h2 in
    let (u4, e4, h4) = >>=-eq-ok (assert_permission config.acl params.sender) _ h3 in
    let (u5, e5, h5) = >>=-eq-ok (require_msglib params.msglib config.msglibs) _ h4 in
    let (d', e6, h6) =
      >>=-eq-ok (get_from_sorted_list_by_eid eid_of config.dst_configs params.dst_eid) _ h5 in
    let (u7, e7, h7) =
      >>=-eq-ok (require (ltb 0 d'.lz_receive_base_gas) (executor ExecutorError.eid_not_supported))
        _ h6 in
    let running = require-eq-ok (not config.paused) _ e3 in
    let permission =
      sym (has_permission_lem config.acl params.sender v.acl)
      ∙ require-eq-ok (has_permission config.acl params.sender) _ e4 in
    subst (IsServed config params) (ok-injective h7) (record {
      running = ground arith;
      not_denied = ground arith;
      allowed = ground arith;
      msglib = require_msglib-eq-ok params.msglib config.msglibs v.msglibs.sorted e5;
      configured = e6;
      supported = ltb→lt _ _ (require-eq-ok _ _ e7);
    })

total_gas-bounds :
    (d : DstConfig) (t : Totals) (gas : ℕ)
    → total_gas_of d t ≡ ok gas
    → (t.dst_amount ≤ d.native_drop_cap) × (0 < t.lz_receive_gas)
unfolding total_gas_of
total_gas-bounds d t gas h =
    let (u1, e1, h1) =
      >>=-eq-ok
        (require (leb t.dst_amount d.native_drop_cap)
          (executor ExecutorError.native_amount_exceeds_cap))
        _ h in
    let (u2, e2, h2) =
      >>=-eq-ok
        (require (ltb 0 t.lz_receive_gas) (executor ExecutorError.zero_lz_receive_gas_provided)) _
        h1 in
    (leb→le _ _ (require-eq-ok _ _ e1), ltb→lt _ _ (require-eq-ok _ _ e2))

-- An executor with a well-formed configuration quotes a fee only while it is not paused, to a sender
-- that is not denied and that is allowed unless nobody is listed, for a message library that is
-- listed unless none is, and to a destination that is configured with some gas. The amounts that the
-- options ask for are then within the destination's cap in sum, the options give some gas for
-- `lz_receive`, and the fee fits 64 bits.
pub executor_quote_lem :
    (get_fee : (program config : ℕ) → GetFeeParams → Result (ℕ × (ℕ × (ℕ × Option ℕ))))
    (feed : PriceFeedAccounts) (config : ExecutorConfig) (params : QuoteExecutorParams) (fee : ℕ)
    → IsExecutorConfig config
    → quote get_fee feed (some config) params ≡ ok fee
    → ((d : DstConfig) × IsServed config params d
        × (sum_over amount_of params.options ≤ d.native_drop_cap))
      × (0 < sum_over receive_gas_of params.options)
      × (fee < 2 ^ 64)
unfolding quote
executor_quote_lem get_fee feed config params fee v h =
    let (d, e1, h1) = >>=-eq-ok (quote_checks feed config params) _ h in
    let (t, e2, h2) = >>=-eq-ok (each add_option params.options no_totals) _ h1 in
    let (gas, e3, h3) = >>=-eq-ok (total_gas_of d t) _ h2 in
    let (answer, e4, h4) =
      >>=-eq-ok
        (get_fee feed.price_feed_program feed.price_feed_config (record {
          dst_eid = params.dst_eid;
          calldata_size = params.calldata_size;
          total_gas = gas;
        }))
        _ h3 in
    let (amount, received) = totals_lem params.options no_totals t e2 in
    let (capped, some_gas) = total_gas-bounds d t gas e3 in
    (
      (d, quote_checks-IsServed feed config params d v e1, omega (arith, amount, capped)),
      omega (arith, received, some_gas),
      charge-word config d t.dst_amount answer fee h4,
    )
