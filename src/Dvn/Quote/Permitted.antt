-- ===== src/Dvn/Quote/Permitted.antt =====
-- What a quote of a DVN shows, and the sizes that it charges for.
use mathlib.Core.Path.{subst}
use lz_v2_audit.Prelude.{
  ℕ, ◌+◌, ◌-◌, ◌*◌, ◌%◌, ◌^◌, ◌≤◌, ◌<◌, ◌≡◌, ◌∙◌, refl, sym, Option, none, some, Bool, true, false,
  not, ◌||◌, contains, ltb, ltb→lt, leb, leb→le, ◌==◌, List, [], ◌∷◌, Result, ok, require, account,
  >>=-eq-ok, require-eq-ok, account-eq-ok, ok-injective, DvnError, dvn, AnchorError, anchor,
  WorkerError, worker, arith,
}
use lz_v2_audit.SortedList.{get_from_sorted_list_by_eid}
use lz_v2_audit.SortedList.Search.{IsIncreasing}
use lz_v2_audit.SortedList.Keys.{search-contains}
use lz_v2_audit.Worker.{QuoteDvnParams}
use lz_v2_audit.Worker.Permission.{has_permission, assert_permission, is_empty, has_permission_lem}
use lz_v2_audit.Worker.Fee.{safe_convert_u128_to_u64, increase_fee_with_multiplier_or_floor_margin}
use lz_v2_audit.PriceFeed.Fee.{GetFeeParams}
use lz_v2_audit.Dvn.{DvnConfig, DstConfig, eid_of}
use lz_v2_audit.Dvn.Settings.{IsDvnConfig}
use lz_v2_audit.Dvn.Invoke.{DvnAccount}
use lz_v2_audit.Dvn.Quote.{
  total_signature_bytes_padded, calldata_size, PriceFeedAccounts, require_msglib, quote_checks,
  charge, quote,
}

-- The padded bytes hold the signatures, in whole words of 32 bytes and with less than one to spare.
pub padded_lem :
    (quorum : ℕ)
    → (total_signature_bytes_padded quorum % 32 ≡ 0)
      × (quorum * 65 ≤ total_signature_bytes_padded quorum)
      × (total_signature_bytes_padded quorum < quorum * 65 + 32)
unfolding total_signature_bytes_padded
padded_lem quorum = ground arith

require_msglib-eq-ok :
    (msglib : ℕ) (libs : List ℕ) {u : Unit {0}}
    → IsIncreasing libs
    → require_msglib msglib libs ≡ ok u
    → (is_empty libs || contains msglib libs) ≡ true
require_msglib-eq-ok msglib [] s h = refl
require_msglib-eq-ok msglib (lib ∷ libs) s h =
    sym (search-contains (lib ∷ libs) msglib s) ∙ require-eq-ok _ _ h

charge-word :
    (config : DvnConfig) (d : DstConfig) (fee : ℕ) (usd : Option ℕ) (charged : ℕ)
    → charge config d fee usd ≡ ok charged
    → charged < 2 ^ 64
unfolding charge safe_convert_u128_to_u64
charge-word config d fee usd charged h =
    let (raised, e1, h1) =
      >>=-eq-ok
        (increase_fee_with_multiplier_or_floor_margin fee
          (elim d.multiplier_bps [ some bps ↦ bps | none ↦ config.default_multiplier_bps ])
          d.floor_margin_usd usd)
        _ h in
    let (u, e2, h2) =
      >>=-eq-ok (require (leb raised (2 ^ 64 - 1)) (worker WorkerError.invalid_size)) _ h1 in
    omega (arith, leb→le _ _ (require-eq-ok _ _ e2), ok-injective h2)

-- What the checks of a quote have shown.
pub record IsPermitted (config : DvnConfig) (params : QuoteDvnParams) (d : DstConfig) : Type 0 where
  pub running : config.paused ≡ false
  pub not_denied : contains params.sender config.acl.deny_list ≡ false
  pub allowed :
      (is_empty config.acl.allow_list || contains params.sender config.acl.allow_list) ≡ true
  pub msglib : (is_empty config.msglibs || contains params.msglib config.msglibs) ≡ true
  pub configured : get_from_sorted_list_by_eid eid_of config.dst_configs params.dst_eid ≡ ok d
  pub supported : 0 < d.dst_gas

quote_checks-IsPermitted :
    (feed : PriceFeedAccounts) (extended : Bool) (config : DvnConfig) (params : QuoteDvnParams)
    (d : DstConfig)
    → IsDvnConfig extended config
    → quote_checks feed config params ≡ ok d
    → IsPermitted config params d
unfolding quote_checks
quote_checks-IsPermitted feed extended config params d v h =
    let (u1, e1, h1) =
      >>=-eq-ok
        (require (feed.price_feed_program == feed.config_owner)
          (anchor AnchorError.constraint_address))
        _ h in
    let (u2, e2, h2) =
      >>=-eq-ok
        (require (feed.price_feed_config == config.price_feed)
          (anchor AnchorError.constraint_address))
        _ h1 in
    let (u3, e3, h3) = >>=-eq-ok (require (not config.paused) (dvn DvnError.paused)) _ h2 in
    let (u4, e4, h4) = >>=-eq-ok (assert_permission config.acl params.sender) _ h3 in
    let (u5, e5, h5) = >>=-eq-ok (require_msglib params.msglib config.msglibs) _ h4 in
    let (d', e6, h6) =
      >>=-eq-ok (get_from_sorted_list_by_eid eid_of config.dst_configs params.dst_eid) _ h5 in
    let (u7, e7, h7) =
      >>=-eq-ok (require (ltb 0 d'.dst_gas) (dvn DvnError.eid_not_supported)) _ h6 in
    let running = require-eq-ok (not config.paused) _ e3 in
    let permission =
      sym (has_permission_lem config.acl params.sender v.lists.acl)
      ∙ require-eq-ok (has_permission config.acl params.sender) _ e4 in
    subst (IsPermitted config params) (ok-injective h7) (record {
      running = ground arith;
      not_denied = ground arith;
      allowed = ground arith;
      msglib = require_msglib-eq-ok params.msglib config.msglibs v.lists.msglibs.sorted e5;
      configured = e6;
      supported = ltb→lt _ _ (require-eq-ok _ _ e7);
    })

-- A DVN with a well-formed configuration quotes a fee only while it is not paused, to a sender that
-- is not denied and that is allowed unless nobody is listed, for a message library that is listed
-- unless none is, and to a destination that is configured with some gas; the fee fits 64 bits.
pub quote_lem :
    (get_fee : (program config : ℕ) → GetFeeParams → Result (ℕ × (ℕ × (ℕ × Option ℕ))))
    (feed : PriceFeedAccounts) (o : Option DvnAccount) (a : DvnAccount) (params : QuoteDvnParams)
    (fee : ℕ)
    → o ≡ some a
    → IsDvnConfig a.extended a.data_of
    → quote get_fee feed o params ≡ ok fee
    → ((d : DstConfig) × IsPermitted a.data_of params d) × (fee < 2 ^ 64)
unfolding quote
quote_lem get_fee feed o a params fee e0 v h =
    let (x, e1, h1) = >>=-eq-ok (account o) _ h in
    let (d, e2, h2) = >>=-eq-ok (quote_checks feed x.data_of params) _ h1 in
    let (answer, e3, h3) =
      >>=-eq-ok
        (get_fee feed.price_feed_program feed.price_feed_config (record {
          dst_eid = params.dst_eid;
          calldata_size = calldata_size x.data_of.multisig.quorum;
          total_gas = d.dst_gas;
        }))
        _ h2 in
    let same : a ≡ x = some-injective (sym e0 ∙ account-eq-ok o e1) in
    let w : IsDvnConfig x.extended x.data_of =
      subst (λ (y : DvnAccount). IsDvnConfig y.extended y.data_of) same v in
    (
      subst (λ (y : DvnAccount). (d : DstConfig) × IsPermitted y.data_of params d) (sym same)
          (d, quote_checks-IsPermitted feed x.extended x.data_of params d w e2),
      charge-word x.data_of d answer.0 _ fee h3,
    )
  where
    some-injective : {a b : DvnAccount} → some a ≡ some b → a ≡ b
    some-injective e = cc
