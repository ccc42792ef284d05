-- ===== src/Dvn/Quote.antt =====
-- programs/dvn/src/instructions/quote.rs: the fee of a DVN. The sums on the sizes of signatures stay
-- small, since a quorum is a byte. The price feed is another program, at the owner of its account.
pub mod Permitted
use mathlib.Core.Path.{subst}
use lz_v2_audit.Prelude.{
  ℕ, ◌+◌, ◌-◌, ◌*◌, ◌%◌, ◌^◌, ◌≤◌, ◌<◌, ◌≡◌, ◌∙◌, refl, sym, ap, Option, none, some, Bool, true,
  false, not, ◌&&◌, ◌||◌, contains, ltb, ltb→lt, leb, leb→le, ◌==◌, ==→eq, if◌then◌else◌, List, [],
  ◌∷◌, Result, ok, err, require, account, ◌>>=◌, ◌>>◌, >>=-eq-ok, require-eq-ok, account-eq-ok,
  ok-injective, DvnError, dvn, AnchorError, anchor, WorkerError, worker, arith,
}
use lz_v2_audit.SortedList.{is_at, binary_search, get_from_sorted_list_by_eid}
use lz_v2_audit.SortedList.Search.{IsIncreasing}
use lz_v2_audit.SortedList.Keys.{search-contains}
use lz_v2_audit.Worker.{QuoteDvnParams}
use lz_v2_audit.Worker.Permission.{has_permission, assert_permission, is_empty, has_permission_lem}
use lz_v2_audit.Worker.Fee.{safe_convert_u128_to_u64, increase_fee_with_multiplier_or_floor_margin}
use lz_v2_audit.PriceFeed.Fee.{GetFeeParams}
use lz_v2_audit.Dvn.Committee.{Multisig}
use lz_v2_audit.Dvn.{DvnConfig, DstConfig, eid_of}
use lz_v2_audit.Dvn.Settings.{IsDvnConfig}
use lz_v2_audit.Dvn.Invoke.{DvnAccount}

abbrev pub execute_fixed_bytes : ℕ
execute_fixed_bytes = 68

abbrev pub signature_raw_bytes : ℕ
signature_raw_bytes = 65

abbrev pub verify_bytes : ℕ
verify_bytes = 320

-- The bytes of a quorum of signatures, up to a multiple of 32.
unfoldable pub total_signature_bytes_padded : (quorum : ℕ) → ℕ
total_signature_bytes_padded quorum =
    let total = quorum * signature_raw_bytes in
    if total % 32 == 0 then total else total + 32 - total % 32

unfoldable pub calldata_size : (quorum : ℕ) → ℕ
unfolding total_signature_bytes_padded
calldata_size quorum = execute_fixed_bytes + verify_bytes + total_signature_bytes_padded quorum + 64

-- `price_feed_program` and `price_feed_config`, with the owner of the latter
pub record PriceFeedAccounts : Type 0 where
  pub price_feed_program : ℕ
  pub price_feed_config : ℕ
  pub config_owner : ℕ

abbrev pub require_msglib : ℕ → List ℕ → Result (Unit {0})
require_msglib msglib [] = ok tt
require_msglib msglib (lib ∷ libs) =
    require (is_at (binary_search (lib ∷ libs) msglib)) (dvn DvnError.msg_lib_not_allowed)

-- The constraints and checks of `Quote::apply`, up to the settings of the destination
unfoldable pub quote_checks : PriceFeedAccounts → DvnConfig → QuoteDvnParams → Result DstConfig
quote_checks feed config params = do
  require (feed.price_feed_program == feed.config_owner) (anchor AnchorError.constraint_address)
  require (feed.price_feed_config == config.price_feed) (anchor AnchorError.constraint_address)
  require (not config.paused) (dvn DvnError.paused)
  assert_permission config.acl params.sender
  require_msglib params.msglib config.msglibs
  dst_config ← get_from_sorted_list_by_eid eid_of config.dst_configs params.dst_eid
  require (ltb 0 dst_config.dst_gas) (dvn DvnError.eid_not_supported)
  ok dst_config

-- The fee of the price feed, raised and converted.
unfoldable pub charge :
    DvnConfig → DstConfig → (fee : ℕ) → (native_token_price_usd : Option ℕ) → Result ℕ
charge config dst_config fee native_token_price_usd = do
  raised ←
      increase_fee_with_multiplier_or_floor_margin fee
        (elim dst_config.multiplier_bps [ some bps ↦ bps | none ↦ config.default_multiplier_bps ])
        dst_config.floor_margin_usd native_token_price_usd
  safe_convert_u128_to_u64 raised

module _ (get_fee : (program config : ℕ) → GetFeeParams → Result (ℕ × (ℕ × (ℕ × Option ℕ)))) where
  -- `Quote::apply`
  unfoldable pub quote : PriceFeedAccounts → Option DvnAccount → QuoteDvnParams → Result ℕ
  unfolding charge calldata_size quote_checks
  quote feed a params = do
    stored ← account a
    dst_config ← quote_checks feed stored.data_of params
    (fee, rest) ← get_fee feed.price_feed_program feed.price_feed_config (record {
      dst_eid = params.dst_eid;
      calldata_size = calldata_size stored.data_of.multisig.quorum;
      total_gas = dst_config.dst_gas;
    })
    charge stored.data_of dst_config fee rest.1.1
