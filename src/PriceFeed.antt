-- ===== src/PriceFeed.antt =====
-- programs/pricefeed: the prices of the destination chains, and the fee of an execution on one.
-- This file has the account (state/price.rs) and the instructions that write it (instructions/admin
-- and instructions/updater). Whether the account has been extended stands for the test that
-- `set_price` makes on its size, which only `extend_price_feed` changes.
pub mod Fee
pub mod Histories
mod Runs
use lz_v2_audit.Prelude.{
  ℕ, ◌+◌, ◌^◌, Option, none, some, List, [], Bool, true, false, contains, length, leb, ◌==◌,
  if◌then◌else◌, Result, ok, require, account, fresh, ◌>>=◌, ◌>>◌, PriceFeedError, price_feed,
  AnchorError, anchor,
}
use lz_v2_audit.SortedList.{insert_or_update_sorted_list_by_eid, remove_from_sorted_list_by_eid}

abbrev pub updaters_max_len : ℕ
updaters_max_len = 8

abbrev pub prices_default_len : ℕ
prices_default_len = 140

abbrev pub prices_max_len : ℕ
prices_max_len = 340

abbrev pub eid_modulus : ℕ
eid_modulus = 30000

pub data ModelType : Type 0 where
  arbitrum : (gas_per_l2_tx gas_per_l1_calldata_byte : ℕ) → ModelType
  optimism : (l1_eid : ℕ) → ModelType

pub record Price : Type 0 where
  pub eid : ℕ
  pub price_ratio : ℕ
  pub gas_price_in_unit : ℕ
  pub gas_per_byte : ℕ
  pub model_type : Option ModelType

abbrev pub eid_of : Price → ℕ
eid_of price = price.eid

pub record PriceFeed : Type 0 where
  pub admin : ℕ
  pub updaters : List ℕ
  pub price_ratio_denominator : ℕ
  pub arbitrum_compression_percent : ℕ
  pub native_token_price_usd : Option ℕ
  pub prices : List Price
  pub bump : ℕ

-- The account: its data, and whether it has its larger size.
pub record PriceFeedAccount : Type 0 where
  pub data_of : PriceFeed
  pub extended : Bool

pub record PriceParams : Type 0 where
  pub price_ratio : ℕ
  pub gas_price_in_unit : ℕ
  pub gas_per_byte : ℕ
  pub model_type : Option ModelType

pub record SetPriceFeedParams : Type 0 where
  pub updaters : List ℕ
  pub price_ratio_denominator : ℕ
  pub arbitrum_compression_percent : ℕ

abbrev pub require_few_updaters : List ℕ → Result (Unit {0})
require_few_updaters updaters =
    require (leb (length updaters) updaters_max_len) (price_feed PriceFeedError.too_many_updaters)

abbrev require_admin : ℕ → PriceFeed → Result (Unit {0})
require_admin admin feed = require (feed.admin == admin) (anchor AnchorError.constraint_has_one)

abbrev require_updater : ℕ → PriceFeed → Result (Unit {0})
require_updater updater feed =
    require (contains updater feed.updaters) (price_feed PriceFeedError.invalid_updater)

-- `InitPriceFeed::apply`; the fields that it does not set are zero.
unfoldable pub init_price_feed :
    (bump admin : ℕ) (updaters : List ℕ) → Option PriceFeedAccount → Result PriceFeedAccount
init_price_feed bump admin updaters a = do
  fresh a
  require_few_updaters updaters
  ok (record {
    data_of = record {
      admin = admin;
      updaters = updaters;
      price_ratio_denominator = 10 ^ 20;
      arbitrum_compression_percent = 47;
      native_token_price_usd = none;
      prices = [];
      bump = bump;
    };
    extended = false;
  })

-- `ExtendPriceFeed::apply`: the `realloc` of its accounts
unfoldable pub extend_price_feed : (admin : ℕ) → Option PriceFeedAccount → Result PriceFeedAccount
extend_price_feed admin a = do
  feed ← account a
  require_admin admin feed.data_of
  ok (record feed { extended = true })

-- `SetPriceFeed::apply`
unfoldable pub set_price_feed :
    (admin : ℕ) → SetPriceFeedParams → Option PriceFeedAccount → Result PriceFeedAccount
set_price_feed admin params a = do
  feed ← account a
  require_admin admin feed.data_of
  require_few_updaters params.updaters
  ok (record feed {
    data_of = record feed.data_of {
      updaters = params.updaters;
      price_ratio_denominator = params.price_ratio_denominator;
      arbitrum_compression_percent = params.arbitrum_compression_percent;
    };
  })

-- `TransferAdmin::apply`
unfoldable pub transfer_admin :
    (admin new_admin : ℕ) → Option PriceFeedAccount → Result PriceFeedAccount
transfer_admin admin new_admin a = do
  feed ← account a
  require_admin admin feed.data_of
  ok (record feed { data_of = record feed.data_of { admin = new_admin } })

abbrev pub max_len_of : Bool → ℕ
max_len_of extended = if extended then prices_max_len else prices_default_len

-- The new prices of `SetPrice::apply`
unfoldable pub set_price_in :
    (dst_eid : ℕ) → Option PriceParams → Bool → List Price → Result (List Price)
set_price_in dst_eid (some params) extended prices =
    insert_or_update_sorted_list_by_eid eid_of prices
      (record {
        eid = dst_eid;
        price_ratio = params.price_ratio;
        gas_price_in_unit = params.gas_price_in_unit;
        gas_per_byte = params.gas_per_byte;
        model_type = params.model_type;
      })
      (max_len_of extended)
set_price_in dst_eid none extended prices = remove_from_sorted_list_by_eid eid_of prices dst_eid

-- `SetPrice::apply`
unfoldable pub set_price :
    (updater dst_eid : ℕ) → Option PriceParams → Option PriceFeedAccount → Result PriceFeedAccount
unfolding set_price_in
set_price updater dst_eid params a = do
  feed ← account a
  require_updater updater feed.data_of
  prices ← set_price_in dst_eid params feed.extended feed.data_of.prices
  ok (record feed { data_of = record feed.data_of { prices = prices } })

-- `SetSolPrice::apply`
unfoldable pub set_sol_price :
    (updater : ℕ) → Option ℕ → Option PriceFeedAccount → Result PriceFeedAccount
set_sol_price updater native_token_price_usd a = do
  feed ← account a
  require_updater updater feed.data_of
  ok (record feed {
    data_of = record feed.data_of { native_token_price_usd = native_token_price_usd };
  })
