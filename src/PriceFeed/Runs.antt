-- ===== src/PriceFeed/Runs.antt =====
-- The price feed on concrete prices: two chains with a price, one of them by the Optimism model.
use lz_v2_audit.Prelude.{
  ℕ, ◌≤◌, ◌≡◌, ◌≢◌, refl, none, some, [], ◌∷◌, Result, ok, err, panic, contains, false, arith,
}
use lz_v2_audit.SortedList.{
  binary_search, get_from_sorted_list_by_eid, insert_or_update_sorted_list_by_eid,
}
use lz_v2_audit.PriceFeed.{
  optimism, PriceFeedAccount, PriceParams, init_price_feed, extend_price_feed, set_price_in,
  set_price,
}
use lz_v2_audit.PriceFeed.Fee.{estimate_fee, estimate_fee_with_optimism_model, get_fee}
use lz_v2_audit.PriceFeed.Fee.Monotone.{get_fee_monotone}
use lz_v2_audit.PriceFeed.Histories.{
  History, start, then_action, init_action, extend_action, set_price_action, IsPriceFeed,
  reachable-IsPriceFeed,
}
use lz_v2_audit.PriceFeed.Histories.Authority.{IsSameSettings, IsSamePrices, only_authorised}

abbrev or_else : PriceFeedAccount → Result PriceFeedAccount → PriceFeedAccount
or_else a (ok b) = b
or_else a (err e) = a
or_else a panic = a

abbrev blank : PriceFeedAccount
blank = record {
  data_of = record {
    admin = 0;
    updaters = [];
    price_ratio_denominator = 0;
    arbitrum_compression_percent = 0;
    native_token_price_usd = none;
    prices = [];
    bump = 0;
  };
  extended = false;
}

abbrev l1_params : PriceParams
l1_params = record {
  price_ratio = 2000000000000000000000;
  gas_price_in_unit = 30000000000;
  gas_per_byte = 16;
  model_type = none;
}

abbrev l2_params : PriceParams
l2_params = record l1_params { gas_price_in_unit = 100000000; model_type = some (optimism 30101) }

abbrev deployed : PriceFeedAccount
deployed = or_else blank (init_price_feed 255 5 (8 ∷ []) none)

abbrev with_l2 : PriceFeedAccount
with_l2 = or_else deployed (set_price 8 111 (some l2_params) (some deployed))

abbrev priced : PriceFeedAccount
priced = or_else with_l2 (set_price 8 101 (some l1_params) (some with_l2))

abbrev enlarged : PriceFeedAccount
enlarged = or_else priced (extend_price_feed 5 (some priced))

l2_is_set : set_price 8 111 (some l2_params) (some deployed) ≡ ok with_l2
unfolding set_price set_price_in insert_or_update_sorted_list_by_eid binary_search init_price_feed
l2_is_set = refl

l1_is_set : set_price 8 101 (some l1_params) (some with_l2) ≡ ok priced
unfolding set_price set_price_in insert_or_update_sorted_list_by_eid binary_search init_price_feed
l1_is_set = refl

history : History (some enlarged)
unfolding set_price set_price_in insert_or_update_sorted_list_by_eid binary_search init_price_feed
    extend_price_feed
history =
    then_action
      (then_action
        (then_action (then_action start 9 (init_action 255 5 (8 ∷ []) refl)) 8
          (set_price_action 111 (some l2_params) l2_is_set))
        8 (set_price_action 101 (some l1_params) l1_is_set))
      5 (extend_action refl)

reachable-IsPriceFeed_example : IsPriceFeed enlarged
reachable-IsPriceFeed_example = reachable-IsPriceFeed (some enlarged) history

only_authorised_example :
    ((with_l2.data_of.admin ≢ 8) → IsSameSettings with_l2 priced)
    × ((contains 8 with_l2.data_of.updaters ≡ false) → IsSamePrices with_l2 priced)
only_authorised_example =
    only_authorised 8 with_l2 priced (set_price_action 101 (some l1_params) l1_is_set)

-- The fee of 1000 bytes and 200000 gas.
priced_message :
    get_fee (some priced) (record { dst_eid = 30111; calldata_size = 1000; total_gas = 200000 })
    ≡ ok (11944800000000000, (2000000000000000000000, (100000000000000000000, none)))
unfolding get_fee estimate_fee estimate_fee_with_optimism_model get_from_sorted_list_by_eid
    binary_search init_price_feed set_price insert_or_update_sorted_list_by_eid
priced_message = refl

get_fee_monotone_example :
    (fee : ℕ) × (get_fee
        (some priced)
        (record { dst_eid = 30111; calldata_size = 500; total_gas = 150000 })
      ≡ ok (fee, (2000000000000000000000, (100000000000000000000, none))))
    × (fee ≤ 11944800000000000)
get_fee_monotone_example =
    get_fee_monotone (some priced) 30111 500 1000 150000 200000 11944800000000000
      (2000000000000000000000, (100000000000000000000, none)) (omega arith) (omega arith)
      priced_message
