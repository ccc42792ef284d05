-- ===== src/ExecutorProgram/Quote.antt =====
-- programs/executor/src/instructions/quote.rs: the fee of the executor. The price feed is another
-- program, at the owner of its account.
pub mod Sums
pub mod Permitted
use lz_v2_audit.Prelude.{
  ℕ, ◌+◌, ◌*◌, ◌/◌, ◌≡◌, Option, none, some, Bool, true, false, not, ltb, leb, ◌==◌, if◌then◌else◌,
  List, [], ◌∷◌, ◌++◌, Result, ok, err, panic, require, account, ◌>>=◌, ◌>>◌, each, checked_add,
  checked_mul, checked_div, write, nat_eq, ExecutorError, executor, AnchorError, anchor,
}
use lz_v2_audit.SortedList.{is_at, binary_search, get_from_sorted_list_by_eid}
use lz_v2_audit.Worker.{LzOption, QuoteExecutorParams}
use lz_v2_audit.Worker.Permission.{assert_permission}
use lz_v2_audit.Worker.Fee.{safe_convert_u128_to_u64, increase_fee_with_multiplier_or_floor_margin}
use lz_v2_audit.PriceFeed.Fee.{GetFeeParams}
use lz_v2_audit.Dvn.Quote.{PriceFeedAccounts}
use lz_v2_audit.ExecutorProgram.{ExecutorConfig, DstConfig, eid_of}
use lz_v2_audit.ExecutorProgram.Options.{
  decode_lz_receive_params, decode_native_drop_params, decode_lz_compose_params,
  option_type_lzreceive, option_type_native_drop, option_type_lzcompose,
  option_type_ordered_execution,
}

abbrev pub require_msglib : ℕ → List ℕ → Result (Unit {0})
require_msglib msglib [] = ok tt
require_msglib msglib (lib ∷ libs) =
    require (is_at (binary_search (lib ∷ libs) msglib)) (executor ExecutorError.msg_lib_not_allowed)

-- The constraints and checks of `Quote::apply`, up to the settings of the destination
unfoldable pub quote_checks :
    PriceFeedAccounts → ExecutorConfig → QuoteExecutorParams → Result DstConfig
quote_checks feed config params = do
  require (feed.price_feed_program == feed.config_owner) (anchor AnchorError.constraint_address)
  require (feed.price_feed_config == config.price_feed) (anchor AnchorError.constraint_address)
  require (not config.paused) (executor ExecutorError.paused)
  assert_permission config.acl params.sender
  require_msglib params.msglib config.msglibs
  dst_config ← get_from_sorted_list_by_eid eid_of config.dst_configs params.dst_eid
  require (ltb 0 dst_config.lz_receive_base_gas) (executor ExecutorError.eid_not_supported)
  ok dst_config

-- The local variables of the loop over the options; a `HashMap` is a function.
pub record Totals : Type 0 where
  pub dst_amount : ℕ
  pub ordered : Bool
  pub unique_lz_compose_idx : List ℕ
  pub lz_compose_gas : ℕ → Option ℕ
  pub lz_receive_gas : ℕ

abbrev pub no_totals : Totals
no_totals = record {
  dst_amount = 0;
  ordered = false;
  unique_lz_compose_idx = [];
  lz_compose_gas = λ index. none;
  lz_receive_gas = 0;
}

unfoldable pub add_lz_receive : Totals → List ℕ → Result Totals
add_lz_receive t params = do
  (gas, value) ← decode_lz_receive_params params
  dst_amount ← checked_add 128 t.dst_amount value
  lz_receive_gas ← checked_add 128 t.lz_receive_gas gas
  ok (record t { dst_amount = dst_amount; lz_receive_gas = lz_receive_gas })

unfoldable pub add_native_drop : Totals → List ℕ → Result Totals
add_native_drop t params = do
  (amount, receiver) ← decode_native_drop_params params
  dst_amount ← checked_add 128 t.dst_amount amount
  ok (record t { dst_amount = dst_amount })

-- The gas of an index, with the index noted when it is new.
unfoldable pub add_compose_gas : Totals → (dst_amount index gas : ℕ) → Option ℕ → Result Totals
add_compose_gas t dst_amount index gas (some lz_compose_gas) = do
  sum ← checked_add 128 lz_compose_gas gas
  ok (record t {
    dst_amount = dst_amount;
    lz_compose_gas = write index (some sum) t.lz_compose_gas;
  })
add_compose_gas t dst_amount index gas none = ok (record t {
  dst_amount = dst_amount;
  lz_compose_gas = write index (some gas) t.lz_compose_gas;
  unique_lz_compose_idx = t.unique_lz_compose_idx ++ (index ∷ []);
})

unfoldable pub add_lz_compose : Totals → List ℕ → Result Totals
unfolding add_compose_gas
add_lz_compose t params = do
  (index, (gas, value)) ← decode_lz_compose_params params
  dst_amount ← checked_add 128 t.dst_amount value
  add_compose_gas t dst_amount index gas (t.lz_compose_gas index)

-- One round of the loop over the options.
unfoldable pub add_option : Totals → LzOption → Result Totals
unfolding add_lz_receive add_native_drop add_lz_compose
add_option t option =
    if option.option_type == option_type_lzreceive
    then add_lz_receive t option.params
    else if option.option_type == option_type_native_drop
    then add_native_drop t option.params
    else if option.option_type == option_type_lzcompose
    then add_lz_compose t option.params
    else if option.option_type == option_type_ordered_execution
    then ok (record t { ordered = true })
    else err (executor ExecutorError.unsupported_option_type)

-- One round of the loop over the compose indices.
unfoldable pub add_compose_total : DstConfig → Totals → ℕ → ℕ → Result ℕ
add_compose_total dst_config t total_gas index = elim (t.lz_compose_gas index) [
  | none ↦ panic
  | some lz_compose_gas ↦ do
    require (ltb 0 lz_compose_gas) (executor ExecutorError.zero_lz_compose_gas_provided)
    gas ← checked_add 128 dst_config.lz_compose_base_gas lz_compose_gas
    checked_add 128 total_gas gas
]

-- 2% extra gas for ordered execution
abbrev pub ordered_gas : (ordered : Bool) → ℕ → Result ℕ
ordered_gas true total_gas = do scaled ← checked_mul 128 total_gas 102; ok (scaled / 100)
ordered_gas false total_gas = ok total_gas

-- The gas of the execution, after the totals.
unfoldable pub total_gas_of : DstConfig → Totals → Result ℕ
unfolding add_compose_total
total_gas_of dst_config t = do
  require (leb t.dst_amount dst_config.native_drop_cap)
      (executor ExecutorError.native_amount_exceeds_cap)
  require (ltb 0 t.lz_receive_gas) (executor ExecutorError.zero_lz_receive_gas_provided)
  received ← checked_add 128 dst_config.lz_receive_base_gas t.lz_receive_gas
  total ← each (add_compose_total dst_config t) t.unique_lz_compose_idx received
  ordered_gas t.ordered total

abbrev pub multiplier_of : ExecutorConfig → Option ℕ → ℕ
multiplier_of config (some bps) = bps
multiplier_of config none = config.default_multiplier_bps

-- The fee of the price feed, raised, with the fee for the amount, and converted.
unfoldable pub charge :
    ExecutorConfig → DstConfig → (dst_amount : ℕ) → ℕ × (ℕ × (ℕ × Option ℕ)) → Result ℕ
charge config dst_config dst_amount (fee, (price_ratio, (denominator, native_token_price_usd))) =
    let multiplier_bps = multiplier_of config dst_config.multiplier_bps in
    do
      fee_for_gas ←
          increase_fee_with_multiplier_or_floor_margin fee multiplier_bps
            dst_config.floor_margin_usd native_token_price_usd
      priced ← checked_mul 128 dst_amount price_ratio
      multiplied ← checked_mul 128 priced multiplier_bps
      divided ← checked_div multiplied denominator
      total_fee ← checked_add 128 fee_for_gas (divided / 10000)
      safe_convert_u128_to_u64 total_fee

module _ (get_fee : (program config : ℕ) → GetFeeParams → Result (ℕ × (ℕ × (ℕ × Option ℕ)))) where
  -- `Quote::apply`
  unfoldable pub quote : PriceFeedAccounts → Option ExecutorConfig → QuoteExecutorParams → Result ℕ
  unfolding quote_checks add_option total_gas_of charge
  quote feed a params = do
    config ← account a
    dst_config ← quote_checks feed config params
    totals ← each add_option params.options no_totals
    total_gas ← total_gas_of dst_config totals
    answer ← get_fee feed.price_feed_program feed.price_feed_config (record {
      dst_eid = params.dst_eid;
      calldata_size = params.calldata_size;
      total_gas = total_gas;
    })
    charge config dst_config totals.dst_amount answer
