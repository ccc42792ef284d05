-- ===== src/PriceFeed/Fee.antt =====
-- programs/pricefeed/src/instructions/get_fee.rs: the fee of a message by the model of its chain.
-- Casts widen only; u64 and u128 products and sums are checked.
pub mod Monotone
use lz_v2_audit.Prelude.{
  ℕ, ◌+◌, ◌%◌, Option, none, some, Result, ok, account, ◌>>=◌, checked_add, checked_mul,
  checked_div,
}
use lz_v2_audit.SortedList.{get_from_sorted_list_by_eid}
use lz_v2_audit.PriceFeed.{
  ModelType, arbitrum, optimism, Price, eid_of, PriceFeed, PriceFeedAccount, eid_modulus,
}

pub record GetFeeParams : Type 0 where
  pub dst_eid : ℕ
  pub calldata_size : ℕ
  pub total_gas : ℕ

unfoldable pub estimate_fee_with_default_model :
    PriceFeed → Price → (calldata_size gas : ℕ) → Result ℕ
estimate_fee_with_default_model feed price calldata_size gas = do
  gas_for_calldata ← checked_mul 64 calldata_size price.gas_per_byte
  total ← checked_add 128 gas gas_for_calldata
  in_unit ← checked_mul 128 total price.gas_price_in_unit
  scaled ← checked_mul 128 in_unit price.price_ratio
  checked_div scaled feed.price_ratio_denominator

unfoldable pub estimate_fee_with_optimism_model :
    PriceFeed → Price → (calldata_size gas : ℕ) → (l1_price : Price) → Result ℕ
estimate_fee_with_optimism_model feed price calldata_size gas l1_price = do
  calldata_gas ← checked_mul 64 calldata_size l1_price.gas_per_byte
  gas_for_l1_calldata ← checked_add 64 calldata_gas 3188
  l1_in_unit ← checked_mul 64 gas_for_l1_calldata l1_price.gas_price_in_unit
  l1_scaled ← checked_mul 128 l1_in_unit l1_price.price_ratio
  l1_fee ← checked_div l1_scaled feed.price_ratio_denominator
  gas_for_l2_calldata ← checked_mul 64 calldata_size price.gas_per_byte
  total ← checked_add 128 gas gas_for_l2_calldata
  in_unit ← checked_mul 128 total price.gas_price_in_unit
  scaled ← checked_mul 128 in_unit price.price_ratio
  l2_fee ← checked_div scaled feed.price_ratio_denominator
  checked_add 128 l2_fee l1_fee

unfoldable pub estimate_fee_with_arbitrum_model :
    PriceFeed → Price → (calldata_size gas gas_per_l2_tx gas_per_l1_calldata_byte : ℕ) → Result ℕ
estimate_fee_with_arbitrum_model feed price calldata_size gas gas_per_l2_tx
      gas_per_l1_calldata_byte =
    do
      gas_for_l1_calldata ← checked_mul 64 calldata_size gas_per_l1_calldata_byte
      gas_for_l2_calldata ← checked_mul 64 calldata_size price.gas_per_byte
      with_tx ← checked_add 128 gas gas_per_l2_tx
      with_l1 ← checked_add 128 with_tx gas_for_l1_calldata
      total_gas ← checked_add 128 with_l1 gas_for_l2_calldata
      in_unit ← checked_mul 128 total_gas price.gas_price_in_unit
      scaled ← checked_mul 128 in_unit price.price_ratio
      checked_div scaled feed.price_ratio_denominator

-- The `match` on the model of the price.
unfoldable pub estimate_fee : PriceFeed → Price → (calldata_size gas : ℕ) → Result ℕ
unfolding estimate_fee_with_default_model estimate_fee_with_arbitrum_model
    estimate_fee_with_optimism_model
estimate_fee feed price calldata_size gas = elim price.model_type [
  | none ↦ estimate_fee_with_default_model feed price calldata_size gas
  | some (arbitrum gas_per_l2_tx gas_per_l1_calldata_byte) ↦
      estimate_fee_with_arbitrum_model feed price calldata_size gas gas_per_l2_tx
        gas_per_l1_calldata_byte
  | some (optimism l1_eid) ↦ do
    l1_price ← get_from_sorted_list_by_eid eid_of feed.prices (l1_eid % eid_modulus)
    estimate_fee_with_optimism_model feed price calldata_size gas l1_price
]

-- `GetFee::apply`
unfoldable pub get_fee : Option PriceFeedAccount → GetFeeParams → Result (ℕ × (ℕ × (ℕ × Option ℕ)))
unfolding estimate_fee
get_fee a params = do
  feed ← account a
  price ← get_from_sorted_list_by_eid eid_of feed.data_of.prices (params.dst_eid % eid_modulus)
  fee ← estimate_fee feed.data_of price params.calldata_size params.total_gas
  ok (
    fee,
    (
      price.price_ratio,
      (feed.data_of.price_ratio_denominator, feed.data_of.native_token_price_usd),
    ),
  )
