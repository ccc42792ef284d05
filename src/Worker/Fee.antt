-- ===== src/Worker/Fee.antt =====
-- programs/worker-interface/src/worker_utils.rs: the fee of a worker, out of the fee of the price
-- feed.
use lz_v2_audit.Prelude.{
  ℕ, ◌+◌, ◌-◌, ◌*◌, ◌/◌, ◌^◌, ◌≤◌, ◌<◌, ◌≡◌, Option, none, some, arith, ltb, leb, if◌then◌else◌,
  Result, ok, require, ◌>>◌, ◌>>=◌, WorkerError, worker, checked_add, checked_mul, checked_div,
}

abbrev pub sol_decimals_rate : ℕ
sol_decimals_rate = 1000000000

unfoldable pub safe_convert_u128_to_u64 : ℕ → Result ℕ
safe_convert_u128_to_u64 value = do
  require (leb value (2 ^ 64 - 1)) (worker WorkerError.invalid_size)
  ok value

-- The rest of the function, with a margin and a price.
abbrev pub with_margin :
    (fee fee_with_multiplier floor_margin_usd native_token_price_usd : ℕ) → Result ℕ
with_margin fee fee_with_multiplier floor_margin_usd native_token_price_usd = do
  scaled ← checked_mul 128 floor_margin_usd sol_decimals_rate
  margin ← checked_div scaled native_token_price_usd
  fee_with_margin ← checked_add 128 fee margin
  ok (if ltb fee_with_multiplier fee_with_margin then fee_with_margin else fee_with_multiplier)

unfoldable pub increase_fee_with_multiplier_or_floor_margin :
    (fee multiplier_bps : ℕ) (floor_margin_usd native_token_price_usd : Option ℕ) → Result ℕ
increase_fee_with_multiplier_or_floor_margin fee multiplier_bps floor_margin_usd
      native_token_price_usd =
    do
      multiplied ← checked_mul 128 fee multiplier_bps
      fee_with_multiplier ← checked_div multiplied 10000
      elim floor_margin_usd [
        | none ↦ ok fee_with_multiplier
        | some floor_margin_usd ↦ elim native_token_price_usd [
          | none ↦ ok fee_with_multiplier
          | some native_token_price_usd ↦
              with_margin fee fee_with_multiplier floor_margin_usd native_token_price_usd
        ]
      ]

-- A fee of at most 112 bits, a margin of at most 97, and a price that is not zero.
abbrev pub IsPriced : Option ℕ → Option ℕ → Type 0
IsPriced none price = Unit
IsPriced (some margin) none = Unit
IsPriced (some margin) (some price) = (margin < 2 ^ 97) × (0 < price)

abbrev pub max : ℕ → ℕ → ℕ
max a b = if ltb a b then b else a

-- The multiplied fee, or the fee with the margin in native tokens if that is more.
abbrev pub increased : (fee multiplier_bps : ℕ) → Option ℕ → Option ℕ → ℕ
increased fee multiplier_bps none price = fee * multiplier_bps / 10000
increased fee multiplier_bps (some margin) none = fee * multiplier_bps / 10000
increased fee multiplier_bps (some margin) (some price) =
    max (fee * multiplier_bps / 10000) (fee + margin * sol_decimals_rate / price)

multiplied : (fee bps : ℕ) → fee < 2 ^ 112 → bps < 2 ^ 16 → fee * bps < 2 ^ 128
multiplied fee bps f b = grind arith

divided : (a b : ℕ) → 0 < b → a / b ≤ a
divided a b h = grind arith

-- For a fee of at most 112 bits, a multiplier of at most 16, and a margin of at most 97 with a price
-- that is not zero, if they are given, nothing overflows: the fee is multiplied, and raised to the fee
-- with the margin where that is more.
pub increase_fee_lem :
    (fee multiplier_bps : ℕ) (margin price : Option ℕ)
    → fee < 2 ^ 112
    → multiplier_bps < 2 ^ 16
    → IsPriced margin price
    → increase_fee_with_multiplier_or_floor_margin fee multiplier_bps margin price
      ≡ ok (increased fee multiplier_bps margin price)
unfolding increase_fee_with_multiplier_or_floor_margin
increase_fee_lem fee bps none price f b h = ground (arith, multiplied fee bps f b)
increase_fee_lem fee bps (some m) none f b h = ground (arith, multiplied fee bps f b)
increase_fee_lem fee bps (some m) (some p) f b h =
    ground (arith, multiplied fee bps f b, divided (m * sol_decimals_rate) p)
