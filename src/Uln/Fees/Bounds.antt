-- ===== src/Uln/Fees/Bounds.antt =====
-- What the treasury adds to the fees of the workers.
use native.Mathlib.Nat.{div-le_of_le-mul}
use lz_v2_audit.Prelude.{
  ℕ, ◌+◌, ◌*◌, ◌/◌, ◌^◌, ◌≤◌, ◌<◌, ◌≡◌, refl, Option, none, some, false, ok, arith,
}
use lz_v2_audit.Endpoint.State.{MessagingFee}
use lz_v2_audit.Uln.State.{Treasury}
use lz_v2_audit.Uln.Admin.Accepted.{OnTreasury}
use lz_v2_audit.Uln.Fees.{quote_treasury, with_treasury}

share : (fee bps : ℕ) → bps ≤ 10000 → fee * bps / 10000 ≤ fee
share fee bps h = div-le_of_le-mul 10000 (grind arith)

-- A treasury that takes at most the whole fee, as every stored one does, asks no more in native fees
-- than the workers ask, and with it a quote exists whenever the workers' fee is below 2 ^ 50.
pub treasury_bounded :
    (treasury : Option Treasury) (worker_fee : ℕ)
    → OnTreasury treasury
    → worker_fee < 2 ^ 50
    → (fee : MessagingFee) × (with_treasury treasury worker_fee false ≡ ok fee)
      × (worker_fee ≤ fee.native_fee)
      × (fee.native_fee ≤ worker_fee + worker_fee)
      × (fee.lz_token_fee ≡ 0)
unfolding with_treasury quote_treasury
treasury_bounded none w b h =
    (record { native_fee = w; lz_token_fee = 0 }, refl, omega arith, omega arith, refl)
treasury_bounded (some t) w b h = (
  record { native_fee = w + w * t.native_fee_bps / 10000; lz_token_fee = 0 },
  ground (arith, small, share w t.native_fee_bps b),
  omega arith,
  omega (arith, share w t.native_fee_bps b),
  refl,
)
  where
    small : w * t.native_fee_bps < 2 ^ 64
    small = grind arith
