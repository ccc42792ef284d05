-- ===== src/Worker/Runs.antt =====
-- Access lists and fees of workers on concrete values.
use lz_v2_audit.Prelude.{◌≡◌, some, ok, arith}
use lz_v2_audit.Worker.Fee.{
  increase_fee_with_multiplier_or_floor_margin, increase_fee_lem, increased,
}

-- A margin of one dollar at 200 dollars for a token, both in units of 10 ^ -20.
increase_fee_lem_example :
    increase_fee_with_multiplier_or_floor_margin 1000000 12000
      (some 100000000000000000000)
      (some 20000000000000000000000)
    ≡ ok (increased 1000000 12000 (some 100000000000000000000) (some 20000000000000000000000))
increase_fee_lem_example =
    increase_fee_lem 1000000 12000 (some 100000000000000000000) (some 20000000000000000000000)
      (omega arith) (omega arith) (omega arith, omega arith)
