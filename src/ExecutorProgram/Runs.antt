-- ===== src/ExecutorProgram/Runs.antt =====
-- An executor that its owner deploys, that an admin opens for a destination, and that quotes a
-- message with a drop.
use lz_v2_audit.Prelude.{
  ℕ, ◌+◌, ◌*◌, ◌≤◌, ◌<◌, ◌^◌, ◌≡◌, ◌≢◌, contains, refl, Option, none, some, false, [], ◌∷◌, ◌++◌,
  Result, ok, nat_eq,
}
use lz_v2_audit.Bytes.{be_bytes, to_uint, slice, from_be_bytes}
use lz_v2_audit.SortedList.{
  is_at, binary_search, insert_or_update_sorted_list_by_eid, get_from_sorted_list_by_eid,
}
use lz_v2_audit.Worker.{QuoteExecutorParams}
use lz_v2_audit.Worker.Permission.{insert_or_remove_sorted_pubkey_list, has_permission}
use lz_v2_audit.Worker.Fee.{safe_convert_u128_to_u64, increase_fee_with_multiplier_or_floor_margin}
use lz_v2_audit.PriceFeed.Fee.{GetFeeParams}
use lz_v2_audit.Dvn.Quote.{PriceFeedAccounts}
use lz_v2_audit.ExecutorProgram.{
  ExecutorConfig, DstConfig, InitExecutorParams, AdminSetConfigParams, require_none_in, set_admins,
  set_executors, set_msglibs, set_dst_configs, apply_admin_config, init_executor, admin_set_config,
}
use lz_v2_audit.ExecutorProgram.Settings.{IsExecutorConfig}
use lz_v2_audit.ExecutorProgram.Histories.{
  History, start, then_action, init_action, admin_action, reachable-IsExecutorConfig,
}
use lz_v2_audit.ExecutorProgram.Authority.{IsSameRoles, IsSamePricing, only_owner_and_admins}
use lz_v2_audit.ExecutorProgram.Options.{
  decode_lz_receive_params, decode_native_drop_params, decode_lz_compose_params,
}
use lz_v2_audit.ExecutorProgram.Quote.{
  quote_checks, add_lz_receive, add_native_drop, add_compose_gas, add_lz_compose, add_option,
  add_compose_total, total_gas_of, charge, quote,
}
use lz_v2_audit.ExecutorProgram.Quote.Sums.{sum_over, amount_of, receive_gas_of}
use lz_v2_audit.ExecutorProgram.Quote.Permitted.{IsServed, executor_quote_lem}

abbrev params : InitExecutorParams
params = record {
  owner = 3;
  admins = 5 ∷ [];
  executors = 7 ∷ 8 ∷ [];
  msglibs = 30 ∷ [];
  price_feed = 40;
}

abbrev deployed : ExecutorConfig
deployed = record {
  bump = 255;
  owner = 3;
  acl = record { allow_list = []; deny_list = [] };
  admins = 5 ∷ [];
  executors = 7 ∷ 8 ∷ [];
  msglibs = 30 ∷ [];
  paused = false;
  default_multiplier_bps = 12000;
  price_feed = 40;
  dst_configs = [];
}

abbrev destination : DstConfig
destination = record {
  eid = 111;
  lz_receive_base_gas = 50000;
  lz_compose_base_gas = 20000;
  multiplier_bps = none;
  floor_margin_usd = none;
  native_drop_cap = 1000;
}

abbrev serving : ExecutorConfig
serving = record deployed { dst_configs = destination ∷ [] }

deploying : init_executor 255 params none ≡ ok deployed
unfolding init_executor set_admins set_executors set_msglibs require_none_in
    insert_or_remove_sorted_pubkey_list binary_search
deploying = refl

opening :
    admin_set_config 5 (AdminSetConfigParams.dst_configs (destination ∷ [])) (some deployed)
    ≡ ok serving
unfolding admin_set_config apply_admin_config set_dst_configs insert_or_update_sorted_list_by_eid
    binary_search
opening = refl

history : History (some serving)
history =
    then_action (then_action start 3 (init_action 255 params deploying)) 5
      (admin_action (AdminSetConfigParams.dst_configs (destination ∷ [])) opening)

reachable-IsExecutorConfig_example : IsExecutorConfig serving
reachable-IsExecutorConfig_example = reachable-IsExecutorConfig (some serving) history

only_owner_and_admins_example :
    ((deployed.owner ≢ 5) → IsSameRoles deployed serving)
    × ((contains 5 deployed.admins ≡ false) → IsSamePricing deployed serving)
only_owner_and_admins_example =
    only_owner_and_admins 5 deployed serving
      (admin_action (AdminSetConfigParams.dst_configs (destination ∷ [])) opening)

-- 200000 gas for `lz_receive` with a value of 300, a drop of 500, and 1000 gas for a compose.
abbrev asked : QuoteExecutorParams
asked = record {
  msglib = 30;
  dst_eid = 111;
  sender = 66;
  calldata_size = 100;
  options =
      record { option_type = 1; params = be_bytes 16 200000 ++ be_bytes 16 300 }
      ∷ record { option_type = 2; params = be_bytes 16 500 ++ be_bytes 32 9 }
      ∷ record { option_type = 3; params = be_bytes 2 1 ++ be_bytes 16 1000 }
      ∷ record { option_type = 4; params = [] }
      ∷ [];
}

abbrev feed_fee : (program config : ℕ) → GetFeeParams → Result (ℕ × (ℕ × (ℕ × Option ℕ)))
feed_fee program feed params = ok (params.calldata_size + params.total_gas * 10, (2, (1, none)))

abbrev feed_accounts : PriceFeedAccounts
feed_accounts = record { price_feed_program = 9; price_feed_config = 40; config_owner = 9 }

-- The gas is 271000 and 2% more, 276420; the fee is (2764200 + 100) * 1.2 + 800 * 2 * 1.2.
quoted : quote feed_fee feed_accounts (some serving) asked ≡ ok 3319080
unfolding quote quote_checks charge total_gas_of add_compose_total add_option add_lz_receive
    add_native_drop add_compose_gas add_lz_compose decode_lz_receive_params
    decode_native_drop_params decode_lz_compose_params to_uint slice from_be_bytes be_bytes
    has_permission binary_search get_from_sorted_list_by_eid
    increase_fee_with_multiplier_or_floor_margin safe_convert_u128_to_u64 is_at
quoted = refl

executor_quote_lem_example :
    ((d : DstConfig) × IsServed serving asked d
      × (sum_over amount_of asked.options ≤ d.native_drop_cap))
    × (0 < sum_over receive_gas_of asked.options)
    × (3319080 < 2 ^ 64)
executor_quote_lem_example =
    executor_quote_lem feed_fee feed_accounts serving asked 3319080
      reachable-IsExecutorConfig_example quoted
