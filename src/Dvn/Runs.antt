-- ===== src/Dvn/Runs.antt =====
-- A DVN with a committee of three: deployed, paused by two of the committee, and the mark of the order
-- removed when it has expired. A signature of the model's runtime spells the key that it is by.
use lz_v2_audit.Prelude.{
  ℕ, ◌*◌, ◌<◌, ◌^◌, ◌≡◌, ◌≢◌, ◌⊎◌, refl, Option, none, some, true, false, List, [], ◌∷◌, Result, ok,
  length, arith, write, nat_eq,
}
use lz_v2_audit.SortedList.{
  is_at, binary_search, insert_or_update_sorted_list_by_eid, get_from_sorted_list_by_eid,
}
use lz_v2_audit.Worker.{QuoteDvnParams}
use lz_v2_audit.Worker.Permission.{insert_or_remove_sorted_pubkey_list, has_permission}
use lz_v2_audit.Worker.Fee.{safe_convert_u128_to_u64, increase_fee_with_multiplier_or_floor_margin}
use lz_v2_audit.PriceFeed.Fee.{GetFeeParams}
use lz_v2_audit.Dvn.{
  DvnConfig, DstConfig, MultisigConfig, AdminConfig, set_multisig, set_admins, set_msglibs,
  set_dst_configs, apply_multisig_config, apply_admin_config,
}
use lz_v2_audit.Dvn.Committee.{
  Multisig, Signature, assert_unique, sanity_check, verify_loop, verify_signatures,
}
use lz_v2_audit.Dvn.Committee.Quorum.{IsQuorum, verify_signatures_quorum, quorum_accepted}
use lz_v2_audit.Dvn.Invoke.{
  multisig_config_set, admin_config_set, marked, DvnAccount, DvnStore, InitDvnParams, InvokeParams,
  Runtime, init_dvn, configure, dispatch, invoke, close_execute, set_config,
}
use lz_v2_audit.Dvn.Invoke.Histories.{
  init_step, invoke_step, close_step, set_step, Since, now, wait, then_step,
}
use lz_v2_audit.Dvn.Invoke.Histories.Once.{invoke_once}
use lz_v2_audit.Dvn.Invoke.Histories.Powers.{IsSamePowers, IsOrdered, only_quorum}
use lz_v2_audit.Dvn.Invoke.Histories.Reachable.{no_accounts, IsStored, reachable-IsDvnConfig}
use lz_v2_audit.Dvn.Quote.{
  PriceFeedAccounts, calldata_size, total_signature_bytes_padded, charge, quote_checks, quote,
}
use lz_v2_audit.Dvn.Quote.Permitted.{IsPermitted, quote_lem}

abbrev recover : (hash recovery_id sig : ℕ) → Option ℕ
recover hash recovery_id sig = some sig

abbrev committee : Multisig
committee = record { signers = 11 ∷ 12 ∷ 13 ∷ []; quorum = 2 }

abbrev two_signatures : List Signature
two_signatures =
    record { bytes = 11; recovery_id = 0 } ∷ record { bytes = 13; recovery_id = 1 } ∷ []

signed : verify_signatures recover committee two_signatures 77 ≡ ok tt
unfolding verify_signatures verify_loop
signed = refl

verify_signatures_quorum_example :
    (keys : List ℕ) × IsQuorum recover committee.signers 77 2 two_signatures keys
verify_signatures_quorum_example =
    verify_signatures_quorum recover committee two_signatures 77 signed

quorum_accepted_example : verify_signatures recover committee two_signatures 77 ≡ ok tt
quorum_accepted_example =
    quorum_accepted recover committee two_signatures 77 (11 ∷ 13 ∷ []) refl (refl, (refl, tt))
      (refl, (refl, tt)) (refl, (refl, tt))

abbrev runtime : Runtime
runtime = record {
  id = 1;
  config_acc = 2;
  serialize = λ digest. digest.data_of;
  keccak = λ bytes. length bytes;
  secp256k1_recover = recover;
  read_config = λ bytes. ok (MultisigConfig.paused true);
  invoke_signed = λ program_id accounts bytes. ok tt;
}

abbrev init_params : InitDvnParams
init_params = record {
  vid = 101;
  msglibs = 30 ∷ 20 ∷ [];
  price_feed = 40;
  signers = committee.signers;
  quorum = 2;
  admins = 5 ∷ [];
}

abbrev destination : DstConfig
destination = record { eid = 111; dst_gas = 90000; multiplier_bps = none; floor_margin_usd = none }

abbrev config : DvnConfig
config = record {
  vid = 101;
  bump = 255;
  multisig = committee;
  acl = record { allow_list = []; deny_list = [] };
  paused = false;
  msglibs = 20 ∷ 30 ∷ [];
  admins = 5 ∷ [];
  price_feed = 40;
  dst_configs = [];
  default_multiplier_bps = 12000;
}

abbrev account_of : DvnConfig → DvnAccount
account_of data_of = record { data_of = data_of; extended = false }

abbrev deployed : DvnStore
deployed = record { config = some (account_of config); execute_hashes = λ hash. none; log = [] }

abbrev serving_config : DvnConfig
serving_config = record config { dst_configs = destination ∷ [] }

abbrev serving : DvnStore
serving = record {
  config = some (account_of serving_config);
  execute_hashes = λ hash. none;
  log = admin_config_set (AdminConfig.dst_configs (destination ∷ [])) ∷ [];
}

-- The order to pause, until 200.
abbrev pausing : InvokeParams
pausing = record {
  digest = record { vid = 101; program_id = 1; accounts = []; data_of = 7 ∷ []; expiration = 200 };
  signatures = two_signatures;
}

abbrev paused_config : DvnConfig
paused_config = record serving_config { paused = true }

abbrev halted : DvnStore
halted = record (marked runtime 254 pausing.digest serving) {
  config = some (account_of paused_config);
  log = multisig_config_set (MultisigConfig.paused true) ∷ serving.log;
}

abbrev cleaned : DvnStore
cleaned = record halted { execute_hashes = write 1 none halted.execute_hashes }

deploying : init_dvn 255 init_params no_accounts ≡ ok deployed
unfolding init_dvn set_multisig set_admins set_msglibs sanity_check assert_unique
    insert_or_remove_sorted_pubkey_list binary_search
deploying = refl

serving_on : set_config 5 (AdminConfig.dst_configs (destination ∷ [])) deployed ≡ ok serving
unfolding set_config apply_admin_config set_dst_configs insert_or_update_sorted_list_by_eid
    binary_search
serving_on = refl

halting : invoke runtime 254 5 100 pausing serving ≡ ok halted
unfolding invoke dispatch configure apply_multisig_config verify_signatures verify_loop
halting = refl

cleaning : close_execute 5 200 1 halted ≡ ok cleaned
unfolding close_execute
cleaning = refl

served : Since runtime 0 no_accounts 50 serving
served =
    then_step (then_step (wait now (omega arith)) (init_step 255 init_params deploying))
      (set_step 5 (AdminConfig.dst_configs (destination ∷ [])) serving_on)

after_halt : Since runtime 100 halted 200 cleaned
after_halt = then_step (wait now (omega arith)) (close_step 5 1 cleaning)

invoke_once_example : invoke runtime 254 5 250 pausing cleaned ≢ ok halted
invoke_once_example =
    invoke_once runtime 254 5 100 pausing serving halted 200 cleaned halting after_halt 250
      (omega arith) 254 5 pausing halted refl

only_quorum_example :
    IsSamePowers serving_config paused_config
    ⊎ IsOrdered runtime 100 serving halted (account_of serving_config) (account_of paused_config)
only_quorum_example =
    only_quorum runtime 100 serving halted (account_of serving_config) (account_of paused_config)
      (invoke_step 254 5 pausing halting) refl refl

reachable-IsDvnConfig_example : IsStored serving.config
reachable-IsDvnConfig_example = reachable-IsDvnConfig runtime 50 serving served

abbrev feed_fee : (program config : ℕ) → GetFeeParams → Result (ℕ × (ℕ × (ℕ × Option ℕ)))
feed_fee program feed params = ok (params.calldata_size * 1000, (1, (1, none)))

abbrev feed_accounts : PriceFeedAccounts
feed_accounts = record { price_feed_program = 9; price_feed_config = 40; config_owner = 9 }

abbrev asked : QuoteDvnParams
asked = record {
  msglib = 30;
  dst_eid = 111;
  sender = 66;
  packet_header = [];
  payload_hash = 0;
  confirmations = 15;
  options = [];
}

-- 612 bytes: 68 + 320 + 160 + 64.
quoted : quote feed_fee feed_accounts serving.config asked ≡ ok 734400
unfolding quote quote_checks charge calldata_size total_signature_bytes_padded has_permission
    binary_search get_from_sorted_list_by_eid increase_fee_with_multiplier_or_floor_margin
    safe_convert_u128_to_u64 is_at
quoted = refl

quote_lem_example : ((d : DstConfig) × IsPermitted serving_config asked d) × (734400 < 2 ^ 64)
quote_lem_example =
    quote_lem feed_fee feed_accounts serving.config (account_of serving_config) asked 734400 refl
      reachable-IsDvnConfig_example quoted
