-- ===== src/Uln/Runs/Settings.antt =====
-- The ULN is set up: initialised, with default configurations and the accounts of the oapp 7.
use lz_v2_audit.Prelude.{ℕ, refl, List, [], length, Result, ok, err, panic}
use lz_v2_audit.Uln.Config.{UlnConfig, assert_no_duplicates}
use lz_v2_audit.Uln.Config as Uln
use lz_v2_audit.Uln.Executor
use lz_v2_audit.Uln.State.{UlnStore}
use lz_v2_audit.Uln.Admin.{
  InitUlnParams, InitDefaultConfigParams, init_uln, init_default_config, init_config, set_config,
}
use lz_v2_audit.Uln.Admin.Accepted.{
  IsUlnStore, History, start, then_action, init_uln_action, init_default_config_action,
  init_config_action, set_config_action,
}
use lz_v2_audit.Uln.Admin.Reachable.{no_accounts, reachable-IsUlnStore}
use lz_v2_audit.Uln.Runs.{default_config, custom_config}

abbrev hash : List ℕ → ℕ
hash bytes = length bytes

abbrev after : UlnStore → Result UlnStore → UlnStore
after u (ok v) = v
after u (err e) = u
after u panic = u

abbrev read_uln : List ℕ → Result UlnConfig
read_uln bytes = ok custom_config

abbrev read_executor : List ℕ → Result Executor.ExecutorConfig
read_executor bytes = panic

abbrev settings : InitUlnParams
settings = record { eid = 1; endpoint = 2; endpoint_program = 3; admin = 4 }

abbrev defaults : InitDefaultConfigParams
defaults = record {
  eid = 2;
  send_uln_config = default_config;
  receive_uln_config = default_config;
  executor_config = record { max_message_size = 10000; executor = 21 };
}

abbrev initialised : UlnStore
initialised = after no_accounts (init_uln 255 settings no_accounts)

abbrev configured : UlnStore
configured = after initialised (init_default_config 4 0 0 defaults initialised)

abbrev opened : UlnStore
opened = after configured (init_config 2 0 0 7 2 configured)

abbrev customised : UlnStore
customised = after opened (set_config read_uln read_executor 2 7 2 3 [] opened)

setting_up : History hash no_accounts customised
unfolding init_uln init_default_config init_config set_config Uln.set_default_config Uln.set_config
    Uln.get_config assert_no_duplicates Executor.set_default_config
setting_up =
    then_action
      (then_action
        (then_action (then_action start (init_uln_action 255 settings refl))
          (init_default_config_action 4 0 0 defaults refl))
        (init_config_action 2 0 0 7 2 refl))
      (set_config_action read_uln read_executor 2 7 2 3 [] refl)

reachable-IsUlnStore_example : IsUlnStore customised
reachable-IsUlnStore_example = reachable-IsUlnStore hash customised setting_up
