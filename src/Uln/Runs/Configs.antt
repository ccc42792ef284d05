-- ===== src/Uln/Runs/Configs.antt =====
-- Accepted and resolved configurations.
use lz_v2_audit.Prelude.{◌<◌, ◌≡◌, ◌≢◌, ◌↔◌, refl, ok}
use lz_v2_audit.Uln.Config.{
  default_uln_config, assert_no_duplicates, set_config, set_default_config, get_config,
}
use lz_v2_audit.Uln.Config.Valid.{IsUlnConfig, set_config_iff}
use lz_v2_audit.Uln.Config.Resolve.{IsUsable, get_config-IsUsable, get_config_default}
use lz_v2_audit.Uln.Executor
use lz_v2_audit.Uln.Executor.{ExecutorConfig, get_config_usable}
use lz_v2_audit.Uln.Runs.{default_config, custom_config}

accepted_default : set_default_config default_config ≡ ok default_config
unfolding set_default_config set_config assert_no_duplicates
accepted_default = refl

accepted_custom : set_config custom_config ≡ ok custom_config
unfolding set_config assert_no_duplicates
accepted_custom = refl

set_config_iff_example :
    (set_config custom_config ≡ ok custom_config)
    ↔ (IsUlnConfig custom_config × (custom_config ≡ custom_config))
set_config_iff_example = set_config_iff custom_config custom_config

get_config-IsUsable_example :
    IsUsable (record custom_config { confirmations = 2; optional_dvn_count = 0 })
unfolding get_config
get_config-IsUsable_example =
    get_config-IsUsable default_config default_config custom_config custom_config _ accepted_default
      accepted_custom refl

get_config_default_example : get_config default_config default_uln_config ≡ ok default_config
get_config_default_example = get_config_default default_config default_config accepted_default

abbrev executor_default : ExecutorConfig
executor_default = record { max_message_size = 10000; executor = 21 }

abbrev executor_custom : ExecutorConfig
executor_custom = record { max_message_size = 0; executor = 22 }

get_config_usable_example :
    ((Executor.get_config executor_default executor_custom).executor ≢ 0)
    × (0 < (Executor.get_config executor_default executor_custom).max_message_size)
unfolding Executor.set_default_config
get_config_usable_example = get_config_usable executor_default executor_default executor_custom refl
