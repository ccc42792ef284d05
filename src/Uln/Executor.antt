-- ===== src/Uln/Executor.antt =====
-- `ExecutorConfig` of programs/uln/src/state/uln.rs.
use lz_v2_audit.Prelude.{
  ℕ, not, ◌==◌, ltb, if◌then◌else◌, Result, ok, require, ◌>>◌, UlnError, uln, ◌≡◌, ◌≢◌, ◌<◌, arith,
}

pub record ExecutorConfig : Type 0 where
  pub max_message_size : ℕ
  pub executor : ℕ

-- `ExecutorConfig::set_config`: both fields are overwritten.
abbrev pub set_config : ExecutorConfig → Result ExecutorConfig
set_config config =
    ok (record { max_message_size = config.max_message_size; executor = config.executor })

-- `ExecutorConfig::set_default_config`
unfoldable pub set_default_config : ExecutorConfig → Result ExecutorConfig
set_default_config config = do
  require (not (config.executor == 0)) (uln UlnError.invalid_executor)
  require (ltb 0 config.max_message_size) (uln UlnError.zero_message_size)
  set_config config

-- `ExecutorConfig::get_config`
unfoldable pub get_config : ExecutorConfig → ExecutorConfig → ExecutorConfig
get_config default custom = record {
  max_message_size =
      if custom.max_message_size == 0 then default.max_message_size else custom.max_message_size;
  executor = if custom.executor == 0 then default.executor else custom.executor;
}

-- An accepted default executor configuration resolves every custom one to an executor and a
-- positive maximal message size.
pub get_config_usable :
    (given default custom : ExecutorConfig)
    → set_default_config given ≡ ok default
    → ((get_config default custom).executor ≢ 0)
      × (0 < (get_config default custom).max_message_size)
unfolding set_default_config get_config
get_config_usable given default custom h = ground arith
