-- ===== src/ExecutorProgram.antt =====
-- programs/executor: the worker that delivers messages on the destination chain. This file has its
-- configuration (state/executor_config.rs) and the instructions that write it (init_executor.rs,
-- owner_set_config.rs and admin_set_config.rs of instructions).
pub mod Settings
pub mod Histories
pub mod Authority
pub mod Options
pub mod Quote
mod Runs
use lz_v2_audit.Prelude.{
  ℕ, Option, List, [], ◌∷◌, Bool, true, false, not, contains, length, leb, ◌==◌, Result, ok,
  require, account, fresh, each, ◌>>=◌, ◌>>◌, ExecutorError, executor, AnchorError, anchor,
}
use lz_v2_audit.SortedList.{insert_or_update_sorted_list_by_eid}
use lz_v2_audit.Worker.Permission.{
  Acl, set_allowlist, set_denylist, insert_or_remove_sorted_pubkey_list,
}

abbrev pub admins_max_len : ℕ
admins_max_len = 5

abbrev pub executor_max_len : ℕ
executor_max_len = 8

abbrev pub msglibs_max_len : ℕ
msglibs_max_len = 10

abbrev pub dst_config_max_len : ℕ
dst_config_max_len = 140

pub record DstConfig : Type 0 where
  pub eid : ℕ
  pub lz_receive_base_gas : ℕ
  pub lz_compose_base_gas : ℕ
  pub multiplier_bps : Option ℕ
  pub floor_margin_usd : Option ℕ
  pub native_drop_cap : ℕ

abbrev pub eid_of : DstConfig → ℕ
eid_of config = config.eid

pub record ExecutorConfig : Type 0 where
  pub bump : ℕ
  pub owner : ℕ
  pub acl : Acl
  pub admins : List ℕ
  pub executors : List ℕ
  pub msglibs : List ℕ
  pub paused : Bool
  pub default_multiplier_bps : ℕ
  pub price_feed : ℕ
  pub dst_configs : List DstConfig

-- The loop of `set_admins` and of `set_executors`: no key may be in the other list.
unfoldable pub require_none_in : (taken keys : List ℕ) → Result (Unit {0})
require_none_in taken [] = ok tt
require_none_in taken (key ∷ keys) = do
  require (not (contains key taken)) (executor ExecutorError.executor_is_admin)
  require_none_in taken keys

unfoldable pub set_admins : List ℕ → ExecutorConfig → Result ExecutorConfig
set_admins admins config = do
  require (leb (length admins) admins_max_len) (executor ExecutorError.too_many_admins)
  require_none_in config.executors admins
  ok (record config { admins = admins })

unfoldable pub set_executors : List ℕ → ExecutorConfig → Result ExecutorConfig
set_executors executors config = do
  require (leb (length executors) executor_max_len) (executor ExecutorError.too_many_executors)
  require_none_in config.admins executors
  ok (record config { executors = executors })

abbrev pub set_msglib : ExecutorConfig → ℕ → Result ExecutorConfig
set_msglib config lib = do
  msglibs ← insert_or_remove_sorted_pubkey_list config.msglibs msglibs_max_len lib
  ok (record config { msglibs = msglibs })

unfoldable pub set_msglibs : List ℕ → ExecutorConfig → Result ExecutorConfig
set_msglibs msglibs config = each set_msglib msglibs config

abbrev pub set_dst_config : ExecutorConfig → DstConfig → Result ExecutorConfig
set_dst_config config dst_config = do
  dst_configs ←
      insert_or_update_sorted_list_by_eid eid_of config.dst_configs dst_config dst_config_max_len
  ok (record config { dst_configs = dst_configs })

unfoldable pub set_dst_configs : List DstConfig → ExecutorConfig → Result ExecutorConfig
set_dst_configs dst_configs config = each set_dst_config dst_configs config

abbrev pub allow : ExecutorConfig → ℕ → Result ExecutorConfig
allow config addr = do acl ← set_allowlist config.acl addr; ok (record config { acl = acl })

abbrev pub deny : ExecutorConfig → ℕ → Result ExecutorConfig
deny config addr = do acl ← set_denylist config.acl addr; ok (record config { acl = acl })

pub data OwnerSetConfigParams : Type 0 where
  admins executors msglibs : List ℕ → OwnerSetConfigParams
  owner : ℕ → OwnerSetConfigParams
  paused : Bool → OwnerSetConfigParams
  allowlist denylist : List ℕ → OwnerSetConfigParams

-- `OwnerSetConfigParams::apply`
unfoldable pub apply_owner_config : OwnerSetConfigParams → ExecutorConfig → Result ExecutorConfig
apply_owner_config (OwnerSetConfigParams.admins new) config = set_admins new config
apply_owner_config (OwnerSetConfigParams.executors new) config = set_executors new config
apply_owner_config (OwnerSetConfigParams.msglibs libs) config = set_msglibs libs config
apply_owner_config (OwnerSetConfigParams.owner new) config = ok (record config { owner = new })
apply_owner_config (OwnerSetConfigParams.paused new) config = ok (record config { paused = new })
apply_owner_config (allowlist addresses) config = each allow addresses config
apply_owner_config (denylist addresses) config = each deny addresses config

pub data AdminSetConfigParams : Type 0 where
  price_feed default_multiplier_bps : ℕ → AdminSetConfigParams
  dst_configs : List DstConfig → AdminSetConfigParams

-- `AdminSetConfigParams::apply`
unfoldable pub apply_admin_config : AdminSetConfigParams → ExecutorConfig → Result ExecutorConfig
apply_admin_config (AdminSetConfigParams.price_feed new) config =
    ok (record config { price_feed = new })
apply_admin_config (AdminSetConfigParams.default_multiplier_bps bps) config =
    ok (record config { default_multiplier_bps = bps })
apply_admin_config (AdminSetConfigParams.dst_configs new) config = set_dst_configs new config

pub record InitExecutorParams : Type 0 where
  pub owner : ℕ
  pub admins : List ℕ
  pub executors : List ℕ
  pub msglibs : List ℕ
  pub price_feed : ℕ

-- The account as `init` makes it: zeros and empty lists.
abbrev pub blank : ExecutorConfig
blank = record {
  bump = 0;
  owner = 0;
  acl = record { allow_list = []; deny_list = [] };
  admins = [];
  executors = [];
  msglibs = [];
  paused = false;
  default_multiplier_bps = 0;
  price_feed = 0;
  dst_configs = [];
}

-- `InitExecutor::apply`
unfoldable pub init_executor :
    (bump : ℕ) → InitExecutorParams → Option ExecutorConfig → Result ExecutorConfig
init_executor bump params config = do
  fresh config
  with_admins ← set_admins params.admins (record blank { bump = bump; owner = params.owner })
  with_msglibs ← set_msglibs params.msglibs with_admins
  set_executors params.executors (record with_msglibs {
    price_feed = params.price_feed;
    default_multiplier_bps = 12000;
    paused = false;
  })

-- `OwnerSetConfig::apply`
unfoldable pub owner_set_config :
    (owner : ℕ) → OwnerSetConfigParams → Option ExecutorConfig → Result ExecutorConfig
owner_set_config signer params config = do
  config ← account config
  require (config.owner == signer) (anchor AnchorError.constraint_has_one)
  apply_owner_config params config

-- `AdminSetConfig::apply`
unfoldable pub admin_set_config :
    (admin : ℕ) → AdminSetConfigParams → Option ExecutorConfig → Result ExecutorConfig
admin_set_config signer params config = do
  config ← account config
  require (contains signer config.admins) (executor ExecutorError.not_admin)
  apply_admin_config params config
