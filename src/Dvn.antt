-- ===== src/Dvn.antt =====
-- programs/dvn: a verifier that acts by order of a committee. This file has its state
-- (state/dvn_config.rs, state/execute_hash.rs) and the settings that it accepts. An `i64` is the
-- number it lies above -2 ^ 63, which keeps its order. Rent is not part of the state. Whether the
-- account has been extended stands for the test on its size.
pub mod Committee
pub mod Settings
pub mod Invoke
pub mod Quote
mod Runs
use lz_v2_audit.Prelude.{
  ℕ, Option, none, some, List, [], ◌∷◌, Bool, true, false, length, leb, if◌then◌else◌, Result, ok,
  require, ◌>>=◌, ◌>>◌, DvnError, dvn, each,
}
use lz_v2_audit.SortedList.{insert_or_update_sorted_list_by_eid, remove_from_sorted_list_by_eid}
use lz_v2_audit.Worker.Permission.{
  Acl, set_allowlist, set_denylist, insert_or_remove_sorted_pubkey_list,
}
use lz_v2_audit.Dvn.Committee.{Multisig, sanity_check}

abbrev pub admins_max_len : ℕ
admins_max_len = 5

abbrev pub msglibs_max_len : ℕ
msglibs_max_len = 10

abbrev pub dst_config_default_len : ℕ
dst_config_default_len = 140

abbrev pub dst_config_max_len : ℕ
dst_config_max_len = 200

pub record DstConfig : Type 0 where
  pub eid : ℕ
  pub dst_gas : ℕ
  pub multiplier_bps : Option ℕ
  pub floor_margin_usd : Option ℕ

abbrev pub eid_of : DstConfig → ℕ
eid_of config = config.eid

pub record DvnConfig : Type 0 where
  pub vid : ℕ
  pub bump : ℕ
  pub multisig : Multisig
  pub acl : Acl
  pub paused : Bool
  pub msglibs : List ℕ
  pub admins : List ℕ
  pub price_feed : ℕ
  pub dst_configs : List DstConfig
  pub default_multiplier_bps : ℕ

unfoldable pub set_multisig : Multisig → DvnConfig → Result DvnConfig
set_multisig multisig config = do sanity_check multisig; ok (record config { multisig = multisig })

unfoldable pub set_admins : List ℕ → DvnConfig → Result DvnConfig
set_admins admins config = do
  require (leb (length admins) admins_max_len) (dvn DvnError.too_many_admins)
  ok (record config { admins = admins })

abbrev pub set_msglib : DvnConfig → ℕ → Result DvnConfig
set_msglib config lib = do
  msglibs ← insert_or_remove_sorted_pubkey_list config.msglibs msglibs_max_len lib
  ok (record config { msglibs = msglibs })

unfoldable pub set_msglibs : List ℕ → DvnConfig → Result DvnConfig
set_msglibs msglibs config = each set_msglib msglibs config

abbrev pub set_dst_config : ℕ → DvnConfig → DstConfig → Result DvnConfig
set_dst_config max_len config dst_config = do
  dst_configs ← insert_or_update_sorted_list_by_eid eid_of config.dst_configs dst_config max_len
  ok (record config { dst_configs = dst_configs })

unfoldable pub set_dst_configs : ℕ → List DstConfig → DvnConfig → Result DvnConfig
set_dst_configs max_len dst_configs config = each (set_dst_config max_len) dst_configs config

abbrev pub remove_dst_config : DvnConfig → ℕ → Result DvnConfig
remove_dst_config config eid = do
  dst_configs ← remove_from_sorted_list_by_eid eid_of config.dst_configs eid
  ok (record config { dst_configs = dst_configs })

unfoldable pub remove_dst_configs : List ℕ → DvnConfig → Result DvnConfig
remove_dst_configs dst_eids config = each remove_dst_config dst_eids config

-- `MultisigConfig` of instructions/admin/invoke.rs: what the committee sets.
pub data MultisigConfig : Type 0 where
  admins allowlist denylist msglibs : List ℕ → MultisigConfig
  paused : Bool → MultisigConfig
  quorum : ℕ → MultisigConfig
  signers : List ℕ → MultisigConfig

abbrev pub allow : DvnConfig → ℕ → Result DvnConfig
allow config addr = do acl ← set_allowlist config.acl addr; ok (record config { acl = acl })

abbrev pub deny : DvnConfig → ℕ → Result DvnConfig
deny config addr = do acl ← set_denylist config.acl addr; ok (record config { acl = acl })

-- `MultisigConfig::apply`
unfoldable pub apply_multisig_config : MultisigConfig → DvnConfig → Result DvnConfig
apply_multisig_config (MultisigConfig.admins new) config = set_admins new config
apply_multisig_config (allowlist addresses) config = each allow addresses config
apply_multisig_config (denylist addresses) config = each deny addresses config
apply_multisig_config (MultisigConfig.msglibs libs) config = set_msglibs libs config
apply_multisig_config (MultisigConfig.paused new) config = ok (record config { paused = new })
apply_multisig_config (quorum new) config =
    set_multisig (record { signers = config.multisig.signers; quorum = new }) config
apply_multisig_config (signers new) config =
    set_multisig (record { signers = new; quorum = config.multisig.quorum }) config

-- `AdminConfig` of instructions/admin/set_config.rs: what an admin sets alone.
pub data AdminConfig : Type 0 where
  admins : List ℕ → AdminConfig
  default_multiplier_bps : ℕ → AdminConfig
  dst_configs : List DstConfig → AdminConfig
  price_feed : ℕ → AdminConfig
  remove_dst_configs_of : List ℕ → AdminConfig

-- `AdminConfig::apply`
unfoldable pub apply_admin_config : (max_len : ℕ) → AdminConfig → DvnConfig → Result DvnConfig
apply_admin_config max_len (AdminConfig.admins new) config = set_admins new config
apply_admin_config max_len (AdminConfig.default_multiplier_bps bps) config =
    ok (record config { default_multiplier_bps = bps })
apply_admin_config max_len (AdminConfig.dst_configs new) config = set_dst_configs max_len new config
apply_admin_config max_len (AdminConfig.price_feed new) config =
    ok (record config { price_feed = new })
apply_admin_config max_len (remove_dst_configs_of eids) config = remove_dst_configs eids config

abbrev pub max_len_of : Bool → ℕ
max_len_of extended = if extended then dst_config_max_len else dst_config_default_len
