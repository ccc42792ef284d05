-- ===== src/Uln/State.antt =====
-- programs/uln/src/state: the settings of the ULN, its receive configurations and the confirmations
-- of the DVNs, by their seeds.
use lz_v2_audit.Prelude.{ℕ, Option, List, Bool}
use lz_v2_audit.Uln.Config.{UlnConfig}
use lz_v2_audit.Uln.Executor.{ExecutorConfig}
use lz_v2_audit.Uln.Verification.{Confirmations}

pub record LzTokenTreasury : Type 0 where
  pub receiver : ℕ
  pub fee : ℕ

pub record Treasury : Type 0 where
  pub admin : Option ℕ
  pub native_receiver : ℕ
  pub native_fee_bps : ℕ
  pub lz_token : Option LzTokenTreasury

pub record UlnSettings : Type 0 where
  pub eid : ℕ
  pub endpoint : ℕ
  pub endpoint_program : ℕ
  pub bump : ℕ
  pub admin : ℕ
  pub treasury : Option Treasury

pub record SendConfig : Type 0 where
  pub bump : ℕ
  pub uln : UlnConfig
  pub executor : ExecutorConfig

pub record ReceiveConfig : Type 0 where
  pub bump : ℕ
  pub uln : UlnConfig

-- `Config` of programs/uln/src/instructions/endpoint/set_config.rs
pub data Config : Type 0 where
  send_uln : UlnConfig → Config
  receive_uln : UlnConfig → Config
  executor : ExecutorConfig → Config

pub record WorkerFee : Type 0 where
  pub worker : ℕ
  pub fee : ℕ

pub record TreasuryFee : Type 0 where
  pub treasury : ℕ
  pub fee : ℕ
  pub pay_in_lz_token : Bool

-- programs/uln/src/events.rs
pub data Event : Type 0 where
  fees_paid : (executor : WorkerFee) (dvns : List WorkerFee) (treasury : Option TreasuryFee) → Event
  payload_verified : (dvn : ℕ) (header : List ℕ) (confirmations proof_hash : ℕ) → Event
  admin_transferred : (new_admin : ℕ) → Event
  default_config_set :
      (eid : ℕ) (send_uln_config receive_uln_config : Option UlnConfig)
      (executor_config : Option ExecutorConfig)
      → Event
  config_set : (oapp eid : ℕ) (config : Config) → Event
  treasury_set : (treasury : Option Treasury) → Event

-- (header hash, payload hash, DVN)
abbrev pub ConfirmationKey : Type 0
ConfirmationKey = ℕ × (ℕ × ℕ)

abbrev pub confirmation_key : ℕ → ℕ → ℕ → ConfirmationKey
confirmation_key header_hash payload_hash dvn = (header_hash, (payload_hash, dvn))

pub record UlnStore : Type 0 where
  pub uln : Option UlnSettings
  pub default_send_configs : ℕ → Option SendConfig
  -- by oapp and remote eid
  pub send_configs : ℕ × ℕ → Option SendConfig
  pub default_receive_configs : ℕ → Option ReceiveConfig
  -- by oapp and remote eid
  pub receive_configs : ℕ × ℕ → Option ReceiveConfig
  pub confirmations : ConfirmationKey → Option Confirmations
  pub log : List Event
