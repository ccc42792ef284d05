-- ===== src/Uln/Admin.antt =====
-- The instructions that write the settings and configurations of the ULN: programs/uln/src/
-- instructions/admin/{init_uln,init_default_config,set_default_config,set_treasury,transfer_admin}.rs
-- and endpoint/{init_config,set_config}.rs. The two of the endpoint are signed by the endpoint.
pub mod Accepted
pub mod Stored
pub mod Reachable
use lz_v2_audit.Prelude.{
  ℕ, Option, none, some, List, ◌∷◌, Bool, true, false, not, ◌==◌, leb, if◌then◌else◌, Result, ok,
  err, require, ok_or, account, fresh, ◌>>=◌, ◌>>◌, UlnError, uln, AnchorError, anchor, write,
  nat_eq, pair_eq,
}
use lz_v2_audit.Uln.Config.{UlnConfig, default_uln_config}
use lz_v2_audit.Uln.Config as Uln
use lz_v2_audit.Uln.Executor.{ExecutorConfig}
use lz_v2_audit.Uln.Executor
use lz_v2_audit.Uln.State.{
  UlnSettings, Treasury, SendConfig, ReceiveConfig, Config, UlnStore, Event, admin_transferred,
  default_config_set, config_set, treasury_set,
}

abbrev pub bps_denominator : ℕ
bps_denominator = 10000

pub record InitUlnParams : Type 0 where
  pub eid : ℕ
  pub endpoint : ℕ
  pub endpoint_program : ℕ
  pub admin : ℕ

pub record InitDefaultConfigParams : Type 0 where
  pub eid : ℕ
  pub send_uln_config : UlnConfig
  pub receive_uln_config : UlnConfig
  pub executor_config : ExecutorConfig

pub record SetDefaultConfigParams : Type 0 where
  pub eid : ℕ
  pub send_uln_config : Option UlnConfig
  pub receive_uln_config : Option UlnConfig
  pub executor_config : Option ExecutorConfig

abbrev pub emit : Event → UlnStore → UlnStore
emit e u = record u { log = e ∷ u.log }

-- `has_one = admin` and `has_one = endpoint`
abbrev pub require_same : ℕ → ℕ → Result (Unit {0})
require_same stored given = require (stored == given) (anchor AnchorError.constraint_has_one)

-- `InitUln::apply`
unfoldable pub init_uln : (bump : ℕ) → InitUlnParams → UlnStore → Result UlnStore
init_uln bump params u = do
  fresh u.uln
  ok (record u {
    uln = some (record {
      eid = params.eid;
      endpoint = params.endpoint;
      endpoint_program = params.endpoint_program;
      bump = bump;
      admin = params.admin;
      treasury = none;
    });
  })

-- `TransferAdmin::apply`
unfoldable pub transfer_admin : (admin new_admin : ℕ) → UlnStore → Result UlnStore
transfer_admin admin new_admin u = do
  settings ← account u.uln
  require_same settings.admin admin
  ok (
      emit (admin_transferred new_admin)
        (record u { uln = some (record settings { admin = new_admin }) }))

-- The signer of `SetTreasury` is the admin or the treasury's own admin.
unfoldable pub require_treasury_admin : ℕ → UlnSettings → Result (Unit {0})
require_treasury_admin signer settings =
    if not (signer == settings.admin)
    then (do
      treasury ← ok_or settings.treasury (uln UlnError.unauthorized)
      require (elim treasury.admin [ none ↦ false | some admin ↦ signer == admin ])
          (uln UlnError.unauthorized))
    else ok tt

abbrev pub require_bps : Option Treasury → Result (Unit {0})
require_bps none = ok tt
require_bps (some treasury) =
    require (leb treasury.native_fee_bps bps_denominator) (uln UlnError.invalid_bps)

-- `SetTreasury::apply`
unfoldable pub set_treasury : (signer : ℕ) → Option Treasury → UlnStore → Result UlnStore
unfolding require_treasury_admin
set_treasury signer treasury u = do
  settings ← account u.uln
  require_treasury_admin signer settings
  require_bps treasury
  ok (
      emit (treasury_set treasury)
        (record u { uln = some (record settings { treasury = treasury }) }))

-- `InitDefaultConfig::apply`
unfoldable pub init_default_config :
    (admin send_bump receive_bump : ℕ) → InitDefaultConfigParams → UlnStore → Result UlnStore
init_default_config admin send_bump receive_bump params u = do
  settings ← account u.uln
  fresh (u.default_send_configs params.eid)
  fresh (u.default_receive_configs params.eid)
  require_same settings.admin admin
  send_uln ← Uln.set_default_config params.send_uln_config
  receive_uln ← Uln.set_default_config params.receive_uln_config
  executor ← Executor.set_default_config params.executor_config
  ok (
      emit
        (default_config_set params.eid (some params.send_uln_config)
          (some params.receive_uln_config) (some params.executor_config))
        (record u {
          default_send_configs =
              write params.eid
                (some (record { bump = send_bump; uln = send_uln; executor = executor }))
                u.default_send_configs;
          default_receive_configs =
              write params.eid (some (record { bump = receive_bump; uln = receive_uln }))
                u.default_receive_configs;
        }))

-- `if let Some(config) = &params... { stored.set_default_config(config)? }`
abbrev pub updated {ℓ} : {A : Type ℓ} → (A → Result A) → Option A → A → Result A
updated set none stored = ok stored
updated set (some config) stored = set config

-- `SetDefaultConfig::apply`
unfoldable pub set_default_config :
    (admin : ℕ) → SetDefaultConfigParams → UlnStore → Result UlnStore
set_default_config admin params u = do
  settings ← account u.uln
  send_config ← account (u.default_send_configs params.eid)
  receive_config ← account (u.default_receive_configs params.eid)
  require_same settings.admin admin
  send_uln ← updated Uln.set_default_config params.send_uln_config send_config.uln
  receive_uln ← updated Uln.set_default_config params.receive_uln_config receive_config.uln
  executor ← updated Executor.set_default_config params.executor_config send_config.executor
  ok (
      emit
        (default_config_set params.eid params.send_uln_config params.receive_uln_config
          params.executor_config)
        (record u {
          default_send_configs =
              write params.eid (some (record send_config { uln = send_uln; executor = executor }))
                u.default_send_configs;
          default_receive_configs =
              write params.eid (some (record receive_config { uln = receive_uln }))
                u.default_receive_configs;
        }))

-- `InitConfig::apply`: both accounts start from their default values.
unfoldable pub init_config :
    (endpoint send_bump receive_bump oapp eid : ℕ) → UlnStore → Result UlnStore
init_config endpoint send_bump receive_bump oapp eid u = do
  settings ← account u.uln
  fresh (u.send_configs (oapp, eid))
  fresh (u.receive_configs (oapp, eid))
  require_same settings.endpoint endpoint
  ok (record u {
    send_configs =
        write (oapp, eid)
          (some (record {
            bump = send_bump;
            uln = default_uln_config;
            executor = record { max_message_size = 0; executor = 0 };
          }))
          u.send_configs;
    receive_configs =
        write (oapp, eid) (some (record { bump = receive_bump; uln = default_uln_config }))
          u.receive_configs;
  })

-- The `match` of `SetConfig::apply`, on the two accounts and the two default ones.
unfoldable pub apply_config :
    Config
    → SendConfig
    → ReceiveConfig
    → SendConfig
    → ReceiveConfig
    → Result (SendConfig × ReceiveConfig)
apply_config (Config.executor config) send receive default_send default_receive = do
  executor ← Executor.set_config config
  ok (record send { executor = executor }, receive)
apply_config (Config.send_uln config) send receive default_send default_receive = do
  stored ← Uln.set_config config
  resolved ← Uln.get_config default_send.uln stored
  ok (record send { uln = stored }, receive)
apply_config (Config.receive_uln config) send receive default_send default_receive = do
  stored ← Uln.set_config config
  resolved ← Uln.get_config default_receive.uln stored
  ok (send, record receive { uln = stored })

-- `Config::deserialize`, with the readers that the framework derives for the two types.
unfoldable pub deserialize :
    (read_uln : List ℕ → Result UlnConfig) (read_executor : List ℕ → Result ExecutorConfig)
    → ℕ
    → List ℕ
    → Result Config
deserialize read_uln read_executor config_type bytes =
    if config_type == 1
    then (do config ← read_executor bytes; ok (Config.executor config))
    else if config_type == 2
    then (do config ← read_uln bytes; ok (Config.send_uln config))
    else if config_type == 3
    then (do config ← read_uln bytes; ok (Config.receive_uln config))
    else err (uln UlnError.invalid_config_type)

-- `SetConfig::apply`
unfoldable pub set_config :
    (read_uln : List ℕ → Result UlnConfig) (read_executor : List ℕ → Result ExecutorConfig)
    (endpoint oapp eid config_type : ℕ) (bytes : List ℕ)
    → UlnStore
    → Result UlnStore
unfolding apply_config deserialize
set_config read_uln read_executor endpoint oapp eid config_type bytes u = do
  settings ← account u.uln
  send ← account (u.send_configs (oapp, eid))
  receive ← account (u.receive_configs (oapp, eid))
  default_send ← account (u.default_send_configs eid)
  default_receive ← account (u.default_receive_configs eid)
  require_same settings.endpoint endpoint
  config ← deserialize read_uln read_executor config_type bytes
  (send', receive') ← apply_config config send receive default_send default_receive
  ok (
      emit (config_set oapp eid config) (record u {
        send_configs = write (oapp, eid) (some send') u.send_configs;
        receive_configs = write (oapp, eid) (some receive') u.receive_configs;
      }))
