-- ===== src/Uln/Admin/Accepted.antt =====
-- What every stored setting of the ULN was checked for, as an invariant of its instructions.
use lz_v2_audit.Prelude.{
  ℕ, ◌≤◌, ◌≡◌, refl, inl, inr, Option, none, some, List, Result, ok, account, fresh, >>=-eq-ok,
  account-eq-ok, ok-injective, nat_eq, pair_eq, arith,
}
use mathlib.Core.Path.{subst}
use lz_v2_audit.Uln.Config.{UlnConfig, default_uln_config}
use lz_v2_audit.Uln.Config as Uln
use lz_v2_audit.Uln.Config.Valid.{IsUlnConfig, set_config_iff}
use lz_v2_audit.Uln.Config.Resolve.{IsDefault, set_default_config-IsDefault}
use lz_v2_audit.Uln.Executor.{ExecutorConfig}
use lz_v2_audit.Uln.State.{UlnSettings, Treasury, SendConfig, ReceiveConfig, UlnStore}
use lz_v2_audit.Uln.Admin.{
  InitUlnParams, InitDefaultConfigParams, SetDefaultConfigParams, require_same,
  require_treasury_admin, require_bps, init_uln, transfer_admin, set_treasury, init_default_config,
  updated, set_default_config, init_config, set_config, bps_denominator,
}
use lz_v2_audit.Endpoint.State.{MessagingFee}
use lz_v2_audit.Endpoint.Store.{LibrarySendParams, LibrarySendWithLzTokenParams}
use lz_v2_audit.Uln.Fees.{Workers, WorkerInfo}
use lz_v2_audit.Uln.Sending.{
  Payable, Payment, SendAccounts, LzTokenAccounts, send, send_with_lz_token,
}
use lz_v2_audit.Uln.Confirm
use lz_v2_audit.Uln.Confirm.{init_verify, verify, close_verify, init_step, verify_step, close_step}

abbrev pub OnReceive : (UlnConfig → Type 0) → Option ReceiveConfig → Type 0
OnReceive P none = Unit
OnReceive P (some config) = P config.uln

abbrev pub OnSend : (UlnConfig → Type 0) → Option SendConfig → Type 0
OnSend P none = Unit
OnSend P (some config) = P config.uln

abbrev pub OnTreasury : Option Treasury → Type 0
OnTreasury none = Unit
OnTreasury (some treasury) = treasury.native_fee_bps ≤ bps_denominator

abbrev pub OnSettings : Option UlnSettings → Type 0
OnSettings none = Unit
OnSettings (some settings) = OnTreasury settings.treasury

-- Stored default configurations were accepted as defaults and stored custom ones as custom ones, and
-- the treasury takes at most the whole fee.
pub record IsUlnStore (u : UlnStore) : Type 0 where
  pub defaults : (eid : ℕ) → OnReceive IsDefault (u.default_receive_configs eid)
  pub customs : (key : ℕ × ℕ) → OnReceive IsUlnConfig (u.receive_configs key)
  pub send_defaults : (eid : ℕ) → OnSend IsDefault (u.default_send_configs eid)
  pub send_customs : (key : ℕ × ℕ) → OnSend IsUlnConfig (u.send_configs key)
  pub treasury_bps : OnSettings u.uln

-- Any instruction that writes an account of the ULN or emits one of its events.
pub data Action (keccak : List ℕ → ℕ) (u u' : UlnStore) : Type 0 where
  init_uln_action :
      (bump : ℕ) (params : InitUlnParams) → init_uln bump params u ≡ ok u' → Action keccak u u'
  transfer_admin_action :
      (admin new_admin : ℕ) → transfer_admin admin new_admin u ≡ ok u' → Action keccak u u'
  set_treasury_action :
      (signer : ℕ) (treasury : Option Treasury)
      → set_treasury signer treasury u ≡ ok u'
      → Action keccak u u'
  init_default_config_action :
      (admin send_bump receive_bump : ℕ) (params : InitDefaultConfigParams)
      → init_default_config admin send_bump receive_bump params u ≡ ok u'
      → Action keccak u u'
  set_default_config_action :
      (admin : ℕ) (params : SetDefaultConfigParams)
      → set_default_config admin params u ≡ ok u'
      → Action keccak u u'
  init_config_action :
      (endpoint send_bump receive_bump oapp eid : ℕ)
      → init_config endpoint send_bump receive_bump oapp eid u ≡ ok u'
      → Action keccak u u'
  set_config_action :
      (read_uln : List ℕ → Result UlnConfig) (read_executor : List ℕ → Result ExecutorConfig)
      (endpoint oapp eid config_type : ℕ) (bytes : List ℕ)
      → set_config read_uln read_executor endpoint oapp eid config_type bytes u ≡ ok u'
      → Action keccak u u'
  confirm_action : Confirm.Step keccak u u' → Action keccak u u'
  send_action :
      (env : Workers) (payable : Payable) (accounts : SendAccounts) (remaining : List WorkerInfo)
      (params : LibrarySendParams) (result : MessagingFee × List ℕ) (paid : List Payment)
      → send env payable accounts remaining params u ≡ ok (result, (u', paid))
      → Action keccak u u'
  send_with_lz_token_action :
      (env : Workers) (payable : Payable) (accounts : LzTokenAccounts) (remaining : List WorkerInfo)
      (params : LibrarySendWithLzTokenParams) (result : MessagingFee × List ℕ) (paid : List Payment)
      → send_with_lz_token env payable accounts remaining params u ≡ ok (result, (u', paid))
      → Action keccak u u'

pub data History (keccak : List ℕ → ℕ) (u : UlnStore) : UlnStore → Type 0 where
  start : History keccak u u
  then_action : {v w : UlnStore} → History keccak u v → Action keccak v w → History keccak u w

pub unset_valid : IsUlnConfig default_uln_config
unset_valid = record { required = inl (inr refl, refl); optional = inl ((inr refl, refl), refl) }

pub custom-IsUlnConfig :
    (given stored : UlnConfig) → Uln.set_config given ≡ ok stored → IsUlnConfig stored
custom-IsUlnConfig given stored h =
    let (valid, same) = (set_config_iff given stored).0 h in subst IsUlnConfig same valid

pub updated-IsDefault :
    (o : Option UlnConfig) (old new : UlnConfig)
    → IsDefault old
    → updated Uln.set_default_config o old ≡ ok new
    → IsDefault new
updated-IsDefault none old new d h = subst IsDefault (ok-injective h) d
updated-IsDefault (some given) old new d h = set_default_config-IsDefault given new h

pub init_uln-IsUlnStore :
    (bump : ℕ) (params : InitUlnParams) (u u' : UlnStore)
    → IsUlnStore u
    → init_uln bump params u ≡ ok u'
    → IsUlnStore u'
unfolding init_uln
init_uln-IsUlnStore bump params u u' v h =
    let (u1, e1, h1) = >>=-eq-ok (fresh u.uln) _ h in
    subst IsUlnStore (ok-injective h1) (record {
      defaults = v.defaults;
      customs = v.customs;
      send_defaults = v.send_defaults;
      send_customs = v.send_customs;
      treasury_bps = tt;
    })

pub transfer_admin-IsUlnStore :
    (admin new_admin : ℕ) (u u' : UlnStore)
    → IsUlnStore u
    → transfer_admin admin new_admin u ≡ ok u'
    → IsUlnStore u'
unfolding transfer_admin
transfer_admin-IsUlnStore admin new_admin u u' v h =
    let (settings, e1, h1) = >>=-eq-ok (account u.uln) _ h in
    let (u2, e2, h2) = >>=-eq-ok (require_same settings.admin admin) _ h1 in
    subst IsUlnStore (ok-injective h2) (record {
      defaults = v.defaults;
      customs = v.customs;
      send_defaults = v.send_defaults;
      send_customs = v.send_customs;
      treasury_bps = subst OnSettings (account-eq-ok _ e1) v.treasury_bps;
    })

require_bps-OnTreasury :
    (treasury : Option Treasury) {x : Unit {0}} → require_bps treasury ≡ ok x → OnTreasury treasury
require_bps-OnTreasury none h = tt
require_bps-OnTreasury (some treasury) h = ground arith

pub set_treasury-IsUlnStore :
    (signer : ℕ) (treasury : Option Treasury) (u u' : UlnStore)
    → IsUlnStore u
    → set_treasury signer treasury u ≡ ok u'
    → IsUlnStore u'
unfolding set_treasury
set_treasury-IsUlnStore signer treasury u u' v h =
    let (settings, e1, h1) = >>=-eq-ok (account u.uln) _ h in
    let (u2, e2, h2) = >>=-eq-ok (require_treasury_admin signer settings) _ h1 in
    let (u3, e3, h3) = >>=-eq-ok (require_bps treasury) _ h2 in
    subst IsUlnStore (ok-injective h3) (record {
      defaults = v.defaults;
      customs = v.customs;
      send_defaults = v.send_defaults;
      send_customs = v.send_customs;
      treasury_bps = require_bps-OnTreasury treasury e3;
    })
