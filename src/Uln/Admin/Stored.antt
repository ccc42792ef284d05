-- ===== src/Uln/Admin/Stored.antt =====
-- The instructions that store configurations, and histories of all instructions of the ULN.
use lz_v2_audit.Prelude.{
  ℕ, ◌≡◌, some, List, Result, ok, account, fresh, >>=-eq-ok, account-eq-ok, ok-injective, write,
  write-at, nat_eq, pair_eq,
}
use mathlib.Core.Path.{subst}
use lz_v2_audit.Uln.Config.{UlnConfig, default_uln_config}
use lz_v2_audit.Uln.Config as Uln
use lz_v2_audit.Uln.Config.Valid.{IsUlnConfig}
use lz_v2_audit.Uln.Config.Resolve.{IsDefault, set_default_config-IsDefault}
use lz_v2_audit.Uln.Executor.{ExecutorConfig}
use lz_v2_audit.Uln.Executor
use lz_v2_audit.Uln.State.{SendConfig, ReceiveConfig, Config, UlnStore}
use lz_v2_audit.Uln.Admin.{
  InitDefaultConfigParams, SetDefaultConfigParams, require_same, init_default_config, updated,
  set_default_config, init_config, apply_config, deserialize, set_config,
}
use lz_v2_audit.Uln.Admin.Accepted.{
  OnReceive, OnSend, IsUlnStore, unset_valid, custom-IsUlnConfig, updated-IsDefault,
}

-- A write of both default configurations, or both custom ones, of a key.
writes_defaults :
    (u u' : UlnStore) (eid : ℕ) (send : SendConfig) (receive : ReceiveConfig)
    → IsUlnStore u
    → IsDefault send.uln
    → IsDefault receive.uln
    → (eid' : ℕ)
    → OnSend IsDefault (write eid (some send) u.default_send_configs eid')
      × OnReceive IsDefault (write eid (some receive) u.default_receive_configs eid')
writes_defaults u u' eid send receive v ds dr eid' = (
  write-at (OnSend IsDefault) eid eid' (some send) u.default_send_configs (λ same. ds)
      (v.send_defaults eid'),
  write-at (OnReceive IsDefault) eid eid' (some receive) u.default_receive_configs (λ same. dr)
      (v.defaults eid'),
)

writes_customs :
    (u u' : UlnStore) (key : ℕ × ℕ) (send : SendConfig) (receive : ReceiveConfig)
    → IsUlnStore u
    → IsUlnConfig send.uln
    → IsUlnConfig receive.uln
    → (key' : ℕ × ℕ)
    → OnSend IsUlnConfig (write key (some send) u.send_configs key')
      × OnReceive IsUlnConfig (write key (some receive) u.receive_configs key')
writes_customs u u' key send receive v ds dr key' = (
  write-at (OnSend IsUlnConfig) key key' (some send) u.send_configs (λ same. ds)
      (v.send_customs key'),
  write-at (OnReceive IsUlnConfig) key key' (some receive) u.receive_configs (λ same. dr)
      (v.customs key'),
)

pub init_default_config-IsUlnStore :
    (admin send_bump receive_bump : ℕ) (params : InitDefaultConfigParams) (u u' : UlnStore)
    → IsUlnStore u
    → init_default_config admin send_bump receive_bump params u ≡ ok u'
    → IsUlnStore u'
unfolding init_default_config
init_default_config-IsUlnStore admin send_bump receive_bump params u u' v h =
    let (settings, e1, h1) = >>=-eq-ok (account u.uln) _ h in
    let (u2, e2, h2) = >>=-eq-ok (fresh (u.default_send_configs params.eid)) _ h1 in
    let (u3, e3, h3) = >>=-eq-ok (fresh (u.default_receive_configs params.eid)) _ h2 in
    let (u4, e4, h4) = >>=-eq-ok (require_same settings.admin admin) _ h3 in
    let (send_uln, e5, h5) = >>=-eq-ok (Uln.set_default_config params.send_uln_config) _ h4 in
    let (receive_uln, e6, h6) = >>=-eq-ok (Uln.set_default_config params.receive_uln_config) _ h5 in
    let (executor, e7, h7) = >>=-eq-ok (Executor.set_default_config params.executor_config) _ h6 in
    let both =
      writes_defaults u u' params.eid
        (record { bump = send_bump; uln = send_uln; executor = executor })
        (record { bump = receive_bump; uln = receive_uln }) v
        (set_default_config-IsDefault _ send_uln e5)
        (set_default_config-IsDefault _ receive_uln e6) in
    subst IsUlnStore (ok-injective h7) (record {
      defaults = λ eid. (both eid).1;
      customs = v.customs;
      send_defaults = λ eid. (both eid).0;
      send_customs = v.send_customs;
      treasury_bps = v.treasury_bps;
    })

pub set_default_config-IsUlnStore :
    (admin : ℕ) (params : SetDefaultConfigParams) (u u' : UlnStore)
    → IsUlnStore u
    → set_default_config admin params u ≡ ok u'
    → IsUlnStore u'
unfolding set_default_config
set_default_config-IsUlnStore admin params u u' v h =
    let (settings, e1, h1) = >>=-eq-ok (account u.uln) _ h in
    let (send, e2, h2) = >>=-eq-ok (account (u.default_send_configs params.eid)) _ h1 in
    let (receive, e3, h3) = >>=-eq-ok (account (u.default_receive_configs params.eid)) _ h2 in
    let (u4, e4, h4) = >>=-eq-ok (require_same settings.admin admin) _ h3 in
    let (send_uln, e5, h5) =
      >>=-eq-ok (updated Uln.set_default_config params.send_uln_config send.uln) _ h4 in
    let (receive_uln, e6, h6) =
      >>=-eq-ok (updated Uln.set_default_config params.receive_uln_config receive.uln) _ h5 in
    let (executor, e7, h7) =
      >>=-eq-ok (updated Executor.set_default_config params.executor_config send.executor) _ h6 in
    let both =
      writes_defaults u u' params.eid (record send { uln = send_uln; executor = executor })
        (record receive { uln = receive_uln }) v
        (updated-IsDefault params.send_uln_config send.uln send_uln
          (subst (OnSend IsDefault) (account-eq-ok _ e2) (v.send_defaults params.eid)) e5)
        (updated-IsDefault params.receive_uln_config receive.uln receive_uln
          (subst (OnReceive IsDefault) (account-eq-ok _ e3) (v.defaults params.eid)) e6) in
    subst IsUlnStore (ok-injective h7) (record {
      defaults = λ eid. (both eid).1;
      customs = v.customs;
      send_defaults = λ eid. (both eid).0;
      send_customs = v.send_customs;
      treasury_bps = v.treasury_bps;
    })

pub init_config-IsUlnStore :
    (endpoint send_bump receive_bump oapp eid : ℕ) (u u' : UlnStore)
    → IsUlnStore u
    → init_config endpoint send_bump receive_bump oapp eid u ≡ ok u'
    → IsUlnStore u'
unfolding init_config
init_config-IsUlnStore endpoint send_bump receive_bump oapp eid u u' v h =
    let (settings, e1, h1) = >>=-eq-ok (account u.uln) _ h in
    let (u2, e2, h2) = >>=-eq-ok (fresh (u.send_configs (oapp, eid))) _ h1 in
    let (u3, e3, h3) = >>=-eq-ok (fresh (u.receive_configs (oapp, eid))) _ h2 in
    let (u4, e4, h4) = >>=-eq-ok (require_same settings.endpoint endpoint) _ h3 in
    let both =
      writes_customs u u' (oapp, eid)
        (record {
          bump = send_bump;
          uln = default_uln_config;
          executor = record { max_message_size = 0; executor = 0 };
        })
        (record { bump = receive_bump; uln = default_uln_config }) v unset_valid unset_valid in
    subst IsUlnStore (ok-injective h4) (record {
      defaults = v.defaults;
      customs = λ key. (both key).1;
      send_defaults = v.send_defaults;
      send_customs = λ key. (both key).0;
      treasury_bps = v.treasury_bps;
    })

apply_config-valid :
    (config : Config) (send default_send : SendConfig) (receive default_receive : ReceiveConfig)
    (r : SendConfig × ReceiveConfig)
    → IsUlnConfig send.uln
    → IsUlnConfig receive.uln
    → apply_config config send receive default_send default_receive ≡ ok r
    → IsUlnConfig r.0.uln × IsUlnConfig r.1.uln
unfolding apply_config
apply_config-valid (Config.executor config) send default_send receive default_receive r vs vr h =
    subst (λ (r : SendConfig × ReceiveConfig). IsUlnConfig r.0.uln × IsUlnConfig r.1.uln)
      (ok-injective h) (vs, vr)
apply_config-valid (Config.send_uln config) send default_send receive default_receive r vs vr h =
    let (stored, e1, h1) = >>=-eq-ok (Uln.set_config config) _ h in
    let (resolved, e2, h2) = >>=-eq-ok (Uln.get_config default_send.uln stored) _ h1 in
    subst (λ (r : SendConfig × ReceiveConfig). IsUlnConfig r.0.uln × IsUlnConfig r.1.uln)
      (ok-injective h2) (custom-IsUlnConfig config stored e1, vr)
apply_config-valid (Config.receive_uln config) send default_send receive default_receive r vs vr h =
    let (stored, e1, h1) = >>=-eq-ok (Uln.set_config config) _ h in
    let (resolved, e2, h2) = >>=-eq-ok (Uln.get_config default_receive.uln stored) _ h1 in
    subst (λ (r : SendConfig × ReceiveConfig). IsUlnConfig r.0.uln × IsUlnConfig r.1.uln)
      (ok-injective h2) (vs, custom-IsUlnConfig config stored e1)

pub set_config-IsUlnStore :
    (read_uln : List ℕ → Result UlnConfig) (read_executor : List ℕ → Result ExecutorConfig)
    (endpoint oapp eid config_type : ℕ) (bytes : List ℕ) (u u' : UlnStore)
    → IsUlnStore u
    → set_config read_uln read_executor endpoint oapp eid config_type bytes u ≡ ok u'
    → IsUlnStore u'
unfolding set_config
set_config-IsUlnStore read_uln read_executor endpoint oapp eid config_type bytes u u' v h =
    let (settings, e1, h1) = >>=-eq-ok (account u.uln) _ h in
    let (send, e2, h2) = >>=-eq-ok (account (u.send_configs (oapp, eid))) _ h1 in
    let (receive, e3, h3) = >>=-eq-ok (account (u.receive_configs (oapp, eid))) _ h2 in
    let (default_send, e4, h4) = >>=-eq-ok (account (u.default_send_configs eid)) _ h3 in
    let (default_receive, e5, h5) = >>=-eq-ok (account (u.default_receive_configs eid)) _ h4 in
    let (u6, e6, h6) = >>=-eq-ok (require_same settings.endpoint endpoint) _ h5 in
    let (config, e7, h7) = >>=-eq-ok (deserialize read_uln read_executor config_type bytes) _ h6 in
    let (r, e8, h8) =
      >>=-eq-ok (apply_config config send receive default_send default_receive) _ h7 in
    let (vs, vr) =
      apply_config-valid config send default_send receive default_receive r
        (subst (OnSend IsUlnConfig) (account-eq-ok _ e2) (v.send_customs (oapp, eid)))
        (subst (OnReceive IsUlnConfig) (account-eq-ok _ e3) (v.customs (oapp, eid))) e8 in
    let both = writes_customs u u' (oapp, eid) r.0 r.1 v vs vr in
    subst IsUlnStore (ok-injective h8) (record {
      defaults = v.defaults;
      customs = λ key. (both key).1;
      send_defaults = v.send_defaults;
      send_customs = λ key. (both key).0;
      treasury_bps = v.treasury_bps;
    })
