-- ===== src/Uln/Admin/Reachable.antt =====
-- Histories of all instructions of the ULN that write its accounts or emit its events.
use lz_v2_audit.Prelude.{ℕ, none, List, [], account, fresh, >>=-eq-ok, ok-injective}
use mathlib.Core.Path.{subst}
use lz_v2_audit.Uln.State.{UlnStore, confirmation_key}
use lz_v2_audit.Uln.Admin.Accepted.{
  IsUlnStore, Action, History, start, then_action, init_uln_action, transfer_admin_action,
  set_treasury_action, init_default_config_action, set_default_config_action, init_config_action,
  set_config_action, confirm_action, send_action, send_with_lz_token_action, init_uln-IsUlnStore,
  transfer_admin-IsUlnStore, set_treasury-IsUlnStore,
}
use lz_v2_audit.Uln.Admin.Stored.{
  init_default_config-IsUlnStore, set_default_config-IsUlnStore, init_config-IsUlnStore,
  set_config-IsUlnStore,
}
use lz_v2_audit.Uln.Sending.Logged.{send-log, send_with_lz_token-log}
use lz_v2_audit.Uln.Confirm.{
  Step, init_step, verify_step, close_step, init_verify, verify, close_verify,
}

-- No account exists before the ULN is initialised.
abbrev pub no_accounts : UlnStore
no_accounts = record {
  uln = none;
  default_send_configs = λ eid. none;
  send_configs = λ key. none;
  default_receive_configs = λ eid. none;
  receive_configs = λ key. none;
  confirmations = λ key. none;
  log = [];
}

-- The confirmations are not settings.
same_settings :
    (u : UlnStore) (confirmations : _) (log : _)
    → IsUlnStore u
    → IsUlnStore (record u { confirmations = confirmations; log = log })
same_settings u confirmations log v = record {
  defaults = v.defaults;
  customs = v.customs;
  send_defaults = v.send_defaults;
  send_customs = v.send_customs;
  treasury_bps = v.treasury_bps;
}

confirm-IsUlnStore :
    (keccak : List ℕ → ℕ) (u u' : UlnStore) → IsUlnStore u → Step keccak u u' → IsUlnStore u'
unfolding init_verify verify close_verify
confirm-IsUlnStore keccak u u' v (init_step bump params h) =
    let key = confirmation_key (keccak params.packet_header) params.payload_hash params.dvn in
    let (u1, e1, h1) = >>=-eq-ok (fresh (u.confirmations key)) _ h in
    subst IsUlnStore (ok-injective h1) (same_settings u _ u.log v)
confirm-IsUlnStore keccak u u' v (verify_step dvn params h) =
    let key = confirmation_key (keccak params.packet_header) params.payload_hash dvn in
    let (c, e1, h1) = >>=-eq-ok (account (u.confirmations key)) _ h in
    subst IsUlnStore (ok-injective h1) (same_settings u _ _ v)
confirm-IsUlnStore keccak u u' v (close_step dvn params h) =
    let key = confirmation_key params.packet_header_hash params.payload_hash dvn in
    let (c, e1, h1) = >>=-eq-ok (account (u.confirmations key)) _ h in
    subst IsUlnStore (ok-injective h1) (same_settings u _ u.log v)

Action-IsUlnStore :
    (keccak : List ℕ → ℕ) (u u' : UlnStore) → IsUlnStore u → Action keccak u u' → IsUlnStore u'
Action-IsUlnStore keccak u u' v (init_uln_action bump params h) =
    init_uln-IsUlnStore bump params u u' v h
Action-IsUlnStore keccak u u' v (transfer_admin_action admin new_admin h) =
    transfer_admin-IsUlnStore admin new_admin u u' v h
Action-IsUlnStore keccak u u' v (set_treasury_action signer treasury h) =
    set_treasury-IsUlnStore signer treasury u u' v h
Action-IsUlnStore keccak u u' v (init_default_config_action admin send_bump receive_bump params h) =
    init_default_config-IsUlnStore admin send_bump receive_bump params u u' v h
Action-IsUlnStore keccak u u' v (set_default_config_action admin params h) =
    set_default_config-IsUlnStore admin params u u' v h
Action-IsUlnStore keccak u u' v (init_config_action endpoint send_bump receive_bump oapp eid h) =
    init_config-IsUlnStore endpoint send_bump receive_bump oapp eid u u' v h
Action-IsUlnStore keccak u u' v
      (set_config_action read_uln read_executor endpoint oapp eid config_type bytes h) =
    set_config-IsUlnStore read_uln read_executor endpoint oapp eid config_type bytes u u' v h
Action-IsUlnStore keccak u u' v (confirm_action st) = confirm-IsUlnStore keccak u u' v st
Action-IsUlnStore keccak u u' v (send_action env payable accounts remaining params result paid h) =
    let (log, same) = send-log env payable accounts remaining params u u' result paid h in
    subst IsUlnStore same (same_settings u u.confirmations log v)
Action-IsUlnStore keccak u u' v
      (send_with_lz_token_action env payable accounts remaining params result paid h) =
    let (log, same) =
      send_with_lz_token-log env payable accounts remaining params u u' result paid h in
    subst IsUlnStore same (same_settings u u.confirmations log v)

-- Whatever instructions of the ULN have run since it was deployed, sends among them, every stored default configuration,
-- for sending and for receiving, is one that is valid, has no NIL and names a DVN, every stored custom
-- one is valid, and the treasury's fee is at most 10000 basis points.
pub reachable-IsUlnStore :
    (keccak : List ℕ → ℕ) (u : UlnStore) → History keccak no_accounts u → IsUlnStore u
reachable-IsUlnStore keccak u start = record {
  defaults = λ eid. tt;
  customs = λ key. tt;
  send_defaults = λ eid. tt;
  send_customs = λ key. tt;
  treasury_bps = tt;
}
reachable-IsUlnStore keccak u (then_action {v = v} r action) =
    Action-IsUlnStore keccak v u (reachable-IsUlnStore keccak v r) action
