-- ===== src/Endpoint/Safety/Steps.antt =====
-- The endpoint as a step relation: any instruction, in any order, by anyone who passes its checks.
use lz_v2_audit.Prelude.{ℕ, ◌≡◌, refl, Option, Bool, ok}
use lz_v2_audit.Endpoint.State.{MessageLibType, MessagingReceipt}
use lz_v2_audit.Endpoint.Store.{Store, Runtime}
use lz_v2_audit.Endpoint.Messaging.{
  InitNonceParams, InitVerifyParams, VerifyParams, SkipParams, ClearParams, NilifyParams,
  BurnParams, init_nonce, init_verify, verify, skip, clear, nilify, burn,
}
use lz_v2_audit.Endpoint.Sending.{SendParams, send}
use lz_v2_audit.Endpoint.Libraries.{
  SetSendLibraryParams, SetReceiveLibraryParams, SetReceiveLibraryTimeoutParams, register_oapp,
  set_delegate, init_send_library, set_send_library, init_receive_library, set_receive_library,
  set_receive_library_timeout,
}
use lz_v2_audit.Endpoint.Compose.{
  SendComposeParams, ClearComposeParams, LzReceiveAlertParams, LzComposeAlertParams, send_compose,
  clear_compose, alert_receive, alert_compose,
}
use lz_v2_audit.Endpoint.Admin.{
  init_endpoint, transfer_admin, set_lz_token, register_library, init_default_send_library,
  set_default_send_library, init_default_receive_library, set_default_receive_library,
  set_default_receive_library_timeout,
}
use lz_v2_audit.Endpoint.Safety.{IsStore, Effect, Effect-untouched}
use lz_v2_audit.Endpoint.Safety.Inbound.{verify-Effect, nilify-Effect, skip-Effect}
use lz_v2_audit.Endpoint.Safety.Closing.{
  clear-Effect, burn-Effect, init_verify-Effect, init_nonce-Effect,
}
use lz_v2_audit.Endpoint.Safety.Outbound.{send-Sends, Sends-Effect}
use lz_v2_audit.Endpoint.Safety.Settings

pub data Step (s s' : Store) : Type 0 where
  init_nonce_step :
      (delegate bump pending_bump : ℕ) (params : InitNonceParams)
      → init_nonce delegate bump pending_bump params s ≡ ok s'
      → Step s s'
  init_verify_step :
      (bump : ℕ) (params : InitVerifyParams) → init_verify bump params s ≡ ok s' → Step s s'
  verify_step :
      (env : Runtime) (lib : ℕ) (params : VerifyParams)
      → verify env lib params s ≡ ok s'
      → Step s s'
  skip_step : (signer : ℕ) (params : SkipParams) → skip signer params s ≡ ok s' → Step s s'
  clear_step :
      (env : Runtime) (signer : ℕ) (params : ClearParams) (hash : ℕ)
      → clear env signer params s ≡ ok (s', hash)
      → Step s s'
  nilify_step : (signer : ℕ) (params : NilifyParams) → nilify signer params s ≡ ok s' → Step s s'
  burn_step : (signer : ℕ) (params : BurnParams) → burn signer params s ≡ ok s' → Step s s'
  send_step :
      (env : Runtime) (sender program : ℕ) (writable : Bool) (params : SendParams)
      (receipt : MessagingReceipt)
      → send env sender program writable params s ≡ ok (s', receipt)
      → Step s s'
  alert_receive_step :
      (executor : ℕ) (params : LzReceiveAlertParams)
      → alert_receive executor params s ≡ s'
      → Step s s'
  alert_compose_step :
      (executor : ℕ) (params : LzComposeAlertParams)
      → alert_compose executor params s ≡ s'
      → Step s s'
  register_oapp_step :
      (oapp bump delegate : ℕ) → register_oapp oapp bump delegate s ≡ ok s' → Step s s'
  set_delegate_step : (oapp delegate : ℕ) → set_delegate oapp delegate s ≡ ok s' → Step s s'
  init_send_library_step :
      (delegate bump sender eid : ℕ)
      → init_send_library delegate bump sender eid s ≡ ok s'
      → Step s s'
  set_send_library_step :
      (signer : ℕ) (with_info : Bool) (params : SetSendLibraryParams)
      → set_send_library signer with_info params s ≡ ok s'
      → Step s s'
  init_receive_library_step :
      (delegate bump receiver eid : ℕ)
      → init_receive_library delegate bump receiver eid s ≡ ok s'
      → Step s s'
  set_receive_library_step :
      (env : Runtime) (signer : ℕ) (with_info : Bool) (params : SetReceiveLibraryParams)
      → set_receive_library env signer with_info params s ≡ ok s'
      → Step s s'
  set_receive_library_timeout_step :
      (env : Runtime) (signer : ℕ) (params : SetReceiveLibraryTimeoutParams)
      → set_receive_library_timeout env signer params s ≡ ok s'
      → Step s s'
  send_compose_step :
      (env : Runtime) (from bump : ℕ) (params : SendComposeParams)
      → send_compose env from bump params s ≡ ok s'
      → Step s s'
  clear_compose_step :
      (env : Runtime) (to : ℕ) (params : ClearComposeParams)
      → clear_compose env to params s ≡ ok s'
      → Step s s'
  init_endpoint_step : (bump eid admin : ℕ) → init_endpoint bump eid admin s ≡ ok s' → Step s s'
  transfer_admin_step : (admin new_admin : ℕ) → transfer_admin admin new_admin s ≡ ok s' → Step s s'
  set_lz_token_step :
      (admin : ℕ) (lz_token : Option ℕ) → set_lz_token admin lz_token s ≡ ok s' → Step s s'
  register_library_step :
      (env : Runtime) (admin bump lib_program : ℕ) (lib_type : MessageLibType)
      → register_library env admin bump lib_program lib_type s ≡ ok s'
      → Step s s'
  init_default_send_library_step :
      (admin bump eid new_lib : ℕ)
      → init_default_send_library admin bump eid new_lib s ≡ ok s'
      → Step s s'
  set_default_send_library_step :
      (admin eid new_lib : ℕ) → set_default_send_library admin eid new_lib s ≡ ok s' → Step s s'
  init_default_receive_library_step :
      (admin bump eid new_lib : ℕ)
      → init_default_receive_library admin bump eid new_lib s ≡ ok s'
      → Step s s'
  set_default_receive_library_step :
      (env : Runtime) (admin eid new_lib grace_period : ℕ)
      → set_default_receive_library env admin eid new_lib grace_period s ≡ ok s'
      → Step s s'
  set_default_receive_library_timeout_step :
      (env : Runtime) (admin eid lib expiry : ℕ)
      → set_default_receive_library_timeout env admin eid lib expiry s ≡ ok s'
      → Step s s'

-- Every instruction keeps the channels well formed, moves no nonce back and reopens no account.
pub Step-Effect : {s s' : Store} → IsStore s → Step s s' → Effect s s'
unfolding alert_receive alert_compose
Step-Effect {s} {s'} v (init_nonce_step d b pb params h) = init_nonce-Effect d b pb params s s' v h
Step-Effect {s} {s'} v (init_verify_step b params h) = init_verify-Effect b params s s' v h
Step-Effect {s} {s'} v (verify_step env lib params h) = verify-Effect env lib params s s' v h
Step-Effect {s} {s'} v (skip_step signer params h) = skip-Effect signer params s s' v h
Step-Effect {s} {s'} v (clear_step env signer params hash h) =
    clear-Effect env signer params s s' hash v h
Step-Effect {s} {s'} v (nilify_step signer params h) = nilify-Effect signer params s s' v h
Step-Effect {s} {s'} v (burn_step signer params h) = burn-Effect signer params s s' v h
Step-Effect {s} {s'} v (send_step env sender program w params receipt h) =
    Sends-Effect s s' _ receipt v (send-Sends env sender program w params s s' receipt h)
Step-Effect {s} {s'} v (alert_receive_step executor params h) =
    Effect-untouched s s' v (rw (← h) (refl, refl, refl))
Step-Effect {s} {s'} v (alert_compose_step executor params h) =
    Effect-untouched s s' v (rw (← h) (refl, refl, refl))
Step-Effect {s} {s'} v (register_oapp_step oapp bump delegate h) =
    Effect-untouched s s' v (Settings.register_oapp-IsUntouched s s' oapp bump delegate h)
Step-Effect {s} {s'} v (set_delegate_step oapp delegate h) =
    Effect-untouched s s' v (Settings.set_delegate-IsUntouched s s' oapp delegate h)
Step-Effect {s} {s'} v (init_send_library_step delegate bump sender eid h) =
    Effect-untouched s s' v (Settings.init_send_library-IsUntouched s s' delegate bump sender eid h)
Step-Effect {s} {s'} v (set_send_library_step signer with_info params h) =
    Effect-untouched s s' v (Settings.set_send_library-IsUntouched s s' signer with_info params h)
Step-Effect {s} {s'} v (init_receive_library_step delegate bump receiver eid h) =
    Effect-untouched s s' v
      (Settings.init_receive_library-IsUntouched s s' delegate bump receiver eid h)
Step-Effect {s} {s'} v (set_receive_library_step env signer with_info params h) =
    Effect-untouched s s' v
      (Settings.set_receive_library-IsUntouched s s' env signer with_info params h)
Step-Effect {s} {s'} v (set_receive_library_timeout_step env signer params h) =
    Effect-untouched s s' v
      (Settings.set_receive_library_timeout-IsUntouched s s' env signer params h)
Step-Effect {s} {s'} v (send_compose_step env from bump params h) =
    Effect-untouched s s' v (Settings.send_compose-IsUntouched s s' env from bump params h)
Step-Effect {s} {s'} v (clear_compose_step env to params h) =
    Effect-untouched s s' v (Settings.clear_compose-IsUntouched s s' env to params h)
Step-Effect {s} {s'} v (init_endpoint_step bump eid admin h) =
    Effect-untouched s s' v (Settings.init_endpoint-IsUntouched s s' bump eid admin h)
Step-Effect {s} {s'} v (transfer_admin_step admin new_admin h) =
    Effect-untouched s s' v (Settings.transfer_admin-IsUntouched s s' admin new_admin h)
Step-Effect {s} {s'} v (set_lz_token_step admin lz_token h) =
    Effect-untouched s s' v (Settings.set_lz_token-IsUntouched s s' admin lz_token h)
Step-Effect {s} {s'} v (register_library_step env admin bump lib_program lib_type h) =
    Effect-untouched s s' v
      (Settings.register_library-IsUntouched s s' env admin bump lib_program lib_type h)
Step-Effect {s} {s'} v (init_default_send_library_step admin bump eid new_lib h) =
    Effect-untouched s s' v
      (Settings.init_default_send_library-IsUntouched s s' admin bump eid new_lib h)
Step-Effect {s} {s'} v (set_default_send_library_step admin eid new_lib h) =
    Effect-untouched s s' v (Settings.set_default_send_library-IsUntouched s s' admin eid new_lib h)
Step-Effect {s} {s'} v (init_default_receive_library_step admin bump eid new_lib h) =
    Effect-untouched s s' v
      (Settings.init_default_receive_library-IsUntouched s s' admin bump eid new_lib h)
Step-Effect {s} {s'} v (set_default_receive_library_step env admin eid new_lib grace_period h) =
    Effect-untouched s s' v
      (Settings.set_default_receive_library-IsUntouched s s' env admin eid new_lib grace_period h)
Step-Effect {s} {s'} v (set_default_receive_library_timeout_step env admin eid lib expiry h) =
    Effect-untouched s s' v
      (Settings.set_default_receive_library_timeout-IsUntouched s s' env admin eid lib expiry h)

-- A history of instructions.
pub data Reach (s : Store) : Store → Type 0 where
  here : Reach s s
  next : {t u : Store} → Reach s t → Step t u → Reach s u

pub Reach-IsStore : {s t : Store} → IsStore s → Reach s t → IsStore t
Reach-IsStore v here = v
Reach-IsStore v (next r st) = (Step-Effect (Reach-IsStore v r) st).valid
