-- ===== src/Endpoint/Safety/Settings.antt =====
-- The instructions that leave the accounts of the channels alone: registration, libraries, composed
-- messages and the admin's.
use lz_v2_audit.Prelude.{ℕ, ◌≡◌, Option, Bool, ok, arith}
use lz_v2_audit.Endpoint.State.{MessageLibType}
use lz_v2_audit.Endpoint.Store.{Store, Runtime}
use lz_v2_audit.Endpoint.Libraries.{
  SetSendLibraryParams, SetReceiveLibraryParams, SetReceiveLibraryTimeoutParams, register_oapp,
  set_delegate, init_send_library, set_send_library, init_receive_library, set_receive_library,
  set_receive_library_timeout,
}
use lz_v2_audit.Endpoint.Compose.{
  SendComposeParams, ClearComposeParams, send_compose, clear_compose,
}
use lz_v2_audit.Endpoint.Admin.{
  init_endpoint, transfer_admin, set_lz_token, register_library, init_default_send_library,
  set_default_send_library, init_default_receive_library, set_default_receive_library,
  set_default_receive_library_timeout,
}
use lz_v2_audit.Endpoint.Safety.{IsUntouched}

module _ (s s' : Store) where
  pub register_oapp-IsUntouched :
      (oapp bump delegate : ℕ) → register_oapp oapp bump delegate s ≡ ok s' → IsUntouched s s'
  unfolding register_oapp
  register_oapp-IsUntouched oapp bump delegate h = ground arith

  pub set_delegate-IsUntouched :
      (oapp delegate : ℕ) → set_delegate oapp delegate s ≡ ok s' → IsUntouched s s'
  unfolding set_delegate
  set_delegate-IsUntouched oapp delegate h = ground arith

  pub init_send_library-IsUntouched :
      (delegate bump sender eid : ℕ)
      → init_send_library delegate bump sender eid s ≡ ok s'
      → IsUntouched s s'
  unfolding init_send_library
  init_send_library-IsUntouched delegate bump sender eid h = ground arith

  pub set_send_library-IsUntouched :
      (signer : ℕ) (with_info : Bool) (params : SetSendLibraryParams)
      → set_send_library signer with_info params s ≡ ok s'
      → IsUntouched s s'
  unfolding set_send_library
  set_send_library-IsUntouched signer with_info params h = ground arith

  pub init_receive_library-IsUntouched :
      (delegate bump receiver eid : ℕ)
      → init_receive_library delegate bump receiver eid s ≡ ok s'
      → IsUntouched s s'
  unfolding init_receive_library
  init_receive_library-IsUntouched delegate bump receiver eid h = ground arith

  pub set_receive_library-IsUntouched :
      (env : Runtime) (signer : ℕ) (with_info : Bool) (params : SetReceiveLibraryParams)
      → set_receive_library env signer with_info params s ≡ ok s'
      → IsUntouched s s'
  unfolding set_receive_library
  set_receive_library-IsUntouched env signer with_info params h = ground arith

  pub set_receive_library_timeout-IsUntouched :
      (env : Runtime) (signer : ℕ) (params : SetReceiveLibraryTimeoutParams)
      → set_receive_library_timeout env signer params s ≡ ok s'
      → IsUntouched s s'
  unfolding set_receive_library_timeout
  set_receive_library_timeout-IsUntouched env signer params h = ground arith

  pub send_compose-IsUntouched :
      (env : Runtime) (from bump : ℕ) (params : SendComposeParams)
      → send_compose env from bump params s ≡ ok s'
      → IsUntouched s s'
  unfolding send_compose
  send_compose-IsUntouched env from bump params h = ground arith

  pub clear_compose-IsUntouched :
      (env : Runtime) (to : ℕ) (params : ClearComposeParams)
      → clear_compose env to params s ≡ ok s'
      → IsUntouched s s'
  unfolding clear_compose
  clear_compose-IsUntouched env to params h = ground arith

  pub init_endpoint-IsUntouched :
      (bump eid admin : ℕ) → init_endpoint bump eid admin s ≡ ok s' → IsUntouched s s'
  unfolding init_endpoint
  init_endpoint-IsUntouched bump eid admin h = ground arith

  pub transfer_admin-IsUntouched :
      (admin new_admin : ℕ) → transfer_admin admin new_admin s ≡ ok s' → IsUntouched s s'
  unfolding transfer_admin
  transfer_admin-IsUntouched admin new_admin h = ground arith

  pub set_lz_token-IsUntouched :
      (admin : ℕ) (lz_token : Option ℕ) → set_lz_token admin lz_token s ≡ ok s' → IsUntouched s s'
  unfolding set_lz_token
  set_lz_token-IsUntouched admin lz_token h = ground arith

  pub register_library-IsUntouched :
      (env : Runtime) (admin bump lib_program : ℕ) (lib_type : MessageLibType)
      → register_library env admin bump lib_program lib_type s ≡ ok s'
      → IsUntouched s s'
  unfolding register_library
  register_library-IsUntouched env admin bump lib_program lib_type h = ground arith

  pub init_default_send_library-IsUntouched :
      (admin bump eid new_lib : ℕ)
      → init_default_send_library admin bump eid new_lib s ≡ ok s'
      → IsUntouched s s'
  unfolding init_default_send_library
  init_default_send_library-IsUntouched admin bump eid new_lib h = ground arith

  pub set_default_send_library-IsUntouched :
      (admin eid new_lib : ℕ)
      → set_default_send_library admin eid new_lib s ≡ ok s'
      → IsUntouched s s'
  unfolding set_default_send_library
  set_default_send_library-IsUntouched admin eid new_lib h = ground arith

  pub init_default_receive_library-IsUntouched :
      (admin bump eid new_lib : ℕ)
      → init_default_receive_library admin bump eid new_lib s ≡ ok s'
      → IsUntouched s s'
  unfolding init_default_receive_library
  init_default_receive_library-IsUntouched admin bump eid new_lib h = ground arith

  pub set_default_receive_library-IsUntouched :
      (env : Runtime) (admin eid new_lib grace_period : ℕ)
      → set_default_receive_library env admin eid new_lib grace_period s ≡ ok s'
      → IsUntouched s s'
  unfolding set_default_receive_library
  set_default_receive_library-IsUntouched env admin eid new_lib grace_period h = ground arith

  pub set_default_receive_library_timeout-IsUntouched :
      (env : Runtime) (admin eid lib expiry : ℕ)
      → set_default_receive_library_timeout env admin eid lib expiry s ≡ ok s'
      → IsUntouched s s'
  unfolding set_default_receive_library_timeout
  set_default_receive_library_timeout-IsUntouched env admin eid lib expiry h = ground arith
