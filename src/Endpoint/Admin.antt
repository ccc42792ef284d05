-- ===== src/Endpoint/Admin.antt =====
-- The admin's instructions: programs/endpoint/src/instructions/admin, except withdraw_rent.rs.
use lz_v2_audit.Prelude.{
  ℕ, Option, none, some, not, ◌==◌, ltb, if◌then◌else◌, Result, ok, require, account, fresh,
  checked_add, ◌>>=◌, ◌>>◌, LayerZeroError, layer_zero, AnchorError, anchor, write, nat_eq,
}
use lz_v2_audit.Endpoint.State.{EndpointSettings, MessageLibType, ReceiveLibraryTimeout}
use lz_v2_audit.Endpoint.Events.{
  library_registered, default_send_library_set, default_receive_library_set,
  default_receive_library_timeout_set, admin_transferred, lz_token_set,
}
use lz_v2_audit.Endpoint.Store.{Store, Runtime, emit}
use lz_v2_audit.Endpoint.Libraries.{require_send_lib, require_receive_lib, new_timeout}

-- `has_one = admin`
abbrev require_admin : ℕ → EndpointSettings → Result (Unit {0})
require_admin admin settings =
    require (settings.admin == admin) (anchor AnchorError.constraint_has_one)

-- `InitEndpoint::apply`
unfoldable pub init_endpoint : (bump eid admin : ℕ) → Store → Result Store
init_endpoint bump eid admin s = do
  fresh s.endpoint
  ok (record s {
    endpoint = some (record { eid = eid; bump = bump; admin = admin; lz_token_mint = none });
  })

-- `TransferAdmin::apply`
unfoldable pub transfer_admin : (admin new_admin : ℕ) → Store → Result Store
transfer_admin admin new_admin s = do
  settings ← account s.endpoint
  require_admin admin settings
  ok (
      emit (admin_transferred new_admin)
        (record s { endpoint = some (record settings { admin = new_admin }) }))

-- `SetLzToken::apply`
unfoldable pub set_lz_token : (admin : ℕ) → Option ℕ → Store → Result Store
set_lz_token admin lz_token s = do
  settings ← account s.endpoint
  require_admin admin settings
  ok (
      emit (lz_token_set lz_token)
        (record s { endpoint = some (record settings { lz_token_mint = lz_token }) }))

-- `RegisterLibrary::apply`
unfoldable pub register_library :
    Runtime → (admin bump lib_program : ℕ) → MessageLibType → Store → Result Store
register_library env admin bump lib_program lib_type s = do
  let (message_lib, lib_bump) = env.find_library_address lib_program
  settings ← account s.endpoint
  fresh (s.message_libs message_lib)
  require_admin admin settings
  require (not (lib_program == env.program_id)) (layer_zero LayerZeroError.invalid_message_lib)
  ok (
      emit (library_registered message_lib lib_program) (record s {
        message_libs =
            write message_lib
              (some
                (record { message_lib_type = lib_type; bump = bump; message_lib_bump = lib_bump }))
              s.message_libs;
      }))

-- `InitDefaultSendLibrary::apply`
unfoldable pub init_default_send_library : (admin bump eid new_lib : ℕ) → Store → Result Store
init_default_send_library admin bump eid new_lib s = do
  settings ← account s.endpoint
  info ← account (s.message_libs new_lib)
  fresh (s.default_send_libraries eid)
  require_admin admin settings
  require_send_lib info
  ok (
      emit (default_send_library_set eid new_lib) (record s {
        default_send_libraries =
            write eid (some (record { message_lib = new_lib; bump = bump }))
              s.default_send_libraries;
      }))

-- `SetDefaultSendLibrary::apply`
unfoldable pub set_default_send_library : (admin eid new_lib : ℕ) → Store → Result Store
set_default_send_library admin eid new_lib s = do
  settings ← account s.endpoint
  config ← account (s.default_send_libraries eid)
  info ← account (s.message_libs new_lib)
  require_admin admin settings
  require (not (config.message_lib == new_lib)) (layer_zero LayerZeroError.same_value)
  require_send_lib info
  ok (
      emit (default_send_library_set eid new_lib) (record s {
        default_send_libraries =
            write eid (some (record config { message_lib = new_lib })) s.default_send_libraries;
      }))

-- `InitDefaultReceiveLibrary::apply`
unfoldable pub init_default_receive_library : (admin bump eid new_lib : ℕ) → Store → Result Store
init_default_receive_library admin bump eid new_lib s = do
  settings ← account s.endpoint
  info ← account (s.message_libs new_lib)
  fresh (s.default_receive_libraries eid)
  require_admin admin settings
  require_receive_lib info
  ok (
      emit (default_receive_library_set eid new_lib) (record s {
        default_receive_libraries =
            write eid (some (record { message_lib = new_lib; timeout = none; bump = bump }))
              s.default_receive_libraries;
      }))

-- The timeout of `SetDefaultReceiveLibrary`.
unfoldable pub default_grace_timeout :
    (slot old_lib grace_period : ℕ) → Result (Option ReceiveLibraryTimeout)
default_grace_timeout slot old_lib grace_period =
    if ltb 0 grace_period
    then (do
      expiry ← checked_add 64 grace_period slot
      ok (some (record { message_lib = old_lib; expiry = expiry })))
    else ok none

-- `SetDefaultReceiveLibrary::apply`
unfoldable pub set_default_receive_library :
    Runtime → (admin eid new_lib grace_period : ℕ) → Store → Result Store
unfolding default_grace_timeout
set_default_receive_library env admin eid new_lib grace_period s = do
  settings ← account s.endpoint
  config ← account (s.default_receive_libraries eid)
  info ← account (s.message_libs new_lib)
  require_admin admin settings
  require (not (config.message_lib == new_lib)) (layer_zero LayerZeroError.same_value)
  require_receive_lib info
  timeout ← default_grace_timeout env.slot config.message_lib grace_period
  ok (
      emit (default_receive_library_timeout_set eid timeout) (
        emit (default_receive_library_set eid new_lib) (record s {
          default_receive_libraries =
              write eid (some (record config { message_lib = new_lib; timeout = timeout }))
                s.default_receive_libraries;
        })))

-- `SetDefaultReceiveLibraryTimeout::apply`
unfoldable pub set_default_receive_library_timeout :
    Runtime → (admin eid lib expiry : ℕ) → Store → Result Store
unfolding new_timeout
set_default_receive_library_timeout env admin eid lib expiry s = do
  settings ← account s.endpoint
  config ← account (s.default_receive_libraries eid)
  info ← account (s.message_libs lib)
  require_admin admin settings
  require_receive_lib info
  timeout ← new_timeout env.slot lib expiry
  ok (
      emit (default_receive_library_timeout_set eid timeout) (record s {
        default_receive_libraries =
            write eid (some (record config { timeout = timeout })) s.default_receive_libraries;
      }))
