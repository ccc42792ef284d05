-- ===== src/Endpoint/Libraries.antt =====
-- The oapp's registration and its choice of message libraries:
-- programs/endpoint/src/instructions/oapp/{register_oapp,set_delegate,init_send_library,
-- set_send_library,init_receive_library,set_receive_library,set_receive_library_timeout}.rs.
pub mod Handover
use lz_v2_audit.Prelude.{
  ℕ, Option, none, some, Bool, true, false, not, ◌==◌, ◌&&◌, ◌||◌, ltb, if◌then◌else◌, Result, ok,
  require, account, fresh, checked_add, ◌>>=◌, ◌>>◌, LayerZeroError, layer_zero, AnchorError,
  anchor, write, nat_eq, pair_eq,
}
use lz_v2_audit.Endpoint.State.{
  MessageLibInfo, MessageLibType, ReceiveLibraryTimeout, default_message_lib,
}
use lz_v2_audit.Endpoint.Events.{
  oapp_registered, delegate_set, send_library_set, receive_library_set, receive_library_timeout_set,
}
use lz_v2_audit.Endpoint.Store.{Store, Runtime, emit, require_oapp_or_delegate}

-- `message_lib_type != MessageLibType::Receive @LayerZeroError::OnlySendLib`
abbrev pub require_send_lib : MessageLibInfo → Result (Unit {0})
require_send_lib info =
    require (elim info.message_lib_type [ MessageLibType.receive ↦ false | _ ↦ true ])
      (layer_zero LayerZeroError.only_send_lib)

-- `message_lib_type != MessageLibType::Send @LayerZeroError::OnlyReceiveLib`
abbrev pub require_receive_lib : MessageLibInfo → Result (Unit {0})
require_receive_lib info =
    require (elim info.message_lib_type [ MessageLibType.send ↦ false | _ ↦ true ])
      (layer_zero LayerZeroError.only_receive_lib)

-- An `Option<Account>` argument: absent, or the account at the seeds, which must exist.
abbrev pub optional : Bool → Option MessageLibInfo → Result (Option MessageLibInfo)
optional false o = ok none
optional true o = account o >>= λ info. ok (some info)

-- The check of an optional account.
abbrev pub optionally :
    (MessageLibInfo → Result (Unit {0})) → Option MessageLibInfo → Result (Unit {0})
optionally check none = ok tt
optionally check (some info) = check info

-- `if new_lib != DEFAULT_MESSAGE_LIB { require!(message_lib_info.is_some(), AccountNotFound) }`
abbrev pub require_library : ℕ → Option MessageLibInfo → Result (Unit {0})
require_library new_lib info =
    require (new_lib == default_message_lib || elim info [ none ↦ false | some _ ↦ true ])
      (layer_zero LayerZeroError.account_not_found)

pub record SetSendLibraryParams : Type 0 where
  pub sender : ℕ
  pub eid : ℕ
  pub new_lib : ℕ

pub record SetReceiveLibraryParams : Type 0 where
  pub receiver : ℕ
  pub eid : ℕ
  pub new_lib : ℕ
  pub grace_period : ℕ

pub record SetReceiveLibraryTimeoutParams : Type 0 where
  pub receiver : ℕ
  pub eid : ℕ
  pub lib : ℕ
  pub expiry : ℕ

-- `RegisterOApp::apply`: the oapp signs.
unfoldable pub register_oapp : (oapp bump delegate : ℕ) → Store → Result Store
register_oapp oapp bump delegate s = do
  fresh (s.oapps oapp)
  ok (
      emit (oapp_registered oapp delegate) (record s {
        oapps = write oapp (some (record { delegate = delegate; bump = bump })) s.oapps;
      }))

-- `SetDelegate::apply`
unfoldable pub set_delegate : (oapp delegate : ℕ) → Store → Result Store
set_delegate oapp delegate s = do
  registry ← account (s.oapps oapp)
  ok (
      emit (delegate_set delegate)
        (record s { oapps = write oapp (some (record registry { delegate = delegate })) s.oapps }))

-- `InitSendLibrary::apply`
unfoldable pub init_send_library : (delegate bump sender eid : ℕ) → Store → Result Store
init_send_library delegate bump sender eid s = do
  registry ← account (s.oapps sender)
  fresh (s.send_libraries (sender, eid))
  require (registry.delegate == delegate) (anchor AnchorError.constraint_has_one)
  ok (record s {
    send_libraries =
        write (sender, eid) (some (record { message_lib = default_message_lib; bump = bump }))
          s.send_libraries;
  })

-- `SetSendLibrary::apply`; `with_info` says whether the optional library account is passed.
unfoldable pub set_send_library :
    (signer : ℕ) (with_info : Bool) → SetSendLibraryParams → Store → Result Store
set_send_library signer with_info params s = do
  registry ← account (s.oapps params.sender)
  config ← account (s.send_libraries (params.sender, params.eid))
  info ← optional with_info (s.message_libs params.new_lib)
  require_oapp_or_delegate signer params.sender registry
  require (not (config.message_lib == params.new_lib)) (layer_zero LayerZeroError.same_value)
  optionally require_send_lib info
  require_library params.new_lib info
  ok (
      emit (send_library_set params.sender params.eid params.new_lib) (record s {
        send_libraries =
            write (params.sender, params.eid)
              (some (record config { message_lib = params.new_lib })) s.send_libraries;
      }))

-- `InitReceiveLibrary::apply`
unfoldable pub init_receive_library : (delegate bump receiver eid : ℕ) → Store → Result Store
init_receive_library delegate bump receiver eid s = do
  registry ← account (s.oapps receiver)
  fresh (s.receive_libraries (receiver, eid))
  require (registry.delegate == delegate) (anchor AnchorError.constraint_has_one)
  ok (record s {
    receive_libraries =
        write (receiver, eid)
          (some (record { message_lib = default_message_lib; timeout = none; bump = bump }))
          s.receive_libraries;
  })

-- The timeout of `SetReceiveLibrary`: the old library stays valid for the grace period, which is
-- allowed only between two libraries that are not the default.
unfoldable pub grace_timeout :
    (slot old_lib new_lib grace_period : ℕ) → Result (Option ReceiveLibraryTimeout)
grace_timeout slot old_lib new_lib grace_period =
    if ltb 0 grace_period
    then (do
      require (not (old_lib == default_message_lib) && not (new_lib == default_message_lib))
          (layer_zero LayerZeroError.only_non_default_lib)
      expiry ← checked_add 64 grace_period slot
      ok (some (record { message_lib = old_lib; expiry = expiry })))
    else ok none

-- `SetReceiveLibrary::apply`
unfoldable pub set_receive_library :
    Runtime → (signer : ℕ) (with_info : Bool) → SetReceiveLibraryParams → Store → Result Store
unfolding grace_timeout
set_receive_library env signer with_info params s = do
  registry ← account (s.oapps params.receiver)
  config ← account (s.receive_libraries (params.receiver, params.eid))
  info ← optional with_info (s.message_libs params.new_lib)
  require_oapp_or_delegate signer params.receiver registry
  require (not (config.message_lib == params.new_lib)) (layer_zero LayerZeroError.same_value)
  optionally require_receive_lib info
  require_library params.new_lib info
  timeout ← grace_timeout env.slot config.message_lib params.new_lib params.grace_period
  ok (
      emit (receive_library_timeout_set params.receiver params.eid timeout) (
        emit (receive_library_set params.receiver params.eid params.new_lib) (record s {
          receive_libraries =
              write (params.receiver, params.eid)
                (some (record config { message_lib = params.new_lib; timeout = timeout }))
                s.receive_libraries;
        })))

-- The timeout of the two `Set…Timeout` instructions: an expiry of 0 removes it, and any other must
-- lie in the future.
unfoldable pub new_timeout : (slot lib expiry : ℕ) → Result (Option ReceiveLibraryTimeout)
new_timeout slot lib expiry =
    if ltb 0 expiry
    then (do
      require (ltb slot expiry) (layer_zero LayerZeroError.invalid_expiry)
      ok (some (record { message_lib = lib; expiry = expiry })))
    else ok none

-- `SetReceiveLibraryTimeout::apply`
unfoldable pub set_receive_library_timeout :
    Runtime → (signer : ℕ) → SetReceiveLibraryTimeoutParams → Store → Result Store
unfolding new_timeout
set_receive_library_timeout env signer params s = do
  registry ← account (s.oapps params.receiver)
  config ← account (s.receive_libraries (params.receiver, params.eid))
  info ← account (s.message_libs params.lib)
  require_oapp_or_delegate signer params.receiver registry
  require (not (config.message_lib == default_message_lib))
      (layer_zero LayerZeroError.only_non_default_lib)
  require_receive_lib info
  timeout ← new_timeout env.slot params.lib params.expiry
  ok (
      emit (receive_library_timeout_set params.receiver params.eid timeout) (record s {
        receive_libraries =
            write (params.receiver, params.eid) (some (record config { timeout = timeout }))
              s.receive_libraries;
      }))
