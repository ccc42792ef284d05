-- ===== src/Endpoint/Libraries/Handover.antt =====
-- The change of a receive library: programs/endpoint/src/instructions/oapp/set_receive_library.rs
-- read together with `is_valid_receive_library` of instructions/verify.rs.
use lz_v2_audit.Prelude.{
  ℕ, ◌+◌, ◌≡◌, ◌≢◌, Option, none, some, Bool, not, ◌&&◌, ◌||◌, ◌==◌, ltb, ok, require, account,
  >>=-eq-ok, account-eq-ok, ok-injective, write_self, nat_eq, pair_eq, arith, LayerZeroError,
  layer_zero,
}
use mathlib.Core.Path.{subst}
use lz_v2_audit.Endpoint.State.{ReceiveLibraryConfig, ReceiveLibraryTimeout, default_message_lib}
use lz_v2_audit.Endpoint.Store.{Store, Runtime, require_oapp_or_delegate}
use lz_v2_audit.Endpoint.Messaging.Library.{is_valid_receive_library}
use lz_v2_audit.Endpoint.Libraries.{
  SetReceiveLibraryParams, set_receive_library, grace_timeout, optional, optionally,
  require_library, require_receive_lib,
}

grace_timeout-valid :
    (slot old_lib new_lib grace_period : ℕ) (bump : ℕ) (timeout : Option ReceiveLibraryTimeout)
    (lib now : ℕ) (default_config : ReceiveLibraryConfig)
    → new_lib ≢ default_message_lib
    → grace_timeout slot old_lib new_lib grace_period ≡ ok timeout
    → is_valid_receive_library lib
        (record { message_lib = new_lib; timeout = timeout; bump = bump })
        default_config
        now
      ≡ (lib == new_lib
          || (ltb 0 grace_period && (lib == old_lib && ltb now (grace_period + slot))))
unfolding grace_timeout is_valid_receive_library
grace_timeout-valid slot old_lib new_lib grace_period bump none lib now default_config custom h =
    ground (arith, custom)
grace_timeout-valid slot old_lib new_lib grace_period bump (some t) lib now default_config custom
      h =
    ground (arith, custom)

-- The configuration before and after a change of the receive library, and which libraries are then
-- valid at a slot.
pub record IsHandover (env : Runtime) (params : SetReceiveLibraryParams) (s s' : Store)
    : Type 0 where
  pub old : ReceiveLibraryConfig
  pub new : ReceiveLibraryConfig
  pub before : s.receive_libraries (params.receiver, params.eid) ≡ some old
  pub now : s'.receive_libraries (params.receiver, params.eid) ≡ some new
  pub valid :
      (lib slot : ℕ) (default_config : ReceiveLibraryConfig)
      → is_valid_receive_library lib new default_config slot ≡ (
          lib == params.new_lib
          || (ltb 0 params.grace_period
              && (lib == old.message_lib && ltb slot (params.grace_period + env.slot))))

-- After an oapp has changed its receive library to one that is not the default, the new library is
-- valid at every slot, the old one exactly until the grace period, if there is one, has passed since
-- the change, and no other library is valid.
pub set_receive_library-IsHandover :
    (env : Runtime) (signer : ℕ) (with_info : Bool) (params : SetReceiveLibraryParams)
    (s s' : Store)
    → params.new_lib ≢ default_message_lib
    → set_receive_library env signer with_info params s ≡ ok s'
    → IsHandover env params s s'
unfolding set_receive_library
set_receive_library-IsHandover env signer with_info params s s' custom h =
    let (registry, e1, h1) = >>=-eq-ok (account (s.oapps params.receiver)) _ h in
    let (config, e2, h2) =
      >>=-eq-ok (account (s.receive_libraries (params.receiver, params.eid))) _ h1 in
    let (info, e3, h3) = >>=-eq-ok (optional with_info (s.message_libs params.new_lib)) _ h2 in
    let (u4, e4, h4) = >>=-eq-ok (require_oapp_or_delegate signer params.receiver registry) _ h3 in
    let (u5, e5, h5) =
      >>=-eq-ok
        (require (not (config.message_lib == params.new_lib))
          (layer_zero LayerZeroError.same_value))
        _ h4 in
    let (u6, e6, h6) = >>=-eq-ok (optionally require_receive_lib info) _ h5 in
    let (u7, e7, h7) = >>=-eq-ok (require_library params.new_lib info) _ h6 in
    let (timeout, e8, h8) =
      >>=-eq-ok (grace_timeout env.slot config.message_lib params.new_lib params.grace_period) _
        h7 in
    subst (IsHandover env params s) (ok-injective h8) (record {
      old = config;
      new = record config { message_lib = params.new_lib; timeout = timeout };
      before = account-eq-ok _ e2;
      now = write_self (params.receiver, params.eid) _ s.receive_libraries;
      valid = λ lib slot default_config.
          grace_timeout-valid env.slot config.message_lib params.new_lib params.grace_period
            config.bump timeout lib slot default_config custom e8;
    })
