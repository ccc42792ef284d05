-- ===== src/Endpoint/Runs/Handovers.antt =====
-- A change of the receive library, with a grace period.
use lz_v2_audit.Prelude.{◌≡◌, refl, some, none, true, ok, write, nat_eq, pair_eq, arith}
use lz_v2_audit.Endpoint.Store.{Store}
use lz_v2_audit.Endpoint.Libraries.{SetReceiveLibraryParams, set_receive_library}
use lz_v2_audit.Endpoint.Libraries.Handover.{IsHandover, set_receive_library-IsHandover}
use lz_v2_audit.Endpoint.Runs.{env, ready, after}

-- The oapp 7 receives through the library 21, and changes to 20.
abbrev settled : Store
settled = record ready {
  receive_libraries =
      write (7, 2) (some (record { message_lib = 21; timeout = none; bump = 0 })) (λ k. none);
}

abbrev change : SetReceiveLibraryParams
change = record { receiver = 7; eid = 2; new_lib = 20; grace_period = 50 }

abbrev changed : Store
changed = after settled (set_receive_library env 8 true change settled)

changes : set_receive_library env 8 true change settled ≡ ok changed
unfolding set_receive_library
changes = refl

set_receive_library-IsHandover_example : IsHandover env change settled changed
set_receive_library-IsHandover_example =
    set_receive_library-IsHandover env 8 true change settled changed (λ same. omega (arith, same))
      changes
