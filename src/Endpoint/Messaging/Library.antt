-- ===== src/Endpoint/Messaging/Library.antt =====
-- `is_valid_receive_library` of programs/endpoint/src/instructions/verify.rs.
use lz_v2_audit.Prelude.{ℕ, Bool, true, false, Option, none, some, ◌==◌, ◌&&◌, ltb, if◌then◌else◌}
use lz_v2_audit.Endpoint.State.{ReceiveLibraryConfig, ReceiveLibraryTimeout, default_message_lib}

-- A library that was replaced stays valid until its timeout expires.
in_grace_period : Option ReceiveLibraryTimeout → ℕ → ℕ → Bool
in_grace_period none actual slot = false
in_grace_period (some timeout) actual slot =
    timeout.message_lib == actual && ltb slot timeout.expiry

unfoldable pub is_valid_receive_library : ℕ → ReceiveLibraryConfig → ReceiveLibraryConfig → ℕ → Bool
unfolding in_grace_period
is_valid_receive_library actual config default_config slot =
    let is_default = config.message_lib == default_message_lib in
    let expected = if is_default then default_config.message_lib else config.message_lib in
    let timeout = if is_default then default_config.timeout else config.timeout in
    if actual == expected then true else in_grace_period timeout actual slot
