-- ===== src/Uln/Commit.antt =====
-- programs/uln/src/instructions/dvn/commit_verification.rs, with `endpoint_verify::verify` of
-- libs/messagelib-helper: the ULN hands a verified packet to the endpoint. The program that the ULN's
-- settings name is called; it is the endpoint, so the call is the endpoint's `verify`, signed by the
-- ULN's address.
pub mod Sound
use lz_v2_audit.Prelude.{
  ℕ, ◌+◌, Option, none, some, List, ◌==◌, leb, if◌then◌else◌, length, get_elem?, take, drop, Result,
  ok, err, panic, account, require, ◌>>=◌, ◌>>◌, UlnError, uln, AnchorError, anchor,
}
use lz_v2_audit.Packet.{version, nonce, src_eid, sender, dst_eid, receiver, packet_version}
use lz_v2_audit.Endpoint.Store.{Store, Runtime}
use lz_v2_audit.Endpoint.Messaging
use lz_v2_audit.Uln.Config.{UlnConfig, default_uln_config, get_config}
use lz_v2_audit.Uln.Verification.{AccountInfo, Addresses, check_verifiable}
use lz_v2_audit.Uln.State.{UlnStore, ReceiveConfig}

pub record CommitVerificationParams : Type 0 where
  -- eighty-one bytes
  pub packet_header : List ℕ
  pub payload_hash : ℕ

-- `local_custom_config`: an account that was never initialised stands for the default value.
abbrev pub local_custom_config : Option ReceiveConfig → UlnConfig
local_custom_config none = default_uln_config
local_custom_config (some config) = config.uln

-- `get_receive_config`
abbrev pub get_receive_config : Option ReceiveConfig → ReceiveConfig → Result UlnConfig
get_receive_config custom default_config =
    get_config default_config.uln (local_custom_config custom)

-- `&accounts[0..n]` and `&accounts[n..]`
abbrev pub split_at : ℕ → List AccountInfo → Result (List AccountInfo × List AccountInfo)
split_at n accounts =
    if leb n (length accounts) then ok (take n accounts, drop n accounts) else panic

-- `Verify::construct_context`, which libs/cpi-helper/src/lib.rs derives: the program first, and then
-- the eight accounts of the endpoint's `Verify` with its `event_cpi`.
unfoldable pub construct_context : (program_id : ℕ) → List AccountInfo → Result (Unit {0})
construct_context program_id accounts = do
  program ← elim (get_elem? accounts 0) [ none ↦ panic | some info ↦ ok info.key ]
  require (program_id == program) (anchor AnchorError.invalid_program_id)
  require (leb 9 (length accounts)) (anchor AnchorError.account_not_enough_keys)

-- `endpoint_verify::verify`
unfoldable pub endpoint_verify :
    Runtime
    → (endpoint_program uln_key : ℕ) → List ℕ
    → (payload_hash : ℕ) → List AccountInfo
    → Store
    → Result Store
unfolding construct_context
endpoint_verify env endpoint_program uln_key packet_header payload_hash accounts s = do
  library ← elim (get_elem? accounts 1) [ none ↦ panic | some info ↦ ok info.key ]
  require (uln_key == library) (anchor AnchorError.constraint_address)
  src ← src_eid packet_header
  from ← sender packet_header
  to ← receiver packet_header
  number ← nonce packet_header
  construct_context endpoint_program accounts
  Messaging.verify env uln_key
      (record {
        src_eid = src;
        sender = from;
        receiver = to;
        nonce = number;
        payload_hash = payload_hash;
      })
      s

-- `CommitVerification::apply`; `uln_key` is the address of the ULN's own account.
unfoldable pub commit_verification :
    Runtime
    → Addresses
    → (uln_key : ℕ) → (remaining_accounts : List AccountInfo) → CommitVerificationParams
    → UlnStore
    → Store
    → Result Store
commit_verification env addresses uln_key remaining params u s = do
  src ← src_eid params.packet_header
  to ← receiver params.packet_header
  default_config ← account (u.default_receive_configs src)
  settings ← account u.uln
  config ← get_receive_config (u.receive_configs (to, src)) default_config
  v ← version params.packet_header
  require (v == packet_version) (uln UlnError.invalid_packet_version)
  dst ← dst_eid params.packet_header
  require (dst == settings.eid) (uln UlnError.invalid_eid)
  (confirmation_accounts, endpoint_accounts) ←
      split_at (length config.required_dvns + length config.optional_dvns) remaining
  verifiable ←
      check_verifiable addresses (env.keccak params.packet_header) params.payload_hash config
        confirmation_accounts
  require verifiable (uln UlnError.verifying)
  endpoint_verify env settings.endpoint_program uln_key params.packet_header params.payload_hash
      endpoint_accounts s
