-- ===== src/Uln/Runs/Commits.antt =====
-- A packet header that is committed to the endpoint.
use lz_v2_audit.Prelude.{
  ℕ, ◌≡◌, refl, none, some, List, [], ◌∷◌, ◌++◌, Result, ok, write, write-at, nat_eq, pair_eq,
}
use lz_v2_audit.Bytes.{be_bytes, slice, to_uint, to_u8}
use lz_v2_audit.Packet.{encode_packet_header, version, nonce, src_eid, sender, dst_eid, receiver}
use lz_v2_audit.SortedList.{binary_search}
use lz_v2_audit.Endpoint.State.{Packet}
use lz_v2_audit.Endpoint.Store.{Store}
use lz_v2_audit.Endpoint.Channel.{insert_pending_inbound_nonce}
use lz_v2_audit.Endpoint.Messaging
use lz_v2_audit.Endpoint.Messaging.Library.{is_valid_receive_library}
use lz_v2_audit.Endpoint.Runs.{env, ready, after}
use lz_v2_audit.Uln.Config.{set_config, set_default_config, assert_no_duplicates, get_config}
use lz_v2_audit.Uln.Config.Resolve.{IsDefault, set_default_config-IsDefault}
use lz_v2_audit.Uln.Verification.{AccountInfo, verified, verified_at, check_verifiable}
use lz_v2_audit.Uln.State.{UlnStore}
use lz_v2_audit.Uln.Commit.{
  CommitVerificationParams, construct_context, endpoint_verify, commit_verification,
}
use lz_v2_audit.Uln.Admin.Accepted.{IsUlnStore, OnReceive}
use lz_v2_audit.Uln.Commit.Sound.{IsCommitted, commit_verification_sound}
use lz_v2_audit.Uln.Runs.{default_config, addresses, accounts}

abbrev packet_4 : Packet
packet_4 = record {
  nonce = 4;
  src_eid = 2;
  sender = 9;
  dst_eid = 1;
  receiver = 7;
  guid = 0;
  message = [];
}

abbrev params_4 : CommitVerificationParams
params_4 = record { packet_header = encode_packet_header packet_4; payload_hash = 500 }

abbrev uln_store : UlnStore
uln_store = record {
  uln = some (record {
    eid = 1;
    endpoint = 0;
    endpoint_program = 1;
    bump = 0;
    admin = 4;
    treasury = none;
  });
  default_send_configs = λ eid. none;
  send_configs = λ key. none;
  default_receive_configs =
      write 2 (some (record { bump = 0; uln = default_config })) (λ eid. none);
  receive_configs = λ key. none;
  confirmations = λ key. none;
  log = [];
}

abbrev account_of : ℕ → AccountInfo
account_of key = record { key = key; owner = 1; content = Result.panic }

abbrev remaining : List AccountInfo
remaining =
    accounts
    ++ (account_of 1
        ∷ account_of 20
        ∷ account_of 21
        ∷ account_of 22
        ∷ account_of 23
        ∷ account_of 24
        ∷ account_of 25
        ∷ account_of 26
        ∷ account_of 1
        ∷ [])

abbrev committed : Store
committed = after ready (commit_verification env addresses 20 remaining params_4 uln_store ready)

committed_4 : commit_verification env addresses 20 remaining params_4 uln_store ready ≡ ok committed
unfolding commit_verification endpoint_verify construct_context src_eid receiver version dst_eid
    sender nonce encode_packet_header be_bytes to_u8 to_uint slice get_config check_verifiable
    verified_at verified Messaging.verify is_valid_receive_library insert_pending_inbound_nonce
    binary_search
committed_4 = refl

accepted : set_default_config default_config ≡ ok default_config
unfolding set_default_config set_config assert_no_duplicates
accepted = refl

uln_store-IsUlnStore : IsUlnStore uln_store
uln_store-IsUlnStore = record {
  defaults = λ eid.
      write-at (OnReceive IsDefault) 2 eid (some (record { bump = 0; uln = default_config }))
        (λ k. none) (λ same. set_default_config-IsDefault default_config default_config accepted)
        tt;
  customs = λ key. tt;
  send_defaults = λ eid. tt;
  send_customs = λ key. tt;
  treasury_bps = tt;
}

commit_verification_sound_example : IsCommitted env addresses remaining params_4 uln_store committed
commit_verification_sound_example =
    commit_verification_sound env addresses 20 remaining params_4 uln_store ready committed
      uln_store-IsUlnStore committed_4
