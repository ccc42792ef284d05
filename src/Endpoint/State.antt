-- ===== src/Endpoint/State.antt =====
-- programs/endpoint/src/state: the account types of the endpoint program, with the message types of
-- programs/messagelib-interface/src/lib.rs. A public key and a 32-byte array are each the number
-- that their bytes spell in big-endian order; the stored bumps are kept, and the seeds that they
-- complete are in the store (Endpoint/Store.antt).
use lz_v2_audit.Prelude.{ℕ, ◌-◌, ◌^◌, Bool, Option, List}

-- `Pubkey::new_from_array([0u8; 32])`
abbrev pub default_message_lib : ℕ
default_message_lib = 0

abbrev pub empty_payload_hash : ℕ
empty_payload_hash = 0

-- `[0xffu8; 32]`
abbrev pub nil_payload_hash : ℕ
nil_payload_hash = 2 ^ 256 - 1

abbrev pub pending_inbound_nonce_max_len : ℕ
pending_inbound_nonce_max_len = 256

pub data MessageLibType : Type 0 where
  send receive send_and_receive : MessageLibType

pub record EndpointSettings : Type 0 where
  pub eid : ℕ
  pub bump : ℕ
  pub admin : ℕ
  pub lz_token_mint : Option ℕ

pub record OappRegistry : Type 0 where
  pub delegate : ℕ
  pub bump : ℕ

pub record MessageLibInfo : Type 0 where
  pub message_lib_type : MessageLibType
  pub bump : ℕ
  pub message_lib_bump : ℕ

pub record SendLibraryConfig : Type 0 where
  pub message_lib : ℕ
  pub bump : ℕ

pub record ReceiveLibraryTimeout : Type 0 where
  pub message_lib : ℕ
  pub expiry : ℕ

pub record ReceiveLibraryConfig : Type 0 where
  pub message_lib : ℕ
  pub timeout : Option ReceiveLibraryTimeout
  pub bump : ℕ

pub record Nonce : Type 0 where
  pub bump : ℕ
  pub outbound_nonce : ℕ
  pub inbound_nonce : ℕ

pub record PendingInboundNonce : Type 0 where
  pub nonces : List ℕ
  pub bump : ℕ

pub record PayloadHash : Type 0 where
  pub hash : ℕ
  pub bump : ℕ

pub record ComposeMessageState : Type 0 where
  pub received : Bool
  pub bump : ℕ

pub record Packet : Type 0 where
  pub nonce : ℕ
  pub src_eid : ℕ
  pub sender : ℕ
  pub dst_eid : ℕ
  pub receiver : ℕ
  pub guid : ℕ
  pub message : List ℕ

pub record MessagingFee : Type 0 where
  pub native_fee : ℕ
  pub lz_token_fee : ℕ

pub record MessagingReceipt : Type 0 where
  pub guid : ℕ
  pub nonce : ℕ
  pub fee : MessagingFee
