-- ===== src/Endpoint/Store.antt =====
-- The accounts of the endpoint program by their seeds, and what the instructions take from the
-- runtime. The seeds are those of the `seeds = [...]` attributes; that different seeds are
-- different accounts is what a program-derived address promises.
use lz_v2_audit.Prelude.{
  ℕ, List, Option, ◌∷◌, ◌||◌, ◌==◌, Bool, Result, require, LayerZeroError, layer_zero,
}
use lz_v2_audit.Endpoint.State.{
  EndpointSettings, OappRegistry, MessageLibInfo, SendLibraryConfig, ReceiveLibraryConfig, Nonce,
  PendingInboundNonce, PayloadHash, ComposeMessageState, Packet, MessagingFee,
}
use lz_v2_audit.Endpoint.Events.{Event}

-- (local oapp, (remote eid, remote oapp))
abbrev pub ChannelKey : Type 0
ChannelKey = ℕ × (ℕ × ℕ)

-- The seeds that name a channel: the local oapp, the remote eid and the remote oapp.
abbrev pub channel : ℕ → ℕ → ℕ → ChannelKey
channel oapp eid remote = (oapp, (eid, remote))

-- A channel and a nonce.
abbrev pub PayloadKey : Type 0
PayloadKey = ChannelKey × ℕ

-- (from, (to, (guid, (index, message hash))))
abbrev pub ComposeKey : Type 0
ComposeKey = ℕ × (ℕ × (ℕ × (ℕ × ℕ)))

abbrev pub compose_key : ℕ → ℕ → ℕ → ℕ → ℕ → ComposeKey
compose_key from to guid index hash = (from, (to, (guid, (index, hash))))

pub record Store : Type 0 where
  pub endpoint : Option EndpointSettings
  pub oapps : ℕ → Option OappRegistry
  pub message_libs : ℕ → Option MessageLibInfo
  pub send_libraries : ℕ × ℕ → Option SendLibraryConfig
  pub default_send_libraries : ℕ → Option SendLibraryConfig
  pub receive_libraries : ℕ × ℕ → Option ReceiveLibraryConfig
  pub default_receive_libraries : ℕ → Option ReceiveLibraryConfig
  pub nonces : ChannelKey → Option Nonce
  pub pendings : ChannelKey → Option PendingInboundNonce
  pub payload_hashes : PayloadKey → Option PayloadHash
  pub compose_messages : ComposeKey → Option ComposeMessageState
  -- The events of all transactions, the last one first.
  pub log : List Event

-- `emit_cpi!`
abbrev pub emit : Event → Store → Store
emit e s = record s { log = e ∷ s.log }

-- messagelib_interface::SendParams and SendWithLzTokenParams.
pub record LibrarySendParams : Type 0 where
  pub packet : Packet
  pub options : List ℕ
  pub native_fee : ℕ

pub record LibrarySendWithLzTokenParams : Type 0 where
  pub packet : Packet
  pub options : List ℕ
  pub native_fee : ℕ
  pub lz_token_fee : ℕ
  pub lz_token_mint : ℕ

pub record LibraryQuoteParams : Type 0 where
  pub packet : Packet
  pub options : List ℕ
  pub pay_in_lz_token : Bool

-- What is not the endpoint's: the clock, the hash function, program-derived addresses, and the
-- message libraries that it calls, each by the address of its program.
pub record Runtime : Type 0 where
  pub program_id : ℕ
  pub slot : ℕ
  pub keccak : List ℕ → ℕ
  -- `Pubkey::create_program_address(&[MESSAGE_LIB_SEED, &[bump]], program)`
  pub library_address : ℕ → ℕ → Option ℕ
  -- `Pubkey::find_program_address(&[MESSAGE_LIB_SEED], program)`, the address and its bump
  pub find_library_address : ℕ → ℕ × ℕ
  pub library_send : ℕ → LibrarySendParams → Result (MessagingFee × List ℕ)
  pub library_send_with_lz_token : ℕ → LibrarySendWithLzTokenParams → Result (MessagingFee × List ℕ)
  pub library_quote : ℕ → LibraryQuoteParams → Result MessagingFee

-- `signer.key() == oapp || signer.key() == oapp_registry.delegate @LayerZeroError::Unauthorized`
abbrev pub require_oapp_or_delegate : ℕ → ℕ → OappRegistry → Result (Unit {0})
require_oapp_or_delegate signer oapp registry =
    require (signer == oapp || signer == registry.delegate) (layer_zero LayerZeroError.unauthorized)
