-- ===== src/Endpoint/Sending.antt =====
-- programs/endpoint/src/instructions/oapp/{send,quote}.rs: numbering a packet, choosing the send
-- library and calling it. The library is the runtime's; it runs in its own program and writes none
-- of the endpoint's accounts.
pub mod Quoting
use lz_v2_audit.Prelude.{
  ℕ, ◌++◌, List, [], ◌∷◌, Option, none, some, Bool, true, false, not, ◌||◌, ◌==◌, if◌then◌else◌,
  Result, ok, require, account, ok_or, checked_add, ◌>>=◌, ◌>>◌, LayerZeroError, layer_zero, write,
  nat_eq, pair_eq,
}
use lz_v2_audit.Bytes.{be_bytes}
use lz_v2_audit.Endpoint.State.{
  EndpointSettings, MessageLibInfo, SendLibraryConfig, Packet, MessagingFee, MessagingReceipt,
  default_message_lib,
}
use lz_v2_audit.Endpoint.Events.{packet_sent}
use lz_v2_audit.Endpoint.Store.{Store, Runtime, channel, emit}

pub record SendParams : Type 0 where
  pub dst_eid : ℕ
  pub receiver : ℕ
  pub message : List ℕ
  pub options : List ℕ
  pub native_fee : ℕ
  pub lz_token_fee : ℕ

pub record QuoteParams : Type 0 where
  pub sender : ℕ
  pub dst_eid : ℕ
  pub receiver : ℕ
  pub message : List ℕ
  pub options : List ℕ
  pub pay_in_lz_token : Bool

unfoldable pub get_guid : Runtime → (nonce src_eid sender dst_eid receiver : ℕ) → ℕ
get_guid env nonce src_eid sender dst_eid receiver = env.keccak (
    be_bytes 8 nonce
    ++ (be_bytes 4 src_eid ++ (be_bytes 32 sender ++ (be_bytes 4 dst_eid ++ be_bytes 32 receiver))))

unfoldable pub get_send_library : SendLibraryConfig → SendLibraryConfig → ℕ
get_send_library config default_config =
    if config.message_lib == default_message_lib
    then default_config.message_lib
    else config.message_lib

-- The configured library must be the address that the given program has with the stored bump.
unfoldable pub assert_send_library :
    Runtime → MessageLibInfo → ℕ → SendLibraryConfig → SendLibraryConfig → Result ℕ
unfolding get_send_library
assert_send_library env info program config default_config = do
  let send_library = get_send_library config default_config
  address ←
      ok_or (env.library_address program info.message_lib_bump)
        (layer_zero LayerZeroError.invalid_send_library)
  require (send_library == address) (layer_zero LayerZeroError.invalid_send_library)
  ok send_library

-- The packet that a nonce, the settings and the parameters make.
abbrev pub build_packet :
    Runtime → EndpointSettings → (nonce sender dst_eid receiver : ℕ) → List ℕ → Packet
build_packet env settings nonce sender dst_eid receiver message = record {
  nonce = nonce;
  src_eid = settings.eid;
  sender = sender;
  dst_eid = dst_eid;
  receiver = receiver;
  guid = get_guid env nonce settings.eid sender dst_eid receiver;
  message = message;
}

-- The call of the send library: `send` without a fee in the LZ token, `send_with_lz_token` with one.
unfoldable pub call_library :
    Runtime → EndpointSettings → ℕ → Packet → SendParams → Result (MessagingFee × List ℕ)
call_library env settings program packet params =
    if params.lz_token_fee == 0
    then env.library_send program
        (record { packet = packet; options = params.options; native_fee = params.native_fee })
    else (do
      mint ← ok_or settings.lz_token_mint (layer_zero LayerZeroError.lz_token_unavailable)
      env.library_send_with_lz_token program (record {
        packet = packet;
        options = params.options;
        native_fee = params.native_fee;
        lz_token_fee = params.lz_token_fee;
        lz_token_mint = mint;
      }))

-- `Send::apply`; `info_writable` is the flag of the library's account in the transaction.
unfoldable pub send :
    Runtime
    → (sender send_library_program : ℕ) (info_writable : Bool) → SendParams
    → Store
    → Result (Store × MessagingReceipt)
unfolding call_library assert_send_library
send env sender program info_writable params s = do
  let key = channel sender params.dst_eid params.receiver
  config ← account (s.send_libraries (sender, params.dst_eid))
  default_config ← account (s.default_send_libraries params.dst_eid)
  info ← account (s.message_libs (get_send_library config default_config))
  settings ← account s.endpoint
  nonce ← account (s.nonces key)
  require (not info_writable) (layer_zero LayerZeroError.read_only_account)
  outbound_nonce ← checked_add 64 nonce.outbound_nonce 1
  let packet =
      build_packet env settings outbound_nonce sender params.dst_eid params.receiver params.message
  send_library ← assert_send_library env info program config default_config
  (fee, encoded_packet) ← call_library env settings program packet params
  ok (
    emit (packet_sent encoded_packet params.options send_library) (record s {
      nonces = write key (some (record nonce { outbound_nonce = outbound_nonce })) s.nonces;
    }),
    record { guid = packet.guid; nonce = outbound_nonce; fee = fee },
  )

-- No account that is passed on to the library is writable.
pub require_read_only : List Bool → Result (Unit {0})
require_read_only [] = ok tt
require_read_only (writable ∷ rest) =
    require (not writable) (layer_zero LayerZeroError.writable_account_not_allowed)
    >> require_read_only rest

abbrev is_some : Option ℕ → Bool
is_some none = false
is_some (some mint) = true

-- `Quote::apply`, with the flags of the remaining accounts.
unfoldable pub quote :
    Runtime
    → (send_library_program : ℕ) (info_writable : Bool) (remaining_writable : List Bool)
    → QuoteParams
    → Store
    → Result MessagingFee
unfolding assert_send_library require_read_only
quote env program info_writable remaining_writable params s = do
  let key = channel params.sender params.dst_eid params.receiver
  config ← account (s.send_libraries (params.sender, params.dst_eid))
  default_config ← account (s.default_send_libraries params.dst_eid)
  info ← account (s.message_libs (get_send_library config default_config))
  settings ← account s.endpoint
  nonce ← account (s.nonces key)
  require (not info_writable) (layer_zero LayerZeroError.read_only_account)
  require_read_only remaining_writable
  next ← checked_add 64 nonce.outbound_nonce 1
  let packet =
      build_packet env settings next params.sender params.dst_eid params.receiver params.message
  send_library ← assert_send_library env info program config default_config
  require (not params.pay_in_lz_token || is_some settings.lz_token_mint)
      (layer_zero LayerZeroError.lz_token_unavailable)
  env.library_quote program (record {
    packet = packet;
    options = params.options;
    pay_in_lz_token = params.pay_in_lz_token;
  })
