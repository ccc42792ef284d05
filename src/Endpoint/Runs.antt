-- ===== src/Endpoint/Runs.antt =====
-- The endpoint on concrete accounts.
mod Channels
mod Histories
mod Handovers
use lz_v2_audit.Prelude.{
  ℕ, Option, none, some, List, [], ◌∷◌, length, Result, ok, err, panic, write, nat_eq, pair_eq,
}
use lz_v2_audit.Endpoint.State.{
  EndpointSettings, OappRegistry, MessageLibInfo, MessageLibType, SendLibraryConfig,
  ReceiveLibraryConfig, Nonce, PendingInboundNonce, PayloadHash, ComposeMessageState, MessagingFee,
}
use lz_v2_audit.Endpoint.Store.{Store, Runtime, ChannelKey, channel, PayloadKey}

-- A runtime whose hash of some bytes is their number, and whose library has one fee.
abbrev pub env : Runtime
env = record {
  program_id = 1;
  slot = 100;
  keccak = λ bytes. length bytes;
  library_address = λ program bump. some program;
  find_library_address = λ program. (program, 255);
  library_send = λ program params. ok (record { native_fee = 5; lz_token_fee = 0 }, 1 ∷ 2 ∷ []);
  library_send_with_lz_token =
      λ program params. ok (record { native_fee = 5; lz_token_fee = 6 }, []);
  library_quote = λ program params. ok (record { native_fee = 5; lz_token_fee = 0 });
}

-- The channel of the oapp 7, with the delegate 8, from the oapp 9 at the eid 2.
abbrev pub key : ChannelKey
key = channel 7 2 9

abbrev pub nonce_3 : Nonce
nonce_3 = record { bump = 0; outbound_nonce = 4; inbound_nonce = 3 }

abbrev pub pending_5 : PendingInboundNonce
pending_5 = record { nonces = 5 ∷ []; bump = 0 }

-- Nonces 1 to 3 and 5 are verified, 3 waits to be delivered with a one-byte message (33 bytes are
-- hashed), and the account of 4 is open.
abbrev pub ready : Store
ready = record {
  endpoint = some (record { eid = 1; bump = 0; admin = 4; lz_token_mint = none });
  oapps = write 7 (some (record { delegate = 8; bump = 0 })) (λ oapp. none);
  message_libs =
      write 20
        (some (record {
          message_lib_type = MessageLibType.send_and_receive;
          bump = 0;
          message_lib_bump = 0;
        }))
        (λ lib. none);
  send_libraries = write (7, 2) (some (record { message_lib = 20; bump = 0 })) (λ k. none);
  default_send_libraries = write 2 (some (record { message_lib = 20; bump = 0 })) (λ eid. none);
  receive_libraries =
      write (7, 2) (some (record { message_lib = 0; timeout = none; bump = 0 })) (λ k. none);
  default_receive_libraries =
      write 2 (some (record { message_lib = 20; timeout = none; bump = 0 })) (λ eid. none);
  nonces = write key (some nonce_3) (λ k. none);
  pendings = write key (some pending_5) (λ k. none);
  payload_hashes =
      write (key, 3) (some (record { hash = 33; bump = 0 }))
        (write (key, 4) (some (record { hash = 0; bump = 0 })) (λ k. none));
  compose_messages = λ k. none;
  log = [];
}

-- The store that an instruction leaves, or the old one.
abbrev pub after : Store → Result Store → Store
after s (ok t) = t
after s (err e) = s
after s panic = s
