-- ===== src/Endpoint/Messaging.antt =====
-- The inbound instructions of the endpoint: programs/endpoint/src/instructions/{init_verify,
-- verify}.rs and oapp/{init_nonce,skip,clear,nilify,burn}.rs. Each reads its accounts, checks the
-- constraints in the order of the account struct, and writes.
pub mod Library
use lz_v2_audit.Prelude.{
  ℕ, ◌++◌, ◌+◌, List, [], none, some, Bool, true, false, not, ◌==◌, ltb, leb, if◌then◌else◌, Result,
  ok, err, require, account, fresh, checked_add, ◌>>=◌, ◌>>◌, LayerZeroError, layer_zero,
  AnchorError, anchor, write, nat_eq, pair_eq,
}
use lz_v2_audit.Bytes.{be_bytes}
use lz_v2_audit.Endpoint.State.{
  OappRegistry, Nonce, PendingInboundNonce, PayloadHash, empty_payload_hash, nil_payload_hash,
}
use lz_v2_audit.Endpoint.Events.{
  Event, packet_verified, packet_delivered, inbound_nonce_skipped, packet_nilified, packet_burnt,
}
use lz_v2_audit.Endpoint.Channel.{insert_pending_inbound_nonce}
use lz_v2_audit.Endpoint.Store.{Store, Runtime, channel, emit, require_oapp_or_delegate}
use lz_v2_audit.Endpoint.Messaging.Library.{is_valid_receive_library}

pub record InitNonceParams : Type 0 where
  pub local_oapp : ℕ
  pub remote_eid : ℕ
  pub remote_oapp : ℕ

pub record InitVerifyParams : Type 0 where
  pub src_eid : ℕ
  pub sender : ℕ
  pub receiver : ℕ
  pub nonce : ℕ

pub record VerifyParams : Type 0 where
  pub src_eid : ℕ
  pub sender : ℕ
  pub receiver : ℕ
  pub nonce : ℕ
  pub payload_hash : ℕ

pub record SkipParams : Type 0 where
  pub receiver : ℕ
  pub src_eid : ℕ
  pub sender : ℕ
  pub nonce : ℕ

pub record ClearParams : Type 0 where
  pub receiver : ℕ
  pub src_eid : ℕ
  pub sender : ℕ
  pub nonce : ℕ
  pub guid : ℕ
  pub message : List ℕ

pub record NilifyParams : Type 0 where
  pub receiver : ℕ
  pub src_eid : ℕ
  pub sender : ℕ
  pub nonce : ℕ
  pub payload_hash : ℕ

pub record BurnParams : Type 0 where
  pub receiver : ℕ
  pub src_eid : ℕ
  pub sender : ℕ
  pub nonce : ℕ
  pub payload_hash : ℕ

-- `InitNonce::apply`, with the bumps of the two new accounts.
unfoldable pub init_nonce :
    (delegate bump pending_bump : ℕ) → InitNonceParams → Store → Result Store
init_nonce delegate bump pending_bump params s = do
  let key = channel params.local_oapp params.remote_eid params.remote_oapp
  registry ← account (s.oapps params.local_oapp)
  fresh (s.nonces key)
  fresh (s.pendings key)
  require (registry.delegate == delegate) (anchor AnchorError.constraint_has_one)
  ok (record s {
    nonces =
        write key (some (record { bump = bump; outbound_nonce = 0; inbound_nonce = 0 })) s.nonces;
    pendings = write key (some (record { nonces = []; bump = pending_bump })) s.pendings;
  })

-- `InitVerify::apply`, with the bump of the new account. Anyone may pay for it.
unfoldable pub init_verify : (bump : ℕ) → InitVerifyParams → Store → Result Store
init_verify bump params s = do
  let key = channel params.receiver params.src_eid params.sender
  nonce ← account (s.nonces key)
  fresh (s.payload_hashes (key, params.nonce))
  require (ltb nonce.inbound_nonce params.nonce) (anchor AnchorError.constraint_raw)
  ok (record s {
    payload_hashes =
        write (key, params.nonce) (some (record { hash = empty_payload_hash; bump = bump }))
          s.payload_hashes;
  })

-- `if params.nonce > nonce.inbound_nonce { insert_pending_inbound_nonce(...)? }`
unfoldable pub insert_if_above :
    PendingInboundNonce → ℕ → Nonce → Result (PendingInboundNonce × Nonce)
insert_if_above pending new nonce =
    if ltb nonce.inbound_nonce new
    then insert_pending_inbound_nonce pending new nonce
    else ok (pending, nonce)

-- `Verify::apply`; the signer is the receive library.
unfoldable pub verify : Runtime → (receive_library : ℕ) → VerifyParams → Store → Result Store
unfolding insert_if_above
verify env receive_library params s = do
  let key = channel params.receiver params.src_eid params.sender
  config ← account (s.receive_libraries (params.receiver, params.src_eid))
  default_config ← account (s.default_receive_libraries params.src_eid)
  nonce ← account (s.nonces key)
  pending ← account (s.pendings key)
  payload ← account (s.payload_hashes (key, params.nonce))
  require (is_valid_receive_library receive_library config default_config env.slot)
      (layer_zero LayerZeroError.invalid_receive_library)
  require (not (params.payload_hash == empty_payload_hash))
      (layer_zero LayerZeroError.invalid_payload_hash)
  (pending', nonce') ← insert_if_above pending params.nonce nonce
  ok (
      emit
        (packet_verified params.src_eid params.sender params.receiver params.nonce
          params.payload_hash)
        (record s {
          nonces = write key (some nonce') s.nonces;
          pendings = write key (some pending') s.pendings;
          payload_hashes =
              write (key, params.nonce) (some (record payload { hash = params.payload_hash }))
                s.payload_hashes;
        }))

-- `Skip::apply`; the payload hash account is closed.
unfoldable pub skip : (signer : ℕ) → SkipParams → Store → Result Store
skip signer params s = do
  let key = channel params.receiver params.src_eid params.sender
  registry ← account (s.oapps params.receiver)
  nonce ← account (s.nonces key)
  pending ← account (s.pendings key)
  payload ← account (s.payload_hashes (key, params.nonce))
  settings ← account s.endpoint
  require_oapp_or_delegate signer params.receiver registry
  next ← checked_add 64 nonce.inbound_nonce 1
  require (params.nonce == next) (layer_zero LayerZeroError.invalid_nonce)
  (pending', nonce') ← insert_pending_inbound_nonce pending params.nonce nonce
  ok (
      emit (inbound_nonce_skipped params.src_eid params.sender params.receiver params.nonce)
        (record s {
          nonces = write key (some nonce') s.nonces;
          pendings = write key (some pending') s.pendings;
          payload_hashes = write (key, params.nonce) none s.payload_hashes;
        }))

-- `hashv(&[&guid[..], &message[..]])`
abbrev pub hash_payload : Runtime → ℕ → List ℕ → ℕ
hash_payload env guid message = env.keccak (be_bytes 32 guid ++ message)

-- `Clear::apply`, which returns the payload hash; its account is closed.
unfoldable pub clear : Runtime → (signer : ℕ) → ClearParams → Store → Result (Store × ℕ)
clear env signer params s = do
  let key = channel params.receiver params.src_eid params.sender
  registry ← account (s.oapps params.receiver)
  nonce ← account (s.nonces key)
  payload ← account (s.payload_hashes (key, params.nonce))
  settings ← account s.endpoint
  require_oapp_or_delegate signer params.receiver registry
  require (leb params.nonce nonce.inbound_nonce) (layer_zero LayerZeroError.invalid_nonce)
  let payload_hash = hash_payload env params.guid params.message
  require (payload_hash == payload.hash) (layer_zero LayerZeroError.payload_hash_not_found)
  ok (
    emit (packet_delivered params.src_eid params.sender params.receiver params.nonce)
        (record s { payload_hashes = write (key, params.nonce) none s.payload_hashes }),
    payload_hash,
  )

-- `Nilify::apply`
unfoldable pub nilify : (signer : ℕ) → NilifyParams → Store → Result Store
unfolding insert_if_above
nilify signer params s = do
  let key = channel params.receiver params.src_eid params.sender
  registry ← account (s.oapps params.receiver)
  nonce ← account (s.nonces key)
  pending ← account (s.pendings key)
  payload ← account (s.payload_hashes (key, params.nonce))
  require_oapp_or_delegate signer params.receiver registry
  require (payload.hash == params.payload_hash) (layer_zero LayerZeroError.payload_hash_not_found)
  (pending', nonce') ← insert_if_above pending params.nonce nonce
  ok (
      emit
        (packet_nilified params.src_eid params.sender params.receiver params.nonce
          params.payload_hash)
        (record s {
          nonces = write key (some nonce') s.nonces;
          pendings = write key (some pending') s.pendings;
          payload_hashes =
              write (key, params.nonce) (some (record payload { hash = nil_payload_hash }))
                s.payload_hashes;
        }))

-- `Burn::apply`; the payload hash account is closed.
unfoldable pub burn : (signer : ℕ) → BurnParams → Store → Result Store
burn signer params s = do
  let key = channel params.receiver params.src_eid params.sender
  registry ← account (s.oapps params.receiver)
  nonce ← account (s.nonces key)
  payload ← account (s.payload_hashes (key, params.nonce))
  settings ← account s.endpoint
  require_oapp_or_delegate signer params.receiver registry
  require (leb params.nonce nonce.inbound_nonce) (layer_zero LayerZeroError.invalid_nonce)
  require (payload.hash == params.payload_hash) (layer_zero LayerZeroError.payload_hash_not_found)
  ok (
      emit
        (packet_burnt params.src_eid params.sender params.receiver params.nonce params.payload_hash)
        (record s { payload_hashes = write (key, params.nonce) none s.payload_hashes }))
