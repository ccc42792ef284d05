-- ===== src/Packet/RoundTrip.antt =====
-- Every field of an encoded packet is read back.
use mathlib.Core.List.{append_assoc}
use lz_v2_audit.Prelude.{
  ℕ, ◌+◌, ◌^◌, ◌≤◌, ◌<◌, ◌≡◌, ◌∙◌, refl, ap, List, [], ◌++◌, length, length-append, ok, arith,
  le→leb,
}
use lz_v2_audit.Bytes.{be_bytes, to_uint, to_u8}
use lz_v2_audit.Bytes.Laws.{
  length-be_bytes, to_uint-behind, to_uint-first, slice-append, drop-behind,
}
use lz_v2_audit.Endpoint.State.{Packet}
use lz_v2_audit.Packet.{
  packet_version, encode, encode_packet_header, header, version, nonce, src_eid, sender, dst_eid,
  receiver, guid, message, slice_from, packet_header_size,
}

-- The words of a packet fit their widths.
pub record IsPacket (p : Packet) : Type 0 where
  pub nonce_word : p.nonce < 2 ^ 64
  pub src_word : p.src_eid < 2 ^ 32
  pub sender_word : p.sender < 2 ^ 256
  pub dst_word : p.dst_eid < 2 ^ 32
  pub receiver_word : p.receiver < 2 ^ 256
  pub guid_word : p.guid < 2 ^ 256

module _ (v n s a d r : ℕ) (rest : List ℕ) where
  -- The six header fields in front of any rest.
  abbrev fields : List ℕ
  fields =
      be_bytes 1 v
      ++ (be_bytes 8 n
          ++ (be_bytes 4 s ++ (be_bytes 32 a ++ (be_bytes 4 d ++ (be_bytes 32 r ++ rest)))))

  nonce_field : n < 2 ^ 64 → to_uint 8 1 fields ≡ ok n
  nonce_field h = to_uint-behind 1 v _ 8 1 0 refl ∙ to_uint-first 8 n _ h

  src_eid_field : s < 2 ^ 32 → to_uint 4 9 fields ≡ ok s
  src_eid_field h =
      to_uint-behind 1 v _ 4 9 8 refl ∙ to_uint-behind 8 n _ 4 8 0 refl ∙ to_uint-first 4 s _ h

  sender_field : a < 2 ^ 256 → to_uint 32 13 fields ≡ ok a
  sender_field h =
      to_uint-behind 1 v _ 32 13 12 refl
      ∙ to_uint-behind 8 n _ 32 12 4 refl
      ∙ to_uint-behind 4 s _ 32 4 0 refl
      ∙ to_uint-first 32 a _ h

  behind_sender :
      (width k : ℕ)
      → to_uint width (45 + k) fields ≡ to_uint width k (be_bytes 4 d ++ (be_bytes 32 r ++ rest))
  behind_sender width k =
      to_uint-behind 1 v _ width (45 + k) (44 + k) (omega arith)
      ∙ to_uint-behind 8 n _ width (44 + k) (36 + k) (omega arith)
      ∙ to_uint-behind 4 s _ width (36 + k) (32 + k) (omega arith)
      ∙ to_uint-behind 32 a _ width (32 + k) k (omega arith)

  dst_eid_field : d < 2 ^ 32 → to_uint 4 45 fields ≡ ok d
  dst_eid_field h = behind_sender 4 0 ∙ to_uint-first 4 d _ h

  receiver_field : r < 2 ^ 256 → to_uint 32 49 fields ≡ ok r
  receiver_field h = behind_sender 32 4 ∙ to_uint-behind 4 d _ 32 4 0 refl ∙ to_uint-first 32 r _ h

  behind_header : (width k : ℕ) → to_uint width (81 + k) fields ≡ to_uint width k rest
  behind_header width k =
      ap (λ (i : ℕ). to_uint width i fields) shifted
      ∙ behind_sender width (36 + k)
      ∙ to_uint-behind 4 d _ width (36 + k) (32 + k) (omega arith)
      ∙ to_uint-behind 32 r _ width (32 + k) k (omega arith)
    where
      shifted : 81 + k ≡ 45 + (36 + k)
      shifted = omega arith

  version_field : v < 256 → to_u8 fields 0 ≡ ok v
  unfolding to_u8 be_bytes
  version_field h = ap ok (omega arith)

encode-header :
    (p : Packet) → encode p ≡ encode_packet_header p ++ (be_bytes 32 p.guid ++ p.message)
unfolding encode encode_packet_header
encode-header p = simp append_assoc

pub length-header : (p : Packet) → length (encode_packet_header p) ≡ packet_header_size
unfolding encode_packet_header
length-header p = simp (length-append, length-be_bytes)

header_field : (p : Packet) → header (encode p) ≡ ok (encode_packet_header p)
unfolding header
header_field p = rw (encode-header p) (
    slice-append [] (encode_packet_header p) (be_bytes 32 p.guid ++ p.message) 0 81 refl
      (length-header p))

message_field : (p : Packet) → message (encode p) ≡ ok p.message
unfolding message slice_from
message_field p = rw (
  encode-header p,
  drop-behind (encode_packet_header p) _ 113 32 (omega (arith, length-header p)),
  drop-behind (be_bytes 32 p.guid) p.message 32 0 (omega (arith, length-be_bytes 32 p.guid)),
  le→leb 113 _ fits,
)
  where
    fits : 113 ≤ length (encode_packet_header p ++ (be_bytes 32 p.guid ++ p.message))
    fits = omega (
      arith,
      length-header p,
      length-append (encode_packet_header p) (be_bytes 32 p.guid ++ p.message),
      length-append (be_bytes 32 p.guid) p.message,
      length-be_bytes 32 p.guid,
    )

-- From the encoding of a packet whose words fit their widths the accessors read back the version,
-- each header field, the guid, the message, and the encoded header.
pub encode_round_trip :
    (p : Packet)
    → IsPacket p
    → (version (encode p) ≡ ok packet_version)
      × (nonce (encode p) ≡ ok p.nonce)
      × (src_eid (encode p) ≡ ok p.src_eid)
      × (sender (encode p) ≡ ok p.sender)
      × (dst_eid (encode p) ≡ ok p.dst_eid)
      × (receiver (encode p) ≡ ok p.receiver)
      × (guid (encode p) ≡ ok p.guid)
      × (message (encode p) ≡ ok p.message)
      × (header (encode p) ≡ ok (encode_packet_header p))
unfolding encode version nonce src_eid sender dst_eid receiver guid
encode_round_trip p w = (
  version_field packet_version p.nonce p.src_eid p.sender p.dst_eid p.receiver rest (omega arith),
  nonce_field packet_version p.nonce p.src_eid p.sender p.dst_eid p.receiver rest w.nonce_word,
  src_eid_field packet_version p.nonce p.src_eid p.sender p.dst_eid p.receiver rest w.src_word,
  sender_field packet_version p.nonce p.src_eid p.sender p.dst_eid p.receiver rest w.sender_word,
  dst_eid_field packet_version p.nonce p.src_eid p.sender p.dst_eid p.receiver rest w.dst_word,
  receiver_field packet_version p.nonce p.src_eid p.sender p.dst_eid p.receiver rest
      w.receiver_word,
  behind_header packet_version p.nonce p.src_eid p.sender p.dst_eid p.receiver rest 32 0
      ∙ to_uint-first 32 p.guid p.message w.guid_word,
  message_field p,
  header_field p,
)
  where
    rest : List ℕ
    rest = be_bytes 32 p.guid ++ p.message
