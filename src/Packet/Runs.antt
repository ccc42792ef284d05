-- ===== src/Packet/Runs.antt =====
-- The wire format on a concrete packet.
use lz_v2_audit.Prelude.{◌≡◌, refl, [], ◌∷◌, length, ok, arith}
use lz_v2_audit.Bytes.{be_bytes}
use lz_v2_audit.Endpoint.State.{Packet}
use lz_v2_audit.Packet.{
  packet_version, encode, encode_packet_header, header, version, nonce, src_eid, sender, dst_eid,
  receiver, guid, message,
}
use lz_v2_audit.Packet.RoundTrip.{encode_round_trip}

abbrev hello : Packet
hello = record {
  nonce = 258;
  src_eid = 30101;
  sender = 7;
  dst_eid = 30168;
  receiver = 9;
  guid = 77;
  message = 104 ∷ 105 ∷ [];
}

length-encode-hello : length (encode hello) ≡ 115
unfolding encode be_bytes
length-encode-hello = refl

encode_round_trip_example :
    (version (encode hello) ≡ ok packet_version)
    × (nonce (encode hello) ≡ ok 258)
    × (src_eid (encode hello) ≡ ok 30101)
    × (sender (encode hello) ≡ ok 7)
    × (dst_eid (encode hello) ≡ ok 30168)
    × (receiver (encode hello) ≡ ok 9)
    × (guid (encode hello) ≡ ok 77)
    × (message (encode hello) ≡ ok (104 ∷ 105 ∷ []))
    × (header (encode hello) ≡ ok (encode_packet_header hello))
encode_round_trip_example = encode_round_trip hello (record {
  nonce_word = omega arith;
  src_word = omega arith;
  sender_word = omega arith;
  dst_word = omega arith;
  receiver_word = omega arith;
  guid_word = omega arith;
})
