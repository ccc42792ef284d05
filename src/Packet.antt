-- ===== src/Packet.antt =====
-- libs/messagelib-helper/src/packet_v1_codec.rs: the wire format of a packet.
pub mod RoundTrip
mod Runs
use lz_v2_audit.Prelude.{
  ℕ, List, [], ◌∷◌, ◌++◌, length, drop, Result, ok, panic, leb, if◌then◌else◌,
}
use lz_v2_audit.Bytes.{be_bytes, slice, to_u8, to_u32, to_u64, to_bytes32}
use lz_v2_audit.Endpoint.State.{Packet}

abbrev pub packet_version : ℕ
packet_version = 1

abbrev pub packet_header_size : ℕ
packet_header_size = 81

unfoldable pub encode_packet_header : Packet → List ℕ
encode_packet_header p =
    be_bytes 1 packet_version
    ++ (be_bytes 8 p.nonce
        ++ (be_bytes 4 p.src_eid
            ++ (be_bytes 32 p.sender ++ (be_bytes 4 p.dst_eid ++ be_bytes 32 p.receiver))))

unfoldable pub encode : Packet → List ℕ
encode p =
    be_bytes 1 packet_version
    ++ (be_bytes 8 p.nonce
        ++ (be_bytes 4 p.src_eid
            ++ (be_bytes 32 p.sender
                ++ (be_bytes 4 p.dst_eid
                    ++ (be_bytes 32 p.receiver ++ (be_bytes 32 p.guid ++ p.message))))))

-- `&packet[start..]`
unfoldable pub slice_from : ℕ → List ℕ → Result (List ℕ)
slice_from start packet = if leb start (length packet) then ok (drop start packet) else panic

unfoldable pub header : List ℕ → Result (List ℕ)
header packet = slice 0 81 packet

unfoldable pub version : List ℕ → Result ℕ
version packet = to_u8 packet 0

unfoldable pub nonce : List ℕ → Result ℕ
nonce packet = to_u64 packet 1

unfoldable pub src_eid : List ℕ → Result ℕ
src_eid packet = to_u32 packet 9

-- `sender` and `sender_pubkey`
unfoldable pub sender : List ℕ → Result ℕ
sender packet = to_bytes32 packet 13

unfoldable pub dst_eid : List ℕ → Result ℕ
dst_eid packet = to_u32 packet 45

-- `receiver` and `receiver_pubkey`
unfoldable pub receiver : List ℕ → Result ℕ
receiver packet = to_bytes32 packet 49

unfoldable pub guid : List ℕ → Result ℕ
guid packet = to_bytes32 packet 81

unfoldable pub message : List ℕ → Result (List ℕ)
message packet = slice_from 113 packet

unfoldable pub payload : List ℕ → Result (List ℕ)
payload packet = slice_from 81 packet
