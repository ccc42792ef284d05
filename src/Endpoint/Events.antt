-- ===== src/Endpoint/Events.antt =====
-- programs/endpoint/src/events.rs: the events that the instructions emit, with the fields of each
-- event struct in their order.
use lz_v2_audit.Prelude.{ℕ, Option, List}
use lz_v2_audit.Endpoint.State.{ReceiveLibraryTimeout}

pub data Event : Type 0 where
  oapp_registered : (oapp delegate : ℕ) → Event
  packet_sent : (encoded_packet options : List ℕ) (send_library : ℕ) → Event
  packet_verified : (src_eid sender receiver nonce payload_hash : ℕ) → Event
  packet_delivered : (src_eid sender receiver nonce : ℕ) → Event
  inbound_nonce_skipped : (src_eid sender receiver nonce : ℕ) → Event
  packet_nilified : (src_eid sender receiver nonce payload_hash : ℕ) → Event
  packet_burnt : (src_eid sender receiver nonce payload_hash : ℕ) → Event
  compose_sent : (from to guid index : ℕ) (message : List ℕ) → Event
  compose_delivered : (from to guid index : ℕ) → Event
  lz_receive_alert :
      (receiver executor src_eid sender nonce guid compute_units value : ℕ)
      (message extra_data reason : List ℕ)
      → Event
  lz_compose_alert :
      (executor from to guid index compute_units value : ℕ) (message extra_data reason : List ℕ)
      → Event
  library_registered : (new_lib new_lib_program : ℕ) → Event
  default_send_library_set : (eid new_lib : ℕ) → Event
  default_receive_library_set : (eid new_lib : ℕ) → Event
  default_receive_library_timeout_set : (eid : ℕ) (timeout : Option ReceiveLibraryTimeout) → Event
  send_library_set : (sender eid new_lib : ℕ) → Event
  receive_library_set : (receiver eid new_lib : ℕ) → Event
  receive_library_timeout_set : (receiver eid : ℕ) (timeout : Option ReceiveLibraryTimeout) → Event
  rent_withdrawn : (receiver amount : ℕ) → Event
  admin_transferred : (new_admin : ℕ) → Event
  delegate_set : (new_delegate : ℕ) → Event
  lz_token_set : (token : Option ℕ) → Event
