-- ===== src/Endpoint/Runs/Channels.antt =====
-- Insertions into the concrete channel.
use lz_v2_audit.Prelude.{◌≡◌, refl, ok, [], arith}
use lz_v2_audit.Endpoint.State.{Nonce, PendingInboundNonce}
use lz_v2_audit.SortedList.{binary_search}
use lz_v2_audit.Endpoint.Channel.{insert_pending_inbound_nonce}
use lz_v2_audit.Endpoint.Channel.Insertion.{IsChannel}
use lz_v2_audit.Endpoint.Channel.Refinement.{Inserts, insert_verifies}
use lz_v2_audit.Endpoint.Channel.Order.{insert_both, insert_commutes}
use lz_v2_audit.Endpoint.Runs.{nonce_3, pending_5}

pub ready-IsChannel : IsChannel nonce_3 pending_5
ready-IsChannel = record {
  sorted = (tt, tt);
  gap = (omega arith, tt);
  window = (omega arith, tt);
  word = omega arith;
  words = (omega arith, tt);
}

-- 4 fills the gap, so the inbound nonce moves past 5.
insert_four :
    insert_pending_inbound_nonce pending_5 4 nonce_3
    ≡ ok (
      record { nonces = []; bump = 0 },
      record { bump = 0; outbound_nonce = 4; inbound_nonce = 5 },
    )
unfolding insert_pending_inbound_nonce binary_search
insert_four = refl

insert_verifies_example :
    (r : PendingInboundNonce × Nonce) × (insert_pending_inbound_nonce pending_5 4 nonce_3 ≡ ok r)
    × Inserts nonce_3 pending_5 4 r
insert_verifies_example =
    insert_verifies nonce_3 pending_5 4 ready-IsChannel (omega arith) (omega arith) (omega arith)

insert_commutes_example :
    (r : PendingInboundNonce × Nonce) × (insert_both pending_5 4 6 nonce_3 ≡ ok r)
    × (insert_both pending_5 6 4 nonce_3 ≡ ok r)
insert_commutes_example =
    insert_commutes nonce_3 pending_5 4 6 ready-IsChannel (omega arith) (λ e. omega arith)
      (record { above = omega arith; within = omega arith; unknown = refl })
      (record { above = omega arith; within = omega arith; unknown = refl })
