-- ===== src/Endpoint/Channel/Insertion.antt =====
-- `insert_pending_inbound_nonce` in closed form, and the invariant of a channel.
use lz_v2_audit.Prelude.{
  ℕ, ◌+◌, ◌^◌, ◌≤◌, ◌<◌, ◌≡◌, ◌∙◌, true, false, List, [], ◌∷◌, All, contains, ok, arith,
}
use lz_v2_audit.SortedList.{absent, is_at, binary_search}
use lz_v2_audit.SortedList.Keys.{
  put_key, put-IsIncreasing, put-All, search-contains, search-put, absent_place,
}
use lz_v2_audit.SortedList.Search.{IsIncreasing}
use lz_v2_audit.Endpoint.State.{Nonce, PendingInboundNonce}
use lz_v2_audit.Endpoint.Channel.{check_window, insert_pending_inbound_nonce}
use lz_v2_audit.Endpoint.Channel.Settle.{settle, IsU64, update-settle}

-- A nonce and its list, as a channel holds them.
pub record IsChannel (nonce : Nonce) (pending : PendingInboundNonce) : Type 0 where
  pub sorted : IsIncreasing pending.nonces
  pub gap : All (λ y. nonce.inbound_nonce + 1 < y) pending.nonces
  pub window : All (λ y. y ≤ nonce.inbound_nonce + 256) pending.nonces
  pub word : IsU64 nonce.inbound_nonce
  pub words : All IsU64 pending.nonces

-- The pair after a new nonce is inserted.
abbrev pub inserted : Nonce → PendingInboundNonce → ℕ → PendingInboundNonce × Nonce
inserted nonce pending new =
    let (inbound_nonce, nonces) = settle nonce.inbound_nonce (put_key pending.nonces new) in
    (record pending { nonces = nonces }, record nonce { inbound_nonce = inbound_nonce })

check_window-in :
    (inbound new : ℕ)
    → inbound < new
    → new ≤ inbound + 256
    → inbound + 256 < 2 ^ 64
    → check_window inbound new ≡ ok tt
unfolding check_window
check_window-in inbound new lo hi w = ground arith

pub above-All : (xs : List ℕ) (n : ℕ) → All (λ y. n + 1 < y) xs → All (λ y. n < y) xs
above-All [] n h = tt
above-All (x ∷ xs) n h = (omega arith, above-All xs n h.1)

-- Within its window a nonce that is not in the list is inserted, and the inbound nonce moves up.
pub insert-new :
    (nonce : Nonce) (pending : PendingInboundNonce) (new : ℕ)
    → IsChannel nonce pending
    → nonce.inbound_nonce < new
    → new ≤ nonce.inbound_nonce + 256
    → nonce.inbound_nonce + 256 < 2 ^ 64
    → contains new pending.nonces ≡ false
    → insert_pending_inbound_nonce pending new nonce ≡ ok (inserted nonce pending new)
unfolding insert_pending_inbound_nonce
insert-new nonce pending new c lo hi w fresh =
    rw
      (
        check_window-in nonce.inbound_nonce new lo hi w,
        place.1,
        search-put pending.nonces new place.0 c.sorted place.1,
      )
      (update-settle nonce (record pending { nonces = put_key pending.nonces new })
        (put-IsIncreasing pending.nonces new c.sorted)
        (put-All (λ y. nonce.inbound_nonce < y) pending.nonces new
          (above-All pending.nonces _ c.gap) lo)
        (put-All IsU64 pending.nonces new c.words (omega arith)))
  where
    place : (i : ℕ) × (binary_search pending.nonces new ≡ absent i)
    place = absent_place _ (search-contains pending.nonces new c.sorted ∙ fresh)

-- A nonce that is in the list already changes nothing.
pub insert-old :
    (nonce : Nonce) (pending : PendingInboundNonce) (new : ℕ)
    → IsChannel nonce pending
    → nonce.inbound_nonce < new
    → new ≤ nonce.inbound_nonce + 256
    → nonce.inbound_nonce + 256 < 2 ^ 64
    → contains new pending.nonces ≡ true
    → insert_pending_inbound_nonce pending new nonce ≡ ok (pending, nonce)
unfolding insert_pending_inbound_nonce is_at
insert-old nonce pending new c lo hi w known = ground (
  arith,
  check_window-in nonce.inbound_nonce new lo hi w,
  search-contains pending.nonces new c.sorted,
)
