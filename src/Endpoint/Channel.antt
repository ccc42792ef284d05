-- ===== src/Endpoint/Channel.antt =====
-- programs/endpoint/src/state/messaging_channel.rs: the inbound nonce of a channel and the list of
-- verified nonces above it.
pub mod Settle
pub mod Insertion
pub mod Refinement
pub mod Order
use lz_v2_audit.Prelude.{
  ℕ, ◌-◌, List, [], ◌∷◌, length, drop, Result, ok, err, panic, LayerZeroError, layer_zero, require,
  checked_add, ◌>>=◌, ◌>>◌, ltb, leb, ◌==◌, if◌then◌else◌, insert_at,
}
use lz_v2_audit.SortedList.{at, absent, binary_search}
use lz_v2_audit.Endpoint.State.{Nonce, PendingInboundNonce, pending_inbound_nonce_max_len}

-- The `for` loop of `update_inbound_nonce`: the largest nonce that the list reaches from
-- `new_inbound_nonce` without a gap.
pub advance : ℕ → List ℕ → Result ℕ
advance new_inbound_nonce [] = ok new_inbound_nonce
advance new_inbound_nonce (nonce ∷ rest) = do
  next ← checked_add 64 new_inbound_nonce 1
  if nonce == next then advance nonce rest else ok new_inbound_nonce

-- `Vec::drain(0..count)`
abbrev drain : ℕ → List ℕ → Result (List ℕ)
drain count nonces = if leb count (length nonces) then ok (drop count nonces) else panic

pub update_inbound_nonce : Nonce → PendingInboundNonce → Result (PendingInboundNonce × Nonce)
unfolding advance
update_inbound_nonce nonce pending = do
  new_inbound_nonce ← advance nonce.inbound_nonce pending.nonces
  if ltb nonce.inbound_nonce new_inbound_nonce
      then (do
        nonces ← drain (new_inbound_nonce - nonce.inbound_nonce) pending.nonces
        ok (record pending { nonces = nonces }, record nonce { inbound_nonce = new_inbound_nonce }))
      else ok (pending, nonce)

-- The `require!` of the insertion; `&&` reads its right side only if the left one holds.
pub check_window : ℕ → ℕ → Result (Unit {0})
check_window inbound_nonce new_inbound_nonce =
    if ltb inbound_nonce new_inbound_nonce
    then (do
      last ← checked_add 64 inbound_nonce pending_inbound_nonce_max_len
      require (leb new_inbound_nonce last) (layer_zero LayerZeroError.invalid_nonce))
    else err (layer_zero LayerZeroError.invalid_nonce)

unfoldable pub insert_pending_inbound_nonce :
    PendingInboundNonce → ℕ → Nonce → Result (PendingInboundNonce × Nonce)
unfolding update_inbound_nonce check_window
insert_pending_inbound_nonce pending new_inbound_nonce nonce = do
  check_window nonce.inbound_nonce new_inbound_nonce
  elim (binary_search pending.nonces new_inbound_nonce) [
    | at index ↦ ok (pending, nonce)
    | absent index ↦
        update_inbound_nonce nonce
          (record pending { nonces = insert_at index new_inbound_nonce pending.nonces })
  ]
