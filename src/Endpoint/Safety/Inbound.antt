-- ===== src/Endpoint/Safety/Inbound.antt =====
-- The effect of the instructions that write inbound nonces or payload hashes.
use lz_v2_audit.Prelude.{
  ℕ, ◌≡◌, refl, Option, none, some, not, ◌==◌, ltb, arith, ok, account, require, checked_add,
  >>=-eq-ok, account-eq-ok, Bool-cases, write, write-at, nat_eq, pair_eq, inl, inr, LayerZeroError,
  layer_zero, ok-injective,
}
use mathlib.Core.Path.{subst}
use lz_v2_audit.Endpoint.State.{Nonce, PendingInboundNonce, PayloadHash, empty_payload_hash}
use lz_v2_audit.Endpoint.Store.{
  Store, Runtime, require_oapp_or_delegate, ChannelKey, PayloadKey, channel,
}
use lz_v2_audit.Endpoint.Channel.{insert_pending_inbound_nonce}
use lz_v2_audit.Endpoint.Channel.Insertion.{IsChannel}
use lz_v2_audit.Endpoint.Channel.Refinement.{insert-IsChannel}
use lz_v2_audit.Endpoint.Messaging.{
  VerifyParams, SkipParams, NilifyParams, verify, skip, nilify, insert_if_above,
}
use lz_v2_audit.Endpoint.Messaging.Library.{is_valid_receive_library}
use lz_v2_audit.Endpoint.Safety.{IsStore, IsLater, Effect, Effect-channel}

-- The channel after `verify` or `nilify`.
pub insert_if_above-IsChannel :
    (n : Nonce) (p : PendingInboundNonce) (new : ℕ) (r : PendingInboundNonce × Nonce)
    → IsChannel n p
    → insert_if_above p new n ≡ ok r
    → IsChannel r.1 r.0 × IsLater n (some r.1)
unfolding insert_if_above
insert_if_above-IsChannel n p new r c h = elim (Bool-cases (ltb n.inbound_nonce new)) [
  | inl above ↦
      let i = insert-IsChannel n p new r c (rw above at h) in
      (i.channel, (i.onward, omega (arith, i.outbound)))
  | inr below ↦
      let same : (p, n) ≡ r = ok-injective (rw below at h) in
      subst (λ q. IsChannel q.1 q.0 × IsLater n (some q.1)) same (c, (omega arith, omega arith))
]

pub channel_of :
    (s : Store) (key : ChannelKey) (n : Nonce) (p : PendingInboundNonce)
    → IsStore s
    → s.nonces key ≡ some n
    → s.pendings key ≡ some p
    → IsChannel n p
channel_of s key n p v en ep = rw (en, ep) at (v.channel_at key)

-- A closed account stays closed when an account that was open is rewritten,
pub closed_rewrite :
    (hashes : PayloadKey → Option PayloadHash) (k i : PayloadKey) (old new : PayloadHash)
    → hashes k ≡ some old
    → hashes i ≡ none
    → write k (some new) hashes i ≡ none
closed_rewrite hashes k i old new e c =
    write-at (λ o. o ≡ none) k i (some new) hashes (λ same. absurd (clash k i same e c)) c
  where
    clash : (k i : PayloadKey) → k ≡ i → hashes k ≡ some old → hashes i ≡ none → ⊥
    clash k i same p q = cc

-- and when one is closed.
pub closed_close :
    (hashes : PayloadKey → Option PayloadHash) (k i : PayloadKey)
    → hashes i ≡ none
    → write k none hashes i ≡ none
closed_close hashes k i c = write-at (λ o. o ≡ none) k i none hashes (λ same. refl) c

pub verify-Effect :
    (env : Runtime) (lib : ℕ) (params : VerifyParams) (s s' : Store)
    → IsStore s
    → verify env lib params s ≡ ok s'
    → Effect s s'
unfolding verify
verify-Effect env lib params s s' v h =
    let key = channel params.receiver params.src_eid params.sender in
    let (config, e1, h1) =
      >>=-eq-ok (account (s.receive_libraries (params.receiver, params.src_eid))) _ h in
    let (default_config, e2, h2) =
      >>=-eq-ok (account (s.default_receive_libraries params.src_eid)) _ h1 in
    let (n, en, h3) = >>=-eq-ok (account (s.nonces key)) _ h2 in
    let (p, ep, h4) = >>=-eq-ok (account (s.pendings key)) _ h3 in
    let (payload, eh, h5) = >>=-eq-ok (account (s.payload_hashes (key, params.nonce))) _ h4 in
    let (u6, e6, h6) =
      >>=-eq-ok
        (require (is_valid_receive_library lib config default_config env.slot)
          (layer_zero LayerZeroError.invalid_receive_library))
        _ h5 in
    let (u7, e7, h7) =
      >>=-eq-ok
        (require (not (params.payload_hash == empty_payload_hash))
          (layer_zero LayerZeroError.invalid_payload_hash))
        _ h6 in
    let (r, er, h8) = >>=-eq-ok (insert_if_above p params.nonce n) _ h7 in
    let (c, later) =
      insert_if_above-IsChannel n p params.nonce r
        (channel_of s key n p v (account-eq-ok _ en) (account-eq-ok _ ep)) er in
    subst (Effect s) (ok-injective h8) (
      Effect-channel s _ key n r.1 r.0 v refl refl (account-eq-ok _ en) c later (λ j k m q l closed.
        closed_rewrite s.payload_hashes _ (j, m) payload _ (account-eq-ok _ eh) closed))

pub nilify-Effect :
    (signer : ℕ) (params : NilifyParams) (s s' : Store)
    → IsStore s
    → nilify signer params s ≡ ok s'
    → Effect s s'
unfolding nilify
nilify-Effect signer params s s' v h =
    let key = channel params.receiver params.src_eid params.sender in
    let (registry, e1, h1) = >>=-eq-ok (account (s.oapps params.receiver)) _ h in
    let (n, en, h2) = >>=-eq-ok (account (s.nonces key)) _ h1 in
    let (p, ep, h3) = >>=-eq-ok (account (s.pendings key)) _ h2 in
    let (payload, eh, h4) = >>=-eq-ok (account (s.payload_hashes (key, params.nonce))) _ h3 in
    let (u5, e5, h5) = >>=-eq-ok (require_oapp_or_delegate signer params.receiver registry) _ h4 in
    let (u6, e6, h6) =
      >>=-eq-ok
        (require (payload.hash == params.payload_hash)
          (layer_zero LayerZeroError.payload_hash_not_found))
        _ h5 in
    let (r, er, h7) = >>=-eq-ok (insert_if_above p params.nonce n) _ h6 in
    let (c, later) =
      insert_if_above-IsChannel n p params.nonce r
        (channel_of s key n p v (account-eq-ok _ en) (account-eq-ok _ ep)) er in
    subst (Effect s) (ok-injective h7) (
      Effect-channel s _ key n r.1 r.0 v refl refl (account-eq-ok _ en) c later (λ j k m q l closed.
        closed_rewrite s.payload_hashes _ (j, m) payload _ (account-eq-ok _ eh) closed))

pub skip-Effect :
    (signer : ℕ) (params : SkipParams) (s s' : Store)
    → IsStore s
    → skip signer params s ≡ ok s'
    → Effect s s'
unfolding skip
skip-Effect signer params s s' v h =
    let key = channel params.receiver params.src_eid params.sender in
    let (registry, e1, h1) = >>=-eq-ok (account (s.oapps params.receiver)) _ h in
    let (n, en, h2) = >>=-eq-ok (account (s.nonces key)) _ h1 in
    let (p, ep, h3) = >>=-eq-ok (account (s.pendings key)) _ h2 in
    let (payload, eh, h4) = >>=-eq-ok (account (s.payload_hashes (key, params.nonce))) _ h3 in
    let (settings, e5, h5) = >>=-eq-ok (account s.endpoint) _ h4 in
    let (u6, e6, h6) = >>=-eq-ok (require_oapp_or_delegate signer params.receiver registry) _ h5 in
    let (next, e7, h7) = >>=-eq-ok (checked_add 64 n.inbound_nonce 1) _ h6 in
    let (u8, e8, h8) =
      >>=-eq-ok (require (params.nonce == next) (layer_zero LayerZeroError.invalid_nonce)) _ h7 in
    let (r, er, h9) = >>=-eq-ok (insert_pending_inbound_nonce p params.nonce n) _ h8 in
    let i =
      insert-IsChannel n p params.nonce r
        (channel_of s key n p v (account-eq-ok _ en) (account-eq-ok _ ep)) er in
    subst (Effect s) (ok-injective h9) (
      Effect-channel s _ key n r.1 r.0 v refl refl (account-eq-ok _ en) i.channel
        (i.onward, omega (arith, i.outbound))
        (λ j k m q l closed. closed_close s.payload_hashes _ (j, m) closed))
