-- ===== src/Endpoint/Safety/Final.antt =====
-- `burn` and `skip` end a nonce for good, as their comments say.
use lz_v2_audit.Prelude.{
  ℕ, ◌+◌, ◌≤◌, ◌<◌, ◌≡◌, ap, none, some, true, false, ok, arith, account, require, leb, ◌==◌,
  checked_add, >>=-eq-ok, account-eq-ok, require-eq-ok, ok-injective, leb→le, Bool-cases,
  write_self, nat_eq, pair_eq, LayerZeroError, layer_zero, inl, inr,
}
use mathlib.Core.Path.{subst}
use lz_v2_audit.Endpoint.State.{Nonce, PendingInboundNonce}
use lz_v2_audit.Endpoint.Store.{Store, channel, require_oapp_or_delegate}
use lz_v2_audit.Endpoint.Channel.{insert_pending_inbound_nonce}
use lz_v2_audit.Endpoint.Channel.Insertion.{IsChannel}
use lz_v2_audit.Endpoint.Channel.Refinement.{Inserts, verified, insert-IsChannel, inbound_nonce_max}
use lz_v2_audit.Endpoint.Messaging.{SkipParams, BurnParams, skip, burn}
use lz_v2_audit.Endpoint.Safety.{IsStore}
use lz_v2_audit.Endpoint.Safety.Inbound.{channel_of, skip-Effect}
use lz_v2_audit.Endpoint.Safety.Closing.{burn-Effect}
use lz_v2_audit.Endpoint.Safety.Steps.{Reach}
use lz_v2_audit.Endpoint.Safety.Replay.{IsPast, IsFinished, IsPast-IsFinished, Reach-IsPast}

burn-IsPast :
    (signer : ℕ) (params : BurnParams) (s s' : Store)
    → burn signer params s ≡ ok s'
    → IsPast s' (channel params.receiver params.src_eid params.sender) params.nonce
unfolding burn
burn-IsPast signer params s s' h =
    let key = channel params.receiver params.src_eid params.sender in
    let (registry, e1, h1) = >>=-eq-ok (account (s.oapps params.receiver)) _ h in
    let (n, en, h2) = >>=-eq-ok (account (s.nonces key)) _ h1 in
    let (payload, eh, h3) = >>=-eq-ok (account (s.payload_hashes (key, params.nonce))) _ h2 in
    let (settings, e4, h4) = >>=-eq-ok (account s.endpoint) _ h3 in
    let (u5, e5, h5) = >>=-eq-ok (require_oapp_or_delegate signer params.receiver registry) _ h4 in
    let (u6, e6, h6) =
      >>=-eq-ok
        (require (leb params.nonce n.inbound_nonce) (layer_zero LayerZeroError.invalid_nonce)) _
        h5 in
    let (u7, e7, h7) =
      >>=-eq-ok
        (require (payload.hash == params.payload_hash)
          (layer_zero LayerZeroError.payload_hash_not_found))
        _ h6 in
    subst (λ t. IsPast t key params.nonce) (ok-injective h7)
      (record {
        nonce = n;
        found = account-eq-ok _ en;
        reached = leb→le _ _ (require-eq-ok _ _ e6);
        closed = write_self (key, params.nonce) none s.payload_hashes;
      })

-- After a burn of a nonce, in a store whose channels are well formed, and any further instructions,
-- no clear, init_verify, verify, nilify, skip or burn of that nonce of the channel succeeds.
pub burn_final :
    (signer : ℕ) (params : BurnParams) (s s' t : Store)
    → IsStore s
    → burn signer params s ≡ ok s'
    → Reach s' t
    → IsFinished t params.receiver params.src_eid params.sender params.nonce
burn_final signer params s s' t v h r =
    IsPast-IsFinished t params.receiver params.src_eid params.sender params.nonce (
      Reach-IsPast _ params.nonce (burn-Effect signer params s s' v h).valid r
        (burn-IsPast signer params s s' h))

-- Inserting the nonce after the inbound nonce moves the inbound nonce to it, or past it.
insert_next :
    (n : Nonce) (p : PendingInboundNonce) (new next : ℕ) (r : PendingInboundNonce × Nonce)
    → IsChannel n p
    → checked_add 64 n.inbound_nonce 1 ≡ ok next
    → (new == next) ≡ true
    → insert_pending_inbound_nonce p new n ≡ ok r
    → new ≤ r.1.inbound_nonce
insert_next n p new next r c e1 e2 h = elim (Bool-cases (leb new r.1.inbound_nonce)) [
  | inl reached ↦ leb→le _ _ reached
  | inr short ↦ absurd (unreached (omega (arith, i.onward, is_next, below short)))
]
  where
    i : Inserts n p new r
    i = insert-IsChannel n p new r c h

    is_next : new ≡ n.inbound_nonce + 1
    is_next = ground arith

    below : leb new r.1.inbound_nonce ≡ false → r.1.inbound_nonce < new
    below q = ground arith

    unreached : new ≡ r.1.inbound_nonce + 1 → ⊥
    unreached same =
        ground (
          arith,
          i.verifies new,
          ap (verified r.1 r.0) same,
          (inbound_nonce_max r.1 r.0 i.channel).1,
        )

skip-IsPast :
    (signer : ℕ) (params : SkipParams) (s s' : Store)
    → IsStore s
    → skip signer params s ≡ ok s'
    → IsPast s' (channel params.receiver params.src_eid params.sender) params.nonce
unfolding skip
skip-IsPast signer params s s' v h =
    let key = channel params.receiver params.src_eid params.sender in
    let (registry, e1, h1) = >>=-eq-ok (account (s.oapps params.receiver)) _ h in
    let (n, en, h2) = >>=-eq-ok (account (s.nonces key)) _ h1 in
    let (p, ep, h3) = >>=-eq-ok (account (s.pendings key)) _ h2 in
    let (payload, eh, h4) = >>=-eq-ok (account (s.payload_hashes (key, params.nonce))) _ h3 in
    let (settings, e5, h5) = >>=-eq-ok (account s.endpoint) _ h4 in
    let (u6, e6, h6) = >>=-eq-ok (require_oapp_or_delegate signer params.receiver registry) _ h5 in
    let (next, e7, h7) = >>=-eq-ok (checked_add 64 n.inbound_nonce 1) _ h6 in
    let (u8, e8, h8) =
      >>=-eq-ok (require (params.nonce == next) (layer_zero LayerZeroError.invalid_nonce)) _ h7 in
    let (r, er, h9) = >>=-eq-ok (insert_pending_inbound_nonce p params.nonce n) _ h8 in
    subst (λ t. IsPast t key params.nonce) (ok-injective h9)
      (record {
        nonce = r.1;
        found = write_self key (some r.1) s.nonces;
        reached =
            insert_next n p params.nonce next r
              (channel_of s key n p v (account-eq-ok _ en) (account-eq-ok _ ep)) e7
              (require-eq-ok _ _ e8) er;
        closed = write_self (key, params.nonce) none s.payload_hashes;
      })

-- After a skip of a nonce, in a store whose channels are well formed, and any further instructions,
-- no clear, init_verify, verify, nilify, skip or burn of that nonce of the channel succeeds.
pub skip_final :
    (signer : ℕ) (params : SkipParams) (s s' t : Store)
    → IsStore s
    → skip signer params s ≡ ok s'
    → Reach s' t
    → IsFinished t params.receiver params.src_eid params.sender params.nonce
skip_final signer params s s' t v h r =
    IsPast-IsFinished t params.receiver params.src_eid params.sender params.nonce (
      Reach-IsPast _ params.nonce (skip-Effect signer params s s' v h).valid r
        (skip-IsPast signer params s s' v h))
