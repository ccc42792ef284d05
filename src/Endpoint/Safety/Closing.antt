-- ===== src/Endpoint/Safety/Closing.antt =====
-- The effect of the instructions that open or close an account of a channel and move no nonce.
use lz_v2_audit.Prelude.{
  ℕ, ◌≤◌, ◌<◌, ◌≡◌, refl, ap, none, some, ◌==◌, ltb, leb, arith, ok, account, fresh, require,
  >>=-eq-ok, account-eq-ok, fresh-eq-ok, require-eq-ok, ltb→lt, write, write-at, write-both, nat_eq,
  pair_eq, LayerZeroError, layer_zero, AnchorError, anchor, ok-injective,
}
use mathlib.Core.Path.{subst}
use lz_v2_audit.Endpoint.State.{Nonce, PayloadHash}
use lz_v2_audit.Endpoint.Store.{
  Store, Runtime, ChannelKey, PayloadKey, channel, require_oapp_or_delegate,
}
use lz_v2_audit.Endpoint.Messaging.{
  InitNonceParams, InitVerifyParams, ClearParams, BurnParams, init_nonce, init_verify, clear, burn,
  hash_payload,
}
use lz_v2_audit.Endpoint.Safety.{IsStore, IsChannelAt, IsLater, Effect, Effect-hashes}
use lz_v2_audit.Endpoint.Safety.Inbound.{closed_close}

pub clear-Effect :
    (env : Runtime) (signer : ℕ) (params : ClearParams) (s s' : Store) (hash : ℕ)
    → IsStore s
    → clear env signer params s ≡ ok (s', hash)
    → Effect s s'
unfolding clear
clear-Effect env signer params s s' hash v h =
    let key = channel params.receiver params.src_eid params.sender in
    let (registry, e1, h1) = >>=-eq-ok (account (s.oapps params.receiver)) _ h in
    let (n, en, h2) = >>=-eq-ok (account (s.nonces key)) _ h1 in
    let (payload, eh, h3) = >>=-eq-ok (account (s.payload_hashes (key, params.nonce))) _ h2 in
    let (settings, e4, h4) = >>=-eq-ok (account s.endpoint) _ h3 in
    let (u5, e5, h5) = >>=-eq-ok (require_oapp_or_delegate signer params.receiver registry) _ h4 in
    let (u6, e6, h6) =
      >>=-eq-ok
        (require (leb params.nonce n.inbound_nonce) (layer_zero LayerZeroError.invalid_nonce)) _
        h5 in
    let (u7, e7, h7) =
      >>=-eq-ok
        (require (hash_payload env params.guid params.message == payload.hash)
          (layer_zero LayerZeroError.payload_hash_not_found))
        _ h6 in
    subst (λ (r : Store × ℕ). Effect s r.0) (ok-injective h7)
      (Effect-hashes s _ v refl refl
        (λ j k m q l closed. closed_close s.payload_hashes (key, params.nonce) (j, m) closed))

pub burn-Effect :
    (signer : ℕ) (params : BurnParams) (s s' : Store)
    → IsStore s
    → burn signer params s ≡ ok s'
    → Effect s s'
unfolding burn
burn-Effect signer params s s' v h =
    let key = channel params.receiver params.src_eid params.sender in
    let (registry, e1, h1) = >>=-eq-ok (account (s.oapps params.receiver)) _ h in
    let (n, en, h2) = >>=-eq-ok (account (s.nonces key)) _ h1 in
    let (payload, eh, h3) = >>=-eq-ok (account (s.payload_hashes (key, params.nonce))) _ h2 in
    let (settings, e4, h4) = >>=-eq-ok (account s.endpoint) _ h3 in
    let (u5, e5, h5) = >>=-eq-ok (require_oapp_or_delegate signer params.receiver registry) _ h4 in
    let (u6, e6, h6) =
      >>=-eq-ok
        (require (leb params.nonce n.inbound_nonce) (layer_zero LayerZeroError.invalid_nonce)) _
        h5 in
    let (u7, e7, h7) =
      >>=-eq-ok
        (require (payload.hash == params.payload_hash)
          (layer_zero LayerZeroError.payload_hash_not_found))
        _ h6 in
    subst (Effect s) (ok-injective h7) (
      Effect-hashes s _ v refl refl
        (λ j k m q l closed. closed_close s.payload_hashes (key, params.nonce) (j, m) closed))

-- An account opened above the inbound nonce of its channel is none of the closed ones below it.
closed_open :
    (s : Store) (key : ChannelKey) (n : Nonce) (nonce : ℕ) (new : PayloadHash)
    → s.nonces key ≡ some n
    → n.inbound_nonce < nonce
    → (j : ChannelKey) (k : Nonce) (m : ℕ) → s.nonces j ≡ some k
    → m ≤ k.inbound_nonce
    → s.payload_hashes (j, m) ≡ none
    → write (key, nonce) (some new) s.payload_hashes (j, m) ≡ none
closed_open s key n nonce new en above j k m q l c =
    write-at (λ o. o ≡ none) (key, nonce) (j, m) (some new) s.payload_hashes
      (λ same.
        absurd (clash (ap (λ (i : PayloadKey). i.0) same) (ap (λ (i : PayloadKey). i.1) same)))
      c
  where
    clash : key ≡ j → nonce ≡ m → ⊥
    clash same e = omega (arith, ap inbound (same_nonce same))
      where
        inbound : Nonce → ℕ
        inbound x = x.inbound_nonce

        same_nonce : key ≡ j → n ≡ k
        same_nonce p = cc

pub init_verify-Effect :
    (bump : ℕ) (params : InitVerifyParams) (s s' : Store)
    → IsStore s
    → init_verify bump params s ≡ ok s'
    → Effect s s'
unfolding init_verify
init_verify-Effect bump params s s' v h =
    let key = channel params.receiver params.src_eid params.sender in
    let (n, en, h1) = >>=-eq-ok (account (s.nonces key)) _ h in
    let (u2, e2, h2) = >>=-eq-ok (fresh (s.payload_hashes (key, params.nonce))) _ h1 in
    let (u3, e3, h3) =
      >>=-eq-ok (require (ltb n.inbound_nonce params.nonce) (anchor AnchorError.constraint_raw)) _
        h2 in
    subst (Effect s) (ok-injective h3) (
      Effect-hashes s _ v refl refl (
        closed_open s key n params.nonce _ (account-eq-ok _ en)
          (ltb→lt _ _ (require-eq-ok _ _ e3))))

pub init_nonce-Effect :
    (delegate bump pending_bump : ℕ) (params : InitNonceParams) (s s' : Store)
    → IsStore s
    → init_nonce delegate bump pending_bump params s ≡ ok s'
    → Effect s s'
unfolding init_nonce
init_nonce-Effect delegate bump pending_bump params s s' v h =
    let key = channel params.local_oapp params.remote_eid params.remote_oapp in
    let (registry, e1, h1) = >>=-eq-ok (account (s.oapps params.local_oapp)) _ h in
    let (u2, e2, h2) = >>=-eq-ok (fresh (s.nonces key)) _ h1 in
    let (u3, e3, h3) = >>=-eq-ok (fresh (s.pendings key)) _ h2 in
    let (u4, e4, h4) =
      >>=-eq-ok (require (registry.delegate == delegate) (anchor AnchorError.constraint_has_one)) _
        h3 in
    subst (Effect s) (ok-injective h4) (record {
      valid = record {
        channel_at = λ j.
            write-both IsChannelAt key j _ _ s.nonces s.pendings
              (record { sorted = tt; gap = tt; window = tt; word = omega arith; words = tt })
              (v.channel_at j);
      };
      onward = λ j k q.
          write-at (IsLater k) key j _ s.nonces
            (λ same. absurd (taken key j k same (fresh-eq-ok _ e2) q)) (rw q (omega arith));
      closed = λ j k m q l c. c;
    })
  where
    taken : (i j : ChannelKey) (k : Nonce) → i ≡ j → s.nonces i ≡ none → s.nonces j ≡ some k → ⊥
    taken i j k same p q = cc
