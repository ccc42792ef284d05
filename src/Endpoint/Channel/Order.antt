-- ===== src/Endpoint/Channel/Order.antt =====
-- The order in which nonces are inserted into a channel.
use mathlib.Core.Bool.{true≢false}
use lz_v2_audit.Prelude.{
  ℕ, ◌+◌, ◌^◌, ◌≤◌, ◌<◌, ◌≡◌, ◌≢◌, ◌∙◌, refl, sym, ap, true, false, ok, Result, ◌>>=◌, arith, leb,
  ltb, ◌==◌, Bool-cases, inl, inr,
}
use lz_v2_audit.SortedList.Members.{contains-above, same_members}
use lz_v2_audit.Endpoint.State.{Nonce, PendingInboundNonce}
use lz_v2_audit.Endpoint.Channel.{insert_pending_inbound_nonce}
use lz_v2_audit.Endpoint.Channel.Insertion.{IsChannel}
use lz_v2_audit.Endpoint.Channel.Refinement.{Inserts, verified, insert_verifies, inbound_nonce_max}

-- A well-formed channel's inbound nonce is not above that of one with the same verified nonces.
inbound-le :
    (nonce nonce' : Nonce) (pending pending' : PendingInboundNonce)
    → IsChannel nonce pending
    → IsChannel nonce' pending'
    → ((m : ℕ) → verified nonce pending m ≡ verified nonce' pending' m)
    → nonce'.inbound_nonce ≤ nonce.inbound_nonce
inbound-le nonce nonce' pending pending' c c' h =
    elim (Bool-cases (ltb nonce.inbound_nonce nonce'.inbound_nonce)) [
      | inl less ↦
          let n = nonce.inbound_nonce + 1 in
          absurd (
            true≢false (
              sym ((inbound_nonce_max nonce' pending' c').0 n (ground (arith, less)))
              ∙ sym (h n)
              ∙ (inbound_nonce_max nonce pending c).1))
      | inr more ↦ ground (arith, more)
    ]

-- A well-formed channel is determined by its verified nonces.
record IsSameChannel (nonce nonce' : Nonce) (pending pending' : PendingInboundNonce) : Type 0 where
  inbound : nonce.inbound_nonce ≡ nonce'.inbound_nonce
  nonces : pending.nonces ≡ pending'.nonces

determined :
    (nonce nonce' : Nonce) (pending pending' : PendingInboundNonce)
    → IsChannel nonce pending
    → IsChannel nonce' pending'
    → ((m : ℕ) → verified nonce pending m ≡ verified nonce' pending' m)
    → IsSameChannel nonce nonce' pending pending'
determined nonce nonce' pending pending' c c' h =
    let inbound : nonce.inbound_nonce ≡ nonce'.inbound_nonce = omega (
      arith,
      inbound-le nonce nonce' pending pending' c c' h,
      inbound-le nonce' nonce pending' pending c' c (λ m. sym (h m)),
    ) in
    record {
      inbound = inbound;
      nonces = same_members pending.nonces pending'.nonces c.sorted c'.sorted (λ m. ground (
        arith,
        h m,
        inbound,
        contains-above m (nonce.inbound_nonce + 1) pending.nonces c.gap,
        contains-above m (nonce'.inbound_nonce + 1) pending'.nonces c'.gap,
      ));
    }

same_pair :
    (a b : PendingInboundNonce × Nonce)
    → a.0.nonces ≡ b.0.nonces
    → a.0.bump ≡ b.0.bump
    → a.1.bump ≡ b.1.bump
    → a.1.outbound_nonce ≡ b.1.outbound_nonce
    → a.1.inbound_nonce ≡ b.1.inbound_nonce
    → a ≡ b
same_pair a b nonces bump own outbound inbound = λ i. (
  record { nonces = nonces i; bump = bump i },
  record { bump = own i; outbound_nonce = outbound i; inbound_nonce = inbound i },
)

-- Two insertions, the first one first.
abbrev pub insert_both :
    PendingInboundNonce → (first second : ℕ) → Nonce → Result (PendingInboundNonce × Nonce)
insert_both pending first second nonce = insert_pending_inbound_nonce pending first nonce >>= λ r.
    insert_pending_inbound_nonce r.0 second r.1

-- A nonce that can be inserted.
pub record IsNew (nonce : Nonce) (pending : PendingInboundNonce) (new : ℕ) : Type 0 where
  pub above : nonce.inbound_nonce < new
  pub within : new ≤ nonce.inbound_nonce + 256
  pub unknown : verified nonce pending new ≡ false

module _ (nonce : Nonce) (pending : PendingInboundNonce) (c : IsChannel nonce pending)
    (room : nonce.inbound_nonce + 512 < 2 ^ 64) where
  -- After an insertion the inbound nonce is still within the window, and another new nonce is new.
  inbound-within :
      (m : ℕ) (r : PendingInboundNonce × Nonce)
      → IsNew nonce pending m
      → Inserts nonce pending m r
      → r.1.inbound_nonce ≤ nonce.inbound_nonce + 256
  inbound-within m r v i = elim (Bool-cases (leb (r.1.inbound_nonce) (nonce.inbound_nonce + 256))) [
    | inl fits ↦ ground (arith, fits)
    | inr beyond ↦
        let n = r.1.inbound_nonce in
        let reached : verified r.1 r.0 n ≡ true =
          (inbound_nonce_max r.1 r.0 i.channel).0 n (omega arith) in
        let never : verified nonce pending n ≡ false =
          (inbound_nonce_max nonce pending c).2 n (ground (arith, beyond)) in
        let other : (n == m) ≡ false = ground (arith, beyond, v.within) in
        absurd (true≢false (sym reached ∙ i.verifies n ∙ rw (other, never) refl))
  ]

  still-IsNew :
      (m k : ℕ) (r : PendingInboundNonce × Nonce)
      → m ≢ k
      → IsNew nonce pending k
      → Inserts nonce pending m r
      → IsNew r.1 r.0 k
  still-IsNew m k r other v i = record {
    above = elim (Bool-cases (leb k (r.1.inbound_nonce))) [
      | inl passed ↦
          let reached = (inbound_nonce_max r.1 r.0 i.channel).0 k (ground (arith, passed)) in
          absurd (true≢false (sym reached ∙ unknown))
      | inr ahead ↦ ground (arith, ahead)
    ];
    within = omega (arith, v.within, i.onward);
    unknown = unknown;
  }
    where
      unknown : verified r.1 r.0 k ≡ false
      unknown = i.verifies k ∙ ground (arith, other, v.unknown)

  both :
      (m k : ℕ)
      → m ≢ k
      → IsNew nonce pending m
      → IsNew nonce pending k
      → (r r' : PendingInboundNonce × Nonce) × (insert_both pending m k nonce ≡ ok r')
        × Inserts nonce pending m r
        × Inserts r.1 r.0 k r'
  both m k other v w =
      let (r, e, i) = insert_verifies nonce pending m c v.above v.within (omega (arith, room)) in
      let x = still-IsNew m k r other w i in
      let (r', e', i') =
        insert_verifies r.1 r.0 k i.channel x.above x.within
          (omega (arith, room, inbound-within m r v i)) in
      (
        r,
        r',
        ap (λ o. o >>= λ (x : PendingInboundNonce × Nonce). insert_pending_inbound_nonce x.0 k x.1)
              e
            ∙ e',
        i,
        i',
      )

-- In a well-formed channel whose inbound nonce is at least 513 below 2^64, two different nonces that
-- are not verified yet and lie above the inbound nonce by at most 256 can be inserted in either
-- order: both orders succeed, and they leave the same nonces and the same pending list.
pub insert_commutes :
    (nonce : Nonce) (pending : PendingInboundNonce) (m k : ℕ)
    → IsChannel nonce pending
    → nonce.inbound_nonce + 512 < 2 ^ 64
    → m ≢ k
    → IsNew nonce pending m
    → IsNew nonce pending k
    → (r : PendingInboundNonce × Nonce) × (insert_both pending m k nonce ≡ ok r)
      × (insert_both pending k m nonce ≡ ok r)
insert_commutes nonce pending m k c room other v w =
    let (r1, r, e, i1, i) = both nonce pending c room m k other v w in
    let (s1, s, e', j1, j) = both nonce pending c room k m (λ same. other (sym same)) w v in
    let same =
      determined r.1 s.1 r.0 s.0 i.channel j.channel
        (λ n. ground (arith, i.verifies n, i1.verifies n, j.verifies n, j1.verifies n)) in
    let equal : s ≡ r =
      same_pair s r (sym same.nonces)
        (j.pending_bump ∙ j1.pending_bump ∙ sym (i.pending_bump ∙ i1.pending_bump))
        (j.bump ∙ j1.bump ∙ sym (i.bump ∙ i1.bump))
        (j.outbound ∙ j1.outbound ∙ sym (i.outbound ∙ i1.outbound)) (sym same.inbound) in
    (r, e, e' ∙ ap ok equal)
