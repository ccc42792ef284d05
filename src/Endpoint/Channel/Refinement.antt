-- ===== src/Endpoint/Channel/Refinement.antt =====
-- A channel as a set of verified nonces: every insertion adds exactly its nonce to the set, and the
-- inbound nonce is always the end of the set's unbroken start.
use lz_v2_audit.Prelude.{
  ℕ, ◌+◌, ◌^◌, ◌≤◌, ◌<◌, ◌≡◌, refl, Bool, true, false, ◌||◌, List, [], ◌∷◌, All, contains, ok,
  arith, leb, ◌==◌, Bool-cases, inl, inr, ◌∙◌, sym, le→leb, >>=-eq-ok,
}
use mathlib.Core.Path.{subst}
use lz_v2_audit.SortedList.Members.{contains-above}
use lz_v2_audit.Endpoint.State.{Nonce, PendingInboundNonce}
use lz_v2_audit.Endpoint.Channel.{check_window, insert_pending_inbound_nonce}
use lz_v2_audit.Endpoint.Channel.Settle.{
  IsU64, settle-drop, settle-All, settle-IsIncreasing, settle-gap, settle-IsU64, settle-contains,
}
use lz_v2_audit.SortedList.Keys.{put_key, put-IsIncreasing, put-All, put-contains}
use lz_v2_audit.Endpoint.Channel.Insertion.{IsChannel, inserted, above-All, insert-new, insert-old}

-- The abstract view: which nonces count as verified.
abbrev pub verified : Nonce → PendingInboundNonce → ℕ → Bool
verified nonce pending m = leb m nonce.inbound_nonce || contains m pending.nonces

All-le : (xs : List ℕ) (a b : ℕ) → a ≤ b → All (λ y. y ≤ a) xs → All (λ y. y ≤ b) xs
All-le [] a b h w = tt
All-le (x ∷ xs) a b h w = (omega arith, All-le xs a b h w.1)

module _ (nonce : Nonce) (pending : PendingInboundNonce) (new : ℕ)
    (c : IsChannel nonce pending) where
  inserted-IsChannel :
      nonce.inbound_nonce < new
      → new ≤ nonce.inbound_nonce + 256
      → nonce.inbound_nonce + 256 < 2 ^ 64
      → IsChannel (inserted nonce pending new).1 (inserted nonce pending new).0
  inserted-IsChannel lo hi w = record {
    sorted = settle-IsIncreasing n xs (put-IsIncreasing pending.nonces new c.sorted);
    gap =
        settle-gap n xs (put-IsIncreasing pending.nonces new c.sorted)
          (put-All (λ y. n < y) pending.nonces new (above-All pending.nonces n c.gap) lo);
    window = All-le _ (n + 256) _ (omega (arith, settle-drop n xs)) (
        settle-All (λ y. y ≤ n + 256) n xs
          (put-All (λ y. y ≤ n + 256) pending.nonces new c.window hi));
    word = settle-IsU64 n xs c.word words;
    words = settle-All IsU64 n xs words;
  }
    where
      n : ℕ
      n = nonce.inbound_nonce

      xs : List ℕ
      xs = put_key pending.nonces new

      words : All IsU64 (put_key pending.nonces new)
      words = put-All IsU64 pending.nonces new c.words (omega arith)

  verified-inserted :
      (m : ℕ)
      → verified (inserted nonce pending new).1 (inserted nonce pending new).0 m
        ≡ (m == new || verified nonce pending m)
  verified-inserted m = ground (
    arith,
    settle-contains nonce.inbound_nonce m (put_key pending.nonces new),
    put-contains pending.nonces new m,
  )

-- What an insertion leaves: a well-formed channel with one verified nonce more.
pub record Inserts (nonce : Nonce) (pending : PendingInboundNonce) (new : ℕ)
    (r : PendingInboundNonce × Nonce) : Type 0 where
  pub channel : IsChannel r.1 r.0
  pub verifies : (m : ℕ) → verified r.1 r.0 m ≡ (m == new || verified nonce pending m)
  pub onward : nonce.inbound_nonce ≤ r.1.inbound_nonce
  pub outbound : r.1.outbound_nonce ≡ nonce.outbound_nonce
  pub bump : r.1.bump ≡ nonce.bump
  pub pending_bump : r.0.bump ≡ pending.bump

-- In a well-formed channel whose inbound nonce is at least 257 below 2^64, inserting a nonce that
-- is above the inbound nonce by at most 256 succeeds. The channel stays well formed, exactly that
-- nonce joins the verified ones, the inbound nonce does not go back, and the outbound nonce and both
-- bumps are kept.
pub insert_verifies :
    (nonce : Nonce) (pending : PendingInboundNonce) (new : ℕ)
    → IsChannel nonce pending
    → nonce.inbound_nonce < new
    → new ≤ nonce.inbound_nonce + 256
    → nonce.inbound_nonce + 256 < 2 ^ 64
    → (r : PendingInboundNonce × Nonce) × (insert_pending_inbound_nonce pending new nonce ≡ ok r)
      × Inserts nonce pending new r
insert_verifies nonce pending new c lo hi w = elim (Bool-cases (contains new pending.nonces)) [
  | inl known ↦ (
    (pending, nonce),
    insert-old nonce pending new c lo hi w known,
    record {
      channel = c;
      verifies = λ m. ground (arith, contains-eq m new pending.nonces, known);
      onward = omega arith;
      outbound = refl;
      bump = refl;
      pending_bump = refl;
    },
  )
  | inr fresh ↦ (
    inserted nonce pending new,
    insert-new nonce pending new c lo hi w fresh,
    record {
      channel = inserted-IsChannel nonce pending new c lo hi w;
      verifies = verified-inserted nonce pending new c;
      onward = (settle-drop nonce.inbound_nonce (put_key pending.nonces new)).0;
      outbound = refl;
      bump = refl;
      pending_bump = refl;
    },
  )
]
  where
    contains-eq : (m k : ℕ) (xs : List ℕ) → m ≡ k → contains m xs ≡ contains k xs
    contains-eq m k xs e = rw e

check_window-eq-ok :
    (inbound new : ℕ) {u : Unit {0}}
    → check_window inbound new ≡ ok u
    → (inbound < new) × (new ≤ inbound + 256) × (inbound + 256 < 2 ^ 64)
unfolding check_window
check_window-eq-ok inbound new h = ground arith

pub insert-window :
    (nonce : Nonce) (pending : PendingInboundNonce) (new : ℕ) {r : PendingInboundNonce × Nonce}
    → insert_pending_inbound_nonce pending new nonce ≡ ok r
    → (nonce.inbound_nonce < new)
      × (new ≤ nonce.inbound_nonce + 256)
      × (nonce.inbound_nonce + 256 < 2 ^ 64)
unfolding insert_pending_inbound_nonce
insert-window nonce pending new h =
    let (u, passed, rest) = >>=-eq-ok (check_window nonce.inbound_nonce new) _ h in
    check_window-eq-ok nonce.inbound_nonce new passed

-- What any successful insertion into a well-formed channel leaves.
pub insert-IsChannel :
    (nonce : Nonce) (pending : PendingInboundNonce) (new : ℕ) (r : PendingInboundNonce × Nonce)
    → IsChannel nonce pending
    → insert_pending_inbound_nonce pending new nonce ≡ ok r
    → Inserts nonce pending new r
insert-IsChannel nonce pending new r c h =
    let (lo, hi, w) = insert-window nonce pending new h in
    let (r', e, rest) = insert_verifies nonce pending new c lo hi w in
    subst (Inserts nonce pending new) (ok_injective r' r (sym e ∙ h)) rest
  where
    ok_injective : (a b : PendingInboundNonce × Nonce) → ok a ≡ ok b → a ≡ b
    ok_injective a b p = cc

contains-below : (m n : ℕ) (xs : List ℕ) → All (λ y. y ≤ n) xs → n < m → contains m xs ≡ false
contains-below m n [] h l = refl
contains-below m n (x ∷ xs) h l = ground (arith, contains-below m n xs h.1 l)

-- In a well-formed channel every nonce up to the inbound nonce is verified, the next one is not, and
-- no nonce more than 256 beyond it is.
pub inbound_nonce_max :
    (nonce : Nonce) (pending : PendingInboundNonce)
    → IsChannel nonce pending
    → ((m : ℕ) → m ≤ nonce.inbound_nonce → verified nonce pending m ≡ true)
      × (verified nonce pending (nonce.inbound_nonce + 1) ≡ false)
      × ((m : ℕ) → nonce.inbound_nonce + 256 < m → verified nonce pending m ≡ false)
inbound_nonce_max nonce pending c = (
  (λ m h. rw (le→leb m _ h)),
  ground (arith, contains-above (n + 1) (n + 1) pending.nonces c.gap),
  (λ m h. ground (arith, contains-below m (n + 256) pending.nonces c.window)),
)
  where
    n : ℕ
    n = nonce.inbound_nonce
