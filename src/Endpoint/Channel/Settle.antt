-- ===== src/Endpoint/Channel/Settle.antt =====
-- What `update_inbound_nonce` computes, as one recursion over the pending nonces.
use lz_v2_audit.Prelude.{
  ℕ, suc, ◌+◌, ◌-◌, ◌^◌, ◌≤◌, ◌<◌, ◌≡◌, refl, ◌||◌, List, [], ◌∷◌, length, drop, All, contains, ok,
  arith, leb, ◌==◌, if◌then◌else◌, Bool-cases, ==→eq, inl, inr,
}
use lz_v2_audit.SortedList.Search.{IsIncreasing}
use lz_v2_audit.Endpoint.State.{Nonce, PendingInboundNonce}
use lz_v2_audit.Endpoint.Channel.{advance, update_inbound_nonce}

-- Take nonces off the list while they continue the inbound nonce.
abbrev pub settle : ℕ → List ℕ → ℕ × List ℕ
settle n [] = (n, [])
settle n (x ∷ xs) = if x == n + 1 then settle x xs else (n, x ∷ xs)

abbrev pub IsU64 : ℕ → Type 0
IsU64 n = n < 2 ^ 64

pub advance-settle :
    (n : ℕ) (xs : List ℕ)
    → IsIncreasing xs
    → All (λ y. n < y) xs
    → All IsU64 xs
    → advance n xs ≡ ok (settle n xs).0
unfolding advance
advance-settle n [] s a w = refl
advance-settle n (x ∷ xs) s a w = ground (arith, advance-settle x xs s.1 s.0 w.1)

pub settle-drop :
    (n : ℕ) (xs : List ℕ)
    → (n ≤ (settle n xs).0)
      × ((settle n xs).0 - n ≤ length xs)
      × (drop ((settle n xs).0 - n) xs ≡ (settle n xs).1)
settle-drop n [] = ground arith
settle-drop n (x ∷ xs) = elim (Bool-cases (x == n + 1)) [
  | inr gap ↦ rw gap (ground arith)
  | inl next ↦ rw next (
      let (up, within, rest) = settle-drop x xs in
      let e : x ≡ n + 1 = ==→eq x (n + 1) next in
      let step : (settle x xs).0 - n ≡ suc ((settle x xs).0 - x) = omega (arith, up, e) in
      (omega (arith, up, e), omega (arith, within, step), rw step rest))
]

settle_same : (n : ℕ) (xs : List ℕ) → (settle n xs).0 ≡ n → (settle n xs).1 ≡ xs
settle_same n [] e = refl
settle_same n (x ∷ xs) e = ground (arith, settle-drop x xs)

-- `update_inbound_nonce` on a sorted list above the inbound nonce.
pub update-settle :
    (nonce : Nonce) (pending : PendingInboundNonce)
    → IsIncreasing pending.nonces
    → All (λ y. nonce.inbound_nonce < y) pending.nonces
    → All IsU64 pending.nonces
    → update_inbound_nonce nonce pending
      ≡ ok (
          let (inbound_nonce, nonces) = settle nonce.inbound_nonce pending.nonces in
          (record pending { nonces = nonces }, record nonce { inbound_nonce = inbound_nonce }))
unfolding update_inbound_nonce
update-settle nonce pending s a w = ground (
  arith,
  advance-settle nonce.inbound_nonce pending.nonces s a w,
  settle-drop nonce.inbound_nonce pending.nonces,
  settle_same nonce.inbound_nonce pending.nonces,
)

pub settle-All {κ} : (P : ℕ → Type κ) (n : ℕ) (xs : List ℕ) → All P xs → All P (settle n xs).1
settle-All P n [] h = h
settle-All P n (x ∷ xs) h = elim (Bool-cases (x == n + 1)) [
  | inr gap ↦ rw gap h
  | inl next ↦ rw next (settle-All P x xs h.1)
]

pub settle-IsIncreasing : (n : ℕ) (xs : List ℕ) → IsIncreasing xs → IsIncreasing (settle n xs).1
settle-IsIncreasing n [] s = s
settle-IsIncreasing n (x ∷ xs) s = ground (arith, settle-IsIncreasing x xs s.1)

above_suc : (n x : ℕ) (xs : List ℕ) → n < x → All (λ y. x < y) xs → All (λ y. n + 1 < y) xs
above_suc n x [] h a = tt
above_suc n x (y ∷ ys) h a = (omega arith, above_suc n x ys h a.1)

-- What is left does not continue the new inbound nonce.
pub settle-gap :
    (n : ℕ) (xs : List ℕ)
    → IsIncreasing xs
    → All (λ y. n < y) xs
    → All (λ y. (settle n xs).0 + 1 < y) (settle n xs).1
settle-gap n [] s a = tt
settle-gap n (x ∷ xs) s a = elim (Bool-cases (x == n + 1)) [
  | inr gap ↦ rw gap (ground arith, above_suc n x xs a.0 s.0)
  | inl next ↦ rw next (settle-gap x xs s.1 s.0)
]

pub settle-IsU64 : (n : ℕ) (xs : List ℕ) → IsU64 n → All IsU64 xs → IsU64 (settle n xs).0
settle-IsU64 n [] h w = h
settle-IsU64 n (x ∷ xs) h w = ground (arith, settle-IsU64 x xs w.0 w.1)

-- Moving nonces from the list below the inbound nonce loses none and adds none.
pub settle-contains :
    (n m : ℕ) (xs : List ℕ)
    → (leb m (settle n xs).0 || contains m (settle n xs).1) ≡ (leb m n || contains m xs)
settle-contains n m [] = refl
settle-contains n m (x ∷ xs) = ground (arith, settle-contains x m xs)
