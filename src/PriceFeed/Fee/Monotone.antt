-- ===== src/PriceFeed/Fee/Monotone.antt =====
-- The fee of a larger message is not less than that of a smaller one, and whatever a larger one does
-- not overflow, a smaller one does not.
use mathlib.Core.Path.{subst}
use native.Mathlib.Nat.{div-lt_iff_lt-mul}
use lz_v2_audit.Prelude.{
  ℕ, ◌+◌, ◌*◌, ◌/◌, ◌%◌, ◌^◌, ◌≤◌, ◌<◌, ◌≡◌, ap, Option, Option-cases, some, ltb, ◌==◌, Bool-cases,
  inl, inr, Result, ok, account, ◌>>=◌, >>=-eq-ok, ok-injective, in_bits, checked_add, checked_mul,
  checked_div, arith,
}
use lz_v2_audit.SortedList.{get_from_sorted_list_by_eid}
use lz_v2_audit.PriceFeed.{
  arbitrum, optimism, Price, eid_of, PriceFeed, PriceFeedAccount, eid_modulus,
}
use lz_v2_audit.PriceFeed.Fee.{
  estimate_fee_with_default_model, estimate_fee_with_optimism_model,
  estimate_fee_with_arbitrum_model, estimate_fee, get_fee,
}

-- When the second has a value, the first has one that is not above it.
Below : Result ℕ → Result ℕ → Type 0
Below m m' = (r' : ℕ) → m' ≡ ok r' → (r : ℕ) × (m ≡ ok r) × (r ≤ r')

Below->>= :
    (m m' : Result ℕ) (k k' : ℕ → Result ℕ)
    → Below m m'
    → ((r r' : ℕ) → r ≤ r' → Below (k r) (k' r'))
    → Below (m >>= k) (m' >>= k')
unfolding Below
Below->>= m m' k k' h hk r' e' =
    let (v', e1, e2) = >>=-eq-ok m' k' e' in
    let (v, f1, l) = h v' e1 in let (r, f2, l') = hk v v' l r' e2 in (r, rw f1 f2, l')

Below-shared {ℓ} :
    {A : Type ℓ} (m : Result A) (k k' : A → Result ℕ)
    → ((a : A) → Below (k a) (k' a))
    → Below (m >>= k) (m >>= k')
unfolding Below
Below-shared m k k' hk r' e' =
    let (a, e1, e2) = >>=-eq-ok m k' e' in let (r, f, l) = hk a r' e2 in (r, rw e1 f, l)

in_bits-Below : (w n n' : ℕ) → n ≤ n' → Below (in_bits w n) (in_bits w n')
unfolding Below
in_bits-Below w n n' h r' e = elim (Bool-cases (ltb n' (2 ^ w))) [
  | inl fits ↦ (n, ground arith, ground arith)
  | inr over ↦ ground arith
]

add-Below : (w a a' b b' : ℕ) → a ≤ a' → b ≤ b' → Below (checked_add w a b) (checked_add w a' b')
add-Below w a a' b b' h k = in_bits-Below w (a + b) (a' + b') (omega arith)

mul-Below : (w a a' b : ℕ) → a ≤ a' → Below (checked_mul w a b) (checked_mul w a' b)
mul-Below w a a' b h = in_bits-Below w (a * b) (a' * b) (grind arith)

quotients : (a a' d : ℕ) → 0 < d → a ≤ a' → a / d ≤ a' / d
quotients a a' d pos h = omega (arith, (div-lt_iff_lt-mul {x = a} {y = a' / d + 1} pos).1 below)
  where
    below : a < (a' / d + 1) * d
    below = omega (arith, (div-lt_iff_lt-mul {x = a'} {y = a' / d + 1} pos).0 (omega arith))

div-Below : (a a' d : ℕ) → a ≤ a' → Below (checked_div a d) (checked_div a' d)
unfolding Below
div-Below a a' d h r' e = elim (Bool-cases (d == 0)) [
  | inl nil ↦ ground arith
  | inr positive ↦ (a / d, ground arith, ground (arith, quotients a a' d))
]

module _ (feed : PriceFeed) (price : Price) (c c' g g' : ℕ) (less : c ≤ c') (fewer : g ≤ g') where
  -- What the gas of all costs.
  cost-Below :
      (p : Price) (t t' : ℕ)
      → t ≤ t'
      → Below
          (do
            in_unit ← checked_mul 128 t p.gas_price_in_unit
            scaled ← checked_mul 128 in_unit p.price_ratio
            checked_div scaled feed.price_ratio_denominator)
          (do
            in_unit ← checked_mul 128 t' p.gas_price_in_unit
            scaled ← checked_mul 128 in_unit p.price_ratio
            checked_div scaled feed.price_ratio_denominator)
  cost-Below p t t' h = Below->>= _ _ _ _ (mul-Below 128 t t' p.gas_price_in_unit h) (λ u u' hu.
      Below->>= _ _ _ _ (mul-Below 128 u u' p.price_ratio hu)
        (λ s s' hs. div-Below s s' feed.price_ratio_denominator hs))

  default-Below :
      Below
        (estimate_fee_with_default_model feed price c g)
        (estimate_fee_with_default_model feed price c' g')
  unfolding estimate_fee_with_default_model
  default-Below = Below->>= _ _ _ _ (mul-Below 64 c c' price.gas_per_byte less) (λ b b' hb.
      Below->>= _ _ _ _ (add-Below 128 g g' b b' fewer hb) (λ t t' ht. cost-Below price t t' ht))

  arbitrum-Below :
      (tx per_byte : ℕ)
      → Below
          (estimate_fee_with_arbitrum_model feed price c g tx per_byte)
          (estimate_fee_with_arbitrum_model feed price c' g' tx per_byte)
  unfolding estimate_fee_with_arbitrum_model
  arbitrum-Below tx per_byte = Below->>= _ _ _ _ (mul-Below 64 c c' per_byte less) (λ b b' hb.
      Below->>= _ _ _ _ (mul-Below 64 c c' price.gas_per_byte less) (λ d d' hd.
        Below->>= _ _ _ _ (add-Below 128 g g' tx tx fewer (omega arith)) (λ x x' hx.
          Below->>= _ _ _ _ (add-Below 128 x x' b b' hx hb) (λ y y' hy.
            Below->>= _ _ _ _ (add-Below 128 y y' d d' hy hd)
              (λ t t' ht. cost-Below price t t' ht)))))

  optimism-Below :
      (l1 : Price)
      → Below
          (estimate_fee_with_optimism_model feed price c g l1)
          (estimate_fee_with_optimism_model feed price c' g' l1)
  unfolding estimate_fee_with_optimism_model
  optimism-Below l1 = Below->>= _ _ _ _ (mul-Below 64 c c' l1.gas_per_byte less) (λ b b' hb.
      Below->>= _ _ _ _ (add-Below 64 b b' 3188 3188 hb (omega arith)) (λ x x' hx.
        Below->>= _ _ _ _ (mul-Below 64 x x' l1.gas_price_in_unit hx) (λ u u' hu.
          Below->>= _ _ _ _ (mul-Below 128 u u' l1.price_ratio hu) (λ s s' hs.
            Below->>= _ _ _ _ (div-Below s s' feed.price_ratio_denominator hs) (λ f f' hf.
              Below->>= _ _ _ _ (mul-Below 64 c c' price.gas_per_byte less) (λ d d' hd.
                Below->>= _ _ _ _ (add-Below 128 g g' d d' fewer hd) (λ t t' ht.
                  Below->>= _ _ _ _ (mul-Below 128 t t' price.gas_price_in_unit ht) (λ v v' hv.
                    Below->>= _ _ _ _ (mul-Below 128 v v' price.price_ratio hv) (λ w w' hw.
                      Below->>= _ _ _ _ (div-Below w w' feed.price_ratio_denominator hw)
                        (λ z z' hz. add-Below 128 z z' f f' hz hf))))))))))

estimate-Below :
    (feed : PriceFeed) (price : Price) (c c' g g' : ℕ)
    → c ≤ c'
    → g ≤ g'
    → Below (estimate_fee feed price c g) (estimate_fee feed price c' g')
unfolding estimate_fee
estimate-Below feed price c c' g g' less fewer = elim (Option-cases price.model_type) [
  | inl e ↦ rw e (default-Below feed price c c' g g' less fewer)
  | inr (arbitrum tx per_byte, e) ↦
      rw e (arbitrum-Below feed price c c' g g' less fewer tx per_byte)
  | inr (optimism l1_eid, e) ↦ rw e (
      Below-shared (get_from_sorted_list_by_eid eid_of feed.prices (l1_eid % eid_modulus)) _ _
        (λ l1.
          optimism-Below feed (record price { model_type = some (optimism l1_eid) }) c c' g g' less
            fewer l1))
]

abbrev answered : ℕ × (ℕ × Option ℕ) → ℕ → Result (ℕ × (ℕ × (ℕ × Option ℕ)))
answered answers fee = ok (fee, answers)

with_answers :
    (m m' : Result ℕ) (answers rest : ℕ × (ℕ × Option ℕ)) (fee' : ℕ)
    → Below m m'
    → (m' >>= answered answers) ≡ ok (fee', rest)
    → (fee : ℕ) × ((m >>= answered answers) ≡ ok (fee, rest)) × (fee ≤ fee')
unfolding Below
with_answers m m' answers rest fee' below h =
    let (f', e, h1) = >>=-eq-ok m' _ h in
    let (f, e1, l) = below f' e in
    let same : (f', answers) ≡ (fee', rest) = ok-injective h1 in
    (
      f,
      rw e1 (ap (λ (p : ℕ × (ℕ × (ℕ × Option ℕ))). ok (f, p.1)) same),
      subst (λ (n : ℕ). f ≤ n) (ap (λ (p : ℕ × (ℕ × (ℕ × Option ℕ))). p.0) same) l,
    )

-- If the price feed has a fee for a message, it has one for every message to the same chain with no
-- more calldata and no more gas, which is not higher, and the other answers are the same.
pub get_fee_monotone :
    (a : Option PriceFeedAccount) (dst_eid c c' g g' fee' : ℕ) (rest : ℕ × (ℕ × Option ℕ))
    → c ≤ c'
    → g ≤ g'
    → get_fee a (record { dst_eid = dst_eid; calldata_size = c'; total_gas = g' }) ≡ ok (fee', rest)
    → (fee : ℕ) × (get_fee a (record { dst_eid = dst_eid; calldata_size = c; total_gas = g })
        ≡ ok (fee, rest))
      × (fee ≤ fee')
unfolding get_fee Below
get_fee_monotone a dst_eid c c' g g' fee' rest less fewer h =
    let (feed, e1, h1) = >>=-eq-ok (account a) _ h in
    let (price, e2, h2) =
      >>=-eq-ok (get_from_sorted_list_by_eid eid_of feed.data_of.prices (dst_eid % eid_modulus)) _
        h1 in
    let (f, e3, l) =
      with_answers _ _ _ rest fee' (estimate-Below feed.data_of price c c' g g' less fewer) h2 in
    (f, rw (e1, e2) e3, l)
