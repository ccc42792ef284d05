-- ===== src/Prelude/Keyed.antt =====
-- Accounts addressed by their seeds: a function from seeds to accounts, with an update.
use mathlib.Core.Path.{◌≡◌, refl}
use mathlib.Core.Logic.{◌↔◌, ◌≢◌, inl, inr}
use mathlib.Core.Bool.{Bool, true, ◌&&◌}
use Prim.Native.Nat.{ℕ}
use native.Mathlib.Omega.{arith}
use lz_v2_audit.Prelude.Compare.{◌==◌ as nat_beq, if◌then◌else◌, Bool-cases}

-- Equality of seeds.
pub record Eq {ℓ} (K : Type ℓ) : Type ℓ where
  pub beq : K → K → Bool
  pub beq_iff : (a b : K) → (beq a b ≡ true) ↔ (a ≡ b)

pub nat_beq_iff : (a b : ℕ) → (nat_beq a b ≡ true) ↔ (a ≡ b)
nat_beq_iff a b = ((λ h. ground arith), (λ h. ground arith))

instance abbrev pub nat_eq : Eq ℕ
nat_eq = record { beq = nat_beq; beq_iff = nat_beq_iff }

abbrev pub pair_beq : {A B : Type 0} ⦃a : Eq A⦄ ⦃b : Eq B⦄ → A × B → A × B → Bool
pair_beq ⦃a⦄ ⦃b⦄ (x, y) (x', y') = a.beq x x' && b.beq y y'

pub pair_beq_iff :
    {A B : Type 0} ⦃a : Eq A⦄ ⦃b : Eq B⦄ (p q : A × B) → (pair_beq p q ≡ true) ↔ (p ≡ q)
pair_beq_iff ⦃a⦄ ⦃b⦄ (x, y) (x', y') = (
  (λ h. ground (arith, (a.beq_iff x x').0, (b.beq_iff y y').0)),
  (λ h. ground (arith, (a.beq_iff x x').1, (b.beq_iff y y').1)),
)

instance abbrev pub pair_eq : {A B : Type 0} ⦃a : Eq A⦄ ⦃b : Eq B⦄ → Eq (A × B)
pair_eq = record { beq = pair_beq; beq_iff = pair_beq_iff }

module _ {ℓ κ} {K : Type ℓ} {V : Type κ} ⦃e : Eq K⦄ where
  -- The accounts after a write to the one at `k`.
  abbrev pub write : K → V → (K → V) → K → V
  write k v m j = if e.beq k j then v else m j

  pub write_self : (k : K) (v : V) (m : K → V) → write k v m k ≡ v
  write_self k v m = rw ((e.beq_iff k k).1 refl) refl

  pub write_ne : (k j : K) (v : V) (m : K → V) → k ≢ j → write k v m j ≡ m j
  write_ne k j v m h = elim (Bool-cases (e.beq k j)) [
    | inl same ↦ absurd (h ((e.beq_iff k j).0 same))
    | inr other ↦ rw other refl
  ]

  -- A property of every account after a write.
  pub write-at {μ} :
      (P : V → Type μ) (k j : K) (v : V) (m : K → V) → (k ≡ j → P v) → P (m j) → P (write k v m j)
  write-at P k j v m hit miss = elim (Bool-cases (e.beq k j)) [
    | inl same ↦ rw same (hit ((e.beq_iff k j).0 same))
    | inr other ↦ rw other miss
  ]

-- A property of two families of accounts after a write to each at the same seeds.
pub write-both {ℓ κ ν μ} :
    {K : Type ℓ} {V : Type κ} {W : Type ν} ⦃e : Eq K⦄ (P : V → W → Type μ) (k j : K) (v : V) (w : W)
    (m : K → V) (m' : K → W)
    → P v w
    → P (m j) (m' j)
    → P (write k v m j) (write k w m' j)
write-both ⦃e⦄ P k j v w m m' hit miss = elim (Bool-cases (e.beq k j)) [
  | inl same ↦ rw same hit
  | inr other ↦ rw other miss
]
