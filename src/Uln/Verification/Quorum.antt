-- ===== src/Uln/Verification/Quorum.antt =====
-- What `check_verifiable` counts: every required DVN, and a threshold of the optional ones.
use lz_v2_audit.Prelude.{
  ℕ, ◌+◌, ◌-◌, ◌≤◌, ◌<◌, ◌≡◌, refl, ◌⊎◌, List, [], ◌∷◌, Bool, true, false, ◌&&◌, leb, length,
  Result, ok, err, panic, arith,
}
use lz_v2_audit.Uln.Config.{UlnConfig}
use lz_v2_audit.Uln.Verification.{
  AccountInfo, Addresses, verified_at, all_verified, threshold_reached,
}

-- What the counting relies on, and a resolved configuration has: the lists have the lengths that are
-- stated, and some DVN must confirm.
pub record IsResolved (config : UlnConfig) : Type 0 where
  pub required_length : length config.required_dvns ≡ config.required_dvn_count
  pub optional_length : length config.optional_dvns ≡ config.optional_dvn_count
  pub threshold_reachable : config.optional_dvn_threshold ≤ config.optional_dvn_count
  pub at_least_one : (0 < config.required_dvn_count) ⊎ (0 < config.optional_dvn_threshold)

-- An answer that confirms.
abbrev pub confirms : Result Bool → Bool
confirms (ok b) = b
confirms (err e) = false
confirms panic = false

abbrev IsAnswer : Result Bool → Type 0
IsAnswer (ok b) = Unit
IsAnswer (err e) = ⊥
IsAnswer panic = ⊥

abbrev one_if : Bool → ℕ
one_if true = 1
one_if false = 0

module _ (env : Addresses) (header_hash payload_hash required_conf : ℕ)
    (accounts : List AccountInfo) where
  abbrev answer : ℕ → ℕ → Result Bool
  answer = verified_at env header_hash payload_hash required_conf accounts

  -- Each DVN of a list, with its account from place `i` on, has confirmed.
  abbrev pub all_confirmed : ℕ → List ℕ → Bool
  all_confirmed i [] = true
  all_confirmed i (dvn ∷ dvns) = confirms (answer i dvn) && all_confirmed (i + 1) dvns

  -- How many have.
  abbrev pub confirmed_count : ℕ → List ℕ → ℕ
  confirmed_count i [] = 0
  confirmed_count i (dvn ∷ dvns) = one_if (confirms (answer i dvn)) + confirmed_count (i + 1) dvns

  -- No account of the list is refused.
  abbrev pub AllAnswer : ℕ → List ℕ → Type 0
  AllAnswer i [] = Unit
  AllAnswer i (dvn ∷ dvns) = IsAnswer (answer i dvn) × AllAnswer (i + 1) dvns

  pub all_verified_sound :
      (i : ℕ) (dvns : List ℕ)
      → all_verified env header_hash payload_hash required_conf accounts i dvns ≡ ok true
      → all_confirmed i dvns ≡ true
  unfolding all_verified
  all_verified_sound i [] h = refl
  all_verified_sound i (dvn ∷ dvns) h = ground (arith, all_verified_sound (i + 1) dvns)

  pub threshold_reached_sound :
      (i threshold : ℕ) (dvns : List ℕ)
      → threshold_reached env header_hash payload_hash required_conf accounts i threshold dvns
        ≡ ok true
      → threshold ≤ confirmed_count i dvns
  unfolding threshold_reached
  threshold_reached_sound i threshold [] h = cc
  threshold_reached_sound i threshold (dvn ∷ dvns) h = ground (
    arith,
    threshold_reached_sound (i + 1) threshold dvns,
    threshold_reached_sound (i + 1) (threshold - 1) dvns,
  )

  pub all_verified_complete :
      (i : ℕ) (dvns : List ℕ)
      → AllAnswer i dvns
      → all_verified env header_hash payload_hash required_conf accounts i dvns
        ≡ ok (all_confirmed i dvns)
  unfolding all_verified
  all_verified_complete i [] h = refl
  all_verified_complete i (dvn ∷ dvns) h = ground (arith, all_verified_complete (i + 1) dvns h.1)

  pub threshold_reached_complete :
      (i threshold : ℕ) (dvns : List ℕ)
      → 0 < threshold
      → AllAnswer i dvns
      → threshold_reached env header_hash payload_hash required_conf accounts i threshold dvns
        ≡ ok (leb threshold (confirmed_count i dvns))
  unfolding threshold_reached
  threshold_reached_complete i threshold [] pos h = ground arith
  threshold_reached_complete i threshold (dvn ∷ dvns) pos h = ground (
    arith,
    threshold_reached_complete (i + 1) threshold dvns pos h.1,
    (λ (p : 0 < threshold - 1). threshold_reached_complete (i + 1) (threshold - 1) dvns p h.1),
  )
