-- ===== src/Uln/Config/Valid.antt =====
-- Which configurations `UlnConfig::set_config` accepts.
use lz_v2_audit.Prelude.{
  ℕ, ◌≤◌, ◌<◌, ◌≡◌, ◌↔◌, refl, ap, ◌⊎◌, List, [], ◌∷◌, ltb, length, All, Result, ok, require, ◌>>◌,
  >>=-eq-ok, arith, UlnError, uln,
}
use lz_v2_audit.SortedList.Search.{IsIncreasing}
use lz_v2_audit.Uln.Config.{
  UlnConfig, assert_above, assert_no_duplicates, check_required, check_optional, set_config,
  nil_dvn_count, max_count,
}

-- A list of DVNs that is left to the default, or is asked to be empty.
abbrev pub IsUnset : ℕ → List ℕ → Type 0
IsUnset count dvns = ((count ≡ nil_dvn_count) ⊎ (count ≡ 0)) × (length dvns ≡ 0)

-- A list of one to sixteen DVNs, in strictly increasing order from above the zero key.
abbrev pub IsDvnList : ℕ → List ℕ → Type 0
IsDvnList count dvns =
    (0 < count) × (count ≤ max_count) × (length dvns ≡ count) × IsIncreasing (0 ∷ dvns)

pub record IsUlnConfig (config : UlnConfig) : Type 0 where
  pub required :
      IsUnset config.required_dvn_count config.required_dvns
      ⊎ IsDvnList config.required_dvn_count config.required_dvns
  pub optional :
      (IsUnset config.optional_dvn_count config.optional_dvns × (config.optional_dvn_threshold ≡ 0))
      ⊎ (IsDvnList config.optional_dvn_count config.optional_dvns
          × (0 < config.optional_dvn_threshold)
          × (config.optional_dvn_threshold ≤ config.optional_dvn_count))

All-above : (a b : ℕ) (xs : List ℕ) → a < b → All (λ y. b < y) xs → All (λ y. a < y) xs
All-above a b [] l h = tt
All-above a b (x ∷ xs) l h = (omega (arith, h.0), All-above a b xs l h.1)

assert_above-IsIncreasing :
    (last : ℕ) (dvns : List ℕ) {u : Unit {0}}
    → assert_above last dvns ≡ ok u
    → IsIncreasing (last ∷ dvns)
unfolding assert_above
assert_above-IsIncreasing last [] h = (tt, tt)
assert_above-IsIncreasing last (dvn ∷ dvns) h =
    let (above, rest) = split h in
    let (later, sorted) = assert_above-IsIncreasing dvn dvns rest in
    ((above, All-above last dvn dvns above later), (later, sorted))
  where
    split :
        {m : Result (Unit {0})} {u : Unit {0}}
        → (require (ltb last dvn) (uln UlnError.unsorted) >> m) ≡ ok u
        → (last < dvn) × (m ≡ ok u)
    split e = ground arith

assert_above_ok :
    (last : ℕ) (dvns : List ℕ) → IsIncreasing (last ∷ dvns) → assert_above last dvns ≡ ok tt
unfolding assert_above
assert_above_ok last [] s = refl
assert_above_ok last (dvn ∷ dvns) s = ground (arith, s.0.0, assert_above_ok dvn dvns s.1)

check_required_iff :
    (config : UlnConfig)
    → (check_required config ≡ ok tt) ↔ (
        IsUnset config.required_dvn_count config.required_dvns
        ⊎ IsDvnList config.required_dvn_count config.required_dvns)
unfolding check_required assert_no_duplicates
check_required_iff config = (
  (λ h. ground (arith, assert_above-IsIncreasing 0 config.required_dvns {u = tt})),
  (λ v. ground (arith, v, assert_above_ok 0 config.required_dvns)),
)

check_optional_iff :
    (config : UlnConfig)
    → (check_optional config ≡ ok tt) ↔ (
        (IsUnset config.optional_dvn_count config.optional_dvns
          × (config.optional_dvn_threshold ≡ 0))
        ⊎ (IsDvnList config.optional_dvn_count config.optional_dvns
            × (0 < config.optional_dvn_threshold)
            × (config.optional_dvn_threshold ≤ config.optional_dvn_count)))
unfolding check_optional assert_no_duplicates
check_optional_iff config = (
  (λ h. ground (arith, assert_above-IsIncreasing 0 config.optional_dvns {u = tt})),
  (λ v. ground (arith, v, assert_above_ok 0 config.optional_dvns)),
)

-- A configuration is stored, as it was given, exactly if each of its lists is unset and empty or
-- holds the stated number of one to sixteen DVNs in increasing order above zero, and the threshold
-- is zero without optional DVNs and from one to their number with them.
pub set_config_iff :
    (config config' : UlnConfig)
    → (set_config config ≡ ok config') ↔ (IsUlnConfig config × (config ≡ config'))
unfolding set_config
set_config_iff config config' = (
  (λ h.
      let (u, e1, h1) = >>=-eq-ok (check_required config) _ h in
      let (u', e2, h2) = >>=-eq-ok (check_optional config) _ h1 in
      (
        record {
          required = (check_required_iff config).0 e1;
          optional = (check_optional_iff config).0 e2;
        },
        ground (arith, h2),
      )),
  (λ v.
      rw ((check_required_iff config).1 v.0.required, (check_optional_iff config).1 v.0.optional)
        (ap ok v.1)),
)
