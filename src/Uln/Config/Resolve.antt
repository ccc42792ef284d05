-- ===== src/Uln/Config/Resolve.antt =====
-- What `UlnConfig::get_config` makes of an accepted default configuration and an accepted custom one.
use lz_v2_audit.Prelude.{
  ℕ, ◌≤◌, ◌<◌, ◌≡◌, ◌≢◌, refl, ◌⊎◌, List, [], ◌∷◌, not, ◌||◌, ◌==◌, ltb, length, ok, require, ◌>>◌,
  >>=-eq-ok, ok-injective, arith, UlnError, uln,
}
use mathlib.Core.Path.{subst}
use lz_v2_audit.SortedList.Search.{IsIncreasing}
use lz_v2_audit.Uln.Config.{
  UlnConfig, assert_at_least_one_dvn, set_config, set_default_config, resolve_confirmations,
  resolve_required, resolve_optional, merge, get_config, default_uln_config, nil_dvn_count,
  nil_confirmations, max_count,
}
use lz_v2_audit.Uln.Config.Valid.{IsUlnConfig, set_config_iff}
use lz_v2_audit.Uln.Verification.Quorum.{IsResolved}

-- A resolved configuration has no NIL left, and its lists are increasing and at most sixteen long.
pub record IsUsable (config : UlnConfig) : Type 0 where
  pub resolved : IsResolved config
  pub required_bound : config.required_dvn_count ≤ max_count
  pub optional_bound : config.optional_dvn_count ≤ max_count
  pub required_sorted : IsIncreasing (0 ∷ config.required_dvns)
  pub optional_sorted : IsIncreasing (0 ∷ config.optional_dvns)
  pub confirmations_set : config.confirmations ≢ nil_confirmations

-- An accepted default configuration: valid, with no NIL and at least one DVN.
pub record IsDefault (config : UlnConfig) : Type 0 where
  pub valid : IsUlnConfig config
  pub no_nil_required : config.required_dvn_count ≢ nil_dvn_count
  pub no_nil_optional : config.optional_dvn_count ≢ nil_dvn_count
  pub no_nil_confirmations : config.confirmations ≢ nil_confirmations
  pub at_least_one : (0 < config.required_dvn_count) ⊎ (0 < config.optional_dvn_threshold)

pub set_default_config-IsDefault :
    (given default : UlnConfig) → set_default_config given ≡ ok default → IsDefault default
unfolding set_default_config assert_at_least_one_dvn
set_default_config-IsDefault given default h =
    let (u1, e1, h1) =
      >>=-eq-ok
        (require (not (given.required_dvn_count == nil_dvn_count))
          (uln UlnError.invalid_required_dvn_count))
        _ h in
    let (u2, e2, h2) =
      >>=-eq-ok
        (require (not (given.optional_dvn_count == nil_dvn_count))
          (uln UlnError.invalid_optional_dvn_count))
        _ h1 in
    let (u3, e3, h3) =
      >>=-eq-ok
        (require (not (given.confirmations == nil_confirmations))
          (uln UlnError.invalid_confirmations))
        _ h2 in
    let (u4, e4, h4) =
      >>=-eq-ok
        (require (ltb 0 given.required_dvn_count || ltb 0 given.optional_dvn_threshold)
          (uln UlnError.at_least_one_dvn))
        _ h3 in
    let (valid, same) = (set_config_iff given default).0 h4 in
    subst IsDefault same (record {
      valid = valid;
      no_nil_required = λ nil. ground (arith, nil, e1);
      no_nil_optional = λ nil. ground (arith, nil, e2);
      no_nil_confirmations = λ nil. ground (arith, nil, e3);
      at_least_one = ground (arith, e4);
    })

required_usable :
    (default custom : UlnConfig)
    → IsDefault default
    → IsUlnConfig custom
    → (length (resolve_required default custom).1 ≡ (resolve_required default custom).0)
      × ((resolve_required default custom).0 ≤ max_count)
      × IsIncreasing (0 ∷ (resolve_required default custom).1)
unfolding resolve_required
required_usable default custom d c = ground (arith, d.valid.required, c.required, d.no_nil_required)

optional_usable :
    (default custom : UlnConfig)
    → IsDefault default
    → IsUlnConfig custom
    → (length (resolve_optional default custom).2 ≡ (resolve_optional default custom).0)
      × ((resolve_optional default custom).0 ≤ max_count)
      × ((resolve_optional default custom).1 ≤ (resolve_optional default custom).0)
      × IsIncreasing (0 ∷ (resolve_optional default custom).2)
unfolding resolve_optional
optional_usable default custom d c = ground (arith, d.valid.optional, c.optional, d.no_nil_optional)

pub resolved-IsUsable :
    (default custom config : UlnConfig)
    → IsDefault default
    → IsUlnConfig custom
    → get_config default custom ≡ ok config
    → IsUsable config
unfolding get_config merge assert_at_least_one_dvn resolve_confirmations
resolved-IsUsable default custom config d c h =
    let (u, e, h1) = >>=-eq-ok (assert_at_least_one_dvn (merge default custom)) _ h in
    let (required_length, required_bound, required_sorted) = required_usable default custom d c in
    let (optional_length, optional_bound, reachable, optional_sorted) =
      optional_usable default custom d c in
    subst IsUsable (ok-injective h1) (record {
      resolved = record {
        required_length = required_length;
        optional_length = optional_length;
        threshold_reachable = reachable;
        at_least_one = some_dvn (merge default custom) e;
      };
      required_bound = required_bound;
      optional_bound = optional_bound;
      required_sorted = required_sorted;
      optional_sorted = optional_sorted;
      confirmations_set = confirmed default custom d.no_nil_confirmations;
    })
  where
    some_dvn :
        (config : UlnConfig) {u : Unit {0}}
        → assert_at_least_one_dvn config ≡ ok u
        → (0 < config.required_dvn_count) ⊎ (0 < config.optional_dvn_threshold)
    some_dvn config e = ground arith

    confirmed :
        (default custom : UlnConfig)
        → default.confirmations ≢ nil_confirmations
        → resolve_confirmations default custom ≢ nil_confirmations
    confirmed default custom set same = ground (arith, set, same)

-- Whatever accepted default and custom configurations are stored, a configuration that they resolve
-- to has lists of the stated lengths, sixteen at most and in increasing order, a threshold that the
-- optional DVNs can reach, at least one DVN that must confirm, and no NIL for its confirmations.
pub get_config-IsUsable :
    (given default given_custom custom config : UlnConfig)
    → set_default_config given ≡ ok default
    → set_config given_custom ≡ ok custom
    → get_config default custom ≡ ok config
    → IsUsable config
get_config-IsUsable given default given_custom custom config hd hc h =
    let (valid, same) = (set_config_iff given_custom custom).0 hc in
    resolved-IsUsable default custom config (set_default_config-IsDefault given default hd)
      (subst IsUlnConfig same valid) h

no_dvns : (dvns : List ℕ) → length dvns ≡ 0 → dvns ≡ []
no_dvns [] e = refl
no_dvns (dvn ∷ dvns) e = absurd (omega (arith, e))

default_required :
    (default : UlnConfig)
    → IsDefault default
    → resolve_required default default_uln_config
      ≡ (default.required_dvn_count, default.required_dvns)
unfolding resolve_required
default_required default d =
    ground (arith, d.valid.required, d.no_nil_required, no_dvns default.required_dvns)

default_optional :
    (default : UlnConfig)
    → IsDefault default
    → resolve_optional default default_uln_config
      ≡ (default.optional_dvn_count, default.optional_dvn_threshold, default.optional_dvns)
unfolding resolve_optional
default_optional default d =
    ground (arith, d.valid.optional, d.no_nil_optional, no_dvns default.optional_dvns)

-- An oapp that has set nothing gets an accepted default configuration unchanged.
pub get_config_default :
    (given default : UlnConfig)
    → set_default_config given ≡ ok default
    → get_config default default_uln_config ≡ ok default
unfolding get_config merge assert_at_least_one_dvn resolve_confirmations
get_config_default given default h =
    let d = set_default_config-IsDefault given default h in
    rw (default_required default d, default_optional default d) (accepted default d.at_least_one)
  where
    accepted :
        (config : UlnConfig)
        → (0 < config.required_dvn_count) ⊎ (0 < config.optional_dvn_threshold)
        → (assert_at_least_one_dvn config >> ok config) ≡ ok config
    accepted config some_dvn = ground (arith, some_dvn)
