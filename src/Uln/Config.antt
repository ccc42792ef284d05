-- ===== src/Uln/Config.antt =====
-- programs/uln/src/state/uln.rs: the configurations of the message library, and how an oapp's own
-- one is resolved against the default one.
pub mod Valid
pub mod Resolve
use lz_v2_audit.Prelude.{
  ℕ, ◌-◌, ◌^◌, List, [], ◌∷◌, Bool, not, ◌&&◌, ◌||◌, ◌==◌, ltb, leb, length, if◌then◌else◌, Result,
  ok, err, require, ◌>>=◌, ◌>>◌, UlnError, uln,
}

pub record UlnConfig : Type 0 where
  pub confirmations : ℕ
  pub required_dvn_count : ℕ
  pub optional_dvn_count : ℕ
  pub optional_dvn_threshold : ℕ
  pub required_dvns : List ℕ
  pub optional_dvns : List ℕ

-- DVN_MAX_LEN, which is MAX_COUNT too.
abbrev pub max_count : ℕ
max_count = 16

-- `u8::MAX` and `u64::MAX`, by which an oapp asks for a literal zero.
abbrev pub nil_dvn_count : ℕ
nil_dvn_count = 255

abbrev pub nil_confirmations : ℕ
nil_confirmations = 2 ^ 64 - 1

-- `UlnConfig::default()`
abbrev pub default_uln_config : UlnConfig
default_uln_config = record {
  confirmations = 0;
  required_dvn_count = 0;
  optional_dvn_count = 0;
  optional_dvn_threshold = 0;
  required_dvns = [];
  optional_dvns = [];
}

-- The loop of `assert_no_duplicates`, each key above the last one.
pub assert_above : ℕ → List ℕ → Result (Unit {0})
assert_above last [] = ok tt
assert_above last (dvn ∷ dvns) =
    require (ltb last dvn) (uln UlnError.unsorted) >> assert_above dvn dvns

unfoldable pub assert_no_duplicates : List ℕ → Result (Unit {0})
unfolding assert_above
assert_no_duplicates dvns = assert_above 0 dvns

pub assert_at_least_one_dvn : UlnConfig → Result (Unit {0})
assert_at_least_one_dvn config =
    require (ltb 0 config.required_dvn_count || ltb 0 config.optional_dvn_threshold)
      (uln UlnError.at_least_one_dvn)

-- The two halves of `UlnConfig::set_config`, before it writes.
pub check_required : UlnConfig → Result (Unit {0})
check_required config =
    if config.required_dvn_count == nil_dvn_count || config.required_dvn_count == 0
    then require (length config.required_dvns == 0) (uln UlnError.invalid_required_dvn_count)
    else (do
      require
          (length config.required_dvns == config.required_dvn_count
            && leb config.required_dvn_count max_count)
          (uln UlnError.invalid_required_dvn_count)
      assert_no_duplicates config.required_dvns)

pub check_optional : UlnConfig → Result (Unit {0})
check_optional config =
    if config.optional_dvn_count == nil_dvn_count || config.optional_dvn_count == 0
    then (do
      require (length config.optional_dvns == 0) (uln UlnError.invalid_optional_dvn_count)
      require (config.optional_dvn_threshold == 0) (uln UlnError.invalid_optional_dvn_threshold))
    else (do
      require
          (length config.optional_dvns == config.optional_dvn_count
            && leb config.optional_dvn_count max_count)
          (uln UlnError.invalid_optional_dvn_count)
      require
          (ltb 0 config.optional_dvn_threshold
            && leb config.optional_dvn_threshold config.optional_dvn_count)
          (uln UlnError.invalid_optional_dvn_threshold)
      assert_no_duplicates config.optional_dvns)

-- `UlnConfig::set_config`: the new value of the stored configuration, whose six fields are all
-- overwritten.
unfoldable pub set_config : UlnConfig → Result UlnConfig
unfolding check_required check_optional
set_config config = do
  check_required config
  check_optional config
  ok (record {
    confirmations = config.confirmations;
    required_dvn_count = config.required_dvn_count;
    optional_dvn_count = config.optional_dvn_count;
    optional_dvn_threshold = config.optional_dvn_threshold;
    required_dvns = config.required_dvns;
    optional_dvns = config.optional_dvns;
  })

-- `UlnConfig::set_default_config`
unfoldable pub set_default_config : UlnConfig → Result UlnConfig
unfolding assert_at_least_one_dvn
set_default_config config = do
  require (not (config.required_dvn_count == nil_dvn_count))
      (uln UlnError.invalid_required_dvn_count)
  require (not (config.optional_dvn_count == nil_dvn_count))
      (uln UlnError.invalid_optional_dvn_count)
  require (not (config.confirmations == nil_confirmations)) (uln UlnError.invalid_confirmations)
  assert_at_least_one_dvn config
  set_config config

-- The three parts of `UlnConfig::get_config`, each from the default where the custom one is zero,
-- and zero where it is NIL.
pub resolve_confirmations : UlnConfig → UlnConfig → ℕ
resolve_confirmations default custom =
    if custom.confirmations == 0
    then default.confirmations
    else if not (custom.confirmations == nil_confirmations)
    then custom.confirmations
    else 0

pub resolve_required : UlnConfig → UlnConfig → ℕ × List ℕ
resolve_required default custom =
    if custom.required_dvn_count == 0
    then (if ltb 0 default.required_dvn_count
        then (default.required_dvn_count, default.required_dvns)
        else (0, []))
    else if not (custom.required_dvn_count == nil_dvn_count)
    then (custom.required_dvn_count, custom.required_dvns)
    else (0, [])

pub resolve_optional : UlnConfig → UlnConfig → ℕ × ℕ × List ℕ
resolve_optional default custom =
    if custom.optional_dvn_count == 0
    then (if ltb 0 default.optional_dvn_count
        then (default.optional_dvn_count, default.optional_dvn_threshold, default.optional_dvns)
        else (0, 0, []))
    else if not (custom.optional_dvn_count == nil_dvn_count)
    then (custom.optional_dvn_count, custom.optional_dvn_threshold, custom.optional_dvns)
    else (0, 0, [])

-- `rtn_config` at the end of `UlnConfig::get_config`, before its last check.
pub merge : UlnConfig → UlnConfig → UlnConfig
unfolding resolve_confirmations resolve_required resolve_optional
merge default custom =
    let (required_count, required_list) = resolve_required default custom in
    let (optional_count, threshold, optional_list) = resolve_optional default custom in
    record {
      confirmations = resolve_confirmations default custom;
      required_dvn_count = required_count;
      optional_dvn_count = optional_count;
      optional_dvn_threshold = threshold;
      required_dvns = required_list;
      optional_dvns = optional_list;
    }

-- `UlnConfig::get_config`
unfoldable pub get_config : UlnConfig → UlnConfig → Result UlnConfig
unfolding merge assert_at_least_one_dvn
get_config default custom =
    assert_at_least_one_dvn (merge default custom) >> ok (merge default custom)
