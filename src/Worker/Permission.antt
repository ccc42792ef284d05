-- ===== src/Worker/Permission.antt =====
-- programs/worker-interface/src/worker_utils.rs: the access control list of a worker.
use mathlib.Core.Path.{subst}
use lz_v2_audit.Prelude.{
  ℕ, ◌≤◌, ◌<◌, ◌≡◌, ◌∙◌, true, false, not, ◌&&◌, ◌||◌, Bool, List, [], ◌∷◌, contains, length, arith,
  ltb, ◌==◌, if◌then◌else◌, insert_at, remove_at, Result, ok, err, require, ◌>>◌, ◌>>=◌,
  WorkerError, worker, Bool-cases, inl, inr,
}
use lz_v2_audit.SortedList.{at, absent, is_at, binary_search}
use lz_v2_audit.SortedList.Search.{IsIncreasing}
use lz_v2_audit.SortedList.Keys.{
  put_key, drop_key, put-IsIncreasing, drop-IsIncreasing, put-contains, drop-contains,
  length-put_key, length-drop_key, search-contains, search-put, search-drop, absent_place, at_place,
}

abbrev pub acl_max_len : ℕ
acl_max_len = 8

pub record Acl : Type 0 where
  pub allow_list : List ℕ
  pub deny_list : List ℕ

unfoldable pub insert_or_remove_sorted_pubkey_list :
    List ℕ → (list_max_length key : ℕ) → Result (List ℕ)
insert_or_remove_sorted_pubkey_list list list_max_length key = elim (binary_search list key) [
  | at index ↦ ok (remove_at index list)
  | absent index ↦ do
    require (ltb (length list) list_max_length) (worker WorkerError.invalid_size)
    ok (insert_at index key list)
]

unfoldable pub set_allowlist : Acl → ℕ → Result Acl
set_allowlist acl oapp = do
  allow_list ← insert_or_remove_sorted_pubkey_list acl.allow_list acl_max_len oapp
  ok (record acl { allow_list = allow_list })

unfoldable pub set_denylist : Acl → ℕ → Result Acl
set_denylist acl oapp = do
  deny_list ← insert_or_remove_sorted_pubkey_list acl.deny_list acl_max_len oapp
  ok (record acl { deny_list = deny_list })

abbrev pub is_empty : List ℕ → Bool
is_empty [] = true
is_empty (x ∷ xs) = false

unfoldable pub has_permission : Acl → ℕ → Bool
has_permission acl oapp =
    if is_at (binary_search acl.deny_list oapp)
    then false
    else if is_empty acl.allow_list || is_at (binary_search acl.allow_list oapp)
    then true
    else false

abbrev pub assert_permission : Acl → ℕ → Result (Unit {0})
assert_permission acl oapp =
    require (has_permission acl oapp) (worker WorkerError.permission_denied)

-- A list of keys that is sorted, without repetitions, and within a bound.
pub record IsKeys (max_len : ℕ) (list : List ℕ) : Type 0 where
  pub sorted : IsIncreasing list
  pub bounded : length list ≤ max_len

pub toggle-eq :
    (list : List ℕ) (max_len key : ℕ)
    → IsIncreasing list
    → insert_or_remove_sorted_pubkey_list list max_len key ≡ (
        if contains key list
        then ok (drop_key list key)
        else if ltb (length list) max_len
        then ok (put_key list key)
        else err (worker WorkerError.invalid_size))
unfolding insert_or_remove_sorted_pubkey_list
toggle-eq list max_len key s = elim (Bool-cases (contains key list)) [
  | inl here ↦
      let (i, e) = at_place _ (search-contains list key s ∙ here) in
      ground (arith, here, e, search-drop list key i s e)
  | inr new ↦
      let (i, e) = absent_place _ (search-contains list key s ∙ new) in
      ground (arith, new, e, search-put list key i s e)
]

-- A successful insertion or removal keeps a list sorted, without repetitions, and within its bound;
-- it adds its key where the list did not have it, removes it where the list did, and leaves every
-- other key.
pub toggle_lem :
    (list : List ℕ) (max_len key : ℕ) (list' : List ℕ)
    → IsKeys max_len list
    → insert_or_remove_sorted_pubkey_list list max_len key ≡ ok list'
    → IsKeys max_len list'
      × ((k : ℕ) → contains k list' ≡ (if k == key then not (contains k list) else contains k list))
toggle_lem list max_len key list' v h = elim (Bool-cases (contains key list)) [
  | inl here ↦
      let same : drop_key list key ≡ list' =
        ground (arith, here, toggle-eq list max_len key v.sorted) in
      subst
        (λ xs.
          IsKeys max_len xs
          × ((k : ℕ)
              → contains k xs ≡ (if k == key then not (contains k list) else contains k list)))
        same
        (
          record {
            sorted = drop-IsIncreasing list key v.sorted;
            bounded = omega (arith, v.bounded, length-drop_key list key);
          },
          λ k. ground (arith, here, drop-contains list key k v.sorted),
        )
  | inr new ↦
      let (same, room) : (put_key list key ≡ list') × (length list < max_len) =
        ground (arith, new, toggle-eq list max_len key v.sorted) in
      subst
        (λ xs.
          IsKeys max_len xs
          × ((k : ℕ)
              → contains k xs ≡ (if k == key then not (contains k list) else contains k list)))
        same
        (
          record {
            sorted = put-IsIncreasing list key v.sorted;
            bounded = ground (arith, new, room, length-put_key list key v.sorted);
          },
          λ k. ground (arith, new, put-contains list key k),
        )
]

pub record IsAcl (acl : Acl) : Type 0 where
  pub allowed : IsKeys acl_max_len acl.allow_list
  pub denied : IsKeys acl_max_len acl.deny_list

-- With sorted lists an oapp has permission when it is not denied, and is allowed or no oapp is
-- listed as allowed.
pub has_permission_lem :
    (acl : Acl) (oapp : ℕ)
    → IsAcl acl
    → has_permission acl oapp ≡ (
        not (contains oapp acl.deny_list)
        && (is_empty acl.allow_list || contains oapp acl.allow_list))
unfolding has_permission
has_permission_lem acl oapp v = ground (
  arith,
  search-contains acl.deny_list oapp v.denied.sorted,
  search-contains acl.allow_list oapp v.allowed.sorted,
)
