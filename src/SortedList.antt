-- ===== src/SortedList.antt =====
-- libs/utils/src/sorted_list_helper.rs: lists kept sorted by endpoint id, and the binary search of
-- Rust's slices that they, the nonce list and the key lists use.
-- A key is a number: an endpoint id, a nonce, or a public key read as a big-endian number, whose
-- order is that of the bytes.
pub mod Search
pub mod Reference
pub mod Insert
pub mod Keys
pub mod Members
mod Runs
use lz_v2_audit.Prelude.{
  ℕ, zero, suc, ◌+◌, ◌-◌, ◌/◌, Option, none, some, List, [], ◌∷◌, map, Bool, true, false, length,
  get_elem?, set, insert_at, remove_at, ltb, ◌==◌, if◌then◌else◌, Result, ok, err, panic, require,
  SortedListError, sorted_list, ◌>>=◌, ◌>>◌,
}

-- `Result<usize, usize>` of `binary_search`.
pub data Found : Type 0 where
  at : ℕ → Found
  absent : ℕ → Found

-- One probe at `mid`, the key there given, and then the rest of the search between the new ends.
abbrev probe : (ℕ → ℕ → Found) → ℕ → ℕ → ℕ → ℕ → ℕ → Found
probe rest left right mid k target =
    if k == target then at mid else if ltb k target then rest (mid + 1) right else rest left mid

-- The loop of `slice::binary_search_by`: between `left` and `right`, `size / 2` is the middle.
pub search_loop : ℕ → List ℕ → ℕ → ℕ → ℕ → Found
search_loop zero keys target left right = absent left
search_loop (suc fuel) keys target left right =
    let mid = left + (right - left) / 2 in
    let next : Found = elim (get_elem? keys mid) [
      | none ↦ absent left
      | some k ↦ probe (search_loop fuel keys target) left right mid k target
    ] in
    if ltb left right then next else absent left

-- `slice.binary_search(&target)`; each round halves a range of at most `length keys`.
unfoldable pub binary_search : List ℕ → ℕ → Found
unfolding search_loop
binary_search keys target = search_loop (length keys) keys target 0 (length keys)

unfoldable pub is_at : Found → Bool
is_at (at i) = true
is_at (absent i) = false

-- `list[index]`
abbrev pub elem_or_panic {ℓ} : {A : Type ℓ} → Option A → Result A
elem_or_panic none = panic
elem_or_panic (some a) = ok a

module _ {T : Type 0} (eid : T → ℕ) where
  unfoldable pub insert_or_update_sorted_list_by_eid : List T → T → ℕ → Result (List T)
  insert_or_update_sorted_list_by_eid list item max_len =
      elim (binary_search (map eid list) (eid item)) [
        | at index ↦ ok (set list index item)
        | absent index ↦ do
          require (ltb (length list) max_len) (sorted_list SortedListError.invalid_size)
          ok (insert_at index item list)
      ]

  unfoldable pub get_from_sorted_list_by_eid : List T → ℕ → Result T
  get_from_sorted_list_by_eid list key = elim (binary_search (map eid list) key) [
    | at index ↦ elem_or_panic (get_elem? list index)
    | absent index ↦ err (sorted_list SortedListError.not_found)
  ]

  unfoldable pub remove_from_sorted_list_by_eid : List T → ℕ → Result (List T)
  remove_from_sorted_list_by_eid list key = elim (binary_search (map eid list) key) [
    | at index ↦ ok (remove_at index list)
    | absent index ↦ err (sorted_list SortedListError.not_found)
  ]
