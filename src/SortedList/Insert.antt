-- ===== src/SortedList/Insert.antt =====
-- The three list operations on a sorted list: what they return, when they refuse, and that the
-- list stays sorted and within its bound.
use lz_v2_audit.Prelude.{
  ℕ, ◌≤◌, ◌≡◌, none, some, List, map, length, arith, ltb, ◌==◌, if◌then◌else◌, ok, err, ok_or,
  SortedListError, sorted_list,
}
use lz_v2_audit.SortedList.{
  is_at, insert_or_update_sorted_list_by_eid, get_from_sorted_list_by_eid,
  remove_from_sorted_list_by_eid,
}
use lz_v2_audit.SortedList.Search.{binary_search-scan}
use lz_v2_audit.SortedList.Reference.{
  lookup_eid, put_eid, drop_eid, IsSorted, pick-scan, is_at-scan, length-put, place-scan, cut-scan,
  put-IsSorted, lookup-put, drop-IsSorted, lookup-drop, length-drop_eid,
}

abbrev not_found : SortedListError
not_found = SortedListError.not_found

module _ {T : Type 0} (eid : T → ℕ) where
  -- The lookup finds the entry of the key, if the list has one.
  pub get-lookup :
      (list : List T) (key : ℕ)
      → IsSorted eid list
      → get_from_sorted_list_by_eid eid list key
        ≡ ok_or (lookup_eid eid list key) (sorted_list not_found)
  unfolding get_from_sorted_list_by_eid is_at
  get-lookup list key s = ground (
    arith,
    binary_search-scan (map eid list) key s,
    pick-scan eid list key s,
    is_at-scan eid list key s,
  )

  -- An insertion replaces the entry of its key, or adds one if there is room; it is refused only
  -- if the key is new and the list is full.
  pub insert-put :
      (list : List T) (item : T) (max_len : ℕ)
      → IsSorted eid list
      → insert_or_update_sorted_list_by_eid eid list item max_len
        ≡ elim (lookup_eid eid list (eid item)) [
          | some old ↦ ok (put_eid eid list item)
          | none ↦
              if ltb (length list) max_len
              then ok (put_eid eid list item)
              else err (sorted_list SortedListError.invalid_size)
        ]
  unfolding insert_or_update_sorted_list_by_eid is_at
  insert-put list item max_len s = ground (
    arith,
    binary_search-scan (map eid list) (eid item) s,
    place-scan eid list item,
    is_at-scan eid list (eid item) s,
  )

  pub remove-drop :
      (list : List T) (key : ℕ)
      → IsSorted eid list
      → remove_from_sorted_list_by_eid eid list key ≡ elim (lookup_eid eid list key) [
        | some old ↦ ok (drop_eid eid list key)
        | none ↦ err (sorted_list not_found)
      ]
  unfolding remove_from_sorted_list_by_eid is_at
  remove-drop list key s = ground (
    arith,
    binary_search-scan (map eid list) key s,
    cut-scan eid list key s,
    is_at-scan eid list key s,
  )

  -- After a successful insertion into a sorted list within its bound the list is sorted and within
  -- the bound, and a lookup finds the new entry under its key and under every other key what it
  -- found before.
  pub insert_or_update_lem :
      (list : List T) (item : T) (max_len : ℕ) (list' : List T)
      → IsSorted eid list
      → length list ≤ max_len
      → insert_or_update_sorted_list_by_eid eid list item max_len ≡ ok list'
      → IsSorted eid list'
        × (length list' ≤ max_len)
        × ((key : ℕ)
            → get_from_sorted_list_by_eid eid list' key
              ≡ (if eid item == key then ok item else get_from_sorted_list_by_eid eid list key))
  insert_or_update_lem list item max_len list' s room e =
      let (same, bound) = inserted in
      rw same (put-IsSorted eid list item s, rw (← same) bound, λ key. looked_up key)
    where
      inserted : (list' ≡ put_eid eid list item) × (length list' ≤ max_len)
      inserted = ground (arith, insert-put list item max_len s, length-put eid list item s)

      looked_up :
          (key : ℕ)
          → get_from_sorted_list_by_eid eid (put_eid eid list item) key
            ≡ (if eid item == key then ok item else get_from_sorted_list_by_eid eid list key)
      looked_up key = ground (
        arith,
        get-lookup (put_eid eid list item) key (put-IsSorted eid list item s),
        get-lookup list key s,
        lookup-put eid list item key,
      )

  -- After a successful removal from a sorted list the list is sorted, and a lookup finds nothing
  -- under the removed key and under every other key what it found before.
  pub remove_lem :
      (list : List T) (key : ℕ) (list' : List T)
      → IsSorted eid list
      → remove_from_sorted_list_by_eid eid list key ≡ ok list'
      → IsSorted eid list'
        × ((k : ℕ)
            → get_from_sorted_list_by_eid eid list' k ≡ (
                if key == k
                then err (sorted_list not_found)
                else get_from_sorted_list_by_eid eid list k))
  remove_lem list key list' s e = rw removed (drop-IsSorted eid list key s, λ k. looked_up k)
    where
      removed : list' ≡ drop_eid eid list key
      removed = ground (arith, remove-drop list key s)

      looked_up :
          (k : ℕ)
          → get_from_sorted_list_by_eid eid (drop_eid eid list key) k ≡ (
              if key == k
              then err (sorted_list not_found)
              else get_from_sorted_list_by_eid eid list k)
      looked_up k = ground (
        arith,
        get-lookup (drop_eid eid list key) k (drop-IsSorted eid list key s),
        get-lookup list k s,
        lookup-drop eid list key k s,
      )

  pub length-remove :
      (list : List T) (key : ℕ) (list' : List T)
      → IsSorted eid list
      → remove_from_sorted_list_by_eid eid list key ≡ ok list'
      → length list' ≤ length list
  length-remove list key list' s e =
      ground (arith, remove-drop list key s, length-drop_eid eid list key)
