-- ===== src/SortedList/Runs.antt =====
-- The sorted lists on concrete entries.
use lz_v2_audit.Prelude.{
  ℕ, ◌≡◌, ◌≤◌, refl, List, [], ◌∷◌, ok, err, ◌==◌, if◌then◌else◌, length, arith, SortedListError,
  sorted_list,
}
use lz_v2_audit.SortedList.{
  at, absent, binary_search, insert_or_update_sorted_list_by_eid, get_from_sorted_list_by_eid,
  remove_from_sorted_list_by_eid,
}
use lz_v2_audit.SortedList.Reference.{IsSorted}
use lz_v2_audit.SortedList.Insert.{insert_or_update_lem, remove_lem}

-- An entry of a multiplier table: the eid and its value.
abbrev entry_eid : ℕ × ℕ → ℕ
entry_eid e = e.0

abbrev table : List (ℕ × ℕ)
table = (1, 10) ∷ (4, 40) ∷ (9, 90) ∷ []

abbrev with_six : List (ℕ × ℕ)
with_six = (1, 10) ∷ (4, 40) ∷ (6, 60) ∷ (9, 90) ∷ []

binary_search_hit : binary_search (2 ∷ 4 ∷ 6 ∷ 8 ∷ []) 6 ≡ at 2
unfolding binary_search
binary_search_hit = refl

binary_search_miss : binary_search (2 ∷ 4 ∷ 6 ∷ 8 ∷ []) 7 ≡ absent 3
unfolding binary_search
binary_search_miss = refl

inserted_six : insert_or_update_sorted_list_by_eid entry_eid table (6, 60) 4 ≡ ok with_six
unfolding insert_or_update_sorted_list_by_eid binary_search
inserted_six = refl

insert_or_update_lem_example :
    IsSorted entry_eid with_six
    × (length with_six ≤ 4)
    × ((key : ℕ)
        → get_from_sorted_list_by_eid entry_eid with_six key
          ≡ (if 6 == key then ok (6, 60) else get_from_sorted_list_by_eid entry_eid table key))
insert_or_update_lem_example =
    insert_or_update_lem entry_eid table (6, 60) 4 with_six (ground arith) (omega arith)
      inserted_six

remove_lem_example :
    IsSorted entry_eid ((1, 10) ∷ (9, 90) ∷ [])
    × ((k : ℕ)
        → get_from_sorted_list_by_eid entry_eid ((1, 10) ∷ (9, 90) ∷ []) k ≡ (
            if 4 == k
            then err (sorted_list SortedListError.not_found)
            else get_from_sorted_list_by_eid entry_eid table k))
unfolding remove_from_sorted_list_by_eid binary_search
remove_lem_example = remove_lem entry_eid table 4 ((1, 10) ∷ (9, 90) ∷ []) (ground arith) refl
