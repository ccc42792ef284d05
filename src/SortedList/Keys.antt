-- ===== src/SortedList/Keys.antt =====
-- Sorted lists of bare keys: nonces and public keys.
use lz_v2_audit.Prelude.{
  ℕ, ◌+◌, ◌≤◌, ◌<◌, ◌≡◌, ◌∙◌, refl, true, false, not, ◌&&◌, ◌||◌, List, [], ◌∷◌, map, All, contains,
  length, arith, ltb, ◌==◌, if◌then◌else◌, Bool-cases, inl, inr, insert_at, remove_at,
}
use lz_v2_audit.SortedList.{Found, at, absent, is_at, binary_search}
use lz_v2_audit.SortedList.Search.{IsIncreasing, scan, binary_search-scan}
use lz_v2_audit.SortedList.Reference.{
  put_eid, drop_eid, has_eid, place-scan, cut-scan, is_at-scan, put-IsSorted, drop-IsSorted,
  length-put,
}

abbrev key : ℕ → ℕ
key n = n

-- A key put in its place, and a key taken out.
abbrev pub put_key : List ℕ → ℕ → List ℕ
put_key = put_eid key

abbrev pub drop_key : List ℕ → ℕ → List ℕ
drop_key = drop_eid key

map_key : (xs : List ℕ) → map key xs ≡ xs
map_key [] = refl
map_key (x ∷ xs) = rw (map_key xs)

has-contains : (xs : List ℕ) (n : ℕ) → has_eid key xs n ≡ contains n xs
has-contains [] n = refl
has-contains (x ∷ xs) n = ground (arith, has-contains xs n)

pub put-IsIncreasing : (xs : List ℕ) (n : ℕ) → IsIncreasing xs → IsIncreasing (put_key xs n)
put-IsIncreasing xs n s = rw (map_key (put_key xs n)) at (put-IsSorted key xs n (rw (map_key xs) s))

pub drop-IsIncreasing : (xs : List ℕ) (n : ℕ) → IsIncreasing xs → IsIncreasing (drop_key xs n)
drop-IsIncreasing xs n s =
    rw (map_key (drop_key xs n)) at (drop-IsSorted key xs n (rw (map_key xs) s))

pub put-All {κ} : (P : ℕ → Type κ) (xs : List ℕ) (n : ℕ) → All P xs → P n → All P (put_key xs n)
put-All P [] n h p = (p, tt)
put-All P (x ∷ xs) n h p = elim (Bool-cases (x == n)) [
  | inl same ↦ rw same (p, h.1)
  | inr other ↦ rw other (elim (Bool-cases (ltb x n)) [
    | inl less ↦ rw less (h.0, put-All P xs n h.1 p)
    | inr more ↦ rw more (p, h)
  ])
]

pub put-contains : (xs : List ℕ) (n m : ℕ) → contains m (put_key xs n) ≡ (m == n || contains m xs)
put-contains [] n m = refl
put-contains (x ∷ xs) n m = ground (arith, put-contains xs n m)

above-contains : (xs : List ℕ) (x n : ℕ) → All (λ y. x < y) xs → n ≤ x → contains n xs ≡ false
above-contains [] x n h l = refl
above-contains (y ∷ ys) x n h l = ground (arith, above-contains ys x n h.1 l)

pub drop-contains :
    (xs : List ℕ) (n m : ℕ)
    → IsIncreasing xs
    → contains m (drop_key xs n) ≡ (not (m == n) && contains m xs)
drop-contains [] n m s = ground arith
drop-contains (x ∷ xs) n m s = ground (arith, drop-contains xs n m s.1, above-contains xs x m s.0)

pub length-put_key :
    (xs : List ℕ) (n : ℕ)
    → IsIncreasing xs
    → length (put_key xs n) ≡ (if contains n xs then length xs else length xs + 1)
length-put_key xs n s = rw (has-contains xs n) at (length-put key xs n (rw (map_key xs) s))

pub length-drop_key : (xs : List ℕ) (n : ℕ) → length (drop_key xs n) ≤ length xs
length-drop_key [] n = omega arith
length-drop_key (x ∷ xs) n = ground (arith, length-drop_key xs n)

pub search-contains :
    (xs : List ℕ) (n : ℕ) → IsIncreasing xs → is_at (binary_search xs n) ≡ contains n xs
search-contains xs n s =
    rw (binary_search-scan xs n s) (rw (map_key xs) at (is_at-scan key xs n (rw (map_key xs) s)))
    ∙ has-contains xs n

pub search-put :
    (xs : List ℕ) (n i : ℕ)
    → IsIncreasing xs
    → binary_search xs n ≡ absent i
    → insert_at i n xs ≡ put_key xs n
search-put xs n i s e =
    let found : scan xs n ≡ absent i = rw (binary_search-scan xs n s) at e in
    rw (map_key xs, found) at (place-scan key xs n)

pub search-drop :
    (xs : List ℕ) (n i : ℕ)
    → IsIncreasing xs
    → binary_search xs n ≡ at i
    → remove_at i xs ≡ drop_key xs n
search-drop xs n i s e =
    let found : scan xs n ≡ at i = rw (binary_search-scan xs n s) at e in
    rw (map_key xs, found) at (cut-scan key xs n (rw (map_key xs) s))

pub absent_place : (a : Found) → is_at a ≡ false → (i : ℕ) × (a ≡ absent i)
unfolding is_at
absent_place (at i) h = cc
absent_place (absent i) h = (i, refl)

pub at_place : (a : Found) → is_at a ≡ true → (i : ℕ) × (a ≡ at i)
unfolding is_at
at_place (at i) h = (i, refl)
at_place (absent i) h = cc
