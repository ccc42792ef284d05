-- ===== src/SortedList/Reference.antt =====
-- Plain recursions over a list sorted by endpoint id, and the places that the search finds in it.
use lz_v2_audit.Prelude.{
  ℕ, ◌+◌, ◌≤◌, ◌<◌, ◌≡◌, refl, Option, none, some, Bool, true, false, List, [], ◌∷◌, map, length,
  get_elem?, set, insert_at, remove_at, arith, ltb, ◌==◌, if◌then◌else◌, All,
}
use lz_v2_audit.SortedList.{Found, at, absent, is_at}
use lz_v2_audit.SortedList.Search.{IsIncreasing, scan, shift}

module _ {T : Type 0} (eid : T → ℕ) where
  abbrev pub lookup_eid : List T → ℕ → Option T
  lookup_eid [] key = none
  lookup_eid (x ∷ xs) key = if eid x == key then some x else lookup_eid xs key

  abbrev pub put_eid : List T → T → List T
  put_eid [] item = item ∷ []
  put_eid (x ∷ xs) item =
      if eid x == eid item
      then item ∷ xs
      else if ltb (eid x) (eid item)
      then x ∷ put_eid xs item
      else item ∷ x ∷ xs

  abbrev pub drop_eid : List T → ℕ → List T
  drop_eid [] key = []
  drop_eid (x ∷ xs) key = if eid x == key then xs else x ∷ drop_eid xs key

  abbrev pub IsSorted : List T → Type 0
  IsSorted list = IsIncreasing (map eid list)

  -- What the operations do at a place that a search returned.
  abbrev pub pick : List T → Found → Option T
  pick list (at i) = get_elem? list i
  pick list (absent i) = none

  abbrev pub place : List T → T → Found → List T
  place list item (at i) = set list i item
  place list item (absent i) = insert_at i item list

  abbrev pub cut : List T → Found → List T
  cut list (at i) = remove_at i list
  cut list (absent i) = list

  lookup-above :
      (list : List T) (x key : ℕ)
      → All (λ y. x < y) (map eid list)
      → key ≤ x
      → lookup_eid list key ≡ none
  lookup-above [] x key h l = refl
  lookup-above (y ∷ ys) x key h l = ground (arith, lookup-above ys x key h.1 l)

  drop-above :
      (list : List T) (x key : ℕ)
      → All (λ y. x < y) (map eid list)
      → key ≤ x
      → drop_eid list key ≡ list
  drop-above [] x key h l = refl
  drop-above (y ∷ ys) x key h l = ground (arith, drop-above ys x key h.1 l)

  pick-shift : (x : T) (xs : List T) (a : Found) → pick (x ∷ xs) (shift a) ≡ pick xs a
  pick-shift x xs (at i) = refl
  pick-shift x xs (absent i) = refl

  place-shift :
      (x : T) (xs : List T) (item : T) (a : Found)
      → place (x ∷ xs) item (shift a) ≡ x ∷ place xs item a
  place-shift x xs item (at i) = refl
  place-shift x xs item (absent i) = refl

  cut-shift : (x : T) (xs : List T) (a : Found) → cut (x ∷ xs) (shift a) ≡ x ∷ cut xs a
  cut-shift x xs (at i) = refl
  cut-shift x xs (absent i) = refl

  pub pick-scan :
      (list : List T) (key : ℕ)
      → IsSorted list
      → pick list (scan (map eid list) key) ≡ lookup_eid list key
  pick-scan [] key s = refl
  pick-scan (x ∷ xs) key s = ground (
    arith,
    pick-shift x xs (scan (map eid xs) key),
    pick-scan xs key s.1,
    lookup-above xs (eid x) key s.0,
  )

  abbrev pub has_eid : List T → ℕ → Bool
  has_eid list key = elim (lookup_eid list key) [ none ↦ false | some x ↦ true ]

  is_at-shift : (a : Found) → is_at (shift a) ≡ is_at a
  unfolding is_at
  is_at-shift (at i) = refl
  is_at-shift (absent i) = refl

  pub is_at-scan :
      (list : List T) (key : ℕ) → IsSorted list → is_at (scan (map eid list) key) ≡ has_eid list key
  unfolding is_at
  is_at-scan [] key s = refl
  is_at-scan (x ∷ xs) key s = ground (
    arith,
    is_at-shift (scan (map eid xs) key),
    is_at-scan xs key s.1,
    lookup-above xs (eid x) key s.0,
  )

  pub place-scan :
      (list : List T) (item : T)
      → place list item (scan (map eid list) (eid item)) ≡ put_eid list item
  place-scan [] item = refl
  place-scan (x ∷ xs) item =
      ground (arith, place-shift x xs item (scan (map eid xs) (eid item)), place-scan xs item)

  pub cut-scan :
      (list : List T) (key : ℕ)
      → IsSorted list
      → cut list (scan (map eid list) key) ≡ drop_eid list key
  cut-scan [] key s = refl
  cut-scan (x ∷ xs) key s = ground (
    arith,
    cut-shift x xs (scan (map eid xs) key),
    cut-scan xs key s.1,
    drop-above xs (eid x) key s.0,
  )

  put-above :
      (list : List T) (item : T) (x : ℕ)
      → All (λ y. x < y) (map eid list)
      → x < eid item
      → All (λ y. x < y) (map eid (put_eid list item))
  put-above [] item x h l = (l, tt)
  put-above (y ∷ ys) item x h l = ground (arith, put-above ys item x h.1 l)

  All-trans :
      (list : List T) (x y : ℕ)
      → x < y
      → All (λ z. y < z) (map eid list)
      → All (λ z. x < z) (map eid list)
  All-trans [] x y l h = tt
  All-trans (z ∷ zs) x y l h = (omega arith, All-trans zs x y l h.1)

  pub put-IsSorted : (list : List T) (item : T) → IsSorted list → IsSorted (put_eid list item)
  put-IsSorted [] item s = (tt, tt)
  put-IsSorted (x ∷ xs) item s = ground (
    arith,
    put-above xs item (eid x) s.0,
    put-IsSorted xs item s.1,
    All-trans xs (eid item) (eid x),
  )

  pub lookup-put :
      (list : List T) (item : T) (key : ℕ)
      → lookup_eid (put_eid list item) key
        ≡ (if eid item == key then some item else lookup_eid list key)
  lookup-put [] item key = refl
  lookup-put (x ∷ xs) item key = ground (arith, lookup-put xs item key)

  pub length-put :
      (list : List T) (item : T)
      → IsSorted list
      → length (put_eid list item)
        ≡ (if has_eid list (eid item) then length list else length list + 1)
  length-put [] item s = omega arith
  length-put (x ∷ xs) item s =
      ground (arith, length-put xs item s.1, lookup-above xs (eid x) (eid item) s.0)

  drop-All :
      (list : List T) (key x : ℕ)
      → All (λ y. x < y) (map eid list)
      → All (λ y. x < y) (map eid (drop_eid list key))
  drop-All [] key x h = tt
  drop-All (y ∷ ys) key x h = ground (arith, drop-All ys key x h.1)

  pub drop-IsSorted : (list : List T) (key : ℕ) → IsSorted list → IsSorted (drop_eid list key)
  drop-IsSorted [] key s = tt
  drop-IsSorted (x ∷ xs) key s =
      ground (arith, drop-All xs key (eid x) s.0, drop-IsSorted xs key s.1)

  pub lookup-drop :
      (list : List T) (key k : ℕ)
      → IsSorted list
      → lookup_eid (drop_eid list key) k ≡ (if key == k then none else lookup_eid list k)
  lookup-drop [] key k s = ground arith
  lookup-drop (x ∷ xs) key k s =
      ground (arith, lookup-drop xs key k s.1, lookup-above xs (eid x) k s.0)

  pub length-drop_eid : (list : List T) (key : ℕ) → length (drop_eid list key) ≤ length list
  length-drop_eid [] key = omega arith
  length-drop_eid (x ∷ xs) key = ground (arith, length-drop_eid xs key)
