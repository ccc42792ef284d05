-- ===== src/SortedList/Search.antt =====
-- `binary_search` against the plain description: on a strictly increasing list it finds the key at
-- its only place, or the place before which it belongs.
use lz_v2_audit.Prelude.{
  ℕ, zero, suc, ◌+◌, ◌-◌, ◌/◌, ◌≤◌, ◌<◌, ◌≡◌, refl, none, some, List, [], ◌∷◌, length, get_elem?,
  arith, ltb, ◌==◌, if◌then◌else◌, inl, inr, All, Option-cases, Bool-cases, ==→eq, ltb→lt, ◌∙◌, ap,
}
use lz_v2_audit.SortedList.{Found, at, absent, search_loop, probe, binary_search}

-- Each key is above the ones before it.
abbrev pub IsIncreasing : List ℕ → Type 0
IsIncreasing [] = Unit
IsIncreasing (x ∷ xs) = All (λ y. x < y) xs × IsIncreasing xs

abbrev pub shift : Found → Found
shift (at i) = at (suc i)
shift (absent i) = absent (suc i)

-- The search by one pass over the list.
abbrev pub scan : List ℕ → ℕ → Found
scan [] target = absent 0
scan (x ∷ xs) target =
    if x == target then at 0 else if ltb x target then shift (scan xs target) else absent 0

get_elem?-above :
    (x : ℕ) (xs : List ℕ) (i k : ℕ) → All (λ y. x < y) xs → get_elem? xs i ≡ some k → x < k
get_elem?-above x [] i k h e = cc
get_elem?-above x (y ∷ xs) zero k h e = ground arith
get_elem?-above x (y ∷ xs) (suc i) k h e = get_elem?-above x xs i k h.1 e

get_elem?-none : (xs : List ℕ) (i : ℕ) → get_elem? xs i ≡ none → length xs ≤ i
get_elem?-none [] i e = omega arith
get_elem?-none (x ∷ xs) zero e = cc
get_elem?-none (x ∷ xs) (suc i) e = omega (arith, get_elem?-none xs i e)

get_elem?-lt : (xs : List ℕ) (i k : ℕ) → get_elem? xs i ≡ some k → i < length xs
get_elem?-lt [] i k e = cc
get_elem?-lt (x ∷ xs) zero k e = omega arith
get_elem?-lt (x ∷ xs) (suc i) k e = omega (arith, get_elem?-lt xs i k e)

pub get_elem?-increasing :
    (xs : List ℕ) (i j a b : ℕ)
    → IsIncreasing xs
    → get_elem? xs i ≡ some a
    → get_elem? xs j ≡ some b
    → i < j
    → a < b
get_elem?-increasing [] i j a b h p q l = cc
get_elem?-increasing (x ∷ xs) zero zero a b h p q l = absurd (omega arith)
get_elem?-increasing (x ∷ xs) zero (suc j) a b h p q l =
    ground (arith, get_elem?-above x xs j b h.0 q)
get_elem?-increasing (x ∷ xs) (suc i) zero a b h p q l = absurd (omega arith)
get_elem?-increasing (x ∷ xs) (suc i) (suc j) a b h p q l =
    get_elem?-increasing xs i j a b h.1 p q (omega arith)

get_elem?-le :
    (xs : List ℕ) (i j a b : ℕ)
    → IsIncreasing xs
    → get_elem? xs i ≡ some a
    → get_elem? xs j ≡ some b
    → i ≤ j
    → a ≤ b
get_elem?-le xs i j a b h p q l = elim (Bool-cases (ltb i j)) [
  | inl less ↦ omega (arith, get_elem?-increasing xs i j a b h p q (ltb→lt i j less))
  | inr same ↦ ground (arith, p, q, position i j (ground arith))
]
  where
    position : (i j : ℕ) → i ≡ j → get_elem? xs i ≡ get_elem? xs j
    position i j e = ap (get_elem? xs) e

-- What an answer promises about the list, without naming the algorithm.
abbrev pub IsAnswer : List ℕ → ℕ → Found → Type 0
IsAnswer keys target (at i) = get_elem? keys i ≡ some target
IsAnswer keys target (absent i) =
    (i ≤ length keys)
    × ((j k : ℕ) → j < i → get_elem? keys j ≡ some k → k < target)
    × ((j k : ℕ) → i ≤ j → get_elem? keys j ≡ some k → target < k)

module _ (keys : List ℕ) (target : ℕ) (sorted : IsIncreasing keys) where
  -- What the search between two ends has established.
  record IsBracket (left right : ℕ) : Type 0 where
    ordered : left ≤ right
    within : right ≤ length keys
    below : (j k : ℕ) → j < left → get_elem? keys j ≡ some k → k < target
    above : (j k : ℕ) → right ≤ j → get_elem? keys j ≡ some k → target < k

  probe-IsAnswer :
      (rest : ℕ → ℕ → Found) (left right mid k : ℕ)
      → IsBracket left right
      → left ≤ mid
      → mid < right
      → get_elem? keys mid ≡ some k
      → (IsBracket (mid + 1) right → IsAnswer keys target (rest (mid + 1) right))
      → (IsBracket left mid → IsAnswer keys target (rest left mid))
      → IsAnswer keys target (probe rest left right mid k target)
  probe-IsAnswer rest left right mid k b lm mr e up down = elim (Bool-cases (k == target)) [
    | inl same ↦ rw same (e ∙ ap some (==→eq k target same))
    | inr other ↦ rw other (elim (Bool-cases (ltb k target)) [
      | inl less ↦ rw less (
          up (record {
            ordered = omega arith;
            within = b.within;
            below = λ j x hj p.
                omega (
                  arith,
                  get_elem?-le keys j mid x k sorted p e (omega arith),
                  ltb→lt k target less,
                );
            above = b.above;
          }))
      | inr more ↦ rw more (
          down (record {
            ordered = lm;
            within = omega (arith, b.within);
            below = b.below;
            above = λ j x hj p. ground (arith, get_elem?-le keys mid j k x sorted e p hj);
          }))
    ])
  ]

  middle-lt : (left right : ℕ) → left < right → left + (right - left) / 2 < right
  middle-lt left right h = omega arith

  search_loop-IsAnswer :
      (fuel left right : ℕ)
      → right - left ≤ fuel
      → IsBracket left right
      → IsAnswer keys target (search_loop fuel keys target left right)
  unfolding search_loop
  search_loop-IsAnswer zero left right hf b = (
    omega (arith, b.within, b.ordered),
    b.below,
    λ j k hj e. b.above j k (omega (arith, b.ordered)) e,
  )
  search_loop-IsAnswer (suc fuel) left right hf b = elim (Bool-cases (ltb left right)) [
    | inr done ↦
        rw done
          (omega (arith, b.within, b.ordered), b.below, λ j k hj e. b.above j k (ground arith) e)
    | inl more ↦ rw more (
        let mid : ℕ = left + (right - left) / 2 in
        let inside : mid < right = middle-lt left right (ltb→lt left right more) in
        elim (Option-cases (get_elem? keys mid)) [
          | inl out ↦ absurd (omega (arith, get_elem?-none keys mid out, inside, b.within))
          | inr (k, e) ↦ rw e (
              probe-IsAnswer (search_loop fuel keys target) left right mid k b (omega arith) inside
                e (search_loop-IsAnswer fuel (mid + 1) right (omega arith))
                (search_loop-IsAnswer fuel left mid (omega (arith, inside))))
        ])
  ]

  -- On an increasing list the search ends with an answer.
  pub binary_search-IsAnswer : IsAnswer keys target (binary_search keys target)
  unfolding binary_search
  binary_search-IsAnswer =
      search_loop-IsAnswer (length keys) 0 (length keys) (omega arith) (record {
        ordered = omega arith;
        within = omega arith;
        below = λ j k hj e. elim hj [ ];
        above = λ j k hj e. absurd (omega (arith, get_elem?-lt keys j k e));
      })

some-of-lt : (xs : List ℕ) (i : ℕ) → i < length xs → (k : ℕ) × (get_elem? xs i ≡ some k)
some-of-lt [] i h = elim h [ ]
some-of-lt (x ∷ xs) zero h = (x, refl)
some-of-lt (x ∷ xs) (suc i) h = some-of-lt xs i (omega arith)

-- No place is between two answers, so there is one answer.
absent-lt :
    (keys : List ℕ) (target i j : ℕ)
    → IsAnswer keys target (absent i)
    → IsAnswer keys target (absent j)
    → ¬ (i < j)
absent-lt keys target i j p q l =
    let (k, e) = some-of-lt keys i (omega (arith, q.0)) in
    omega (arith, q.1 i k l e, p.2 i k (omega arith) e)

at-absent :
    (keys : List ℕ) (target i j : ℕ)
    → IsAnswer keys target (at i)
    → ¬ IsAnswer keys target (absent j)
at-absent keys target i j p q = elim (Bool-cases (ltb i j)) [
  | inl less ↦ omega (arith, q.1 i target (ltb→lt i j less) p)
  | inr more ↦ omega (arith, q.2 i target (ground arith) p)
]

at-lt :
    (keys : List ℕ) (target i j : ℕ)
    → IsIncreasing keys
    → IsAnswer keys target (at i)
    → IsAnswer keys target (at j)
    → ¬ (i < j)
at-lt keys target i j s p q l = omega (arith, get_elem?-increasing keys i j target target s p q l)

answer_unique :
    (keys : List ℕ) (target : ℕ) (a b : Found)
    → IsIncreasing keys
    → IsAnswer keys target a
    → IsAnswer keys target b
    → a ≡ b
answer_unique keys target (at i) (at j) s p q =
    ap at (omega (arith, at-lt keys target i j s p q, at-lt keys target j i s q p))
answer_unique keys target (at i) (absent j) s p q = absurd (at-absent keys target i j p q)
answer_unique keys target (absent i) (at j) s p q = absurd (at-absent keys target j i q p)
answer_unique keys target (absent i) (absent j) s p q =
    ap absent (omega (arith, absent-lt keys target i j p q, absent-lt keys target j i q p))

shift-IsAnswer :
    (x : ℕ) (xs : List ℕ) (target : ℕ) (a : Found)
    → x < target
    → IsAnswer xs target a
    → IsAnswer (x ∷ xs) target (shift a)
shift-IsAnswer x xs target (at i) h p = p
shift-IsAnswer x xs target (absent i) h p = (omega (arith, p.0), below, above)
  where
    below : (j k : ℕ) → j < suc i → get_elem? (x ∷ xs) j ≡ some k → k < target
    below zero k l e = ground arith
    below (suc j) k l e = p.1 j k (omega arith) e

    above : (j k : ℕ) → suc i ≤ j → get_elem? (x ∷ xs) j ≡ some k → target < k
    above zero k l e = absurd (omega arith)
    above (suc j) k l e = p.2 j k (omega arith) e

scan-IsAnswer : (xs : List ℕ) (target : ℕ) → IsIncreasing xs → IsAnswer xs target (scan xs target)
scan-IsAnswer [] target s = (omega arith, λ j k h e. cc, λ j k h e. cc)
scan-IsAnswer (x ∷ xs) target s = elim (Bool-cases (x == target)) [
  | inl same ↦ rw same (ap some (==→eq x target same))
  | inr other ↦ rw other (elim (Bool-cases (ltb x target)) [
    | inl less ↦ rw less (
        shift-IsAnswer x xs target (scan xs target) (ltb→lt x target less)
          (scan-IsAnswer xs target s.1))
    | inr more ↦ rw more (omega arith, λ j k h e. elim h [ ], above (ground arith))
  ])
]
  where
    above : target < x → (j k : ℕ) → 0 ≤ j → get_elem? (x ∷ xs) j ≡ some k → target < k
    above h zero k l e = ground arith
    above h (suc j) k l e = omega (arith, get_elem?-above x xs j k s.0 e)

-- On a strictly increasing list the binary search returns what one pass over the list finds: the
-- position of the key, or else the position before which it belongs.
pub binary_search-scan :
    (keys : List ℕ) (target : ℕ) → IsIncreasing keys → binary_search keys target ≡ scan keys target
binary_search-scan keys target s =
    answer_unique keys target _ _ s (binary_search-IsAnswer keys target s)
      (scan-IsAnswer keys target s)
