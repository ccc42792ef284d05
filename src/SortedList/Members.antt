-- ===== src/SortedList/Members.antt =====
-- The members of increasing lists, which determine the list.
use mathlib.Core.Bool.{true≢false}
use lz_v2_audit.Prelude.{
  ℕ, ◌≤◌, ◌<◌, ◌≡◌, ◌≢◌, ◌∙◌, refl, sym, true, false, List, [], ◌∷◌, All, contains, arith, ltb,
  ◌==◌, ==→eq, Bool-cases, inl, inr,
}
use lz_v2_audit.SortedList.Search.{IsIncreasing}

pub contains-above : (m n : ℕ) (xs : List ℕ) → All (λ y. n < y) xs → m ≤ n → contains m xs ≡ false
contains-above m n [] h l = refl
contains-above m n (x ∷ xs) h l = ground (arith, contains-above m n xs h.1 l)

contains-first : (x : ℕ) (xs : List ℕ) → contains x (x ∷ xs) ≡ true
contains-first x xs = ground arith

contains-other : (m x : ℕ) (xs : List ℕ) → m ≢ x → contains m (x ∷ xs) ≡ contains m xs
contains-other m x xs other = ground arith

-- A list whose members are all in one that begins no earlier begins no earlier.
not_before :
    (x y : ℕ) (xs ys : List ℕ)
    → IsIncreasing (y ∷ ys)
    → ((m : ℕ) → contains m (x ∷ xs) ≡ contains m (y ∷ ys))
    → y ≤ x
not_before x y xs ys t h = elim (Bool-cases (ltb x y)) [
  | inl less ↦ absurd (
      true≢false (
        sym (contains-first x xs)
        ∙ h x
        ∙ contains-other x y ys (ground (arith, less))
        ∙ contains-above x y ys t.0 (ground (arith, less))))
  | inr more ↦ ground (arith, more)
]

-- Increasing lists with the same members are the same.
pub same_members :
    (xs ys : List ℕ)
    → IsIncreasing xs
    → IsIncreasing ys
    → ((m : ℕ) → contains m xs ≡ contains m ys)
    → xs ≡ ys
same_members [] [] s t h = refl
same_members [] (y ∷ ys) s t h = absurd (true≢false (sym (contains-first y ys) ∙ sym (h y)))
same_members (x ∷ xs) [] s t h = absurd (true≢false (sym (contains-first x xs) ∙ h x))
same_members (x ∷ xs) (y ∷ ys) s t h =
    let first : x ≡ y =
      omega (arith, not_before x y xs ys t h, not_before y x ys xs s (λ m. sym (h m))) in
    rw (first, same_members xs ys s.1 t.1 (tails first)) refl
  where
    tails : x ≡ y → (m : ℕ) → contains m xs ≡ contains m ys
    tails first m = elim (Bool-cases (m == x)) [
      | inl same ↦
          let here = ==→eq m x same in
          contains-above m x xs s.0 (omega arith) ∙ sym (contains-above m y ys t.0 (omega arith))
      | inr other ↦
          sym (contains-other m x xs (ground (arith, other)))
          ∙ h m
          ∙ contains-other m y ys (ground (arith, other))
    ]
