-- ===== src/Bytes/Laws.antt =====
-- The readers against the encoding of numbers.
use native.Mathlib.Nat.{pow-suc}
use lz_v2_audit.Prelude.{
  ℕ, zero, suc, ◌+◌, ◌-◌, ◌*◌, ◌/◌, ◌%◌, ◌^◌, ◌≤◌, ◌<◌, ◌≡◌, ◌∙◌, refl, sym, ap, List, [], ◌∷◌,
  ◌++◌, length, length-append, take, drop, ok, arith, le→leb, All,
}
use lz_v2_audit.Bytes.{be_bytes, from_be_bytes, slice, to_uint, to_u8, range}

pub length-be_bytes : (width n : ℕ) → length (be_bytes width n) ≡ width
unfolding be_bytes
length-be_bytes zero n = refl
length-be_bytes (suc width) n = omega (
  arith,
  length-append (be_bytes width (n / 256)) (n % 256 ∷ []),
  length-be_bytes width (n / 256),
)

from_be_bytes-append :
    (acc : ℕ) (xs ys : List ℕ)
    → from_be_bytes acc (xs ++ ys) ≡ from_be_bytes (from_be_bytes acc xs) ys
unfolding from_be_bytes
from_be_bytes-append acc [] ys = refl
from_be_bytes-append acc (x ∷ xs) ys = from_be_bytes-append (acc * 256 + x) xs ys

-- Decoding inverts encoding for a number that fits its width.
pub from_be_bytes-be_bytes :
    (width n : ℕ) → n < 256 ^ width → from_be_bytes 0 (be_bytes width n) ≡ n
unfolding be_bytes from_be_bytes
from_be_bytes-be_bytes zero n h = omega arith
from_be_bytes-be_bytes (suc width) n h =
    from_be_bytes-append 0 (be_bytes width (n / 256)) (n % 256 ∷ [])
    ∙ omega (arith, from_be_bytes-be_bytes width (n / 256) smaller)
  where
    smaller : n / 256 < 256 ^ width
    smaller = omega (arith, pow-suc 256 width)

pub IsByte-be_bytes : (width n : ℕ) → All (λ b. b < 256) (be_bytes width n)
unfolding be_bytes
IsByte-be_bytes zero n = tt
IsByte-be_bytes (suc width) n =
    All-append (be_bytes width (n / 256)) (IsByte-be_bytes width (n / 256))
  where
    All-append : (xs : List ℕ) → All (λ b. b < 256) xs → All (λ b. b < 256) (xs ++ (n % 256 ∷ []))
    All-append [] h = (omega arith, tt)
    All-append (x ∷ xs) h = (h.0, All-append xs h.1)

drop-append : (xs ys : List ℕ) → drop (length xs) (xs ++ ys) ≡ ys
drop-append [] ys = refl
drop-append (x ∷ xs) ys = drop-append xs ys

take-append : (xs ys : List ℕ) → take (length xs) (xs ++ ys) ≡ xs
take-append [] ys = refl
take-append (x ∷ xs) ys = ap (λ (zs : List ℕ). x ∷ zs) (take-append xs ys)

-- A slice at a known place of a concatenation.
pub slice-append :
    (before field after : List ℕ) (start len : ℕ)
    → length before ≡ start
    → length field ≡ len
    → slice start len (before ++ (field ++ after)) ≡ ok field
unfolding slice
slice-append before field after start len e l =
    rw (← e, ← l, le→leb _ _ fits, drop-append before (field ++ after), take-append field after)
  where
    fits : length before + length field ≤ length (before ++ (field ++ after))
    fits = omega (arith, length-append before (field ++ after), length-append field after)

-- A number encoded at a known place of a buffer is read back.
pub to_uint-be_bytes :
    (before after : List ℕ) (width n start : ℕ)
    → length before ≡ start
    → n < 256 ^ width
    → to_uint width start (before ++ (be_bytes width n ++ after)) ≡ ok n
unfolding to_uint
to_uint-be_bytes before after width n start e h =
    rw (slice-append before (be_bytes width n) after start width e (length-be_bytes width n))
      (ap ok (from_be_bytes-be_bytes width n h))

drop-skip : (xs ys : List ℕ) (k : ℕ) → drop (length xs + k) (xs ++ ys) ≡ drop k ys
drop-skip [] ys k = ap (λ (n : ℕ). drop n ys) (omega arith)
drop-skip (x ∷ xs) ys k = ap (λ (n : ℕ). drop n (x ∷ xs ++ ys)) shifted ∙ drop-skip xs ys k
  where
    shifted : suc (length xs) + k ≡ suc (length xs + k)
    shifted = omega arith

-- Reading behind a prefix is reading the rest from its start on.
pub slice-skip :
    (xs ys : List ℕ) (start len k : ℕ)
    → start ≡ length xs + k
    → slice start len (xs ++ ys) ≡ slice k len ys
unfolding slice
slice-skip xs ys start len k e = rw (e, drop-skip xs ys k, length-append xs ys) (ground arith)

pub to_uint-skip :
    (xs ys : List ℕ) (width start k : ℕ)
    → start ≡ length xs + k
    → to_uint width start (xs ++ ys) ≡ to_uint width k ys
unfolding to_uint
to_uint-skip xs ys width start k e = rw (slice-skip xs ys start width k e)

pub drop-behind :
    (xs ys : List ℕ) (start k : ℕ) → start ≡ length xs + k → drop start (xs ++ ys) ≡ drop k ys
drop-behind xs ys start k e = rw e (drop-skip xs ys k)

-- A number of `width` bytes before the one that is read.
pub to_uint-behind :
    (width skipped : ℕ) (rest : List ℕ) (w start k : ℕ)
    → start ≡ width + k
    → to_uint w start (be_bytes width skipped ++ rest) ≡ to_uint w k rest
to_uint-behind width skipped rest w start k e =
    to_uint-skip (be_bytes width skipped) rest w start k
      (e ∙ ap (λ (n : ℕ). n + k) (sym (length-be_bytes width skipped)))

pub to_uint-first :
    (width n : ℕ) (rest : List ℕ)
    → n < 256 ^ width
    → to_uint width 0 (be_bytes width n ++ rest) ≡ ok n
to_uint-first width n rest h = to_uint-be_bytes [] rest width n 0 refl h

pub to_u8-skip :
    (xs ys : List ℕ) (start k : ℕ) → start ≡ length xs + k → to_u8 (xs ++ ys) start ≡ to_u8 ys k
unfolding to_u8
to_u8-skip [] ys start k e = ap (λ (i : ℕ). to_u8 ys i) (omega arith)
to_u8-skip (x ∷ xs) ys start k e =
    ap (λ (i : ℕ). to_u8 (x ∷ xs ++ ys) i) shifted ∙ to_u8-skip xs ys (length xs + k) k refl
  where
    shifted : start ≡ suc (length xs + k)
    shifted = omega arith

pub range-append :
    (before field after : List ℕ) (start end : ℕ)
    → start ≡ length before
    → end ≡ length before + length field
    → range start end (before ++ (field ++ after)) ≡ ok field
unfolding range
range-append before field after start end e l = rw (
  e,
  l,
  drop-append before (field ++ after),
  le→leb _ _ ordered,
  le→leb _ _ fits,
  width,
  take-append field after,
)
  where
    ordered : length before ≤ length before + length field
    ordered = omega arith

    fits : length before + length field ≤ length (before ++ (field ++ after))
    fits = omega (arith, length-append before (field ++ after), length-append field after)

    width : length before + length field - length before ≡ length field
    width = omega arith
