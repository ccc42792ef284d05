-- ===== src/Uln/Options/Total.antt =====
-- The loop of `decode_options` ends: each round moves the cursor up.
use lz_v2_audit.Prelude.{
  ℕ, zero, suc, ◌+◌, ◌≤◌, ◌<◌, ◌≡◌, refl, ap, List, length, some, Result, ok, err, panic, >>=-eq-ok,
  ok-injective, arith, ltb, le→ltb_false, Bool-cases, inl, inr, Result-cases,
}
use lz_v2_audit.Bytes.{range, to_u8, to_u16}
use lz_v2_audit.Uln.Options.{
  Decoding, decode_executor_option, decode_dvn_option, decode_worker_option, decode_worker_options,
}

cursor_of : (d d' : Decoding) → ok d ≡ ok d' → d.cursor ≡ d'.cursor
cursor_of d d' h = ap (λ (x : Decoding). x.cursor) (ok-injective h)

executor-up :
    (options : List ℕ) (cursor size : ℕ) (d d' : Decoding)
    → decode_executor_option options cursor size d ≡ ok d'
    → cursor ≤ d'.cursor
unfolding decode_executor_option
executor-up options cursor size d d' h =
    let (t, e1, h1) = >>=-eq-ok (to_u8 options cursor) _ h in
    let (p, e2, h2) = >>=-eq-ok (range (cursor + 1) (cursor + size) options) _ h1 in
    omega (arith, cursor_of _ d' h2)

dvn-up :
    (options : List ℕ) (cursor size : ℕ) (d d' : Decoding)
    → decode_dvn_option options cursor size d ≡ ok d'
    → cursor ≤ d'.cursor
unfolding decode_dvn_option
dvn-up options cursor size d d' h =
    let (i, e1, h1) = >>=-eq-ok (to_u8 options cursor) _ h in
    let (t, e2, h2) = >>=-eq-ok (to_u8 options (cursor + 1)) _ h1 in
    let (p, e3, h3) = >>=-eq-ok (range (cursor + 2) (cursor + size) options) _ h2 in
    omega (arith, cursor_of _ d' h3)

worker-up :
    (options : List ℕ) (d d' : Decoding)
    → decode_worker_option options d ≡ ok d'
    → d.cursor < d'.cursor
unfolding decode_worker_option
worker-up options d d' h =
    let (id, e1, h1) = >>=-eq-ok (to_u8 options d.cursor) _ h in
    let (size, e2, h2) = >>=-eq-ok (to_u16 options (d.cursor + 1)) _ h1 in
    ground (
      arith,
      h2,
      executor-up options (d.cursor + 1 + 2) size d d',
      dvn-up options (d.cursor + 1 + 2) size d d',
    )

-- A loop over the worker options whose fuel covers what is left of the bytes ends, with a result.
pub enough_fuel :
    (fuel : ℕ) (options : List ℕ) (d : Decoding)
    → length options ≤ d.cursor + fuel
    → (r : Result Decoding) × (decode_worker_options (suc fuel) options d ≡ some r)
unfolding decode_worker_options
enough_fuel zero options d h =
    (ok d, rw (le→ltb_false d.cursor (length options) (omega arith)) refl)
enough_fuel (suc fuel) options d h = elim (Bool-cases (ltb d.cursor (length options))) [
  | inr done ↦ (ok d, rw done refl)
  | inl more ↦ elim (Result-cases (decode_worker_option options d)) [
    | inl (d', e) ↦
        let up = worker-up options d d' e in
        let (r, f) = enough_fuel fuel options d' (omega arith) in (r, rw (more, e) f)
    | inr (inl (x, e)) ↦ (err x, rw (more, e) refl)
    | inr (inr e) ↦ (panic, rw (more, e) refl)
  ]
]
