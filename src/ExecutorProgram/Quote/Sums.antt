-- ===== src/ExecutorProgram/Quote/Sums.antt =====
-- What the loops of an executor's quote add up.
use lz_v2_audit.Prelude.{
  ℕ, ◌+◌, ◌≡◌, refl, ◌∙◌, Option, none, some, Bool, true, false, ◌==◌, if◌then◌else◌, List, [], ◌∷◌,
  Result, ok, err, panic, >>=-eq-ok, ok-injective, each, Bool-cases, inl, inr, checked_add, arith,
  ExecutorError, executor,
}
use lz_v2_audit.Worker.{LzOption}
use lz_v2_audit.ExecutorProgram.Options.{
  decode_lz_receive_params, decode_native_drop_params, decode_lz_compose_params,
}
use lz_v2_audit.ExecutorProgram.Quote.{
  Totals, add_lz_receive, add_native_drop, add_compose_gas, add_lz_compose, add_option,
}

abbrev pub or_zero {ℓ} : {A : Type ℓ} → Result A → (A → ℕ) → ℕ
or_zero (ok a) f = f a
or_zero (err e) f = 0
or_zero panic f = 0

-- The native amount that an option asks for on the destination, and the gas for `lz_receive`.
abbrev pub amount_of : LzOption → ℕ
amount_of option =
    if option.option_type == 1
    then or_zero (decode_lz_receive_params option.params) (λ p. p.1)
    else if option.option_type == 2
    then or_zero (decode_native_drop_params option.params) (λ p. p.0)
    else if option.option_type == 3
    then or_zero (decode_lz_compose_params option.params) (λ p. p.1.1)
    else 0

abbrev pub receive_gas_of : LzOption → ℕ
receive_gas_of option =
    if option.option_type == 1
    then or_zero (decode_lz_receive_params option.params) (λ p. p.0)
    else 0

abbrev pub sum_over : (LzOption → ℕ) → List LzOption → ℕ
sum_over f [] = 0
sum_over f (o ∷ os) = f o + sum_over f os

checked_add-eq-ok : (w a b c : ℕ) → checked_add w a b ≡ ok c → c ≡ a + b
checked_add-eq-ok w a b c h = ground arith

-- What a round adds.
Added : (amount gas : ℕ) (t t' : Totals) → Type 0
Added amount gas t t' =
    (t'.dst_amount ≡ t.dst_amount + amount) × (t'.lz_receive_gas ≡ t.lz_receive_gas + gas)

add_lz_receive-Added :
    (t t' : Totals) (params : List ℕ)
    → add_lz_receive t params ≡ ok t'
    → Added
        (or_zero (decode_lz_receive_params params) (λ p. p.1))
        (or_zero (decode_lz_receive_params params) (λ p. p.0))
        t
        t'
unfolding add_lz_receive Added
add_lz_receive-Added t t' params h =
    let (p, e1, h1) = >>=-eq-ok (decode_lz_receive_params params) _ h in
    let (amount, e2, h2) = >>=-eq-ok (checked_add 128 t.dst_amount p.1) _ h1 in
    let (gas, e3, h3) = >>=-eq-ok (checked_add 128 t.lz_receive_gas p.0) _ h2 in
    rw (e1, ← ok-injective h3) (checked_add-eq-ok 128 _ _ _ e2, checked_add-eq-ok 128 _ _ _ e3)

add_native_drop-Added :
    (t t' : Totals) (params : List ℕ)
    → add_native_drop t params ≡ ok t'
    → Added (or_zero (decode_native_drop_params params) (λ p. p.0)) 0 t t'
unfolding add_native_drop Added
add_native_drop-Added t t' params h =
    let (p, e1, h1) = >>=-eq-ok (decode_native_drop_params params) _ h in
    let (amount, e2, h2) = >>=-eq-ok (checked_add 128 t.dst_amount p.0) _ h1 in
    rw (e1, ← ok-injective h2) (checked_add-eq-ok 128 _ _ _ e2, omega arith)

add_compose_gas-eq :
    (t t' : Totals) (amount index gas : ℕ) (o : Option ℕ)
    → add_compose_gas t amount index gas o ≡ ok t'
    → (t'.dst_amount ≡ amount) × (t'.lz_receive_gas ≡ t.lz_receive_gas)
unfolding add_compose_gas
add_compose_gas-eq t t' amount index gas (some before) h =
    let (sum, e1, h1) = >>=-eq-ok (checked_add 128 before gas) _ h in
    rw (← ok-injective h1) (refl, refl)
add_compose_gas-eq t t' amount index gas none h = rw (← ok-injective h) (refl, refl)

add_lz_compose-Added :
    (t t' : Totals) (params : List ℕ)
    → add_lz_compose t params ≡ ok t'
    → Added (or_zero (decode_lz_compose_params params) (λ p. p.1.1)) 0 t t'
unfolding add_lz_compose Added
add_lz_compose-Added t t' params h =
    let (p, e1, h1) = >>=-eq-ok (decode_lz_compose_params params) _ h in
    let (amount, e2, h2) = >>=-eq-ok (checked_add 128 t.dst_amount p.1.1) _ h1 in
    let (same, kept) = add_compose_gas-eq t t' amount p.0 p.1.0 (t.lz_compose_gas p.0) h2 in
    rw e1 (same ∙ checked_add-eq-ok 128 _ _ _ e2, omega (arith, kept))

ordered-Added :
    (t t' : Totals) (last : Bool)
    → (if last
        then ok (record t { ordered = true })
        else err (executor ExecutorError.unsupported_option_type))
      ≡ ok t'
    → Added 0 0 t t'
unfolding Added
ordered-Added t t' true h = rw (← ok-injective h) (omega arith, omega arith)
ordered-Added t t' false h = cc

add_option-Added :
    (t t' : Totals) (o : LzOption)
    → add_option t o ≡ ok t'
    → Added (amount_of o) (receive_gas_of o) t t'
unfolding add_option Added
add_option-Added t t' o h = elim (Bool-cases (o.option_type == 1)) [
  | inl one ↦ rw one (add_lz_receive-Added t t' o.params (rw one at h))
  | inr not_one ↦ elim (Bool-cases (o.option_type == 2)) [
    | inl two ↦ rw (not_one, two) (add_native_drop-Added t t' o.params (rw (not_one, two) at h))
    | inr not_two ↦ elim (Bool-cases (o.option_type == 3)) [
      | inl three ↦
          rw (not_one, not_two, three)
            (add_lz_compose-Added t t' o.params (rw (not_one, not_two, three) at h))
      | inr not_three ↦
          rw (not_one, not_two, not_three)
            (ordered-Added t t' (o.option_type == 4) (rw (not_one, not_two, not_three) at h))
    ]
  ]
]

-- The totals of the options that a quote accepts: the native amount is the sum of the amounts of
-- the single options, and the gas for `lz_receive` the sum of their gas.
pub totals_lem :
    (options : List LzOption) (t t' : Totals)
    → each add_option options t ≡ ok t'
    → (t'.dst_amount ≡ t.dst_amount + sum_over amount_of options)
      × (t'.lz_receive_gas ≡ t.lz_receive_gas + sum_over receive_gas_of options)
unfolding Added
totals_lem [] t t' h = rw (← ok-injective h) (omega arith, omega arith)
totals_lem (o ∷ os) t t' h =
    let (t1, e1, h1) = >>=-eq-ok (add_option t o) (each add_option os) h in
    let (a, g) = add_option-Added t t1 o e1 in
    let (rest, gas) = totals_lem os t1 t' h1 in (omega (arith, a, rest), omega (arith, g, gas))
