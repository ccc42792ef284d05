-- ===== src/Prelude/Outcome.antt =====
-- What a program instruction ends with: a value, an Anchor error, or a Rust panic.
-- The workspace is built with `overflow-checks = true` (packages/layerzero-v2/solana/programs/
-- Cargo.toml), so arithmetic on machine words that leaves its range panics. Errors and panics both
-- abort the transaction, and the accounts then keep their old contents.
use Prim.Native.Nat.{ℕ, ◌+◌, ◌-◌, ◌*◌, ◌/◌, ◌^◌}
use mathlib.Core.Path.{◌≡◌, refl, subst}
use mathlib.Core.List.{List, [], ◌∷◌}
use mathlib.Core.Logic.{◌⊎◌, inl, inr}
use mathlib.Core.Bool.{Bool, true, false}
use mathlib.Core.Option.{Option, none, some}
use lz_v2_audit.Prelude.Compare.{ltb, leb, ◌==◌, if◌then◌else◌}
use lz_v2_audit.Prelude.Errors.{Error, AnchorError, anchor}

pub data Result {ℓ} (A : Type ℓ) : Type ℓ where
  panic : Result A
  err : Error → Result A
  ok : A → Result A

-- `require!(test, error)`
abbrev pub require : Bool → Error → Result (Unit {0})
require false error = err error
require true error = ok tt

infixl 5 ◌>>=◌ ◌>>◌
-- `outcome?`, and what is done with its value.
abbrev pub ◌>>=◌ {ℓ κ} : {A : Type ℓ} {B : Type κ} → Result A → (A → Result B) → Result B
panic >>= then_do = panic
err error >>= then_do = err error
ok value >>= then_do = then_do value

-- `option.ok_or(error)`
abbrev pub ok_or {ℓ} : {A : Type ℓ} → Option A → Error → Result A
ok_or none e = err e
ok_or (some a) e = ok a

-- A loop over a list in which every round can fail.
abbrev pub each {ℓ κ} : {A : Type ℓ} {S : Type κ} → (S → A → Result S) → List A → S → Result S
each round [] s = ok s
each round (x ∷ xs) s = round s x >>= each round xs

-- The same where there is no value.
abbrev pub ◌>>◌ {ℓ} : {B : Type ℓ} → Result (Unit {0}) → Result B → Result B
check >> rest = check >>= λ done. rest

-- An `Account<T>` argument of an instruction: the account must have been initialised.
abbrev pub account {ℓ} : {A : Type ℓ} → Option A → Result A
account o = ok_or o (anchor AnchorError.account_not_initialized)

-- An `init` account: it must not exist yet.
abbrev pub fresh {ℓ} : {A : Type ℓ} → Option A → Result (Unit {0})
fresh none = ok tt
fresh (some a) = err (anchor AnchorError.already_in_use)

-- A value that must fit in `w` bits.
abbrev pub in_bits : ℕ → ℕ → Result ℕ
in_bits w n = if ltb n (2 ^ w) then ok n else panic

-- `a + b` and `a * b` on unsigned words of `w` bits.
abbrev pub checked_add : ℕ → ℕ → ℕ → Result ℕ
checked_add w a b = in_bits w (a + b)

abbrev pub checked_mul : ℕ → ℕ → ℕ → Result ℕ
checked_mul w a b = in_bits w (a * b)

-- `a - b` on unsigned words.
abbrev pub checked_sub : ℕ → ℕ → Result ℕ
checked_sub a b = if leb b a then ok (a - b) else panic

-- `a / b` on unsigned words.
abbrev pub checked_div : ℕ → ℕ → Result ℕ
checked_div a b = if b == 0 then panic else ok (a / b)

pub >>=-eq-ok {ℓ κ} :
    {A : Type ℓ} {B : Type κ} (outcome : Result A) (then_do : A → Result B) {result : B}
    → (outcome >>= then_do) ≡ ok result
    → (value : A) × (outcome ≡ ok value) × (then_do value ≡ ok result)
>>=-eq-ok panic then_do e = cc
>>=-eq-ok (err error) then_do e = cc
>>=-eq-ok (ok value) then_do e = (value, refl, e)

pub require-eq-ok : (b : Bool) (e : Error) {u : Unit {0}} → require b e ≡ ok u → b ≡ true
require-eq-ok true e h = refl
require-eq-ok false e h = cc

pub ok_or-eq-ok {ℓ} :
    {A : Type ℓ} (o : Option A) (e : Error) {a : A} → ok_or o e ≡ ok a → o ≡ some a
ok_or-eq-ok none e h = cc
ok_or-eq-ok (some a) e h = cc

pub account-eq-ok {ℓ} : {A : Type ℓ} (o : Option A) {a : A} → account o ≡ ok a → o ≡ some a
account-eq-ok none h = cc
account-eq-ok (some a) h = cc

pub fresh-eq-ok {ℓ} : {A : Type ℓ} (o : Option A) {u : Unit {0}} → fresh o ≡ ok u → o ≡ none
fresh-eq-ok none h = refl
fresh-eq-ok (some a) h = cc

-- An instruction on one account that is guarded by a test on it.
pub guarded {ℓ κ} :
    {A : Type ℓ} {B : Type κ} (o : Option A) (test : A → Bool) (e : Error) (then_do : A → Result B)
    {result : B}
    → (account o >>= λ a. require (test a) e >> then_do a) ≡ ok result
    → (a : A) × (o ≡ some a) × (test a ≡ true) × (then_do a ≡ ok result)
guarded none test e then_do h = cc
guarded (some a) test e then_do h =
    let (done, e1, h1) = >>=-eq-ok (require (test a) e) _ h in
    (a, refl, require-eq-ok (test a) e e1, h1)

pub ok-injective {ℓ} : {A : Type ℓ} {a b : A} → ok a ≡ ok b → a ≡ b
ok-injective p = cc

pub Result-cases {ℓ} :
    {A : Type ℓ} (r : Result A)
    → ((a : A) × (r ≡ ok a)) ⊎ (((e : Error) × (r ≡ err e)) ⊎ (r ≡ panic))
Result-cases panic = inr (inr refl)
Result-cases (err e) = inr (inl (e, refl))
Result-cases (ok a) = inl (a, refl)

-- What every round of a loop keeps, the loop keeps.
pub each-keeps {ℓ κ μ} :
    {A : Type ℓ} {S : Type κ} (P : S → Type μ) (round : S → A → Result S)
    → ((s : S) (x : A) (s' : S) → P s → round s x ≡ ok s' → P s')
    → (xs : List A) (s s' : S) → P s
    → each round xs s ≡ ok s'
    → P s'
each-keeps P round keep [] s s' p h = subst P (ok-injective h) p
each-keeps P round keep (x ∷ xs) s s' p h =
    let (s1, e1, h1) = >>=-eq-ok (round s x) (each round xs) h in
    each-keeps P round keep xs s1 s' (keep s x s1 p e1) h1
