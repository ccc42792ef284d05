-- ===== src/Uln/Confirm/Authentic.antt =====
-- Whose the stored confirmations are.
use lz_v2_audit.Prelude.{
  ℕ, ◌≡◌, refl, Option, none, some, List, account, fresh, >>=-eq-ok, ok-injective, write, write-at,
  nat_eq, pair_eq, sym, arith,
}
use mathlib.Core.Path.{subst}
use lz_v2_audit.Uln.Verification.{Confirmations}
use lz_v2_audit.Uln.State.{UlnStore, ConfirmationKey, confirmation_key}
use lz_v2_audit.Uln.Confirm.{
  init_verify, verify, close_verify, Step, init_step, verify_step, close_step, Reach, here, next,
  HasSigned, signed_now, signed_before,
}

module _ (keccak : List ℕ → ℕ) (s : UlnStore) where
  abbrev IsSigned : UlnStore → ConfirmationKey → Option Confirmations → Type 0
  IsSigned t key o =
      (c : Confirmations) (conf : ℕ)
      → o ≡ some c
      → c.value ≡ some conf
      → HasSigned keccak s t key.0 key.1.0 key.1.1 conf

  AllSigned : UlnStore → Type 0
  AllSigned t = (key : ConfirmationKey) → IsSigned t key (t.confirmations key)

  kept :
      (t u : UlnStore) (key : ConfirmationKey) (o : Option Confirmations)
      → Step keccak t u
      → IsSigned t key o
      → IsSigned u key o
  kept t u key o st signed c conf found value = signed_before (signed c conf found value) st

  no_account : (u : UlnStore) (key : ConfirmationKey) → IsSigned u key none
  no_account u key c conf found value = cc

  no_value :
      (u : UlnStore) (key : ConfirmationKey) (bump : ℕ)
      → IsSigned u key (some (record { value = none; bump = bump }))
  no_value u key bump c conf found value = ground (arith, found, value)

  -- A step that writes one account.
  writes :
      (t u : UlnStore) (key : ConfirmationKey) (o : Option Confirmations)
      → AllSigned t
      → Step keccak t u
      → u.confirmations ≡ write key o t.confirmations
      → IsSigned u key o
      → AllSigned u
  unfolding AllSigned
  writes t u key o all st e new j =
      subst (λ (f : ConfirmationKey → Option Confirmations). IsSigned u j (f j)) (sym e)
        (write-at (IsSigned u j) key j o t.confirmations
          (λ same. subst (λ i. IsSigned u i o) same new) (kept t u j _ st (all j)))

  Step-AllSigned : (t u : UlnStore) → Reach keccak s t → AllSigned t → Step keccak t u → AllSigned u
  unfolding init_verify verify close_verify
  Step-AllSigned t u r all (init_step bump params h) =
      let key = confirmation_key (keccak params.packet_header) params.payload_hash params.dvn in
      let (u1, e1, h1) = >>=-eq-ok (fresh (t.confirmations key)) _ h in
      writes t u key _ all (init_step bump params h) (rw (← ok-injective h1) refl)
        (no_value u key bump)
  Step-AllSigned t u r all (verify_step dvn params h) =
      let key = confirmation_key (keccak params.packet_header) params.payload_hash dvn in
      let (c1, e1, h1) = >>=-eq-ok (account (t.confirmations key)) _ h in
      writes t u key _ all (verify_step dvn params h) (rw (← ok-injective h1) refl)
        (λ c conf found value.
          subst (λ n. HasSigned keccak s u key.0 key.1.0 key.1.1 n)
            (recorded c1.bump params.confirmations c conf found value) (signed_now dvn params r h))
    where
      recorded :
          (bump n : ℕ) (c : Confirmations) (conf : ℕ)
          → some (record { value = some n; bump = bump }) ≡ some c
          → c.value ≡ some conf
          → n ≡ conf
      recorded bump n c conf found value = ground (arith, found, value)
  Step-AllSigned t u r all (close_step dvn params h) =
      let key = confirmation_key params.packet_header_hash params.payload_hash dvn in
      let (c1, e1, h1) = >>=-eq-ok (account (t.confirmations key)) _ h in
      writes t u key none all (close_step dvn params h) (rw (← ok-injective h1) refl)
        (no_account u key)

  Reach-AllSigned : (t : UlnStore) → AllSigned s → Reach keccak s t → AllSigned t
  Reach-AllSigned t all here = all
  Reach-AllSigned t all (next {t = u} r st) = Step-AllSigned u t r (Reach-AllSigned u all r) st

-- If no confirmations were stored at first, then after any init_verify, verify and close_verify
-- instructions the confirmations stored for a header hash, a payload hash and a DVN are ones that
-- this DVN itself signed for them.
pub confirmations_authentic :
    (keccak : List ℕ → ℕ) (s t : UlnStore) (header_hash payload_hash dvn conf : ℕ)
    (c : Confirmations)
    → ((key : ConfirmationKey) → s.confirmations key ≡ none)
    → Reach keccak s t
    → t.confirmations (confirmation_key header_hash payload_hash dvn) ≡ some c
    → c.value ≡ some conf
    → HasSigned keccak s t header_hash payload_hash dvn conf
unfolding AllSigned
confirmations_authentic keccak s t header_hash payload_hash dvn conf c empty r found value =
    Reach-AllSigned keccak s t (λ key c conf found value. absurd (clash key c found)) r
      (confirmation_key header_hash payload_hash dvn) c conf found value
  where
    clash : (key : ConfirmationKey) (c : Confirmations) → s.confirmations key ≡ some c → ⊥
    clash key c found = ground (arith, found, empty key)
