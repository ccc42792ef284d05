-- ===== src/Uln/Confirm.antt =====
-- programs/uln/src/instructions/dvn/{init_verify,verify,close_verify}.rs: the life of a DVN's
-- confirmations. The rent that close_verify returns is not modelled.
pub mod Authentic
use lz_v2_audit.Prelude.{
  ℕ, ◌≡◌, ◌∙◌, refl, sym, Option, none, some, List, ◌∷◌, Result, ok, account, fresh, ◌>>=◌, ◌>>◌,
  >>=-eq-ok, account-eq-ok, fresh-eq-ok, ok-injective, write, write_self, write-at, nat_eq, pair_eq,
  inl, inr, ◌⊎◌, arith, Bool-cases, Bool, true,
}
use mathlib.Core.Path.{subst}
use lz_v2_audit.Uln.Verification.{Confirmations}
use lz_v2_audit.Uln.State.{UlnStore, ConfirmationKey, confirmation_key, payload_verified}

pub record InitVerifyParams : Type 0 where
  pub packet_header : List ℕ
  pub payload_hash : ℕ
  pub dvn : ℕ

pub record VerifyParams : Type 0 where
  pub packet_header : List ℕ
  pub payload_hash : ℕ
  pub confirmations : ℕ

pub record CloseVerifyParams : Type 0 where
  pub packet_header_hash : ℕ
  pub payload_hash : ℕ

module _ (keccak : List ℕ → ℕ) where
  -- `InitVerify::apply`, with the bump of the new account. Anyone may pay for it.
  unfoldable pub init_verify : (bump : ℕ) → InitVerifyParams → UlnStore → Result UlnStore
  init_verify bump params s = do
    let key = confirmation_key (keccak params.packet_header) params.payload_hash params.dvn
    fresh (s.confirmations key)
    ok (record s {
      confirmations = write key (some (record { value = none; bump = bump })) s.confirmations;
    })

  -- `Verify::apply`; the signer is the DVN.
  unfoldable pub verify : (dvn : ℕ) → VerifyParams → UlnStore → Result UlnStore
  verify dvn params s = do
    let key = confirmation_key (keccak params.packet_header) params.payload_hash dvn
    confirmations ← account (s.confirmations key)
    ok (record s {
      confirmations =
          write key (some (record confirmations { value = some params.confirmations }))
            s.confirmations;
      log =
          payload_verified dvn params.packet_header params.confirmations params.payload_hash
          ∷ s.log;
    })

-- `CloseVerify::apply`; the signer is the DVN.
unfoldable pub close_verify : (dvn : ℕ) → CloseVerifyParams → UlnStore → Result UlnStore
close_verify dvn params s = do
  let key = confirmation_key params.packet_header_hash params.payload_hash dvn
  confirmations ← account (s.confirmations key)
  ok (record s { confirmations = write key none s.confirmations })

-- One of the three instructions, with the DVN that signs `verify` and `close_verify`.
pub data Step (keccak : List ℕ → ℕ) (s s' : UlnStore) : Type 0 where
  init_step :
      (bump : ℕ) (params : InitVerifyParams)
      → init_verify keccak bump params s ≡ ok s'
      → Step keccak s s'
  verify_step :
      (dvn : ℕ) (params : VerifyParams) → verify keccak dvn params s ≡ ok s' → Step keccak s s'
  close_step :
      (dvn : ℕ) (params : CloseVerifyParams) → close_verify dvn params s ≡ ok s' → Step keccak s s'

pub data Reach (keccak : List ℕ → ℕ) (s : UlnStore) : UlnStore → Type 0 where
  here : Reach keccak s s
  next : {t u : UlnStore} → Reach keccak s t → Step keccak t u → Reach keccak s u

-- At some time in the history the DVN itself signed a `verify` of these confirmations for this header
-- hash and payload hash.
pub data HasSigned (keccak : List ℕ → ℕ) (s : UlnStore)
    : UlnStore → (header_hash payload_hash dvn conf : ℕ) → Type 0 where
  signed_now :
      {t u : UlnStore} (dvn : ℕ) (params : VerifyParams)
      → Reach keccak s t
      → verify keccak dvn params t ≡ ok u
      → HasSigned keccak s u
          (keccak params.packet_header)
          params.payload_hash
          dvn
          params.confirmations
  signed_before :
      {t u : UlnStore} {header_hash payload_hash dvn conf : ℕ}
      → HasSigned keccak s t header_hash payload_hash dvn conf
      → Step keccak t u
      → HasSigned keccak s u header_hash payload_hash dvn conf
