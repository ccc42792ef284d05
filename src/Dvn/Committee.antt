-- ===== src/Dvn/Committee.antt =====
-- programs/dvn/src/state/dvn_config.rs, `Multisig`: the committee of a DVN and its quorum. A public
-- key is the number that its 64 bytes spell, and a `HashSet` of them is the list of what was put in.
-- The recovery of a key from a signature is the runtime's.
pub mod Quorum
use lz_v2_audit.Prelude.{
  ℕ, zero, suc, ◌&&◌, not, List, [], ◌∷◌, Option, contains, length, ltb, leb, if◌then◌else◌, Result,
  ok, panic, require, ok_or, ◌>>=◌, ◌>>◌, DvnError, dvn,
}

abbrev pub signers_max_len : ℕ
signers_max_len = 7

pub record Multisig : Type 0 where
  pub signers : List ℕ
  pub quorum : ℕ

-- A signature: its first 64 bytes, and the recovery id in its last.
pub record Signature : Type 0 where
  pub bytes : ℕ
  pub recovery_id : ℕ

-- `for signer in &self.signers { require!(unique.insert(signer), ...) }`
unfoldable pub assert_unique : List ℕ → List ℕ → Result (Unit {0})
assert_unique [] unique = ok tt
assert_unique (signer ∷ signers) unique = do
  require (not (contains signer unique)) (dvn DvnError.unique_owners)
  assert_unique signers (signer ∷ unique)

unfoldable pub sanity_check : Multisig → Result (Unit {0})
unfolding assert_unique
sanity_check multisig = do
  require (ltb 0 (length multisig.signers) && leb (length multisig.signers) signers_max_len)
      (dvn DvnError.invalid_signers_len)
  require (ltb 0 multisig.quorum && leb multisig.quorum (length multisig.signers))
      (dvn DvnError.invalid_quorum)
  assert_unique multisig.signers []

module _ (secp256k1_recover : (hash recovery_id sig : ℕ) → Option ℕ) where
  -- The loop over the first signatures, as many as the quorum, with the keys that have signed.
  unfoldable pub verify_loop :
      (signers : List ℕ) (hash remaining : ℕ) → List Signature → List ℕ → Result (Unit {0})
  verify_loop signers hash zero sigs signed = ok tt
  verify_loop signers hash (suc remaining) [] signed = panic
  verify_loop signers hash (suc remaining) (sig ∷ sigs) signed = do
    pubkey ← ok_or (secp256k1_recover hash sig.recovery_id sig.bytes) (dvn DvnError.signature_error)
    require (contains pubkey signers) (dvn DvnError.signer_not_in_committee)
    require (not (contains pubkey signed)) (dvn DvnError.duplicate_signature)
    verify_loop signers hash remaining sigs (pubkey ∷ signed)

  unfoldable pub verify_signatures : Multisig → List Signature → (hash : ℕ) → Result (Unit {0})
  unfolding verify_loop
  verify_signatures multisig sigs hash = do
    require (leb multisig.quorum (length sigs)) (dvn DvnError.invalid_signature_len)
    verify_loop multisig.signers hash multisig.quorum sigs []
