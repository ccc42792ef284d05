-- ===== src/Uln/Verification.antt =====
-- programs/uln/src/instructions/dvn: the confirmations of the DVNs, and `check_verifiable` of
-- commit_verification.rs, which counts them.
pub mod Quorum
pub mod Decision
use lz_v2_audit.Prelude.{
  ℕ, ◌+◌, ◌-◌, Option, none, some, List, [], ◌∷◌, Bool, true, false, not, ◌&&◌, ◌==◌, ltb, leb,
  length, get_elem?, if◌then◌else◌, Result, ok, err, panic, require, ok_or, checked_sub, ◌>>=◌,
  ◌>>◌, UlnError, uln,
}
use lz_v2_audit.Uln.Config.{UlnConfig}

pub record Confirmations : Type 0 where
  pub value : Option ℕ
  pub bump : ℕ

-- An account as the caller passes it; `content` is what `Confirmations::try_deserialize` makes of it.
pub record AccountInfo : Type 0 where
  pub key : ℕ
  pub owner : ℕ
  pub content : Result Confirmations

-- The runtime of the ULN: its program id, and `Pubkey::create_program_address` over the seeds
-- CONFIRMATIONS_SEED, header hash, payload hash, DVN and bump.
pub record Addresses : Type 0 where
  pub uln_id : ℕ
  pub confirmations_address : (header_hash payload_hash dvn bump : ℕ) → Option ℕ

module _ (env : Addresses) (header_hash payload_hash required_conf : ℕ) where
  unfoldable pub verified : ℕ → AccountInfo → Result Bool
  verified dvn account =
      if account.owner == env.uln_id
      then (do
        confirmations ← account.content
        expected ←
            ok_or (env.confirmations_address header_hash payload_hash dvn confirmations.bump)
              (uln UlnError.invalid_confirmation)
        require (account.key == expected) (uln UlnError.invalid_confirmation)
        ok (elim confirmations.value [ none ↦ false | some conf ↦ leb required_conf conf ]))
      else ok false

  -- `verified(dvn, &accounts[i], ...)`
  unfoldable pub verified_at : List AccountInfo → ℕ → ℕ → Result Bool
  verified_at accounts i dvn = elim (get_elem? accounts i) [
    | none ↦ panic
    | some account ↦ verified dvn account
  ]

  -- The loop over the required DVNs: the first that has not verified ends it.
  pub all_verified : List AccountInfo → ℕ → List ℕ → Result Bool
  all_verified accounts i [] = ok true
  all_verified accounts i (dvn ∷ dvns) = do
    confirmed ← verified_at accounts i dvn
    if confirmed then all_verified accounts (i + 1) dvns else ok false

  -- The loop over the optional DVNs, with the confirmations that are still missing.
  pub threshold_reached : List AccountInfo → ℕ → ℕ → List ℕ → Result Bool
  threshold_reached accounts i threshold [] = ok false
  threshold_reached accounts i threshold (dvn ∷ dvns) = do
    confirmed ← verified_at accounts i dvn
    missing ← if confirmed then checked_sub threshold 1 else ok threshold
    if confirmed && missing == 0 then ok true else threshold_reached accounts (i + 1) missing dvns

unfoldable pub check_verifiable :
    Addresses → (header_hash payload_hash : ℕ) → UlnConfig → List AccountInfo → Result Bool
unfolding all_verified threshold_reached
check_verifiable env header_hash payload_hash config accounts =
    let offset = length config.required_dvns in
    let optional =
      threshold_reached env header_hash payload_hash config.confirmations accounts offset
        config.optional_dvn_threshold config.optional_dvns in
    if ltb 0 config.required_dvn_count
    then (do
      all ←
          all_verified env header_hash payload_hash config.confirmations accounts 0
            config.required_dvns
      if not all
          then ok false
          else if config.optional_dvn_threshold == 0
          then ok true
          else optional)
    else optional
