-- ===== src/Uln/Verification/Decision.antt =====
-- The decision of `check_verifiable` (programs/uln/src/instructions/dvn/commit_verification.rs).
use lz_v2_audit.Prelude.{
  ℕ, ◌≤◌, ◌<◌, ◌≡◌, refl, Option, none, some, List, [], ◌∷◌, Bool, true, false, ◌&&◌, ◌==◌, leb,
  length, if◌then◌else◌, Result, ok, ok_or, require, >>=-eq-ok, arith, UlnError, uln,
}
use lz_v2_audit.Uln.Config.{UlnConfig}
use lz_v2_audit.Uln.Verification.{AccountInfo, Addresses, Confirmations, verified, check_verifiable}
use lz_v2_audit.Uln.Verification.Quorum.{
  IsResolved, all_confirmed, confirmed_count, AllAnswer, all_verified_sound,
  threshold_reached_sound, all_verified_complete, threshold_reached_complete,
}

-- A DVN is counted as confirming only on an account that the ULN owns, at the address derived from
-- the header hash, the payload hash and the DVN, whose confirmations reach the required number.
pub record IsConfirmation (env : Addresses) (header_hash payload_hash required_conf dvn : ℕ)
    (account : AccountInfo) : Type 0 where
  pub content : Confirmations
  pub read : account.content ≡ ok content
  pub owned : account.owner ≡ env.uln_id
  pub addressed :
      env.confirmations_address header_hash payload_hash dvn content.bump ≡ some account.key
  pub conf : ℕ
  pub recorded : content.value ≡ some conf
  pub enough : required_conf ≤ conf

-- A DVN is found to have confirmed only on an account that the ULN owns, at the address derived
-- from the header hash, the payload hash, the DVN and the stored bump, whose confirmations reach
-- the required number.
pub verified-true :
    (env : Addresses) (header_hash payload_hash required_conf dvn : ℕ) (account : AccountInfo)
    → verified env header_hash payload_hash required_conf dvn account ≡ ok true
    → IsConfirmation env header_hash payload_hash required_conf dvn account
unfolding verified
verified-true env header_hash payload_hash required_conf dvn account h =
    let (owned, h1) = owner_first h in
    let (content, read, h2) = >>=-eq-ok account.content _ h1 in
    let (expected, addressed, h3) =
      >>=-eq-ok
        (ok_or (env.confirmations_address header_hash payload_hash dvn content.bump)
          (uln UlnError.invalid_confirmation))
        _ h2 in
    let (u, same, h4) =
      >>=-eq-ok (require (account.key == expected) (uln UlnError.invalid_confirmation)) _ h3 in
    let (conf, recorded, enough) = recorded_value content.value required_conf h4 in
    record {
      content = content;
      read = read;
      owned = owned;
      addressed = ground arith;
      conf = conf;
      recorded = recorded;
      enough = enough;
    }
  where
    owner_first :
        {m : Result Bool}
        → (if account.owner == env.uln_id then m else ok false) ≡ ok true
        → (account.owner ≡ env.uln_id) × (m ≡ ok true)
    owner_first e = ground arith

    recorded_value :
        (o : Option ℕ) (required_conf : ℕ)
        → ok (elim o [ none ↦ false | some conf ↦ leb required_conf conf ]) ≡ ok true
        → (conf : ℕ) × (o ≡ some conf) × (required_conf ≤ conf)
    recorded_value none required_conf e = ground arith
    recorded_value (some conf) required_conf e = (conf, refl, ground arith)

module _ (env : Addresses) (header_hash payload_hash : ℕ) (config : UlnConfig)
    (accounts : List AccountInfo) where
  abbrev conf : ℕ
  conf = config.confirmations

  none_required :
      (i : ℕ) (dvns : List ℕ)
      → length dvns ≡ 0
      → all_confirmed env header_hash payload_hash conf accounts i dvns ≡ true
  none_required i [] e = refl
  none_required i (dvn ∷ dvns) e = absurd (omega (arith, e))

  -- With a resolved configuration, and accounts that are all read without an error, the answer of
  -- the quorum check is whether every required DVN has confirmed and at least the threshold of the
  -- optional ones.
  pub check_verifiable_exact :
      IsResolved config
      → AllAnswer env header_hash payload_hash conf accounts 0 config.required_dvns
      → AllAnswer env header_hash payload_hash conf accounts
          (length config.required_dvns)
          config.optional_dvns
      → check_verifiable env header_hash payload_hash config accounts
        ≡ ok (
            all_confirmed env header_hash payload_hash conf accounts 0 config.required_dvns
            && leb config.optional_dvn_threshold (
                confirmed_count env header_hash payload_hash conf accounts
                  (length config.required_dvns)
                  config.optional_dvns))
  unfolding check_verifiable
  check_verifiable_exact r a1 a2 = ground (
    arith,
    all_verified_complete env header_hash payload_hash conf accounts 0 config.required_dvns a1,
    (λ (p : 0 < config.optional_dvn_threshold).
        threshold_reached_complete env header_hash payload_hash conf accounts
          (length config.required_dvns) config.optional_dvn_threshold config.optional_dvns p a2),
    none_required 0 config.required_dvns,
    r.required_length,
    r.at_least_one,
  )

  -- With a resolved configuration, whatever accounts are passed, the quorum check answers true only
  -- if every required DVN and at least the threshold of the optional DVNs have confirmed.
  pub check_verifiable_sound :
      IsResolved config
      → check_verifiable env header_hash payload_hash config accounts ≡ ok true
      → (all_confirmed env header_hash payload_hash conf accounts 0 config.required_dvns ≡ true)
        × (config.optional_dvn_threshold
            ≤ confirmed_count env header_hash payload_hash conf accounts
                (length config.required_dvns)
                config.optional_dvns)
  unfolding check_verifiable
  check_verifiable_sound r h = ground (
    arith,
    all_verified_sound env header_hash payload_hash conf accounts 0 config.required_dvns,
    threshold_reached_sound env header_hash payload_hash conf accounts (length config.required_dvns)
        config.optional_dvn_threshold config.optional_dvns,
    none_required 0 config.required_dvns,
    r.required_length,
    r.at_least_one,
  )
