-- ===== src/Dvn/Invoke/Histories.antt =====
-- Histories of all instructions of the DVN program that write its accounts, with a clock that does
-- not go back.
pub mod Once
pub mod Powers
pub mod Reachable
use mathlib.Core.Path.{subst}
use lz_v2_audit.Prelude.{
  ℕ, ◌≤◌, ◌<◌, ◌≡◌, refl, Option, none, some, List, [], ◌∷◌, Bool, true, false, ◌||◌, ◌==◌,
  contains, map, ltb, leb, Bool-cases, inl, inr, Result, ok, require, account, fresh, fresh-eq-ok,
  require-eq-ok, ltb→lt, >>=-eq-ok, account-eq-ok, ok-injective, guarded, ◌>>=◌, ◌>>◌, write,
  nat_eq, arith, DvnError, dvn, if◌then◌else◌,
}
use lz_v2_audit.Dvn.Committee.{verify_signatures}
use lz_v2_audit.Dvn.{
  DvnConfig, MultisigConfig, AdminConfig, set_multisig, set_admins, set_msglibs,
  apply_multisig_config, apply_admin_config, max_len_of,
}
use lz_v2_audit.Dvn.Settings.{
  IsDvnConfig, IsLists, same_lists, set_multisig-keeps, set_admins-keeps, set_msglibs-keeps,
  apply_multisig_config-keeps, apply_admin_config-keeps,
}
use lz_v2_audit.Dvn.Invoke.{
  ExecuteHash, DvnAccount, DvnStore, InitDvnParams, TransactionAccount, ExecuteTransactionDigest,
  InvokeParams, zeroed, is_set_admin, account_meta, init_dvn, Runtime, marked, dispatch,
  multisig_config_set, digest_hash, configure, call, invoke, close_execute, extend_dvn_config,
  set_config,
}

module _ (r : Runtime) where
  pub data Step (clock : ℕ) (s s' : DvnStore) : Type 0 where
    init_step :
        (bump : ℕ) (params : InitDvnParams) → init_dvn bump params s ≡ ok s' → Step clock s s'
    invoke_step :
        (bump signer : ℕ) (params : InvokeParams)
        → invoke r bump signer clock params s ≡ ok s'
        → Step clock s s'
    close_step : (admin hash : ℕ) → close_execute admin clock hash s ≡ ok s' → Step clock s s'
    extend_step : (admin : ℕ) → extend_dvn_config admin s ≡ ok s' → Step clock s s'
    set_step :
        (admin : ℕ) (config : AdminConfig) → set_config admin config s ≡ ok s' → Step clock s s'

  -- From one time and state to another: time passes, and instructions run.
  pub data Since (t : ℕ) (s : DvnStore) : ℕ → DvnStore → Type 0 where
    now : Since t s t s
    wait : {t1 t2 : ℕ} {s1 : DvnStore} → Since t s t1 s1 → t1 ≤ t2 → Since t s t2 s1
    then_step : {t1 : ℕ} {s1 s2 : DvnStore} → Since t s t1 s1 → Step t1 s1 s2 → Since t s t1 s2

  -- What a successful invocation has checked, and what is left to do.
  pub record IsChecked (bump signer clock : ℕ) (params : InvokeParams) (s s' : DvnStore)
      (a : DvnAccount) : Type 0 where
    pub stored : s.config ≡ some a
    pub new : s.execute_hashes (digest_hash r params.digest) ≡ none
    pub in_time : clock < params.digest.expiration
    pub verified :
        verify_signatures r.secp256k1_recover a.data_of.multisig params.signatures
          (digest_hash r params.digest)
        ≡ ok tt
    pub dispatched : dispatch r signer params.digest a (marked r bump params.digest s) ≡ ok s'

  pub invoke-IsChecked :
      (bump signer clock : ℕ) (params : InvokeParams) (s s' : DvnStore)
      → invoke r bump signer clock params s ≡ ok s'
      → (a : DvnAccount) × IsChecked bump signer clock params s s' a
  unfolding invoke
  invoke-IsChecked bump signer clock params s s' h =
      let (a, e1, h1) = >>=-eq-ok (account s.config) _ h in
      let (u2, e2, h2) = >>=-eq-ok (fresh (s.execute_hashes (digest_hash r params.digest))) _ h1 in
      let (u3, e3, h3) =
        >>=-eq-ok (require (a.data_of.vid == params.digest.vid) (dvn DvnError.invalid_vid)) _ h2 in
      let (u4, e4, h4) =
        >>=-eq-ok (require (ltb clock params.digest.expiration) (dvn DvnError.expired)) _ h3 in
      let (u5, e5, h5) =
        >>=-eq-ok
          (verify_signatures r.secp256k1_recover a.data_of.multisig params.signatures
            (digest_hash r params.digest))
          _ h4 in
      (
        a,
        record {
          stored = account-eq-ok s.config e1;
          new = fresh-eq-ok _ e2;
          in_time = ltb→lt _ _ (require-eq-ok _ _ e4);
          verified = e5;
          dispatched = h5;
        },
      )

  -- The configuration branch: a configuration that was read and applied.
  pub configure_checked :
      (signer : ℕ) (digest : ExecuteTransactionDigest) (a : DvnAccount) (s s' : DvnStore)
      → configure r signer digest a s ≡ ok s'
      → (config : MultisigConfig) × (data_of : DvnConfig) × (r.read_config digest.data_of
          ≡ ok config)
        × ((is_set_admin config || contains signer a.data_of.admins) ≡ true)
        × (apply_multisig_config config a.data_of ≡ ok data_of)
        × (record s {
          config = some (record a { data_of = data_of });
          log = multisig_config_set config ∷ s.log;
        }
            ≡ s')
  unfolding configure
  configure_checked signer digest a s s' h =
      let (config, e1, h1) = >>=-eq-ok (r.read_config digest.data_of) _ h in
      let (u2, e2, h2) =
        >>=-eq-ok
          (require (is_set_admin config || contains signer a.data_of.admins)
            (dvn DvnError.not_admin))
          _ h1 in
      let (data_of, e3, h3) = >>=-eq-ok (apply_multisig_config config a.data_of) _ h2 in
      (config, data_of, e1, require-eq-ok _ _ e2, e3, ok-injective h3)

  -- The call branch changes nothing, and an admin has signed.
  pub call_checked :
      (signer : ℕ) (digest : ExecuteTransactionDigest) (a : DvnAccount) (s s' : DvnStore)
      → call r signer digest a s ≡ ok s'
      → (contains signer a.data_of.admins ≡ true) × (s ≡ s')
  unfolding call
  call_checked signer digest a s s' h =
      let (u1, e1, h1) =
        >>=-eq-ok (require (contains signer a.data_of.admins) (dvn DvnError.not_admin)) _ h in
      let (u2, e2, h2) =
        >>=-eq-ok
          (r.invoke_signed digest.program_id (map (account_meta r.config_acc) digest.accounts)
            digest.data_of)
          _ h1 in
      (require-eq-ok _ _ e1, ok-injective h2)
