-- ===== src/Dvn/Invoke/Histories/Once.antt =====
-- An order of the committee is executed once.
use mathlib.Core.Path.{subst}
use lz_v2_audit.Prelude.{
  ℕ, ◌≤◌, ◌<◌, ◌≡◌, ◌≢◌, ◌∙◌, ◌⊎◌, refl, sym, ap, Option, none, some, ◌==◌, ==→eq, contains, leb,
  leb→le, Bool-cases, inl, inr, ok, require, account, fresh, >>=-eq-ok, require-eq-ok,
  account-eq-ok, ok-injective, write_self, nat_eq, arith, DvnError, dvn,
}
use lz_v2_audit.Dvn.{
  AdminConfig, set_multisig, set_admins, set_msglibs, apply_admin_config, max_len_of,
}
use lz_v2_audit.Dvn.Invoke.{
  ExecuteHash, DvnAccount, DvnStore, ExecuteTransactionDigest, InvokeParams, Runtime, InitDvnParams,
  zeroed, init_dvn, digest_hash, dispatch, marked, invoke, close_execute, extend_dvn_config,
  set_config,
}
use lz_v2_audit.Dvn.Invoke.Histories.{
  Step, init_step, invoke_step, close_step, extend_step, set_step, Since, now, wait, then_step,
  invoke-IsChecked, configure_checked, call_checked,
}

module _ (r : Runtime) where
  -- Whatever an invocation does after its checks, the execute hashes stay.
  dispatch-hashes :
      (signer : ℕ) (digest : ExecuteTransactionDigest) (a : DvnAccount) (s s' : DvnStore)
      → dispatch r signer digest a s ≡ ok s'
      → s'.execute_hashes ≡ s.execute_hashes
  unfolding dispatch
  dispatch-hashes signer digest a s s' h = elim (Bool-cases (digest.program_id == r.id)) [
    | inl own ↦
        let (config, data_of, read, allowed, applied, same) =
          configure_checked r signer digest a s s' (rw own at h) in
        ap (λ (x : DvnStore). x.execute_hashes) (sym same)
    | inr other ↦
        let (signed, same) = call_checked r signer digest a s s' (rw other at h) in
        ap (λ (x : DvnStore). x.execute_hashes) (sym same)
  ]

  -- The mark of an execution is stored, or the order has expired.
  abbrev Spent : ExecuteTransactionDigest → ℕ → DvnStore → Type 0
  Spent d t s =
      ((e : ExecuteHash) × (s.execute_hashes (digest_hash r d) ≡ some e)
        × (e.expiration ≡ d.expiration))
      ⊎ (d.expiration ≤ t)

  Spent-later :
      (d : ExecuteTransactionDigest) (t t' : ℕ) (s : DvnStore) → t ≤ t' → Spent d t s → Spent d t' s
  Spent-later d t t' s h (inl stored) = inl stored
  Spent-later d t t' s h (inr expired) = inr (omega arith)

  Spent-same :
      (d : ExecuteTransactionDigest) (t : ℕ) (s s' : DvnStore)
      → s'.execute_hashes ≡ s.execute_hashes
      → Spent d t s
      → Spent d t s'
  Spent-same d t s s' same (inl (e, stored, x)) =
      inl (e, ap (λ (f : ℕ → Option ExecuteHash). f (digest_hash r d)) same ∙ stored, x)
  Spent-same d t s s' same (inr expired) = inr expired

  -- A write of an execute hash where there was none, or elsewhere.
  Spent-invoke :
      (d d' : ExecuteTransactionDigest) (bump t : ℕ) (s : DvnStore)
      → s.execute_hashes (digest_hash r d') ≡ none
      → Spent d t s
      → Spent d t (marked r bump d' s)
  Spent-invoke d d' bump t s new (inr expired) = inr expired
  Spent-invoke d d' bump t s new (inl (e, stored, x)) =
      elim (Bool-cases (digest_hash r d' == digest_hash r d)) [
        | inl same ↦ absurd (none≢some (sym (rw (==→eq _ _ same) at new) ∙ stored))
        | inr other ↦ inl (e, rw other stored, x)
      ]
    where
      none≢some : {e : ExecuteHash} → none ≢ some e
      none≢some h = cc

  Spent-close :
      (d : ExecuteTransactionDigest) (admin hash t : ℕ) (s s' : DvnStore)
      → Spent d t s
      → close_execute admin t hash s ≡ ok s'
      → Spent d t s'
  unfolding close_execute
  Spent-close d admin hash t s s' (inr expired) h = inr expired
  Spent-close d admin hash t s s' (inl (e, stored, x)) h =
      let (a, e1, h1) = >>=-eq-ok (account s.config) _ h in
      let (closed, e3, h2) = >>=-eq-ok (account (s.execute_hashes hash)) _ h1 in
      let (u2, e2, h3) =
        >>=-eq-ok (require (contains admin a.data_of.admins) (dvn DvnError.not_admin)) _ h2 in
      let (u4, e4, h4) =
        >>=-eq-ok (require (leb closed.expiration t) (dvn DvnError.unexpired_execute_hash)) _ h3 in
      elim (Bool-cases (hash == digest_hash r d)) [
        | inl same ↦
            let found : some closed ≡ some e =
              sym (rw (==→eq _ _ same) at (account-eq-ok _ e3)) ∙ stored in
            let late = leb→le closed.expiration t (require-eq-ok _ _ e4) in
            inr (omega (arith, late, x, expiration_of closed e found))
        | inr other ↦ subst (Spent d t) (ok-injective h4) (inl (e, rw other stored, x))
      ]
    where
      expiration_of : (a b : ExecuteHash) → some a ≡ some b → a.expiration ≡ b.expiration
      expiration_of a b p = ap (λ (y : ExecuteHash). y.expiration) (injective a b p)
        where
          injective : (a b : ExecuteHash) → some a ≡ some b → a ≡ b
          injective a b p = cc

  -- The other instructions write the configuration only.
  init-hashes :
      (bump : ℕ) (params : InitDvnParams) (s s' : DvnStore)
      → init_dvn bump params s ≡ ok s'
      → s'.execute_hashes ≡ s.execute_hashes
  unfolding init_dvn
  init-hashes bump params s s' h =
      let (u1, e1, h1) = >>=-eq-ok (fresh s.config) _ h in
      let (c1, e2, h2) =
        >>=-eq-ok
          (set_multisig (record { signers = params.signers; quorum = params.quorum })
            (record zeroed { vid = params.vid; bump = bump }))
          _ h1 in
      let (c2, e3, h3) = >>=-eq-ok (set_admins params.admins c1) _ h2 in
      let (c3, e4, h4) = >>=-eq-ok (set_msglibs params.msglibs c2) _ h3 in
      let same = ok-injective h4 in ap (λ (x : DvnStore). x.execute_hashes) (sym same)

  extend-hashes :
      (admin : ℕ) (s s' : DvnStore)
      → extend_dvn_config admin s ≡ ok s'
      → s'.execute_hashes ≡ s.execute_hashes
  unfolding extend_dvn_config
  extend-hashes admin s s' h =
      let (a, e1, h1) = >>=-eq-ok (account s.config) _ h in
      let (u2, e2, h2) =
        >>=-eq-ok (require (contains admin a.data_of.admins) (dvn DvnError.not_admin)) _ h1 in
      let same = ok-injective h2 in ap (λ (x : DvnStore). x.execute_hashes) (sym same)

  set-hashes :
      (admin : ℕ) (config : AdminConfig) (s s' : DvnStore)
      → set_config admin config s ≡ ok s'
      → s'.execute_hashes ≡ s.execute_hashes
  unfolding set_config
  set-hashes admin config s s' h =
      let (a, e1, h1) = >>=-eq-ok (account s.config) _ h in
      let (u2, e2, h2) =
        >>=-eq-ok (require (contains admin a.data_of.admins) (dvn DvnError.not_admin)) _ h1 in
      let (data_of, e3, h3) =
        >>=-eq-ok (apply_admin_config (max_len_of a.extended) config a.data_of) _ h2 in
      let same = ok-injective h3 in ap (λ (x : DvnStore). x.execute_hashes) (sym same)

  Step-Spent :
      (d : ExecuteTransactionDigest) (t : ℕ) (s s' : DvnStore)
      → Step r t s s'
      → Spent d t s
      → Spent d t s'
  Step-Spent d t s s' (init_step bump params h) spent =
      Spent-same d t s s' (init-hashes bump params s s' h) spent
  Step-Spent d t s s' (invoke_step bump signer params h) spent =
      let (a, c) = invoke-IsChecked r bump signer t params s s' h in
      Spent-same d t (marked r bump params.digest s) s'
        (dispatch-hashes signer params.digest a (marked r bump params.digest s) s' c.dispatched)
        (Spent-invoke d params.digest bump t s c.new spent)
  Step-Spent d t s s' (close_step admin hash h) spent = Spent-close d admin hash t s s' spent h
  Step-Spent d t s s' (extend_step admin h) spent =
      Spent-same d t s s' (extend-hashes admin s s' h) spent
  Step-Spent d t s s' (set_step admin config h) spent =
      Spent-same d t s s' (set-hashes admin config s s' h) spent

  Since-Spent :
      (d : ExecuteTransactionDigest) (t : ℕ) (s : DvnStore) (t' : ℕ) (s' : DvnStore)
      → Since r t s t' s'
      → Spent d t s
      → Spent d t' s'
  Since-Spent d t s t' s' now spent = spent
  Since-Spent d t s t' s' (wait {t1 = t1} before le) spent =
      Spent-later d t1 t' s' le (Since-Spent d t s t1 s' before spent)
  Since-Spent d t s t' s' (then_step {s1 = s1} before step) spent =
      Step-Spent d t' s1 s' step (Since-Spent d t s t' s1 before spent)

  -- Once an order of the committee has been invoked, no invocation of it at the same or a later clock
  -- succeeds, whoever signs it and with whatever signatures, at once or after any instructions of the
  -- program at clocks that do not go back, the removal of its mark among them.
  pub invoke_once :
      (bump signer t : ℕ) (params : InvokeParams) (s s1 : DvnStore) (t2 : ℕ) (s2 : DvnStore)
      → invoke r bump signer t params s ≡ ok s1
      → Since r t s1 t2 s2
      → (t3 : ℕ) → t2 ≤ t3
      → (bump' signer' : ℕ) (params' : InvokeParams) (s3 : DvnStore)
      → params'.digest ≡ params.digest
      → invoke r bump' signer' t3 params' s2 ≢ ok s3
  invoke_once bump signer t params s s1 t2 s2 h history t3 le bump' signer' params' s3 same again =
      let (a, c) = invoke-IsChecked r bump signer t params s s1 h in
      let (b, c') = invoke-IsChecked r bump' signer' t3 params' s2 s3 again in
      let spent =
        Spent-same params.digest t (marked r bump params.digest s) s1
          (dispatch-hashes signer params.digest a (marked r bump params.digest s) s1 c.dispatched)
          (inl (_, write_self (digest_hash r params.digest) _ s.execute_hashes, refl)) in
      contradiction (params'.digest) params.digest t3 s2 same c'.new c'.in_time
        (Since-Spent params.digest t s1 t3 s2 (wait history le) spent)
    where
      contradiction :
          (d' d : ExecuteTransactionDigest) (t : ℕ) (s : DvnStore)
          → d' ≡ d
          → s.execute_hashes (digest_hash r d') ≡ none
          → t < d'.expiration
          → Spent d t s
          → ⊥
      contradiction d' d t s same new live (inl (e, stored, x)) =
          let gone : none ≡ some e = sym (rw same at new) ∙ stored in cc
      contradiction d' d t s same new live (inr expired) =
          omega (arith, ap (λ (y : ExecuteTransactionDigest). y.expiration) same)
