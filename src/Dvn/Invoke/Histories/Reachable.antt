-- ===== src/Dvn/Invoke/Histories/Reachable.antt =====
-- The invariant of the DVN's settings over all histories.
use mathlib.Core.Path.{subst}
use lz_v2_audit.Prelude.{
  ℕ, ◌≡◌, refl, sym, Option, none, some, [], Bool, true, false, ◌==◌, contains, Bool-cases, inl,
  inr, ok, require, account, fresh, >>=-eq-ok, account-eq-ok, ok-injective, arith, DvnError, dvn,
}
use lz_v2_audit.Dvn.{
  DvnConfig, AdminConfig, set_multisig, set_admins, set_msglibs, apply_admin_config, max_len_of,
}
use lz_v2_audit.Dvn.Settings.{
  IsDvnConfig, IsLists, same_lists, set_multisig-keeps, set_admins-keeps, set_msglibs-keeps,
  apply_multisig_config-keeps, apply_admin_config-keeps,
}
use lz_v2_audit.Dvn.Invoke.{
  DvnAccount, DvnStore, Runtime, InitDvnParams, ExecuteTransactionDigest, zeroed, init_dvn,
  dispatch, marked, extend_dvn_config, set_config,
}
use lz_v2_audit.Dvn.Invoke.Histories.{
  Step, init_step, invoke_step, close_step, extend_step, set_step, Since, now, wait, then_step,
  invoke-IsChecked, configure_checked, call_checked,
}
use lz_v2_audit.Dvn.Invoke.Histories.Powers.{close-same}

abbrev pub no_accounts : DvnStore
no_accounts = record { config = none; execute_hashes = λ hash. none; log = [] }

abbrev pub IsStored : Option DvnAccount → Type 0
IsStored none = Unit
IsStored (some a) = IsDvnConfig a.extended a.data_of

stored :
    (o : Option DvnAccount) (a : DvnAccount)
    → IsStored o
    → o ≡ some a
    → IsDvnConfig a.extended a.data_of
stored o a v e = subst IsStored e v

-- A new account of a state.
rewritten :
    (s s' x : DvnStore) (a : DvnAccount)
    → x.config ≡ some a
    → x ≡ s'
    → IsDvnConfig a.extended a.data_of
    → IsStored s'.config
rewritten s s' x a e same v =
    subst (λ (y : DvnStore). IsStored y.config) same (subst IsStored (sym e) v)

zeroed-IsLists : (vid bump : ℕ) → IsLists false (record zeroed { vid = vid; bump = bump })
zeroed-IsLists vid bump = record {
  acl = record {
    allowed = record { sorted = tt; bounded = omega arith };
    denied = record { sorted = tt; bounded = omega arith };
  };
  msglibs = record { sorted = tt; bounded = omega arith };
  admins = omega arith;
  dst_sorted = tt;
  dst_bounded = omega arith;
}

init-IsStored :
    (bump : ℕ) (params : InitDvnParams) (s s' : DvnStore)
    → init_dvn bump params s ≡ ok s'
    → IsStored s'.config
unfolding init_dvn
init-IsStored bump params s s' h =
    let (u1, e1, h1) = >>=-eq-ok (fresh s.config) _ h in
    let (c1, e2, h2) =
      >>=-eq-ok
        (set_multisig (record { signers = params.signers; quorum = params.quorum })
          (record zeroed { vid = params.vid; bump = bump }))
        _ h1 in
    let (c2, e3, h3) = >>=-eq-ok (set_admins params.admins c1) _ h2 in
    let (c3, e4, h4) = >>=-eq-ok (set_msglibs params.msglibs c2) _ h3 in
    let v1 = set_multisig-keeps false _ _ c1 (zeroed-IsLists params.vid bump) e2 in
    let v3 =
      set_msglibs-keeps false params.msglibs c2 c3
        (set_admins-keeps false params.admins c1 c2 v1 e3) e4 in
    rewritten s s' _ _ refl (ok-injective h4) (same_lists false c3 _ v3 refl)

longer : (extended : Bool) (c : DvnConfig) → IsDvnConfig extended c → IsDvnConfig true c
longer true c v = v
longer false c v = record {
  committee = v.committee;
  lists = record {
    acl = v.lists.acl;
    msglibs = v.lists.msglibs;
    admins = v.lists.admins;
    dst_sorted = v.lists.dst_sorted;
    dst_bounded = omega (arith, v.lists.dst_bounded);
  };
}

extend-IsStored :
    (admin : ℕ) (s s' : DvnStore)
    → IsStored s.config
    → extend_dvn_config admin s ≡ ok s'
    → IsStored s'.config
unfolding extend_dvn_config
extend-IsStored admin s s' v h =
    let (a, e1, h1) = >>=-eq-ok (account s.config) _ h in
    let (u2, e2, h2) =
      >>=-eq-ok (require (contains admin a.data_of.admins) (dvn DvnError.not_admin)) _ h1 in
    rewritten s s' _ _ refl (ok-injective h2)
      (longer a.extended a.data_of (stored s.config a v (account-eq-ok _ e1)))

set-IsStored :
    (admin : ℕ) (config : AdminConfig) (s s' : DvnStore)
    → IsStored s.config
    → set_config admin config s ≡ ok s'
    → IsStored s'.config
unfolding set_config
set-IsStored admin config s s' v h =
    let (a, e1, h1) = >>=-eq-ok (account s.config) _ h in
    let (u2, e2, h2) =
      >>=-eq-ok (require (contains admin a.data_of.admins) (dvn DvnError.not_admin)) _ h1 in
    let (data_of, e3, h3) =
      >>=-eq-ok (apply_admin_config (max_len_of a.extended) config a.data_of) _ h2 in
    rewritten s s' _ _ refl (ok-injective h3) (
      apply_admin_config-keeps a.extended config a.data_of data_of
        (stored s.config a v (account-eq-ok _ e1)) e3)

module _ (r : Runtime) where
  dispatch-IsStored :
      (signer : ℕ) (digest : ExecuteTransactionDigest) (a : DvnAccount) (s s' : DvnStore)
      → IsDvnConfig a.extended a.data_of
      → IsStored s.config
      → dispatch r signer digest a s ≡ ok s'
      → IsStored s'.config
  unfolding dispatch
  dispatch-IsStored signer digest a s s' v w h = elim (Bool-cases (digest.program_id == r.id)) [
    | inl own ↦
        let (config, data_of, read, allowed, applied, same) =
          configure_checked r signer digest a s s' (rw own at h) in
        rewritten s s' _ _ refl same
          (apply_multisig_config-keeps a.extended config a.data_of data_of v applied)
    | inr other ↦
        let (signed, same) = call_checked r signer digest a s s' (rw other at h) in
        subst (λ (y : DvnStore). IsStored y.config) same w
  ]

  Step-IsStored : (t : ℕ) (s s' : DvnStore) → IsStored s.config → Step r t s s' → IsStored s'.config
  Step-IsStored t s s' v (init_step bump params h) = init-IsStored bump params s s' h
  Step-IsStored t s s' v (invoke_step bump signer params h) =
      let (a, c) = invoke-IsChecked r bump signer t params s s' h in
      dispatch-IsStored signer params.digest a (marked r bump params.digest s) s'
        (stored s.config a v c.stored) v c.dispatched
  Step-IsStored t s s' v (close_step admin hash h) =
      subst IsStored (sym (close-same admin t hash s s' h)) v
  Step-IsStored t s s' v (extend_step admin h) = extend-IsStored admin s s' v h
  Step-IsStored t s s' v (set_step admin config h) = set-IsStored admin config s s' v h

  -- Whatever instructions have run since the DVN was deployed, its committee has 1 to 7 different
  -- signers and a quorum of at least one and at most all of them, its access lists and message
  -- libraries are sorted without repetitions and within 8, 8 and 10 keys, it has at most 5 admins,
  -- and its destinations are sorted, none twice, and at most 140, or 200 once it has been extended.
  pub reachable-IsDvnConfig : (t : ℕ) (s : DvnStore) → Since r 0 no_accounts t s → IsStored s.config
  reachable-IsDvnConfig t s now = tt
  reachable-IsDvnConfig t s (wait {t1 = t1} before le) = reachable-IsDvnConfig t1 s before
  reachable-IsDvnConfig t s (then_step {s1 = s1} before step) =
      Step-IsStored t s1 s (reachable-IsDvnConfig t s1 before) step
