-- ===== src/Dvn/Invoke/Histories/Powers.antt =====
-- What only the committee of a DVN can change, and what an invocation that changes it has shown.
use mathlib.Core.Path.{subst}
use lz_v2_audit.Prelude.{
  ℕ, ◌≡◌, ◌∙◌, ◌⊎◌, refl, sym, ap, true, ◌||◌, ◌==◌, ==→eq, Bool-cases, Option, none, some, List,
  contains, length, leb, inl, inr, ok, require, account, fresh, each-keeps, >>=-eq-ok,
  account-eq-ok, fresh-eq-ok, ok-injective, DvnError, dvn,
}
use lz_v2_audit.SortedList.{insert_or_update_sorted_list_by_eid, remove_from_sorted_list_by_eid}
use lz_v2_audit.Dvn.Committee.Quorum.{IsQuorum, verify_signatures_quorum}
use lz_v2_audit.Dvn.{
  DvnConfig, DstConfig, MultisigConfig, AdminConfig, apply_multisig_config, remove_dst_configs_of,
  set_admins, set_dst_config, set_dst_configs, remove_dst_config, remove_dst_configs,
  apply_admin_config, max_len_of, admins_max_len, eid_of,
}
use lz_v2_audit.Dvn.Invoke.{
  DvnAccount, DvnStore, InvokeParams, Runtime, init_dvn, digest_hash, is_set_admin, marked,
  dispatch, invoke, close_execute, extend_dvn_config, set_config,
}
use lz_v2_audit.Dvn.Invoke.Histories.{
  Step, init_step, invoke_step, close_step, extend_step, set_step, IsChecked, invoke-IsChecked,
  configure_checked, call_checked,
}

-- The settings that are the committee's.
pub record IsSamePowers (a b : DvnConfig) : Type 0 where
  pub multisig : b.multisig ≡ a.multisig
  pub acl : b.acl ≡ a.acl
  pub paused : b.paused ≡ a.paused
  pub msglibs : b.msglibs ≡ a.msglibs

set_admins-powers :
    (new : List ℕ) (a c c' : DvnConfig)
    → IsSamePowers a c
    → set_admins new c ≡ ok c'
    → IsSamePowers a c'
unfolding set_admins
set_admins-powers new a c c' p h =
    let (u, e1, h1) =
      >>=-eq-ok (require (leb (length new) admins_max_len) (dvn DvnError.too_many_admins)) _ h in
    subst (IsSamePowers a) (ok-injective h1)
      (record { multisig = p.multisig; acl = p.acl; paused = p.paused; msglibs = p.msglibs })

dst-powers :
    (a : DvnConfig) (max_len : ℕ) (c : DvnConfig) (d : DstConfig) (c' : DvnConfig)
    → IsSamePowers a c
    → set_dst_config max_len c d ≡ ok c'
    → IsSamePowers a c'
dst-powers a max_len c d c' p h =
    let (list, e1, h1) =
      >>=-eq-ok (insert_or_update_sorted_list_by_eid eid_of c.dst_configs d max_len) _ h in
    subst (IsSamePowers a) (ok-injective h1)
      (record { multisig = p.multisig; acl = p.acl; paused = p.paused; msglibs = p.msglibs })

removal-powers :
    (a c : DvnConfig) (eid : ℕ) (c' : DvnConfig)
    → IsSamePowers a c
    → remove_dst_config c eid ≡ ok c'
    → IsSamePowers a c'
removal-powers a c eid c' p h =
    let (list, e1, h1) = >>=-eq-ok (remove_from_sorted_list_by_eid eid_of c.dst_configs eid) _ h in
    subst (IsSamePowers a) (ok-injective h1)
      (record { multisig = p.multisig; acl = p.acl; paused = p.paused; msglibs = p.msglibs })

apply_admin_config-powers :
    (max_len : ℕ) (config : AdminConfig) (c c' : DvnConfig)
    → apply_admin_config max_len config c ≡ ok c'
    → IsSamePowers c c'
unfolding apply_admin_config set_dst_configs remove_dst_configs
apply_admin_config-powers max_len (AdminConfig.admins new) c c' h =
    set_admins-powers new c c c'
      (record { multisig = refl; acl = refl; paused = refl; msglibs = refl }) h
apply_admin_config-powers max_len (AdminConfig.default_multiplier_bps bps) c c' h =
    let same = ok-injective h in
    subst (IsSamePowers c) same
      (record { multisig = refl; acl = refl; paused = refl; msglibs = refl })
apply_admin_config-powers max_len (AdminConfig.dst_configs new) c c' h =
    each-keeps (IsSamePowers c) (set_dst_config max_len) (dst-powers c max_len) new c c'
      (record { multisig = refl; acl = refl; paused = refl; msglibs = refl }) h
apply_admin_config-powers max_len (AdminConfig.price_feed new) c c' h =
    let same = ok-injective h in
    subst (IsSamePowers c) same
      (record { multisig = refl; acl = refl; paused = refl; msglibs = refl })
apply_admin_config-powers max_len (remove_dst_configs_of eids) c c' h =
    each-keeps (IsSamePowers c) remove_dst_config (removal-powers c) eids c c'
      (record { multisig = refl; acl = refl; paused = refl; msglibs = refl }) h

-- The stored configurations of two states.
Kept : Option DvnAccount → Option DvnAccount → Type 0
Kept o o' = (a b : DvnAccount) → o ≡ some a → o' ≡ some b → IsSamePowers a.data_of b.data_of

some-injective : {a b : DvnAccount} → some a ≡ some b → a ≡ b
some-injective e = cc

Kept-write :
    (o o' : Option DvnAccount) (a b : DvnAccount)
    → o ≡ some a
    → some b ≡ o'
    → IsSamePowers a.data_of b.data_of
    → Kept o o'
unfolding Kept
Kept-write o o' a b e e' p x y ex ey =
    let left : a ≡ x = some-injective (sym e ∙ ex) in
    let right : b ≡ y = some-injective (e' ∙ ey) in rw (← left, ← right) p

Kept-same : (o o' : Option DvnAccount) → o' ≡ o → Kept o o'
unfolding Kept
Kept-same o o' same x y ex ey =
    let both : x ≡ y = some-injective (sym ex ∙ sym same ∙ ey) in
    rw (← both) (record { multisig = refl; acl = refl; paused = refl; msglibs = refl })

set-Kept :
    (admin : ℕ) (config : AdminConfig) (s s' : DvnStore)
    → set_config admin config s ≡ ok s'
    → Kept s.config s'.config
unfolding set_config
set-Kept admin config s s' h =
    let (a, e1, h1) = >>=-eq-ok (account s.config) _ h in
    let (u2, e2, h2) =
      >>=-eq-ok (require (contains admin a.data_of.admins) (dvn DvnError.not_admin)) _ h1 in
    let (data_of, e3, h3) =
      >>=-eq-ok (apply_admin_config (max_len_of a.extended) config a.data_of) _ h2 in
    let same = ok-injective h3 in
    Kept-write s.config s'.config a _ (account-eq-ok _ e1) (ap (λ (x : DvnStore). x.config) same)
      (apply_admin_config-powers (max_len_of a.extended) config a.data_of data_of e3)

extend-Kept :
    (admin : ℕ) (s s' : DvnStore) → extend_dvn_config admin s ≡ ok s' → Kept s.config s'.config
unfolding extend_dvn_config
extend-Kept admin s s' h =
    let (a, e1, h1) = >>=-eq-ok (account s.config) _ h in
    let (u2, e2, h2) =
      >>=-eq-ok (require (contains admin a.data_of.admins) (dvn DvnError.not_admin)) _ h1 in
    let same = ok-injective h2 in
    Kept-write s.config s'.config a _ (account-eq-ok _ e1) (ap (λ (x : DvnStore). x.config) same)
      (record { multisig = refl; acl = refl; paused = refl; msglibs = refl })

pub close-same :
    (admin clock hash : ℕ) (s s' : DvnStore)
    → close_execute admin clock hash s ≡ ok s'
    → s'.config ≡ s.config
unfolding close_execute
close-same admin clock hash s s' h =
    let (a, e1, h1) = >>=-eq-ok (account s.config) _ h in
    let (closed, e3, h2) = >>=-eq-ok (account (s.execute_hashes hash)) _ h1 in
    let (u2, e2, h3) =
      >>=-eq-ok (require (contains admin a.data_of.admins) (dvn DvnError.not_admin)) _ h2 in
    let (u4, e4, h4) =
      >>=-eq-ok (require (leb closed.expiration clock) (dvn DvnError.unexpired_execute_hash)) _
        h3 in
    let same = ok-injective h4 in ap (λ (x : DvnStore). x.config) (sym same)

module _ (r : Runtime) where
  -- A step as the invocation of an order for the DVN itself: the committee that was stored has signed
  -- that order, the new configuration is what the order says, and the caller is an admin unless the
  -- order sets the admins.
  pub record IsOrdered (t : ℕ) (s s' : DvnStore) (a b : DvnAccount) : Type 0 where
    pub bump : ℕ
    pub signer : ℕ
    pub params : InvokeParams
    pub invoked : invoke r bump signer t params s ≡ ok s'
    pub own : params.digest.program_id ≡ r.id
    pub keys : List ℕ
    pub signed :
        IsQuorum r.secp256k1_recover a.data_of.multisig.signers
          (digest_hash r params.digest)
          a.data_of.multisig.quorum
          params.signatures
          keys
    pub config : MultisigConfig
    pub read : r.read_config params.digest.data_of ≡ ok config
    pub allowed : (is_set_admin config || contains signer a.data_of.admins) ≡ true
    pub applied : apply_multisig_config config a.data_of ≡ ok b.data_of

  invoke-powers :
      (bump signer t : ℕ) (params : InvokeParams) (s s' : DvnStore) (a b : DvnAccount)
      → invoke r bump signer t params s ≡ ok s'
      → IsChecked r bump signer t params s s' a
      → s'.config ≡ some b
      → IsSamePowers a.data_of b.data_of ⊎ IsOrdered t s s' a b
  unfolding dispatch Kept
  invoke-powers bump signer t params s s' a b h c eb =
      elim (Bool-cases (params.digest.program_id == r.id)) [
        | inl own ↦
            let (config, data_of, read, allowed, applied, same) =
              configure_checked r signer params.digest a (marked r bump params.digest s) s'
                (rw own at c.dispatched) in
            let (keys, q) =
              verify_signatures_quorum r.secp256k1_recover a.data_of.multisig params.signatures
                (digest_hash r params.digest) c.verified in
            let written : record a { data_of = data_of } ≡ b =
              some-injective (ap (λ (x : DvnStore). x.config) same ∙ eb) in
            inr (record {
              bump = bump;
              signer = signer;
              params = params;
              invoked = h;
              own = ==→eq params.digest.program_id r.id own;
              keys = keys;
              signed = q;
              config = config;
              read = read;
              allowed = allowed;
              applied = applied ∙ ap (λ (x : DvnAccount). ok x.data_of) written;
            })
        | inr other ↦
            let (signed, same) =
              call_checked r signer params.digest a (marked r bump params.digest s) s'
                (rw other at c.dispatched) in
            inl (
              Kept-same s.config s'.config (ap (λ (x : DvnStore). x.config) (sym same)) a b c.stored
                eb)
      ]

  -- An instruction on an initialised DVN leaves its committee, access list, pause and allowed message
  -- libraries as they were, or it is the invocation of an order for the DVN itself that as many
  -- different members of the stored committee have signed as its quorum asks for. The new
  -- configuration is then the old one with what that signed order reads as applied, and the caller is
  -- an admin unless the order sets the admins.
  pub only_quorum :
      (t : ℕ) (s s' : DvnStore) (a b : DvnAccount)
      → Step r t s s'
      → s.config ≡ some a
      → s'.config ≡ some b
      → IsSamePowers a.data_of b.data_of ⊎ IsOrdered t s s' a b
  unfolding init_dvn Kept
  only_quorum t s s' a b (init_step bump params h) ea eb =
      let (u1, e1, h1) = >>=-eq-ok (fresh s.config) _ h in
      let gone : none ≡ some a = sym (fresh-eq-ok s.config e1) ∙ ea in cc
  only_quorum t s s' a b (invoke_step bump signer params h) ea eb =
      let (x, c) = invoke-IsChecked r bump signer t params s s' h in
      let same : x ≡ a = some-injective (sym c.stored ∙ ea) in
      invoke-powers bump signer t params s s' a b h
        (subst (IsChecked r bump signer t params s s') same c) eb
  only_quorum t s s' a b (close_step admin hash h) ea eb =
      inl (Kept-same s.config s'.config (close-same admin t hash s s' h) a b ea eb)
  only_quorum t s s' a b (extend_step admin h) ea eb = inl (extend-Kept admin s s' h a b ea eb)
  only_quorum t s s' a b (set_step admin config h) ea eb =
      inl (set-Kept admin config s s' h a b ea eb)
