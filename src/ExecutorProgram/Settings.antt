-- ===== src/ExecutorProgram/Settings.antt =====
-- The invariant of an executor's configuration: what every change of it keeps.
use mathlib.Core.Path.{subst}
use mathlib.Core.Bool.{true≢false}
use lz_v2_audit.Prelude.{
  ℕ, ◌≤◌, ◌≡◌, refl, List, [], ◌∷◌, Bool, true, false, not, contains, length, leb, leb→le, ok,
  require, >>=-eq-ok, require-eq-ok, ok-injective, each-keeps, arith, Bool-cases, inl, inr, sym,
  ◌∙◌,
}
use lz_v2_audit.SortedList.{insert_or_update_sorted_list_by_eid}
use lz_v2_audit.SortedList.Reference.{IsSorted}
use lz_v2_audit.SortedList.Insert.{insert_or_update_lem}
use lz_v2_audit.Worker.Permission.{
  IsAcl, IsKeys, acl_max_len, insert_or_remove_sorted_pubkey_list, set_allowlist, set_denylist,
  toggle_lem,
}
use lz_v2_audit.ExecutorProgram.{
  ExecutorConfig, DstConfig, eid_of, require_none_in, set_admins, set_executors, set_msglib,
  set_msglibs, set_dst_config, set_dst_configs, allow, deny, OwnerSetConfigParams, allowlist,
  denylist, AdminSetConfigParams, apply_owner_config, apply_admin_config, blank, admins_max_len,
  executor_max_len, msglibs_max_len, dst_config_max_len,
}

-- Two lists without a common key.
abbrev pub Disjoint : (xs ys : List ℕ) → Type 0
Disjoint xs ys = (k : ℕ) → contains k xs ≡ true → contains k ys ≡ false

pub record IsExecutorConfig (c : ExecutorConfig) : Type 0 where
  pub acl : IsAcl c.acl
  pub few_admins : length c.admins ≤ admins_max_len
  pub few_executors : length c.executors ≤ executor_max_len
  pub apart : Disjoint c.admins c.executors
  pub msglibs : IsKeys msglibs_max_len c.msglibs
  pub dst_sorted : IsSorted eid_of c.dst_configs
  pub dst_bounded : length c.dst_configs ≤ dst_config_max_len

none_in_lem : (taken keys : List ℕ) → require_none_in taken keys ≡ ok tt → Disjoint keys taken
unfolding require_none_in
none_in_lem taken [] h k e = cc
none_in_lem taken (key ∷ keys) h k e =
    let (u, e1, h1) = >>=-eq-ok (require (not (contains key taken)) _) _ h in
    let free = require-eq-ok _ _ e1 in
    let rest = none_in_lem taken keys h1 k in grind (arith, e, free, rest)

swap_Disjoint : (xs ys : List ℕ) → Disjoint xs ys → Disjoint ys xs
swap_Disjoint xs ys apart k e = elim (Bool-cases (contains k xs)) [
  | inl here ↦ absurd (true≢false (sym e ∙ apart k here))
  | inr new ↦ new
]

allow-keeps :
    (c : ExecutorConfig) (k : ℕ) (c' : ExecutorConfig)
    → IsExecutorConfig c
    → allow c k ≡ ok c'
    → IsExecutorConfig c'
unfolding set_allowlist
allow-keeps c k c' v h =
    let (acl, e1, h1) = >>=-eq-ok (set_allowlist c.acl k) _ h in
    let (list, e2, h2) =
      >>=-eq-ok (insert_or_remove_sorted_pubkey_list c.acl.allow_list acl_max_len k) _ e1 in
    let (keys, g) = toggle_lem c.acl.allow_list acl_max_len k list v.acl.allowed e2 in
    let kept : IsAcl acl =
      subst IsAcl (ok-injective h2) (record { allowed = keys; denied = v.acl.denied }) in
    subst IsExecutorConfig (ok-injective h1) (record {
      acl = kept;
      few_admins = v.few_admins;
      few_executors = v.few_executors;
      apart = v.apart;
      msglibs = v.msglibs;
      dst_sorted = v.dst_sorted;
      dst_bounded = v.dst_bounded;
    })

deny-keeps :
    (c : ExecutorConfig) (k : ℕ) (c' : ExecutorConfig)
    → IsExecutorConfig c
    → deny c k ≡ ok c'
    → IsExecutorConfig c'
unfolding set_denylist
deny-keeps c k c' v h =
    let (acl, e1, h1) = >>=-eq-ok (set_denylist c.acl k) _ h in
    let (list, e2, h2) =
      >>=-eq-ok (insert_or_remove_sorted_pubkey_list c.acl.deny_list acl_max_len k) _ e1 in
    let (keys, g) = toggle_lem c.acl.deny_list acl_max_len k list v.acl.denied e2 in
    let kept : IsAcl acl =
      subst IsAcl (ok-injective h2) (record { denied = keys; allowed = v.acl.allowed }) in
    subst IsExecutorConfig (ok-injective h1) (record {
      acl = kept;
      few_admins = v.few_admins;
      few_executors = v.few_executors;
      apart = v.apart;
      msglibs = v.msglibs;
      dst_sorted = v.dst_sorted;
      dst_bounded = v.dst_bounded;
    })

msglib-keeps :
    (c : ExecutorConfig) (k : ℕ) (c' : ExecutorConfig)
    → IsExecutorConfig c
    → set_msglib c k ≡ ok c'
    → IsExecutorConfig c'
msglib-keeps c k c' v h =
    let (list, e1, h1) =
      >>=-eq-ok (insert_or_remove_sorted_pubkey_list c.msglibs msglibs_max_len k) _ h in
    let (keys, g) = toggle_lem c.msglibs msglibs_max_len k list v.msglibs e1 in
    subst IsExecutorConfig (ok-injective h1) (record {
      acl = v.acl;
      few_admins = v.few_admins;
      few_executors = v.few_executors;
      apart = v.apart;
      msglibs = keys;
      dst_sorted = v.dst_sorted;
      dst_bounded = v.dst_bounded;
    })

dst-keeps :
    (c : ExecutorConfig) (d : DstConfig) (c' : ExecutorConfig)
    → IsExecutorConfig c
    → set_dst_config c d ≡ ok c'
    → IsExecutorConfig c'
dst-keeps c d c' v h =
    let (list, e1, h1) =
      >>=-eq-ok (insert_or_update_sorted_list_by_eid eid_of c.dst_configs d dst_config_max_len) _
        h in
    let (sorted, bounded, g) =
      insert_or_update_lem eid_of c.dst_configs d dst_config_max_len list v.dst_sorted v.dst_bounded
        e1 in
    subst IsExecutorConfig (ok-injective h1) (record {
      acl = v.acl;
      few_admins = v.few_admins;
      few_executors = v.few_executors;
      apart = v.apart;
      msglibs = v.msglibs;
      dst_sorted = sorted;
      dst_bounded = bounded;
    })

pub admins-keeps :
    (c : ExecutorConfig) (new : List ℕ) (c' : ExecutorConfig)
    → IsExecutorConfig c
    → set_admins new c ≡ ok c'
    → IsExecutorConfig c'
unfolding set_admins
admins-keeps c new c' v h =
    let (u, e1, h0) = >>=-eq-ok (require (leb (length new) admins_max_len) _) _ h in
    let (u2, e2, h1) = >>=-eq-ok (require_none_in c.executors new) _ h0 in
    subst IsExecutorConfig (ok-injective h1) (record {
      acl = v.acl;
      few_admins = leb→le _ _ (require-eq-ok _ _ e1);
      few_executors = v.few_executors;
      apart = none_in_lem c.executors new e2;
      msglibs = v.msglibs;
      dst_sorted = v.dst_sorted;
      dst_bounded = v.dst_bounded;
    })

pub executors-keeps :
    (c : ExecutorConfig) (new : List ℕ) (c' : ExecutorConfig)
    → IsExecutorConfig c
    → set_executors new c ≡ ok c'
    → IsExecutorConfig c'
unfolding set_executors
executors-keeps c new c' v h =
    let (u, e1, h0) = >>=-eq-ok (require (leb (length new) executor_max_len) _) _ h in
    let (u2, e2, h1) = >>=-eq-ok (require_none_in c.admins new) _ h0 in
    subst IsExecutorConfig (ok-injective h1) (record {
      acl = v.acl;
      few_admins = v.few_admins;
      few_executors = leb→le _ _ (require-eq-ok _ _ e1);
      apart = swap_Disjoint new c.admins (none_in_lem c.admins new e2);
      msglibs = v.msglibs;
      dst_sorted = v.dst_sorted;
      dst_bounded = v.dst_bounded;
    })

-- The settings that the invariant does not bound.
pub same_lists :
    (c c' : ExecutorConfig) {bump owner price_feed bps : ℕ} {paused : Bool}
    → IsExecutorConfig c
    → (record c {
      bump = bump;
      owner = owner;
      paused = paused;
      price_feed = price_feed;
      default_multiplier_bps = bps;
    })
      ≡ c'
    → IsExecutorConfig c'
same_lists c c' v h = subst IsExecutorConfig h (record {
  acl = v.acl;
  few_admins = v.few_admins;
  few_executors = v.few_executors;
  apart = v.apart;
  msglibs = v.msglibs;
  dst_sorted = v.dst_sorted;
  dst_bounded = v.dst_bounded;
})

pub msglibs-keeps :
    (libs : List ℕ) (c c' : ExecutorConfig)
    → IsExecutorConfig c
    → set_msglibs libs c ≡ ok c'
    → IsExecutorConfig c'
unfolding set_msglibs
msglibs-keeps libs c c' v h = each-keeps IsExecutorConfig set_msglib msglib-keeps libs c c' v h

pub owner_config-keeps :
    (params : OwnerSetConfigParams) (c c' : ExecutorConfig)
    → IsExecutorConfig c
    → apply_owner_config params c ≡ ok c'
    → IsExecutorConfig c'
unfolding apply_owner_config
owner_config-keeps (OwnerSetConfigParams.admins new) c c' v h = admins-keeps c new c' v h
owner_config-keeps (OwnerSetConfigParams.executors new) c c' v h = executors-keeps c new c' v h
owner_config-keeps (OwnerSetConfigParams.msglibs libs) c c' v h = msglibs-keeps libs c c' v h
owner_config-keeps (OwnerSetConfigParams.owner new) c c' v h = same_lists c c' v (ok-injective h)
owner_config-keeps (OwnerSetConfigParams.paused new) c c' v h = same_lists c c' v (ok-injective h)
owner_config-keeps (allowlist addresses) c c' v h =
    each-keeps IsExecutorConfig allow allow-keeps addresses c c' v h
owner_config-keeps (denylist addresses) c c' v h =
    each-keeps IsExecutorConfig deny deny-keeps addresses c c' v h

pub admin_config-keeps :
    (params : AdminSetConfigParams) (c c' : ExecutorConfig)
    → IsExecutorConfig c
    → apply_admin_config params c ≡ ok c'
    → IsExecutorConfig c'
unfolding apply_admin_config set_dst_configs
admin_config-keeps (AdminSetConfigParams.price_feed new) c c' v h =
    same_lists c c' v (ok-injective h)
admin_config-keeps (AdminSetConfigParams.default_multiplier_bps bps) c c' v h =
    same_lists c c' v (ok-injective h)
admin_config-keeps (AdminSetConfigParams.dst_configs new) c c' v h =
    each-keeps IsExecutorConfig set_dst_config dst-keeps new c c' v h

pub blank-IsExecutorConfig : IsExecutorConfig blank
blank-IsExecutorConfig = record {
  acl = record {
    allowed = record { sorted = tt; bounded = omega (arith) };
    denied = record { sorted = tt; bounded = omega (arith) };
  };
  few_admins = omega (arith);
  few_executors = omega (arith);
  apart = λ k e. refl;
  msglibs = record { sorted = tt; bounded = omega (arith) };
  dst_sorted = tt;
  dst_bounded = omega (arith);
}
