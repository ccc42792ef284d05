-- ===== src/Dvn/Settings.antt =====
-- The invariant of a DVN's configuration: what every operation on it keeps.
use mathlib.Core.Path.{subst}
use lz_v2_audit.Prelude.{
  ℕ, ◌≤◌, ◌≡◌, List, Bool, length, leb, leb→le, ok, require, each-keeps, >>=-eq-ok, require-eq-ok,
  ok-injective, arith,
}
use lz_v2_audit.SortedList.{insert_or_update_sorted_list_by_eid, remove_from_sorted_list_by_eid}
use lz_v2_audit.SortedList.Reference.{IsSorted}
use lz_v2_audit.SortedList.Insert.{insert_or_update_lem, remove_lem, length-remove}
use lz_v2_audit.Worker.Permission.{
  IsAcl, IsKeys, acl_max_len, insert_or_remove_sorted_pubkey_list, set_allowlist, set_denylist,
  toggle_lem,
}
use lz_v2_audit.Dvn.Committee.{Multisig, sanity_check}
use lz_v2_audit.Dvn.Committee.Quorum.{IsMultisig, sanity_check_lem}
use lz_v2_audit.Dvn.{
  DvnConfig, DstConfig, eid_of, set_multisig, set_admins, set_msglib, set_msglibs, set_dst_config,
  set_dst_configs, remove_dst_config, remove_dst_configs, MultisigConfig, AdminConfig, allow, deny,
  allowlist, denylist, quorum, signers, remove_dst_configs_of, apply_multisig_config,
  apply_admin_config, admins_max_len, msglibs_max_len, max_len_of,
}

-- What holds of everything but the committee, and of all.
pub record IsLists (extended : Bool) (c : DvnConfig) : Type 0 where
  pub acl : IsAcl c.acl
  pub msglibs : IsKeys msglibs_max_len c.msglibs
  pub admins : length c.admins ≤ admins_max_len
  pub dst_sorted : IsSorted eid_of c.dst_configs
  pub dst_bounded : length c.dst_configs ≤ max_len_of extended

pub record IsDvnConfig (extended : Bool) (c : DvnConfig) : Type 0 where
  pub committee : IsMultisig c.multisig
  pub lists : IsLists extended c

module _ (extended : Bool) where
  allow-keeps :
      (c : DvnConfig) (k : ℕ) (c' : DvnConfig)
      → IsDvnConfig extended c
      → allow c k ≡ ok c'
      → IsDvnConfig extended c'
  unfolding set_allowlist
  allow-keeps c k c' v h =
      let (acl, e1, h1) = >>=-eq-ok (set_allowlist c.acl k) _ h in
      let (list, e2, h2) =
        >>=-eq-ok (insert_or_remove_sorted_pubkey_list c.acl.allow_list acl_max_len k) _ e1 in
      let (keys, g) = toggle_lem c.acl.allow_list acl_max_len k list v.lists.acl.allowed e2 in
      let kept : IsAcl acl =
        subst IsAcl (ok-injective h2) (record { allowed = keys; denied = v.lists.acl.denied }) in
      subst (IsDvnConfig extended) (ok-injective h1) (record {
        committee = v.committee;
        lists = record {
          acl = kept;
          msglibs = v.lists.msglibs;
          admins = v.lists.admins;
          dst_sorted = v.lists.dst_sorted;
          dst_bounded = v.lists.dst_bounded;
        };
      })

  deny-keeps :
      (c : DvnConfig) (k : ℕ) (c' : DvnConfig)
      → IsDvnConfig extended c
      → deny c k ≡ ok c'
      → IsDvnConfig extended c'
  unfolding set_denylist
  deny-keeps c k c' v h =
      let (acl, e1, h1) = >>=-eq-ok (set_denylist c.acl k) _ h in
      let (list, e2, h2) =
        >>=-eq-ok (insert_or_remove_sorted_pubkey_list c.acl.deny_list acl_max_len k) _ e1 in
      let (keys, g) = toggle_lem c.acl.deny_list acl_max_len k list v.lists.acl.denied e2 in
      let kept : IsAcl acl =
        subst IsAcl (ok-injective h2) (record { allowed = v.lists.acl.allowed; denied = keys }) in
      subst (IsDvnConfig extended) (ok-injective h1) (record {
        committee = v.committee;
        lists = record {
          acl = kept;
          msglibs = v.lists.msglibs;
          admins = v.lists.admins;
          dst_sorted = v.lists.dst_sorted;
          dst_bounded = v.lists.dst_bounded;
        };
      })

  msglib-keeps :
      (c : DvnConfig) (k : ℕ) (c' : DvnConfig)
      → IsDvnConfig extended c
      → set_msglib c k ≡ ok c'
      → IsDvnConfig extended c'
  msglib-keeps c k c' v h =
      let (list, e1, h1) =
        >>=-eq-ok (insert_or_remove_sorted_pubkey_list c.msglibs msglibs_max_len k) _ h in
      let (keys, g) = toggle_lem c.msglibs msglibs_max_len k list v.lists.msglibs e1 in
      subst (IsDvnConfig extended) (ok-injective h1) (record {
        committee = v.committee;
        lists = record {
          acl = v.lists.acl;
          msglibs = keys;
          admins = v.lists.admins;
          dst_sorted = v.lists.dst_sorted;
          dst_bounded = v.lists.dst_bounded;
        };
      })

  dst-keeps :
      (c : DvnConfig) (d : DstConfig) (c' : DvnConfig)
      → IsDvnConfig extended c
      → set_dst_config (max_len_of extended) c d ≡ ok c'
      → IsDvnConfig extended c'
  dst-keeps c d c' v h =
      let (list, e1, h1) =
        >>=-eq-ok (insert_or_update_sorted_list_by_eid eid_of c.dst_configs d (max_len_of extended))
          _ h in
      let (sorted, bounded, g) =
        insert_or_update_lem eid_of c.dst_configs d (max_len_of extended) list v.lists.dst_sorted
          v.lists.dst_bounded e1 in
      subst (IsDvnConfig extended) (ok-injective h1) (record {
        committee = v.committee;
        lists = record {
          acl = v.lists.acl;
          msglibs = v.lists.msglibs;
          admins = v.lists.admins;
          dst_sorted = sorted;
          dst_bounded = bounded;
        };
      })

  dst_removal-keeps :
      (c : DvnConfig) (eid : ℕ) (c' : DvnConfig)
      → IsDvnConfig extended c
      → remove_dst_config c eid ≡ ok c'
      → IsDvnConfig extended c'
  dst_removal-keeps c eid c' v h =
      let (list, e1, h1) =
        >>=-eq-ok (remove_from_sorted_list_by_eid eid_of c.dst_configs eid) _ h in
      let (sorted, g) = remove_lem eid_of c.dst_configs eid list v.lists.dst_sorted e1 in
      let shorter = length-remove eid_of c.dst_configs eid list v.lists.dst_sorted e1 in
      subst (IsDvnConfig extended) (ok-injective h1) (record {
        committee = v.committee;
        lists = record {
          acl = v.lists.acl;
          msglibs = v.lists.msglibs;
          admins = v.lists.admins;
          dst_sorted = sorted;
          dst_bounded = omega (arith, v.lists.dst_bounded);
        };
      })

  pub set_admins-keeps :
      (new : List ℕ) (c c' : DvnConfig)
      → IsDvnConfig extended c
      → set_admins new c ≡ ok c'
      → IsDvnConfig extended c'
  unfolding set_admins
  set_admins-keeps new c c' v h =
      let (u, e1, h1) = >>=-eq-ok (require (leb (length new) admins_max_len) _) _ h in
      subst (IsDvnConfig extended) (ok-injective h1) (record {
        committee = v.committee;
        lists = record {
          acl = v.lists.acl;
          msglibs = v.lists.msglibs;
          admins = leb→le _ _ (require-eq-ok _ _ e1);
          dst_sorted = v.lists.dst_sorted;
          dst_bounded = v.lists.dst_bounded;
        };
      })

  pub set_msglibs-keeps :
      (libs : List ℕ) (c c' : DvnConfig)
      → IsDvnConfig extended c
      → set_msglibs libs c ≡ ok c'
      → IsDvnConfig extended c'
  unfolding set_msglibs
  set_msglibs-keeps libs c c' v h =
      each-keeps (IsDvnConfig extended) set_msglib msglib-keeps libs c c' v h

  pub set_multisig-keeps :
      (m : Multisig) (c c' : DvnConfig)
      → IsLists extended c
      → set_multisig m c ≡ ok c'
      → IsDvnConfig extended c'
  unfolding set_multisig
  set_multisig-keeps m c c' v h =
      let (u, e1, h1) = >>=-eq-ok (sanity_check m) _ h in
      subst (IsDvnConfig extended) (ok-injective h1) (record {
        committee = sanity_check_lem m e1;
        lists = record {
          acl = v.acl;
          msglibs = v.msglibs;
          admins = v.admins;
          dst_sorted = v.dst_sorted;
          dst_bounded = v.dst_bounded;
        };
      })

  -- The settings that the invariant does not bound.
  pub same_lists :
      (c c' : DvnConfig) {paused : Bool} {vid bump price_feed bps : ℕ}
      → IsDvnConfig extended c
      → (record c {
        vid = vid;
        bump = bump;
        paused = paused;
        price_feed = price_feed;
        default_multiplier_bps = bps;
      })
        ≡ c'
      → IsDvnConfig extended c'
  same_lists c c' v h = subst (IsDvnConfig extended) h (record {
    committee = v.committee;
    lists = record {
      acl = v.lists.acl;
      msglibs = v.lists.msglibs;
      admins = v.lists.admins;
      dst_sorted = v.lists.dst_sorted;
      dst_bounded = v.lists.dst_bounded;
    };
  })

  pub apply_multisig_config-keeps :
      (config : MultisigConfig) (c c' : DvnConfig)
      → IsDvnConfig extended c
      → apply_multisig_config config c ≡ ok c'
      → IsDvnConfig extended c'
  unfolding apply_multisig_config
  apply_multisig_config-keeps (MultisigConfig.admins new) c c' v h = set_admins-keeps new c c' v h
  apply_multisig_config-keeps (allowlist addresses) c c' v h =
      each-keeps (IsDvnConfig extended) allow allow-keeps addresses c c' v h
  apply_multisig_config-keeps (denylist addresses) c c' v h =
      each-keeps (IsDvnConfig extended) deny deny-keeps addresses c c' v h
  apply_multisig_config-keeps (MultisigConfig.msglibs libs) c c' v h =
      set_msglibs-keeps libs c c' v h
  apply_multisig_config-keeps (MultisigConfig.paused new) c c' v h =
      same_lists c c' v (ok-injective h)
  apply_multisig_config-keeps (quorum new) c c' v h = set_multisig-keeps _ c c' v.lists h
  apply_multisig_config-keeps (signers new) c c' v h = set_multisig-keeps _ c c' v.lists h

  pub apply_admin_config-keeps :
      (config : AdminConfig) (c c' : DvnConfig)
      → IsDvnConfig extended c
      → apply_admin_config (max_len_of extended) config c ≡ ok c'
      → IsDvnConfig extended c'
  unfolding apply_admin_config set_dst_configs remove_dst_configs
  apply_admin_config-keeps (AdminConfig.admins new) c c' v h = set_admins-keeps new c c' v h
  apply_admin_config-keeps (AdminConfig.default_multiplier_bps bps) c c' v h =
      same_lists c c' v (ok-injective h)
  apply_admin_config-keeps (AdminConfig.dst_configs new) c c' v h =
      each-keeps (IsDvnConfig extended) (set_dst_config (max_len_of extended)) dst-keeps new c c' v
        h
  apply_admin_config-keeps (AdminConfig.price_feed new) c c' v h =
      same_lists c c' v (ok-injective h)
  apply_admin_config-keeps (remove_dst_configs_of eids) c c' v h =
      each-keeps (IsDvnConfig extended) remove_dst_config dst_removal-keeps eids c c' v h
