-- ===== src/ExecutorProgram/Authority.antt =====
-- Who may change what of an executor's configuration.
use mathlib.Core.Path.{subst}
use lz_v2_audit.Prelude.{
  ℕ, ◌≡◌, ◌≢◌, refl, sym, ◌∙◌, Option, none, some, List, Bool, false, contains, length, leb, ok,
  require, fresh, fresh-eq-ok, >>=-eq-ok, ok-injective, each-keeps,
}
use lz_v2_audit.SortedList.{insert_or_update_sorted_list_by_eid}
use lz_v2_audit.Worker.Permission.{set_allowlist, set_denylist, insert_or_remove_sorted_pubkey_list}
use lz_v2_audit.ExecutorProgram.{
  ExecutorConfig, DstConfig, eid_of, set_admins, set_executors, set_msglib, set_msglibs,
  set_dst_config, set_dst_configs, require_none_in, allow, deny, OwnerSetConfigParams, allowlist,
  denylist, AdminSetConfigParams, apply_owner_config, apply_admin_config, init_executor,
  owner_set_config, admin_set_config, admins_max_len, executor_max_len, msglibs_max_len,
  dst_config_max_len,
}
use lz_v2_audit.ExecutorProgram.Histories.{
  Action, init_action, owner_action, admin_action, by_owner, by_admin,
}

-- The parts that only the owner changes, and those that only an admin changes.
pub record IsSameRoles (a b : ExecutorConfig) : Type 0 where
  pub owner : b.owner ≡ a.owner
  pub acl : b.acl ≡ a.acl
  pub admins : b.admins ≡ a.admins
  pub executors : b.executors ≡ a.executors
  pub msglibs : b.msglibs ≡ a.msglibs
  pub paused : b.paused ≡ a.paused

pub record IsSamePricing (a b : ExecutorConfig) : Type 0 where
  pub multiplier : b.default_multiplier_bps ≡ a.default_multiplier_bps
  pub price_feed : b.price_feed ≡ a.price_feed
  pub dst_configs : b.dst_configs ≡ a.dst_configs

-- What a round that writes only roles keeps, and one that writes only a destination.
module _ (a c : ExecutorConfig) where
  with_roles :
      (c' : ExecutorConfig) {owner : ℕ} {admins executors msglibs : List ℕ} {paused : Bool}
      → IsSamePricing a c
      → (record c {
        owner = owner;
        admins = admins;
        executors = executors;
        msglibs = msglibs;
        paused = paused;
      })
        ≡ c'
      → IsSamePricing a c'
  with_roles c' p h =
      subst (IsSamePricing a) h (record {
        multiplier = p.multiplier;
        price_feed = p.price_feed;
        dst_configs = p.dst_configs;
      })

  allow-pricing :
      (k : ℕ) (c' : ExecutorConfig) → IsSamePricing a c → allow c k ≡ ok c' → IsSamePricing a c'
  allow-pricing k c' p h =
      let (acl, e1, h1) = >>=-eq-ok (set_allowlist c.acl k) _ h in
      subst (IsSamePricing a) (ok-injective h1) (record {
        multiplier = p.multiplier;
        price_feed = p.price_feed;
        dst_configs = p.dst_configs;
      })

  deny-pricing :
      (k : ℕ) (c' : ExecutorConfig) → IsSamePricing a c → deny c k ≡ ok c' → IsSamePricing a c'
  deny-pricing k c' p h =
      let (acl, e1, h1) = >>=-eq-ok (set_denylist c.acl k) _ h in
      subst (IsSamePricing a) (ok-injective h1) (record {
        multiplier = p.multiplier;
        price_feed = p.price_feed;
        dst_configs = p.dst_configs;
      })

  msglib-pricing :
      (k : ℕ) (c' : ExecutorConfig)
      → IsSamePricing a c
      → set_msglib c k ≡ ok c'
      → IsSamePricing a c'
  msglib-pricing k c' p h =
      let (list, e1, h1) =
        >>=-eq-ok (insert_or_remove_sorted_pubkey_list c.msglibs msglibs_max_len k) _ h in
      with_roles c' p (ok-injective h1)

  dst-roles :
      (d : DstConfig) (c' : ExecutorConfig)
      → IsSameRoles a c
      → set_dst_config c d ≡ ok c'
      → IsSameRoles a c'
  dst-roles d c' r h =
      let (list, e1, h1) =
        >>=-eq-ok (insert_or_update_sorted_list_by_eid eid_of c.dst_configs d dst_config_max_len) _
          h in
      subst (IsSameRoles a) (ok-injective h1) (record {
        owner = r.owner;
        acl = r.acl;
        admins = r.admins;
        executors = r.executors;
        msglibs = r.msglibs;
        paused = r.paused;
      })

same_roles : (a : ExecutorConfig) → IsSameRoles a a
same_roles a = record {
  owner = refl;
  acl = refl;
  admins = refl;
  executors = refl;
  msglibs = refl;
  paused = refl;
}

same_pricing : (a : ExecutorConfig) → IsSamePricing a a
same_pricing a = record { multiplier = refl; price_feed = refl; dst_configs = refl }

owner_config-pricing :
    (params : OwnerSetConfigParams) (c c' : ExecutorConfig)
    → apply_owner_config params c ≡ ok c'
    → IsSamePricing c c'
unfolding apply_owner_config set_admins set_executors set_msglibs
owner_config-pricing (OwnerSetConfigParams.admins new) c c' h =
    let (u, e1, h1) = >>=-eq-ok (require (leb (length new) admins_max_len) _) _ h in
    let (u2, e2, h2) = >>=-eq-ok (require_none_in c.executors new) _ h1 in
    with_roles c c c' (same_pricing c) (ok-injective h2)
owner_config-pricing (OwnerSetConfigParams.executors new) c c' h =
    let (u, e1, h1) = >>=-eq-ok (require (leb (length new) executor_max_len) _) _ h in
    let (u2, e2, h2) = >>=-eq-ok (require_none_in c.admins new) _ h1 in
    with_roles c c c' (same_pricing c) (ok-injective h2)
owner_config-pricing (OwnerSetConfigParams.msglibs libs) c c' h =
    each-keeps (IsSamePricing c) set_msglib (msglib-pricing c) libs c c' (same_pricing c) h
owner_config-pricing (OwnerSetConfigParams.owner new) c c' h =
    with_roles c c c' (same_pricing c) (ok-injective h)
owner_config-pricing (OwnerSetConfigParams.paused new) c c' h =
    with_roles c c c' (same_pricing c) (ok-injective h)
owner_config-pricing (allowlist addresses) c c' h =
    each-keeps (IsSamePricing c) allow (allow-pricing c) addresses c c' (same_pricing c) h
owner_config-pricing (denylist addresses) c c' h =
    each-keeps (IsSamePricing c) deny (deny-pricing c) addresses c c' (same_pricing c) h

admin_config-roles :
    (params : AdminSetConfigParams) (c c' : ExecutorConfig)
    → apply_admin_config params c ≡ ok c'
    → IsSameRoles c c'
unfolding apply_admin_config set_dst_configs
admin_config-roles (AdminSetConfigParams.price_feed new) c c' h =
    subst (IsSameRoles c) (ok-injective h) (record {
      owner = refl;
      acl = refl;
      admins = refl;
      executors = refl;
      msglibs = refl;
      paused = refl;
    })
admin_config-roles (AdminSetConfigParams.default_multiplier_bps bps) c c' h =
    subst (IsSameRoles c) (ok-injective h) (record {
      owner = refl;
      acl = refl;
      admins = refl;
      executors = refl;
      msglibs = refl;
      paused = refl;
    })
admin_config-roles (AdminSetConfigParams.dst_configs new) c c' h =
    each-keeps (IsSameRoles c) set_dst_config (dst-roles c) new c c' (same_roles c) h

some≢none : (a : ExecutorConfig) → some a ≢ none
some≢none a e = cc

some-injective : {a b : ExecutorConfig} → some a ≡ some b → b ≡ a
some-injective e = cc

-- What an instruction signed by `signer` leaves.
Kept : (signer : ℕ) (a b : ExecutorConfig) → Type 0
Kept signer a b =
    ((a.owner ≢ signer) → IsSameRoles a b)
    × ((contains signer a.admins ≡ false) → IsSamePricing a b)

authorised :
    (signer : ℕ) (o : Option ExecutorConfig) (a b : ExecutorConfig)
    → Action signer o b
    → o ≡ some a
    → Kept signer a b
unfolding init_executor owner_set_config admin_set_config Kept
authorised signer o a b (init_action bump params h) e0 =
    let (u1, e1, h1) = >>=-eq-ok (fresh o) _ h in absurd (some≢none a (sym e0 ∙ fresh-eq-ok o e1))
authorised signer o a b (owner_action params h) e0 =
    let (c, e, mine, h1) = by_owner signer o _ h in
    subst (λ x. Kept signer x b) (some-injective (sym e0 ∙ e))
      ((λ other. absurd (other mine)), (λ unknown. owner_config-pricing params c b h1))
authorised signer o a b (admin_action params h) e0 =
    let (c, e, known, h1) = by_admin signer o _ h in
    subst (λ x. Kept signer x b) (some-injective (sym e0 ∙ e))
      ((λ other. admin_config-roles params c b h1), (λ unknown. cc))

-- No instruction on the initialised account changes the owner, the access list, the admins, the
-- executors, the message libraries or the pause of an executor unless the owner signs it, and none
-- changes its multiplier, price feed or destinations unless an admin signs it.
pub only_owner_and_admins :
    (signer : ℕ) (a b : ExecutorConfig)
    → Action signer (some a) b
    → ((a.owner ≢ signer) → IsSameRoles a b)
      × ((contains signer a.admins ≡ false) → IsSamePricing a b)
unfolding Kept
only_owner_and_admins signer a b action = authorised signer (some a) a b action refl
