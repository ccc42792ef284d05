-- ===== src/ExecutorProgram/Histories.antt =====
-- The instructions on an executor's configuration, with their signers, and their histories.
use mathlib.Core.Path.{subst}
use lz_v2_audit.Prelude.{
  ℕ, ◌≡◌, refl, Option, none, some, true, contains, ◌==◌, ==→eq, Result, ok, require, account,
  ◌>>=◌, ◌>>◌, >>=-eq-ok, fresh, guarded, ExecutorError, executor, AnchorError, anchor,
}
use lz_v2_audit.ExecutorProgram.{
  ExecutorConfig, set_admins, set_msglibs, OwnerSetConfigParams, AdminSetConfigParams,
  InitExecutorParams, blank, init_executor, owner_set_config, admin_set_config,
}
use lz_v2_audit.ExecutorProgram.Settings.{
  IsExecutorConfig, admins-keeps, executors-keeps, msglibs-keeps, same_lists, owner_config-keeps,
  admin_config-keeps, blank-IsExecutorConfig,
}

-- One instruction, with its signer.
pub data Action (signer : ℕ) (a : Option ExecutorConfig) (b : ExecutorConfig) : Type 0 where
  init_action :
      (bump : ℕ) (params : InitExecutorParams)
      → init_executor bump params a ≡ ok b
      → Action signer a b
  owner_action :
      (params : OwnerSetConfigParams) → owner_set_config signer params a ≡ ok b → Action signer a b
  admin_action :
      (params : AdminSetConfigParams) → admin_set_config signer params a ≡ ok b → Action signer a b

pub data History : Option ExecutorConfig → Type 0 where
  start : History none
  then_action :
      {a : Option ExecutorConfig} {b : ExecutorConfig}
      → History a
      → (signer : ℕ) → Action signer a b
      → History (some b)

abbrev pub IsStored : Option ExecutorConfig → Type 0
IsStored none = Unit
IsStored (some c) = IsExecutorConfig c

-- The gates of the instructions: the account, opened for its owner or for an admin.
pub by_owner :
    (signer : ℕ) (a : Option ExecutorConfig) (then_do : ExecutorConfig → Result ExecutorConfig)
    {b : ExecutorConfig}
    → (account a >>= λ c.
        require (c.owner == signer) (anchor AnchorError.constraint_has_one) >> then_do c)
      ≡ ok b
    → (c : ExecutorConfig) × (a ≡ some c) × (c.owner ≡ signer) × (then_do c ≡ ok b)
by_owner signer a then_do h =
    let (c, e, test, h1) = guarded a (λ c. c.owner == signer) _ then_do h in
    (c, e, ==→eq _ _ test, h1)

pub by_admin :
    (signer : ℕ) (a : Option ExecutorConfig) (then_do : ExecutorConfig → Result ExecutorConfig)
    {b : ExecutorConfig}
    → (account a >>= λ c.
        require (contains signer c.admins) (executor ExecutorError.not_admin) >> then_do c)
      ≡ ok b
    → (c : ExecutorConfig) × (a ≡ some c) × (contains signer c.admins ≡ true) × (then_do c ≡ ok b)
by_admin signer a then_do h = guarded a (λ c. contains signer c.admins) _ then_do h

Action-IsExecutorConfig :
    (signer : ℕ) (a : Option ExecutorConfig) (b : ExecutorConfig)
    → IsStored a
    → Action signer a b
    → IsExecutorConfig b
unfolding init_executor owner_set_config admin_set_config
Action-IsExecutorConfig signer a b v (init_action bump params h) =
    let (u, e1, h1) = >>=-eq-ok (fresh a) _ h in
    let (with_admins, e2, h2) = >>=-eq-ok (set_admins params.admins _) _ h1 in
    let (with_msglibs, e3, h3) = >>=-eq-ok (set_msglibs params.msglibs with_admins) _ h2 in
    let v1 =
      admins-keeps _ params.admins with_admins (same_lists blank _ blank-IsExecutorConfig refl)
        e2 in
    let v2 = msglibs-keeps params.msglibs with_admins with_msglibs v1 e3 in
    executors-keeps _ params.executors b (same_lists with_msglibs _ v2 refl) h3
Action-IsExecutorConfig signer a b v (owner_action params h) =
    let (c, e, mine, h1) = by_owner signer a _ h in
    owner_config-keeps params c b (subst IsStored e v) h1
Action-IsExecutorConfig signer a b v (admin_action params h) =
    let (c, e, known, h1) = by_admin signer a _ h in
    admin_config-keeps params c b (subst IsStored e v) h1

-- In every history an initialised executor has at most 5 admins and at most 8 executors, no key is
-- in both lists, the lists of message libraries, of allowed and of denied oapps are sorted, without
-- repetitions and within their bounds, and the destinations are sorted by eid and at most 140.
pub reachable-IsExecutorConfig : (a : Option ExecutorConfig) → History a → IsStored a
reachable-IsExecutorConfig a start = tt
reachable-IsExecutorConfig a (then_action {a = a0} {b = b} before signer action) =
    Action-IsExecutorConfig signer a0 b (reachable-IsExecutorConfig a0 before) action
