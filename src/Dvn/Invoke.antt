-- ===== src/Dvn/Invoke.antt =====
-- The instructions of the DVN program that write its accounts: instructions/init_dvn.rs and
-- instructions/admin/{invoke,close_execute,set_config,extend_dvn_config}.rs. The serialisation that
-- the framework derives, the hash, the recovery of keys and the call of another program are
-- parameters; a program that is called cannot write the accounts of its caller.
pub mod Histories
use lz_v2_audit.Prelude.{
  ℕ, Option, none, some, List, [], ◌∷◌, Bool, true, false, not, ◌&&◌, ◌||◌, contains, map, ltb, leb,
  ◌==◌, if◌then◌else◌, Result, ok, require, account, fresh, ◌>>=◌, ◌>>◌, write, nat_eq, DvnError,
  dvn,
}
use lz_v2_audit.Worker.Permission.{Acl}
use lz_v2_audit.Dvn.Committee.{Signature, verify_signatures}
use lz_v2_audit.Dvn.{
  DvnConfig, MultisigConfig, AdminConfig, set_multisig, set_admins, set_msglibs,
  apply_multisig_config, apply_admin_config, max_len_of,
}

pub record ExecuteHash : Type 0 where
  pub expiration : ℕ
  pub bump : ℕ

-- programs/dvn/src/events.rs
pub data Event : Type 0 where
  multisig_config_set : MultisigConfig → Event
  admin_config_set : AdminConfig → Event

pub record DvnAccount : Type 0 where
  pub data_of : DvnConfig
  pub extended : Bool

pub record DvnStore : Type 0 where
  pub config : Option DvnAccount
  -- by the hash of the digest
  pub execute_hashes : ℕ → Option ExecuteHash
  pub log : List Event

pub record InitDvnParams : Type 0 where
  pub vid : ℕ
  pub msglibs : List ℕ
  pub price_feed : ℕ
  pub signers : List ℕ
  pub quorum : ℕ
  pub admins : List ℕ

pub record TransactionAccount : Type 0 where
  pub pubkey : ℕ
  pub is_signer : Bool
  pub is_writable : Bool

pub record ExecuteTransactionDigest : Type 0 where
  pub vid : ℕ
  pub program_id : ℕ
  pub accounts : List TransactionAccount
  pub data_of : List ℕ
  pub expiration : ℕ

pub record InvokeParams : Type 0 where
  pub digest : ExecuteTransactionDigest
  pub signatures : List Signature

-- The account as its creation leaves it.
abbrev pub zeroed : DvnConfig
zeroed = record {
  vid = 0;
  bump = 0;
  multisig = record { signers = []; quorum = 0 };
  acl = record { allow_list = []; deny_list = [] };
  paused = false;
  msglibs = [];
  admins = [];
  price_feed = 0;
  dst_configs = [];
  default_multiplier_bps = 0;
}

-- `InitDvn::apply`
unfoldable pub init_dvn : (bump : ℕ) → InitDvnParams → DvnStore → Result DvnStore
init_dvn bump params s = do
  fresh s.config
  c1 ←
      set_multisig (record { signers = params.signers; quorum = params.quorum })
        (record zeroed { vid = params.vid; bump = bump })
  c2 ← set_admins params.admins c1
  c3 ← set_msglibs params.msglibs c2
  ok (record s {
    config = some (record {
      data_of = record c3 {
        price_feed = params.price_feed;
        default_multiplier_bps = 12000;
        paused = false;
      };
      extended = false;
    });
  })

abbrev pub require_admin : ℕ → DvnConfig → Result (Unit {0})
require_admin admin config = require (contains admin config.admins) (dvn DvnError.not_admin)

-- `AccountMeta`, from the account of a digest: the configuration is read-only where it signs.
abbrev pub account_meta : (config_acc : ℕ) → TransactionAccount → TransactionAccount
account_meta config_acc acc =
    if acc.pubkey == config_acc && acc.is_signer then record acc { is_writable = false } else acc

-- The new configuration of `Invoke::apply`
abbrev pub is_set_admin : MultisigConfig → Bool
is_set_admin (MultisigConfig.admins new) = true
is_set_admin _ = false

-- What is not of the program: its own id and the key of its account, the framework's serialisation,
-- the hash, the recovery of keys, and the call of another program.
pub record Runtime : Type 0 where
  pub id : ℕ
  pub config_acc : ℕ
  pub serialize : ExecuteTransactionDigest → List ℕ
  pub keccak : List ℕ → ℕ
  pub secp256k1_recover : (hash recovery_id sig : ℕ) → Option ℕ
  pub read_config : List ℕ → Result MultisigConfig
  pub invoke_signed : (program_id : ℕ) → List TransactionAccount → List ℕ → Result (Unit {0})

module _ (r : Runtime) where
  abbrev pub digest_hash : ExecuteTransactionDigest → ℕ
  digest_hash digest = r.keccak (r.serialize digest)

  -- The branch for the DVN's own configuration
  unfoldable pub configure :
      (signer : ℕ) → ExecuteTransactionDigest → DvnAccount → DvnStore → Result DvnStore
  configure signer digest a s = do
    config ← r.read_config digest.data_of
    require (is_set_admin config || contains signer a.data_of.admins) (dvn DvnError.not_admin)
    data_of ← apply_multisig_config config a.data_of
    ok (record s {
      config = some (record a { data_of = data_of });
      log = multisig_config_set config ∷ s.log;
    })

  -- The branch for another program
  unfoldable pub call :
      (signer : ℕ) → ExecuteTransactionDigest → DvnAccount → DvnStore → Result DvnStore
  call signer digest a s = do
    require_admin signer a.data_of
    done ←
        r.invoke_signed digest.program_id (map (account_meta r.config_acc) digest.accounts)
          digest.data_of
    ok s

  unfoldable pub dispatch :
      (signer : ℕ) → ExecuteTransactionDigest → DvnAccount → DvnStore → Result DvnStore
  unfolding configure call
  dispatch signer digest a s =
      if digest.program_id == r.id then configure signer digest a s else call signer digest a s

  -- The execute hash of a digest, written.
  abbrev pub marked : (bump : ℕ) → ExecuteTransactionDigest → DvnStore → DvnStore
  marked bump digest s = record s {
    execute_hashes =
        write (digest_hash digest) (some (record { expiration = digest.expiration; bump = bump }))
          s.execute_hashes;
  }

  -- `Invoke::apply`
  unfoldable pub invoke : (bump signer clock : ℕ) → InvokeParams → DvnStore → Result DvnStore
  unfolding dispatch
  invoke bump signer clock params s = do
    a ← account s.config
    fresh (s.execute_hashes (digest_hash params.digest))
    require (a.data_of.vid == params.digest.vid) (dvn DvnError.invalid_vid)
    require (ltb clock params.digest.expiration) (dvn DvnError.expired)
    verify_signatures r.secp256k1_recover a.data_of.multisig params.signatures
        (digest_hash params.digest)
    dispatch signer params.digest a (marked bump params.digest s)

-- `CloseExecute`
unfoldable pub close_execute : (admin clock digest_hash : ℕ) → DvnStore → Result DvnStore
close_execute admin clock digest_hash s = do
  a ← account s.config
  execute_hash ← account (s.execute_hashes digest_hash)
  require_admin admin a.data_of
  require (leb execute_hash.expiration clock) (dvn DvnError.unexpired_execute_hash)
  ok (record s { execute_hashes = write digest_hash none s.execute_hashes })

-- `ExtendDVNConfig`
unfoldable pub extend_dvn_config : (admin : ℕ) → DvnStore → Result DvnStore
extend_dvn_config admin s = do
  a ← account s.config
  require_admin admin a.data_of
  ok (record s { config = some (record a { extended = true }) })

-- `SetConfig::apply`
unfoldable pub set_config : (admin : ℕ) → AdminConfig → DvnStore → Result DvnStore
set_config admin config s = do
  a ← account s.config
  require_admin admin a.data_of
  data_of ← apply_admin_config (max_len_of a.extended) config a.data_of
  ok (record s {
    config = some (record a { data_of = data_of });
    log = admin_config_set config ∷ s.log;
  })
