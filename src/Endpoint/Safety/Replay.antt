-- ===== src/Endpoint/Safety/Replay.antt =====
-- A nonce that was cleared, burnt or skipped is finished: no later instruction delivers it, verifies
-- it or opens its account again.
use lz_v2_audit.Prelude.{
  ℕ, ◌≤◌, ◌≡◌, ◌≢◌, refl, Option, none, some, ok, arith, account, require, leb, ◌==◌, >>=-eq-ok,
  account-eq-ok, require-eq-ok, ok-injective, leb→le, write_self, nat_eq, pair_eq, LayerZeroError,
  layer_zero,
}
use mathlib.Core.Path.{subst}
use lz_v2_audit.Endpoint.State.{Nonce}
use lz_v2_audit.Endpoint.Store.{Store, Runtime, ChannelKey, channel, require_oapp_or_delegate}
use lz_v2_audit.Endpoint.Messaging.{
  ClearParams, init_verify, verify, skip, clear, nilify, burn, hash_payload,
}
use lz_v2_audit.Endpoint.Safety.{IsStore, IsLater, Effect}
use lz_v2_audit.Endpoint.Safety.Closing.{clear-Effect}
use lz_v2_audit.Endpoint.Safety.Steps.{Step-Effect, Reach, here, next, Reach-IsStore}

-- The account of a nonce is closed, and its channel has moved past it.
pub record IsPast (s : Store) (key : ChannelKey) (m : ℕ) : Type 0 where
  pub nonce : Nonce
  pub found : s.nonces key ≡ some nonce
  pub reached : m ≤ nonce.inbound_nonce
  pub closed : s.payload_hashes (key, m) ≡ none

pub later_nonce :
    (n : Nonce) (o : Option Nonce)
    → IsLater n o
    → (n' : Nonce) × (o ≡ some n') × (n.inbound_nonce ≤ n'.inbound_nonce)
later_nonce n none h = elim h [ ]
later_nonce n (some n') h = (n', refl, h.0)

Effect-IsPast :
    (s s' : Store) (key : ChannelKey) (m : ℕ) → Effect s s' → IsPast s key m → IsPast s' key m
Effect-IsPast s s' key m e p =
    let (n', found, le) = later_nonce p.nonce (s'.nonces key) (e.onward key p.nonce p.found) in
    record {
      nonce = n';
      found = found;
      reached = omega (arith, le, p.reached);
      closed = e.closed key p.nonce m p.found p.reached p.closed;
    }

pub Reach-IsPast :
    {s t : Store} (key : ChannelKey) (m : ℕ)
    → IsStore s
    → Reach s t
    → IsPast s key m
    → IsPast t key m
Reach-IsPast key m v here p = p
Reach-IsPast key m v (next {t = t} {u = u} r st) p =
    Effect-IsPast t u key m (Step-Effect (Reach-IsStore v r) st) (Reach-IsPast key m v r p)

-- No instruction on this nonce of the channel succeeds.
pub record IsFinished (t : Store) (receiver src_eid sender m : ℕ) : Type 0 where
  pub not_cleared :
      (env : Runtime) (signer guid : ℕ) (message : _) (r : Store × ℕ)
      → clear env signer
          (record {
            receiver = receiver;
            src_eid = src_eid;
            sender = sender;
            nonce = m;
            guid = guid;
            message = message;
          })
          t
        ≢ ok r
  pub not_opened :
      (bump : ℕ) (u : Store)
      → init_verify bump
          (record { src_eid = src_eid; sender = sender; receiver = receiver; nonce = m })
          t
        ≢ ok u
  pub not_verified :
      (env : Runtime) (lib hash : ℕ) (u : Store)
      → verify env lib
          (record {
            src_eid = src_eid;
            sender = sender;
            receiver = receiver;
            nonce = m;
            payload_hash = hash;
          })
          t
        ≢ ok u
  pub not_nilified :
      (signer hash : ℕ) (u : Store)
      → nilify signer
          (record {
            receiver = receiver;
            src_eid = src_eid;
            sender = sender;
            nonce = m;
            payload_hash = hash;
          })
          t
        ≢ ok u
  pub not_skipped :
      (signer : ℕ) (u : Store)
      → skip signer
          (record { receiver = receiver; src_eid = src_eid; sender = sender; nonce = m })
          t
        ≢ ok u
  pub not_burnt :
      (signer hash : ℕ) (u : Store)
      → burn signer
          (record {
            receiver = receiver;
            src_eid = src_eid;
            sender = sender;
            nonce = m;
            payload_hash = hash;
          })
          t
        ≢ ok u

pub IsPast-IsFinished :
    (t : Store) (receiver src_eid sender m : ℕ)
    → IsPast t (channel receiver src_eid sender) m
    → IsFinished t receiver src_eid sender m
unfolding clear init_verify verify nilify skip burn
IsPast-IsFinished t receiver src_eid sender m p = record {
  not_cleared = λ env signer guid message r. ground arith;
  not_opened = λ bump u. ground arith;
  not_verified = λ env lib hash u. ground arith;
  not_nilified = λ signer hash u. ground arith;
  not_skipped = λ signer u. ground arith;
  not_burnt = λ signer hash u. ground arith;
}

clear-IsPast :
    (env : Runtime) (signer : ℕ) (params : ClearParams) (s s' : Store) (hash : ℕ)
    → clear env signer params s ≡ ok (s', hash)
    → IsPast s' (channel params.receiver params.src_eid params.sender) params.nonce
unfolding clear
clear-IsPast env signer params s s' hash h =
    let key = channel params.receiver params.src_eid params.sender in
    let (registry, e1, h1) = >>=-eq-ok (account (s.oapps params.receiver)) _ h in
    let (n, en, h2) = >>=-eq-ok (account (s.nonces key)) _ h1 in
    let (payload, eh, h3) = >>=-eq-ok (account (s.payload_hashes (key, params.nonce))) _ h2 in
    let (settings, e4, h4) = >>=-eq-ok (account s.endpoint) _ h3 in
    let (u5, e5, h5) = >>=-eq-ok (require_oapp_or_delegate signer params.receiver registry) _ h4 in
    let (u6, e6, h6) =
      >>=-eq-ok
        (require (leb params.nonce n.inbound_nonce) (layer_zero LayerZeroError.invalid_nonce)) _
        h5 in
    let (u7, e7, h7) =
      >>=-eq-ok
        (require (hash_payload env params.guid params.message == payload.hash)
          (layer_zero LayerZeroError.payload_hash_not_found))
        _ h6 in
    subst (λ (r : Store × ℕ). IsPast r.0 key params.nonce) (ok-injective h7)
      (record {
        nonce = n;
        found = account-eq-ok _ en;
        reached = leb→le _ _ (require-eq-ok _ _ e6);
        closed = write_self (key, params.nonce) none s.payload_hashes;
      })

-- If an oapp has cleared a nonce of a channel, in a store whose channels are well formed, then
-- after any further instructions no clear, init_verify, verify, nilify, skip or burn of that nonce
-- of that channel succeeds: a message is delivered at most once.
pub clear_once :
    (env : Runtime) (signer : ℕ) (params : ClearParams) (s s' t : Store) (hash : ℕ)
    → IsStore s
    → clear env signer params s ≡ ok (s', hash)
    → Reach s' t
    → IsFinished t params.receiver params.src_eid params.sender params.nonce
clear_once env signer params s s' t hash v h r =
    IsPast-IsFinished t params.receiver params.src_eid params.sender params.nonce (
      Reach-IsPast _ params.nonce (clear-Effect env signer params s s' hash v h).valid r
        (clear-IsPast env signer params s s' hash h))
