-- ===== src/Endpoint/Safety.antt =====
-- What every instruction of the endpoint keeps: each channel is well formed, its nonces never go
-- back, and a payload hash account at or below the inbound nonce is never opened again.
pub mod Inbound
pub mod Closing
pub mod Settings
pub mod Outbound
pub mod Steps
pub mod Replay
pub mod Final
pub mod Numbers
use lz_v2_audit.Prelude.{
  ℕ, ◌≤◌, ◌≡◌, refl, Option, none, some, arith, write, write-at, write-both, nat_eq, pair_eq, inl,
  inr, ap, sym, ◌∙◌,
}
use mathlib.Core.Path.{subst}
use lz_v2_audit.Endpoint.State.{Nonce, PendingInboundNonce, PayloadHash}
use lz_v2_audit.Endpoint.Store.{Store, ChannelKey, PayloadKey}
use lz_v2_audit.Endpoint.Channel.Insertion.{IsChannel}

-- The two accounts of a channel.
abbrev pub IsChannelAt : Option Nonce → Option PendingInboundNonce → Type 0
IsChannelAt (some nonce) (some pending) = IsChannel nonce pending
IsChannelAt _ _ = Unit

pub record IsStore (s : Store) : Type 0 where
  pub channel_at : (key : ChannelKey) → IsChannelAt (s.nonces key) (s.pendings key)

-- The nonce account of a channel is kept, and neither nonce goes back.
abbrev pub IsLater : Nonce → Option Nonce → Type 0
IsLater n none = ⊥
IsLater n (some n') = (n.inbound_nonce ≤ n'.inbound_nonce) × (n.outbound_nonce ≤ n'.outbound_nonce)

pub record Effect (s s' : Store) : Type 0 where
  pub valid : IsStore s'
  pub onward : (key : ChannelKey) (n : Nonce) → s.nonces key ≡ some n → IsLater n (s'.nonces key)
  pub closed :
      (key : ChannelKey) (n : Nonce) (m : ℕ)
      → s.nonces key ≡ some n
      → m ≤ n.inbound_nonce
      → s.payload_hashes (key, m) ≡ none
      → s'.payload_hashes (key, m) ≡ none

-- An instruction that leaves the nonces alone, and opens no payload hash account that is closed.
pub Effect-hashes :
    (s s' : Store)
    → IsStore s
    → s'.nonces ≡ s.nonces
    → s'.pendings ≡ s.pendings
    → ((j : ChannelKey) (k : Nonce) (m : ℕ)
        → s.nonces j ≡ some k
        → m ≤ k.inbound_nonce
        → s.payload_hashes (j, m) ≡ none
        → s'.payload_hashes (j, m) ≡ none)
    → Effect s s'
Effect-hashes s s' v en ep closes = record {
  valid = record { channel_at = λ key. rw (en, ep) (v.channel_at key) };
  onward = λ key n e. rw (en, e) (omega arith);
  closed = closes;
}

-- The accounts of the channels are those of before.
abbrev pub IsUntouched : Store → Store → Type 0
IsUntouched s s' =
    (s'.nonces ≡ s.nonces) × (s'.pendings ≡ s.pendings) × (s'.payload_hashes ≡ s.payload_hashes)

pub Effect-untouched : (s s' : Store) → IsStore s → IsUntouched s s' → Effect s s'
Effect-untouched s s' v (en, ep, eh) = Effect-hashes s s' v en ep (λ j k m e h c. rw eh c)

-- An instruction that rewrites both accounts of one channel.
module _ (s s' : Store) (key : ChannelKey) (n n' : Nonce) (p' : PendingInboundNonce) where
  pub Effect-channel :
      IsStore s
      → s'.nonces ≡ write key (some n') s.nonces
      → s'.pendings ≡ write key (some p') s.pendings
      → s.nonces key ≡ some n
      → IsChannel n' p'
      → IsLater n (some n')
      → ((j : ChannelKey) (k : Nonce) (m : ℕ)
          → s.nonces j ≡ some k
          → m ≤ k.inbound_nonce
          → s.payload_hashes (j, m) ≡ none
          → s'.payload_hashes (j, m) ≡ none)
      → Effect s s'
  Effect-channel v en ep e c later closes = record {
    valid = record { channel_at = λ j. rw (en, ep) (both j) };
    onward = λ j k q. rw en (forward j k q);
    closed = closes;
  }
    where
      both :
          (j : ChannelKey)
          → IsChannelAt (write key (some n') s.nonces j) (write key (some p') s.pendings j)
      both j =
          write-both IsChannelAt key j (some n') (some p') s.nonces s.pendings c (v.channel_at j)

      one :
          (i j : ChannelKey) (a b : Nonce)
          → i ≡ j
          → s.nonces i ≡ some a
          → s.nonces j ≡ some b
          → a ≡ b
      one i j a b same p q = cc

      forward :
          (j : ChannelKey) (k : Nonce)
          → s.nonces j ≡ some k
          → IsLater k (write key (some n') s.nonces j)
      forward j k q =
          write-at (IsLater k) key j (some n') s.nonces
            (λ same. subst (λ x. IsLater x (some n')) (one key j n k same e q) later)
            (rw q (omega arith))
