-- ===== src/Endpoint/Safety/Outbound.antt =====
-- The effect of `send`: the next outbound nonce of one channel.
use lz_v2_audit.Prelude.{
  ℕ, ◌+◌, ◌≡◌, refl, Option, none, some, Bool, not, ok, account, require, checked_add, arith,
  >>=-eq-ok, account-eq-ok, ok-injective, write, write-at, nat_eq, pair_eq, LayerZeroError,
  layer_zero,
}
use mathlib.Core.Path.{subst}
use lz_v2_audit.Endpoint.State.{Nonce, PendingInboundNonce, MessagingReceipt}
use lz_v2_audit.Endpoint.Store.{Store, Runtime, ChannelKey, channel}
use lz_v2_audit.Endpoint.Sending.{
  SendParams, send, build_packet, get_send_library, assert_send_library, call_library,
}
use lz_v2_audit.Endpoint.Safety.{IsStore, IsChannelAt, IsLater, Effect}

checked_add-eq-ok : (w a b : ℕ) {c : ℕ} → checked_add w a b ≡ ok c → c ≡ a + b
checked_add-eq-ok w a b h = ground arith

-- What a successful `send` has written to its channel, and the nonce that it returned.
pub record Sends (s s' : Store) (key : ChannelKey) (receipt : MessagingReceipt) : Type 0 where
  pub before : Nonce
  pub read : s.nonces key ≡ some before
  pub written :
      s'.nonces
      ≡ write key (some (record before { outbound_nonce = before.outbound_nonce + 1 })) s.nonces
  pub returned : receipt.nonce ≡ before.outbound_nonce + 1
  pub pendings : s'.pendings ≡ s.pendings
  pub payload_hashes : s'.payload_hashes ≡ s.payload_hashes

pub send-Sends :
    (env : Runtime) (sender program : ℕ) (writable : Bool) (params : SendParams) (s s' : Store)
    (receipt : MessagingReceipt)
    → send env sender program writable params s ≡ ok (s', receipt)
    → Sends s s' (channel sender params.dst_eid params.receiver) receipt
unfolding send
send-Sends env sender program writable params s s' receipt h =
    let key = channel sender params.dst_eid params.receiver in
    let (config, e1, h1) = >>=-eq-ok (account (s.send_libraries (sender, params.dst_eid))) _ h in
    let (default_config, e2, h2) =
      >>=-eq-ok (account (s.default_send_libraries params.dst_eid)) _ h1 in
    let (info, e3, h3) =
      >>=-eq-ok (account (s.message_libs (get_send_library config default_config))) _ h2 in
    let (settings, e4, h4) = >>=-eq-ok (account s.endpoint) _ h3 in
    let (n, en, h5) = >>=-eq-ok (account (s.nonces key)) _ h4 in
    let (u6, e6, h6) =
      >>=-eq-ok (require (not writable) (layer_zero LayerZeroError.read_only_account)) _ h5 in
    let (next, e7, h7) = >>=-eq-ok (checked_add 64 n.outbound_nonce 1) _ h6 in
    let (send_library, e8, h8) =
      >>=-eq-ok (assert_send_library env info program config default_config) _ h7 in
    let packet =
      build_packet env settings next sender params.dst_eid params.receiver params.message in
    let (answer, e9, h9) = >>=-eq-ok (call_library env settings program packet params) _ h8 in
    let next_eq : next ≡ n.outbound_nonce + 1 = checked_add-eq-ok 64 n.outbound_nonce 1 e7 in
    subst (λ (r : Store × MessagingReceipt). Sends s r.0 key r.1) (ok-injective h9)
      (record {
        before = n;
        read = account-eq-ok _ en;
        written = rw next_eq refl;
        returned = next_eq;
        pendings = refl;
        payload_hashes = refl;
      })

outbound_channel :
    (n : Nonce) (o : ℕ) (p : Option PendingInboundNonce)
    → IsChannelAt (some n) p
    → IsChannelAt (some (record n { outbound_nonce = o })) p
outbound_channel n o none c = tt
outbound_channel n o (some p) c = record {
  sorted = c.sorted;
  gap = c.gap;
  window = c.window;
  word = c.word;
  words = c.words;
}

pub Sends-Effect :
    (s s' : Store) (key : ChannelKey) (receipt : MessagingReceipt)
    → IsStore s
    → Sends s s' key receipt
    → Effect s s'
Sends-Effect s s' key receipt v sent = record {
  valid = record { channel_at = λ j. rw (sent.written, sent.pendings) (kept j) };
  onward = λ j k q. rw sent.written (later j k q);
  closed = λ j k m q l c. rw sent.payload_hashes c;
}
  where
    next : Nonce
    next = record (sent.before) { outbound_nonce = sent.before.outbound_nonce + 1 }

    kept : (j : ChannelKey) → IsChannelAt (write key (some next) s.nonces j) (s.pendings j)
    kept j =
        write-at (λ o. IsChannelAt o (s.pendings j)) key j (some next) s.nonces
          (λ same. outbound_channel sent.before _ (s.pendings j) (
            subst (λ o. IsChannelAt o (s.pendings j)) (found key j same sent.read)
              (v.channel_at j)))
          (v.channel_at j)
      where
        found :
            (i j : ChannelKey)
            → i ≡ j
            → s.nonces i ≡ some sent.before
            → s.nonces j ≡ some sent.before
        found i j same p = cc

    later :
        (j : ChannelKey) (k : Nonce)
        → s.nonces j ≡ some k
        → IsLater k (write key (some next) s.nonces j)
    later j k q =
        write-at (IsLater k) key j (some next) s.nonces
          (λ same.
            subst (λ x. IsLater x (some next)) (one key j same sent.read q)
              (omega arith, omega arith))
          (rw q (omega arith))
      where
        one :
            (i j : ChannelKey)
            → i ≡ j
            → s.nonces i ≡ some sent.before
            → s.nonces j ≡ some k
            → sent.before ≡ k
        one i j same p r = cc
