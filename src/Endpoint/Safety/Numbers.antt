-- ===== src/Endpoint/Safety/Numbers.antt =====
-- The nonces of sent packets, and the store that a history starts from.
use lz_v2_audit.Prelude.{
  ℕ, ◌+◌, ◌≤◌, ◌<◌, ◌≡◌, refl, sym, ap, ◌∙◌, Option, none, some, [], Bool, ok, arith, write_self,
  nat_eq, pair_eq,
}
use mathlib.Core.Path.{subst}
use lz_v2_audit.Endpoint.State.{Nonce, MessagingReceipt}
use lz_v2_audit.Endpoint.Store.{Store, Runtime, ChannelKey, channel}
use lz_v2_audit.Endpoint.Sending.{SendParams, send}
use lz_v2_audit.Endpoint.Safety.{IsStore, IsLater}
use lz_v2_audit.Endpoint.Safety.Outbound.{Sends, send-Sends, Sends-Effect}
use lz_v2_audit.Endpoint.Safety.Steps.{Step-Effect, Reach, here, next, Reach-IsStore}

-- No account exists before the endpoint is initialised.
abbrev pub no_accounts : Store
no_accounts = record {
  endpoint = none;
  oapps = λ oapp. none;
  message_libs = λ lib. none;
  send_libraries = λ key. none;
  default_send_libraries = λ eid. none;
  receive_libraries = λ key. none;
  default_receive_libraries = λ eid. none;
  nonces = λ key. none;
  pendings = λ key. none;
  payload_hashes = λ key. none;
  compose_messages = λ key. none;
  log = [];
}

-- Whatever instructions have run since the program was deployed, every channel is well formed: its
-- pending nonces increase strictly, all lie above the nonce after the inbound nonce and at most 256
-- beyond the inbound nonce, and all are 64-bit words.
pub reachable-IsStore : (t : Store) → Reach no_accounts t → IsStore t
reachable-IsStore t r = Reach-IsStore (record { channel_at = λ key. tt }) r

-- The outbound nonce of a channel has reached `m`.
HasSent : Store → ChannelKey → ℕ → Type 0
HasSent s key m = (n : Nonce) × (s.nonces key ≡ some n) × (m ≤ n.outbound_nonce)

later_outbound :
    (n : Nonce) (o : Option Nonce)
    → IsLater n o
    → (n' : Nonce) × (o ≡ some n') × (n.outbound_nonce ≤ n'.outbound_nonce)
later_outbound n none h = elim h [ ]
later_outbound n (some n') h = (n', refl, h.1)

Reach-HasSent :
    {s t : Store} (key : ChannelKey) (m : ℕ)
    → IsStore s
    → Reach s t
    → HasSent s key m
    → HasSent t key m
unfolding HasSent
Reach-HasSent key m v here h = h
Reach-HasSent key m v (next {t = t} {u = u} r st) h =
    let (n, found, le) = Reach-HasSent key m v r h in
    let e = Step-Effect (Reach-IsStore v r) st in
    let (n', found', le') = later_outbound n (u.nonces key) (e.onward key n found) in
    (n', found', omega (arith, le, le'))

Sends-lt :
    (s s' t t' : Store) (key : ChannelKey) (receipt receipt' : MessagingReceipt)
    → IsStore s
    → Sends s s' key receipt
    → Reach s' t
    → Sends t t' key receipt'
    → receipt.nonce < receipt'.nonce
unfolding HasSent
Sends-lt s s' t t' key receipt receipt' v first r second =
    let (n, found, le) =
      Reach-HasSent key receipt.nonce (Sends-Effect s s' key receipt v first).valid r sent in
    omega (
      arith,
      le,
      second.returned,
      ap outbound (some-same n second.before (sym found ∙ second.read)),
    )
  where
    outbound : Nonce → ℕ
    outbound n = n.outbound_nonce

    some-same : (a b : Nonce) → some a ≡ some b → a ≡ b
    some-same a b p = cc

    written :
        s'.nonces key
        ≡ some (record (first.before) { outbound_nonce = first.before.outbound_nonce + 1 })
    written = rw first.written (write_self key _ s.nonces)

    sent : HasSent s' key receipt.nonce
    sent = (_, written, omega (arith, first.returned))

-- Of two sends by one oapp to one remote oapp and eid, with any instructions between them, from a
-- store whose channels are well formed, the later one gets the larger nonce, so no two packets of a
-- channel share one.
pub send_nonces_increase :
    (env env' : Runtime) (sender program program' : ℕ) (writable writable' : Bool)
    (params params' : SendParams) (s s' t t' : Store) (receipt receipt' : MessagingReceipt)
    → IsStore s
    → params.dst_eid ≡ params'.dst_eid
    → params.receiver ≡ params'.receiver
    → send env sender program writable params s ≡ ok (s', receipt)
    → Reach s' t
    → send env' sender program' writable' params' t ≡ ok (t', receipt')
    → receipt.nonce < receipt'.nonce
send_nonces_increase env env' sender program program' writable writable' params params' s s' t t'
      receipt receipt' v ed er h r h' =
    Sends-lt s s' t t' (channel sender params.dst_eid params.receiver) receipt receipt' v
      (send-Sends env sender program writable params s s' receipt h) r
      (subst (λ k. Sends t t' k receipt') (same_channel params params' ed er)
        (send-Sends env' sender program' writable' params' t t' receipt' h'))
  where
    same_channel :
        (p p' : SendParams)
        → p.dst_eid ≡ p'.dst_eid
        → p.receiver ≡ p'.receiver
        → channel sender p'.dst_eid p'.receiver ≡ channel sender p.dst_eid p.receiver
    same_channel p p' e1 e2 = cc
