-- ===== src/Endpoint/Sending/Quoting.antt =====
-- That a quote is for the packet which a send then sends (`QuoteParams` and `SendParams` of
-- programs/endpoint/src/instructions/oapp/{quote,send}.rs).
use lz_v2_audit.Prelude.{
  ℕ, ◌≡◌, refl, some, List, [], false, ok, account, checked_add, >>=-eq-ok, account-eq-ok,
  ok-injective,
}
use mathlib.Core.Path.{subst}
use lz_v2_audit.Endpoint.State.{
  EndpointSettings, MessagingReceipt, SendLibraryConfig, MessageLibInfo, Nonce,
}
use lz_v2_audit.Endpoint.Store.{Store, Runtime, channel}
use lz_v2_audit.Endpoint.Sending.{
  SendParams, QuoteParams, get_send_library, assert_send_library, build_packet, call_library, send,
  quote,
}

-- The quote for what a send without a fee in the LZ token sends.
abbrev pub quote_for : ℕ → SendParams → QuoteParams
quote_for sender params = record {
  sender = sender;
  dst_eid = params.dst_eid;
  receiver = params.receiver;
  message = params.message;
  options = params.options;
  pay_in_lz_token = false;
}

-- The two calls of the library are for one packet.
pub record IsQuoted (env : Runtime) (sender program : ℕ) (params : SendParams) (s : Store)
    (receipt : MessagingReceipt) : Type 0 where
  pub settings : EndpointSettings
  pub read : s.endpoint ≡ some settings
  pub encoded : List ℕ
  pub sent :
      call_library env settings program
        (build_packet env settings receipt.nonce sender params.dst_eid params.receiver
          params.message)
        params
      ≡ ok (receipt.fee, encoded)
  pub quoted :
      quote env program false [] (quote_for sender params) s
      ≡ env.library_quote program (record {
        packet =
            build_packet env settings receipt.nonce sender params.dst_eid params.receiver
              params.message;
        options = params.options;
        pay_in_lz_token = false;
      })

-- A quote whose reads are known.
quote_reads :
    (env : Runtime) (sender program : ℕ) (params : SendParams) (s : Store)
    (config default_config : SendLibraryConfig) (info : MessageLibInfo)
    (settings : EndpointSettings) (n : Nonce) (outbound library : ℕ)
    → account (s.send_libraries (sender, params.dst_eid)) ≡ ok config
    → account (s.default_send_libraries params.dst_eid) ≡ ok default_config
    → account (s.message_libs (get_send_library config default_config)) ≡ ok info
    → account s.endpoint ≡ ok settings
    → account (s.nonces (channel sender params.dst_eid params.receiver)) ≡ ok n
    → checked_add 64 n.outbound_nonce 1 ≡ ok outbound
    → assert_send_library env info program config default_config ≡ ok library
    → quote env program false [] (quote_for sender params) s
      ≡ env.library_quote program (record {
        packet =
            build_packet env settings outbound sender params.dst_eid params.receiver params.message;
        options = params.options;
        pay_in_lz_token = false;
      })
unfolding quote
quote_reads env sender program params s config default_config info settings n outbound library e1 e2
      e3 e4 e5 e6 e7 =
    rw (e1, e2, e3, e4, e5, e6, e7) refl

-- If a send succeeds, a quote of the same parameters in native fees, in the same store and with no
-- writable account, asks the same library program for the fee of the very packet that the send has
-- the library send: the same nonce, guid and message.
pub quote-send :
    (env : Runtime) (sender program : ℕ) (params : SendParams) (s s' : Store)
    (receipt : MessagingReceipt)
    → send env sender program false params s ≡ ok (s', receipt)
    → IsQuoted env sender program params s receipt
unfolding send
quote-send env sender program params s s' receipt h =
    let key = channel sender params.dst_eid params.receiver in
    let (config, e1, h1) = >>=-eq-ok (account (s.send_libraries (sender, params.dst_eid))) _ h in
    let (default_config, e2, h2) =
      >>=-eq-ok (account (s.default_send_libraries params.dst_eid)) _ h1 in
    let (info, e3, h3) =
      >>=-eq-ok (account (s.message_libs (get_send_library config default_config))) _ h2 in
    let (settings, e4, h4) = >>=-eq-ok (account s.endpoint) _ h3 in
    let (n, e5, h5) = >>=-eq-ok (account (s.nonces key)) _ h4 in
    let (outbound, e6, h6) = >>=-eq-ok (checked_add 64 n.outbound_nonce 1) _ h5 in
    let (library, e7, h7) =
      >>=-eq-ok (assert_send_library env info program config default_config) _ h6 in
    let packet =
      build_packet env settings outbound sender params.dst_eid params.receiver params.message in
    let (called, e8, h8) = >>=-eq-ok (call_library env settings program packet params) _ h7 in
    subst (λ (r : Store × MessagingReceipt). IsQuoted env sender program params s r.1)
      (ok-injective h8)
      (record {
        settings = settings;
        read = account-eq-ok _ e4;
        encoded = called.1;
        sent = e8;
        quoted =
            quote_reads env sender program params s config default_config info settings n outbound
              library e1 e2 e3 e4 e5 e6 e7;
      })
