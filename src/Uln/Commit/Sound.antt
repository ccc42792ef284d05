-- ===== src/Uln/Commit/Sound.antt =====
-- What a committed verification rests on, and what it leaves in the endpoint.
use lz_v2_audit.Prelude.{
  ℕ, ◌+◌, ◌≤◌, ◌≡◌, ◌∙◌, refl, sym, inl, inr, Option, none, some, List, ◌==◌, not, leb, length,
  get_elem?, take, drop, true, Result, ok, panic, account, require, >>=-eq-ok, account-eq-ok,
  require-eq-ok, ok-injective, ap, Bool-cases, ==→eq, UlnError, uln, AnchorError, anchor,
  LayerZeroError, layer_zero, write_self, nat_eq, pair_eq,
}
use mathlib.Core.Path.{subst}
use lz_v2_audit.Packet.{version, nonce, src_eid, sender, dst_eid, receiver, packet_version}
use lz_v2_audit.Endpoint.State.{PayloadHash, empty_payload_hash}
use lz_v2_audit.Endpoint.Store.{Store, Runtime, channel}
use lz_v2_audit.Endpoint.Messaging.{VerifyParams, verify, insert_if_above}
use lz_v2_audit.Endpoint.Messaging.Library.{is_valid_receive_library}
use lz_v2_audit.Uln.Config.{UlnConfig}
use lz_v2_audit.Uln.Config.Valid.{IsUlnConfig}
use lz_v2_audit.Uln.Config.Resolve.{IsDefault, resolved-IsUsable}
use lz_v2_audit.Uln.Verification.{AccountInfo, Addresses, check_verifiable}
use lz_v2_audit.Uln.Verification.Quorum.{all_confirmed, confirmed_count}
use lz_v2_audit.Uln.Verification.Decision.{check_verifiable_sound}
use lz_v2_audit.Uln.State.{UlnStore, UlnSettings, ReceiveConfig}
use lz_v2_audit.Uln.Admin.Accepted.{IsUlnStore, OnReceive}
use lz_v2_audit.Uln.Commit.{
  CommitVerificationParams, local_custom_config, get_receive_config, split_at, construct_context,
  endpoint_verify, commit_verification,
}

-- The payload hash that the endpoint stores after a `verify`.
verify_stores :
    (env : Runtime) (lib : ℕ) (params : VerifyParams) (s s' : Store)
    → verify env lib params s ≡ ok s'
    → (payload : PayloadHash) × (s'.payload_hashes
          (channel params.receiver params.src_eid params.sender, params.nonce)
        ≡ some payload)
      × (payload.hash ≡ params.payload_hash)
unfolding verify
verify_stores env lib params s s' h =
    let key = channel params.receiver params.src_eid params.sender in
    let (config, e1, h1) =
      >>=-eq-ok (account (s.receive_libraries (params.receiver, params.src_eid))) _ h in
    let (default_config, e2, h2) =
      >>=-eq-ok (account (s.default_receive_libraries params.src_eid)) _ h1 in
    let (n, en, h3) = >>=-eq-ok (account (s.nonces key)) _ h2 in
    let (p, ep, h4) = >>=-eq-ok (account (s.pendings key)) _ h3 in
    let (payload, eh, h5) = >>=-eq-ok (account (s.payload_hashes (key, params.nonce))) _ h4 in
    let (u6, e6, h6) =
      >>=-eq-ok
        (require (is_valid_receive_library lib config default_config env.slot)
          (layer_zero LayerZeroError.invalid_receive_library))
        _ h5 in
    let (u7, e7, h7) =
      >>=-eq-ok
        (require (not (params.payload_hash == empty_payload_hash))
          (layer_zero LayerZeroError.invalid_payload_hash))
        _ h6 in
    let (r, er, h8) = >>=-eq-ok (insert_if_above p params.nonce n) _ h7 in
    subst
      (λ (t : Store).
        (payload : PayloadHash) × (t.payload_hashes (key, params.nonce) ≡ some payload)
        × (payload.hash ≡ params.payload_hash))
      (ok-injective h8)
      (
        record payload { hash = params.payload_hash },
        write_self (key, params.nonce) _ s.payload_hashes,
        refl,
      )

-- The commitment of a packet: the header's fields, the configuration that applies, its quorum, and
-- the payload hash in the endpoint.
pub record IsCommitted (env : Runtime) (addresses : Addresses) (remaining : List AccountInfo)
    (params : CommitVerificationParams) (u : UlnStore) (s' : Store) : Type 0 where
  pub src : ℕ
  pub from : ℕ
  pub to : ℕ
  pub number : ℕ
  pub src_read : src_eid params.packet_header ≡ ok src
  pub from_read : sender params.packet_header ≡ ok from
  pub to_read : receiver params.packet_header ≡ ok to
  pub number_read : nonce params.packet_header ≡ ok number
  pub version_read : version params.packet_header ≡ ok packet_version
  pub settings : UlnSettings
  pub settings_read : u.uln ≡ some settings
  pub dst_read : dst_eid params.packet_header ≡ ok (settings.eid)
  pub default_config : ReceiveConfig
  pub default_read : u.default_receive_configs src ≡ some default_config
  pub config : UlnConfig
  pub resolved : get_receive_config (u.receive_configs (to, src)) default_config ≡ ok config
  pub required_confirmed :
      all_confirmed addresses
        (env.keccak params.packet_header)
        params.payload_hash
        config.confirmations
        (take (length config.required_dvns + length config.optional_dvns) remaining)
        0
        config.required_dvns
      ≡ true
  pub optional_confirmed :
      config.optional_dvn_threshold
      ≤ confirmed_count addresses
          (env.keccak params.packet_header)
          params.payload_hash
          config.confirmations
          (take (length config.required_dvns + length config.optional_dvns) remaining)
          (length config.required_dvns)
          config.optional_dvns
  pub payload : PayloadHash
  pub stored : s'.payload_hashes (channel to src from, number) ≡ some payload
  pub hash : payload.hash ≡ params.payload_hash

custom_valid :
    (o : Option ReceiveConfig) → OnReceive IsUlnConfig o → IsUlnConfig (local_custom_config o)
custom_valid none v = record {
  required = inl (inr refl, refl);
  optional = inl ((inr refl, refl), refl);
}
custom_valid (some config) v = v

split_at-take :
    (n : ℕ) (accounts : List AccountInfo) (halves : List AccountInfo × List AccountInfo)
    → split_at n accounts ≡ ok halves
    → halves.0 ≡ take n accounts
split_at-take n accounts halves h = elim (Bool-cases (leb n (length accounts))) [
  | inl fits ↦
      let same : (take n accounts, drop n accounts) ≡ halves = ok-injective (rw fits at h) in
      ap first (sym same)
  | inr short ↦ absurd (refused (rw short at h))
]
  where
    first : List AccountInfo × List AccountInfo → List AccountInfo
    first p = p.0

    refused : panic ≡ ok halves → ⊥
    refused e = cc

-- A commit that succeeds, in a ULN whose stored configurations were accepted, is for a packet of
-- this version and for this endpoint; the configuration resolved for its receiver and source has
-- every required DVN and at least the threshold of optional DVNs confirmed on the accounts passed;
-- and the endpoint then stores the committed payload hash under the packet's channel and nonce.
pub commit_verification_sound :
    (env : Runtime) (addresses : Addresses) (uln_key : ℕ) (remaining : List AccountInfo)
    (params : CommitVerificationParams) (u : UlnStore) (s s' : Store)
    → IsUlnStore u
    → commit_verification env addresses uln_key remaining params u s ≡ ok s'
    → IsCommitted env addresses remaining params u s'
unfolding commit_verification endpoint_verify
commit_verification_sound env addresses uln_key remaining params u s s' v h =
    let (src, e1, h1) = >>=-eq-ok (src_eid params.packet_header) _ h in
    let (to, e2, h2) = >>=-eq-ok (receiver params.packet_header) _ h1 in
    let (default_config, e3, h3) = >>=-eq-ok (account (u.default_receive_configs src)) _ h2 in
    let (settings, e4, h4) = >>=-eq-ok (account u.uln) _ h3 in
    let (config, e5, h5) =
      >>=-eq-ok (get_receive_config (u.receive_configs (to, src)) default_config) _ h4 in
    let (ver, e6, h6) = >>=-eq-ok (version params.packet_header) _ h5 in
    let (u7, e7, h7) =
      >>=-eq-ok (require (ver == packet_version) (uln UlnError.invalid_packet_version)) _ h6 in
    let (dst, e8, h8) = >>=-eq-ok (dst_eid params.packet_header) _ h7 in
    let (u9, e9, h9) = >>=-eq-ok (require (dst == settings.eid) (uln UlnError.invalid_eid)) _ h8 in
    let n = length config.required_dvns + length config.optional_dvns in
    let (halves, e10, h10) = >>=-eq-ok (split_at n remaining) _ h9 in
    let (verifiable, e11, h11) =
      >>=-eq-ok
        (check_verifiable addresses (env.keccak params.packet_header) params.payload_hash config
          halves.0)
        _ h10 in
    let (u12, e12, h12) = >>=-eq-ok (require verifiable (uln UlnError.verifying)) _ h11 in
    let (library, e13, h13) =
      >>=-eq-ok
        (elim (get_elem? (halves.1) 1) as (λ o. Result ℕ) [
          | none ↦ panic
          | some info ↦ ok info.key
        ])
        _ h12 in
    let (u14, e14, h14) =
      >>=-eq-ok (require (uln_key == library) (anchor AnchorError.constraint_address)) _ h13 in
    let (src', e15, h15) = >>=-eq-ok (src_eid params.packet_header) _ h14 in
    let (from, e16, h16) = >>=-eq-ok (sender params.packet_header) _ h15 in
    let (to', e17, h17) = >>=-eq-ok (receiver params.packet_header) _ h16 in
    let (number, e18, h18) = >>=-eq-ok (nonce params.packet_header) _ h17 in
    let (u19, e19, h19) = >>=-eq-ok (construct_context settings.endpoint_program halves.1) _ h18 in
    let usable =
      resolved-IsUsable default_config.uln _ config
        (subst (OnReceive IsDefault) (account-eq-ok _ e3) (v.defaults src))
        (custom_valid (u.receive_configs (to, src)) (v.customs (to, src))) e5 in
    let (required, optional) =
      check_verifiable_sound addresses (env.keccak params.packet_header) params.payload_hash config
        halves.0 usable.resolved (e11 ∙ ap ok (require-eq-ok _ _ e12)) in
    let (payload, stored, hash) = verify_stores env uln_key _ s s' h19 in
    let same_src : src' ≡ src = ok-injective (sym e15 ∙ e1) in
    let same_to : to' ≡ to = ok-injective (sym e17 ∙ e2) in
    let taken : halves.0 ≡ take n remaining = split_at-take n remaining halves e10 in
    record {
      src = src;
      from = from;
      to = to;
      number = number;
      src_read = e1;
      from_read = e16;
      to_read = e2;
      number_read = e18;
      version_read = e6 ∙ ap ok (==→eq ver packet_version (require-eq-ok _ _ e7));
      settings = settings;
      settings_read = account-eq-ok _ e4;
      dst_read = e8 ∙ ap ok (==→eq dst settings.eid (require-eq-ok _ _ e9));
      default_config = default_config;
      default_read = account-eq-ok _ e3;
      config = config;
      resolved = e5;
      required_confirmed = rw (← taken) required;
      optional_confirmed = rw (← taken) optional;
      payload = payload;
      stored =
          subst (λ x. s'.payload_hashes (channel to x from, number) ≡ some payload) same_src
            (subst (λ x. s'.payload_hashes (channel x src' from, number) ≡ some payload) same_to
              stored);
      hash = hash;
    }
