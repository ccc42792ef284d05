-- ===== src/Endpoint/Compose.antt =====
-- programs/endpoint/src/instructions/oapp/{send_compose,clear_compose}.rs and the two alerts,
-- instructions/{lz_receive_alert,lz_compose_alert}.rs.
use lz_v2_audit.Prelude.{
  ℕ, List, some, true, false, not, Result, ok, require, account, fresh, ◌>>=◌, ◌>>◌, LayerZeroError,
  layer_zero, write, nat_eq, pair_eq,
}
use lz_v2_audit.Endpoint.Events.{
  compose_sent, compose_delivered, lz_receive_alert, lz_compose_alert,
}
use lz_v2_audit.Endpoint.Store.{Store, Runtime, compose_key, emit}

pub record SendComposeParams : Type 0 where
  pub to : ℕ
  pub guid : ℕ
  pub index : ℕ
  pub message : List ℕ

pub record ClearComposeParams : Type 0 where
  pub from : ℕ
  pub guid : ℕ
  pub index : ℕ
  pub message : List ℕ

pub record LzReceiveAlertParams : Type 0 where
  pub receiver : ℕ
  pub src_eid : ℕ
  pub sender : ℕ
  pub nonce : ℕ
  pub guid : ℕ
  pub compute_units : ℕ
  pub value : ℕ
  pub message : List ℕ
  pub extra_data : List ℕ
  pub reason : List ℕ

pub record LzComposeAlertParams : Type 0 where
  pub from : ℕ
  pub to : ℕ
  pub guid : ℕ
  pub index : ℕ
  pub compute_units : ℕ
  pub value : ℕ
  pub message : List ℕ
  pub extra_data : List ℕ
  pub reason : List ℕ

-- `SendCompose::apply`, with the bump of the new account.
unfoldable pub send_compose : Runtime → (from bump : ℕ) → SendComposeParams → Store → Result Store
send_compose env from bump params s = do
  let key = compose_key from params.to params.guid params.index (env.keccak params.message)
  fresh (s.compose_messages key)
  ok (
      emit (compose_sent from params.to params.guid params.index params.message) (record s {
        compose_messages =
            write key (some (record { received = false; bump = bump })) s.compose_messages;
      }))

-- `ClearCompose::apply`: the message is marked, and its account stays.
unfoldable pub clear_compose : Runtime → (to : ℕ) → ClearComposeParams → Store → Result Store
clear_compose env to params s = do
  let key = compose_key params.from to params.guid params.index (env.keccak params.message)
  compose_message ← account (s.compose_messages key)
  require (not compose_message.received) (layer_zero LayerZeroError.compose_not_found)
  ok (
      emit (compose_delivered params.from to params.guid params.index) (record s {
        compose_messages =
            write key (some (record compose_message { received = true })) s.compose_messages;
      }))

-- `LzReceiveAlert::apply`
unfoldable pub alert_receive : (executor : ℕ) → LzReceiveAlertParams → Store → Store
alert_receive executor p s =
    emit
      (lz_receive_alert p.receiver executor p.src_eid p.sender p.nonce p.guid p.compute_units
        p.value p.message p.extra_data p.reason)
      s

-- `LzComposeAlert::apply`
unfoldable pub alert_compose : (executor : ℕ) → LzComposeAlertParams → Store → Store
alert_compose executor p s =
    emit
      (lz_compose_alert executor p.from p.to p.guid p.index p.compute_units p.value p.message
        p.extra_data p.reason)
      s
