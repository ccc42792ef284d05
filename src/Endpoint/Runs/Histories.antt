-- ===== src/Endpoint/Runs/Histories.antt =====
-- Histories of the concrete endpoint.
use lz_v2_audit.Prelude.{
  ℕ, ◌<◌, ◌≡◌, refl, none, some, [], ◌∷◌, false, Result, ok, err, panic, write-both, nat_eq,
  pair_eq,
}
use lz_v2_audit.Bytes.{be_bytes}
use lz_v2_audit.Endpoint.State.{MessagingReceipt}
use lz_v2_audit.Endpoint.Store.{Store}
use lz_v2_audit.SortedList.{binary_search}
use lz_v2_audit.Endpoint.Channel.{insert_pending_inbound_nonce}
use lz_v2_audit.Endpoint.Messaging.{
  ClearParams, BurnParams, SkipParams, clear, burn, skip, init_nonce,
}
use lz_v2_audit.Endpoint.Sending.{
  SendParams, send, get_guid, get_send_library, assert_send_library, call_library,
}
use lz_v2_audit.Endpoint.Sending.Quoting.{IsQuoted, quote-send}
use lz_v2_audit.Endpoint.Libraries.{register_oapp}
use lz_v2_audit.Endpoint.Safety.{IsStore, IsChannelAt}
use lz_v2_audit.Endpoint.Safety.Steps.{
  Reach, here, next, init_nonce_step, register_oapp_step, clear_step,
}
use lz_v2_audit.Endpoint.Safety.Replay.{IsFinished, clear_once}
use lz_v2_audit.Endpoint.Safety.Final.{burn_final, skip_final}
use lz_v2_audit.Endpoint.Safety.Numbers.{no_accounts, reachable-IsStore, send_nonces_increase}
use lz_v2_audit.Endpoint.Runs.{env, key, nonce_3, pending_5, ready, after}
use lz_v2_audit.Endpoint.Runs.Channels.{ready-IsChannel}

ready-IsStore : IsStore ready
ready-IsStore = record {
  channel_at = λ j.
      write-both IsChannelAt key j (some nonce_3) (some pending_5) (λ k. none) (λ k. none)
        ready-IsChannel tt;
}

abbrev clear_3 : ClearParams
clear_3 = record { receiver = 7; src_eid = 2; sender = 9; nonce = 3; guid = 77; message = 1 ∷ [] }

abbrev first : Store → Result (Store × ℕ) → Store
first s (ok (t, hash)) = t
first s (err e) = s
first s panic = s

abbrev cleared : Store
cleared = first ready (clear env 7 clear_3 ready)

cleared_3 : clear env 7 clear_3 ready ≡ ok (cleared, 33)
unfolding clear be_bytes
cleared_3 = refl

clear_once_example : IsFinished cleared 7 2 9 3
clear_once_example = clear_once env 7 clear_3 ready cleared cleared 33 ready-IsStore cleared_3 here

abbrev burn_3 : BurnParams
burn_3 = record { receiver = 7; src_eid = 2; sender = 9; nonce = 3; payload_hash = 33 }

abbrev burnt : Store
burnt = after ready (burn 8 burn_3 ready)

burnt_3 : burn 8 burn_3 ready ≡ ok burnt
unfolding burn
burnt_3 = refl

burn_final_example : IsFinished burnt 7 2 9 3
burn_final_example = burn_final 8 burn_3 ready burnt burnt ready-IsStore burnt_3 here

abbrev skip_4 : SkipParams
skip_4 = record { receiver = 7; src_eid = 2; sender = 9; nonce = 4 }

abbrev skipped : Store
skipped = after ready (skip 7 skip_4 ready)

skipped_4 : skip 7 skip_4 ready ≡ ok skipped
unfolding skip insert_pending_inbound_nonce binary_search
skipped_4 = refl

-- After 4 is skipped, 3 can still be cleared, and 4 stays finished.
skipped_cleared : Reach skipped (first skipped (clear env 7 clear_3 skipped))
unfolding skip insert_pending_inbound_nonce binary_search clear be_bytes
skipped_cleared = next here (clear_step env 7 clear_3 33 refl)

skip_final_example : IsFinished (first skipped (clear env 7 clear_3 skipped)) 7 2 9 4
skip_final_example =
    skip_final 7 skip_4 ready skipped (first skipped (clear env 7 clear_3 skipped)) ready-IsStore
      skipped_4 skipped_cleared

-- An oapp registers, and opens a channel.
abbrev registered : Store
registered = after no_accounts (register_oapp 7 255 8 no_accounts)

abbrev opened : Store
opened =
    after registered
      (init_nonce 8 255 254 (record { local_oapp = 7; remote_eid = 2; remote_oapp = 9 }) registered)

opening : Reach no_accounts opened
unfolding register_oapp init_nonce
opening =
    next (next here (register_oapp_step 7 255 8 refl))
      (init_nonce_step 8 255 254 (record { local_oapp = 7; remote_eid = 2; remote_oapp = 9 }) refl)

reachable-IsStore_example : IsStore opened
reachable-IsStore_example = reachable-IsStore opened opening

abbrev send_hi : SendParams
send_hi = record {
  dst_eid = 2;
  receiver = 9;
  message = 104 ∷ 105 ∷ [];
  options = [];
  native_fee = 5;
  lz_token_fee = 0;
}

abbrev store_of : Store → Result (Store × MessagingReceipt) → Store
store_of s (ok (t, receipt)) = t
store_of s (err e) = s
store_of s panic = s

abbrev sent_5 : Store
sent_5 = store_of ready (send env 7 20 false send_hi ready)

abbrev sent_6 : Store
sent_6 = store_of sent_5 (send env 7 20 false send_hi sent_5)

-- The guid hashes 80 bytes.
abbrev receipt : ℕ → MessagingReceipt
receipt n = record { guid = 80; nonce = n; fee = record { native_fee = 5; lz_token_fee = 0 } }

send_first : send env 7 20 false send_hi ready ≡ ok (sent_5, receipt 5)
unfolding send get_guid get_send_library assert_send_library call_library be_bytes
send_first = refl

send_second : send env 7 20 false send_hi sent_5 ≡ ok (sent_6, receipt 6)
unfolding send get_guid get_send_library assert_send_library call_library be_bytes
send_second = refl

send_nonces_increase_example : 5 < 6
send_nonces_increase_example =
    send_nonces_increase env env 7 20 20 false false send_hi send_hi ready sent_5 sent_5 sent_6
      (receipt 5) (receipt 6) ready-IsStore refl refl send_first here send_second

quote-send_example : IsQuoted env 7 20 send_hi ready (receipt 5)
quote-send_example = quote-send env 7 20 send_hi ready sent_5 (receipt 5) send_first
